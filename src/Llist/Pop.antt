-- ===== src/Llist/Pop.antt =====
-- The branches of `pop_of` in src/llist.c.
use libcplus.Common.{
  ℕ, suc, ◌%◌, ◌^◌, ◌≡◌, ◌≢◌, refl, sym, ◌∙◌, true, false, some, [], ◌∷◌, arith, ◌==◌, length,
  remove_at, pos, length-remove_at, ne→==, eq→==,
}
use libcplus.Heap.{Ptr, null, node, Heap, Mem, write}
use libcplus.Heap.Returns.{Returns, returns}
use libcplus.Llist.{LinkedList, at_head, is_empty, get_size, reset_cur_node, count_down}
use libcplus.Llist.Access.{
  set_prev-at, set_next-at, load-at, IsAt-write_self, IsAt-write_ne, write_self, write_ne,
}
use libcplus.Llist.Ops.{pop_of}
use libcplus.Llist.Links.{
  Segment-first, Segment-last, Segment-init, last-remove_at, first-remove_at, has-removed,
}
use libcplus.Llist.Rep.{IsList, IsAtHead}
use libcplus.Llist.Segment.{
  Cells, has, first, last, last-eq, ptr_at, ptr_before, value_at, IsAt, IsAt-Segment, IsAt-last,
  Segment-write, has-ptr_at, ptr_before-suc, ptr_at-ne, ne_of_has,
}

-- The node at position `j` is out of the list, and still holds its value; nothing but the list's own
-- nodes has changed.
pub record Unlinked (m : Mem) (xs : Cells) (j : ℕ) (r : Ptr × LinkedList) (m' : Mem) : Type 0 where
  pub out : r.0 ≡ ptr_at xs j null
  pub at : IsAt m'.heap r.0 (node (value_at xs j) null null)
  pub list : IsList m'.heap r.1 (remove_at xs j)
  pub frame : (a : Ptr) → has a xs ≡ false → m'.heap a ≡ m.heap a
  pub errno : m'.errno ≡ m.errno

module _ (m : Mem) (l : LinkedList) where
  -- the outcome, with the cursor at the head
  abbrev pub UnlinkedAt : Cells → ℕ → Ptr × LinkedList → Mem → Type 0
  UnlinkedAt xs j r m' = Unlinked m xs j r m' × IsAtHead r.1

  -- the list with its cursor back at the head, and a node less
  abbrev pub shrunk : Ptr → Ptr → LinkedList
  shrunk head tail = record l {
    head = head;
    tail = tail;
    cur_index = pos 0;
    current = at_head;
    count = count_down l.count;
  }

  module _ (p v : Ptr) (is : IsList m.heap l ((p, v) ∷ [])) where
    abbrev pub alone : Mem
    alone = record m { heap = write m.heap p (some (node v null null)) }

    pub only-UnlinkedAt : UnlinkedAt ((p, v) ∷ []) 0 (p, shrunk null null) alone
    only-UnlinkedAt = (
      record {
        out = refl;
        at = IsAt-write_self m.heap p _ is.chain.0.ne_null;
        list = none-left;
        frame = λ a o.
            write_ne m.heap p _ a
              (ne_of_has a p ((p, v) ∷ []) (has-ptr_at ((p, v) ∷ []) null 0 (omega arith)) o);
        errno = refl;
      },
      (refl, refl),
    )
      where
        none-left : IsList alone.heap (shrunk null null) []
        none-left = record {
          chain = tt;
          head = refl;
          tail = refl;
          count = omega arith;
          small = omega arith;
        }

    -- the only node, by index 0 and by index 1
    pub pop_of-only_front : Returns (UnlinkedAt ((p, v) ∷ []) 0) (pop_of l (pos 0) m)
    unfolding pop_of is_empty reset_cur_node
    pop_of-only_front =
        let busy : (l.count == 0) ≡ false = ne→== l.count 0 (omega arith) in
        let emptied : (count_down l.count == 0) ≡ true =
          eq→== (count_down l.count) 0 (omega arith) in
        rw (pop_of, busy, is.head, load-at m p is.chain.0, set_next-at m p is.chain.0 null, emptied)
          (returns only-UnlinkedAt)

    pub pop_of-only_back : Returns (UnlinkedAt ((p, v) ∷ []) 0) (pop_of l (pos 1) m)
    unfolding pop_of is_empty get_size reset_cur_node
    pop_of-only_back =
        let busy : (l.count == 0) ≡ false = ne→== l.count 0 (omega arith) in
        let end : (l.count == 1 % 2 ^ 32) ≡ true = eq→== l.count (1 % 2 ^ 32) (omega arith) in
        let emptied : (count_down l.count == 0) ≡ true =
          eq→== (count_down l.count) 0 (omega arith) in
        rw
          (
            pop_of,
            busy,
            end,
            is.tail,
            load-at m p is.chain.0,
            set_prev-at m p is.chain.0 null,
            emptied,
          )
          (returns only-UnlinkedAt)

  -- the first of several nodes
  module _ (p v q w : Ptr) (ys : Cells) (is : IsList m.heap l ((p, v) ∷ (q, w) ∷ ys)) where
    abbrev front_cells : Cells
    front_cells = (p, v) ∷ (q, w) ∷ ys

    abbrev pub behind_front : Heap
    behind_front = write m.heap q (some (node w null (first ys null)))

    abbrev pub without_front : Heap
    without_front = write behind_front p (some (node v null null))

    pub front-apart : p ≢ q
    front-apart =
        ne_of_has p q ((q, w) ∷ ys) (has-ptr_at ((q, w) ∷ ys) null 0 (omega arith)) is.chain.1

    pub front-UnlinkedAt :
        UnlinkedAt front_cells 0 (p, shrunk q l.tail) (record m { heap = without_front })
    front-UnlinkedAt = (
      record {
        out = refl;
        at = IsAt-write_self behind_front p _ is.chain.0.ne_null;
        list = record {
          chain = Segment-write behind_front null ((q, w) ∷ ys) null p _ is.chain.1 (
              Segment-first {h = m.heap} {g = behind_front} p null q w ys null
                (rw is.chain.2.0.holds (write_self m.heap q _))
                (λ a i. write_ne m.heap q _ a (λ e. ne_of_has q a ys i is.chain.2.1 (sym e)))
                is.chain.2);
          head = refl;
          tail = is.tail;
          count = omega arith;
          small = omega arith;
        };
        frame = λ a o.
            write_ne behind_front p _ a
              (ne_of_has a p front_cells (has-ptr_at front_cells null 0 (omega arith)) o)
            ∙ write_ne m.heap q _ a
                (ne_of_has a q front_cells (has-ptr_at front_cells null 1 (omega arith)) o);
        errno = refl;
      },
      (refl, refl),
    )

    pub pop_of-front : Returns (UnlinkedAt front_cells 0) (pop_of l (pos 0) m)
    unfolding pop_of is_empty reset_cur_node
    pop_of-front =
        let busy : (l.count == 0) ≡ false = ne→== l.count 0 (omega arith) in
        let more : (q == null) ≡ false = ne→== q null is.chain.2.0.ne_null in
        let left : (count_down l.count == 0) ≡ false = ne→== (count_down l.count) 0 (omega arith) in
        let at-p =
          IsAt-write_ne m.heap q p (some (node w null (first ys null))) front-apart is.chain.0 in
        rw
          (
            pop_of,
            busy,
            is.head,
            load-at m p is.chain.0,
            more,
            set_prev-at m q is.chain.2.0 null,
            set_next-at (record m { heap = behind_front }) p at-p null,
            left,
          )
          (returns front-UnlinkedAt)

  -- the last of several nodes
  module _ (i : ℕ) (xs : Cells) (size : length xs ≡ suc (suc i)) (is : IsList m.heap l xs) where
    abbrev pub end : Ptr
    end = last null xs

    abbrev pub before_end : Ptr
    before_end = ptr_at xs i null

    end-eq : end ≡ ptr_at xs (suc i) null
    end-eq = last-eq null xs null (suc i) size

    pub at-end : IsAt m.heap end (node (value_at xs (suc i)) before_end null)
    at-end =
        rw (← ptr_before-suc null xs null i (omega arith))
          (IsAt-last m.heap null xs null (suc i) size is.chain)

    pub at-before_end :
        IsAt m.heap before_end
          (node (value_at xs i) (ptr_before null xs i) (ptr_at xs (suc i) null))
    at-before_end = IsAt-Segment null xs null i is.chain (omega arith)

    pub end-apart : end ≢ before_end
    end-apart =
        rw end-eq (λ e.
          ptr_at-ne m.heap null xs null i (suc i) is.chain (omega arith) (omega arith) (sym e))

    abbrev pub before_back : Heap
    before_back = write m.heap before_end (some (node (value_at xs i) (ptr_before null xs i) null))

    abbrev pub without_back : Heap
    without_back = write before_back end (some (node (value_at xs (suc i)) null null))

    end-in : has end xs ≡ true
    end-in = rw end-eq (has-ptr_at xs null (suc i) (omega arith))

    end-out : has end (remove_at xs (suc i)) ≡ false
    end-out = rw end-eq (has-removed m.heap null xs null (suc i) is.chain (omega arith))

    new-end : last null (remove_at xs (suc i)) ≡ before_end
    new-end = last-remove_at null xs null i size

    pub back-UnlinkedAt :
        UnlinkedAt xs (suc i) (end, shrunk l.head before_end) (record m { heap = without_back })
    back-UnlinkedAt = (
      record {
        out = end-eq;
        at = IsAt-write_self before_back end _ at-end.ne_null;
        list = record {
          chain = Segment-write before_back null (remove_at xs (suc i)) null end _ end-out (
              Segment-last {h = m.heap} {g = before_back} null (remove_at xs (suc i))
                (ptr_at xs (suc i) null) null
                (rw (new-end, at-before_end.holds) (write_self m.heap before_end _))
                (λ a o n. write_ne m.heap before_end _ a (rw (← new-end) n))
                (Segment-init m.heap null xs null (suc i) size is.chain));
          head = is.head ∙ sym (first-remove_at xs (suc i) null (omega arith));
          tail = sym new-end;
          count = omega (arith, length-remove_at xs (suc i));
          small = omega (arith, length-remove_at xs (suc i));
        };
        frame = λ a o.
            write_ne before_back end _ a (ne_of_has a end xs end-in o)
            ∙ write_ne m.heap before_end _ a
                (ne_of_has a before_end xs (has-ptr_at xs null i (omega arith)) o);
        errno = refl;
      },
      (refl, refl),
    )

    pub pop_of-back : Returns (UnlinkedAt xs (suc i)) (pop_of l (pos (length xs)) m)
    unfolding pop_of is_empty get_size reset_cur_node
    pop_of-back =
        let busy : (l.count == 0) ≡ false = ne→== l.count 0 (omega arith) in
        let later : (length xs == 0) ≡ false = ne→== (length xs) 0 (omega arith) in
        let whole : (l.count == length xs % 2 ^ 32) ≡ true =
          eq→== l.count (length xs % 2 ^ 32) (omega arith) in
        let more : (before_end == null) ≡ false = ne→== before_end null at-before_end.ne_null in
        let left : (count_down l.count == 0) ≡ false = ne→== (count_down l.count) 0 (omega arith) in
        let at-t =
          IsAt-write_ne m.heap before_end end
            (some (node (value_at xs i) (ptr_before null xs i) null)) end-apart at-end in
        rw
          (
            pop_of,
            busy,
            later,
            whole,
            is.tail,
            load-at m end at-end,
            more,
            set_next-at m before_end at-before_end null,
            set_prev-at (record m { heap = before_back }) end at-t null,
            left,
          )
          (returns back-UnlinkedAt)
