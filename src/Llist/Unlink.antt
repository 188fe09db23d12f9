-- ===== src/Llist/Unlink.antt =====
-- The last branch of `pop_of` in src/llist.c.
use libcplus.Common.{
  ℕ, suc, ◌%◌, ◌^◌, ◌<◌, ◌≡◌, ◌≢◌, refl, sym, ◌∙◌, false, some, arith, ◌==◌, length, pos,
  length-remove_at, ne→==,
}
use libcplus.Heap.{Ptr, null, node, Heap, Mem, fault, write}
use libcplus.Heap.Returns.{Returns, returns}
use libcplus.Llist.{LinkedList, is_empty, get_size, count_down}
use libcplus.Llist.Access.{
  set_prev-at, set_next-at, load-at, set_prev-null, IsAt-write_self, IsAt-write_ne, write_self,
  write_ne,
}
use libcplus.Llist.Ops.{pop_of, unlink}
use libcplus.Llist.Links.{Segment-remove, last-remove_at_inside, first-remove_at}
use libcplus.Llist.Pop.{Unlinked}
use libcplus.Llist.Rep.{IsList, IsCursor}
use libcplus.Llist.Walk.{moved, moved-same, get_node_of-ok}
use libcplus.Llist.Segment.{
  ptr_at-length, Cells, ptr_at, ptr_before, value_at, IsAt, IsAt-Segment, has-ptr_at,
  ptr_before-suc, ptr_at-ne, ne_of_has,
}

module _ (m : Mem) (l : LinkedList) (i k : ℕ) (xs : Cells) (is : IsList m.heap l xs)
    (c : IsCursor m.heap l xs i) (hi : i < length xs) where
  abbrev pub p : Ptr
  p = ptr_at xs (suc k) null

  abbrev pub b : Ptr
  b = ptr_at xs k null

  abbrev pub e : Ptr
  e = ptr_at xs (suc (suc k)) null

  pub at-p : suc k < length xs → IsAt m.heap p (node (value_at xs (suc k)) b e)
  at-p h =
      rw (← ptr_before-suc null xs null k (omega arith))
        (IsAt-Segment null xs null (suc k) is.chain h)

  pub at-b : suc k < length xs → IsAt m.heap b (node (value_at xs k) (ptr_before null xs k) p)
  at-b h = IsAt-Segment null xs null k is.chain (omega arith)

  pub b-p : suc k < length xs → b ≢ p
  b-p h = ptr_at-ne m.heap null xs null k (suc k) is.chain (omega arith) h

  abbrev pub h1 : Heap
  h1 = write m.heap b (some (node (value_at xs k) (ptr_before null xs k) e))

  abbrev pub m1 : Mem
  m1 = record m { heap = h1 }

  -- At the last index, where there is no next node, the branch writes through NULL.
  pub pop_of-last_index : suc (suc k) ≡ length xs → pop_of l (pos (suc k)) m ≡ fault
  unfolding pop_of is_empty get_size unlink
  pop_of-last_index size =
      let h : suc k < length xs = omega arith in
      let busy : (l.count == 0) ≡ false = ne→== l.count 0 (omega arith) in
      let later : (suc k == 0) ≡ false = ne→== (suc k) 0 (omega arith) in
      let inside : (l.count == suc k % 2 ^ 32) ≡ false =
        ne→== l.count (suc k % 2 ^ 32) (omega arith) in
      let found : (p == null) ≡ false = ne→== p null (at-p h).ne_null in
      let no_next : e ≡ null = rw size (ptr_at-length xs null) in
      rw (
        pop_of,
        busy,
        later,
        inside,
        get_node_of-ok m xs is.chain l i (suc k) c hi h,
        found,
        load-at m p (at-p h),
        set_next-at m b (at-b h) e,
        no_next,
        set_prev-null,
      )

  module _ (h : suc (suc k) < length xs) where
    abbrev pub h' : suc k < length xs
    h' = omega arith

    abbrev pub h2 : Heap
    h2 = write h1 e (some (node (value_at xs (suc (suc k))) b (ptr_at xs (suc (suc (suc k))) null)))

    abbrev pub h3 : Heap
    h3 = write h2 p (some (node (value_at xs (suc k)) b null))

    abbrev pub h4 : Heap
    h4 = write h3 p (some (node (value_at xs (suc k)) null null))

    pub at-e :
        IsAt m.heap e (node (value_at xs (suc (suc k))) p (ptr_at xs (suc (suc (suc k))) null))
    at-e =
        rw (← ptr_before-suc null xs null (suc k) h')
          (IsAt-Segment null xs null (suc (suc k)) is.chain h)

    pub b-e : b ≢ e
    b-e = ptr_at-ne m.heap null xs null k (suc (suc k)) is.chain (omega arith) h

    pub p-e : p ≢ e
    p-e = ptr_at-ne m.heap null xs null (suc k) (suc (suc k)) is.chain (omega arith) h

    pub others : (a : Ptr) → a ≢ b → a ≢ e → a ≢ p → h4 a ≡ m.heap a
    others a nb ne np =
        write_ne h3 p _ a np
        ∙ write_ne h2 p _ a np
        ∙ write_ne h1 e _ a ne
        ∙ write_ne m.heap b _ a nb

    -- what the list is left with, whatever its cursor does
    pub inside-Unlinked :
        (l' : LinkedList)
        → l'.head ≡ l.head
        → l'.tail ≡ l.tail
        → l'.count ≡ count_down l.count
        → Unlinked m xs (suc k) (p, l') (record m { heap = h4 })
    inside-Unlinked l' head tail count =
        let before = ptr_before-suc null xs null k (omega arith) in
        record {
          out = refl;
          at = IsAt-write_self h3 p _ (at-p h').ne_null;
          list = record {
            chain =
                Segment-remove {h = m.heap} {g = h4} null xs null (suc k) (omega arith) h
                  (rw (before, (at-b h').holds)
                    (write_ne h3 p _ b (b-p h')
                      ∙ write_ne h2 p _ b (b-p h')
                      ∙ write_ne h1 e _ b b-e
                      ∙ write_self m.heap b _))
                  (rw (before, at-e.holds)
                    (write_ne h3 p _ e (λ q. p-e (sym q))
                      ∙ write_ne h2 p _ e (λ q. p-e (sym q))
                      ∙ write_self h1 e _))
                  (λ a i nb ne np. others a (rw (← before) nb) ne np) is.chain;
            head = head ∙ is.head ∙ sym (first-remove_at xs (suc k) null (omega arith));
            tail = tail ∙ is.tail ∙ sym (last-remove_at_inside null xs (suc k) h);
            count = omega (arith, length-remove_at xs (suc k));
            small = omega (arith, length-remove_at xs (suc k));
          };
          frame = λ a o.
              others a (ne_of_has a b xs (has-ptr_at xs null k (omega arith)) o)
                (ne_of_has a e xs (has-ptr_at xs null (suc (suc k)) h) o)
                (ne_of_has a p xs (has-ptr_at xs null (suc k) h') o);
          errno = refl;
        }

    -- A node that is neither first nor last: the list closes over it, and the cursor stays where the
    -- walk has left it.
    pub pop_of-inside :
        Returns
          (λ r m'.
            Unlinked m xs (suc k) r m'
            × (r.1
                ≡ record (moved l xs i (suc k)) { count = count_down (moved l xs i (suc k)).count })
            × (m'.heap ≡ h4))
          (pop_of l (pos (suc k)) m)
    unfolding pop_of is_empty get_size unlink
    pop_of-inside =
        let same = moved-same l xs i (suc k) in
        let busy : (l.count == 0) ≡ false = ne→== l.count 0 (omega arith) in
        let later : (suc k == 0) ≡ false = ne→== (suc k) 0 (omega arith) in
        let inside : (l.count == suc k % 2 ^ 32) ≡ false =
          ne→== l.count (suc k % 2 ^ 32) (omega arith) in
        let found : (p == null) ≡ false = ne→== p null (at-p h').ne_null in
        let left : (count_down (moved l xs i (suc k)).count == 0) ≡ false =
          ne→== (count_down (moved l xs i (suc k)).count) 0 (omega arith) in
        rw
          (
            pop_of,
            busy,
            later,
            inside,
            get_node_of-ok m xs is.chain l i (suc k) c hi h',
            found,
            load-at m p (at-p h'),
            set_next-at m b (at-b h') e,
            set_prev-at m1 e (IsAt-write_ne m.heap b e _ (λ q. b-e (sym q)) at-e) b,
            set_next-at (record m { heap = h2 }) p
                (IsAt-write_ne h1 e p _ p-e
                  (IsAt-write_ne m.heap b p _ (λ q. b-p h' (sym q)) (at-p h')))
                null,
            set_prev-at (record m { heap = h3 }) p (IsAt-write_self h2 p _ (at-p h').ne_null) null,
            left,
          )
          (returns (inside-Unlinked l' same.1 same.2 (rw same.0), refl, refl))
      where
        l' : LinkedList
        l' = record (moved l xs i (suc k)) { count = count_down (moved l xs i (suc k)).count }
