-- ===== src/Llist/Push.antt =====
-- The branches of `push_at` in src/llist.c.
use libcplus.Common.{
  ◌∙◌, ℕ, suc, ◌+◌, ◌%◌, ◌^◌, ◌<◌, ◌≡◌, ◌≢◌, refl, true, false, some, [], ◌∷◌, ◌++◌, arith, ◌==◌,
  length, insert_at, pos, insert_at-length, length-append, ne→==, eq→==,
}
use libcplus.Heap.{Ptr, null, node, Heap, Mem, write}
use libcplus.Heap.Returns.{Returns, returns}
use libcplus.Llist.{
  get_size, count_up, is_empty, reset_cur_node, LinkedList, Status, success, at_head,
}
use libcplus.Llist.Access.{
  write_self, write_ne, stored, set_prev-at, set_next-at, IsAt-write_self, IsAt-write_ne,
}
use libcplus.Llist.Ops.{push_at}
use libcplus.Llist.Links.{Segment-first, Segment-last, Segment-snoc}
use libcplus.Llist.Rep.{IsList, IsCursor, IsCursor-head}
use libcplus.Llist.Segment.{
  ne_of_has, IsAt-last, first-snoc, last-snoc, last-eq, ptr_at-ne_fresh, Cells, has, first, last,
  ptr_before, value_at, IsAt, Segment, Segment-write, has-ptr_at,
}

-- A node that is in no list yet, as `new_node` makes it.
pub record IsFresh (h : Heap) (xs : Cells) (p v : Ptr) : Type 0 where
  pub at : IsAt h p (node v null null)
  pub apart : has p xs ≡ false

-- The node `p` stands at position `j`; nothing but it and the list's own nodes has changed.
pub record Pushed (m : Mem) (xs : Cells) (j : ℕ) (p v : Ptr) (r : Status × LinkedList) (m' : Mem)
    : Type 0 where
  pub status : r.0 ≡ success
  pub list : IsList m'.heap r.1 (insert_at xs j (p, v))
  pub frame : (a : Ptr) → has a xs ≡ false → a ≢ p → m'.heap a ≡ m.heap a
  pub errno : m'.errno ≡ m.errno

module _ (m : Mem) (l : LinkedList) (p v : Ptr) where
  -- the outcome, with the cursor at a position
  abbrev pub PushedAt : Cells → ℕ → ℕ → Status × LinkedList → Mem → Type 0
  PushedAt xs j c r m' = Pushed m xs j p v r m' × IsCursor m'.heap r.1 (insert_at xs j (p, v)) c

  pub push_at-empty :
      IsList m.heap l [] → IsFresh m.heap [] p v → Returns (PushedAt [] 0 0) (push_at l (pos 0) p m)
  unfolding push_at is_empty reset_cur_node
  push_at-empty is f =
      let idle : (l.count == 0) ≡ true = ground arith in
      rw (push_at, idle)
        (returns (
          record { status = refl; list = list; frame = λ a o n. refl; errno = refl },
          IsCursor-head list refl refl,
        ))
    where
      l' : LinkedList
      l' = record l {
        head = p;
        tail = p;
        cur_index = pos 0;
        current = at_head;
        count = count_up l.count;
      }

      list : IsList m.heap l' ((p, v) ∷ [])
      list = record {
        chain = (f.at, refl, tt);
        head = refl;
        tail = refl;
        count = omega arith;
        small = omega arith;
      }

  -- The list with its cursor back at the head, and one more node.
  abbrev grown : Ptr → Ptr → LinkedList
  grown head tail = record l {
    head = head;
    tail = tail;
    cur_index = pos 0;
    current = at_head;
    count = count_up l.count;
  }

  pub push_at-front :
      (q w : Ptr) (xs : Cells)
      → IsList m.heap l ((q, w) ∷ xs)
      → IsFresh m.heap ((q, w) ∷ xs) p v
      → suc (length xs) + 1 < 2147483647
      → Returns (PushedAt ((q, w) ∷ xs) 0 0) (push_at l (pos 0) p m)
  unfolding push_at is_empty reset_cur_node
  push_at-front q w xs is f small =
      let busy : (l.count == 0) ≡ false = ground arith in
      let m1 : Mem = stored m q (some (node w p (first xs null))) in
      let ne : p ≢ q = ground arith in
      let new = IsAt-write_ne m.heap q p (some (node w p (first xs null))) ne f.at in
      rw (push_at, busy, is.head, set_prev-at m q is.chain.0 p, set_next-at m1 p new q)
        (returns (
          record {
            status = refl;
            list = list;
            frame = unfold write in λ a o n. ground arith;
            errno = refl;
          },
          IsCursor-head list refl refl,
        ))
    where
      h1 : Heap
      h1 = write m.heap q (some (node w p (first xs null)))

      h2 : Heap
      h2 = write h1 p (some (node v null q))

      front-chain : Segment h2 null ((p, v) ∷ (q, w) ∷ xs) null
      front-chain = (
        IsAt-write_self h1 p _ f.at.ne_null,
        f.apart,
        Segment-write h1 p ((q, w) ∷ xs) null p (some (node v null q)) f.apart (
            Segment-first {h = m.heap} {g = h1} null p q w xs null (unfold write in ground arith)
              (unfold write in ground arith) is.chain),
      )

      list : IsList h2 (grown p l.tail) ((p, v) ∷ (q, w) ∷ xs)
      list = record {
        chain = front-chain;
        head = refl;
        tail = is.tail;
        count = omega arith;
        small = omega arith;
      }

  pub push_at-back :
      (i : ℕ) (xs : Cells)
      → length xs ≡ suc i
      → IsList m.heap l xs
      → IsFresh m.heap xs p v
      → length xs + 1 < 2147483647
      → Returns (PushedAt xs (length xs) 0) (push_at l (pos (length xs)) p m)
  unfolding push_at is_empty get_size reset_cur_node
  push_at-back i xs size is f small =
      let busy : (l.count == 0) ≡ false = ne→== l.count 0 (omega arith) in
      let later : (length xs == 0) ≡ false = ne→== (length xs) 0 (omega arith) in
      let end : (l.count == length xs % 2 ^ 32) ≡ true =
        eq→== l.count (length xs % 2 ^ 32) (omega arith) in
      let m1 : Mem = stored m t (some (node vt bt p)) in
      let new = IsAt-write_ne m.heap t p (some (node vt bt p)) apart f.at in
      rw (push_at, busy, later, end, is.tail, set_next-at m t at p, set_prev-at m1 p new t)
        (returns (
          record {
            status = refl;
            list = list;
            frame = λ a o n. write_ne h1 p _ a n ∙ write_ne m.heap t _ a (ne_of_has a t xs t-mem o);
            errno = refl;
          },
          IsCursor-head list refl refl,
        ))
    where
      t : Ptr
      t = last null xs

      vt : Ptr
      vt = value_at xs i

      bt : Ptr
      bt = ptr_before null xs i

      at : IsAt m.heap t (node vt bt null)
      at = IsAt-last m.heap null xs null i size is.chain

      t-mem : has t xs ≡ true
      t-mem = rw (last-eq null xs null i size) (has-ptr_at xs null i (omega arith))

      apart : p ≢ t
      apart = ground (arith, ptr_at-ne_fresh xs null p i f.apart, last-eq null xs null i size)

      h1 : Heap
      h1 = write m.heap t (some (node vt bt p))

      h2 : Heap
      h2 = write h1 p (some (node v t null))

      back-chain : Segment h2 null (xs ++ (p, v) ∷ []) null
      back-chain =
          Segment-snoc null xs p v null f.apart (IsAt-write_self h1 p (node v t null) f.at.ne_null)
            (Segment-write h1 null xs p p (some (node v t null)) f.apart (
              Segment-last {h = m.heap} {g = h1} null xs null p (rw (write_self, at.holds))
                (λ a i n. write_ne m.heap t _ a n) is.chain))

      list : IsList h2 (grown l.head p) (insert_at xs (length xs) (p, v))
      list = rw (insert_at-length xs (p, v)) (record {
        chain = back-chain;
        head = rw (first-snoc xs p v null null i size) is.head;
        tail = rw last-snoc;
        count = omega (arith, length-append xs ((p, v) ∷ []));
        small = omega (arith, length-append xs ((p, v) ∷ []));
      })
