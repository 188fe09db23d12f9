-- ===== src/Llist/RemoveNode.antt =====
-- The branches of `remove_node` in src/llist.c, which the searches use.
use libcplus.Common.{
  ℕ, suc, ◌-◌, ◌<◌, ◌≡◌, ◌≢◌, refl, sym, true, false, some, [], ◌∷◌, arith, ◌==◌, length, pos,
  ne→==, eq→==,
}
use libcplus.Heap.{Ptr, null, node, Mem}
use libcplus.Heap.Returns.{Returns, returns}
use libcplus.Llist.{LinkedList, at_head, reset_cur_node, count_down, remove_node}
use libcplus.Llist.Access.{
  set_prev-at, set_next-at, load-at, IsAt-write_self, IsAt-write_ne, write_ne,
}
use libcplus.Llist.Pop.{
  Unlinked, front-apart, front-UnlinkedAt, behind_front, back-UnlinkedAt, at-end, at-before_end,
  end-apart, before_back,
}
use libcplus.Llist.Rep.{IsList, IsCursor, IsAtHead}
use libcplus.Llist.Unlink.{e, h1, h2, h3, at-b, at-e, at-p, b-e, b-p, p-e, inside-Unlinked}
use libcplus.Llist.Segment.{
  ptr_at-zero, Cells, first, last, last-eq, ptr_at, ptr_before, value_at, IsAt, has-ptr_at,
  ptr_at-ne, ne_of_has,
}

-- the outcome for the node at position `j`
abbrev pub Detached : Mem → Cells → ℕ → LinkedList → Mem → Type 0
Detached m xs j l m' = Unlinked m xs j (ptr_at xs j null, l) m' × IsAtHead l

module _ (m : Mem) (l : LinkedList) where
  pub remove_node-only :
      (p v : Ptr)
      → IsList m.heap l ((p, v) ∷ [])
      → Returns (Detached m ((p, v) ∷ []) 0) (remove_node l p m)
  unfolding remove_node reset_cur_node
  remove_node-only p v is =
      let foremost : (l.head == p) ≡ true = eq→== l.head p is.head in
      let emptied : (count_down l.count == 0) ≡ true = eq→== (count_down l.count) 0 (omega arith) in
      rw (remove_node, load-at m p is.chain.0, foremost, set_next-at m p is.chain.0 null, emptied)
        (returns (
          record {
            out = refl;
            at = IsAt-write_self m.heap p _ is.chain.0.ne_null;
            list = record {
              chain = tt;
              head = refl;
              tail = refl;
              count = omega arith;
              small = omega arith;
            };
            frame = λ a o.
                write_ne m.heap p _ a
                  (ne_of_has a p ((p, v) ∷ []) (has-ptr_at ((p, v) ∷ []) null 0 (omega arith)) o);
            errno = refl;
          },
          (refl, refl),
        ))

  pub remove_node-front :
      (p v q w : Ptr) (ys : Cells)
      → IsList m.heap l ((p, v) ∷ (q, w) ∷ ys)
      → Returns (Detached m ((p, v) ∷ (q, w) ∷ ys) 0) (remove_node l p m)
  unfolding remove_node reset_cur_node
  remove_node-front p v q w ys is =
      let foremost : (l.head == p) ≡ true = eq→== l.head p is.head in
      let more : (q == null) ≡ false = ne→== q null is.chain.2.0.ne_null in
      let left : (count_down l.count == 0) ≡ false = ne→== (count_down l.count) 0 (omega arith) in
      let at-p =
        IsAt-write_ne m.heap q p (some (node w null (first_of ys))) (front-apart m l p v q w ys is)
          is.chain.0 in
      rw
        (
          remove_node,
          load-at m p is.chain.0,
          foremost,
          more,
          set_prev-at m q is.chain.2.0 null,
          set_next-at (record m { heap = behind_front m l p v q w ys is }) p at-p null,
          left,
        )
        (returns (front-UnlinkedAt m l p v q w ys is))
    where
      first_of : Cells → Ptr
      first_of zs = first zs null

  pub remove_node-back :
      (i : ℕ) (xs : Cells)
      → length xs ≡ suc (suc i)
      → IsList m.heap l xs
      → Returns (Detached m xs (suc i)) (remove_node l (ptr_at xs (suc i) null) m)
  unfolding remove_node reset_cur_node
  remove_node-back i xs size is =
      let other : (l.head == end') ≡ false =
        ne→== l.head end' (rw (is.head, ← ptr_at-zero xs null) head-apart) in
      let hindmost : (l.tail == end') ≡ true = eq→== l.tail end' is.tail in
      let more : (before' == null) ≡ false =
        ne→== before' null (at-before_end m l i xs size is).ne_null in
      let left : (count_down l.count == 0) ≡ false = ne→== (count_down l.count) 0 (omega arith) in
      let at-t =
        IsAt-write_ne m.heap before' end' (some (node (value_at xs i) (ptr_before null xs i) null))
          (end-apart m l i xs size is) (at-end m l i xs size is) in
      rw (← last-eq null xs null (suc i) size) (
        rw
          (
            remove_node,
            load-at m end' (at-end m l i xs size is),
            other,
            hindmost,
            more,
            set_next-at m before' (at-before_end m l i xs size is) null,
            set_prev-at (record m { heap = before_back m l i xs size is }) end' at-t null,
            left,
          )
          (returns (rw (← last-eq null xs null (suc i) size) (back-UnlinkedAt m l i xs size is))))
    where
      end' : Ptr
      end' = last null xs

      before' : Ptr
      before' = ptr_at xs i null

      head-apart : ptr_at xs 0 null ≢ end'
      head-apart =
          rw (last-eq null xs null (suc i) size)
            (ptr_at-ne m.heap null xs null 0 (suc i) is.chain (omega arith) (omega arith))

  pub remove_node-inside :
      (k : ℕ) (xs : Cells)
      → suc (suc k) < length xs
      → IsList m.heap l xs
      → IsCursor m.heap l xs (suc k)
      → Returns (Detached m xs (suc k)) (remove_node l (ptr_at xs (suc k) null) m)
  unfolding remove_node reset_cur_node
  remove_node-inside k xs h is c =
      let not_head : (l.head == q) ≡ false =
        ne→== l.head q (rw (is.head, ← ptr_at-zero xs null) head-apart) in
      let not_tail : (l.tail == q) ≡ false = ne→== l.tail q (rw is.tail tail-apart) in
      let left : (count_down l.count == 0) ≡ false = ne→== (count_down l.count) 0 (omega arith) in
      rw
        (
          remove_node,
          load-at m q at,
          not_head,
          not_tail,
          set_next-at m (b') (at-b m l i k xs is c hi h1') (e m l i k xs is c hi),
          set_prev-at (record m { heap = h1 m l i k xs is c hi }) (e m l i k xs is c hi)
              (IsAt-write_ne m.heap b' _ _ (λ s. b-e m l i k xs is c hi h (sym s))
                (at-e m l i k xs is c hi h))
              b',
          set_next-at (record m { heap = h2 m l i k xs is c hi h }) q
              (IsAt-write_ne _ _ q _ (p-e m l i k xs is c hi h)
                (IsAt-write_ne m.heap b' q _ (λ s. b-p m l i k xs is c hi h1' (sym s)) at))
              null,
          set_prev-at (record m { heap = h3 m l i k xs is c hi h }) q
              (IsAt-write_self _ q _ at.ne_null) null,
          left,
        )
        (returns (inside-Unlinked m l i k xs is c hi h l' refl refl refl, (refl, refl)))
    where
      i : ℕ
      i = suc k

      hi : i < length xs
      hi = omega arith

      h1' : suc k < length xs
      h1' = omega arith

      q : Ptr
      q = ptr_at xs (suc k) null

      b' : Ptr
      b' = ptr_at xs k null

      at : IsAt m.heap q (node (value_at xs (suc k)) b' (ptr_at xs (suc (suc k)) null))
      at = at-p m l i k xs is c hi h1'

      l' : LinkedList
      l' = record l { count = count_down l.count; cur_index = pos 0; current = at_head }

      head-apart : ptr_at xs 0 null ≢ q
      head-apart = ptr_at-ne m.heap null xs null 0 (suc k) is.chain (omega arith) h1'

      tail-apart : last null xs ≢ q
      tail-apart = rw (last-eq null xs null (length xs - 1) (omega arith)) (λ s.
          ptr_at-ne m.heap null xs null (suc k) (length xs - 1) is.chain (omega arith) (omega arith)
            (sym s))
