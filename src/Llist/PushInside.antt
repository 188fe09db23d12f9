-- ===== src/Llist/PushInside.antt =====
-- The branch of `push_at` in src/llist.c for an index inside the list.
use libcplus.Common.{
  sym, ◌∙◌, ℕ, suc, ◌+◌, ◌%◌, ◌^◌, ◌<◌, ◌≡◌, ◌≢◌, refl, false, some, arith, ◌==◌, length, insert_at,
  pos, length-insert_at, ne→==,
}
use libcplus.Heap.{Ptr, null, node, Heap, Mem, write}
use libcplus.Heap.Returns.{Returns, returns}
use libcplus.Llist.{get_size, count_up, is_empty, LinkedList}
use libcplus.Llist.Access.{
  write_self, write_ne, set_prev-at, set_next-at, load-at, IsAt-write_self, IsAt-write_ne,
}
use libcplus.Llist.Walk.{moved-same, moved, get_node_of-ok}
use libcplus.Llist.Ops.{push_at}
use libcplus.Llist.Links.{Segment-insert}
use libcplus.Llist.Rep.{IsList, IsCursor}
use libcplus.Llist.Segment.{
  ne_of_has, first-insert_at, last-insert_at, IsAt-Segment, ptr_at-ne, ptr_at-ne_fresh, Cells, has,
  ptr_at, ptr_before, value_at, IsAt, Segment, has-ptr_at, ptr_before-suc,
}
use libcplus.Llist.Push.{IsFresh, Pushed}

module _ (m : Mem) (l : LinkedList) (p v : Ptr) where
  -- in the middle, from a cursor that is in order
  pub push_at-middle :
      (i k : ℕ) (xs : Cells)
      → suc k < length xs
      → IsList m.heap l xs
      → IsCursor m.heap l xs i
      → IsFresh m.heap xs p v
      → length xs + 1 < 2147483647
      → Returns
          (λ r m'.
            Pushed m xs (suc k) p v r m'
            × (r.1
                ≡ record (moved l xs i (suc k)) { count = count_up (moved l xs i (suc k)).count }))
          (push_at l (pos (suc k)) p m)
  unfolding push_at is_empty get_size
  push_at-middle i k xs hk is c f small =
      let busy : (l.count == 0) ≡ false = ne→== l.count 0 (omega arith) in
      let later : (suc k == 0) ≡ false = ne→== (suc k) 0 (omega arith) in
      let inside : (l.count == suc k % 2 ^ 32) ≡ false =
        ne→== l.count (suc k % 2 ^ 32) (omega arith) in
      let found : (t == null) ≡ false = ne→== t null at-t.ne_null in
      rw
        (
          push_at,
          busy,
          later,
          inside,
          get_node_of-ok m xs is.chain l i (suc k) c (omega arith) hk,
          found,
          set_next-at m p f.at t,
          load-at m1 t (IsAt-write_ne m.heap p t _ t-p at-t),
          set_prev-at m1 p (IsAt-write_self m.heap p _ f.at.ne_null) b,
          set_next-at m2 b (IsAt-write_ne h1 p b _ b-p (IsAt-write_ne m.heap p b _ b-p at-b)) p,
          set_prev-at m3 t
              (IsAt-write_ne h2 b t _ t-b
                (IsAt-write_ne h1 p t _ t-p (IsAt-write_ne m.heap p t _ t-p at-t)))
              p,
        )
        (returns (record { status = refl; list = list; frame = frame; errno = refl }, refl))
    where
      t : Ptr
      t = ptr_at xs (suc k) null

      b : Ptr
      b = ptr_before null xs (suc k)

      at-t : IsAt m.heap t (node (value_at xs (suc k)) b (ptr_at xs (suc (suc k)) null))
      at-t = IsAt-Segment null xs null (suc k) is.chain hk

      vb : Ptr
      vb = value_at xs k

      bb : Ptr
      bb = ptr_before null xs k

      at-b : IsAt m.heap b (node vb bb t)
      at-b =
          rw (ptr_before-suc null xs null k (omega arith))
            (IsAt-Segment null xs null k is.chain (omega arith))

      t-p : t ≢ p
      t-p = ptr_at-ne_fresh xs null p (suc k) f.apart hk

      b-p : b ≢ p
      b-p =
          rw (ptr_before-suc null xs null k (omega arith))
            (ptr_at-ne_fresh xs null p k f.apart (omega arith))

      t-b : t ≢ b
      t-b =
          rw (ptr_before-suc null xs null k (omega arith))
            (λ e. ptr_at-ne m.heap null xs null k (suc k) is.chain (omega arith) hk (sym e))

      h1 : Heap
      h1 = write m.heap p (some (node v null t))

      m1 : Mem
      m1 = record m { heap = h1 }

      h2 : Heap
      h2 = write h1 p (some (node v b t))

      m2 : Mem
      m2 = record m { heap = h2 }

      h3 : Heap
      h3 = write h2 b (some (node vb bb p))

      m3 : Mem
      m3 = record m { heap = h3 }

      h4 : Heap
      h4 = write h3 t (some (node (value_at xs (suc k)) p (ptr_at xs (suc (suc k)) null)))

      others : (a : Ptr) → a ≢ p → a ≢ b → a ≢ t → h4 a ≡ m.heap a
      others a np nb nt =
          write_ne h3 t _ a nt
          ∙ write_ne h2 b _ a nb
          ∙ write_ne h1 p _ a np
          ∙ write_ne m.heap p _ a np

      frame : (a : Ptr) → has a xs ≡ false → a ≢ p → h4 a ≡ m.heap a
      frame a o n =
          others a n
            (rw (ptr_before-suc null xs null k (omega arith))
              (ne_of_has a _ xs (has-ptr_at xs null k (omega arith)) o))
            (ne_of_has a t xs (has-ptr_at xs null (suc k) hk) o)

      chain : Segment h4 null (insert_at xs (suc k) (p, v)) null
      chain =
          Segment-insert {h = m.heap} {g = h4} p v null xs null (suc k) (omega arith) hk
            f.at.ne_null f.apart
            (write_ne h3 t _ p (λ e. t-p (sym e))
              ∙ write_ne h2 b _ p (λ e. b-p (sym e))
              ∙ write_self h1 p _)
            (rw at-b.holds (write_ne h3 t _ b (λ e. t-b (sym e)) ∙ write_self h2 b _))
            (rw at-t.holds (write_self h3 t _))
            (λ a i nb nt. others a (λ e. ne_of_has p a xs i f.apart (sym e)) nb nt) is.chain

      l' : LinkedList
      l' = record (moved l xs i (suc k)) { count = count_up (moved l xs i (suc k)).count }

      list : IsList h4 l' (insert_at xs (suc k) (p, v))
      list =
          let same = moved-same l xs i (suc k) in
          record {
            chain = chain;
            head = same.1 ∙ is.head ∙ sym (first-insert_at xs (suc k) (p, v) null (omega arith) hk);
            tail = same.2 ∙ is.tail ∙ sym (last-insert_at null xs (suc k) (p, v) hk);
            count = omega (arith, length-insert_at xs (suc k) (p, v));
            small = omega (arith, length-insert_at xs (suc k) (p, v));
          }
