-- ===== src/Llist/Stale.antt =====
-- Reading back an index right after `cplus_llist_push_at` in src/llist.c.
use libcplus.Common.{
  Bool-cases, ==→eq, ==→ne, ℕ, suc, ◌+◌, ◌<◌, ◌≤◌, ◌≡◌, ◌≢◌, ◌⊎◌, inl, inr, none, arith, ◌==◌,
  length, pos, ne→==, insert_at, length-insert_at,
}
use libcplus.Heap.{Heap, Ptr, null, Mem, ok, and_then}
use libcplus.Heap.Returns.{Returns, returns, Returns-and_then}
use libcplus.Llist.{LinkedList, get_size}
use libcplus.Llist.Access.{get_data-at}
use libcplus.Llist.Api.{cplus_llist_get_of, cplus_llist_push_at}
use libcplus.Llist.Get.{get_of-in_range, in_range}
use libcplus.Llist.Insert.{CursorAfter, cplus_llist_push_at-Inserted}
use libcplus.Llist.Rep.{IsList, IsCursor, IsStale}
use libcplus.Llist.Walk.{get_node_of-here, IsList-moved, IsCursor-moved}
use libcplus.Llist.Segment.{
  Cells, ptr_at, value_at, IsAt-Segment, value_at-insert_at_self, value_at-insert_at_behind,
}

-- A cursor that says `j` is believed.
get_of-IsStale :
    (m : Mem) (l : LinkedList) (xs : Cells) (j other : ℕ)
    → IsList m.heap l xs
    → IsStale m.heap l xs j other
    → j < length xs
    → other < length xs
    → cplus_llist_get_of l (pos j) m ≡ ok (value_at xs other, l) m
unfolding cplus_llist_get_of get_size
get_of-IsStale m l xs j other is s h k =
    let at = IsAt-Segment null xs null other is.chain k in
    rw (
      cplus_llist_get_of,
      in_range l.count j (omega arith) (omega arith),
      get_node_of-here m l j s.index s.readable s.leads,
      ne→== (ptr_at xs other null) null at.ne_null,
      get_data-at m (ptr_at xs other null) at,
    )

module _ (m : Mem) (l : LinkedList) (p v : Ptr) (xs : Cells) (i j : ℕ) (ne : p ≢ null)
    (unused : m.heap p ≡ none) (nv : v ≢ null) (is : IsList m.heap l xs)
    (c : IsCursor m.heap l xs i) (small : length xs + 1 < 2147483647) where
  abbrev ys : Cells
  ys = insert_at xs j (p, v)

  IsCursor-of :
      j ≤ length xs
      → ((j ≡ 0) ⊎ (j ≡ length xs)) ⊎ (i < j)
      → (h : Heap) (l' : LinkedList) → CursorAfter h l' ys (length xs) i j
      → (i' : ℕ) × IsCursor h l' ys i'
  IsCursor-of h (inl end) heap l' d = (0, d.at_end end)
  IsCursor-of h (inr lt) heap l' d = elim (Bool-cases (j == length xs)) [
    | inl e ↦ (0, d.at_end (inr (==→eq j (length xs) e)))
    | inr n ↦ let differs = ==→ne j (length xs) n in (j, d.from_left (omega arith) lt (omega arith))
  ]

  -- After `cplus_llist_push_at` of a value at an end, or behind the cursor's position,
  -- `cplus_llist_get_of` at that index returns the value; the list holds it there, and the cursor
  -- is in order.
  pub get_of-push_at :
      j ≤ length xs
      → ((j ≡ 0) ⊎ (j ≡ length xs)) ⊎ (i < j)
      → Returns
          (λ r m'.
            (r.0 ≡ v)
            × IsList m'.heap r.1 (insert_at xs j (p, v))
            × IsCursor m'.heap r.1 (insert_at xs j (p, v)) j)
          (and_then (cplus_llist_push_at p l (pos j) v m) (λ r. cplus_llist_get_of r.1 (pos j)))
  get_of-push_at h where_at =
      Returns-and_then (cplus_llist_push_at-Inserted m l p v ne unused xs i j nv is c h small)
        λ r m' d.
          let size = length-insert_at xs j (p, v) in
          let (i', c') = IsCursor-of h where_at m'.heap r.1 d.1 in
          rw (get_of-in_range m' r.1 ys i' j d.0.list c' (omega arith)) (
            returns (
              value_at-insert_at_self xs j (p, v) h,
              IsList-moved i' j d.0.list,
              IsCursor-moved m' ys d.0.list.chain r.1 i' j c' (let b = c'.inside in omega arith)
                  (omega arith),
            ))

  -- After `cplus_llist_push_at` at an index inside the list and in front of the cursor's position,
  -- `cplus_llist_get_of` at that index returns the value that stood there before: the cursor says
  -- the index but is on the node behind the new one.
  pub get_of-push_at_stale :
      0 < j
      → j < i
      → i < length xs
      → Returns
          (λ r m'. r.0 ≡ value_at xs j)
          (and_then (cplus_llist_push_at p l (pos j) v m) (λ r. cplus_llist_get_of r.1 (pos j)))
  get_of-push_at_stale lo gt hi =
      Returns-and_then
        (cplus_llist_push_at-Inserted m l p v ne unused xs i j nv is c (omega arith) small)
        λ r m' d.
          let size = length-insert_at xs j (p, v) in
          rw
            (get_of-IsStale m' r.1 ys j (suc j) d.0.list (d.1.from_right lo gt (omega arith))
              (omega arith) (omega arith))
            (returns (value_at-insert_at_behind xs j j (p, v) (omega arith) (omega arith)))
