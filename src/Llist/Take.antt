-- ===== src/Llist/Take.antt =====
-- The searches of src/llist.c that remove what they find: `cplus_llist_pop_if` and
-- `cplus_llist_delete_data`.
use libcplus.Common.{
  ℕ, zero, suc, ◌-◌, ◌<◌, ◌≡◌, ◌≢◌, refl, sym, Bool, Option, none, some, [], ◌∷◌, arith, ◌==◌,
  length, remove_at, ne→==, eq→==, Bool-cases, inl, inr, ◌⊎◌, ==→eq, ==→ne,
}
use libcplus.Heap.{Ptr, null, Heap, Mem, enoent}
use libcplus.Heap.Returns.{Returns, returns, Returns-weaken, Returns-and_then}
use libcplus.Llist.{
  LinkedList, Status, success, fail, Comparator, reset_cur_node, is_empty, remove_node,
}
use libcplus.Llist.Access.{free_node-at}
use libcplus.Llist.Api.{cplus_llist_pop_if, cplus_llist_delete_data}
use libcplus.Llist.Ops.{matches, pop_if, remove_data}
use libcplus.Llist.Pop.{Unlinked}
use libcplus.Llist.Remove.{Removed, Removed-free, take_node-Removed}
use libcplus.Llist.RemoveNode.{
  Detached, remove_node-only, remove_node-front, remove_node-back, remove_node-inside,
}
use libcplus.Llist.Rep.{IsList, IsCursor, IsCursor-head, IsAtHead, values}
use libcplus.Llist.Search.{arrived, find, find-Found, searched, scan-find, IsCursor-arrived}
use libcplus.Llist.Segment.{Cells, ptr_at, value_at, IsAt-Segment}

-- `remove_node` of any node of the list, with the cursor on it.
remove_node-Detached :
    (m : Mem) (l : LinkedList) (xs : Cells) (j : ℕ)
    → IsList m.heap l xs
    → IsCursor m.heap l xs j
    → j < length xs
    → Returns (Detached m xs j) (remove_node l (ptr_at xs j null) m)
remove_node-Detached m l [] j is c h = absurd (omega arith)
remove_node-Detached m l ((p, v) ∷ []) zero is c h = remove_node-only m l p v is
remove_node-Detached m l ((p, v) ∷ []) (suc j) is c h = absurd (omega arith)
remove_node-Detached m l ((p, v) ∷ (q, w) ∷ ys) zero is c h = remove_node-front m l p v q w ys is
remove_node-Detached m l ((p, v) ∷ (q, w) ∷ ys) (suc j) is c h =
    elim (Bool-cases (suc (suc j) == length xs)) [
      | inl whole ↦ remove_node-back m l j xs (sym (==→eq (suc (suc j)) (length xs) whole)) is
      | inr inner ↦
          let differs = ==→ne (suc (suc j)) (length xs) inner in
          remove_node-inside m l j xs (omega arith) is c
    ]
  where
    xs : Cells
    xs = (p, v) ∷ (q, w) ∷ ys

IsList-arrived :
    (h : Heap) (l : LinkedList) (xs : Cells) (j : ℕ) → IsList h l xs → IsList h (arrived l xs j) xs
IsList-arrived h l xs zero is = record {
  chain = is.chain;
  head = is.head;
  tail = is.tail;
  count = is.count;
  small = is.small;
}
IsList-arrived h l xs (suc j) is = record {
  chain = is.chain;
  head = is.head;
  tail = is.tail;
  count = is.count;
  small = is.small;
}

-- The outcome of a search that removes: the first match is out and freed, with the cursor at the head;
-- without a match the cursor is on the last node.
abbrev pub TakenIf : Mem → LinkedList → Cells → Option ℕ → Ptr × LinkedList → Mem → Type 0
TakenIf m l xs none r m' = (r ≡ searched l xs none) × (m' ≡ record m { errno = enoent })
TakenIf m l xs (some j) r m' = Removed m xs j r m' × IsCursor m'.heap r.1 (remove_at xs j) 0

module _ (m : Mem) (l : LinkedList) (xs : Cells) (is : IsList m.heap l xs) where
  found_at : (test : Ptr → Bool) (j : ℕ) → find test (values xs) ≡ some j → j < length xs
  found_at test j e = (rw e at (find-Found test xs)).0

  detach :
      (test : Ptr → Bool) (j : ℕ)
      → find test (values xs) ≡ some j
      → Returns (Detached m xs j) (remove_node (arrived l xs j) (ptr_at xs j null) m)
  detach test j e =
      let h = found_at test j e in
      remove_node-Detached m (arrived l xs j) xs j (IsList-arrived m.heap l xs j is)
        (IsCursor-arrived m l xs j is (omega arith)) h

  size-cases : (length xs ≡ 0) ⊎ (0 < length xs)
  size-cases = ground arith

  pop_if-TakenIf :
      (comparator : Comparator) (arg : Ptr) (o : Option ℕ)
      → find (matches comparator arg) (values xs) ≡ o
      → Returns (TakenIf m l xs o) (cplus_llist_pop_if l (some comparator) arg m)
  unfolding cplus_llist_pop_if pop_if is_empty reset_cur_node
  pop_if-TakenIf comparator arg none e = elim size-cases [
    | inl z ↦
        let at : length xs - 1 ≡ 0 = omega arith in
        rw (cplus_llist_pop_if, pop_if, eq→== l.count 0 (omega arith)) (returns (rw at refl, refl))
    | inr lo ↦
        rw
          (
            cplus_llist_pop_if,
            pop_if,
            ne→== l.count 0 (omega arith),
            scan-find m l xs (matches comparator arg) is,
            e,
          )
          (returns (refl, refl))
  ]
  pop_if-TakenIf comparator arg (some j) e =
      let h = found_at (matches comparator arg) j e in
      let at = IsAt-Segment null xs null j is.chain h in
      rw
        (
          cplus_llist_pop_if,
          pop_if,
          ne→== l.count 0 (omega arith),
          scan-find m l xs (matches comparator arg) is,
          e,
          ne→== (ptr_at xs j null) null at.ne_null,
        )
        (Returns-and_then
          (Returns-and_then {Q = λ r m'. Unlinked m xs j r m' × IsAtHead r.1}
            (detach (matches comparator arg) j e) λ l' m1 d. returns d)
          λ r m1 u.
            Returns-weaken (take_node-Removed m xs j is.chain h r m1 u.0)
              λ s m' d. (d.0, IsCursor-head d.0.list (rw d.1 u.1.0) (rw d.1 u.1.1)))

  -- `cplus_llist_pop_if` takes out and frees the node of the first value that is not NULL and for which the
  -- comparator answers 0, returns that value, and puts the cursor to the head. If there is none, it
  -- returns NULL, sets `errno`, and changes no node.
  pub cplus_llist_pop_if-find :
      (comparator : Comparator) (arg : Ptr)
      → Returns
          (TakenIf m l xs (find (matches comparator arg) (values xs)))
          (cplus_llist_pop_if l (some comparator) arg m)
  cplus_llist_pop_if-find comparator arg =
      pop_if-TakenIf comparator arg (find (matches comparator arg) (values xs)) refl

-- The outcome of `cplus_llist_delete_data`: as above, with a status for the value.
abbrev pub Deleted : Mem → LinkedList → Cells → Option ℕ → Status × LinkedList → Mem → Type 0
Deleted m l xs none r m' = (r ≡ (fail, arrived l xs (length xs - 1))) × (m' ≡ m)
Deleted m l xs (some j) r m' =
    (r.0 ≡ success)
    × Removed m xs j (value_at xs j, r.1) m'
    × IsCursor m'.heap r.1 (remove_at xs j) 0

module _ (m : Mem) (l : LinkedList) (xs : Cells) (is : IsList m.heap l xs) (value : Ptr) where
  remove_data-Deleted :
      (o : Option ℕ)
      → find (λ v. value == v) (values xs) ≡ o
      → Returns (Deleted m l xs o) (remove_data l value m)
  unfolding remove_data reset_cur_node
  remove_data-Deleted none e =
      rw (remove_data, scan-find m l xs (λ v. value == v) is, e) (returns (refl, refl))
  remove_data-Deleted (some j) e =
      let h = found_at m l xs is (λ v. value == v) j e in
      let at = IsAt-Segment null xs null j is.chain h in
      rw
        (
          remove_data,
          scan-find m l xs (λ v. value == v) is,
          e,
          ne→== (ptr_at xs j null) null at.ne_null,
        )
        (Returns-and_then (detach m l xs is (λ v. value == v) j e) λ l' m1 d.
          let gone = Removed-free m xs j is.chain h (ptr_at xs j null, l') m1 d.0 in
          rw (free_node-at m1 (ptr_at xs j null) d.0.at)
            (returns (refl, gone, IsCursor-head gone.list d.1.0 d.1.1)))

  -- `cplus_llist_delete_data` with a value that is not NULL takes out and frees the first node that holds
  -- it and puts the cursor to the head; if no node does, it fails and changes no memory.
  pub cplus_llist_delete_data-find :
      value ≢ null
      → Returns
          (Deleted m l xs (find (λ v. value == v) (values xs)))
          (cplus_llist_delete_data l value m)
  unfolding cplus_llist_delete_data
  cplus_llist_delete_data-find ne =
      rw (cplus_llist_delete_data, ne→== value null ne)
        (remove_data-Deleted (find (λ v. value == v) (values xs)) refl)
