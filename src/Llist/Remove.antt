-- ===== src/Llist/Remove.antt =====
-- `cplus_llist_pop_of` of src/llist.c.
use libcplus.Common.{
  ℕ, zero, suc, ◌-◌, ◌<◌, ◌≤◌, ◌≡◌, ◌≢◌, refl, false, ◌⊎◌, inl, inr, none, [], ◌∷◌, arith, ◌==◌,
  if◌then◌else◌, length, remove_at, length-remove_at, pos, ne→==, eq→==, to_int32, Bool-cases,
  ==→eq, ==→ne, ◌∙◌, lt→ltb, le→ltb,
}
use libcplus.Heap.{and_then, Ptr, null, Heap, Mem, fault}
use libcplus.Heap.Returns.{Returns, returns, Returns-weaken, Returns-and_then}
use libcplus.Llist.{LinkedList, get_size}
use libcplus.Llist.Access.{stored, get_data-at, free_node-at, write_self, write_ne}
use libcplus.Llist.Api.{out_of_interval, take_node, cplus_llist_pop_of}
use libcplus.Llist.Links.{has-removed}
use libcplus.Llist.Ops.{pop_of}
use libcplus.Llist.Pop.{Unlinked, pop_of-only_front, pop_of-only_back, pop_of-front, pop_of-back}
use libcplus.Llist.Unlink.{pop_of-inside, pop_of-last_index}
use libcplus.Llist.Rep.{IsList, IsCursor, IsCursor-head, IsStale, IsAtHead}
use libcplus.Llist.Segment.{
  Cells, has, ptr_at, value_at, Segment, Segment-write, IsAt-Segment, ptr_before-suc,
  ptr_before-remove_at, ptr_at-remove_at_behind, has-ptr_at, ne_of_has,
}
use libcplus.Llist.Walk.{moved}

-- The node at `j` is out of the list and freed, and its value is returned; no other memory but the
-- list's nodes changes.
pub record Removed (m : Mem) (xs : Cells) (j : ℕ) (r : Ptr × LinkedList) (m' : Mem) : Type 0 where
  pub value : r.0 ≡ value_at xs j
  pub list : IsList m'.heap r.1 (remove_at xs j)
  pub freed : m'.heap (ptr_at xs j null) ≡ none
  pub frame : (a : Ptr) → has a xs ≡ false → m'.heap a ≡ m.heap a
  pub errno : m'.errno ≡ m.errno

module _ (m : Mem) (xs : Cells) (j : ℕ) (chain : Segment m.heap null xs null)
    (hj : j < length xs) where
  -- what freeing the unlinked node leaves
  pub Removed-free :
      (r : Ptr × LinkedList) (m' : Mem)
      → Unlinked m xs j r m'
      → Removed m xs j (value_at xs j, r.1) (stored m' r.0 none)
  Removed-free r m' u = record {
    value = refl;
    list = record {
      chain = Segment-write m'.heap null (remove_at xs j) null r.0 none gone u.list.chain;
      head = u.list.head;
      tail = u.list.tail;
      count = u.list.count;
      small = u.list.small;
    };
    freed = rw (← u.out) (write_self m'.heap r.0 none);
    frame = λ a o.
        write_ne m'.heap r.0 none a
          (rw u.out (ne_of_has a (ptr_at xs j null) xs (has-ptr_at xs null j hj) o))
        ∙ u.frame a o;
    errno = u.errno;
  }
    where
      gone : has r.0 (remove_at xs j) ≡ false
      gone = rw u.out (has-removed m.heap null xs null j chain hj)

  -- `get_data` and `free_node` of the unlinked node
  pub take_node-Removed :
      (r : Ptr × LinkedList) (m' : Mem)
      → Unlinked m xs j r m'
      → Returns (λ s m''. Removed m xs j s m'' × (s.1 ≡ r.1)) (take_node r.0 r.1 m')
  take_node-Removed r m' u =
      rw (ne→== r.0 null u.at.ne_null, get_data-at m' r.0 u.at, free_node-at m' r.0 u.at)
        (returns (Removed-free r m' u, refl))

-- Where the cursor is after a removal at index `j` that was reached from position `i` in a list of `n`
-- nodes: at the head, if an end was removed; on the node behind the removed one, if the walk came
-- from the left; and behind a walk from the right it says `j`, but leads to the node before.
pub record CursorLeft (h : Heap) (l : LinkedList) (xs : Cells) (n : ℕ) (i j : ℕ) : Type 0 where
  pub at_end : (j ≡ 0) ⊎ (j ≡ n) → IsCursor h l xs 0
  pub from_left : 0 < j → i < j → suc j < n → IsCursor h l xs j
  pub from_right : 0 < j → j < i → suc j < n → IsStale h l xs j (j - 1)

module _ (h : Heap) (l : LinkedList) (xs : Cells) (i k : ℕ)
    (chain : Segment h null (remove_at xs (suc k)) null) (hk : suc (suc k) < length xs) where
  abbrev ys : Cells
  ys = remove_at xs (suc k)

  IsCursor-from_left :
      i < suc k → (n : ℕ) → IsCursor h (record (moved l xs i (suc k)) { count = n }) ys (suc k)
  IsCursor-from_left lt n =
      let size = length-remove_at xs (suc k) (omega arith) in
      let at = IsAt-Segment null ys null k chain (omega arith) in
      let before = ptr_before-suc null ys null k (omega arith) in
      let same = ptr_before-remove_at null xs (suc k) hk in
      rw (ne→== (suc k) i (omega arith), lt→ltb i (suc k) lt)
        (record {
          index = refl;
          leads = rw (← same, before, at.holds);
          readable = rw (← same, before) at.ne_null;
          inside = omega arith;
        })

  cursor_from_right :
      suc k < i → (n : ℕ) → IsStale h (record (moved l xs i (suc k)) { count = n }) ys (suc k) k
  cursor_from_right gt n =
      let size = length-remove_at xs (suc k) (omega arith) in
      let at = IsAt-Segment null ys null (suc k) chain (omega arith) in
      let before = ptr_before-suc null ys null k (omega arith) in
      let same = ptr_at-remove_at_behind xs (suc k) (suc k) null (omega arith) in
      rw (ne→== (suc k) i (omega arith), le→ltb i (suc k) (omega arith))
        (record {
          index = refl;
          leads = rw (← same, at.holds, before);
          readable = rw (← same) at.ne_null;
        })

-- Index `n`, the size, stands for the last node.
abbrev pub removed_position : (n j : ℕ) → ℕ
removed_position n j = if j == n then n - 1 else j

removed_position-zero : (n : ℕ) → 0 < n → removed_position n 0 ≡ 0
removed_position-zero n h = rw (ne→== 0 n (omega arith))

removed_position-size : (n k : ℕ) → n ≡ suc k → removed_position n n ≡ k
removed_position-size n k e = rw (eq→== n n refl) (omega arith)

abbrev pub Popped : Mem → Cells → ℕ → ℕ → Ptr × LinkedList → Mem → Type 0
Popped m xs i j r m' =
    let at = removed_position (length xs) j in
    Removed m xs at r m' × CursorLeft m'.heap r.1 (remove_at xs at) (length xs) i j

in_interval :
    (n j : ℕ) → j ≤ n → n < 2147483647 → out_of_interval (pos j) (pos 0) (to_int32 n) ≡ false
in_interval n j h s = ground arith

module _ (m : Mem) (l : LinkedList) (xs : Cells) (i : ℕ) (is : IsList m.heap l xs) where
  -- a removal at an end, then `take_node`
  take_end :
      (j at : ℕ)
      → at < length xs
      → (j ≡ 0) ⊎ (j ≡ length xs)
      → Returns (λ r m'. Unlinked m xs at r m' × IsAtHead r.1) (pop_of l (pos j) m)
      → Returns
          (λ r m'. Removed m xs at r m' × CursorLeft m'.heap r.1 (remove_at xs at) (length xs) i j)
          (and_then (pop_of l (pos j) m) (λ r. take_node r.0 r.1))
  take_end j at h e run = Returns-and_then run λ r m1 u.
      Returns-weaken (take_node-Removed m xs at is.chain h r m1 u.0) λ s m' d. (
        d.0,
        record {
          at_end = λ _. IsCursor-head d.0.list (rw d.1 u.1.0) (rw d.1 u.1.1);
          from_left = λ lo a b. absurd (omega arith);
          from_right = λ lo a b. absurd (omega arith);
        },
      )

  take_inside :
      (k : ℕ)
      → IsCursor m.heap l xs i
      → i < length xs
      → suc (suc k) < length xs
      → Returns
          (λ r m'.
            Removed m xs (suc k) r m'
            × CursorLeft m'.heap r.1 (remove_at xs (suc k)) (length xs) i (suc k))
          (and_then (pop_of l (pos (suc k)) m) (λ r. take_node r.0 r.1))
  take_inside k c hi h = Returns-and_then (pop_of-inside m l i k xs is c hi h) λ r m1 u.
      Returns-weaken (take_node-Removed m xs (suc k) is.chain (omega arith) r m1 u.0) λ s m' d. (
        d.0,
        record {
          at_end = elim [ inl e ↦ absurd (omega arith) | inr e ↦ absurd (omega arith) ];
          from_left =
              λ lo lt hj. rw (d.1, u.1) (IsCursor-from_left m'.heap l xs i k d.0.list.chain h lt _);
          from_right = λ lo gt hj.
              let e : suc k - 1 ≡ k = omega arith in
              rw (d.1, u.1, e) (cursor_from_right m'.heap l xs i k d.0.list.chain h gt _);
        },
      )

  interval :
      (j at : ℕ)
      → j ≤ length xs
      → removed_position (length xs) j ≡ at
      → Returns
          (λ r m'. Removed m xs at r m' × CursorLeft m'.heap r.1 (remove_at xs at) (length xs) i j)
          (and_then (pop_of l (pos j) m) (λ r. take_node r.0 r.1))
      → Returns (Popped m xs i j) (cplus_llist_pop_of l (pos j) m)
  unfolding cplus_llist_pop_of get_size
  interval j at h e run =
      rw (cplus_llist_pop_of, in_interval l.count j (omega arith) (omega arith))
        (Returns-weaken run λ r m' d. rw e d)

-- On a list that is not empty, with its cursor in order, `cplus_llist_pop_of` at index 0, at the size, or at
-- an index strictly between 0 and the size minus 1 returns the value at the position that the index
-- stands for, takes exactly that node out and frees it, touches no other memory, and leaves the
-- cursor as `CursorLeft` says.
pub cplus_llist_pop_of-Popped :
    (m : Mem) (l : LinkedList) (xs : Cells) (i j : ℕ)
    → IsList m.heap l xs
    → IsCursor m.heap l xs i
    → 0 < length xs
    → j ≤ length xs
    → (j ≡ 0) ⊎ (suc j ≢ length xs)
    → Returns (Popped m xs i j) (cplus_llist_pop_of l (pos j) m)
cplus_llist_pop_of-Popped m l [] i j is c lo h e = absurd (omega arith)
cplus_llist_pop_of-Popped m l ((p, v) ∷ []) i zero is c lo h e =
    interval m l ((p, v) ∷ []) i is 0 0 h refl
      (take_end m l ((p, v) ∷ []) i is 0 0 (omega arith) (inl refl) (pop_of-only_front m l p v is))
cplus_llist_pop_of-Popped m l ((p, v) ∷ []) i (suc zero) is c lo h e =
    interval m l ((p, v) ∷ []) i is 1 0 h refl
      (take_end m l ((p, v) ∷ []) i is 1 0 (omega arith) (inr refl) (pop_of-only_back m l p v is))
cplus_llist_pop_of-Popped m l ((p, v) ∷ []) i (suc (suc j)) is c lo h e = absurd (omega arith)
cplus_llist_pop_of-Popped m l ((p, v) ∷ (q, w) ∷ zs) i zero is c lo h e =
    interval m l ((p, v) ∷ (q, w) ∷ zs) i is 0 0 h (removed_position-zero _ lo) (
      take_end m l ((p, v) ∷ (q, w) ∷ zs) i is 0 0 (omega arith) (inl refl)
        (pop_of-front m l p v q w zs is))
cplus_llist_pop_of-Popped m l ((p, v) ∷ (q, w) ∷ zs) i (suc j) is c lo h e =
    elim (Bool-cases (suc j == length xs)) [
      | inl whole ↦
          let same = ==→eq (suc j) (length xs) whole in
          rw same (
            interval m l xs i is (length xs) (suc (length zs)) (omega arith)
              (removed_position-size _ _ refl)
              (take_end m l xs i is (length xs) (suc (length zs)) (omega arith) (inr refl)
                (pop_of-back m l (length zs) xs refl is)))
      | inr inner ↦
          let differs = ==→ne (suc j) (length xs) inner in
          let room : suc (suc j) ≢ length xs = elim e [
            | inl z ↦ absurd (omega arith)
            | inr n ↦ n
          ] in
          interval m l xs i is (suc j) (suc j) h (rw inner)
            (take_inside m l xs i is j c (omega arith) (omega arith))
    ]
  where
    xs : Cells
    xs = (p, v) ∷ (q, w) ∷ zs

-- With two nodes or more, `cplus_llist_pop_of` at the index of the last node, the size minus 1, writes
-- through NULL, wherever the cursor stands.
pub cplus_llist_pop_of-fault :
    (m : Mem) (l : LinkedList) (xs : Cells) (i k : ℕ)
    → IsList m.heap l xs
    → IsCursor m.heap l xs i
    → suc (suc k) ≡ length xs
    → cplus_llist_pop_of l (pos (suc k)) m ≡ fault
unfolding cplus_llist_pop_of get_size
cplus_llist_pop_of-fault m l xs i k is c size = rw (
  cplus_llist_pop_of,
  in_interval l.count (suc k) (omega arith) (omega arith),
  pop_of-last_index m l i k xs is c (omega arith) size,
)
