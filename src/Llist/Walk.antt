-- ===== src/Llist/Walk.antt =====
-- `get_node_of` of src/llist.c.
use libcplus.Common.{
  some, ℕ, zero, suc, ◌+◌, ◌-◌, ◌<◌, ◌≡◌, ◌≢◌, refl, arith, length, pos, ltb, ◌==◌, if◌then◌else◌,
  ◌∙◌, Bool-cases, inl, inr, distance, ==→eq, ==→ne, ltb→le, ltb→lt,
}
use libcplus.Heap.{Ptr, Heap, null, Mem, ok}
use libcplus.Llist.{at_next, at_prev, LinkedList, walk_next, walk_prev, get_node_of}
use libcplus.Llist.Segment.{Cells, ptr_at, ptr_before, Segment, IsAt-Segment, ptr_before-suc}
use libcplus.Llist.Rep.{IsList, IsCursor, IsLoc, target, deref-ok}

-- the list with its cursor at `j`, come from the left or from the right
abbrev pub forward : LinkedList → Cells → ℕ → LinkedList
forward l xs j = record l { current = at_next (ptr_before null xs j); cur_index = pos j }

abbrev pub backward : LinkedList → Cells → ℕ → LinkedList
backward l xs j = record l { current = at_prev (ptr_at xs (suc j) null); cur_index = pos j }

abbrev pub moved : LinkedList → Cells → (from to : ℕ) → LinkedList
moved l xs i j = if j == i then l else if ltb i j then forward l xs j else backward l xs j

module _ (m : Mem) (xs : Cells) (chain : Segment m.heap null xs null) where
  pub IsCursor-forward :
      (l : LinkedList) (i : ℕ)
      → suc i < length xs
      → IsCursor m.heap (forward l xs (suc i)) xs (suc i)
  IsCursor-forward l i h =
      let at = IsAt-Segment null xs null i chain (omega arith) in
      let before = ptr_before-suc null xs null i (omega arith) in
      record {
        index = refl;
        leads = rw (before, at.holds);
        readable = rw before at.ne_null;
        inside = omega arith;
      }

  pub IsCursor-backward :
      (l : LinkedList) (i : ℕ) → suc i < length xs → IsCursor m.heap (backward l xs i) xs i
  IsCursor-backward l i h =
      let at = IsAt-Segment null xs null (suc i) chain (omega arith) in
      let before = ptr_before-suc null xs null i (omega arith) in
      record {
        index = refl;
        leads = rw (at.holds, before);
        readable = at.ne_null;
        inside = omega arith;
      }

  walk_next-step :
      (fuel i j : ℕ) (l : LinkedList)
      → IsCursor m.heap l xs i
      → i < length xs
      → i ≢ j
      → walk_next (suc fuel) l (pos j) m ≡ walk_next fuel (forward l xs (suc i)) (pos j) m
  unfolding walk_next
  walk_next-step fuel i j l c h ne =
      ground (arith, deref-ok m l l.current c.readable c.leads, ptr_before-suc null xs null i)

  walk_next-stop :
      (fuel j : ℕ) (l : LinkedList)
      → l.cur_index ≡ pos j
      → walk_next (suc fuel) l (pos j) m ≡ ok l m
  unfolding walk_next
  walk_next-stop fuel j l e = ground arith

  walk_next-ok :
      (k fuel i j : ℕ) (l : LinkedList)
      → k + 1 < fuel
      → j ≡ i + suc k
      → IsCursor m.heap l xs i
      → j < length xs
      → walk_next fuel l (pos j) m ≡ ok (forward l xs j) m
  walk_next-ok k zero i j l hf e c h = absurd (omega arith)
  walk_next-ok k (suc zero) i j l hf e c h = absurd (omega arith)
  walk_next-ok zero (suc (suc fuel)) i j l hf e c h =
      let next : j ≡ suc i = omega arith in
      rw next (
        walk_next-step (suc fuel) i (suc i) l c (omega arith) (omega arith)
        ∙ walk_next-stop fuel (suc i) (forward l xs (suc i)) refl)
  walk_next-ok (suc k) (suc (suc fuel)) i j l hf e c h =
      walk_next-step (suc fuel) i j l c (omega arith) (omega arith)
      ∙ walk_next-ok k (suc fuel) (suc i) j (forward l xs (suc i)) (omega arith) (omega arith)
          (IsCursor-forward l i (omega arith)) h

  walk_prev-step :
      (fuel i j : ℕ) (l : LinkedList)
      → IsCursor m.heap l xs (suc i)
      → suc i < length xs
      → suc i ≢ j
      → walk_prev (suc fuel) l (pos j) m ≡ walk_prev fuel (backward l xs i) (pos j) m
  unfolding walk_prev
  walk_prev-step fuel i j l c h ne = ground (arith, deref-ok m l l.current c.readable c.leads)

  walk_prev-stop :
      (fuel j : ℕ) (l : LinkedList)
      → l.cur_index ≡ pos j
      → walk_prev (suc fuel) l (pos j) m ≡ ok l m
  unfolding walk_prev
  walk_prev-stop fuel j l e = ground arith

  walk_prev-ok :
      (k fuel i j : ℕ) (l : LinkedList)
      → k + 1 < fuel
      → i ≡ j + suc k
      → IsCursor m.heap l xs i
      → i < length xs
      → walk_prev fuel l (pos j) m ≡ ok (backward l xs j) m
  walk_prev-ok k zero i j l hf e c h = absurd (omega arith)
  walk_prev-ok k (suc zero) i j l hf e c h = absurd (omega arith)
  walk_prev-ok k (suc (suc fuel)) zero j l hf e c h = absurd (omega arith)
  walk_prev-ok zero (suc (suc fuel)) (suc i) j l hf e c h =
      let next : j ≡ i = omega arith in
      rw next (
        walk_prev-step (suc fuel) i i l c (omega arith) (omega arith)
        ∙ walk_prev-stop fuel i (backward l xs i) refl)
  walk_prev-ok (suc k) (suc (suc fuel)) (suc i) j l hf e c h =
      walk_prev-step (suc fuel) i j l c (omega arith) (omega arith)
      ∙ walk_prev-ok k (suc fuel) i j (backward l xs i) (omega arith) (omega arith)
          (IsCursor-backward l i (omega arith)) (omega arith)

  pub IsCursor-moved :
      (l : LinkedList) (i j : ℕ)
      → IsCursor m.heap l xs i
      → i < length xs
      → j < length xs
      → IsCursor m.heap (moved l xs i j) xs j
  IsCursor-moved l i j c hi hj = elim (Bool-cases (j == i)) [
    | inl e ↦ rw e (rw (==→eq j i e) c)
    | inr ne ↦ elim (Bool-cases (ltb i j)) [
      | inl lt ↦
          let p = ltb→lt i j lt in
          let e : j ≡ suc (j - 1) = omega arith in
          rw (ne, lt) (rw e (IsCursor-forward l (j - 1) (omega arith)))
      | inr ge ↦
          let p = ltb→le i j ge in
          let q = ==→ne j i ne in rw (ne, ge) (IsCursor-backward l j (omega arith))
    ]
  ]

  -- From a cursor that is in order, `get_node_of` finds the node at any position of the list, and leaves
  -- the cursor there.
  pub get_node_of-ok :
      (l : LinkedList) (i j : ℕ)
      → IsCursor m.heap l xs i
      → i < length xs
      → j < length xs
      → get_node_of l (pos j) m ≡ ok (ptr_at xs j null, moved l xs i j) m
  unfolding get_node_of
  get_node_of-ok l i j c hi hj =
      let c' = IsCursor-moved l i j c hi hj in
      elim (Bool-cases (j == i)) [
        | inl e ↦ rw e (ground (arith, ==→eq j i e, deref-ok m l l.current c.readable c.leads))
        | inr ne ↦ elim (Bool-cases (ltb i j)) [
          | inl lt ↦
              rw (ne, lt)
                (ground (
                  arith,
                  walk_next-ok (j - i - 1) (distance (pos j) l.cur_index + 1) i j l,
                  deref-ok m (forward l xs j) (at_next (ptr_before null xs j))
                      {p = ptr_at xs j null},
                  c',
                ))
          | inr ge ↦
              rw (ne, ge)
                (ground (
                  arith,
                  walk_prev-ok (i - j - 1) (distance (pos j) l.cur_index + 1) i j l,
                  deref-ok m (backward l xs j) (at_prev (ptr_at xs (suc j) null))
                      {p = ptr_at xs j null},
                  c',
                ))
        ]
      ]

-- The walk changes only the cursor.
pub moved-same :
    (l : LinkedList) (xs : Cells) (i j : ℕ)
    → ((moved l xs i j).count ≡ l.count)
      × ((moved l xs i j).head ≡ l.head)
      × ((moved l xs i j).tail ≡ l.tail)
moved-same l xs i j = ground arith

-- An index at which the cursor says to be is not walked to: its location is believed.
pub get_node_of-here :
    (m : Mem) (l : LinkedList) (j : ℕ) {q : Ptr}
    → l.cur_index ≡ pos j
    → IsLoc l.current
    → target m.heap l.head l.current ≡ some q
    → get_node_of l (pos j) m ≡ ok (q, l) m
unfolding get_node_of
get_node_of-here m l j e r t = ground (arith, deref-ok m l l.current r t)

pub IsList-moved :
    {h : Heap} {l : LinkedList} {xs : Cells} (i j : ℕ)
    → IsList h l xs
    → IsList h (moved l xs i j) xs
IsList-moved {l} {xs} i j is =
    let same = moved-same l xs i j in
    record {
      chain = is.chain;
      head = same.1 ∙ is.head;
      tail = same.2 ∙ is.tail;
      count = same.0 ∙ is.count;
      small = is.small;
    }
