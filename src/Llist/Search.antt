-- ===== src/Llist/Search.antt =====
-- The search loop of src/llist.c, `scan`.
use libcplus.Common.{
  ℕ, zero, suc, ◌+◌, ◌-◌, ◌<◌, ◌≤◌, ◌≡◌, refl, ◌∙◌, ap, Bool, true, false, ◌⊎◌, inl, inr, Option,
  none, some, List, [], ◌∷◌, arith, if◌then◌else◌, length, pos, increment, ne→==, Bool-cases,
}
use libcplus.Heap.{Ptr, null, Mem, ok}
use libcplus.Llist.{at_head, at_next, LinkedList, deref}
use libcplus.Llist.Access.{load-at}
use libcplus.Llist.Ops.{scan}
use libcplus.Llist.Rep.{IsList, IsCursor, IsCursor-head, deref-ok, values}
use libcplus.Llist.Segment.{
  Cells, first, ptr_at, value_at, IsAt-Segment, ptr_before-suc, ptr_at-length,
}
use libcplus.Llist.Walk.{forward, IsCursor-forward}

-- the list with its cursor at `j`, come from the head
abbrev pub arrived : LinkedList → Cells → ℕ → LinkedList
arrived l xs zero = record l { cur_index = pos 0; current = at_head }
arrived l xs (suc j) = forward l xs (suc j)

-- the position of the first value that passes the test
abbrev pub find : (Ptr → Bool) → List Ptr → Option ℕ
find test [] = none
find test (v ∷ vs) =
    if test v then some 0 else elim (find test vs) [ none ↦ none | some j ↦ some (suc j) ]

-- no value from position `i` up to `j`, without `j`, passes the test
abbrev pub NoneIn : (Ptr → Bool) → Cells → (i j : ℕ) → Type 0
NoneIn test xs i j = (a : ℕ) → i ≤ a → a < j → test (value_at xs a) ≡ false

pub IsCursor-arrived :
    (m : Mem) (l : LinkedList) (xs : Cells) (j : ℕ)
    → IsList m.heap l xs
    → j ≤ length xs - 1
    → IsCursor m.heap (arrived l xs j) xs j
IsCursor-arrived m l xs zero is h =
    IsCursor-head
      (record {
        chain = is.chain;
        head = is.head;
        tail = is.tail;
        count = is.count;
        small = is.small;
      })
      refl refl
IsCursor-arrived m l xs (suc j) is h = IsCursor-forward m xs is.chain l j (omega arith)

first-empty : (xs : Cells) → length xs ≡ 0 → first xs null ≡ null
first-empty [] e = refl
first-empty (x ∷ xs) e = absurd (omega arith)

module _ (m : Mem) (l : LinkedList) (xs : Cells) (is : IsList m.heap l xs) (test : Ptr → Bool) where
  arrived-suc :
      (i : ℕ)
      → i < length xs
      → record (arrived l xs i) {
        current = at_next (ptr_at xs i null);
        cur_index = increment (arrived l xs i).cur_index;
      }
        ≡ arrived l xs (suc i)
  arrived-suc zero h = ground (arith, ptr_before-suc null xs null 0)
  arrived-suc (suc i) h = ground (arith, ptr_before-suc null xs null (suc i))

  -- one round at a node of the list
  scan-hit :
      (fuel i : ℕ)
      → i < length xs
      → test (value_at xs i) ≡ true
      → scan (suc fuel) test (arrived l xs i) m ≡ ok (ptr_at xs i null, arrived l xs i) m
  unfolding scan
  scan-hit fuel i h hit =
      let c = IsCursor-arrived m l xs i is (omega arith) in
      let at = IsAt-Segment null xs null i is.chain h in
      rw (
        scan,
        deref-ok m (arrived l xs i) (arrived l xs i).current c.readable c.leads,
        ne→== (ptr_at xs i null) null at.ne_null,
        load-at m (ptr_at xs i null) at,
        hit,
      )

  scan-next :
      (fuel i : ℕ)
      → suc i < length xs
      → test (value_at xs i) ≡ false
      → scan (suc fuel) test (arrived l xs i) m ≡ scan fuel test (arrived l xs (suc i)) m
  unfolding scan
  scan-next fuel i h miss =
      let c = IsCursor-arrived m l xs i is (omega arith) in
      let at = IsAt-Segment null xs null i is.chain (omega arith) in
      let next = IsAt-Segment null xs null (suc i) is.chain h in
      rw
        (
          scan,
          deref-ok m (arrived l xs i) (arrived l xs i).current c.readable c.leads,
          ne→== (ptr_at xs i null) null at.ne_null,
          load-at m (ptr_at xs i null) at,
          miss,
          ne→== (ptr_at xs (suc i) null) null next.ne_null,
        )
        (ap (λ s. scan fuel test s m) (arrived-suc i (omega arith)))

  scan-end :
      (fuel i : ℕ)
      → suc i ≡ length xs
      → test (value_at xs i) ≡ false
      → scan (suc fuel) test (arrived l xs i) m ≡ ok (null, arrived l xs i) m
  unfolding scan
  scan-end fuel i h miss =
      let c = IsCursor-arrived m l xs i is (omega arith) in
      let at = IsAt-Segment null xs null i is.chain (omega arith) in
      let no_next : ptr_at xs (suc i) null ≡ null = rw h (ptr_at-length xs null) in
      rw (
        scan,
        deref-ok m (arrived l xs i) (arrived l xs i).current c.readable c.leads,
        ne→== (ptr_at xs i null) null at.ne_null,
        load-at m (ptr_at xs i null) at,
        miss,
        no_next,
      )

  pub scan-found :
      (k fuel i j : ℕ)
      → j ≡ i + k
      → k < fuel
      → j < length xs
      → NoneIn test xs i j
      → test (value_at xs j) ≡ true
      → scan fuel test (arrived l xs i) m ≡ ok (ptr_at xs j null, arrived l xs j) m
  scan-found k zero i j e f h miss hit = absurd (omega arith)
  scan-found zero (suc fuel) i j e f h miss hit =
      let same : j ≡ i = omega arith in rw same (scan-hit fuel i (omega arith) (rw same at hit))
  scan-found (suc k) (suc fuel) i j e f h miss hit =
      scan-next fuel i (omega arith) (miss i (omega arith) (omega arith))
      ∙ scan-found k fuel (suc i) j (omega arith) (omega arith) h
          (λ a lo hi. miss a (omega arith) hi) hit

  pub scan-missing :
      (k fuel i : ℕ)
      → length xs ≡ suc (i + k)
      → k < fuel
      → NoneIn test xs i (length xs)
      → scan fuel test (arrived l xs i) m ≡ ok (null, arrived l xs (length xs - 1)) m
  scan-missing k zero i e f miss = absurd (omega arith)
  scan-missing zero (suc fuel) i e f miss =
      let same : length xs - 1 ≡ i = omega arith in
      rw same (scan-end fuel i (omega arith) (miss i (omega arith) (omega arith)))
  scan-missing (suc k) (suc fuel) i e f miss =
      scan-next fuel i (omega arith) (miss i (omega arith) (omega arith))
      ∙ scan-missing k fuel (suc i) (omega arith) (omega arith) (λ a lo hi. miss a (omega arith) hi)

  pub scan-empty :
      (fuel : ℕ)
      → length xs ≡ 0
      → scan (suc fuel) test (arrived l xs 0) m ≡ ok (null, arrived l xs 0) m
  unfolding scan deref
  scan-empty fuel e = rw (is.head, first-empty xs e)

NoneIn-suc :
    (test : Ptr → Bool) (c : Ptr × Ptr) (xs : Cells) (j : ℕ)
    → test c.1 ≡ false
    → NoneIn test xs 0 j
    → NoneIn test (c ∷ xs) 0 (suc j)
NoneIn-suc test c xs j miss rest zero lo hi = miss
NoneIn-suc test c xs j miss rest (suc a) lo hi = rest a (omega arith) (omega arith)

-- what `find` says of the cells
abbrev pub Found : (Ptr → Bool) → Cells → Option ℕ → Type 0
Found test xs none = NoneIn test xs 0 (length xs)
Found test xs (some j) = (j < length xs) × (test (value_at xs j) ≡ true) × NoneIn test xs 0 j

pub find-Found : (test : Ptr → Bool) (xs : Cells) → Found test xs (find test (values xs))
find-Found test [] = λ a lo hi. absurd (omega arith)
find-Found test ((p, v) ∷ xs) = elim (Bool-cases (test v)) [
  | inl hit ↦ rw hit (omega arith, hit, λ a lo hi. absurd (omega arith))
  | inr miss ↦ rw miss (behind (find test (values xs)) (find-Found test xs) miss)
]
  where
    behind :
        (o : Option ℕ)
        → Found test xs o
        → test v ≡ false
        → Found test ((p, v) ∷ xs) (elim o [ none ↦ none | some j ↦ some (suc j) ])
    behind none f miss = NoneIn-suc test (p, v) xs (length xs) miss f
    behind (some j) f miss = (omega arith, f.1, NoneIn-suc test (p, v) xs j miss f.2)

-- the node and the list that a search ends with
abbrev pub searched : LinkedList → Cells → Option ℕ → Ptr × LinkedList
searched l xs none = (null, arrived l xs (length xs - 1))
searched l xs (some j) = (ptr_at xs j null, arrived l xs j)

-- From the head, the loop, with fuel of one more than the node count, ends at the first value that
-- passes the test, with the cursor there, and without one at the end of the list; it changes no
-- memory.
pub scan-find :
    (m : Mem) (l : LinkedList) (xs : Cells) (test : Ptr → Bool)
    → IsList m.heap l xs
    → scan (l.count + 1) test (arrived l xs 0) m ≡ ok (searched l xs (find test (values xs))) m
scan-find m l xs test is = from (find test (values xs)) (find-Found test xs)
  where
    empty_or : (length xs ≡ 0) ⊎ (0 < length xs)
    empty_or = ground arith

    from :
        (o : Option ℕ)
        → Found test xs o
        → scan (l.count + 1) test (arrived l xs 0) m ≡ ok (searched l xs o) m
    from (some j) f =
        scan-found m l xs is test j (l.count + 1) 0 j (omega arith) (omega arith) f.0 f.2 f.1
    from none f = elim empty_or [
      | inl e ↦
          let at : length xs - 1 ≡ 0 = omega arith in
          let fuel : l.count + 1 ≡ suc l.count = omega arith in
          rw (at, fuel) (scan-empty m l xs is test l.count e)
      | inr lo ↦
          scan-missing m l xs is test (length xs - 1) (l.count + 1) 0 (omega arith) (omega arith) f
    ]
