-- ===== src/Llist/New.antt =====
-- Making a list, and reading at its ends, in src/llist.c.
use libcplus.Common.{
  ℕ, zero, suc, ◌<◌, ◌≤◌, ◌≡◌, ◌≢◌, ◌⊎◌, inl, inr, refl, Bool, true, false, Option, none, some,
  List, [], ◌∷◌, arith, ltb, ◌==◌, length, ne→==, Bool-cases, if◌then◌else◌, ltb→lt, ltb→le, ==→ne,
}
use mathlib.Core.Path.{subst}
use libcplus.Heap.{Ptr, null, Mem, ok, einval, enomem}
use libcplus.Heap.Returns.{Returns, returns}
use libcplus.Llist.{LinkedList}
use libcplus.Llist.Access.{get_data-at}
use libcplus.Llist.Cursor.{
  max_node_count, new_list, llist_initialize_object, cplus_llist_prev_new, cplus_llist_get_head,
  cplus_llist_get_tail,
}
use libcplus.Llist.Rep.{IsList, IsCursor, IsCursor-head, values}
use libcplus.Llist.Segment.{Cells, last, value_at, IsAt-last}

abbrev pub first_value : List Ptr → Ptr
first_value [] = null
first_value (v ∷ vs) = v

abbrev pub last_value : List Ptr → Ptr
last_value [] = null
last_value (v ∷ []) = v
last_value (v ∷ w ∷ vs) = last_value (w ∷ vs)

last_value-values :
    (xs : Cells) (i : ℕ) → length xs ≡ suc i → last_value (values xs) ≡ value_at xs i
last_value-values [] i e = absurd (omega arith)
last_value-values (x ∷ []) zero e = refl
last_value-values (x ∷ []) (suc i) e = absurd (omega arith)
last_value-values (x ∷ y ∷ xs) zero e = absurd (omega arith)
last_value-values (x ∷ y ∷ xs) (suc i) e = last_value-values (y ∷ xs) i (omega arith)

-- `cplus_llist_get_head` and `cplus_llist_get_tail` return the first and the last value of a list, or
-- NULL if it is empty, and change nothing.
pub get_head-get_tail :
    (m : Mem) (l : LinkedList) (xs : Cells)
    → IsList m.heap l xs
    → (cplus_llist_get_head l m ≡ ok (first_value (values xs)) m)
      × (cplus_llist_get_tail l m ≡ ok (last_value (values xs)) m)
unfolding cplus_llist_get_head cplus_llist_get_tail
get_head-get_tail m l [] is = (rw (is.head) refl, rw (is.tail) refl)
get_head-get_tail m l ((p, v) ∷ xs) is =
    let end = IsAt-last m.heap null ((p, v) ∷ xs) null (length xs) refl is.chain in
    (
      rw (is.head, ne→== p null is.chain.0.ne_null, get_data-at m p is.chain.0) refl,
      rw
          (
            is.tail,
            ne→== (last p xs) null end.ne_null,
            get_data-at m (last p xs) end,
            last_value-values ((p, v) ∷ xs) (length xs) refl,
          )
          refl,
    )

-- the memory behind a creation that succeeds: `cplus_mempool_new` refuses a pool without blocks
abbrev after : Ptr → Mem → Mem
after pool m = record m { errno = if pool == null then einval else m.errno }

-- what `cplus_llist_prev_new` ends with
pub data Creation (can : Bool) (max_count : ℕ) (pool : Ptr) (m : Mem)
    : Option LinkedList → Mem → Type 0 where
  refused :
      max_node_count < max_count → Creation can max_count pool m none (record m { errno = einval })
  no_memory :
      max_count ≤ max_node_count
      → (can ≡ false) ⊎ ((pool ≡ null) × (max_count ≢ 0))
      → Creation can max_count pool m none (record m { errno = enomem })
  made :
      {l : LinkedList}
      → max_count ≤ max_node_count
      → can ≡ true
      → IsList m.heap l []
      → IsCursor m.heap l [] 0
      → l.mempool ≡ pool
      → Creation can max_count pool m (some l) (after pool m)

made_empty :
    (m : Mem) (pool : Ptr) (max_count : ℕ)
    → max_count ≤ max_node_count
    → Creation true max_count pool m (some (new_list pool null)) (after pool m)
made_empty m pool max_count h =
    let is : IsList m.heap (new_list pool null) [] = record {
      chain = tt;
      head = refl;
      tail = refl;
      count = refl;
      small = omega arith;
    } in
    made h refl is (IsCursor-head is refl refl) refl

within :
    (m : Mem) (can : Bool) (pool : Ptr) (max_count : ℕ)
    → max_count ≤ max_node_count
    → Returns
        (Creation can max_count pool m)
        (llist_initialize_object can pool null max_count false m)
unfolding llist_initialize_object
within m false pool max_count h = returns (no_memory h (inl refl))
within m true zero max_count h = elim (Bool-cases (max_count == 0)) [
  | inl e ↦ rw e (returns (made_empty m null max_count h))
  | inr e ↦
      let some_nodes = ==→ne max_count 0 e in rw e (returns (no_memory h (inr (refl, some_nodes))))
]
within m true (suc pool) max_count h =
    let taken = ne→== (suc pool) null (omega arith) in
    let kept =
      subst
        (λ e.
          Creation true max_count (suc pool) m (some (new_list (suc pool) null))
            (record m { errno = if e then einval else m.errno }))
        taken (made_empty m (suc pool) max_count h) in
    rw taken (returns kept)

-- `cplus_llist_prev_new` refuses more than 1024 * 1024 nodes with EINVAL, reports ENOMEM if
-- the structure or the wanted pool cannot be allocated, or makes an empty list with its cursor at the
-- head; errno is then EINVAL if no pool was wanted, and as before otherwise.
pub cplus_llist_prev_new-Creation :
    (m : Mem) (can : Bool) (pool : Ptr) (max_count : ℕ)
    → Returns (Creation can max_count pool m) (cplus_llist_prev_new can pool max_count m)
unfolding cplus_llist_prev_new llist_initialize_object
cplus_llist_prev_new-Creation m can pool max_count =
    elim (Bool-cases (ltb max_node_count max_count)) [
      | inl e ↦ rw e (returns (refused (ltb→lt max_node_count max_count e)))
      | inr e ↦ rw e (within m can pool max_count (ltb→le max_node_count max_count e))
    ]
