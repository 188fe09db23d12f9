-- ===== src/Llist/Keyed/Added.antt =====
-- `cplus_llist_add_data_bool` to `cplus_llist_add_data_pointer` of src/llist.c, with the new object of
-- src/data.c and the search that finds it.
use libcplus.Common.{
  ℕ, zero, suc, ◌-◌, ◌+◌, ◌<◌, ◌≡◌, ◌≢◌, refl, sym, ◌∙◌, ap, arith, Bool, true, none, some, pos,
  List, [], ◌∷◌, ◌++◌, ltb, if◌then◌else◌, length, length-append, insert_at-length, lt→ltb,
  to_int32, to_int32-small, ne→==, Status, success, no_error,
}
use libcplus.Heap.{Ptr, null, Heap, Mem, ok, enoent}
use libcplus.Heap.Returns.{Returns, returns, Returns-and_then, Returns-weaken}
use mathlib.Core.Path.{subst}
use libcplus.Data.{Value, Data, Scalar, Run, done, scalar, scalar_type, validate, with_value}
use libcplus.Data.Access.{cplus_data_set_value}
use libcplus.Data.Decimal.{NoNul}
use libcplus.Data.Key.{cplus_data_set_key, cplus_data_get_key}
use libcplus.Data.KeyBytes.{cplus_data_get_key-cplus_data_set_key}
use libcplus.Data.Keys.{KeepsValue, set_key-KeepsValue}
use libcplus.Data.Memory.{Malloc, take, rsize_max_mem, u32}
use libcplus.Data.New.{
  created, initial, zero_value, next_part, set_first_value, set_first_key, data_initialize_object,
  cplus_data_new_ex,
}
use libcplus.Data.RoundTrip.{Allocates}
use libcplus.Data.Text.{cstr}
use libcplus.Data.Words.{is_spin}
use libcplus.Data.WellFormed.{lock_if}
use libcplus.Llist.{LinkedList, get_size}
use libcplus.Llist.Api.{cplus_llist_push_at, cplus_llist_push_back, cplus_llist_get_size}
use libcplus.Llist.Find.{get_if-find}
use libcplus.Llist.Insert.{cplus_llist_push_at-Inserted}
use libcplus.Llist.Keyed.{
  Objects, Keyed, place, add_or_set, push_created, with_key_text, find_node_by_key,
  cplus_llist_add_data, cplus_llist_add_data_scalar, cplus_llist_find_data,
}
use libcplus.Llist.Keyed.Lookup.{
  AreOthers, cstr-starts, cstr-text, has_key, has_key-key, find-others, find-last, place-AreOthers,
  place-here, place-there,
}
use libcplus.Llist.Rep.{IsList, IsCursor, values}
use libcplus.Llist.Search.{find, searched, IsCursor-arrived, arrived}
use libcplus.Llist.Segment.{Cells, value_at}

-- the new object, before it gets its key
abbrev keyless : Scalar → ℕ → Data
keyless s w = validate (with_value (initial (scalar_type s)) (scalar s w))

-- A scalar object is created once its key is stored.
new_scalar-created :
    (malloc : Malloc) (s : Scalar) (w n : ℕ) (bytes : List ℕ) (d : Data)
    → 0 < n
    → cplus_data_set_key malloc (keyless s w) n (some bytes) ≡ done success d no_error
    → cplus_data_new_ex true malloc (scalar_type s) (some w) none n (some bytes) ≡ created d
unfolding cplus_data_new_ex data_initialize_object initial zero_value set_first_value next_part
    set_first_key cplus_data_set_value
new_scalar-created malloc s w n bytes d positive e =
    ap (λ (r : Run Status). next_part r (λ (o : Data). set_first_key malloc o n (some bytes)))
      (lock_if (is_spin s) (initial (scalar_type s)) (done success (keyless s w) no_error) refl)
    ∙ key_step (ltb 0 n) (lt→ltb 0 n positive)
  where
    key_step :
        (b : Bool)
        → b ≡ true
        → (if b
            then next_part
                (cplus_data_set_key malloc (keyless s w) n (some bytes))
                (λ (o : Data). created o)
            else created (keyless s w))
          ≡ created d
    key_step b eq = rw eq (ap (λ (r : Run Status). next_part r (λ (o : Data). created o)) e)

pub u32-small : (n : ℕ) → n < rsize_max_mem → u32 n ≡ n
u32-small n h = omega arith

pub one_more : (n : ℕ) → n + 1 ≡ suc n
one_more n = omega arith

pub text_fits : (k rest : List ℕ) → length k < length (k ++ 0 ∷ rest)
text_fits k rest = omega (arith, length-append k (0 ∷ rest))

module _ (malloc : Malloc) (room : Allocates malloc) (s : Scalar) (w : ℕ) (k rest : List ℕ)
    (nn : NoNul k) (some_key : 0 < length k) (small : length k < rsize_max_mem) where
  -- A scalar object with a key is created, and its key reads as the caller's.
  pub new_scalar-keyed :
      (d : Data) × (b : List ℕ) × (cplus_data_new_ex true malloc
          (scalar_type s)
          (some w)
          none
          (u32 (length k))
          (some (k ++ 0 ∷ rest))
        ≡ created d)
      × (d.value ≡ scalar s w)
      × (d.key ≡ some b)
      × (cstr b ≡ some k)
  unfolding cplus_data_get_key initial
  new_scalar-keyed =
      let kept =
        cplus_data_get_key-cplus_data_set_key malloc (keyless s w) (length k) (k ++ 0 ∷ rest) room
          refl refl some_key small (text_fits k rest) in
      (
        kept.0,
        kept.1,
        ap
              (λ (n : ℕ).
                cplus_data_new_ex true malloc (scalar_type s) (some w) none n
                  (some (k ++ 0 ∷ rest)))
              (u32-small (length k) small)
            ∙ new_scalar-created malloc s w (length k) (k ++ 0 ∷ rest) kept.0 some_key kept.2,
        subst (KeepsValue (keyless s w)) kept.2
            (set_key-KeepsValue malloc (keyless s w) (length k) (k ++ 0 ∷ rest) refl),
        kept.3,
        cstr-starts k kept.1 rest nn
            (subst (λ n. take n kept.1 ≡ take n (k ++ 0 ∷ rest)) (one_more (length k)) kept.4),
      )

-- Pushing at the end: the list stays one, with the new node behind the others.
pub push_back-IsList :
    (m : Mem) (l : LinkedList) (p v : Ptr) (xs : Cells) (i : ℕ)
    → p ≢ null
    → m.heap p ≡ none
    → v ≢ null
    → IsList m.heap l xs
    → IsCursor m.heap l xs i
    → length xs + 1 < 2147483647
    → Returns
        (λ r m'. (r.0 ≡ success) × IsList m'.heap r.1 (xs ++ (p, v) ∷ []))
        (cplus_llist_push_back p l v m)
unfolding cplus_llist_push_back cplus_llist_get_size get_size
push_back-IsList m l p v xs i np unused nv is c small =
    let end : to_int32 l.count ≡ pos (length xs) =
      ap to_int32 is.count ∙ to_int32-small (length xs) (omega arith) in
    subst
      (λ j.
        Returns (λ r m'. (r.0 ≡ success) × IsList m'.heap r.1 (xs ++ (p, v) ∷ []))
          (cplus_llist_push_at p l j v m))
      (sym end)
      (Returns-weaken
        (cplus_llist_push_at-Inserted m l p v np unused xs i (length xs) nv is c (omega arith)
          small)
        λ r m' d. (d.0.status, subst (IsList m'.heap r.1) (insert_at-length xs (p, v)) d.0.list))

value_at-last : (xs : Cells) (p v : Ptr) → value_at (xs ++ (p, v) ∷ []) (length xs) ≡ v
value_at-last [] p v = refl
value_at-last (x ∷ xs) p v = value_at-last xs p v

values-last : (xs : Cells) (p v : Ptr) → values (xs ++ (p, v) ∷ []) ≡ values xs ++ v ∷ []
values-last [] p v = refl
values-last (x ∷ xs) p v = ap (λ vs. x.1 ∷ vs) (values-last xs p v)

length-values : (xs : Cells) → length (values xs) ≡ length xs
length-values [] = refl
length-values (x ∷ xs) = ap suc (length-values xs)

-- The handle of the new object is handed out, the object holds the word, the others are as they were,
-- the list has one node more, and a search for the key finds the object.
pub record Added (objects : Objects) (xs : Cells) (node fresh : Ptr) (key : List ℕ) (v : Value)
    (r : Keyed) (m : Mem) : Type 0 where
  pub handle : r.0.0 ≡ fresh
  pub object : (d : Data) × (r.0.1 fresh ≡ some d) × (d.value ≡ v)
  pub others : (q : Ptr) → q ≢ fresh → r.0.1 q ≡ objects q
  pub list : IsList m.heap r.1 (xs ++ (node, fresh) ∷ [])
  pub found : (l : LinkedList) × (cplus_llist_find_data r.0.1 r.1 (some key) m ≡ ok (fresh, l) m)

-- A search for a key that one object of the list has at its end, and no other.
found_last :
    (objects : Objects) (xs : Cells) (p v : Ptr) (k rest : List ℕ) (l : LinkedList) (m : Mem)
    → NoNul k
    → IsList m.heap l (xs ++ (p, v) ∷ [])
    → AreOthers objects k (values xs)
    → has_key objects k v ≡ true
    → (l' : LinkedList) × (cplus_llist_find_data objects l (some (k ++ 0 ∷ rest)) m ≡ ok (v, l') m)
unfolding cplus_llist_find_data with_key_text
found_last objects xs p v k rest l m nn is others hit =
    let ys = xs ++ (p, v) ∷ [] in
    let at : find (has_key objects k) (values ys) ≡ some (length xs) =
      ap (find (has_key objects k)) (values-last xs p v)
      ∙ find-last objects k (values xs) v others hit
      ∙ ap some (length-values xs) in
    (
      (searched l ys (some (length xs))).1,
      rw (cstr-text k rest nn, (get_if-find m l ys is (find_node_by_key objects k) null).0, at)
          (ap (λ (u : Ptr). ok (u, (searched l ys (some (length xs))).1) m) (value_at-last xs p v)),
    )

module _ (node fresh : Ptr) (malloc : Malloc) (objects : Objects) (l : LinkedList) (xs : Cells)
    (m : Mem) (s : Scalar) (w : ℕ) (k rest : List ℕ) where
  abbrev key : List ℕ
  key = k ++ 0 ∷ rest

  -- behind the search that finds nothing
  add_new :
      (i : ℕ)
      → node ≢ null
      → m.heap node ≡ none
      → fresh ≢ null
      → objects fresh ≡ none
      → IsList m.heap l xs
      → IsCursor m.heap l xs i
      → length xs + 1 < 2147483647
      → Allocates malloc
      → NoNul k
      → 0 < length k
      → length k < rsize_max_mem
      → AreOthers objects k (values xs)
      → Returns (Added objects xs node fresh key (scalar s w)) (
          add_or_set node fresh malloc objects l
            (scalar_type s)
            (some w)
            none
            key
            (u32 (length k))
            null
            m)
  unfolding add_or_set push_created
  add_new i np unused nf free is c size room nn some_key small others =
      let new = new_scalar-keyed malloc room s w k rest nn some_key small in
      let there = place-here objects fresh (some new.0) in
      rw (ne→== fresh null nf, new.2)
        (Returns-and_then (push_back-IsList m l node fresh xs i np unused nf is c size) λ r m' h.
          returns (record {
            handle = refl;
            object = (new.0, there, new.3);
            others = λ q ne. place-there objects fresh (some new.0) q ne;
            list = h.1;
            found =
                found_last (place objects fresh (some new.0)) xs node fresh k rest r.1 m' nn h.1
                  (place-AreOthers objects k (values xs) fresh new.0 free others)
                  (has_key-key (place objects fresh (some new.0)) k fresh new.0 new.1 nf there new.4
                    new.5);
          }))

-- the list behind the search, in which only the cursor has moved
pub IsList-arrived :
    (h : Heap) (l : LinkedList) (xs : Cells) (j : ℕ) → IsList h l xs → IsList h (arrived l xs j) xs
IsList-arrived h l xs zero is = record {
  chain = is.chain;
  head = is.head;
  tail = is.tail;
  count = is.count;
  small = is.small;
}
IsList-arrived h l xs (suc j) is = record {
  chain = is.chain;
  head = is.head;
  tail = is.tail;
  count = is.count;
  small = is.small;
}

module _ (node fresh : Ptr) (malloc : Malloc) (objects : Objects) (l : LinkedList) (xs : Cells)
    (m : Mem) (s : Scalar) (w : ℕ) (k rest : List ℕ) where
  -- Adding a number, float or pointer under a key that no object of the list has: a new object with that
  -- word is made, its handle handed out and pushed behind the others, and a search for the key in the new
  -- list finds it. The key has at least one character and less than RSIZE_MAX_MEM, the list holds
  -- objects, an object, a node and the key's block can be allocated.
  pub cplus_llist_add_data_scalar-find_data :
      (i : ℕ)
      → node ≢ null
      → m.heap node ≡ none
      → fresh ≢ null
      → objects fresh ≡ none
      → IsList m.heap l xs
      → IsCursor m.heap l xs i
      → length xs + 1 < 2147483647
      → Allocates malloc
      → NoNul k
      → 0 < length k
      → length k < rsize_max_mem
      → AreOthers objects k (values xs)
      → Returns
          (Added objects xs node fresh (k ++ 0 ∷ rest) (scalar s w))
          (cplus_llist_add_data_scalar node fresh malloc objects l s (some (k ++ 0 ∷ rest)) w m)
  unfolding cplus_llist_add_data_scalar cplus_llist_add_data with_key_text
  cplus_llist_add_data_scalar-find_data i np unused nf free is c size room nn some_key small
        others =
      let searched_none = find-others objects k (values xs) others in
      rw
        (
          cstr-text k rest nn,
          (get_if-find m l xs is (find_node_by_key objects k) null).0,
          searched_none,
        )
        (add_new node fresh malloc objects (arrived l xs (length xs - 1)) xs
          (record m { errno = enoent }) s w k rest (length xs - 1) np unused nf free
          (IsList-arrived m.heap l xs (length xs - 1) is)
          (IsCursor-arrived m l xs (length xs - 1) is (omega arith)) size room nn some_key small
          others)
