-- ===== src/Llist/Keyed/Updated.antt =====
-- `cplus_llist_update_data` of src/llist.c on a key that the list has.
use mathlib.Core.Path.{subst}
use libcplus.Common.{
  ℕ, ◌+◌, ◌<◌, ◌≡◌, ◌≢◌, refl, sym, ◌∙◌, ap, arith, true, false, Option, none, some, List, [], ◌∷◌,
  ◌++◌, length, ne→==, Status, success, fail, no_error,
}
use libcplus.Heap.{Ptr, null, Mem, ok}
use libcplus.Heap.Returns.{Returns, returns, Returns-and_then}
use libcplus.Data.{
  Value, Data, Scalar, bool, int8, int16, int32, int64, uint8, uint16, uint32, uint64, float,
  double, pointer, done, scalar, with_value,
}
use libcplus.Data.Clone.{same_scalar, clone_values, cplus_data_clone_value}
use libcplus.Data.Decimal.{NoNul}
use libcplus.Data.Key.{cplus_data_set_key, cplus_data_get_key}
use libcplus.Data.KeyBytes.{IsKey, cplus_data_get_key-cplus_data_set_key}
use libcplus.Data.Keys.{KeepsValue, set_key-KeepsValue}
use libcplus.Data.Memory.{Malloc, take, rsize_max_mem, u32}
use libcplus.Data.RoundTrip.{Allocates}
use libcplus.Data.Text.{cstr}
use libcplus.Llist.{LinkedList}
use libcplus.Llist.Api.{cplus_llist_get_if}
use libcplus.Llist.Find.{searched_mem, get_if-find, value_or_null}
use libcplus.Llist.Keyed.{
  Objects, Keyed, place, set_and_push, push_keyed, pushed_as, cloned_into, update_found,
  with_key_text, find_node_by_key, cplus_llist_update_data,
}
use libcplus.Llist.Keyed.Added.{push_back-IsList, u32-small, one_more, text_fits, IsList-arrived}
use libcplus.Llist.Keyed.Lookup.{cstr-starts, cstr-text, has_key, place-here, place-there}
use libcplus.Llist.Rep.{IsList, IsCursor, values}
use libcplus.Llist.Search.{find, searched, Found, find-Found, arrived, IsCursor-arrived}
use libcplus.Llist.Segment.{Cells, value_at}

same_scalar_refl : (s : Scalar) → same_scalar s s ≡ true
unfolding same_scalar
same_scalar_refl bool = refl
same_scalar_refl int8 = refl
same_scalar_refl int16 = refl
same_scalar_refl int32 = refl
same_scalar_refl int64 = refl
same_scalar_refl uint8 = refl
same_scalar_refl uint16 = refl
same_scalar_refl uint32 = refl
same_scalar_refl uint64 = refl
same_scalar_refl float = refl
same_scalar_refl double = refl
same_scalar_refl pointer = refl

clone_scalar :
    (malloc : Malloc) (dest src : Data) (s : Scalar) (v w : ℕ)
    → dest.value ≡ scalar s v
    → src.value ≡ scalar s w
    → cplus_data_clone_value malloc dest src ≡ done success (with_value dest (scalar s w)) no_error
unfolding cplus_data_clone_value clone_values
clone_scalar malloc dest src s v w ed es =
    ap (λ (u : Value). clone_values malloc dest src.str_code src.bufs_size u src.value) ed
    ∙ ap (clone_values malloc dest src.str_code src.bufs_size (scalar s v)) es
    ∙ rw (same_scalar_refl s) refl

-- An object without a key gets one, and keeps its value.
set_key-new :
    (malloc : Malloc) (d : Data) (k rest : List ℕ)
    → Allocates malloc
    → NoNul k
    → 0 < length k
    → length k < rsize_max_mem
    → d.spinlock ≡ false
    → d.key ≡ none
    → d.key_len ≡ 0
    → (d' : Data) × (b : List ℕ) × (cplus_data_set_key malloc d
          (u32 (length k))
          (some (k ++ 0 ∷ rest))
        ≡ done success d' no_error)
      × (d'.value ≡ d.value)
      × (d'.key ≡ some b)
      × (cstr b ≡ some k)
unfolding cplus_data_get_key
set_key-new malloc d k rest room nn some_key small free no_key no_len =
    let kept =
      cplus_data_get_key-cplus_data_set_key malloc d (length k) (k ++ 0 ∷ rest) room free
        (subst (IsKey d.key_len) (sym no_key) no_len) some_key small (text_fits k rest) in
    (
      kept.0,
      kept.1,
      ap (λ (n : ℕ). cplus_data_set_key malloc d n (some (k ++ 0 ∷ rest)))
            (u32-small (length k) small)
          ∙ kept.2,
      subst (KeepsValue d) kept.2 (set_key-KeepsValue malloc d (length k) (k ++ 0 ∷ rest) no_key),
      kept.3,
      cstr-starts k kept.1 rest nn
          (subst (λ n. take n kept.1 ≡ take n (k ++ 0 ∷ rest)) (one_more (length k)) kept.4),
    )

-- The target holds the word, and so does the given object, which stands behind the others under the same
-- key.
pub record Doubled (objects : Objects) (xs : Cells) (node target given : Ptr) (k : List ℕ)
    (v : Value) (r : Keyed) (m : Mem) : Type 0 where
  pub handle : r.0.0 ≡ given
  pub list : IsList m.heap r.1 (xs ++ (node, given) ∷ [])
  pub old : (d : Data) × (objects target ≡ some d) × (r.0.1 target ≡ some (with_value d v))
  pub new :
      (d : Data) × (b : List ℕ) × (r.0.1 given ≡ some d)
      × (d.value ≡ v)
      × (d.key ≡ some b)
      × (cstr b ≡ some k)

module _ (node target given : Ptr) (malloc : Malloc) (objects : Objects) (l : LinkedList)
    (xs : Cells) (m : Mem) (s : Scalar) (v w : ℕ) (k rest : List ℕ) (t d : Data) where
  abbrev word : Value
  word = scalar s w

  pushed-Doubled :
      (n : Data) (b : List ℕ) (r : Status × LinkedList) (m' : Mem)
      → given ≢ target
      → objects target ≡ some t
      → n.value ≡ word
      → n.key ≡ some b
      → cstr b ≡ some k
      → (r.0 ≡ success) × IsList m'.heap r.1 (xs ++ (node, given) ∷ [])
      → Returns (Doubled objects xs node target given k word) (
          pushed_as node malloc
            (place (place objects target (some (with_value t word))) given (some n))
            target
            given
            r
            m')
  pushed-Doubled n b (success, l') m' apart et nv nk text h =
      let o = place objects target (some (with_value t word)) in
      let other : target ≢ given = λ (e : target ≡ given). apart (sym e) in
      returns (record {
        handle = refl;
        list = h.1;
        old = (
          t,
          et,
          place-there o given (some n) target other
              ∙ place-here objects target (some (with_value t word)),
        );
        new = (n, b, place-here o given (some n), nv, nk, text);
      })
  pushed-Doubled n b (fail, l') m' apart et nv nk text h =
      let clash : fail ≡ success = h.0 in absurd (cc clash)

  update_target :
      (i : ℕ)
      → node ≢ null
      → m.heap node ≡ none
      → target ≢ null
      → given ≢ null
      → given ≢ target
      → IsList m.heap l xs
      → IsCursor m.heap l xs i
      → length xs + 1 < 2147483647
      → objects target ≡ some t
      → t.value ≡ scalar s v
      → objects given ≡ some d
      → d.value ≡ scalar s w
      → d.spinlock ≡ false
      → d.key ≡ none
      → d.key_len ≡ 0
      → Allocates malloc
      → NoNul k
      → 0 < length k
      → length k < rsize_max_mem
      → Returns
          (Doubled objects xs node target given k (scalar s w))
          (update_found node malloc objects l target d given (k ++ 0 ∷ rest) (u32 (length k)) m)
  unfolding update_found cloned_into set_and_push push_keyed
  update_target i np unused nt ng apart is c size et tv eg dv free no_key no_len room nn some_key
        small =
      let new = set_key-new malloc d k rest room nn some_key small free no_key no_len in
      let o = place objects target (some (with_value t (scalar s w))) in
      let o' = place o given (some new.0) in
      let given_there : o given ≡ some d = place-there objects target _ given apart ∙ eg in
      rw
        (
          ne→== target null nt,
          et,
          clone_scalar malloc t d s v w tv dv,
          cloned_into,
          set_and_push,
          ne→== given null ng,
          given_there,
          new.2,
        )
        (Returns-and_then (push_back-IsList m l node given xs i np unused ng is c size)
          λ r m' h. pushed-Doubled new.0 new.1 r m' apart et (new.3 ∙ dv) new.4 new.5 h)

module _ (node target given : Ptr) (malloc : Malloc) (objects : Objects) (l : LinkedList)
    (xs : Cells) (m : Mem) (s : Scalar) (v w : ℕ) (k rest : List ℕ) (t d : Data) where
  -- Updating a key that the list has, with another object of the same scalar type: the object under the
  -- key takes the word, and the given object gets the key and is pushed as well, so that the list has two
  -- objects under it. The given object is not locked, and has neither a key nor a length of one. The key
  -- has at least one character and less than RSIZE_MAX_MEM, the list less than 2^31 - 2 nodes, and a node
  -- and the key's block can be allocated.
  pub cplus_llist_update_data-Doubled :
      (j : ℕ)
      → find (has_key objects k) (values xs) ≡ some j
      → value_at xs j ≡ target
      → node ≢ null
      → m.heap node ≡ none
      → target ≢ null
      → given ≢ null
      → given ≢ target
      → IsList m.heap l xs
      → length xs + 1 < 2147483647
      → objects target ≡ some t
      → t.value ≡ scalar s v
      → objects given ≡ some d
      → d.value ≡ scalar s w
      → d.spinlock ≡ false
      → d.key ≡ none
      → d.key_len ≡ 0
      → Allocates malloc
      → NoNul k
      → 0 < length k
      → length k < rsize_max_mem
      → Returns
          (Doubled objects xs node target given k (scalar s w))
          (cplus_llist_update_data node malloc objects l (some (k ++ 0 ∷ rest)) given m)
  unfolding cplus_llist_update_data with_key_text
  cplus_llist_update_data-Doubled j at here np unused nt ng apart is size et tv eg dv free no_key
        no_len room nn some_key small =
      let found : Found (has_key objects k) xs (some j) =
        subst (Found (has_key objects k) xs) at (find-Found (has_key objects k) xs) in
      let run : cplus_llist_get_if l (some (find_node_by_key objects k)) null m
          ≡ ok (target, arrived l xs j) m =
        (get_if-find m l xs is (find_node_by_key objects k) null).0
        ∙ ap (λ (o : Option ℕ). ok (value_or_null xs o, (searched l xs o).1) (searched_mem m o)) at
        ∙ ap (λ (u : Ptr). ok (u, arrived l xs j) m) here in
      rw (cplus_llist_update_data, ne→== given null ng, eg, cstr-text k rest nn, run)
        (update_target node target given malloc objects (arrived l xs j) xs m s v w k rest t d j np
          unused nt ng apart (IsList-arrived m.heap l xs j is)
          (IsCursor-arrived m l xs j is (omega (arith, found.0))) size et tv eg dv free no_key
          no_len room nn some_key small)
