-- ===== src/Data/GetAs.antt =====
-- The functions `cplus_data_get_as_*` of src/data.c: the value of an object as any type.
use libcplus.Common.{
  ℕ, Option, none, some, List, [], ◌∷◌, ltb, ◌==◌, if◌then◌else◌, Status, success, fail, no_error,
  einval, enoent, enomem,
}
use libcplus.Data.{
  Scalar, bool, int8, int16, int32, int64, uint8, uint16, uint32, uint64, float, double, Data, Run,
  done, fault, under_lock, or_fault, null, unknown, scalar, string, byte_array,
}
use libcplus.Data.Memory.{Copy, copied, refused, out_of_bounds, cplus_mem_cpy, to_bytes, of_bytes}
use libcplus.Data.Text.{cstr, same_word, true_word, false_word}
use libcplus.Data.Words.{Floats, size_of, is_spin, cast, scan_scalar}

-- the result, and the word behind `value`
abbrev pub Fetched : Type 0
Fetched = Status × ℕ

-- A string is read up to its NUL; a NULL block is read too.
abbrev pub with_text {ℓ} : {A : Type ℓ} → Option (List ℕ) → (List ℕ → Run A) → Run A
with_text none k = fault
with_text (some chars) k = or_fault (cstr chars) k

-- the scanned word; ENOENT when `sscanf` finds none
unfoldable pub scanned : Data → ℕ → Option ℕ → Run Fetched
scanned d old none = done (fail, old) d enoent
scanned d old (some w) = done (success, w) d no_error

-- The first bytes of the value are replaced; the result of the copy is not looked at.
unfoldable pub copied_word : Data → ℕ → Copy → Run Fetched
copied_word d old (copied b) = done (success, of_bytes b) d no_error
copied_word d old refused = done (success, old) d einval
copied_word d old out_of_bounds = fault

-- the smaller of the two, as the code writes it
abbrev pub at_most : ℕ → ℕ → ℕ
at_most size len = if ltb size len then size else len

module _ (floats : Floats) where
  -- the body that the eight integer types share
  unfoldable pub get_as_integer : Scalar → Data → ℕ → Run Fetched
  unfolding scanned copied_word
  get_as_integer t d old = elim d.value [
    | null ↦ done (fail, old) d einval
    | unknown ↦ done (fail, old) d einval
    | scalar s w ↦
        let r = done (success, cast floats s t w) d no_error in
        if is_spin s then under_lock d r else r
    | string len bufs ↦ under_lock d (with_text bufs (λ text. scanned d old (scan_scalar t text)))
    | byte_array len bufs ↦ under_lock d (
        copied_word d old
          (cplus_mem_cpy (some (to_bytes (size_of t) old)) bufs (at_most (size_of t) len)))
  ]

  unfoldable pub cplus_data_get_as_int8 : Data → ℕ → Run Fetched
  unfolding get_as_integer
  cplus_data_get_as_int8 = get_as_integer int8

  unfoldable pub cplus_data_get_as_int16 : Data → ℕ → Run Fetched
  unfolding get_as_integer
  cplus_data_get_as_int16 = get_as_integer int16

  unfoldable pub cplus_data_get_as_int32 : Data → ℕ → Run Fetched
  unfolding get_as_integer
  cplus_data_get_as_int32 = get_as_integer int32

  unfoldable pub cplus_data_get_as_int64 : Data → ℕ → Run Fetched
  unfolding get_as_integer
  cplus_data_get_as_int64 = get_as_integer int64

  unfoldable pub cplus_data_get_as_uint8 : Data → ℕ → Run Fetched
  unfolding get_as_integer
  cplus_data_get_as_uint8 = get_as_integer uint8

  unfoldable pub cplus_data_get_as_uint16 : Data → ℕ → Run Fetched
  unfolding get_as_integer
  cplus_data_get_as_uint16 = get_as_integer uint16

  unfoldable pub cplus_data_get_as_uint32 : Data → ℕ → Run Fetched
  unfolding get_as_integer
  cplus_data_get_as_uint32 = get_as_integer uint32

  unfoldable pub cplus_data_get_as_uint64 : Data → ℕ → Run Fetched
  unfolding get_as_integer
  cplus_data_get_as_uint64 = get_as_integer uint64

  -- the body that `float` and `double` share; every type is read under the lock
  unfoldable pub get_as_floating : Scalar → Data → ℕ → Run Fetched
  unfolding scanned copied_word
  get_as_floating t d old = elim d.value [
    | null ↦ done (fail, old) d einval
    | unknown ↦ done (fail, old) d einval
    | scalar s w ↦ under_lock d (done (success, cast floats s t w) d no_error)
    | string len bufs ↦ under_lock d (with_text bufs (λ text. scanned d old (floats.scan t text)))
    | byte_array len bufs ↦ under_lock d (
        copied_word d old
          (cplus_mem_cpy (some (to_bytes (size_of t) old)) bufs (at_most (size_of t) len)))
  ]

  unfoldable pub cplus_data_get_as_float : Data → ℕ → Run Fetched
  unfolding get_as_floating
  cplus_data_get_as_float = get_as_floating float

  unfoldable pub cplus_data_get_as_double : Data → ℕ → Run Fetched
  unfolding get_as_floating
  cplus_data_get_as_double = get_as_floating double

  unfoldable pub bool_of_text : Data → ℕ → List ℕ → Run Fetched
  bool_of_text d old text =
      if same_word true_word text
      then done (success, 1) d no_error
      else if same_word false_word text
      then done (success, 0) d no_error
      else done (fail, old) d enomem

  -- The first byte decides.
  unfoldable pub bool_of_bytes : Data → List ℕ → Run Fetched
  bool_of_bytes d [] = fault
  bool_of_bytes d (b ∷ bs) = done (success, if ltb 0 b then 1 else 0) d no_error

  unfoldable pub cplus_data_get_as_bool : Data → ℕ → Run Fetched
  unfolding bool_of_text bool_of_bytes
  cplus_data_get_as_bool d old = elim d.value [
    | null ↦ done (fail, old) d einval
    | unknown ↦ done (fail, old) d einval
    | scalar s w ↦
        let r = done (success, cast floats s bool w) d no_error in
        if is_spin s then under_lock d r else r
    | string len bufs ↦ under_lock d (elim bufs [
      | none ↦ done (fail, old) d enomem
      | some chars ↦
          let read = with_text (some chars) (bool_of_text d old) in
          if len == 0 then done (fail, old) d enomem else read
    ])
    | byte_array len bufs ↦ under_lock d (elim bufs [
      | none ↦ done (fail, old) d enomem
      | some bytes ↦ if len == 0 then done (fail, old) d enomem else bool_of_bytes d bytes
    ])
  ]
