-- ===== src/Data/Parse.antt =====
-- `cplus_data_set_as_string` and `cplus_data_set_as_byte_array` of src/data.c. Their result starts as
-- CPLUS_FAIL, and only the string of a string object changes it.
use libcplus.Common.{
  ℕ, ◌+◌, Option, none, some, List, ltb, if◌then◌else◌, Status, fail, no_error, einval, enomem,
}
use libcplus.Data.{
  Scalar, bool, float, double, pointer, Value, Data, Run, done, spinning, fault, under_lock,
  with_value, validate, null, unknown, scalar, string, byte_array,
}
use libcplus.Data.Memory.{
  Malloc, Copy, copied, refused, out_of_bounds, cplus_mem_cpy, to_bytes, of_bytes, u32,
}
use libcplus.Data.Text.{same_word, true_word, false_word}
use libcplus.Data.Words.{Floats, size_of, scan_scalar}
use libcplus.Data.Access.{cplus_data_set_string, cplus_data_set_byte_array}
use libcplus.Data.GetAs.{with_text}

-- the result of a call kept, or replaced by CPLUS_FAIL, with `is_valid = true` behind it
unfoldable pub kept : Run Status → Run Status
kept (done r d e) = done r (validate d) e
kept spinning = spinning
kept fault = fault

unfoldable pub failed : Run Status → Run Status
failed (done r d e) = done fail (validate d) e
failed spinning = spinning
failed fault = fault

unfoldable pub scan_bool : List ℕ → Option ℕ
scan_bool text =
    if same_word true_word text then some 1 else if same_word false_word text then some 0 else none

-- `sscanf`, or the comparison with the two words
unfoldable pub scan_as : Floats → Scalar → List ℕ → Option ℕ
unfolding scan_bool
scan_as floats bool text = scan_bool text
scan_as floats float text = floats.scan float text
scan_as floats double text = floats.scan double text
scan_as floats pointer text = floats.scan pointer text
scan_as floats t text = scan_scalar t text

-- the scanned word is stored; the result stays CPLUS_FAIL, and the object is valid either way
unfoldable pub parsed : Data → Scalar → Option ℕ → Run Status
parsed d t none = done fail (validate d) einval
parsed d t (some w) = done fail (validate (with_value d (scalar t w))) no_error

-- `str_bufs` is NULL, or a block.
unfoldable pub cplus_data_set_as_string : Floats → Malloc → Data → ℕ → Option (List ℕ) → Run Status
unfolding kept failed parsed scan_as
cplus_data_set_as_string floats malloc d str_len none = done fail d einval
cplus_data_set_as_string floats malloc d str_len (some chars) = elim d.value [
  | null ↦ done fail d einval
  | unknown ↦ done fail d einval
  | scalar t w ↦ under_lock d (with_text (some chars) (λ text. parsed d t (scan_as floats t text)))
  | string len bufs ↦ kept (cplus_data_set_string malloc d str_len (some chars))
  | byte_array len bufs ↦ failed (cplus_data_set_byte_array malloc d str_len (some chars))
]

-- The result of the copy is not looked at, and the result of the call stays CPLUS_FAIL.
unfoldable pub replaced : Data → (List ℕ → Value) → Copy → Run Status
replaced d make (copied b) = done fail (validate (with_value d (make b))) no_error
replaced d make refused = done fail (validate d) einval
replaced d make out_of_bounds = fault

-- `array_bufs` is NULL, or a block.
unfoldable pub cplus_data_set_as_byte_array : Data → ℕ → Option (List ℕ) → Run Status
unfolding replaced
cplus_data_set_as_byte_array d array_len none = done fail d einval
cplus_data_set_as_byte_array d array_len (some bytes) = elim d.value [
  | null ↦ done fail d einval
  | unknown ↦ done fail d einval
  | scalar t w ↦
      let copy =
        replaced d (λ (b : List ℕ). scalar t (of_bytes b))
          (cplus_mem_cpy (some (to_bytes (size_of t) w)) (some bytes) (size_of t)) in
      under_lock d (if ltb array_len (size_of t) then done fail d enomem else copy)
  | string len bufs ↦
      let copy =
        replaced d (λ (b : List ℕ). string len (some b)) (cplus_mem_cpy bufs (some bytes) len) in
      under_lock d (if ltb array_len (u32 (len + 1)) then done fail d enomem else copy)
  | byte_array len bufs ↦
      let copy =
        replaced d (λ (b : List ℕ). byte_array len (some b))
          (cplus_mem_cpy bufs (some bytes) len) in
      under_lock d (if ltb array_len len then done fail d enomem else copy)
]
