-- ===== src/Data/SetAs.antt =====
-- The functions `cplus_data_set_as_*` of src/data.c that take a number or a pointer: the value is
-- converted to the type of the object.
use libcplus.Common.{
  ℕ, ◌+◌, Bool, true, false, Option, none, some, List, [], ◌∷◌, ◌++◌, if◌then◌else◌, length, Status,
  success, fail, no_error, einval, enomem,
}
use libcplus.Data.{
  Scalar, bool, int8, int16, int32, int64, uint8, uint16, uint32, uint64, float, double, pointer,
  Data, Run, done, spinning, fault, under_lock, with_value, validate, null, unknown, scalar, string,
  byte_array,
}
use libcplus.Data.Memory.{Malloc, to_bytes, u32}
use libcplus.Data.Words.{Floats, size_of, is_spin, cast, print_scalar}
use libcplus.Data.Access.{grow, grown, write_text, cplus_data_set_string, cplus_data_set_byte_array}

-- a call whose result is not looked at, then `is_valid = true` and CPLUS_SUCCESS
unfoldable pub then_valid : Run Status → Run Status
then_valid (done r d e) = done success (validate d) e
then_valid spinning = spinning
then_valid fault = fault

unfoldable pub print_grown : Data → ℕ → Option (List ℕ) → List ℕ → Run Status
unfolding write_text
print_grown d len none text = done fail (with_value d (string len none)) enomem
print_grown d len (some b) text = write_text d len b text

-- The block is made large enough for the text and its NUL, and the text is printed.
unfoldable pub print_text : Malloc → Data → ℕ → Option (List ℕ) → List ℕ → Run Status
unfolding print_grown
print_text malloc d len bufs text =
    let size = u32 (length text + 1) in
    print_grown d (grown bufs len size) (grow malloc bufs len size) text

-- `bool` is stored under the lock, unless the value is a `bool`.
abbrev pub locks_bool : Scalar → Bool
locks_bool bool = true
locks_bool t = is_spin t

module _ (floats : Floats) (malloc : Malloc) where
  -- the word stored, converted
  abbrev pub stored : Scalar → Data → Scalar → ℕ → Run Status
  stored s d t v = done success (validate (with_value d (scalar t (cast floats s t v)))) no_error

  -- the body that the eight integer types share; `s` is the type of the argument
  unfoldable pub set_as_integer : Scalar → Data → ℕ → Run Status
  unfolding then_valid print_text
  set_as_integer s d v = elim d.value [
    | null ↦ done fail d einval
    | unknown ↦ done fail d einval
    | scalar t w ↦ if locks_bool t then under_lock d (stored s d t v) else stored s d t v
    | string len bufs ↦ under_lock d (print_text malloc d len bufs (print_scalar floats s v))
    | byte_array len bufs ↦
        then_valid (cplus_data_set_byte_array malloc d (size_of s) (some (to_bytes (size_of s) v)))
  ]

  unfoldable pub cplus_data_set_as_int8 : Data → ℕ → Run Status
  unfolding set_as_integer
  cplus_data_set_as_int8 = set_as_integer int8

  unfoldable pub cplus_data_set_as_int16 : Data → ℕ → Run Status
  unfolding set_as_integer
  cplus_data_set_as_int16 = set_as_integer int16

  unfoldable pub cplus_data_set_as_int32 : Data → ℕ → Run Status
  unfolding set_as_integer
  cplus_data_set_as_int32 = set_as_integer int32

  unfoldable pub cplus_data_set_as_int64 : Data → ℕ → Run Status
  unfolding set_as_integer
  cplus_data_set_as_int64 = set_as_integer int64

  unfoldable pub cplus_data_set_as_uint8 : Data → ℕ → Run Status
  unfolding set_as_integer
  cplus_data_set_as_uint8 = set_as_integer uint8

  unfoldable pub cplus_data_set_as_uint16 : Data → ℕ → Run Status
  unfolding set_as_integer
  cplus_data_set_as_uint16 = set_as_integer uint16

  unfoldable pub cplus_data_set_as_uint32 : Data → ℕ → Run Status
  unfolding set_as_integer
  cplus_data_set_as_uint32 = set_as_integer uint32

  unfoldable pub cplus_data_set_as_uint64 : Data → ℕ → Run Status
  unfolding set_as_integer
  cplus_data_set_as_uint64 = set_as_integer uint64

  -- A string becomes "true" or "false" by `cplus_data_set_string`, which takes the lock.
  unfoldable pub cplus_data_set_as_bool : Data → ℕ → Run Status
  unfolding then_valid
  cplus_data_set_as_bool d v = elim d.value [
    | null ↦ done fail d einval
    | unknown ↦ done fail d einval
    | scalar t w ↦ if is_spin t then under_lock d (stored bool d t v) else stored bool d t v
    | string len bufs ↦
        let word = print_scalar floats bool v in
        then_valid (cplus_data_set_string malloc d (length word) (some (word ++ 0 ∷ [])))
    | byte_array len bufs ↦
        then_valid
          (cplus_data_set_byte_array malloc d (size_of bool) (some (to_bytes (size_of bool) v)))
  ]

  -- Every type is written under the lock.
  unfoldable pub cplus_data_set_as_float : Data → ℕ → Run Status
  unfolding then_valid print_text
  cplus_data_set_as_float d v = elim d.value [
    | null ↦ done fail d einval
    | unknown ↦ done fail d einval
    | scalar t w ↦ under_lock d (stored float d t v)
    | string len bufs ↦ under_lock d (print_text malloc d len bufs (floats.print float v))
    | byte_array len bufs ↦
        then_valid
          (cplus_data_set_byte_array malloc d (size_of float) (some (to_bytes (size_of float) v)))
  ]

  -- behind DATA_SPIN_LOCK: the object that a called function sees
  abbrev pub locked : Data → Data
  locked d = record d { spinlock = true }

  -- DATA_SPIN_UNLOCK behind the call, then `is_valid = true`
  unfoldable pub unlock_valid : Run Status → Run Status
  unlock_valid (done r d e) = done success (record d { spinlock = false; is_valid = true }) e
  unlock_valid spinning = spinning
  unlock_valid fault = fault

  -- The body that `double` and `void *` share holds the lock over the whole switch, the call of
  -- `cplus_data_set_byte_array` included.
  unfoldable pub set_under_lock : Scalar → Data → ℕ → Run Status
  unfolding unlock_valid print_text
  set_under_lock s d v = under_lock d (elim d.value [
    | null ↦ done fail d einval
    | unknown ↦ done fail d einval
    | scalar t w ↦ stored s d t v
    | string len bufs ↦ print_text malloc d len bufs (floats.print s v)
    | byte_array len bufs ↦
        unlock_valid
          (cplus_data_set_byte_array malloc (locked d) (size_of s) (some (to_bytes (size_of s) v)))
  ])

  unfoldable pub cplus_data_set_as_double : Data → ℕ → Run Status
  unfolding set_under_lock
  cplus_data_set_as_double = set_under_lock double

  unfoldable pub cplus_data_set_as_pointer : Data → ℕ → Run Status
  unfolding set_under_lock
  cplus_data_set_as_pointer = set_under_lock pointer
