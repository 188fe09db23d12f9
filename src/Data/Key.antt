-- ===== src/Data/Key.antt =====
-- `cplus_data_set_key` of src/data.c, and the functions that read or set one field.
use libcplus.Common.{
  ℕ, ◌+◌, Bool, false, Option, none, some, List, leb, ◌==◌, if◌then◌else◌, length, Status, success,
  fail, Errno, no_error, einval, enomem, enobufs,
}
use libcplus.Data.{
  DataType, data_type, Data, Run, done, fault, under_lock, null, unknown, scalar, string,
  byte_array,
}
use libcplus.Data.Memory.{
  Malloc, Copy, copied, refused, out_of_bounds, cplus_mem_cpy_ex, cplus_realloc, u32,
}
use libcplus.Data.Words.{size_of, is_spin}
use libcplus.Data.GetAs.{with_text}

-- the key behind the copy, whose result is not looked at
unfoldable pub keyed : Data → ℕ → List ℕ → Copy → Run Status
keyed d len old (copied b) = done success (record d { key_len = len; key = some b }) no_error
keyed d len old refused = done success (record d { key_len = len; key = some old }) einval
keyed d len old out_of_bounds = fault

unfoldable pub new_key : Data → ℕ → List ℕ → Errno → Option (List ℕ) → Run Status
unfolding keyed
new_key d len bytes e none = done fail (record d { key_len = len; key = none }) e
new_key d len bytes e (some b) = keyed d len b (cplus_mem_cpy_ex (some b) len (some bytes) len)

-- a block for a longer key
unfoldable pub longer_key : Malloc → Data → ℕ → List ℕ → Run Status
unfolding new_key
longer_key malloc d len bytes = elim d.key [
  | none ↦ new_key d len bytes enomem (malloc len)
  | some old ↦ new_key d len bytes enobufs (cplus_realloc malloc old len)
]

-- The block is long enough, unless it is NULL, which the copy refuses.
unfoldable pub shorter_key : Data → ℕ → List ℕ → Run Status
unfolding keyed
shorter_key d len bytes = elim d.key [
  | none ↦ done success d einval
  | some old ↦ keyed d d.key_len old (cplus_mem_cpy_ex (some old) d.key_len (some bytes) len)
]

-- `key` is NULL, or a block; `key_len` counts its characters without the NUL.
unfoldable pub cplus_data_set_key : Malloc → Data → ℕ → Option (List ℕ) → Run Status
unfolding longer_key shorter_key
cplus_data_set_key malloc d key_len none = done fail d einval
cplus_data_set_key malloc d key_len (some bytes) =
    let len = u32 (key_len + 1) in
    let run =
      under_lock d
        (if leb len d.key_len then shorter_key d len bytes else longer_key malloc d len bytes) in
    if key_len == 0 then done fail d einval else run

unfoldable pub cplus_data_get_key : Data → Option (List ℕ)
cplus_data_get_key d = d.key

unfoldable pub cplus_data_set_action_mode : Data → ℕ → Run Status
cplus_data_set_action_mode d mode = done success (record d { action_mode = mode }) no_error

unfoldable pub cplus_data_get_action_mode : Data → ℕ
cplus_data_get_action_mode d = d.action_mode

unfoldable pub cplus_data_set_string_code : Data → ℕ → Run Status
cplus_data_set_string_code d code = elim d.value [
  | null ↦ done fail d no_error
  | unknown ↦ done fail d no_error
  | scalar s w ↦ done fail d no_error
  | string len bufs ↦ done success (record d { str_code = code }) no_error
  | byte_array len bufs ↦ done fail d no_error
]

unfoldable pub cplus_data_is_valid : Data → Bool
cplus_data_is_valid d = elim d.value [
  | null ↦ false
  | unknown ↦ false
  | scalar s w ↦ d.is_valid
  | string len bufs ↦ d.is_valid
  | byte_array len bufs ↦ d.is_valid
]

-- the length of a string, or of an array, is read under the lock
unfoldable pub cplus_data_get_data_size : Data → Run ℕ
cplus_data_get_data_size d = elim d.value [
  | null ↦ done 0 d no_error
  | unknown ↦ done 0 d einval
  | scalar s w ↦ done (size_of s) d no_error
  | string len bufs ↦ under_lock d (with_text bufs (λ text. done (length text) d no_error))
  | byte_array len bufs ↦ under_lock d (done len d no_error)
]

-- `cplus_data_get_bool` to `cplus_data_get_pointer`: the type is asserted, and the program stops at
-- another, which is `none`.
unfoldable pub cplus_data_get_scalar : Data → Option (Run ℕ)
cplus_data_get_scalar d = elim d.value [
  | null ↦ none
  | unknown ↦ none
  | scalar s w ↦ some (if is_spin s then under_lock d (done w d no_error) else done w d no_error)
  | string len bufs ↦ none
  | byte_array len bufs ↦ none
]

unfoldable pub cplus_data_get_type : Data → DataType
cplus_data_get_type d = data_type d.value

-- The block of another type's object is not handed out: the program stops, which is `none`.
unfoldable pub cplus_data_get_string : Data → Option (Option (List ℕ))
cplus_data_get_string d = elim d.value [
  | null ↦ none
  | unknown ↦ none
  | scalar s w ↦ none
  | string len bufs ↦ some bufs
  | byte_array len bufs ↦ none
]

unfoldable pub cplus_data_get_byte_array : Data → Option (Option (List ℕ))
cplus_data_get_byte_array d = elim d.value [
  | null ↦ none
  | unknown ↦ none
  | scalar s w ↦ none
  | string len bufs ↦ none
  | byte_array len bufs ↦ some bufs
]

unfoldable pub cplus_data_get_string_code : Data → Option ℕ
cplus_data_get_string_code d = elim d.value [
  | null ↦ none
  | unknown ↦ none
  | scalar s w ↦ none
  | string len bufs ↦ some d.str_code
  | byte_array len bufs ↦ none
]
