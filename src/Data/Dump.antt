-- ===== src/Data/Dump.antt =====
-- `cplus_data_get_as_string` and `cplus_data_get_as_byte_array` of src/data.c.
use libcplus.Common.{
  ℕ, zero, suc, ◌+◌, ◌-◌, ◌^◌, Option, none, some, List, [], ◌∷◌, ltb, ◌==◌, if◌then◌else◌, length,
  no_error, einval, enobufs,
}
use libcplus.Data.{
  Data, Run, done, fault, under_lock, or_fault, null, unknown, scalar, string, byte_array,
}
use libcplus.Data.Memory.{
  Copy, copied, refused, out_of_bounds, cplus_mem_cpy, cplus_mem_cpy_ex, take, to_bytes, u32,
}
use libcplus.Data.Text.{print_into}
use libcplus.Data.Words.{Floats, size_of, print_scalar}
use libcplus.Data.GetAs.{with_text, at_most}

-- CPLUS_FAIL or a length, and the caller's block
abbrev pub Filled : Type 0
Filled = Option ℕ × List ℕ

-- `tmp_bufs` has 256 bytes; `tmp_len` is the length of the whole text.
unfoldable pub finish_string : Data → ℕ → List ℕ → List ℕ → Run Filled
finish_string d str_len out text =
    let tmp = take 255 text in
    let printed =
      or_fault (print_into out str_len tmp)
        (λ (b : List ℕ). done (some (length tmp), b) d no_error) in
    if ltb str_len (u32 (length text + 1)) then done (none, out) d enobufs else printed

-- `block[i] = '\0'`
unfoldable pub set_nul : List ℕ → ℕ → Option (List ℕ)
set_nul [] i = none
set_nul (b ∷ bs) zero = some (0 ∷ bs)
set_nul (b ∷ bs) (suc i) = elim (set_nul bs i) [ none ↦ none | some cs ↦ some (b ∷ cs) ]

-- The NUL goes to the index `len - 1` of a `uint32_t`.
unfoldable pub terminated : Data → ℕ → List ℕ → Run Filled
unfolding set_nul
terminated d len out =
    or_fault (set_nul out (u32 (len + (2 ^ 32 - 1))))
      (λ (b : List ℕ). done (some len, b) d no_error)

-- The result of the copy is not looked at.
unfoldable pub copied_string : Data → ℕ → List ℕ → Copy → Run Filled
unfolding terminated
copied_string d len out (copied b) = terminated d len b
copied_string d len out refused = terminated d len out
copied_string d len out out_of_bounds = fault

unfoldable pub string_of_bytes : Data → ℕ → List ℕ → ℕ → Option (List ℕ) → Run Filled
unfolding copied_string
string_of_bytes d str_len out len bufs =
    if ltb str_len (u32 (len + 1))
    then done (none, out) d enobufs
    else copied_string d len out (cplus_mem_cpy_ex (some out) str_len bufs len)

module _ (floats : Floats) where
  -- The caller's block is not NULL.
  unfoldable pub cplus_data_get_as_string : Data → ℕ → List ℕ → Run Filled
  unfolding finish_string string_of_bytes
  cplus_data_get_as_string d str_len out =
      let read : Run Filled = elim d.value [
        | null ↦ done (none, out) d einval
        | unknown ↦ done (none, out) d einval
        | scalar s w ↦ under_lock d (finish_string d str_len out (print_scalar floats s w))
        | string len bufs ↦ under_lock d (with_text bufs (finish_string d str_len out))
        | byte_array len bufs ↦ under_lock d (string_of_bytes d str_len out len bufs)
      ] in
      if str_len == 0 then done (none, out) d einval else read

-- The result of the copy is not looked at.
unfoldable pub copied_bytes : Data → ℕ → List ℕ → Copy → Run Filled
copied_bytes d len out (copied b) = done (some len, b) d no_error
copied_bytes d len out refused = done (some len, out) d einval
copied_bytes d len out out_of_bounds = fault

-- The caller's block is not NULL.
unfoldable pub cplus_data_get_as_byte_array : Data → ℕ → List ℕ → Run Filled
unfolding copied_bytes
cplus_data_get_as_byte_array d array_len out =
    let read : Run Filled = elim d.value [
      | null ↦ done (none, out) d einval
      | unknown ↦ done (none, out) d einval
      | scalar s w ↦
          let len = at_most array_len (size_of s) in
          under_lock d
            (copied_bytes d len out (cplus_mem_cpy (some out) (some (to_bytes (size_of s) w)) len))
      | string n bufs ↦
          let len = at_most array_len n in
          under_lock d (copied_bytes d len out (cplus_mem_cpy (some out) bufs len))
      | byte_array n bufs ↦
          let len = at_most array_len n in
          under_lock d (copied_bytes d len out (cplus_mem_cpy (some out) bufs len))
    ] in
    if array_len == 0 then done (none, out) d einval else read
