-- ===== src/Data/Texts.antt =====
-- Strings of src/data.c through `cplus_data_set_string`, `cplus_data_get_value` and
-- `cplus_data_get_as_string`.
use mathlib.Core.Path.{subst}
use libcplus.Common.{
  ℕ, zero, suc, ◌+◌, ◌-◌, ◌^◌, ◌≤◌, ◌<◌, ◌≡◌, refl, sym, ◌∙◌, arith, true, false, some, List, [],
  ◌∷◌, ◌++◌, ltb, ◌==◌, length, get_elem?, no_error, le→ltb,
}
use libcplus.Data.{Value, Data, done, with_value, string, byte_array}
use libcplus.Data.Memory.{rsize_max_mem, take, overwrite, u32}
use libcplus.Data.Text.{cstr}
use libcplus.Data.Words.{Floats}
use libcplus.Data.Dump.{
  finish_string, set_nul, terminated, copied_string, string_of_bytes, cplus_data_get_as_string,
}
use libcplus.Data.Blocks.{
  length-take_le_length, length-overwrite, cplus_mem_cpy_ex_fit, print_into_fits,
}
use libcplus.Data.WellFormed.{lock_if}

module _ (floats : Floats) where
  string_text :
      (d : Data) (len str_len : ℕ) (chars text out : List ℕ)
      → d.spinlock ≡ false
      → cstr chars ≡ some text
      → length text + 1 < 2 ^ 32
      → length text < str_len
      → str_len ≤ length out
      → cplus_data_get_as_string floats (with_value d (string len (some chars))) str_len out
        ≡ done
            (some (length (take 255 text)), overwrite (take 255 text ++ 0 ∷ []) out)
            (with_value d (string len (some chars)))
            no_error
  unfolding cplus_data_get_as_string finish_string
  string_text d len str_len chars text out free ends small enough inside =
      let o = with_value d (string len (some chars)) in
      let some_room : (str_len == 0) ≡ false = ground arith in
      let size : u32 (length text + 1) ≡ length text + 1 = omega arith in
      let plenty : ltb str_len (length text + 1) ≡ false =
        le→ltb str_len (length text + 1) (omega arith) in
      let cut : length (take 255 text) < str_len = omega (arith, length-take_le_length 255 text) in
      rw some_room (
        lock_if true o _ free
        ∙ rw (ends, size, plenty, print_into_fits out (take 255 text) str_len cut inside) refl)

  -- A string is handed out by `cplus_data_get_as_string` cut after 255 characters, however long it is
  -- and however much room the caller has; the result is the length of what is left.
  pub cplus_data_get_as_string-cut :
      (d : Data) (len str_len : ℕ) (chars text out : List ℕ)
      → d.spinlock ≡ false
      → d.value ≡ string len (some chars)
      → cstr chars ≡ some text
      → length text + 1 < 2 ^ 32
      → length text < str_len
      → str_len ≤ length out
      → cplus_data_get_as_string floats d str_len out
        ≡ done (some (length (take 255 text)), overwrite (take 255 text ++ 0 ∷ []) out) d no_error
  cplus_data_get_as_string-cut d len str_len chars text out free e ends small enough inside =
      subst
        (λ (v : Value).
          cplus_data_get_as_string floats (with_value d v) str_len out
          ≡ done (some (length (take 255 text)), overwrite (take 255 text ++ 0 ∷ []) out)
              (with_value d v) no_error)
        (sym e) (string_text d len str_len chars text out free ends small enough inside)

set_nul_block :
    (xs : List ℕ) (i : ℕ)
    → i < length xs
    → (ys : List ℕ) × (set_nul xs i ≡ some ys) × (get_elem? ys i ≡ some 0)
unfolding set_nul
set_nul_block [] i h = absurd (omega arith)
set_nul_block (x ∷ xs) zero h = (0 ∷ xs, refl, refl)
set_nul_block (x ∷ xs) (suc i) h =
    let (ys, e, at) = set_nul_block xs i (omega arith) in (x ∷ ys, rw e refl, at)

module _ (floats : Floats) where
  array_set :
      (d : Data) (len str_len : ℕ) (b out b' : List ℕ)
      → d.spinlock ≡ false
      → 0 < len
      → len ≤ length b
      → len < str_len
      → str_len ≤ length out
      → str_len ≤ rsize_max_mem
      → set_nul (overwrite (take len b) out) (len - 1) ≡ some b'
      → cplus_data_get_as_string floats (with_value d (byte_array len (some b))) str_len out
        ≡ done (some len, b') (with_value d (byte_array len (some b))) no_error
  unfolding cplus_data_get_as_string string_of_bytes copied_string terminated
  array_set d len str_len b out b' free pos covers enough inside limit set =
      let some_room : (str_len == 0) ≡ false = ground arith in
      let size : u32 (len + 1) ≡ len + 1 = omega arith in
      let plenty : ltb str_len (len + 1) ≡ false = le→ltb str_len (len + 1) (omega arith) in
      let last : u32 (len + (2 ^ 32 - 1)) ≡ len - 1 = omega arith in
      let copies = cplus_mem_cpy_ex_fit out b str_len len pos (omega arith) limit covers inside in
      rw (some_room, size, plenty)
        (lock_if true (with_value d (byte_array len (some b))) _ free ∙ rw (copies, last, set) refl)

  -- What `cplus_data_get_as_string` gives for an array ends one byte early: the last byte of the array
  -- is overwritten by the NUL, although the caller has room for both.
  pub cplus_data_get_as_string-byte_array :
      (d : Data) (len str_len : ℕ) (b out : List ℕ)
      → d.spinlock ≡ false
      → d.value ≡ byte_array len (some b)
      → 0 < len
      → len ≤ length b
      → len < str_len
      → str_len ≤ length out
      → str_len ≤ rsize_max_mem
      → (b' : List ℕ) × (cplus_data_get_as_string floats d str_len out
          ≡ done (some len, b') d no_error)
        × (get_elem? b' (len - 1) ≡ some 0)
  cplus_data_get_as_string-byte_array d len str_len b out free e pos covers enough inside limit =
      let (b', set, zero_there) =
        set_nul_block (overwrite (take len b) out) (len - 1)
          (omega (arith, length-overwrite (take len b) out)) in
      (
        b',
        subst
            (λ (v : Value).
              cplus_data_get_as_string floats (with_value d v) str_len out
              ≡ done (some len, b') (with_value d v) no_error)
            (sym e) (array_set d len str_len b out b' free pos covers enough inside limit set),
        zero_there,
      )
