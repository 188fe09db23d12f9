-- ===== src/Data/RoundTrip.antt =====
-- `cplus_data_set_as_int8` to `cplus_data_set_as_uint64` of src/data.c against the readers of the same
-- type.
use libcplus.Common.{
  ℕ, ◌+◌, ◌*◌, ◌≤◌, ◌<◌, ◌≡◌, refl, sym, ◌∙◌, ap, arith, true, false, Option, none, some, List, [],
  ◌∷◌, ◌++◌, ltb, ◌==◌, length, inl, inr, Bool-cases, success, no_error,
}
use libcplus.Data.{
  Scalar, Value, Data, done, with_value, validate, null, unknown, scalar, string, byte_array,
}
use libcplus.Data.Memory.{
  Malloc, copied, rsize_max_mem, take, overwrite, cplus_mem_cpy, cplus_mem_cpy_ex, to_bytes, u32,
}
use libcplus.Data.Text.{cstr}
use libcplus.Data.Words.{Floats, size_of, modulus, is_spin, cast, print_scalar}
use libcplus.Data.Access.{
  grow, grown, write_text, store_bytes, fill_bytes, cplus_data_set_value, cplus_data_set_byte_array,
}
use libcplus.Data.GetAs.{scanned, copied_word, at_most, get_as_integer}
use libcplus.Data.SetAs.{then_valid, print_grown, print_text, locks_bool, set_as_integer}
use libcplus.Data.Blocks.{
  take_all, length-overwrite, take-overwrite, overwrite_all, copy_bytes_fit, cplus_mem_cpy_ex_fit,
  cstr-overwrite, print_into_fits,
}
use libcplus.Data.Print.{
  IsInteger, scan_scalar-print_scalar, print_scalar-NoNul, length-print_scalar,
}
use libcplus.Data.WellFormed.{Covers, size-le-grown, grown-le, lock_if}
use libcplus.Data.Resize.{
  cast_back, size_of-bounds, length-to_bytes, of_bytes-to_bytes, modulus-size_of,
}

-- an allocator that has memory
abbrev pub Allocates : Malloc → Type 0
Allocates malloc = (n : ℕ) → (b : List ℕ) × (malloc n ≡ some b) × (length b ≡ n)

-- Whether an object's type can hold every number of an integer type. An array is below the limit of
-- `cplus_mem_cpy_ex`.
abbrev pub CanHold : Scalar → Value → Type 0
CanHold t null = ⊥
CanHold t unknown = ⊥
CanHold t (scalar s w) = IsInteger s × ((k : ℕ) × (modulus s ≡ modulus t * k))
CanHold t (string len bufs) = Covers len bufs
CanHold t (byte_array len bufs) = Covers len bufs × (len ≤ rsize_max_mem)

-- the block behind `grow`, when there is memory
pub grow_block :
    (malloc : Malloc) (bufs : Option (List ℕ)) (len size : ℕ)
    → Allocates malloc
    → Covers len bufs
    → (b : List ℕ) × (grow malloc bufs len size ≡ some b) × (grown bufs len size ≤ length b)
grow_block malloc none len size room c = let (b, e, l) = room size in (b, e, omega arith)
grow_block malloc (some old) len size room c = elim (Bool-cases (ltb len size)) [
  | inl e ↦
      let (b, h, l) = room size in
      rw (e, h)
        (overwrite (take size old) b, refl, omega (arith, length-overwrite (take size old) b))
  | inr e ↦ rw e (old, refl, c)
]

at_most_self : (n : ℕ) → at_most n n ≡ n
at_most_self n = ground arith

module _ (floats : Floats) (malloc : Malloc) (room : Allocates malloc) where
  -- what is proved of each type of object
  abbrev pub ReadsBack : Scalar → ℕ → Data → ℕ → Type 0
  ReadsBack t w d old =
      (d' : Data) × (set_as_integer floats malloc t d w ≡ done success d' no_error)
      × (get_as_integer floats t d' old ≡ done (success, w) d' no_error)

  module _ (t : Scalar) (it : IsInteger t) (w : ℕ) (small : w < modulus t) (old : ℕ) where
    string_back :
        (d : Data) (len : ℕ) (bufs : Option (List ℕ))
        → d.spinlock ≡ false
        → Covers len bufs
        → ReadsBack t w (with_value d (string len bufs)) old
    unfolding set_as_integer get_as_integer print_text print_grown write_text scanned
    string_back d len bufs free c =
        let text = print_scalar floats t w in
        let size : u32 (length text + 1) ≡ length text + 1 =
          omega (arith, length-print_scalar floats it w) in
        let (b, got, covers) = grow_block malloc bufs len (length text + 1) room c in
        let len' = grown bufs len (length text + 1) in
        let short : length text < len' = omega (arith, size-le-grown bufs len (length text + 1)) in
        let written = overwrite (text ++ 0 ∷ []) b in
        let ends : cstr written ≡ some text =
          cstr-overwrite text b (print_scalar-NoNul floats it w) (omega arith) in
        (
          validate (with_value d (string len' (some written))),
          rw (free, size, got, print_into_fits b text len' short covers) refl,
          rw (free, ends, scan_scalar-print_scalar floats it w small) refl,
        )

    scalar_back :
        (d : Data) (s : Scalar) (v : ℕ)
        → d.spinlock ≡ false
        → CanHold t (scalar s v)
        → ReadsBack t w (with_value d (scalar s v)) old
    unfolding set_as_integer get_as_integer
    scalar_back d s v free (is, (k, wider)) =
        let o = validate (with_value d (scalar s (cast floats t s w))) in
        (
          o,
          lock_if (locks_bool s) (with_value d (scalar s v)) (done success o no_error) free,
          lock_if (is_spin s) o (done (success, cast floats s t (cast floats t s w)) o no_error)
                free
              ∙ ap (λ (x : ℕ). done (success, x) o no_error)
                  (cast_back floats is it k w wider small),
        )

    -- the first bytes of the block are the bytes of the word
    bytes_written :
        (b : List ℕ) (n : ℕ)
        → size_of t ≤ n
        → n ≤ length b
        → n ≤ rsize_max_mem
        → cplus_mem_cpy_ex (some b) n (some (to_bytes (size_of t) w)) (size_of t)
          ≡ copied (overwrite (to_bytes (size_of t) w) b)
    bytes_written b n fits covers limit =
        let bytes = to_bytes (size_of t) w in
        let all : take (size_of t) bytes ≡ bytes =
          take_all (size_of t) bytes (omega (arith, length-to_bytes (size_of t) w)) in
        cplus_mem_cpy_ex_fit b bytes n (size_of t) (size_of-bounds it).0 fits limit
          (omega (arith, length-to_bytes (size_of t) w)) covers
        ∙ ap (λ (x : List ℕ). copied (overwrite x b)) all

    -- and are read as the word
    bytes_read :
        (b : List ℕ)
        → size_of t ≤ length b
        → cplus_mem_cpy
            (some (to_bytes (size_of t) old))
            (some (overwrite (to_bytes (size_of t) w) b))
            (size_of t)
          ≡ copied (to_bytes (size_of t) w)
    unfolding cplus_mem_cpy
    bytes_read b fits =
        let bytes = to_bytes (size_of t) w in
        let written = overwrite bytes b in
        let front : take (size_of t) written ≡ bytes =
          ap (λ (n : ℕ). take n written) (sym (length-to_bytes (size_of t) w))
          ∙ take-overwrite bytes b (omega (arith, length-to_bytes (size_of t) w)) in
        let some_bytes : (size_of t == 0) ≡ false = ground (arith, (size_of-bounds it).0) in
        rw some_bytes (
          copy_bytes_fit (to_bytes (size_of t) old) written (size_of t)
            (omega (arith, length-overwrite bytes b))
            (omega (arith, length-to_bytes (size_of t) old))
          ∙ ap copied (
              ap (λ (x : List ℕ). overwrite x (to_bytes (size_of t) old)) front
              ∙ overwrite_all bytes (to_bytes (size_of t) old)
                  (length-to_bytes (size_of t) w ∙ sym (length-to_bytes (size_of t) old))))

    array_back :
        (d : Data) (len : ℕ) (bufs : Option (List ℕ))
        → d.spinlock ≡ false
        → CanHold t (byte_array len bufs)
        → ReadsBack t w (with_value d (byte_array len bufs)) old
    unfolding set_as_integer get_as_integer then_valid cplus_data_set_byte_array
        cplus_data_set_value fill_bytes store_bytes copied_word
    array_back d len bufs free (c, limit) =
        let size = size_of t in
        let (b, got, covers) = grow_block malloc bufs len size room c in
        let n = grown bufs len size in
        let bytes = to_bytes size w in
        let written = overwrite bytes b in
        let within : n ≤ rsize_max_mem =
          grown-le bufs len size rsize_max_mem limit (omega (arith, (size_of-bounds it).1)) in
        let holds : size ≤ n = size-le-grown bufs len size in
        let o = validate (record d { bufs_size = n; value = byte_array size (some written) }) in
        (
          o,
          rw (free, got, bytes_written b n holds covers within) refl,
          lock_if true o _ free
              ∙ rw (at_most_self size, bytes_read b (omega arith))
                  (ap (λ (x : ℕ). done (success, x) o no_error)
                    (of_bytes-to_bytes size w (omega (arith, small, modulus-size_of it)))),
        )

  -- A number that an object of a type of at least its width takes, as an integer, text or bytes, is read
  -- back from it by the reader of the number's type: both calls succeed, when the allocator has memory,
  -- the object is not locked and its length not more than its block has, and an array's length is at most
  -- RSIZE_MAX_MEM.
  pub get_as_integer-set_as_integer :
      (t : Scalar) (w : ℕ) (d : Data) (old : ℕ)
      → IsInteger t
      → w < modulus t
      → d.spinlock ≡ false
      → CanHold t d.value
      → ReadsBack t w d old
  get_as_integer-set_as_integer t w d old it small free can = reads d.value can
    where
      reads : (v : Value) → CanHold t v → ReadsBack t w (with_value d v) old
      reads null can = absurd can
      reads unknown can = absurd can
      reads (scalar s v) can = scalar_back t it w small old d s v free can
      reads (string len bufs) can = string_back t it w small old d len bufs free can
      reads (byte_array len bufs) can = array_back t it w small old d len bufs free can
