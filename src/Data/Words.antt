-- ===== src/Data/Words.antt =====
-- The words of the scalar types: sizes, which of them an access locks, C's conversions between them,
-- and how they print and scan. Floating-point arithmetic and the formats `%f`, `%lf` and `%p` are the
-- compiler's and the C library's: the parameter Floats.
use libcplus.Common.{
  ℕ, ◌+◌, ◌-◌, ◌*◌, ◌%◌, ◌^◌, Bool, true, false, ◌&&◌, ◌||◌, Option, none, some, List, leb, ◌==◌,
  if◌then◌else◌,
}
use libcplus.Data.{
  Scalar, bool, int8, int16, int32, int64, uint8, uint16, uint32, uint64, float, double, pointer,
}
use libcplus.Data.Text.{
  signed_decimal, scan_integer, to_long, to_unsigned_long, true_word, false_word,
}

-- `sizeof`
abbrev pub size_of : Scalar → ℕ
size_of bool = 1
size_of int8 = 1
size_of int16 = 2
size_of int32 = 4
size_of int64 = 8
size_of uint8 = 1
size_of uint16 = 2
size_of uint32 = 4
size_of uint64 = 8
size_of float = 4
size_of double = 8
size_of pointer = 8

-- the number of its bit patterns
abbrev pub modulus : Scalar → ℕ
modulus bool = 2 ^ 8
modulus int8 = 2 ^ 8
modulus int16 = 2 ^ 16
modulus int32 = 2 ^ 32
modulus int64 = 2 ^ 64
modulus uint8 = 2 ^ 8
modulus uint16 = 2 ^ 16
modulus uint32 = 2 ^ 32
modulus uint64 = 2 ^ 64
modulus float = 2 ^ 32
modulus double = 2 ^ 64
modulus pointer = 2 ^ 64

abbrev pub is_signed : Scalar → Bool
is_signed int8 = true
is_signed int16 = true
is_signed int32 = true
is_signed int64 = true
is_signed pointer = true
is_signed s = false

abbrev pub is_float : Scalar → Bool
is_float float = true
is_float double = true
is_float s = false

abbrev pub is_bool : Scalar → Bool
is_bool bool = true
is_bool s = false

-- The types whose accesses take the spin lock; the others are read and written atomically.
abbrev pub is_spin : Scalar → Bool
is_spin int64 = true
is_spin uint64 = true
is_spin float = true
is_spin double = true
is_spin s = false

pub record Floats : Type 0 where
  -- a conversion between two types one of which is floating
  pub cast : Scalar → Scalar → ℕ → ℕ
  -- `0 == f`
  pub is_zero : Scalar → ℕ → Bool
  -- `%f`, `%lf` and `%p`
  pub print : Scalar → ℕ → List ℕ
  pub scan : Scalar → List ℕ → Option ℕ

-- below zero, as a two's complement pattern
abbrev pub is_negative : Scalar → ℕ → Bool
is_negative s w = is_signed s && leb (modulus s) (2 * w)

-- the pattern of the same number at 64 bits
abbrev pub widen : Scalar → ℕ → ℕ
widen s w = if is_negative s w then w + 2 ^ 64 - modulus s else w

-- a conversion between integers
abbrev pub resize : Scalar → Scalar → ℕ → ℕ
resize s t w = widen s w % modulus t

abbrev pub same_float : Scalar → Scalar → Bool
same_float float float = true
same_float double double = true
same_float s t = false

module _ (floats : Floats) where
  -- `0 != value`; a `bool` is copied
  unfoldable pub to_bool : Scalar → ℕ → ℕ
  to_bool s w =
      if is_bool s
      then w
      else if is_float s
      then (if floats.is_zero s w then 0 else 1)
      else (if w == 0 then 0 else 1)

  -- the conversion between types other than `bool`
  unfoldable pub convert : Scalar → Scalar → ℕ → ℕ
  convert s t w =
      if is_float s || is_float t
      then (if same_float s t then w else floats.cast s t w)
      else resize s t w

  -- how the code converts a word of one type to another
  unfoldable pub cast : Scalar → Scalar → ℕ → ℕ
  unfolding to_bool convert
  cast s bool w = to_bool s w
  cast s t w = convert s t w

  -- the texts of `cplus_data_get_as_string` and of the setters
  unfoldable pub print_scalar : Scalar → ℕ → List ℕ
  print_scalar bool w = if w == 0 then false_word else true_word
  print_scalar float w = floats.print float w
  print_scalar double w = floats.print double w
  print_scalar pointer w = floats.print pointer w
  print_scalar s w = signed_decimal (is_negative s w) (if is_negative s w then modulus s - w else w)

-- `sscanf` scans into an `int32_t`, an `int64_t`, a `uint32_t` or a `uint64_t`.
abbrev pub scan_type : Scalar → Scalar
scan_type int8 = int32
scan_type int16 = int32
scan_type int32 = int32
scan_type int64 = int64
scan_type uint8 = uint32
scan_type uint16 = uint32
scan_type uint32 = uint32
scan_type s = uint64

-- the scanned word, then the cast to the type that is asked for
unfoldable pub scanned_word : Scalar → Option (Bool × ℕ) → Option ℕ
scanned_word t none = none
scanned_word t (some (negative, n)) = some (
    (if is_signed t then to_long negative n else to_unsigned_long negative n)
    % modulus (scan_type t)
    % modulus t)

unfoldable pub scan_scalar : Scalar → List ℕ → Option ℕ
unfolding scanned_word
scan_scalar t text = scanned_word t (scan_integer text)
