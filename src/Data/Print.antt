-- ===== src/Data/Print.antt =====
-- The eight integer types of src/data.c: printed and scanned again.
use libcplus.Common.{
  ℕ, ◌-◌, ◌%◌, ◌^◌, ◌≤◌, ◌<◌, ◌≡◌, refl, ◌∙◌, ap, arith, Bool, Option, some, List, if◌then◌else◌,
  length,
}
use libcplus.Data.{Scalar, int8, int16, int32, int64, uint8, uint16, uint32, uint64}
use libcplus.Data.Text.{signed_decimal, to_long, to_unsigned_long}
use libcplus.Data.Words.{
  Floats, modulus, is_signed, is_negative, print_scalar, scan_type, scanned_word, scan_scalar,
}
use libcplus.Data.Decimal.{NoNul, scan-signed_decimal, signed_decimal-NoNul, length-signed_decimal}

pub data IsInteger : Scalar → Type 0 where
  signed8 : IsInteger int8
  signed16 : IsInteger int16
  signed32 : IsInteger int32
  signed64 : IsInteger int64
  unsigned8 : IsInteger uint8
  unsigned16 : IsInteger uint16
  unsigned32 : IsInteger uint32
  unsigned64 : IsInteger uint64

-- the magnitude that is printed
abbrev magnitude : Scalar → ℕ → ℕ
magnitude t w = if is_negative t w then modulus t - w else w

module _ (floats : Floats) where
  print_integer :
      {t : Scalar}
      → IsInteger t
      → (w : ℕ) → print_scalar floats t w ≡ signed_decimal (is_negative t w) (magnitude t w)
  unfolding print_scalar
  print_integer signed8 w = refl
  print_integer signed16 w = refl
  print_integer signed32 w = refl
  print_integer signed64 w = refl
  print_integer unsigned8 w = refl
  print_integer unsigned16 w = refl
  print_integer unsigned32 w = refl
  print_integer unsigned64 w = refl

  magnitude-lt : {t : Scalar} → IsInteger t → (w : ℕ) → w < modulus t → magnitude t w < 10 ^ 20
  magnitude-lt signed8 w h = ground arith
  magnitude-lt signed16 w h = ground arith
  magnitude-lt signed32 w h = ground arith
  magnitude-lt signed64 w h = ground arith
  magnitude-lt unsigned8 w h = ground arith
  magnitude-lt unsigned16 w h = ground arith
  magnitude-lt unsigned32 w h = ground arith
  magnitude-lt unsigned64 w h = ground arith

  reread :
      {t : Scalar}
      → IsInteger t
      → (w : ℕ) → w < modulus t
      → (if is_signed t
            then to_long (is_negative t w) (magnitude t w)
            else to_unsigned_long (is_negative t w) (magnitude t w))
          % modulus (scan_type t)
          % modulus t
        ≡ w
  reread signed8 w h = ground arith
  reread signed16 w h = ground arith
  reread signed32 w h = ground arith
  reread signed64 w h = ground arith
  reread unsigned8 w h = ground arith
  reread unsigned16 w h = ground arith
  reread unsigned32 w h = ground arith
  reread unsigned64 w h = ground arith

  -- A printed integer is scanned as the same word.
  pub scan_scalar-print_scalar :
      {t : Scalar}
      → IsInteger t
      → (w : ℕ) → w < modulus t
      → scan_scalar t (print_scalar floats t w) ≡ some w
  unfolding scan_scalar scanned_word
  scan_scalar-print_scalar {t} is w h =
      ap (λ (s : List ℕ). scan_scalar t s) (print_integer is w)
      ∙ ap (λ (r : Option (Bool × ℕ)). scanned_word t r)
          (scan-signed_decimal (is_negative t w) (magnitude t w) (magnitude-lt is w h))
      ∙ ap some (reread is w h)

  pub print_scalar-NoNul : {t : Scalar} → IsInteger t → (w : ℕ) → NoNul (print_scalar floats t w)
  print_scalar-NoNul {t} is w =
      rw (print_integer is w) (signed_decimal-NoNul (is_negative t w) (magnitude t w))

  pub length-print_scalar :
      {t : Scalar} → IsInteger t → (w : ℕ) → length (print_scalar floats t w) ≤ 21
  length-print_scalar {t} is w =
      rw (print_integer is w) (length-signed_decimal (is_negative t w) (magnitude t w))
