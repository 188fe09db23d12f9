-- ===== src/Data/Bits.antt =====
-- Masks and disjoint fields of words as arithmetic.
use Prim.Native.Nat.{min, max, digits, bit_and, bit_or, bit_and-bitwise, bit_or-bitwise}
use native.Mathlib.Nat.{pow-suc, div-div-eq-div-mul}
use libcplus.Common.{ℕ, zero, suc, ◌+◌, ◌*◌, ◌/◌, ◌%◌, ◌^◌, ◌≤◌, ◌<◌, ◌≡◌, refl, ◌∙◌, ap, arith}

module _ (z : ℕ → ℕ) (f : ℕ → ℕ → ℕ) where
  -- Any fuel that covers the first number gives the same.
  same_digits : (k l a b : ℕ) → a ≤ k → a ≤ l → digits z f k a b ≡ digits z f l a b
  same_digits zero zero a b u v = refl
  same_digits (suc k) zero zero b u v = refl
  same_digits (suc k) zero (suc a) b u v = absurd (omega arith)
  same_digits zero (suc l) zero b u v = refl
  same_digits zero (suc l) (suc a) b u v = absurd (omega arith)
  same_digits (suc k) (suc l) zero b u v = refl
  same_digits (suc k) (suc l) (suc a) b u v =
      ap (λ (rest : ℕ). rest * 2 + f (suc a % 2) (b % 2))
        (same_digits k l (suc a / 2) (b / 2) (omega arith) (omega arith))

bit_and-zero_left : (b : ℕ) → bit_and 0 b ≡ 0
bit_and-zero_left b = bit_and-bitwise 0 b

and_low : (a b : ℕ) → bit_and a b ≡ bit_and (a / 2) (b / 2) * 2 + min (a % 2) (b % 2)
and_low zero b = omega (arith, bit_and-zero_left b, bit_and-zero_left (b / 2))
and_low (suc a) b = omega (
  arith,
  bit_and-bitwise (suc a) b,
  bit_and-bitwise (suc a / 2) (b / 2),
  same_digits (λ y. 0) min a (suc a / 2) (suc a / 2) (b / 2) (omega arith) (omega arith),
)

bit_or-zero_left : (b : ℕ) → bit_or 0 b ≡ b
bit_or-zero_left b = bit_or-bitwise 0 b

or_low : (a b : ℕ) → bit_or a b ≡ bit_or (a / 2) (b / 2) * 2 + max (a % 2) (b % 2)
or_low zero b = omega (arith, bit_or-zero_left b, bit_or-zero_left (b / 2))
or_low (suc a) b = omega (
  arith,
  bit_or-bitwise (suc a) b,
  bit_or-bitwise (suc a / 2) (b / 2),
  same_digits (λ y. y) max a (suc a / 2) (suc a / 2) (b / 2) (omega arith) (omega arith),
)

bit_or-zero : (n a : ℕ) → a ≤ n → bit_or a 0 ≡ a
bit_or-zero n zero h = refl
bit_or-zero zero (suc a) h = absurd (omega arith)
bit_or-zero (suc n) (suc a) h =
    omega (arith, or_low (suc a) 0, bit_or-zero n (suc a / 2) (omega arith))

double_pow : (q k : ℕ) → q * 2 ^ suc k ≡ 2 * (q * 2 ^ k)
double_pow q k = omega (arith, ap (λ (t : ℕ). q * t) (pow-suc 2 k))

-- A field above the low `k` digits and a number of `k` digits add up.
pub bit_or-field : (k q r : ℕ) → r < 2 ^ k → bit_or (q * 2 ^ k) r ≡ q * 2 ^ k + r
bit_or-field zero q r h = ground (arith, bit_or-zero q q (omega arith))
bit_or-field (suc k) q r h =
    ground (arith, or_low (q * 2 ^ suc k) r, double_pow q k, bit_or-field k q (r / 2) (omega arith))

half_pow : (a k : ℕ) → a / 2 / 2 ^ k ≡ a / 2 ^ suc k
half_pow a k = div-div-eq-div-mul a 2 (2 ^ k) ∙ ap (λ (t : ℕ). a / t) (omega (arith, pow-suc 2 k))

-- A mask that is shifted picks a field.
pub bit_and-shifted : (k a m : ℕ) → bit_and a (m * 2 ^ k) ≡ bit_and (a / 2 ^ k) m * 2 ^ k
bit_and-shifted zero a m = ground arith
bit_and-shifted (suc k) a m = ground (
  arith,
  and_low a (m * 2 ^ suc k),
  double_pow m k,
  double_pow (bit_and (a / 2 ^ suc k) m) k,
  half_pow a k,
  bit_and-shifted k (a / 2) m,
)

bit_and-zero : (n a : ℕ) → a ≤ n → bit_and a 0 ≡ 0
bit_and-zero n zero h = refl
bit_and-zero zero (suc a) h = absurd (omega arith)
bit_and-zero (suc n) (suc a) h =
    omega (arith, and_low (suc a) 0, bit_and-zero n (suc a / 2) (omega arith))

low_nibble : (a : ℕ) → bit_and a 15 ≡ a % 16
low_nibble a = omega (
  arith,
  and_low a 15,
  and_low (a / 2) 7,
  and_low (a / 2 / 2) 3,
  and_low (a / 2 / 2 / 2) 1,
  bit_and-zero (a / 2 / 2 / 2 / 2) (a / 2 / 2 / 2 / 2) (omega arith),
)

-- the lowest byte
pub bit_and-byte : (a : ℕ) → bit_and a 255 ≡ a % 256
bit_and-byte a = omega (
  arith,
  and_low a 255,
  and_low (a / 2) 127,
  and_low (a / 2 / 2) 63,
  and_low (a / 2 / 2 / 2) 31,
  low_nibble (a / 2 / 2 / 2 / 2),
)

-- the byte at digit `k`, in place
pub byte_field : (k a : ℕ) → bit_and a (255 * 2 ^ k) ≡ a / 2 ^ k % 256 * 2 ^ k
byte_field k a = bit_and-shifted k a 255 ∙ ap (λ (t : ℕ). t * 2 ^ k) (bit_and-byte (a / 2 ^ k))
