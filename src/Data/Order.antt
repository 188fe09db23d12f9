-- ===== src/Data/Order.antt =====
-- What the byte order functions of src/data.c do to the bytes of a word.
use Prim.Native.Nat.{bit_and, bit_or}
use native.Mathlib.Nat.{mul_assoc, mul-lt-mul_of_pos_right, one-le-pow, add-mul}
use libcplus.Common.{
  ℕ, ◌+◌, ◌*◌, ◌/◌, ◌%◌, ◌^◌, ◌<◌, ◌≡◌, refl, sym, ◌∙◌, ap, arith, List, [], ◌∷◌, ◌++◌,
}
use libcplus.Data.Memory.{to_bytes, of_bytes}
use libcplus.Data.Bits.{bit_or-field, byte_field}
use libcplus.Data.Swap.{
  cplus_data_swap16, cplus_data_swap32, cplus_data_swap64, cplus_data_reverse16,
  cplus_data_reverse32, cplus_data_reverse64,
}

abbrev pub backwards : List ℕ → List ℕ
backwards [] = []
backwards (b ∷ bs) = backwards bs ++ b ∷ []

-- the number whose bytes are those of a word, in the opposite order
abbrev pub reversed : ℕ → ℕ → ℕ
reversed n v = of_bytes (backwards (to_bytes n v))

-- a byte below a field of bytes
next_byte :
    (j k q b : ℕ)
    → 2 ^ j ≡ 256 * 2 ^ k
    → b < 256
    → bit_or (q * 2 ^ j) (b * 2 ^ k) ≡ (q * 256 + b) * 2 ^ k
next_byte j k q b split h =
    let below : b * 2 ^ k < 256 * 2 ^ k =
      mul-lt-mul_of_pos_right {m = b} {n = 256} {k = 2 ^ k} h (one-le-pow k 2 (omega arith)) in
    let high : q * 2 ^ j ≡ q * 256 * 2 ^ k =
      ap (λ (t : ℕ). q * t) split ∙ sym (mul_assoc q 256 (2 ^ k)) in
    let low : (q * 256 + b) * 2 ^ k ≡ q * 256 * 2 ^ k + b * 2 ^ k = add-mul (q * 256) b (2 ^ k) in
    bit_or-field j q (b * 2 ^ k) (omega (arith, split, below)) ∙ omega (arith, high, low)

pub swap16_bytes : (v : ℕ) → v < 2 ^ 16 → cplus_data_swap16 v ≡ reversed 2 v
unfolding cplus_data_swap16
swap16_bytes v h =
    let top : v * 2 ^ 8 % 2 ^ 32 ≡ v * 2 ^ 8 = omega arith in
    rw (top, bit_or-field 8 v (v / 2 ^ 8) (omega arith)) (omega arith)

pub swap32_bytes : (v : ℕ) → v < 2 ^ 32 → cplus_data_swap32 v ≡ reversed 4 v
unfolding cplus_data_swap32
swap32_bytes v h =
    let b0 = v % 256 in
    let b1 = v / 2 ^ 8 % 256 in
    let b2 = v / 2 ^ 16 % 256 in
    let top : v * 2 ^ 24 % 2 ^ 32 ≡ b0 * 2 ^ 24 = omega arith in
    let second : bit_and (v * 2 ^ 8 % 2 ^ 32) 0x00ff_0000 ≡ b1 * 2 ^ 16 =
      byte_field 16 (v * 2 ^ 8 % 2 ^ 32) ∙ omega arith in
    let third : bit_and (v / 2 ^ 8) 0x0000_ff00 ≡ b2 * 2 ^ 8 =
      byte_field 8 (v / 2 ^ 8) ∙ omega arith in
    let or1 = next_byte 24 16 b0 b1 refl (omega arith) in
    let or2 = next_byte 16 8 (b0 * 256 + b1) b2 refl (omega arith) in
    let or3 = bit_or-field 8 ((b0 * 256 + b1) * 256 + b2) (v / 2 ^ 24) (omega arith) in
    rw (top, second, third, or1, or2, or3) (omega arith)

pub swap64_bytes : (v : ℕ) → v < 2 ^ 64 → cplus_data_swap64 v ≡ reversed 8 v
unfolding cplus_data_swap64
swap64_bytes v h =
    let b0 = v % 256 in
    let b1 = v / 2 ^ 8 % 256 in
    let b2 = v / 2 ^ 16 % 256 in
    let b3 = v / 2 ^ 24 % 256 in
    let b4 = v / 2 ^ 32 % 256 in
    let b5 = v / 2 ^ 40 % 256 in
    let b6 = v / 2 ^ 48 % 256 in
    let top : v * 2 ^ 56 % 2 ^ 64 ≡ b0 * 2 ^ 56 = omega arith in
    let f1 : bit_and (v * 2 ^ 40 % 2 ^ 64) 0x00ff_0000_0000_0000 ≡ b1 * 2 ^ 48 =
      byte_field 48 (v * 2 ^ 40 % 2 ^ 64) ∙ omega arith in
    let f2 : bit_and (v * 2 ^ 24 % 2 ^ 64) 0x0000_ff00_0000_0000 ≡ b2 * 2 ^ 40 =
      byte_field 40 (v * 2 ^ 24 % 2 ^ 64) ∙ omega arith in
    let f3 : bit_and (v * 2 ^ 8 % 2 ^ 64) 0x0000_00ff_0000_0000 ≡ b3 * 2 ^ 32 =
      byte_field 32 (v * 2 ^ 8 % 2 ^ 64) ∙ omega arith in
    let f4 : bit_and (v / 2 ^ 8) 0xff00_0000 ≡ b4 * 2 ^ 24 =
      byte_field 24 (v / 2 ^ 8) ∙ omega arith in
    let f5 : bit_and (v / 2 ^ 24) 0x00ff_0000 ≡ b5 * 2 ^ 16 =
      byte_field 16 (v / 2 ^ 24) ∙ omega arith in
    let f6 : bit_and (v / 2 ^ 40) 0xff00 ≡ b6 * 2 ^ 8 = byte_field 8 (v / 2 ^ 40) ∙ omega arith in
    let q1 = b0 * 256 + b1 in
    let q2 = q1 * 256 + b2 in
    let q3 = q2 * 256 + b3 in
    let q4 = q3 * 256 + b4 in
    let q5 = q4 * 256 + b5 in
    let or1 = next_byte 56 48 b0 b1 refl (omega arith) in
    let or2 = next_byte 48 40 q1 b2 refl (omega arith) in
    let or3 = next_byte 40 32 q2 b3 refl (omega arith) in
    let or4 = next_byte 32 24 q3 b4 refl (omega arith) in
    let or5 = next_byte 24 16 q4 b5 refl (omega arith) in
    let or6 = next_byte 16 8 q5 b6 refl (omega arith) in
    let or7 = bit_or-field 8 (q5 * 256 + b6) (v / 2 ^ 56) (omega arith) in
    rw (top, f1, f2, f3, f4, f5, f6, or1, or2, or3, or4, or5, or6, or7) (omega arith)

-- A word of the width is turned into the word with its bytes in the opposite order.
pub cplus_data_swap-reversed :
    (a b c : ℕ)
    → a < 2 ^ 16
    → b < 2 ^ 32
    → c < 2 ^ 64
    → (cplus_data_swap16 a ≡ reversed 2 a)
      × (cplus_data_swap32 b ≡ reversed 4 b)
      × (cplus_data_swap64 c ≡ reversed 8 c)
cplus_data_swap-reversed a b c ha hb hc = (swap16_bytes a ha, swap32_bytes b hb, swap64_bytes c hc)

reverse16-swap16 : (v : ℕ) → cplus_data_reverse16 v ≡ cplus_data_swap16 v
unfolding cplus_data_reverse16 cplus_data_swap16
reverse16-swap16 v = refl

reverse32-swap32 : (v : ℕ) → cplus_data_reverse32 v ≡ cplus_data_swap32 v
unfolding cplus_data_reverse32 cplus_data_swap32
reverse32-swap32 v = refl

reverse64-swap64 : (v : ℕ) → cplus_data_reverse64 v ≡ cplus_data_swap64 v
unfolding cplus_data_reverse64 cplus_data_swap64
reverse64-swap64 v = refl

-- Reversing the bytes of a word of the width twice, once by the swap and once in place, gives the word
-- back.
pub cplus_data_reverse-cplus_data_swap :
    (a b c : ℕ)
    → a < 2 ^ 16
    → b < 2 ^ 32
    → c < 2 ^ 64
    → (cplus_data_reverse16 (cplus_data_swap16 a) ≡ a)
      × (cplus_data_reverse32 (cplus_data_swap32 b) ≡ b)
      × (cplus_data_reverse64 (cplus_data_swap64 c) ≡ c)
cplus_data_reverse-cplus_data_swap a b c ha hb hc = (
  rw (reverse16-swap16 (cplus_data_swap16 a), swap16_bytes a ha)
      (swap16_bytes (reversed 2 a) (omega arith) ∙ omega arith),
  rw (reverse32-swap32 (cplus_data_swap32 b), swap32_bytes b hb)
      (swap32_bytes (reversed 4 b) (omega arith) ∙ omega arith),
  rw (reverse64-swap64 (cplus_data_swap64 c), swap64_bytes c hc)
      (swap64_bytes (reversed 8 c) (omega arith) ∙ omega arith),
)
