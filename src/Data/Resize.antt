-- ===== src/Data/Resize.antt =====
-- C's integer conversions in src/data.c: what survives a wider type, or the bytes of a word.
use native.Mathlib.Nat.{
  pow-suc, mul_assoc, add-mul-mod_self_left, mod-mod_of_dvd, dvd-mul_right, mod-lt, mod-eq_of_lt,
  mod-add-div, one-le-pow,
}
use libcplus.Common.{
  ℕ, zero, suc, ◌+◌, ◌-◌, ◌*◌, ◌/◌, ◌%◌, ◌^◌, ◌≤◌, ◌<◌, ◌≡◌, refl, sym, ◌∙◌, ap, arith, Bool, true,
  false, if◌then◌else◌, leb, length,
}
use libcplus.Data.{Scalar}
use libcplus.Data.Memory.{to_bytes, of_bytes}
use libcplus.Data.Words.{
  Floats, size_of, modulus, is_float, is_negative, widen, resize, convert, cast,
}
use libcplus.Data.Print.{
  IsInteger, signed8, signed16, signed32, signed64, unsigned8, unsigned16, unsigned32, unsigned64,
}

-- how many words of the type a 64-bit word is made of
copies : {s : Scalar} → IsInteger s → (j : ℕ) × (2 ^ 64 ≡ modulus s + modulus s * j)
copies signed8 = (2 ^ 56 - 1, refl)
copies signed16 = (2 ^ 48 - 1, refl)
copies signed32 = (2 ^ 32 - 1, refl)
copies signed64 = (0, refl)
copies unsigned8 = (2 ^ 56 - 1, refl)
copies unsigned16 = (2 ^ 48 - 1, refl)
copies unsigned32 = (2 ^ 32 - 1, refl)
copies unsigned64 = (0, refl)

widened :
    (b : Bool) (w m j : ℕ)
    → 2 ^ 64 ≡ m + m * j
    → (c : ℕ) × ((if b then w + 2 ^ 64 - m else w) ≡ w + m * c)
widened true w m j e = (j, omega (arith, e))
widened false w m j e = (0, omega arith)

-- Widening adds a multiple of the type's modulus.
widen_multiple : {s : Scalar} → IsInteger s → (w : ℕ) → (c : ℕ) × (widen s w ≡ w + modulus s * c)
widen_multiple {s} is w = widened (is_negative s w) w (modulus s) (copies is).0 (copies is).1

-- so it does not change the remainder by a modulus that divides it
widen_mod : {s : Scalar} → IsInteger s → (m k w : ℕ) → modulus s ≡ m * k → widen s w % m ≡ w % m
widen_mod {s} is m k w e =
    let (c, h) = widen_multiple is w in
    ap (λ (x : ℕ). x % m) (h ∙ ap (λ (x : ℕ). w + x) (ap (λ (x : ℕ). x * c) e ∙ mul_assoc m k c))
    ∙ add-mul-mod_self_left w m (k * c)

-- how many words a type has, of 8, 16, 32 or 64 bits
abbrev pub range : {s : Scalar} → IsInteger s → ℕ
range signed8 = 2 ^ 8
range signed16 = 2 ^ 16
range signed32 = 2 ^ 32
range signed64 = 2 ^ 64
range unsigned8 = 2 ^ 8
range unsigned16 = 2 ^ 16
range unsigned32 = 2 ^ 32
range unsigned64 = 2 ^ 64

abbrev above : ℕ → ℕ → ℕ
above half w = if leb half w then 2 * half else 0

-- what is taken from a word to get its number: the range of a signed type, from a word with its top bit
abbrev pub debt : {s : Scalar} → IsInteger s → ℕ → ℕ
debt signed8 w = above (2 ^ 7) w
debt signed16 w = above (2 ^ 15) w
debt signed32 w = above (2 ^ 31) w
debt signed64 w = above (2 ^ 63) w
debt unsigned8 w = 0
debt unsigned16 w = 0
debt unsigned32 w = 0
debt unsigned64 w = 0

-- C's rule for converting an integer: `x` is the word of the second type whose number differs by a
-- multiple of that type's range from the one that the word `w` of the first type stands for.
abbrev pub Converts : {s t : Scalar} → IsInteger s → IsInteger t → ℕ → ℕ → Type 0
Converts is it w x = (x < range it) × (a b : ℕ) × (x + debt is w + range it * a ≡ w + range it * b)

range-modulus : {s : Scalar} (is : IsInteger s) → range is ≡ modulus s
range-modulus signed8 = refl
range-modulus signed16 = refl
range-modulus signed32 = refl
range-modulus signed64 = refl
range-modulus unsigned8 = refl
range-modulus unsigned16 = refl
range-modulus unsigned32 = refl
range-modulus unsigned64 = refl

above_half : (half w : ℕ) → above half w ≡ (if leb (2 * half) (2 * w) then 2 * half else 0)
above_half half w = ground arith

debt-is_negative :
    {s : Scalar} (is : IsInteger s) (w : ℕ) → debt is w ≡ (if is_negative s w then modulus s else 0)
debt-is_negative signed8 w = above_half (2 ^ 7) w
debt-is_negative signed16 w = above_half (2 ^ 15) w
debt-is_negative signed32 w = above_half (2 ^ 31) w
debt-is_negative signed64 w = above_half (2 ^ 63) w
debt-is_negative unsigned8 w = refl
debt-is_negative unsigned16 w = refl
debt-is_negative unsigned32 w = refl
debt-is_negative unsigned64 w = refl

widened_number :
    (neg : Bool) (w m n j : ℕ)
    → 2 ^ 64 ≡ n + n * j
    → m ≤ 2 ^ 64
    → (b : ℕ) × ((if neg then w + 2 ^ 64 - m else w) + (if neg then m else 0) ≡ w + n * b)
widened_number true w m n j e small = (j + 1, omega (arith, e))
widened_number false w m n j e small = (0, omega arith)

not_float : {s : Scalar} → IsInteger s → is_float s ≡ false
not_float signed8 = refl
not_float signed16 = refl
not_float signed32 = refl
not_float signed64 = refl
not_float unsigned8 = refl
not_float unsigned16 = refl
not_float unsigned32 = refl
not_float unsigned64 = refl

pub modulus-size_of : {t : Scalar} → IsInteger t → modulus t ≡ 256 ^ size_of t
modulus-size_of signed8 = refl
modulus-size_of signed16 = refl
modulus-size_of signed32 = refl
modulus-size_of signed64 = refl
modulus-size_of unsigned8 = refl
modulus-size_of unsigned16 = refl
modulus-size_of unsigned32 = refl
modulus-size_of unsigned64 = refl

modulus-pos : {t : Scalar} → IsInteger t → 0 < modulus t
modulus-pos {t} it = omega (arith, modulus-size_of it, one-le-pow (size_of t) 256 (omega arith))

modulus-small : {s : Scalar} → IsInteger s → modulus s ≤ 2 ^ 64
modulus-small is = omega (arith, (copies is).1)

mod_small : {a m : ℕ} → a < m → a % m ≡ a
mod_small h = mod-eq_of_lt h

module _ (floats : Floats) where
  convert-resize :
      {s t : Scalar} → IsInteger s → IsInteger t → (w : ℕ) → convert floats s t w ≡ resize s t w
  unfolding convert
  convert-resize is it w = rw (not_float is, not_float it) refl

  cast-resize :
      {s t : Scalar} → IsInteger s → IsInteger t → (w : ℕ) → cast floats s t w ≡ resize s t w
  unfolding cast
  cast-resize is signed8 w = convert-resize is signed8 w
  cast-resize is signed16 w = convert-resize is signed16 w
  cast-resize is signed32 w = convert-resize is signed32 w
  cast-resize is signed64 w = convert-resize is signed64 w
  cast-resize is unsigned8 w = convert-resize is unsigned8 w
  cast-resize is unsigned16 w = convert-resize is unsigned16 w
  cast-resize is unsigned32 w = convert-resize is unsigned32 w
  cast-resize is unsigned64 w = convert-resize is unsigned64 w

  -- A conversion between integers keeps the value modulo the narrower type.
  pub cast_mod :
      {s t : Scalar}
      → IsInteger s
      → IsInteger t
      → (m k j w : ℕ) → modulus s ≡ m * k
      → modulus t ≡ m * j
      → cast floats s t w % m ≡ w % m
  cast_mod {s} {t} is it m k j w es et =
      ap (λ (x : ℕ). x % m) (cast-resize is it w)
      ∙ ap (λ (x : ℕ). widen s w % x % m) et
      ∙ mod-mod_of_dvd _ (widen s w) (dvd-mul_right m j)
      ∙ widen_mod is m k w es

  -- A conversion between integers is C's, between any two of their types.
  pub cast-Converts :
      {s t : Scalar} (is : IsInteger s) (it : IsInteger t) (w : ℕ)
      → Converts is it w (cast floats s t w)
  cast-Converts {s} {t} is it w =
      let n =
        widened_number (is_negative s w) w (modulus s) (modulus t) (copies it).0 (copies it).1
          (modulus-small is) in
      let v = widen s w in
      let split : v % modulus t + modulus t * (v / modulus t) ≡ v = mod-add-div v (modulus t) in
      rw (cast-resize is it w, range-modulus it, debt-is_negative is w)
        (mod-lt v (modulus-pos it), v / modulus t, n.0, omega (arith, split, n.1))

  pub cast-lt : {s t : Scalar} → IsInteger s → IsInteger t → (w : ℕ) → cast floats s t w < modulus t
  cast-lt {s} {t} is it w = rw (cast-resize is it w) (mod-lt (widen s w) (modulus-pos it))

  -- A number that is converted to a type of at least its width is converted back.
  pub cast_back :
      {s t : Scalar}
      → IsInteger s
      → IsInteger t
      → (k w : ℕ) → modulus s ≡ modulus t * k
      → w < modulus t
      → cast floats s t (cast floats t s w) ≡ w
  cast_back {s} {t} is it k w e h =
      sym (mod_small (cast-lt is it (cast floats t s w)))
      ∙ cast_mod is it (modulus t) k 1 (cast floats t s w) e (omega arith)
      ∙ cast_mod it is (modulus t) 1 k w (omega arith) e
      ∙ mod_small h

pub length-to_bytes : (n w : ℕ) → length (to_bytes n w) ≡ n
length-to_bytes zero w = refl
length-to_bytes (suc n) w = ap suc (length-to_bytes n (w / 256))

-- The bytes of a word give it back.
pub of_bytes-to_bytes : (n w : ℕ) → w < 256 ^ n → of_bytes (to_bytes n w) ≡ w
of_bytes-to_bytes zero w h = omega arith
of_bytes-to_bytes (suc n) w h =
    omega (arith, of_bytes-to_bytes n (w / 256) (omega (arith, pow-suc 256 n)))

pub size_of-bounds : {t : Scalar} → IsInteger t → (0 < size_of t) × (size_of t ≤ 8)
size_of-bounds signed8 = (omega arith, omega arith)
size_of-bounds signed16 = (omega arith, omega arith)
size_of-bounds signed32 = (omega arith, omega arith)
size_of-bounds signed64 = (omega arith, omega arith)
size_of-bounds unsigned8 = (omega arith, omega arith)
size_of-bounds unsigned16 = (omega arith, omega arith)
size_of-bounds unsigned32 = (omega arith, omega arith)
size_of-bounds unsigned64 = (omega arith, omega arith)
