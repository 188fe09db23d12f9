-- ===== src/Data/Decimal.antt =====
-- Printed decimals of src/data.c: what is in the text, and what `sscanf` makes of it.
use native.Mathlib.Nat.{pow-suc}
use libcplus.Common.{
  ℕ, zero, suc, ◌+◌, ◌*◌, ◌/◌, ◌%◌, ◌^◌, ◌≤◌, ◌<◌, ◌≡◌, ◌≢◌, refl, ◌∙◌, ap, arith, Bool, true,
  false, some, List, [], ◌∷◌, ltb, ◌==◌, if◌then◌else◌, length, inl, inr, Bool-cases, ltb→lt,
}
use libcplus.Data.Text.{
  digits, decimal, signed_decimal, is_digit, is_space, scan_digits, scan_number, scan_sign,
  skip_spaces, with_sign, signed_number, scan_integer,
}

-- the text is not empty, and its first character is a digit
StartsDigit : List ℕ → Type 0
StartsDigit [] = ⊥
StartsDigit (c ∷ cs) = is_digit c ≡ true

-- no character is NUL
abbrev pub NoNul : List ℕ → Type 0
NoNul [] = Unit
NoNul (c ∷ cs) = (c ≢ 0) × NoNul cs

pick_if {ℓ} : (P : List ℕ → Type ℓ) (b : Bool) (x y : List ℕ) → P x → P y → P (if b then x else y)
pick_if P true x y px py = px
pick_if P false x y px py = py

digit_char : (n : ℕ) → n < 10 → is_digit (48 + n) ≡ true
digit_char n h = ground arith

digits-NoNul : (k n : ℕ) (out : List ℕ) → NoNul out → NoNul (digits k n out)
unfolding digits
digits-NoNul zero n out h = h
digits-NoNul (suc k) n out h =
    pick_if NoNul (ltb n 10) _ _ ((omega arith), h)
      (digits-NoNul k (n / 10) ((48 + n % 10) ∷ out) ((omega arith), h))

digits-StartsDigit : (k n : ℕ) (out : List ℕ) → StartsDigit out → StartsDigit (digits k n out)
unfolding digits StartsDigit
digits-StartsDigit zero n out h = h
digits-StartsDigit (suc k) n out h = elim (Bool-cases (ltb n 10)) [
  | inl e ↦ rw e (digit_char n (ltb→lt n 10 e))
  | inr e ↦
      rw e (digits-StartsDigit k (n / 10) ((48 + n % 10) ∷ out) (digit_char (n % 10) (omega arith)))
]

some_digits-StartsDigit : (k n : ℕ) → StartsDigit (digits (suc k) n [])
unfolding digits StartsDigit
some_digits-StartsDigit k n = elim (Bool-cases (ltb n 10)) [
  | inl e ↦ rw e (digit_char n (ltb→lt n 10 e))
  | inr e ↦
      rw e (digits-StartsDigit k (n / 10) ((48 + n % 10) ∷ []) (digit_char (n % 10) (omega arith)))
]

length-digits : (k n : ℕ) (out : List ℕ) → length (digits k n out) ≤ k + length out
unfolding digits
length-digits zero n out = omega arith
length-digits (suc k) n out = elim (Bool-cases (ltb n 10)) [
  | inl e ↦ rw e (omega arith)
  | inr e ↦ rw e (omega (arith, length-digits k (n / 10) ((48 + n % 10) ∷ out)))
]

scan_next :
    (n d : ℕ) (out : List ℕ)
    → d < 10
    → scan_digits ((48 + d) ∷ out) n ≡ scan_digits out (n * 10 + d)
unfolding scan_digits
scan_next n d out h = rw (digit_char d h) (ap (λ (m : ℕ). scan_digits out m) (omega arith))

scan_digits-digits :
    (k n : ℕ) (out : List ℕ) → n < 10 ^ k → scan_digits (digits k n out) 0 ≡ scan_digits out n
unfolding digits
scan_digits-digits zero n out h = ap (λ (m : ℕ). scan_digits out m) (omega arith)
scan_digits-digits (suc k) n out h = elim (Bool-cases (ltb n 10)) [
  | inl e ↦
      rw e (scan_next 0 n out (ltb→lt n 10 e) ∙ ap (λ (m : ℕ). scan_digits out m) (omega arith))
  | inr e ↦ rw e (
      scan_digits-digits k (n / 10) ((48 + n % 10) ∷ out) (omega (arith, pow-suc 10 k))
      ∙ scan_next (n / 10) (n % 10) out (omega arith)
      ∙ ap (λ (m : ℕ). scan_digits out m) (omega arith))
]

digit_not_space : (c : ℕ) → is_digit c ≡ true → is_space c ≡ false
digit_not_space c h = ground arith

digit_not_sign : (c : ℕ) → is_digit c ≡ true → ((c == 45) ≡ false) × ((c == 43) ≡ false)
digit_not_sign c h = (ground arith, ground arith)

digit_skip : (c : ℕ) (cs : List ℕ) → is_digit c ≡ true → skip_spaces (c ∷ cs) ≡ c ∷ cs
unfolding skip_spaces
digit_skip c cs h = rw (digit_not_space c h) refl

digit_sign : (c : ℕ) (cs : List ℕ) → is_digit c ≡ true → scan_sign (c ∷ cs) ≡ (false, c ∷ cs)
unfolding scan_sign
digit_sign c cs h = rw ((digit_not_sign c h).0, (digit_not_sign c h).1) refl

digit_number :
    (negative : Bool) (c : ℕ) (cs : List ℕ)
    → is_digit c ≡ true
    → signed_number (negative, c ∷ cs) ≡ some (negative, scan_digits (c ∷ cs) 0)
unfolding signed_number scan_number with_sign
digit_number negative c cs h = rw h refl

plain_scan : (s : List ℕ) → StartsDigit s → scan_integer s ≡ some (false, scan_digits s 0)
unfolding scan_integer StartsDigit
plain_scan [] h = absurd h
plain_scan (c ∷ cs) h =
    ap (λ (t : List ℕ). signed_number (scan_sign t)) (digit_skip c cs h)
    ∙ ap (λ (t : Bool × List ℕ). signed_number t) (digit_sign c cs h)
    ∙ digit_number false c cs h

signed_scan : (s : List ℕ) → StartsDigit s → scan_integer (45 ∷ s) ≡ some (true, scan_digits s 0)
unfolding scan_integer scan_sign skip_spaces StartsDigit
signed_scan [] h = absurd h
signed_scan (c ∷ cs) h = digit_number true c cs h

-- what `sscanf` reads from a printed number
scan-decimal : (n : ℕ) → n < 10 ^ 20 → scan_integer (decimal n) ≡ some (false, n)
unfolding decimal scan_digits
scan-decimal n h =
    plain_scan (digits 20 n []) (some_digits-StartsDigit 19 n)
    ∙ ap (λ (m : ℕ). some (false, m)) (scan_digits-digits 20 n [] h)

scan-minus : (n : ℕ) → n < 10 ^ 20 → scan_integer (45 ∷ decimal n) ≡ some (true, n)
unfolding decimal scan_digits
scan-minus n h =
    signed_scan (digits 20 n []) (some_digits-StartsDigit 19 n)
    ∙ ap (λ (m : ℕ). some (true, m)) (scan_digits-digits 20 n [] h)

pub scan-signed_decimal :
    (negative : Bool) (n : ℕ)
    → n < 10 ^ 20
    → scan_integer (signed_decimal negative n) ≡ some (negative, n)
unfolding signed_decimal
scan-signed_decimal true n h = scan-minus n h
scan-signed_decimal false n h = scan-decimal n h

pub signed_decimal-NoNul : (negative : Bool) (n : ℕ) → NoNul (signed_decimal negative n)
unfolding signed_decimal decimal
signed_decimal-NoNul true n = ((omega arith), digits-NoNul 20 n [] tt)
signed_decimal-NoNul false n = digits-NoNul 20 n [] tt

pub length-signed_decimal : (negative : Bool) (n : ℕ) → length (signed_decimal negative n) ≤ 21
unfolding signed_decimal decimal
length-signed_decimal true n = omega (arith, length-digits 20 n [])
length-signed_decimal false n = omega (arith, length-digits 20 n [])
