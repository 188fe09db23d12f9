-- ===== src/Common/Lists.antt =====
-- Lists measured by native numbers, under the library's names.
use Prim.Native.Nat.{ℕ, zero, suc, ◌+◌, ◌<◌}
use mathlib.Core.Path.{◌≡◌, refl, ap}
use mathlib.Core.Option.{Option, none, some}
use mathlib.Core.List.{List, [], ◌∷◌, ◌++◌, map}
use native.Mathlib.Omega.{arith}

module _ {ℓ} {A : Type ℓ} where
  abbrev pub length : List A → ℕ
  length [] = 0
  length (x ∷ xs) = suc (length xs)

  abbrev pub get_elem? : List A → ℕ → Option A
  get_elem? [] i = none
  get_elem? (x ∷ xs) zero = some x
  get_elem? (x ∷ xs) (suc i) = get_elem? xs i

  pub length-append : (xs ys : List A) → length (xs ++ ys) ≡ length xs + length ys
  length-append [] ys = omega arith
  length-append (x ∷ xs) ys = omega (arith, length-append xs ys)

  -- An insertion behind the end goes to the end; a removal there changes nothing.
  abbrev pub insert_at : List A → ℕ → A → List A
  insert_at xs zero a = a ∷ xs
  insert_at [] (suc i) a = a ∷ []
  insert_at (x ∷ xs) (suc i) a = x ∷ insert_at xs i a

  abbrev pub remove_at : List A → ℕ → List A
  remove_at [] i = []
  remove_at (x ∷ xs) zero = xs
  remove_at (x ∷ xs) (suc i) = x ∷ remove_at xs i

  pub length-insert_at : (xs : List A) (i : ℕ) (a : A) → length (insert_at xs i a) ≡ suc (length xs)
  length-insert_at xs zero a = refl
  length-insert_at [] (suc i) a = refl
  length-insert_at (x ∷ xs) (suc i) a = omega (arith, length-insert_at xs i a)

  pub length-remove_at :
      (xs : List A) (i : ℕ) → i < length xs → suc (length (remove_at xs i)) ≡ length xs
  length-remove_at [] i h = absurd (omega arith)
  length-remove_at (x ∷ xs) zero h = refl
  length-remove_at (x ∷ xs) (suc i) h = omega (arith, length-remove_at xs i)

  pub insert_at-length : (xs : List A) (a : A) → insert_at xs (length xs) a ≡ xs ++ a ∷ []
  insert_at-length [] a = refl
  insert_at-length (x ∷ xs) a = ap (λ ys. x ∷ ys) (insert_at-length xs a)

module _ {ℓ κ} {A : Type ℓ} {B : Type κ} (f : A → B) where
  pub map-insert_at :
      (xs : List A) (i : ℕ) (a : A) → map f (insert_at xs i a) ≡ insert_at (map f xs) i (f a)
  map-insert_at xs zero a = refl
  map-insert_at [] (suc i) a = refl
  map-insert_at (x ∷ xs) (suc i) a = ap (λ ys. f x ∷ ys) (map-insert_at xs i a)

  pub map-remove_at : (xs : List A) (i : ℕ) → map f (remove_at xs i) ≡ remove_at (map f xs) i
  map-remove_at [] i = refl
  map-remove_at (x ∷ xs) zero = refl
  map-remove_at (x ∷ xs) (suc i) = ap (λ ys. f x ∷ ys) (map-remove_at xs i)

  pub length-map : (xs : List A) → length (map f xs) ≡ length xs
  length-map [] = refl
  length-map (x ∷ xs) = ap suc (length-map xs)
