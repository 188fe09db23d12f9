-- ===== src/Llist/Sort/Places.antt =====
-- The loops of `llist_sort` in src/llist.c on the nodes of a list.
use libcplus.Common.{
  ℕ, zero, suc, ◌≡◌, ◌==◌, refl, sym, ◌∙◌, ap, Bool, false, ◌||◌, List, [], ◌∷◌, if◌then◌else◌,
  length, map,
}
use libcplus.Heap.{Ptr}
use libcplus.Llist.{Comparator}
use libcplus.Llist.Rep.{values}
use libcplus.Llist.Segment.{Cells, has, first, last}
use libcplus.Llist.Sort.Values.{is_above, bubble_values, sort_values}

module _ (comparator : Comparator) where
  unfoldable pub bubble_cells : ℕ → Cells → Cells
  bubble_cells zero xs = xs
  bubble_cells (suc r) [] = []
  bubble_cells (suc r) (x ∷ []) = x ∷ []
  bubble_cells (suc r) ((p, v) ∷ (q, w) ∷ xs) =
      (p, if is_above comparator v w then w else v)
      ∷ bubble_cells r ((q, if is_above comparator v w then v else w) ∷ xs)

  unfoldable pub sort_cells : ℕ → Cells → Cells
  sort_cells zero xs = xs
  sort_cells (suc s) xs = sort_cells s (bubble_cells (suc s) xs)

  pub addresses-bubble_cells :
      (r : ℕ) (xs : Cells) → map (λ c. c.0) (bubble_cells r xs) ≡ map (λ c. c.0) xs
  unfolding bubble_cells
  addresses-bubble_cells zero xs = refl
  addresses-bubble_cells (suc r) [] = refl
  addresses-bubble_cells (suc r) (x ∷ []) = refl
  addresses-bubble_cells (suc r) ((p, v) ∷ (q, w) ∷ xs) =
      ap (λ l. p ∷ l)
        (addresses-bubble_cells r ((q, if is_above comparator v w then v else w) ∷ xs))

  pub values-bubble_cells :
      (r : ℕ) (xs : Cells) → values (bubble_cells r xs) ≡ bubble_values comparator r (values xs)
  unfolding bubble_cells bubble_values
  values-bubble_cells zero xs = refl
  values-bubble_cells (suc r) [] = refl
  values-bubble_cells (suc r) (x ∷ []) = refl
  values-bubble_cells (suc r) ((p, v) ∷ (q, w) ∷ xs) =
      ap (λ l. (if is_above comparator v w then w else v) ∷ l)
        (values-bubble_cells r ((q, if is_above comparator v w then v else w) ∷ xs))

  pub addresses-sort_cells :
      (s : ℕ) (xs : Cells) → map (λ c. c.0) (sort_cells s xs) ≡ map (λ c. c.0) xs
  unfolding sort_cells
  addresses-sort_cells zero xs = refl
  addresses-sort_cells (suc s) xs =
      addresses-sort_cells s (bubble_cells (suc s) xs) ∙ addresses-bubble_cells (suc s) xs

  pub values-sort_cells :
      (s : ℕ) (xs : Cells) → values (sort_cells s xs) ≡ sort_values comparator s (values xs)
  unfolding sort_cells sort_values
  values-sort_cells zero xs = refl
  values-sort_cells (suc s) xs =
      values-sort_cells s (bubble_cells (suc s) xs)
      ∙ ap (sort_values comparator s) (values-bubble_cells (suc s) xs)

-- What depends on the addresses alone.
abbrev addresses : Cells → List Ptr
addresses xs = map (λ c. c.0) xs

abbrev pub SameAddresses : Cells → Cells → Type 0
SameAddresses xs ys = addresses xs ≡ addresses ys

abbrev among : Ptr → List Ptr → Bool
among a [] = false
among a (p ∷ ps) = (a == p) || among a ps

abbrev end_of : Ptr → List Ptr → Ptr
end_of b [] = b
end_of b (p ∷ ps) = end_of p ps

abbrev start_of : List Ptr → Ptr → Ptr
start_of [] e = e
start_of (p ∷ ps) e = p

has-addresses : (a : Ptr) (xs : Cells) → has a xs ≡ among a (addresses xs)
has-addresses a [] = refl
has-addresses a (x ∷ xs) = ap (λ b. (a == x.0) || b) (has-addresses a xs)

last-addresses : (b : Ptr) (xs : Cells) → last b xs ≡ end_of b (addresses xs)
last-addresses b [] = refl
last-addresses b (x ∷ xs) = last-addresses x.0 xs

first-addresses : (xs : Cells) (e : Ptr) → first xs e ≡ start_of (addresses xs) e
first-addresses [] e = refl
first-addresses (x ∷ xs) e = refl

length-addresses : (xs : Cells) → length xs ≡ length (addresses xs)
length-addresses [] = refl
length-addresses (x ∷ xs) = ap suc (length-addresses xs)

module _ (xs ys : Cells) (same : SameAddresses xs ys) where
  pub has-SameAddresses : (a : Ptr) → has a xs ≡ has a ys
  has-SameAddresses a = has-addresses a xs ∙ ap (among a) same ∙ sym (has-addresses a ys)

  pub last-SameAddresses : (b : Ptr) → last b xs ≡ last b ys
  last-SameAddresses b = last-addresses b xs ∙ ap (end_of b) same ∙ sym (last-addresses b ys)

  pub first-SameAddresses : (e : Ptr) → first xs e ≡ first ys e
  first-SameAddresses e =
      first-addresses xs e ∙ ap (λ l. start_of l e) same ∙ sym (first-addresses ys e)

  pub length-SameAddresses : length xs ≡ length ys
  length-SameAddresses = length-addresses xs ∙ ap length same ∙ sym (length-addresses ys)
