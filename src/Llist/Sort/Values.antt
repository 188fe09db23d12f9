-- ===== src/Llist/Sort/Values.antt =====
-- What the loops of `llist_sort` in src/llist.c do to the list of values.
use mathlib.Core.List.{Perm, append-nil}
use mathlib.Core.List.Perm
use mathlib.Core.Path.{subst}
use libcplus.Common.{
  ℕ, zero, suc, ◌≡◌, refl, sym, ◌∙◌, ap, Bool, true, false, List, [], ◌∷◌, ◌++◌, arith,
  if◌then◌else◌, length, is_positive, Bool-cases, inl, inr,
}
use libcplus.Heap.{Ptr}
use libcplus.Llist.{Comparator}

module _ (comparator : Comparator) where
  -- `0 < comparator(data1, data2)`
  abbrev pub is_above : Ptr → Ptr → Bool
  is_above a b = is_positive (comparator a b)

  -- one run of the inner loop
  unfoldable pub bubble_values : ℕ → List Ptr → List Ptr
  bubble_values zero vs = vs
  bubble_values (suc r) [] = []
  bubble_values (suc r) (v ∷ []) = v ∷ []
  bubble_values (suc r) (v ∷ w ∷ vs) =
      (if is_above v w then w else v) ∷ bubble_values r ((if is_above v w then v else w) ∷ vs)

  -- the runs of the outer loop
  unfoldable pub sort_values : ℕ → List Ptr → List Ptr
  sort_values zero vs = vs
  sort_values (suc s) vs = sort_values s (bubble_values (suc s) vs)

  bubble-perm : (r : ℕ) (vs : List Ptr) → Perm (bubble_values r vs) vs
  unfolding bubble_values
  bubble-perm zero vs = Perm.refl vs
  bubble-perm (suc r) [] = Perm.refl []
  bubble-perm (suc r) (v ∷ []) = Perm.refl (v ∷ [])
  bubble-perm (suc r) (v ∷ w ∷ vs) = elim (Bool-cases (is_above v w)) [
    | inl e ↦ rw e (Perm.trans (Perm.cons w (bubble-perm r (v ∷ vs))) (Perm.swap v w vs))
    | inr e ↦ rw e (Perm.cons v (bubble-perm r (w ∷ vs)))
  ]

  -- The values are kept, whatever the comparator answers.
  pub sort-perm : (s : ℕ) (vs : List Ptr) → Perm (sort_values s vs) vs
  unfolding sort_values
  sort-perm zero vs = Perm.refl vs
  sort-perm (suc s) vs =
      Perm.trans (sort-perm s (bubble_values (suc s) vs)) (bubble-perm (suc s) vs)

  abbrev pub Le : Ptr → Ptr → Type 0
  Le a b = is_above a b ≡ false

  abbrev pub Below : Ptr → List Ptr → Type 0
  Below a [] = Unit
  Below a (b ∷ bs) = Le a b × Below a bs

  abbrev pub AllBelow : List Ptr → List Ptr → Type 0
  AllBelow [] ws = Unit
  AllBelow (v ∷ vs) ws = Below v ws × AllBelow vs ws

  abbrev pub IsSorted : List Ptr → Type 0
  IsSorted [] = Unit
  IsSorted (v ∷ vs) = Below v vs × IsSorted vs

  -- what the comparator has to be: a total preorder
  pub record IsOrder : Type 0 where
    pub total : (a b : Ptr) → is_above a b ≡ true → Le b a
    pub trans : (a b c : Ptr) → Le a b → Le b c → Le a c

  -- one run over the values `us` behind `v`: what stays, and the greatest, which moves to the end
  abbrev rest : Ptr → List Ptr → List Ptr
  rest v [] = []
  rest v (u ∷ us) = (if is_above v u then u else v) ∷ rest (if is_above v u then v else u) us

  abbrev top : Ptr → List Ptr → Ptr
  top v [] = v
  top v (u ∷ us) = top (if is_above v u then v else u) us

  length-rest : (v : Ptr) (us : List Ptr) → length (rest v us) ≡ length us
  length-rest v [] = refl
  length-rest v (u ∷ us) = ap suc (length-rest (if is_above v u then v else u) us)

  -- A run that goes one comparison into the sorted tail leaves it alone.
  bubble-append :
      (v : Ptr) (us ws : List Ptr)
      → Below (top v us) ws
      → bubble_values (suc (length us)) (v ∷ us ++ ws) ≡ rest v us ++ top v us ∷ ws
  unfolding bubble_values
  bubble-append v [] [] h = refl
  bubble-append v [] (w ∷ ws) h = rw h.0
  bubble-append v (u ∷ us) ws h =
      ap (λ l. (if is_above v u then u else v) ∷ l)
        (bubble-append (if is_above v u then v else u) us ws h)

  top-Below : (v : Ptr) (us ws : List Ptr) → Below v ws → AllBelow us ws → Below (top v us) ws
  top-Below v [] ws h a = h
  top-Below v (u ∷ us) ws h a = elim (Bool-cases (is_above v u)) [
    | inl e ↦ rw e (top-Below v us ws h a.1)
    | inr e ↦ rw e (top-Below u us ws a.0 a.1)
  ]

  rest-AllBelow :
      (v : Ptr) (us ws : List Ptr) → Below v ws → AllBelow us ws → AllBelow (rest v us) ws
  rest-AllBelow v [] ws h a = tt
  rest-AllBelow v (u ∷ us) ws h a = elim (Bool-cases (is_above v u)) [
    | inl e ↦ rw e (a.0, rest-AllBelow v us ws h a.1)
    | inr e ↦ rw e (h, rest-AllBelow u us ws a.0 a.1)
  ]

  module _ (order : IsOrder) where
    le-top : (a v : Ptr) (us : List Ptr) → Le a v → Le a (top v us)
    le-top a v [] h = h
    le-top a v (u ∷ us) h = elim (Bool-cases (is_above v u)) [
      | inl e ↦ rw e (le-top a v us h)
      | inr e ↦ rw e (le-top a u us (order.trans a v u h e))
    ]

    reflexive : (a : Ptr) → Le a a
    reflexive a = elim (Bool-cases (is_above a a)) [ inl e ↦ order.total a a e | inr e ↦ e ]

    AllBelow-snoc :
        (vs ws : List Ptr) (x : Ptr) → AllBelow vs ws → AllBelow vs (x ∷ []) → AllBelow vs (x ∷ ws)
    AllBelow-snoc [] ws x a b = tt
    AllBelow-snoc (v ∷ vs) ws x a b = ((b.0.0, a.0), AllBelow-snoc vs ws x a.1 b.1)

    rest-top : (v : Ptr) (us : List Ptr) → AllBelow (rest v us) (top v us ∷ [])
    rest-top v [] = tt
    rest-top v (u ∷ us) = elim (Bool-cases (is_above v u)) [
      | inl e ↦ rw e ((le-top u v us (order.total v u e), tt), rest-top v us)
      | inr e ↦ rw e ((le-top v u us e, tt), rest-top u us)
    ]

    sort-append :
        (s : ℕ) (us ws : List Ptr)
        → length us ≡ s
        → IsSorted ws
        → AllBelow us ws
        → IsSorted (sort_values s (us ++ ws))
    unfolding sort_values
    sort-append zero [] ws n h a = h
    sort-append zero (u ∷ us) ws n h a = absurd (omega arith)
    sort-append (suc s) [] ws n h a = absurd (omega arith)
    sort-append (suc s) (u ∷ us) ws n h a =
        let top_below = top-Below u us ws a.0 a.1 in
        let size : s ≡ length us = omega arith in
        rw (size, bubble-append u us ws top_below)
          (rw (← size) (
            sort-append s (rest u us) (top u us ∷ ws) (length-rest u us ∙ sym size) (top_below, h)
              (AllBelow-snoc (rest u us) ws (top u us) (rest-AllBelow u us ws a.0 a.1)
                (rest-top u us))))

    AllBelow-nil : (us : List Ptr) → AllBelow us []
    AllBelow-nil [] = tt
    AllBelow-nil (u ∷ us) = (tt, AllBelow-nil us)

    -- One pass per value sorts.
    pub sort_values-IsSorted : (us : List Ptr) → IsSorted (sort_values (length us) us)
    sort_values-IsSorted us =
        subst (λ l. IsSorted (sort_values (length us) l)) (append-nil us)
          (sort-append (length us) us [] refl tt (AllBelow-nil us))
