-- ===== src/Llist/Keyed/Lookup.antt =====
-- Keys of src/llist.c: which object `find_node_by_key` matches, and where a search finds it.
use libcplus.Common.{
  ℕ, suc, ◌≡◌, ◌≢◌, refl, sym, ◌∙◌, ap, arith, Bool, true, false, not, ◌&&◌, inl, inr, Option, none,
  some, pos, negsuc, List, [], ◌∷◌, ◌++◌, ltb, ◌==◌, if◌then◌else◌, length, is_zero, ne→==, ==→eq,
  Bool-cases,
}
use libcplus.Heap.{Ptr, null}
use libcplus.Data.{Data}
use libcplus.Data.Decimal.{NoNul}
use libcplus.Data.Memory.{take}
use libcplus.Data.Text.{cstr, cstr_next}
use libcplus.Data.Key.{cplus_data_get_key}
use libcplus.Llist.Keyed.{
  Objects, place, strcmp, compare_text, compare_key, compare_object, find_node_by_key,
}
use libcplus.Llist.Ops.{matches}
use libcplus.Llist.Search.{find}

pub strcmp_refl : (k : List ℕ) → strcmp k k ≡ pos 0
unfolding strcmp
strcmp_refl [] = refl
strcmp_refl (c ∷ k) = rw (strcmp_refl k) ground arith

-- `strcmp` answers 0 for equal strings only.
strcmp-zero : (s t : List ℕ) → s ≢ t → is_zero (strcmp s t) ≡ false
unfolding strcmp
strcmp-zero [] [] ne = absurd (ne refl)
strcmp-zero [] (d ∷ t) ne = refl
strcmp-zero (c ∷ s) [] ne = refl
strcmp-zero (c ∷ s) (d ∷ t) ne = elim (Bool-cases (c == d)) [
  | inl e ↦ let same = ==→eq c d e in rw e (strcmp-zero s t (λ (h : s ≡ t). ne (cc (same, h))))
  | inr e ↦ rw e (sign (ltb c d))
]
  where
    sign : (b : Bool) → is_zero (if b then negsuc 0 else pos 1) ≡ false
    sign true = refl
    sign false = refl

-- the block begins with the text and its NUL
pub cstr-starts :
    (k b rest : List ℕ)
    → NoNul k
    → take (suc (length k)) b ≡ take (suc (length k)) (k ++ 0 ∷ rest)
    → cstr b ≡ some k
unfolding cstr cstr_next
cstr-starts [] [] rest nn h = let clash : [] ≡ 0 ∷ [] = h in absurd (cc clash)
cstr-starts [] (x ∷ b) rest nn h =
    let heads : x ∷ [] ≡ 0 ∷ [] = h in let same : x ≡ 0 = cc heads in rw same refl
cstr-starts (c ∷ k) [] rest nn h =
    let clash : [] ≡ c ∷ take (suc (length k)) (k ++ 0 ∷ rest) = h in absurd (cc clash)
cstr-starts (c ∷ k) (x ∷ b) rest nn h =
    let both : x ∷ take (suc (length k)) b ≡ c ∷ take (suc (length k)) (k ++ 0 ∷ rest) = h in
    let same : x ≡ c = cc both in
    let rest_same : take (suc (length k)) b ≡ take (suc (length k)) (k ++ 0 ∷ rest) = cc both in
    rw (same, ne→== c 0 nn.0, cstr-starts k b rest nn.1 rest_same) refl

pub cstr-text : (k rest : List ℕ) → NoNul k → cstr (k ++ 0 ∷ rest) ≡ some k
cstr-text k rest nn = cstr-starts k (k ++ 0 ∷ rest) rest nn refl

-- the characters of an object's key
abbrev pub key_text : Data → Option (List ℕ)
key_text d = elim d.key [ none ↦ none | some b ↦ cstr b ]

-- Every value of the list is an object, and none of them has that key.
abbrev pub AreOthers : Objects → List ℕ → List Ptr → Type 0
AreOthers objects k [] = Unit
AreOthers objects k (v ∷ vs) =
    ((d : Data) × (objects v ≡ some d) × (key_text d ≢ some k)) × AreOthers objects k vs

compare_text-other :
    (o : Option (List ℕ)) (k : List ℕ) → o ≢ some k → is_zero (compare_text o k) ≡ false
unfolding compare_text
compare_text-other none k ne = refl
compare_text-other (some t) k ne = strcmp-zero t k (λ (h : t ≡ k). ne (ap some h))

compare_key-other :
    (key : Option (List ℕ)) (k : List ℕ)
    → elim key [ none ↦ none | some b ↦ cstr b ] ≢ some k
    → is_zero (compare_key key k) ≡ false
unfolding compare_key
compare_key-other none k ne = refl
compare_key-other (some b) k ne = compare_text-other (cstr b) k ne

-- the search for a key
abbrev pub has_key : Objects → List ℕ → Ptr → Bool
has_key objects k = matches (find_node_by_key objects k) null

and_false : (b c : Bool) → c ≡ false → (b && c) ≡ false
and_false true c e = e
and_false false c e = refl

has_key-other :
    (objects : Objects) (k : List ℕ) (v : Ptr) (d : Data)
    → objects v ≡ some d
    → key_text d ≢ some k
    → has_key objects k v ≡ false
unfolding find_node_by_key compare_object cplus_data_get_key
has_key-other objects k v d e ne =
    and_false (not (v == null)) _
      (ap (λ (o : Option Data). is_zero (compare_object o k)) e ∙ compare_key-other d.key k ne)

pub has_key-key :
    (objects : Objects) (k : List ℕ) (v : Ptr) (d : Data) (b : List ℕ)
    → v ≢ null
    → objects v ≡ some d
    → d.key ≡ some b
    → cstr b ≡ some k
    → has_key objects k v ≡ true
unfolding find_node_by_key compare_object cplus_data_get_key compare_key compare_text
has_key-key objects k v d b ne e key text = rw (ne→== v null ne) (
    ap (λ (o : Option Data). is_zero (compare_object o k)) e
    ∙ ap (λ (o : Option (List ℕ)). is_zero (compare_key o k)) key
    ∙ ap (λ (o : Option (List ℕ)). is_zero (compare_text o k)) text
    ∙ ap is_zero (strcmp_refl k))

pub find-others :
    (objects : Objects) (k : List ℕ) (vs : List Ptr)
    → AreOthers objects k vs
    → find (has_key objects k) vs ≡ none
find-others objects k [] h = refl
find-others objects k (v ∷ vs) h =
    rw (has_key-other objects k v h.0.0 h.0.1 h.0.2, find-others objects k vs h.1) refl

pub find-last :
    (objects : Objects) (k : List ℕ) (vs : List Ptr) (v : Ptr)
    → AreOthers objects k vs
    → has_key objects k v ≡ true
    → find (has_key objects k) (vs ++ v ∷ []) ≡ some (length vs)
find-last objects k [] v h e = rw e refl
find-last objects k (w ∷ vs) v h e =
    rw (has_key-other objects k w h.0.0 h.0.1 h.0.2, find-last objects k vs v h.1 e) refl

-- A new object at an unused address leaves the others what they were.
pub place-AreOthers :
    (objects : Objects) (k : List ℕ) (vs : List Ptr) (p : Ptr) (d : Data)
    → objects p ≡ none
    → AreOthers objects k vs
    → AreOthers (place objects p (some d)) k vs
unfolding place
place-AreOthers objects k [] p d unused h = tt
place-AreOthers objects k (v ∷ vs) p d unused h =
    let apart : v ≢ p = λ (e : v ≡ p).
      let clash : none ≡ some h.0.0 = sym unused ∙ ap objects (sym e) ∙ h.0.1 in cc clash in
    ((h.0.0, rw (ne→== v p apart) h.0.1, h.0.2), place-AreOthers objects k vs p d unused h.1)

pub place-here : (objects : Objects) (p : Ptr) (o : Option Data) → place objects p o p ≡ o
unfolding place
place-here objects p o = ground arith

pub place-there :
    (objects : Objects) (p : Ptr) (o : Option Data) (q : Ptr)
    → q ≢ p
    → place objects p o q ≡ objects q
unfolding place
place-there objects p o q ne = rw (ne→== q p ne) refl
