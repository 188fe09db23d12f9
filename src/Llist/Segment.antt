-- ===== src/Llist/Segment.antt =====
-- Doubly linked segments: what a stretch of nodes in the heap stands for, read by position.
use libcplus.Common.{
  remove_at, ◌≤◌, ◌++◌, insert_at, ap, ℕ, zero, suc, ◌<◌, ◌≡◌, ◌≢◌, refl, Bool, true, false, ◌||◌,
  Option, some, List, [], ◌∷◌, arith, ◌==◌, length,
}
use libcplus.Heap.{Ptr, null, Node, node, Heap, write}

-- the address and the value of each node, in order
abbrev pub Cells : Type 0
Cells = List (Ptr × Ptr)

abbrev pub has : Ptr → Cells → Bool
has a [] = false
has a ((p, _) ∷ xs) = (a == p) || has a xs

-- the first address, or `e` if there is none; the last, or `b`
abbrev pub first : Cells → Ptr → Ptr
first [] e = e
first ((p, _) ∷ _) e = p

abbrev pub last : Ptr → Cells → Ptr
last b [] = b
last b ((p, _) ∷ xs) = last p xs

-- the address at a position, or `e` behind the end; and the address in front of it, `b` at 0
abbrev pub ptr_at : Cells → ℕ → Ptr → Ptr
ptr_at [] i e = e
ptr_at ((p, _) ∷ xs) zero e = p
ptr_at ((p, _) ∷ xs) (suc i) e = ptr_at xs i e

abbrev pub ptr_before : Ptr → Cells → ℕ → Ptr
ptr_before b xs zero = b
ptr_before b [] (suc i) = b
ptr_before b ((p, _) ∷ xs) (suc i) = ptr_before p xs i

abbrev pub value_at : Cells → ℕ → Ptr
value_at [] i = null
value_at ((_, v) ∷ xs) zero = v
value_at (x ∷ xs) (suc i) = value_at xs i

pub record IsAt (h : Heap) (p : Ptr) (n : Node) : Type 0 where
  pub ne_null : p ≢ null
  pub holds : h p ≡ some n

-- The nodes `xs`, at distinct addresses, are linked both ways, `b` in front and `e` behind.
abbrev pub Segment : Heap → Ptr → Cells → Ptr → Type 0
Segment h b [] e = Unit
Segment h b ((p, v) ∷ xs) e =
    IsAt h p (node v b (first xs e)) × (has p xs ≡ false) × Segment h p xs e

abbrev pub SameOn : Cells → Heap → Heap → Type 0
SameOn xs h g = (a : Ptr) → has a xs ≡ true → g a ≡ h a

-- A segment survives any change that spares its addresses.
pub Segment-frame :
    {h g : Heap} (b : Ptr) (xs : Cells) (e : Ptr)
    → SameOn xs h g
    → Segment h b xs e
    → Segment g b xs e
Segment-frame b [] e same s = tt
Segment-frame b ((p, v) ∷ xs) e same s =
    (ground (arith, same p), s.1, Segment-frame p xs e (λ a i. same a (ground arith)) s.2)

pub Segment-write :
    (h : Heap) (b : Ptr) (xs : Cells) (e a : Ptr) (c : Option Node)
    → has a xs ≡ false
    → Segment h b xs e
    → Segment (write h a c) b xs e
unfolding write
Segment-write h b xs e a c out s = Segment-frame b xs e (λ p i. ground arith) s

pub IsAt-Segment :
    {h : Heap} (b : Ptr) (xs : Cells) (e : Ptr) (i : ℕ)
    → Segment h b xs e
    → i < length xs
    → IsAt h (ptr_at xs i e) (node (value_at xs i) (ptr_before b xs i) (ptr_at xs (suc i) e))
IsAt-Segment b [] e i s h = absurd (omega arith)
IsAt-Segment b ((p, v) ∷ []) e zero s h = s.0
IsAt-Segment b ((p, v) ∷ (q, w) ∷ xs) e zero s h = s.0
IsAt-Segment b ((p, v) ∷ xs) e (suc i) s h = IsAt-Segment p xs e i s.2 (omega arith)

pub ptr_at-zero : (xs : Cells) (e : Ptr) → ptr_at xs 0 e ≡ first xs e
ptr_at-zero [] e = refl
ptr_at-zero (x ∷ xs) e = refl

pub ptr_at-length : (xs : Cells) (e : Ptr) → ptr_at xs (length xs) e ≡ e
ptr_at-length [] e = refl
ptr_at-length (x ∷ xs) e = ptr_at-length xs e

pub has-ptr_at : (xs : Cells) (e : Ptr) (i : ℕ) → i < length xs → has (ptr_at xs i e) xs ≡ true
has-ptr_at [] e i h = absurd (omega arith)
has-ptr_at ((p, v) ∷ xs) e zero h = ground arith
has-ptr_at ((p, v) ∷ xs) e (suc i) h = ground (arith, has-ptr_at xs e i)

-- `ptr_before` one further is the address itself.
pub ptr_before-suc :
    (b : Ptr) (xs : Cells) (e : Ptr) (i : ℕ)
    → i < length xs
    → ptr_before b xs (suc i) ≡ ptr_at xs i e
ptr_before-suc b [] e i h = absurd (omega arith)
ptr_before-suc b ((p, v) ∷ xs) e zero h = refl
ptr_before-suc b ((p, v) ∷ xs) e (suc i) h = ptr_before-suc p xs e i (omega arith)

pub last-eq :
    (b : Ptr) (xs : Cells) (e : Ptr) (i : ℕ) → length xs ≡ suc i → last b xs ≡ ptr_at xs i e
last-eq b [] e i h = absurd (omega arith)
last-eq b ((p, v) ∷ []) e zero h = refl
last-eq b ((p, v) ∷ []) e (suc i) h = absurd (omega arith)
last-eq b ((p, v) ∷ x ∷ xs) e zero h = absurd (omega arith)
last-eq b ((p, v) ∷ x ∷ xs) e (suc i) h = last-eq p (x ∷ xs) e i (omega arith)

-- The addresses are distinct.
pub ptr_at-ne :
    (h : Heap) (b : Ptr) (xs : Cells) (e : Ptr) (i j : ℕ)
    → Segment h b xs e
    → i < j
    → j < length xs
    → ptr_at xs i e ≢ ptr_at xs j e
ptr_at-ne h b [] e i j s lo hi = absurd (omega arith)
ptr_at-ne h b ((p, v) ∷ xs) e i zero s lo hi = absurd (omega arith)
ptr_at-ne h b ((p, v) ∷ xs) e zero (suc j) s lo hi = ground (arith, has-ptr_at xs e j)
ptr_at-ne h b ((p, v) ∷ xs) e (suc i) (suc j) s lo hi =
    ptr_at-ne h p xs e i j s.2 (omega arith) (omega arith)

-- What stands at a position is not an address outside the segment.
pub ptr_at-ne_fresh :
    (xs : Cells) (e a : Ptr) (i : ℕ) → has a xs ≡ false → i < length xs → ptr_at xs i e ≢ a
ptr_at-ne_fresh xs e a i out hi = λ same. cc (has-ptr_at xs e i hi, ap (λ p. has p xs) same)

pub IsAt-last :
    (h : Heap) (b : Ptr) (xs : Cells) (e : Ptr) (i : ℕ)
    → length xs ≡ suc i
    → Segment h b xs e
    → IsAt h (last b xs) (node (value_at xs i) (ptr_before b xs i) e)
IsAt-last h b [] e i n s = absurd (omega arith)
IsAt-last h b ((p, v) ∷ []) e zero n s = s.0
IsAt-last h b ((p, v) ∷ []) e (suc i) n s = absurd (omega arith)
IsAt-last h b ((p, v) ∷ x ∷ xs) e zero n s = absurd (omega arith)
IsAt-last h b ((p, v) ∷ x ∷ xs) e (suc i) n s = IsAt-last h p (x ∷ xs) e i (omega arith) s.2

pub last-snoc : (b : Ptr) (xs : Cells) (p v : Ptr) → last b (xs ++ (p, v) ∷ []) ≡ p
last-snoc b [] p v = refl
last-snoc b ((q, w) ∷ xs) p v = last-snoc q xs p v

pub first-snoc :
    (xs : Cells) (p v e e' : Ptr) (i : ℕ)
    → length xs ≡ suc i
    → first (xs ++ (p, v) ∷ []) e ≡ first xs e'
first-snoc [] p v e e' i n = absurd (omega arith)
first-snoc (x ∷ xs) p v e e' i n = refl

-- An insertion behind the first node and in front of the last keeps the ends.
pub first-insert_at :
    (xs : Cells) (j : ℕ) (c : Ptr × Ptr) (e : Ptr)
    → 0 < j
    → j < length xs
    → first (insert_at xs j c) e ≡ first xs e
first-insert_at [] j c e lo hi = absurd (omega arith)
first-insert_at (x ∷ xs) zero c e lo hi = absurd (omega arith)
first-insert_at (x ∷ xs) (suc j) c e lo hi = refl

pub last-insert_at :
    (b : Ptr) (xs : Cells) (j : ℕ) (c : Ptr × Ptr)
    → j < length xs
    → last b (insert_at xs j c) ≡ last b xs
last-insert_at b [] j c hi = absurd (omega arith)
last-insert_at b (x ∷ xs) zero c hi = refl
last-insert_at b (x ∷ xs) (suc j) c hi = last-insert_at x.0 xs j c (omega arith)

pub ne_of_has : (a t : Ptr) (xs : Cells) → has t xs ≡ true → has a xs ≡ false → a ≢ t
ne_of_has a t xs i o = λ same. cc (i, o, ap (λ p. has p xs) same)

pub ptr_at-insert_at_self :
    (xs : Cells) (j : ℕ) (c : Ptr × Ptr) (e : Ptr)
    → j ≤ length xs
    → ptr_at (insert_at xs j c) j e ≡ c.0
ptr_at-insert_at_self xs zero c e h = refl
ptr_at-insert_at_self [] (suc j) c e h = absurd (omega arith)
ptr_at-insert_at_self (x ∷ xs) (suc j) c e h = ptr_at-insert_at_self xs j c e (omega arith)

pub ptr_at-insert_at_behind :
    (xs : Cells) (j i : ℕ) (c : Ptr × Ptr) (e : Ptr)
    → j ≤ length xs
    → j ≤ i
    → ptr_at (insert_at xs j c) (suc i) e ≡ ptr_at xs i e
ptr_at-insert_at_behind xs zero i c e h k = refl
ptr_at-insert_at_behind [] (suc j) i c e h k = absurd (omega arith)
ptr_at-insert_at_behind (x ∷ xs) (suc j) zero c e h k = absurd (omega arith)
ptr_at-insert_at_behind (x ∷ xs) (suc j) (suc i) c e h k =
    ptr_at-insert_at_behind xs j i c e (omega arith) (omega arith)

pub ptr_before-insert_at :
    (b : Ptr) (xs : Cells) (j : ℕ) (c : Ptr × Ptr)
    → j ≤ length xs
    → ptr_before b (insert_at xs j c) j ≡ ptr_before b xs j
ptr_before-insert_at b xs zero c h = refl
ptr_before-insert_at b [] (suc j) c h = absurd (omega arith)
ptr_before-insert_at b (x ∷ xs) (suc j) c h = ptr_before-insert_at x.0 xs j c (omega arith)

pub value_at-insert_at_self :
    (xs : Cells) (j : ℕ) (c : Ptr × Ptr) → j ≤ length xs → value_at (insert_at xs j c) j ≡ c.1
value_at-insert_at_self xs zero c h = refl
value_at-insert_at_self [] (suc j) c h = absurd (omega arith)
value_at-insert_at_self (x ∷ xs) (suc j) c h = value_at-insert_at_self xs j c (omega arith)

pub value_at-insert_at_behind :
    (xs : Cells) (j i : ℕ) (c : Ptr × Ptr)
    → j ≤ length xs
    → j ≤ i
    → value_at (insert_at xs j c) (suc i) ≡ value_at xs i
value_at-insert_at_behind xs zero i c h k = refl
value_at-insert_at_behind [] (suc j) i c h k = absurd (omega arith)
value_at-insert_at_behind (x ∷ xs) (suc j) zero c h k = absurd (omega arith)
value_at-insert_at_behind (x ∷ xs) (suc j) (suc i) c h k =
    value_at-insert_at_behind xs j i c (omega arith) (omega arith)

pub ptr_before-remove_at :
    (b : Ptr) (xs : Cells) (j : ℕ)
    → suc j < length xs
    → ptr_before b (remove_at xs j) j ≡ ptr_before b xs j
ptr_before-remove_at b [] j h = absurd (omega arith)
ptr_before-remove_at b (x ∷ xs) zero h = refl
ptr_before-remove_at b (x ∷ xs) (suc j) h = ptr_before-remove_at x.0 xs j (omega arith)

pub ptr_at-remove_at_behind :
    (xs : Cells) (j i : ℕ) (e : Ptr) → j ≤ i → ptr_at (remove_at xs j) i e ≡ ptr_at xs (suc i) e
ptr_at-remove_at_behind [] j i e k = refl
ptr_at-remove_at_behind (x ∷ xs) zero i e k = refl
ptr_at-remove_at_behind (x ∷ xs) (suc j) zero e k = absurd (omega arith)
ptr_at-remove_at_behind (x ∷ xs) (suc j) (suc i) e k =
    ptr_at-remove_at_behind xs j i e (omega arith)
