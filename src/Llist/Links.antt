-- ===== src/Llist/Links.antt =====
-- What a change of links does to a segment: a node put in or taken out at a position.
use libcplus.Common.{
  ℕ, zero, suc, ◌<◌, ◌≡◌, ◌≢◌, refl, true, false, ◌||◌, Option, none, some, [], ◌∷◌, ◌++◌, arith,
  ◌==◌, length, insert_at, remove_at,
}
use libcplus.Heap.{Ptr, null, Node, node, Heap}
use libcplus.Llist.Segment.{
  first, Cells, has, last, ptr_at, ptr_before, IsAt, Segment, SameOn, Segment-frame, has-ptr_at,
  ptr_before-suc,
}

abbrev pub with_prev : Ptr → Option Node → Option Node
with_prev q none = none
with_prev q (some n) = some (record n { prev = q })

abbrev pub with_next : Ptr → Option Node → Option Node
with_next q none = none
with_next q (some n) = some (record n { next = q })

pub has-insert_at :
    (a n v : Ptr) (xs : Cells) (j : ℕ) → has a (insert_at xs j (n, v)) ≡ ((a == n) || has a xs)
has-insert_at a n v xs zero = refl
has-insert_at a n v [] (suc j) = refl
has-insert_at a n v ((p, w) ∷ xs) (suc j) = ground (arith, has-insert_at a n v xs j)

pub has-remove_at :
    (a : Ptr) (xs : Cells) (j : ℕ) → has a xs ≡ false → has a (remove_at xs j) ≡ false
has-remove_at a [] j h = refl
has-remove_at a (x ∷ xs) zero h = ground arith
has-remove_at a (x ∷ xs) (suc j) h = ground (arith, has-remove_at a xs j)

pub has-snoc : (a n v : Ptr) (xs : Cells) → has a (xs ++ (n, v) ∷ []) ≡ (has a xs || (a == n))
has-snoc a n v [] = ground arith
has-snoc a n v ((p, w) ∷ xs) = ground (arith, has-snoc a n v xs)

-- In the middle: the nodes on both sides get the new node as a neighbour.
pub Segment-insert :
    {h g : Heap} (n v b : Ptr) (xs : Cells) (e : Ptr) (j : ℕ)
    → 0 < j
    → j < length xs
    → n ≢ null
    → has n xs ≡ false
    → g n ≡ some (node v (ptr_before b xs j) (ptr_at xs j e))
    → g (ptr_before b xs j) ≡ with_next n (h (ptr_before b xs j))
    → g (ptr_at xs j e) ≡ with_prev n (h (ptr_at xs j e))
    → ((a : Ptr) → has a xs ≡ true → a ≢ ptr_before b xs j → a ≢ ptr_at xs j e → g a ≡ h a)
    → Segment h b xs e
    → Segment g b (insert_at xs j (n, v)) e
Segment-insert n v b xs e zero lo hi nn out hn hp hq same s = absurd (omega arith)
Segment-insert n v b [] e (suc j) lo hi nn out hn hp hq same s = absurd (omega arith)
Segment-insert n v b ((p, w) ∷ []) e (suc j) lo hi nn out hn hp hq same s = absurd (omega arith)
Segment-insert n v b ((p, w) ∷ (q, u) ∷ ys) e (suc zero) lo hi nn out hn hp hq same s = (
  ground arith,
  ground arith,
  (
    ground arith,
    ground arith,
    (ground arith, ground arith, Segment-frame q ys e (λ a i. ground (arith, same a)) s.2.2),
  ),
)
Segment-insert n v b ((p, w) ∷ (q, u) ∷ ys) e (suc (suc j)) lo hi nn out hn hp hq same s =
    let inner = has-ptr_at ((q, u) ∷ ys) e (suc j) (omega arith) in
    let outer = has-ptr_at ((q, u) ∷ ys) e j (omega arith) in
    let before = ptr_before-suc p ((q, u) ∷ ys) e j (omega arith) in
    (
      ground (arith, same p),
      ground (arith, has-insert_at p n v ((q, u) ∷ ys) (suc j)),
      Segment-insert n v p ((q, u) ∷ ys) e (suc j) (omega arith) (omega arith) nn (ground arith) hn
          hp hq (λ a i. same a (ground arith)) s.2,
    )

-- In the middle: the nodes on both sides become neighbours.
pub Segment-remove :
    {h g : Heap} (b : Ptr) (xs : Cells) (e : Ptr) (j : ℕ)
    → 0 < j
    → suc j < length xs
    → g (ptr_before b xs j) ≡ with_next (ptr_at xs (suc j) e) (h (ptr_before b xs j))
    → g (ptr_at xs (suc j) e) ≡ with_prev (ptr_before b xs j) (h (ptr_at xs (suc j) e))
    → ((a : Ptr)
        → has a xs ≡ true
        → a ≢ ptr_before b xs j
        → a ≢ ptr_at xs (suc j) e
        → a ≢ ptr_at xs j e
        → g a ≡ h a)
    → Segment h b xs e
    → Segment g b (remove_at xs j) e
Segment-remove b xs e zero lo hi hp hq same s = absurd (omega arith)
Segment-remove b [] e (suc j) lo hi hp hq same s = absurd (omega arith)
Segment-remove b ((p, w) ∷ []) e (suc j) lo hi hp hq same s = absurd (omega arith)
Segment-remove b ((p, w) ∷ (q, u) ∷ []) e (suc j) lo hi hp hq same s = absurd (omega arith)
Segment-remove b ((p, w) ∷ (q, u) ∷ (r, t) ∷ ys) e (suc zero) lo hi hp hq same s = (
  ground arith,
  ground arith,
  (ground arith, ground arith, Segment-frame r ys e (λ a i. ground (arith, same a)) s.2.2.2),
)
Segment-remove b ((p, w) ∷ (q, u) ∷ (r, t) ∷ ys) e (suc (suc j)) lo hi hp hq same s =
    let rest : Cells = (q, u) ∷ (r, t) ∷ ys in
    let behind = has-ptr_at rest e (suc (suc j)) (omega arith) in
    let at = has-ptr_at rest e (suc j) (omega arith) in
    let front = has-ptr_at rest e j (omega arith) in
    let before = ptr_before-suc p rest e j (omega arith) in
    (
      ground (arith, same p),
      has-remove_at p rest (suc j) (ground arith),
      Segment-remove p rest e (suc j) (omega arith) (omega arith) hp hq
          (λ a i. same a (ground arith)) s.2,
    )

pub has-last : (p v b : Ptr) (xs : Cells) → has (last b ((p, v) ∷ xs)) ((p, v) ∷ xs) ≡ true
has-last p v b [] = ground arith
has-last p v b ((q, w) ∷ xs) = ground (arith, has-last q w p xs)

-- The last node of a segment gets another successor.
pub Segment-last :
    {h g : Heap} (b : Ptr) (xs : Cells) (e e' : Ptr)
    → g (last b xs) ≡ with_next e' (h (last b xs))
    → ((a : Ptr) → has a xs ≡ true → a ≢ last b xs → g a ≡ h a)
    → Segment h b xs e
    → Segment g b xs e'
Segment-last b [] e e' hl same s = tt
Segment-last b ((p, w) ∷ []) e e' hl same s = (ground arith, refl, tt)
Segment-last b ((p, w) ∷ (q, u) ∷ xs) e e' hl same s = (
  ground (arith, same p, has-last q u p xs),
  s.1,
  Segment-last p ((q, u) ∷ xs) e e' hl (λ a i. same a (ground arith)) s.2,
)

-- The first node of a segment gets another predecessor.
pub Segment-first :
    {h g : Heap} (b b' p v : Ptr) (xs : Cells) (e : Ptr)
    → g p ≡ with_prev b' (h p)
    → SameOn xs h g
    → Segment h b ((p, v) ∷ xs) e
    → Segment g b' ((p, v) ∷ xs) e
Segment-first b b' p v xs e hp same s = (ground arith, s.1, Segment-frame p xs e same s.2)

pub Segment-snoc :
    {h : Heap} (b : Ptr) (xs : Cells) (n v e : Ptr)
    → has n xs ≡ false
    → IsAt h n (node v (last b xs) e)
    → Segment h b xs n
    → Segment h b (xs ++ (n, v) ∷ []) e
Segment-snoc b [] n v e out at s = (at, refl, tt)
Segment-snoc b ((p, w) ∷ []) n v e out at s = (s.0, ground arith, (at, refl, tt))
Segment-snoc b ((p, w) ∷ (q, u) ∷ xs) n v e out at s = (
  s.0,
  ground (arith, has-snoc p n v ((q, u) ∷ xs)),
  Segment-snoc p ((q, u) ∷ xs) n v e (ground arith) at s.2,
)

-- All but the last node form a segment that leads to the last one.
pub Segment-init :
    (h : Heap) (b : Ptr) (xs : Cells) (e : Ptr) (i : ℕ)
    → length xs ≡ suc i
    → Segment h b xs e
    → Segment h b (remove_at xs i) (ptr_at xs i e)
Segment-init h b [] e i l s = tt
Segment-init h b ((p, w) ∷ []) e zero l s = tt
Segment-init h b ((p, w) ∷ []) e (suc i) l s = absurd (omega arith)
Segment-init h b ((p, w) ∷ (q, u) ∷ xs) e zero l s = absurd (omega arith)
Segment-init h b ((p, w) ∷ (q, u) ∷ []) e (suc zero) l s = (s.0, refl, tt)
Segment-init h b ((p, w) ∷ (q, u) ∷ []) e (suc (suc i)) l s = absurd (omega arith)
Segment-init h b ((p, w) ∷ (q, u) ∷ x ∷ xs) e (suc zero) l s = absurd (omega arith)
Segment-init h b ((p, w) ∷ (q, u) ∷ x ∷ xs) e (suc (suc i)) l s = (
  s.0,
  has-remove_at p ((q, u) ∷ x ∷ xs) (suc i) s.1,
  Segment-init h p ((q, u) ∷ x ∷ xs) e (suc i) (omega arith) s.2,
)

pub last-remove_at :
    (b : Ptr) (xs : Cells) (e : Ptr) (i : ℕ)
    → length xs ≡ suc (suc i)
    → last b (remove_at xs (suc i)) ≡ ptr_at xs i e
last-remove_at b [] e i l = absurd (omega arith)
last-remove_at b (x ∷ []) e i l = absurd (omega arith)
last-remove_at b ((p, w) ∷ x ∷ []) e zero l = refl
last-remove_at b ((p, w) ∷ x ∷ []) e (suc i) l = absurd (omega arith)
last-remove_at b ((p, w) ∷ x ∷ y ∷ xs) e zero l = absurd (omega arith)
last-remove_at b ((p, w) ∷ x ∷ y ∷ xs) e (suc i) l = last-remove_at p (x ∷ y ∷ xs) e i (omega arith)

-- The node that is taken out is not in what is left.
pub has-removed :
    (h : Heap) (b : Ptr) (xs : Cells) (e : Ptr) (j : ℕ)
    → Segment h b xs e
    → j < length xs
    → has (ptr_at xs j e) (remove_at xs j) ≡ false
has-removed h b [] e j s hj = absurd (omega arith)
has-removed h b ((p, v) ∷ xs) e zero s hj = s.1
has-removed h b ((p, v) ∷ xs) e (suc j) s hj =
    ground (arith, has-removed h p xs e j s.2, has-ptr_at xs e j)

-- A removal behind the first node and in front of the last keeps the ends.
pub first-remove_at : (xs : Cells) (j : ℕ) (e : Ptr) → 0 < j → first (remove_at xs j) e ≡ first xs e
first-remove_at [] j e lo = refl
first-remove_at (x ∷ xs) zero e lo = absurd (omega arith)
first-remove_at (x ∷ xs) (suc j) e lo = refl

pub last-remove_at_inside :
    (b : Ptr) (xs : Cells) (j : ℕ) → suc j < length xs → last b (remove_at xs j) ≡ last b xs
last-remove_at_inside b [] j h = absurd (omega arith)
last-remove_at_inside b (x ∷ []) j h = absurd (omega arith)
last-remove_at_inside b (x ∷ y ∷ xs) zero h = refl
last-remove_at_inside b (x ∷ y ∷ xs) (suc j) h = last-remove_at_inside x.0 (y ∷ xs) j (omega arith)
