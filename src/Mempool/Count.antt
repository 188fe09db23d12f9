-- ===== src/Mempool/Count.antt =====
-- How many free blocks a pool of src/mempool.c can have.
use libcplus.Common.{
  ℕ, zero, suc, ◌+◌, ◌-◌, ◌<◌, ◌≤◌, ◌≡◌, ◌≢◌, refl, sym, ◌∙◌, ap, false, List, [], ◌∷◌, inl, inr,
  arith, ◌==◌, if◌then◌else◌, length, length-append, Bool-cases, ==→eq, ==→ne,
}
use libcplus.Mempool.{index_to_addr, Words, Store}
use libcplus.Mempool.Rep.{among, upto, Chain, IsPool}

abbrev Distinct : List ℕ → Type 0
Distinct [] = Unit
Distinct (i ∷ is) = (among i is ≡ false) × Distinct is

abbrev AllLt : List ℕ → ℕ → Type 0
AllLt [] n = Unit
AllLt (i ∷ is) n = (i < n) × AllLt is n

abbrev erase : ℕ → List ℕ → List ℕ
erase k [] = []
erase k (i ∷ is) = if i == k then is else i ∷ erase k is

length-erase : (k : ℕ) (is : List ℕ) → length is ≤ suc (length (erase k is))
length-erase k [] = omega arith
length-erase k (i ∷ is) =
    let h = length-erase k is in
    elim (Bool-cases (i == k)) [ inl e ↦ rw e (omega arith) | inr e ↦ rw e (omega arith) ]

among-erase : (a k : ℕ) (is : List ℕ) → among a is ≡ false → among a (erase k is) ≡ false
among-erase a k [] o = refl
among-erase a k (i ∷ is) o = elim (Bool-cases (i == k)) [
  | inl e ↦ rw e (ground arith)
  | inr e ↦ rw e (ground (arith, among-erase a k is))
]

Distinct-erase : (k : ℕ) (is : List ℕ) → Distinct is → Distinct (erase k is)
Distinct-erase k [] d = tt
Distinct-erase k (i ∷ is) d = elim (Bool-cases (i == k)) [
  | inl e ↦ rw e d.1
  | inr e ↦ rw e (among-erase i k is d.0, Distinct-erase k is d.1)
]

AllLt-outside : (n : ℕ) (is : List ℕ) → AllLt is (suc n) → among n is ≡ false → AllLt is n
AllLt-outside n [] a o = tt
AllLt-outside n (i ∷ is) a o =
    let lt = a.0 in
    let ne : n ≢ i = ground arith in (omega arith, AllLt-outside n is a.1 (ground arith))

AllLt-erase : (n : ℕ) (is : List ℕ) → AllLt is (suc n) → Distinct is → AllLt (erase n is) n
AllLt-erase n [] a d = tt
AllLt-erase n (i ∷ is) a d = elim (Bool-cases (i == n)) [
  | inl e ↦ rw e (AllLt-outside n is a.1 (ap (λ k. among k is) (sym (==→eq i n e)) ∙ d.0))
  | inr e ↦ let lt = a.0 in let ne = ==→ne i n e in rw e (omega arith, AllLt-erase n is a.1 d.1)
]

pigeonhole : (n : ℕ) (is : List ℕ) → AllLt is n → Distinct is → length is ≤ n
pigeonhole zero [] a d = omega arith
pigeonhole zero (i ∷ is) a d = let lt = a.0 in absurd (omega arith)
pigeonhole (suc n) is a d =
    let step = pigeonhole n (erase n is) (AllLt-erase n is a d) (Distinct-erase n is d) in
    let one = length-erase n is in omega arith

Chain-AllLt :
    (address : ℕ → ℕ) (w : Words) (is : List ℕ) (e : ℕ) → Chain address w is e → AllLt is e
Chain-AllLt address w [] e c = tt
Chain-AllLt address w (i ∷ is) e c = (c.0, Chain-AllLt address w is e c.3)

Chain-Distinct :
    (address : ℕ → ℕ) (w : Words) (is : List ℕ) (e : ℕ) → Chain address w is e → Distinct is
Chain-Distinct address w [] e c = tt
Chain-Distinct address w (i ∷ is) e c = (c.2, Chain-Distinct address w is e c.3)

pub length-upto : (a n : ℕ) → length (upto a n) ≡ n
length-upto a zero = refl
length-upto a (suc n) = ap suc (length-upto (a + 1) n)

pub length-blocks :
    (s : Store) (free : List ℕ) (is : IsPool s free)
    → length free ≡ length is.chain + (s.pool.block_count - s.pool.initialized_blocks_count)
length-blocks s free is =
    let n = s.pool.block_count - s.pool.initialized_blocks_count in
    ap length is.blocks
    ∙ length-append is.chain (upto s.pool.initialized_blocks_count n)
    ∙ ap (λ k. length is.chain + k) (length-upto s.pool.initialized_blocks_count n)

-- There are at most as many free blocks as blocks.
pub length-le_count : (s : Store) (free : List ℕ) → IsPool s free → length free ≤ s.pool.block_count
length-le_count s free is =
    let chained =
      pigeonhole s.pool.initialized_blocks_count is.chain
        (Chain-AllLt (index_to_addr s.pool) s.words is.chain s.pool.initialized_blocks_count
          is.links)
        (Chain-Distinct (index_to_addr s.pool) s.words is.chain s.pool.initialized_blocks_count
          is.links) in
    let total = length-blocks s free is in let init = is.initialized in omega arith
