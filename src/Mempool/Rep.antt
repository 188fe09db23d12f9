-- ===== src/Mempool/Rep.antt =====
-- What the state of a pool in src/mempool.c stands for: the free blocks, in the order in which they
-- will be handed out.
use libcplus.Common.{
  ℕ, zero, suc, ◌+◌, ◌-◌, ◌<◌, ◌≤◌, ◌≡◌, Bool, false, ◌||◌, List, [], ◌∷◌, ◌++◌, ◌==◌,
  if◌then◌else◌, length,
}
use libcplus.Mempool.{null, Words, Store, index_to_addr}
use libcplus.Mempool.Index.{Fits}

abbrev pub upto : ℕ → ℕ → List ℕ
upto a zero = []
upto a (suc n) = a ∷ upto (a + 1) n

-- is a block in a list?
abbrev pub among : ℕ → List ℕ → Bool
among a [] = false
among a (b ∷ bs) = (a == b) || among a bs

abbrev pub head_or : List ℕ → ℕ → ℕ
head_or [] e = e
head_or (i ∷ is) e = i

-- The blocks `is`, at their addresses, are initialised and distinct, and each names the next; the last names `e`.
abbrev pub Chain : (ℕ → ℕ) → Words → List ℕ → ℕ → Type 0
Chain address w [] e = Unit
Chain address w (i ∷ is) e =
    (i < e) × (w (address i) ≡ head_or is e) × (among i is ≡ false) × Chain address w is e

-- The pool's free blocks are those of the chain, then the ones that were never handed out.
pub record IsPool (s : Store) (free : List ℕ) : Type 0 where
  pub chain : List ℕ
  pub fits : Fits s.pool
  pub initialized : s.pool.initialized_blocks_count ≤ s.pool.block_count
  pub blocks :
      free
      ≡ chain
        ++ upto s.pool.initialized_blocks_count
            (s.pool.block_count - s.pool.initialized_blocks_count)
  pub links : Chain (index_to_addr s.pool) s.words chain s.pool.initialized_blocks_count
  pub count : s.pool.free_blocks_count ≡ length free
  pub next :
      s.pool.next_block
      ≡ (if s.pool.free_blocks_count == 0 then null else index_to_addr s.pool (head_or free 0))
