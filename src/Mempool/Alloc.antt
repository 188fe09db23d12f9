-- ===== src/Mempool/Alloc.antt =====
-- `cplus_mempool_alloc` of src/mempool.c on the free blocks.
use mathlib.Core.Path.{subst}
use libcplus.Common.{
  ℕ, zero, suc, ◌-◌, ◌<◌, ◌≤◌, ◌≡◌, ◌≢◌, refl, sym, ◌∙◌, ap, true, List, [], ◌∷◌, ◌++◌, inl, inr,
  arith, ltb, ◌==◌, if◌then◌else◌, length, Bool-cases, lt→ltb, le→ltb, ne→==, enomem,
}
use libcplus.Mempool.{
  null, Mempool, Words, Store, index_to_addr, initialize_block, take_block, cplus_mempool_alloc,
}
use libcplus.Mempool.Rep.{upto, among, head_or, Chain, IsPool}
use libcplus.Mempool.Count.{length-blocks}
use libcplus.Mempool.Initialize.{nonempty, initialize_block-IsReady}

-- the two pools lie in the same memory
abbrev pub SameMemory : Mempool → Mempool → Type 0
SameMemory mp nq =
    (mp.mem_start ≡ nq.mem_start)
    × (mp.block_size ≡ nq.block_size)
    × (mp.block_count ≡ nq.block_count)

-- block `i` was handed out and `rest` are the free ones; the other blocks keep their contents
pub record Taken (s : Store) (i : ℕ) (rest : List ℕ) (r : ℕ × Store) : Type 0 where
  pub address : r.0 ≡ index_to_addr s.pool i
  pub pool : IsPool r.1 rest
  pub frame :
      (a : ℕ)
      → ((j : ℕ) → among j (i ∷ rest) ≡ true → a ≢ index_to_addr s.pool j)
      → r.1.words a ≡ s.words a
  pub errno : r.1.errno ≡ s.errno
  pub memory : SameMemory r.1.pool s.pool

-- the block behind `i` in the chain is the next free one
pub next_of :
    (is rest : List ℕ) (e n : ℕ)
    → rest ≡ is ++ upto e n
    → 0 < length rest
    → head_or is e ≡ head_or rest 0
next_of is [] e n eq h = absurd (omega arith)
next_of [] (r ∷ rest) e zero eq h = absurd (nonempty (r ∷ rest) eq h)
next_of [] (r ∷ rest) e (suc n) eq h = ap (λ l. head_or l 0) (sym eq)
next_of (i ∷ is) (r ∷ rest) e n eq h = ap (λ l. head_or l 0) (sym eq)

head-le :
    (address : ℕ → ℕ) (w : Words) (e n : ℕ) (chain : List ℕ)
    → Chain address w chain e
    → e ≤ n
    → head_or chain e ≤ n
head-le address w e n [] c h = h
head-le address w e n (i ∷ is) c h = let lt = c.0 in omega arith

pub first-le : (s : Store) (f : ℕ) (free : List ℕ) → IsPool s (f ∷ free) → f ≤ s.pool.block_count
first-le s f free is =
    let n = s.pool.block_count - s.pool.initialized_blocks_count in
    let same =
      next_of is.chain (f ∷ free) s.pool.initialized_blocks_count n is.blocks (omega arith) in
    subst (λ k. k ≤ s.pool.block_count) same
      (head-le (index_to_addr s.pool) s.words s.pool.initialized_blocks_count s.pool.block_count
        is.chain is.links is.initialized)

abbrev tail_of : List ℕ → List ℕ
tail_of [] = []
tail_of (i ∷ is) = is

-- the first block of a chain and what is behind it
split-Chain :
    (address : ℕ → ℕ) (w : Words) (e i : ℕ) (rest us chain : List ℕ)
    → 0 < length chain
    → i ∷ rest ≡ chain ++ us
    → Chain address w chain e
    → (w (address i) ≡ head_or (tail_of chain) e)
      × (rest ≡ tail_of chain ++ us)
      × Chain address w (tail_of chain) e
split-Chain address w e i rest us [] h eq c = absurd (omega arith)
split-Chain address w e i rest us (j ∷ js) h eq c =
    (ap (λ l. w (address (head_or l 0))) eq ∙ c.1, ap tail_of eq, c.3)

next_block-eq :
    (address : ℕ → ℕ) (count next : ℕ) (rest : List ℕ)
    → count ≡ length rest
    → (0 < length rest → next ≡ head_or rest 0)
    → (if ltb 0 count then address next else null)
      ≡ (if count == 0 then null else address (head_or rest 0))
next_block-eq address count next [] e h = rw (e) refl
next_block-eq address count next (r ∷ rest) e h =
    rw (lt→ltb 0 count (omega arith), ne→== count 0 (omega arith)) (ap address (h (omega arith)))

take_block-Taken :
    (s : Store) (i : ℕ) (rest : List ℕ) (is : IsPool s (i ∷ rest))
    → 0 < length is.chain
    → IsPool (take_block s).1 rest
      × ((take_block s).0 ≡ index_to_addr s.pool i)
      × ((take_block s).1.words ≡ s.words)
      × ((take_block s).1.errno ≡ s.errno)
      × SameMemory (take_block s).1.pool s.pool
unfolding take_block index_to_addr
take_block-Taken s i rest is h =
    let count : s.pool.free_blocks_count - 1 ≡ length rest = omega (arith, is.count) in
    let first : s.pool.next_block ≡ index_to_addr s.pool i =
      is.next
      ∙ ap (λ b. if b then null else index_to_addr s.pool i)
          (ne→== s.pool.free_blocks_count 0 (omega (arith, is.count))) in
    let n = s.pool.block_count - s.pool.initialized_blocks_count in
    let parts =
      split-Chain (index_to_addr s.pool) s.words s.pool.initialized_blocks_count i rest
        (upto s.pool.initialized_blocks_count n) is.chain h is.blocks is.links in
    rw (lt→ltb 0 s.pool.free_blocks_count (omega (arith, is.count))) (
      record {
        chain = tail_of is.chain;
        fits = record { word = is.fits.word; bytes = is.fits.bytes; start = is.fits.start };
        initialized = is.initialized;
        blocks = parts.1;
        links = parts.2;
        count = count;
        next =
            next_block-eq (index_to_addr s.pool) (s.pool.free_blocks_count - 1)
              (s.words s.pool.next_block) rest count
              λ some_left.
                ap s.words first
                ∙ parts.0
                ∙ next_of (tail_of is.chain) rest s.pool.initialized_blocks_count n parts.1
                    some_left;
      },
      first,
      refl,
      refl,
      (refl, refl, refl),
    )

index_to_addr-initialize :
    (s : Store) (i : ℕ) → index_to_addr (initialize_block s).pool i ≡ index_to_addr s.pool i
unfolding index_to_addr initialize_block
index_to_addr-initialize s i =
    elim (Bool-cases (ltb s.pool.initialized_blocks_count s.pool.block_count)) [
      | inl e ↦ rw e refl
      | inr e ↦ rw e refl
    ]

unchanged-initialize :
    (s : Store)
    → ((initialize_block s).errno ≡ s.errno) × SameMemory (initialize_block s).pool s.pool
unfolding initialize_block
unchanged-initialize s =
    elim (Bool-cases (ltb s.pool.initialized_blocks_count s.pool.block_count)) [
      | inl e ↦ rw e (refl, (refl, refl, refl))
      | inr e ↦ rw e (refl, (refl, refl, refl))
    ]

-- `cplus_mempool_alloc` hands out the first free block of a pool, at its address, which then has
-- the rest of the free blocks, in their order. It touches no word of a block that is in use.
pub cplus_mempool_alloc-Taken :
    (s : Store) (i : ℕ) (rest : List ℕ)
    → IsPool s (i ∷ rest)
    → Taken s i rest (cplus_mempool_alloc s)
unfolding cplus_mempool_alloc
cplus_mempool_alloc-Taken s i rest is =
    let ready = initialize_block-IsReady s (i ∷ rest) is in
    let taken =
      take_block-Taken (initialize_block s) i rest ready.pool (ready.ready (omega arith)) in
    record {
      address = taken.1 ∙ index_to_addr-initialize s i;
      pool = taken.0;
      frame = λ a out.
          ap (λ w. w a) taken.2 ∙ ready.frame a λ j b e. out j b (e ∙ index_to_addr-initialize s j);
      errno = taken.3 ∙ (unchanged-initialize s).0;
      memory =
          let before = (unchanged-initialize s).1 in
          (taken.4.0 ∙ before.0, taken.4.1 ∙ before.1, taken.4.2 ∙ before.2);
    }

pub all_initialized :
    (s : Store) → IsPool s [] → s.pool.block_count ≤ s.pool.initialized_blocks_count
all_initialized s is = let lengths = length-blocks s [] is in omega arith

-- Without a free block, `cplus_mempool_alloc` answers NULL, sets `errno` to ENOMEM and changes
-- nothing else.
pub cplus_mempool_alloc-exhausted :
    (s : Store) → IsPool s [] → cplus_mempool_alloc s ≡ (null, record s { errno = enomem })
unfolding cplus_mempool_alloc initialize_block take_block
cplus_mempool_alloc-exhausted s is =
    rw (le→ltb s.pool.initialized_blocks_count s.pool.block_count (all_initialized s is), is.count)
      refl
