-- ===== src/Mempool/Whole.antt =====
-- Pools of src/mempool.c from their creation on: what a new one holds, what clients may write, and
-- the calls by index.
use libcplus.Common.{
  ℕ, zero, suc, ◌-◌, ◌*◌, ◌%◌, ◌^◌, ◌<◌, ◌≤◌, ◌≡◌, ◌≢◌, refl, sym, ◌∙◌, ap, true, false, some, List,
  [], ◌∷◌, ◌++◌, arith, le→ltb, ne→==, Errno, enomem,
}
use libcplus.Mempool.{
  null, Mempool, Words, Store, index_to_addr, mempool_initialize_object, fresh_pool,
  cplus_mempool_new, cplus_mempool_alloc, cplus_mempool_alloc_as_index, cplus_mempool_get_index,
  cplus_mempool_free, cplus_mempool_free_by_index, cplus_mempool_get_addr_by_index, addr_to_index,
}
use libcplus.Mempool.Index.{addr_to_index-index_to_addr, index_to_addr-ne_null}
use libcplus.Mempool.Rep.{upto, among, head_or, Chain, IsPool}
use libcplus.Mempool.Count.{length-upto}
use libcplus.Mempool.Alloc.{
  SameMemory, first-le, cplus_mempool_alloc-Taken, cplus_mempool_alloc-exhausted,
}
use libcplus.Mempool.Free.{cplus_mempool_free-Freed}

head_or-upto : (n : ℕ) → head_or (upto 0 n) 0 ≡ 0
head_or-upto zero = refl
head_or-upto (suc n) = refl

module _ (obj : ℕ) (malloc : ℕ → ℕ) (errno : Errno) (block_count block_size : ℕ) (words : Words)
    (some_blocks : 0 < block_count) (word : 4 ≤ block_size)
    (bytes : block_size * block_count < 2 ^ 32) (object : obj ≢ null)
    (memory : malloc (block_count * block_size) ≢ null) where
  abbrev new_pool : Mempool
  new_pool = fresh_pool block_count block_size false (malloc (block_count * block_size))

  -- `cplus_mempool_new` of blocks that hold a word and add up to fewer than 2^32 bytes, when the memory
  -- is there, makes a pool with all its blocks free, in the order of their indices, whatever the
  -- memory contains.
  pub cplus_mempool_new-IsPool :
      (cplus_mempool_new obj malloc errno block_count block_size
        ≡ record { made = some new_pool; freed = []; errno = errno })
      × IsPool record { pool = new_pool; words = words; errno = errno } (upto 0 block_count)
  unfolding cplus_mempool_new mempool_initialize_object fresh_pool index_to_addr
  cplus_mempool_new-IsPool =
      let size : (block_count * block_size) % 2 ^ 32 ≡ block_count * block_size = omega arith in
      (
        rw
            (
              ne→== block_count 0 (omega arith),
              le→ltb block_size 4 word,
              ne→== obj null object,
              size,
              ne→== (malloc (block_count * block_size)) null memory,
            )
            refl,
        record {
          chain = [];
          fits = record { word = word; bytes = bytes; start = memory };
          initialized = omega arith;
          blocks = ap (upto 0) (omega arith);
          links = tt;
          count = sym (length-upto 0 block_count);
          next = rw (ne→== block_count 0 (omega arith), head_or-upto block_count) (omega arith);
        },
      )

Chain-client :
    (s : Store) (words : Words) (is us : List ℕ) (e : ℕ)
    → ((j : ℕ)
        → among j (is ++ us) ≡ true
        → words (index_to_addr s.pool j) ≡ s.words (index_to_addr s.pool j))
    → Chain (index_to_addr s.pool) s.words is e
    → Chain (index_to_addr s.pool) words is e
Chain-client s words [] us e same c = tt
Chain-client s words (i ∷ is) us e same c = (
  c.0,
  same i (ground arith) ∙ c.1,
  c.2,
  Chain-client s words is us e (λ j h. same j (ground arith)) c.3,
)

-- Clients may write whatever they want to the blocks in use: as long as they leave the words of the
-- free blocks alone, the pool keeps its free blocks.
pub IsPool-client :
    (s : Store) (free : List ℕ) (words : Words)
    → IsPool s free
    → ((j : ℕ)
        → among j free ≡ true
        → words (index_to_addr s.pool j) ≡ s.words (index_to_addr s.pool j))
    → IsPool (record s { words = words }) free
IsPool-client s free words is same = record {
  chain = is.chain;
  fits = is.fits;
  initialized = is.initialized;
  blocks = is.blocks;
  links =
      Chain-client s words is.chain
        (upto s.pool.initialized_blocks_count
          (s.pool.block_count - s.pool.initialized_blocks_count))
        s.pool.initialized_blocks_count (λ j h. same j (ap (among j) is.blocks ∙ h)) is.links;
  count = is.count;
  next = is.next;
}

addr_to_index-SameMemory :
    (mp nq : Mempool) (a : ℕ) → SameMemory mp nq → addr_to_index mp a ≡ addr_to_index nq a
unfolding addr_to_index
addr_to_index-SameMemory mp nq a same = rw (same.0, same.1) refl

-- On a pool with a free block, `cplus_mempool_alloc_as_index` answers the index of the first one
-- and takes it; the other free blocks keep their order.
pub cplus_mempool_alloc_as_index-first :
    (s : Store) (i : ℕ) (rest : List ℕ)
    → IsPool s (i ∷ rest)
    → ((cplus_mempool_alloc_as_index s).0 ≡ i) × IsPool (cplus_mempool_alloc_as_index s).1 rest
unfolding cplus_mempool_alloc_as_index cplus_mempool_get_index
cplus_mempool_alloc_as_index-first s i rest is =
    let taken = cplus_mempool_alloc-Taken s i rest is in
    let bound = first-le s i rest is in
    let answer : (cplus_mempool_alloc s).0 ≢ null =
      λ e. index_to_addr-ne_null s.pool is.fits i bound (sym taken.address ∙ e) in
    rw (ne→== (cplus_mempool_alloc s).0 null answer) (
      addr_to_index-SameMemory (cplus_mempool_alloc s).1.pool s.pool (cplus_mempool_alloc s).0
            taken.memory
          ∙ ap (addr_to_index s.pool) taken.address
          ∙ addr_to_index-index_to_addr s.pool is.fits i bound,
      taken.pool,
    )

-- Without a free block, `cplus_mempool_alloc_as_index` answers 0, which is also the index of the
-- first block, sets `errno` to ENOMEM and changes nothing else.
pub cplus_mempool_alloc_as_index-exhausted :
    (s : Store) → IsPool s [] → cplus_mempool_alloc_as_index s ≡ (0, record s { errno = enomem })
unfolding cplus_mempool_alloc_as_index
cplus_mempool_alloc_as_index-exhausted s is = rw (cplus_mempool_alloc-exhausted s is) refl

-- Freeing a block in use by its index and allocating one gives the same index back, and leaves the
-- same blocks free.
pub cplus_mempool_alloc_as_index-free_by_index :
    (s : Store) (free : List ℕ) (is : IsPool s free) (i : ℕ)
    → among i free ≡ false
    → i < s.pool.block_count
    → ((cplus_mempool_alloc_as_index (cplus_mempool_free_by_index i s).1).0 ≡ i)
      × IsPool (cplus_mempool_alloc_as_index (cplus_mempool_free_by_index i s).1).1 free
unfolding cplus_mempool_free_by_index cplus_mempool_get_addr_by_index
cplus_mempool_alloc_as_index-free_by_index s free is i used hi =
    let freed = cplus_mempool_free-Freed s free is i used hi in
    rw (ne→== (index_to_addr s.pool i) null (index_to_addr-ne_null s.pool is.fits i (omega arith)))
      (cplus_mempool_alloc_as_index-first (cplus_mempool_free (index_to_addr s.pool i) s).1 i free
        freed.pool)
