-- ===== src/Mempool/Tests.antt =====
-- Runs of src/mempool.c on a pool of two blocks of 8 bytes, and its theorems there.
use libcplus.Common.{ℕ, ◌≡◌, refl, true, false, some, [], ◌∷◌, ◌==◌, if◌then◌else◌, arith, no_error}
use libcplus.Mempool.{
  Mempool, Store, index_to_addr, fresh_pool, cplus_mempool_new, cplus_mempool_alloc,
  cplus_mempool_free,
}
use libcplus.Mempool.Index.{Fits}
use libcplus.Mempool.Rep.{among, IsPool}
use libcplus.Mempool.Alloc.{Taken, cplus_mempool_alloc-Taken}
use libcplus.Mempool.Free.{Freed, cplus_mempool_free-Freed}
use libcplus.Mempool.Whole.{cplus_mempool_new-IsPool}

abbrev pool_of : (free_blocks initialized next : ℕ) → Mempool
pool_of free_blocks initialized next = record {
  block_count = 2;
  block_size = 8;
  free_blocks_count = free_blocks;
  initialized_blocks_count = initialized;
  mem_start = 100;
  next_block = next;
  thread_safe = false;
}

abbrev store_of : (free_blocks initialized next : ℕ) → Store
store_of free_blocks initialized next = record {
  pool = pool_of free_blocks initialized next;
  words = λ a. if a == 100 then 1 else 0;
  errno = no_error;
}

pool_of-Fits : (free_blocks initialized next : ℕ) → Fits (pool_of free_blocks initialized next)
pool_of-Fits free_blocks initialized next = record {
  word = omega arith;
  bytes = omega arith;
  start = omega arith;
}

-- block 0 is in use, then both are
abbrev one_free : Store
one_free = store_of 1 1 108

abbrev none_free : Store
none_free = store_of 0 2 0

one_free-IsPool : IsPool one_free (1 ∷ [])
unfolding index_to_addr
one_free-IsPool = record {
  chain = [];
  fits = pool_of-Fits 1 1 108;
  initialized = omega arith;
  blocks = refl;
  links = tt;
  count = refl;
  next = refl;
}

none_free-IsPool : IsPool none_free []
none_free-IsPool = record {
  chain = [];
  fits = pool_of-Fits 0 2 0;
  initialized = omega arith;
  blocks = refl;
  links = tt;
  count = refl;
  next = refl;
}

cplus_mempool_alloc-Taken_example : Taken one_free 1 [] (cplus_mempool_alloc one_free)
cplus_mempool_alloc-Taken_example = cplus_mempool_alloc-Taken one_free 1 [] one_free-IsPool

cplus_mempool_free-Freed_example :
    Freed one_free 0 (1 ∷ []) (cplus_mempool_free (index_to_addr one_free.pool 0) one_free)
cplus_mempool_free-Freed_example =
    cplus_mempool_free-Freed one_free (1 ∷ []) one_free-IsPool 0 refl (omega arith)

cplus_mempool_new-IsPool_example :
    (cplus_mempool_new 50 (λ _. 100) no_error 2 8
      ≡ record { made = some (fresh_pool 2 8 false 100); freed = []; errno = no_error })
    × IsPool
        record { pool = fresh_pool 2 8 false 100; words = λ _. 7; errno = no_error }
        (0 ∷ 1 ∷ [])
cplus_mempool_new-IsPool_example =
    cplus_mempool_new-IsPool 50 (λ _. 100) no_error 2 8 (λ _. 7) (omega arith) (omega arith)
      (omega arith) (omega arith) (omega arith)

client_same :
    (j : ℕ)
    → among j (1 ∷ []) ≡ true
    → (if index_to_addr one_free.pool j == 100 then 77 else 0)
      ≡ one_free.words (index_to_addr one_free.pool j)
unfolding index_to_addr
client_same j h = let one : j ≡ 1 = ground arith in rw one refl
