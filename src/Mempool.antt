-- ===== src/Mempool.antt =====
-- src/mempool.c: a pool of equal blocks whose free blocks are chained through their first words.
-- One call is one step, as the spin lock makes it; what `cplus_malloc` returned is an argument.
pub mod Index
pub mod Rep
pub mod Count
pub mod Initialize
pub mod Alloc
pub mod Free
pub mod Whole
mod Tests
use libcplus.Common.{
  ℕ, zero, suc, ◌+◌, ◌-◌, ◌*◌, ◌/◌, ◌%◌, ◌^◌, Bool, true, false, Option, none, some, List, [], ◌∷◌,
  ltb, ◌==◌, if◌then◌else◌, Status, success, fail, Errno, einval, enomem,
}

abbrev pub null : ℕ
null = 0

-- `struct mempool`, without the type tag and the spin lock
pub record Mempool : Type 0 where
  pub block_count : ℕ
  pub block_size : ℕ
  pub free_blocks_count : ℕ
  pub initialized_blocks_count : ℕ
  pub mem_start : ℕ
  pub next_block : ℕ
  pub thread_safe : Bool

-- the `uint32_t` at each address
abbrev pub Words : Type 0
Words = ℕ → ℕ

unfoldable pub write_word : Words → ℕ → ℕ → Words
write_word w a v b = if b == a then v else w b

-- the pool, the memory and `errno`
pub record Store : Type 0 where
  pub pool : Mempool
  pub words : Words
  pub errno : Errno

unfoldable pub index_to_addr : Mempool → ℕ → ℕ
index_to_addr mp index = mp.mem_start + (mp.block_size * index) % 2 ^ 32

-- the pointer difference wraps at 64 bits, and its cast at 32
unfoldable pub addr_to_index : Mempool → ℕ → ℕ
addr_to_index mp addr = ((2 ^ 64 + addr - mp.mem_start) % 2 ^ 32) / mp.block_size

unfoldable pub cplus_mempool_get_free_blocks_count : Store → ℕ
cplus_mempool_get_free_blocks_count s = s.pool.free_blocks_count

unfoldable pub cplus_mempool_free : ℕ → Store → Status × Store
cplus_mempool_free addr s =
    if addr == null
    then (fail, record s { errno = einval })
    else (let mp = s.pool in
        let word =
          if mp.next_block == null then mp.block_count else addr_to_index mp mp.next_block in
        (
          success,
          record s {
            words = write_word s.words addr word;
            pool = record mp {
              next_block = addr;
              free_blocks_count = (mp.free_blocks_count + 1) % 2 ^ 32;
            };
          },
        ))

-- the first part of `cplus_mempool_alloc`: one more block joins the end of the chain
unfoldable pub initialize_block : Store → Store
initialize_block s =
    let mp = s.pool in
    if ltb mp.initialized_blocks_count mp.block_count
    then record s {
      words =
          write_word s.words (index_to_addr mp mp.initialized_blocks_count)
            ((mp.initialized_blocks_count + 1) % 2 ^ 32);
      pool = record mp { initialized_blocks_count = (mp.initialized_blocks_count + 1) % 2 ^ 32 };
    }
    else s

-- the second part: the first block of the chain is taken
unfoldable pub take_block : Store → ℕ × Store
take_block s =
    let mp = s.pool in
    if ltb 0 mp.free_blocks_count
    then (
      mp.next_block,
      record s {
        pool = record mp {
          free_blocks_count = mp.free_blocks_count - 1;
          next_block =
              if ltb 0 (mp.free_blocks_count - 1)
              then index_to_addr mp (s.words mp.next_block)
              else null;
        };
      },
    )
    else (null, record s { errno = enomem })

unfoldable pub cplus_mempool_alloc : Store → ℕ × Store
cplus_mempool_alloc s = take_block (initialize_block s)

-- NULL gives `CPLUS_FAIL`, which is -1, as a `uint32_t`.
unfoldable pub cplus_mempool_get_index : ℕ → Store → ℕ × Store
cplus_mempool_get_index addr s =
    if addr == null
    then (4294967295, record s { errno = einval })
    else (addr_to_index s.pool addr, s)

unfoldable pub cplus_mempool_get_addr_by_index : ℕ → Store → ℕ
cplus_mempool_get_addr_by_index index s = index_to_addr s.pool index

-- Without a free block the result is index 0, as it is for the first block.
unfoldable pub cplus_mempool_alloc_as_index : Store → ℕ × Store
cplus_mempool_alloc_as_index s =
    let r = cplus_mempool_alloc s in
    if r.0 == null then (0, r.1) else cplus_mempool_get_index r.0 r.1

unfoldable pub cplus_mempool_free_by_index : ℕ → Store → Status × Store
cplus_mempool_free_by_index index s =
    let addr = cplus_mempool_get_addr_by_index index s in
    if addr == null then (fail, s) else cplus_mempool_free addr s

-- the addresses that `cplus_mempool_delete` frees, for a pool at `obj`
unfoldable pub cplus_mempool_delete : ℕ → Mempool → List ℕ
cplus_mempool_delete obj mp = if mp.mem_start == null then obj ∷ [] else mp.mem_start ∷ obj ∷ []

-- what a constructor leaves: the pool, or none; the addresses it freed again; and `errno`
pub record Creation : Type 0 where
  pub made : Option Mempool
  pub freed : List ℕ
  pub errno : Errno

unfoldable pub fresh_pool : ℕ → ℕ → Bool → ℕ → Mempool
fresh_pool block_count block_size thread_safe mem_start = record {
  block_count = block_count;
  block_size = block_size;
  free_blocks_count = block_count;
  initialized_blocks_count = 0;
  mem_start = mem_start;
  next_block = mem_start;
  thread_safe = thread_safe;
}

-- `obj` is what `cplus_malloc` returned for the structure, `malloc` what it returns for a number
-- of bytes.
unfoldable pub mempool_initialize_object : ℕ → (ℕ → ℕ) → Errno → ℕ → ℕ → Bool → Creation
mempool_initialize_object obj malloc errno block_count block_size thread_safe =
    let mem_start = malloc ((block_count * block_size) % 2 ^ 32) in
    let mp = fresh_pool block_count block_size thread_safe mem_start in
    if obj == null
    then record { made = none; freed = []; errno = enomem }
    else if mem_start == null
    then record { made = none; freed = cplus_mempool_delete obj mp; errno = enomem }
    else record { made = some mp; freed = []; errno = errno }

unfoldable pub cplus_mempool_new : ℕ → (ℕ → ℕ) → Errno → ℕ → ℕ → Creation
cplus_mempool_new obj malloc errno block_count block_size =
    if block_count == 0
    then record { made = none; freed = []; errno = einval }
    else if ltb block_size 4
    then record { made = none; freed = []; errno = einval }
    else mempool_initialize_object obj malloc errno block_count block_size false

unfoldable pub cplus_mempool_new_s : ℕ → (ℕ → ℕ) → Errno → ℕ → ℕ → Creation
cplus_mempool_new_s obj malloc errno block_count block_size =
    if block_count == 0
    then record { made = none; freed = []; errno = einval }
    else if ltb block_size 4
    then record { made = none; freed = []; errno = einval }
    else mempool_initialize_object obj malloc errno block_count block_size true
