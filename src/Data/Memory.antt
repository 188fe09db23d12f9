-- ===== src/Data/Memory.antt =====
-- Blocks of bytes: `cplus_mem_cpy`, `cplus_mem_cpy_ex`, `cplus_mem_set` and the allocations of
-- src/memmgr.c, and the bytes of a word in memory.
use libcplus.Common.{
  ℕ, zero, suc, ◌+◌, ◌*◌, ◌/◌, ◌%◌, ◌^◌, ◌&&◌, ◌||◌, Option, none, some, List, [], ◌∷◌, ltb, leb,
  ◌==◌, if◌then◌else◌, length,
}

-- `RSIZE_MAX_MEM`
abbrev pub rsize_max_mem : ℕ
rsize_max_mem = 268435456

abbrev pub take {ℓ} : {A : Type ℓ} → ℕ → List A → List A
take zero xs = []
take (suc n) [] = []
take (suc n) (x ∷ xs) = x ∷ take n xs

-- the block with its first bytes replaced
abbrev pub overwrite : List ℕ → List ℕ → List ℕ
overwrite [] block = block
overwrite (x ∷ xs) [] = []
overwrite (x ∷ xs) (b ∷ block) = x ∷ overwrite xs block

-- The block behind a copy, the NULL that is returned for bad arguments, with EINVAL, or an access
-- outside a block.
pub data Copy : Type 0 where
  copied : List ℕ → Copy
  refused : Copy
  out_of_bounds : Copy

abbrev pub copy_bytes : List ℕ → List ℕ → ℕ → Copy
copy_bytes dest src count =
    if leb count (length src) && leb count (length dest)
    then copied (overwrite (take count src) dest)
    else out_of_bounds

unfoldable pub cplus_mem_cpy : Option (List ℕ) → Option (List ℕ) → ℕ → Copy
cplus_mem_cpy none src count = refused
cplus_mem_cpy (some dest) none count = refused
cplus_mem_cpy (some dest) (some src) count =
    if count == 0 then refused else copy_bytes dest src count

unfoldable pub cplus_mem_cpy_ex : Option (List ℕ) → ℕ → Option (List ℕ) → ℕ → Copy
cplus_mem_cpy_ex none destsz src count = refused
cplus_mem_cpy_ex (some dest) destsz none count = refused
cplus_mem_cpy_ex (some dest) destsz (some src) count =
    if destsz == 0 || ltb rsize_max_mem destsz || count == 0 || ltb destsz count
    then refused
    else copy_bytes dest src count

abbrev pub replicate : ℕ → ℕ → List ℕ
replicate zero b = []
replicate (suc n) b = b ∷ replicate n b

unfoldable pub cplus_mem_set : Option (List ℕ) → ℕ → ℕ → Copy
cplus_mem_set none b count = refused
cplus_mem_set (some dest) b count =
    if ltb rsize_max_mem count || count == 0
    then refused
    else if leb count (length dest)
    then copied (overwrite (replicate count b) dest)
    else out_of_bounds

-- What `malloc` answers to a size: NULL, or a block with the bytes that were there before.
abbrev pub Malloc : Type 0
Malloc = ℕ → Option (List ℕ)

-- `cplus_realloc`: the bytes of the old block stay, and on failure it is freed.
abbrev pub moved : List ℕ → ℕ → Option (List ℕ) → Option (List ℕ)
moved old size none = none
moved old size (some fresh) = some (overwrite (take size old) fresh)

abbrev pub cplus_realloc : Malloc → List ℕ → ℕ → Option (List ℕ)
cplus_realloc malloc old size = moved old size (malloc size)

-- the bytes of a word in memory, the lowest first
abbrev pub to_bytes : ℕ → ℕ → List ℕ
to_bytes zero w = []
to_bytes (suc n) w = w % 256 ∷ to_bytes n (w / 256)

abbrev pub of_bytes : List ℕ → ℕ
of_bytes [] = 0
of_bytes (b ∷ bs) = b + 256 * of_bytes bs

-- `uint32_t` arithmetic
abbrev pub u32 : ℕ → ℕ
u32 n = n % 2 ^ 32
