-- ===== src/Memmgr.antt =====
-- src/memmgr.c as it is built with __CPLUS_MEM_MANAGER__: a list of the live allocations, and a tag in
-- front of each block and behind it. The names of the caller's file and function,
-- the reports' text and `errno` are left out.
pub mod Rep
pub mod Records
pub mod Erase
pub mod Checks
pub mod Calls
mod Tests
use libcplus.Common.{
  ◌||◌, ℕ, zero, suc, ◌+◌, ◌-◌, ◌^◌, ◌%◌, Bool, true, false, not, Option, none, some, ℤ, Status,
  success, fail, Errno, no_error, einval, enomem, ltb, ◌==◌, if◌then◌else◌, increment, decrement,
}
use libcplus.Heap.{Ptr, null}

-- `struct extra_info`
pub record Info : Type 0 where
  pub mem_ref : Ptr
  pub mem_size : ℕ
  pub next : Ptr

abbrev pub Infos : Type 0
Infos = Ptr → Option Info

-- The static variables, with the structures on the list; the 32-bit words at the addresses where a tag
-- can stand; and the blocks that `malloc` or `realloc` gave and that are not freed. `inused_mem_num` is
-- an `int32_t`: the model is that of less than 2^31 records.
pub record Manager : Type 0 where
  pub infos : Infos
  pub ptr_info_start : Ptr
  pub ptr_info_last : Ptr
  pub inused_mem_num : ℤ
  pub tags : Ptr → ℕ
  pub owned : Ptr → Bool

abbrev pub begchk : ℕ
begchk = 0x1A2A_3A4A

abbrev pub endchk : ℕ
endchk = 0x5B6B_7B8B

abbrev pub clrchk : ℕ
clrchk = 0xABAB_ABAB

unfoldable pub put : Infos → Ptr → Option Info → Infos
put h p i q = if q == p then i else h q

abbrev pub put_tag : Manager → Ptr → ℕ → Manager
put_tag mgr a t = record mgr { tags = λ b. if b == a then t else mgr.tags b }

-- `mem` is given by the allocator, or taken back by it.
abbrev pub own : Manager → Ptr → Bool → Manager
own mgr mem b = record mgr { owned = λ p. if p == mem then b else mgr.owned p }

-- `none` is an access through NULL or to a structure that was freed, here and below.
unfoldable pub link : Option Info → Infos → Ptr → Ptr → Option Infos
unfolding put
link none h p q = none
link (some i) h p q = some (put h p (some (record i { next = q })))

-- `p->next = q`
unfoldable pub set_next : Infos → Ptr → Ptr → Option Infos
unfolding link
set_next h p q = if p == null then none else link (h p) h p q

-- the new structure behind the last one
unfoldable pub append : Manager → Ptr → Option Infos → Option Manager
append mgr p none = none
append mgr p (some h) =
    some
      (record mgr { infos = h; ptr_info_last = p; inused_mem_num = increment mgr.inused_mem_num })

abbrev pub info : Ptr → ℕ → Ptr → Info
info ref size q = record { mem_ref = ref; mem_size = size; next = q }

-- `fresh` is the address of the new structure, NULL when there is no memory for it; its callers do
-- not look at the result.
unfoldable pub add_mem_info : (fresh : Ptr) → Manager → Ptr → ℕ → Option Manager
unfolding append set_next
add_mem_info fresh mgr mem_ref size =
    let h = put mgr.infos fresh (some (info mem_ref size null)) in
    let first = record mgr {
      infos = h;
      ptr_info_start = fresh;
      ptr_info_last = fresh;
      inused_mem_num = increment mgr.inused_mem_num;
    } in
    if fresh == null
    then some mgr
    else if mgr.ptr_info_start == null
    then some first
    else append mgr fresh (set_next h mgr.ptr_info_last fresh)

-- the loop of `find_mem_info`
unfoldable pub find_from : ℕ → Infos → Ptr → Ptr → Option Ptr
find_from zero h p mem_addr = none
find_from (suc fuel) h p mem_addr = if p == null then some null else elim (h p) [
  | none ↦ none
  | some i ↦
      let rest = find_from fuel h i.next mem_addr in if i.mem_ref == mem_addr then some p else rest
]

-- the manager behind the change of the links
unfoldable pub dropped : Manager → Ptr → Option Infos → Option Manager
dropped mgr p none = none
dropped mgr p (some h) =
    some (record mgr { infos = put h p none; inused_mem_num = decrement mgr.inused_mem_num })

-- The structure at `p`, behind `prev`, is unlinked and freed.
unfoldable pub erase_at : Manager → Ptr → Ptr → Info → Option Manager
unfolding dropped set_next
erase_at mgr prev p i =
    if p == mgr.ptr_info_start
    then dropped (record mgr { ptr_info_start = i.next }) p (some mgr.infos)
    else if p == mgr.ptr_info_last
    then dropped (record mgr { ptr_info_last = prev }) p (set_next mgr.infos prev null)
    else dropped mgr p (set_next mgr.infos prev i.next)

-- the loop of `erase_mem_info`
unfoldable pub erase_from : ℕ → Manager → Ptr → Ptr → Ptr → Option Manager
unfolding erase_at
erase_from zero mgr prev p mem_addr = none
erase_from (suc fuel) mgr prev p mem_addr = if p == null then some mgr else elim (mgr.infos p) [
  | none ↦ none
  | some i ↦
      let rest = erase_from fuel mgr p i.next mem_addr in
      if i.mem_ref == mem_addr then erase_at mgr prev p i else rest
]

module _ (fuel : ℕ) where
  unfoldable pub find_mem_info : Manager → Ptr → Option Ptr
  unfolding find_from
  find_mem_info mgr mem_addr =
      if mem_addr == null then some null else find_from fuel mgr.infos mgr.ptr_info_start mem_addr

  unfoldable pub erase_mem_info : Manager → Ptr → Option Manager
  unfolding erase_from
  erase_mem_info mgr mem_addr =
      if mem_addr == null then some mgr else erase_from fuel mgr null mgr.ptr_info_start mem_addr

  unfoldable pub size_fits : ℕ → Option Info → Option Status
  size_fits size none = none
  size_fits size (some i) = some (if ltb i.mem_size size then fail else success)

  -- An address that is not on the list passes.
  unfoldable pub size_found : Manager → ℕ → Option Ptr → Option Status
  unfolding size_fits
  size_found mgr size none = none
  size_found mgr size (some p) = if p == null then some success else size_fits size (mgr.infos p)

  unfoldable pub check_size : Manager → Ptr → ℕ → Option Status
  unfolding size_found find_mem_info
  check_size mgr mem_addr size = size_found mgr size (find_mem_info mgr mem_addr)

  -- Each of the three failures prints its own report.
  unfoldable pub tags_hold : Manager → Ptr → Option Info → Option Status
  tags_hold mgr entire none = none
  tags_hold mgr entire (some i) = some (
      if mgr.tags entire == clrchk
      then fail
      else if not (mgr.tags entire == begchk)
      then fail
      else if not (mgr.tags (entire + 4 + i.mem_size) == endchk)
      then fail
      else success)

  unfoldable pub boundary_found : Manager → Ptr → Option Ptr → Option Status
  unfolding tags_hold
  boundary_found mgr entire none = none
  boundary_found mgr entire (some p) =
      if p == null then some success else tags_hold mgr entire (mgr.infos p)

  unfoldable pub check_boundary : Manager → Ptr → Option Status
  unfolding boundary_found find_mem_info
  check_boundary mgr entire = boundary_found mgr entire (find_mem_info mgr (entire + 4))

  unfoldable pub cplus_mgr_check_size : Manager → Ptr → ℕ → Option Status
  unfolding check_size
  cplus_mgr_check_size mgr ptr size =
      if ptr == null || size == 0 then some fail else check_size mgr ptr size

  unfoldable pub cplus_mgr_check_boundary : Manager → Ptr → Option Status
  unfolding check_boundary
  cplus_mgr_check_boundary mgr ptr = if ptr == null then some fail else check_boundary mgr (ptr - 4)

-- the block's address behind its front tag
unfoldable pub handed : Ptr → Option Manager → Option (Ptr × Manager)
handed mem none = none
handed mem (some m) = some (mem + 4, m)

-- The block gets its two tags and its record.
unfoldable pub tag_block : (mem fresh : Ptr) → Manager → ℕ → Option (Ptr × Manager)
unfolding handed add_mem_info
tag_block mem fresh mgr size = handed mem (
    add_mem_info fresh (put_tag (put_tag (own mgr mem true) mem begchk) (mem + 4 + size) endchk)
      (mem + 4) size)

-- `mem` is the address that `malloc` gives for the block with its tags.
unfoldable pub cplus_mgr_malloc : (mem fresh : Ptr) → Manager → ℕ → Option (Ptr × Manager)
unfolding tag_block
cplus_mgr_malloc mem fresh mgr size =
    if size == 0
    then some (null, mgr)
    else if mem == null
    then some (null, mgr)
    else tag_block mem fresh mgr size

unfoldable pub regrown : (mem fresh : Ptr) → ℕ → Option Manager → Option (Ptr × Manager)
unfolding tag_block
regrown mem fresh size none = none
regrown mem fresh size (some m) = if mem == null then some (null, m) else tag_block mem fresh m size

unfoldable pub realloc_checked :
    ℕ → (mem fresh : Ptr) → Manager → Ptr → ℕ → Option Status → Option (Ptr × Manager)
unfolding regrown erase_mem_info
realloc_checked fuel mem fresh mgr ptr size none = none
realloc_checked fuel mem fresh mgr ptr size (some fail) = none
realloc_checked fuel mem fresh mgr ptr size (some success) =
    let entire = ptr - 4 in
    if mgr.owned entire
    then regrown mem fresh size (erase_mem_info fuel (own mgr entire false) ptr)
    else none

-- There is no result where the assertion stops the program, or the block is not allocated.
-- `mem` is the address that `realloc` gives; when it is NULL, the old block is freed with its record.
unfoldable pub cplus_mgr_realloc :
    ℕ → (mem fresh : Ptr) → Manager → Ptr → ℕ → Option (Ptr × Manager)
unfolding realloc_checked check_boundary
cplus_mgr_realloc fuel mem fresh mgr ptr size =
    if ptr == null
    then some (null, mgr)
    else realloc_checked fuel mem fresh mgr ptr size (check_boundary fuel mgr (ptr - 4))

-- `cplus_mgr_free` ends with its result; or the assertion on the tags stops the program; or the tag is
-- written to, and `free` called on, a block that is not allocated, which is undefined.
pub data Freed : Type 0 where
  done : Status → Manager → Freed
  stopped undefined : Freed

-- `erase_mem_info`, then `free`
unfoldable pub freed : Ptr → Option Manager → Freed
freed entire none = undefined
freed entire (some m) = done success (own m entire false)

unfoldable pub free_checked : ℕ → Manager → Ptr → Option Status → Freed
unfolding erase_mem_info freed
free_checked fuel mgr ptr none = undefined
free_checked fuel mgr ptr (some fail) = stopped
free_checked fuel mgr ptr (some success) =
    let entire = ptr - 4 in
    if mgr.owned entire
    then freed entire (erase_mem_info fuel (put_tag mgr entire clrchk) ptr)
    else undefined

-- EINVAL, the result for NULL, is a failure.
unfoldable pub cplus_mgr_free : ℕ → Manager → Ptr → Freed
unfolding free_checked check_boundary
cplus_mgr_free fuel mgr ptr =
    if ptr == null
    then done fail mgr
    else free_checked fuel mgr ptr (check_boundary fuel mgr (ptr - 4))

-- the count that the report prints, and returns
unfoldable pub count_from : ℕ → Infos → Ptr → Option ℕ
count_from zero h p = none
count_from (suc fuel) h p = if p == null then some 0 else elim (h p) [
  | none ↦ none
  | some i ↦ elim (count_from fuel h i.next) [ none ↦ none | some n ↦ some (n + 1) ]
]

unfoldable pub cplus_mgr_report : ℕ → Manager → Option ℕ
unfolding count_from
cplus_mgr_report fuel mgr = count_from fuel mgr.infos mgr.ptr_info_start
