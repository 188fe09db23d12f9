-- ===== src/Memmgr/Tests.antt =====
-- Runs of src/memmgr.c on a list of one block.
use libcplus.Common.{
  true, false, ◌≡◌, refl, arith, none, some, pos, [], ◌∷◌, ◌++◌, ◌==◌, if◌then◌else◌, success,
}
use libcplus.Memmgr.{
  done, undefined, Manager, info, begchk, endchk, erase_mem_info, check_boundary, cplus_mgr_malloc,
  cplus_mgr_free,
}
use libcplus.Memmgr.Rep.{Cells, IsManager}
use libcplus.Memmgr.Erase.{without, Erases, erase_mem_info-without}
use libcplus.Memmgr.Calls.{cplus_mgr_free-twice, cplus_mgr_free-cplus_mgr_malloc}

abbrev one_block : Cells
one_block = (100, 204, 8) ∷ []

-- the block at 204, with its tags and its record at 100
abbrev manager : Manager
manager = record {
  infos = λ p. if p == 100 then some (info 204 8 0) else none;
  ptr_info_start = 100;
  ptr_info_last = 100;
  inused_mem_num = pos 1;
  tags = λ a. if a == 200 then begchk else if a == 212 then endchk else 0;
  owned = λ p. p == 200;
}

manager-IsManager : IsManager manager one_block
manager-IsManager = record {
  chain = (omega arith, refl, tt, tt);
  start = refl;
  end = refl;
  count = refl;
}

erase_mem_info-without_example :
    Erases manager (without 204 one_block) (erase_mem_info 2 manager 204)
erase_mem_info-without_example =
    erase_mem_info-without 2 manager one_block 204 manager-IsManager (omega arith) (omega arith)

cplus_mgr_free-cplus_mgr_malloc_example :
    (r r' : Manager) × (cplus_mgr_malloc 300 110 manager 16 ≡ some (304, r))
    × IsManager r (one_block ++ (110, 304, 16) ∷ [])
    × (check_boundary 3 r 300 ≡ some success)
    × (cplus_mgr_free 3 r 304 ≡ done success r')
    × IsManager r' one_block
    × (r.owned 300 ≡ true)
    × (r'.owned 300 ≡ false)
cplus_mgr_free-cplus_mgr_malloc_example =
    cplus_mgr_free-cplus_mgr_malloc 3 manager one_block 300 110 16 manager-IsManager (omega arith)
      (omega arith) (omega arith, tt) (omega arith, tt) (omega arith) (omega arith)

cplus_mgr_free-twice_example :
    (r r' : Manager) × (cplus_mgr_malloc 300 110 manager 16 ≡ some (304, r))
    × (cplus_mgr_free 3 r 304 ≡ done success r')
    × (check_boundary 3 r' 300 ≡ some success)
    × (cplus_mgr_free 3 r' 304 ≡ undefined)
cplus_mgr_free-twice_example =
    cplus_mgr_free-twice 3 manager one_block 300 110 16 manager-IsManager (omega arith)
      (omega arith) (omega arith, tt) (omega arith, tt) (omega arith) (omega arith)
