-- ===== src/Memmgr/Calls.antt =====
-- Allocating, reallocating and freeing a block with src/memmgr.c.
use libcplus.Common.{
  Bool, true, false, none, if◌then◌else◌, ◌==◌, ℕ, zero, suc, ◌+◌, ◌-◌, ◌<◌, ◌≡◌, ◌≢◌, refl, ◌∙◌,
  ap, arith, Option, some, [], ◌∷◌, ◌++◌, length, length-append, inl, inr, Bool-cases, ne→==, eq→==,
  Status, success,
}
use mathlib.Core.Path.{subst}
use libcplus.Heap.{Ptr, null}
use libcplus.Memmgr.{
  own, done, undefined, Infos, Manager, begchk, endchk, clrchk, put_tag, erase_mem_info,
  boundary_found, check_boundary, cplus_mgr_malloc, tag_block, handed, regrown, realloc_checked,
  cplus_mgr_realloc, freed, free_checked, cplus_mgr_free, count_from, cplus_mgr_report,
}
use libcplus.Memmgr.Rep.{Cells, first, Absent, Chain, IsManager}
use libcplus.Memmgr.Records.{add_mem_info-IsManager, find_mem_info-address_of}
use libcplus.Memmgr.Erase.{append_nil, without, erase_mem_info-without}
use libcplus.Memmgr.Checks.{
  NoBlock, address_of-none, without-last, IsManager-put_tag, IsManager-own, check_boundary-tagged,
}

-- Freeing an allocated block whose tags pass takes the first record for it off the list.
free-without :
    (fuel : ℕ) (mgr : Manager) (ys : Cells) (mem : Ptr)
    → IsManager mgr ys
    → length ys < fuel
    → check_boundary fuel mgr mem ≡ some success
    → mgr.owned mem ≡ true
    → (r : Manager) × (cplus_mgr_free fuel mgr (mem + 4) ≡ done success r)
      × IsManager r (without (mem + 4) ys)
      × (r.owned mem ≡ false)
unfolding cplus_mgr_free free_checked freed
free-without fuel mgr ys mem is enough passes owns =
    let back : mem + 4 - 4 ≡ mem = omega arith in
    let tagged = put_tag mgr mem clrchk in
    let r =
      erase_mem_info-without fuel tagged ys (mem + 4) (IsManager-put_tag mgr ys mem clrchk is)
        (omega arith) enough in
    (
      own r.0 mem false,
      rw (ne→== (mem + 4) null (omega arith)) (
          ap (λ (o : Option Status). free_checked fuel mgr (mem + 4) o)
            (ap (check_boundary fuel mgr) back ∙ passes)
          ∙ ap
              (λ (q : Ptr).
                if mgr.owned q
                then freed q (erase_mem_info fuel (put_tag mgr q clrchk) (mem + 4))
                else undefined)
              back
          ∙ ap
              (λ (b : Bool).
                if b then freed mem (erase_mem_info fuel tagged (mem + 4)) else undefined)
              owns
          ∙ ap (freed mem) r.1),
      IsManager-own r.0 (without (mem + 4) ys) mem false r.2,
      rw (eq→== mem mem refl) refl,
    )

-- The check of the tags lets every block pass that is not on the list, and a block that is not allocated
-- is then tagged and freed again.
free-again :
    (fuel : ℕ) (mgr : Manager) (xs : Cells) (mem : Ptr)
    → IsManager mgr xs
    → NoBlock (mem + 4) xs
    → length xs < fuel
    → mgr.owned mem ≡ false
    → (check_boundary fuel mgr mem ≡ some success) × (cplus_mgr_free fuel mgr (mem + 4) ≡ undefined)
unfolding check_boundary boundary_found cplus_mgr_free free_checked
free-again fuel mgr xs mem is n enough gone =
    let back : mem + 4 - 4 ≡ mem = omega arith in
    let passes : check_boundary fuel mgr mem ≡ some success =
      rw
        (
          find_mem_info-address_of fuel mgr xs (mem + 4) is (omega arith) enough,
          address_of-none (mem + 4) xs n,
        )
        refl in
    (
      passes,
      rw (ne→== (mem + 4) null (omega arith)) (
          ap (λ (o : Option Status). free_checked fuel mgr (mem + 4) o)
            (ap (check_boundary fuel mgr) back ∙ passes)
          ∙ ap
              (λ (q : Ptr).
                if mgr.owned q
                then freed q (erase_mem_info fuel (put_tag mgr q clrchk) (mem + 4))
                else undefined)
              back
          ∙ ap
              (λ (b : Bool).
                if b
                then freed mem (erase_mem_info fuel (put_tag mgr mem clrchk) (mem + 4))
                else undefined)
              gone),
    )

-- A block that is allocated is put on the list behind the others, passes the check of its tags, and
-- freeing it succeeds, gives it back to the allocator, and gives the list from before. The block's address
-- has no record yet, and there is memory for the block and its record.
pub cplus_mgr_free-cplus_mgr_malloc :
    (fuel : ℕ) (mgr : Manager) (xs : Cells) (mem fresh : Ptr) (size : ℕ)
    → IsManager mgr xs
    → mem ≢ null
    → fresh ≢ null
    → Absent fresh xs
    → NoBlock (mem + 4) xs
    → 0 < size
    → length xs + 1 < fuel
    → (r r' : Manager) × (cplus_mgr_malloc mem fresh mgr size ≡ some (mem + 4, r))
      × IsManager r (xs ++ (fresh, mem + 4, size) ∷ [])
      × (check_boundary fuel r mem ≡ some success)
      × (cplus_mgr_free fuel r (mem + 4) ≡ done success r')
      × IsManager r' xs
      × (r.owned mem ≡ true)
      × (r'.owned mem ≡ false)
unfolding cplus_mgr_malloc tag_block handed
cplus_mgr_free-cplus_mgr_malloc fuel mgr xs mem fresh size is nm nf absent n some_size enough =
    let ys = xs ++ (fresh, mem + 4, size) ∷ [] in
    let owner = own mgr mem true in
    let tagged = put_tag (put_tag owner mem begchk) (mem + 4 + size) endchk in
    let made =
      add_mem_info-IsManager fresh tagged xs (mem + 4) size
        (IsManager-put_tag (put_tag owner mem begchk) xs (mem + 4 + size) endchk
          (IsManager-put_tag owner xs mem begchk (IsManager-own mgr xs mem true is)))
        nf absent in
    let front : tagged.tags mem ≡ begchk =
      rw (ne→== mem (mem + 4 + size) (omega arith), eq→== mem mem refl) refl in
    let back : tagged.tags (mem + 4 + size) ≡ endchk =
      rw (eq→== (mem + 4 + size) (mem + 4 + size) refl) refl in
    let passes =
      check_boundary-tagged fuel made.0 xs fresh mem size made.2 n enough
        (ap (λ (t : Ptr → ℕ). t mem) made.3 ∙ front)
        (ap (λ (t : Ptr → ℕ). t (mem + 4 + size)) made.3 ∙ back) in
    let owns : made.0.owned mem ≡ true =
      ap (λ (o : Ptr → Bool). o mem) made.4 ∙ rw (eq→== mem mem refl) refl in
    let freed =
      free-without fuel made.0 ys mem made.2
        (omega (arith, length-append xs ((fresh, mem + 4, size) ∷ []))) passes owns in
    (
      made.0,
      freed.0,
      rw (ne→== size 0 (omega arith), ne→== mem null nm, made.1) refl,
      made.2,
      passes,
      freed.1,
      subst (IsManager freed.0) (without-last fresh (mem + 4) size xs n) freed.2,
      owns,
      freed.3,
    )

-- A double free is not reported: when a block has been allocated and freed, the check of its tags lets it
-- pass, since its record is gone, and freeing it again writes a tag in front of a block that is not
-- allocated and frees that, which is undefined. The block's size is not 0, its
-- address has no record yet, and there is memory for the block and its record.
pub cplus_mgr_free-twice :
    (fuel : ℕ) (mgr : Manager) (xs : Cells) (mem fresh : Ptr) (size : ℕ)
    → IsManager mgr xs
    → mem ≢ null
    → fresh ≢ null
    → Absent fresh xs
    → NoBlock (mem + 4) xs
    → 0 < size
    → length xs + 1 < fuel
    → (r r' : Manager) × (cplus_mgr_malloc mem fresh mgr size ≡ some (mem + 4, r))
      × (cplus_mgr_free fuel r (mem + 4) ≡ done success r')
      × (check_boundary fuel r' mem ≡ some success)
      × (cplus_mgr_free fuel r' (mem + 4) ≡ undefined)
cplus_mgr_free-twice fuel mgr xs mem fresh size is nm nf absent n some_size enough =
    let once =
      cplus_mgr_free-cplus_mgr_malloc fuel mgr xs mem fresh size is nm nf absent n some_size
        enough in
    let again = free-again fuel once.1 xs mem once.6 n (omega arith) once.8 in
    (once.0, once.1, once.2, once.5, again.0, again.1)

-- Reallocating an allocated block whose tags pass takes its record off the list, and puts the one of the new block
-- behind the others, if there is memory for both; if not for the block, the record is gone and NULL
-- handed out.
pub cplus_mgr_realloc-without :
    (fuel : ℕ) (mgr : Manager) (ys : Cells) (mem fresh entire : Ptr) (size : ℕ)
    → IsManager mgr ys
    → length ys < fuel
    → check_boundary fuel mgr entire ≡ some success
    → mgr.owned entire ≡ true
    → fresh ≢ null
    → Absent fresh (without (entire + 4) ys)
    → (r : Manager) × (cplus_mgr_realloc fuel mem fresh mgr (entire + 4) size
        ≡ some ((if mem == null then null else mem + 4), r))
      × IsManager r
          (without (entire + 4) ys ++ (if mem == null then [] else (fresh, mem + 4, size) ∷ []))
unfolding cplus_mgr_realloc realloc_checked regrown tag_block handed
cplus_mgr_realloc-without fuel mgr ys mem fresh entire size is enough passes owns nf absent =
    let back : entire + 4 - 4 ≡ entire = omega arith in
    let gone = own mgr entire false in
    let erased =
      erase_mem_info-without fuel gone ys (entire + 4) (IsManager-own mgr ys entire false is)
        (omega arith) enough in
    let rest = without (entire + 4) ys in
    let owner = own erased.0 mem true in
    let tagged = put_tag (put_tag owner mem begchk) (mem + 4 + size) endchk in
    let made =
      add_mem_info-IsManager fresh tagged rest (mem + 4) size
        (IsManager-put_tag (put_tag owner mem begchk) rest (mem + 4 + size) endchk
          (IsManager-put_tag owner rest mem begchk (IsManager-own erased.0 rest mem true erased.2)))
        nf absent in
    let run : cplus_mgr_realloc fuel mem fresh mgr (entire + 4) size
        ≡ regrown mem fresh size (some erased.0) =
      rw (ne→== (entire + 4) null (omega arith)) (
        ap (λ (o : Option Status). realloc_checked fuel mem fresh mgr (entire + 4) size o)
          (ap (check_boundary fuel mgr) back ∙ passes)
        ∙ ap
            (λ (q : Ptr).
              if mgr.owned q
              then regrown mem fresh size (erase_mem_info fuel (own mgr q false) (entire + 4))
              else none)
            back
        ∙ ap
            (λ (b : Bool).
              if b then regrown mem fresh size (erase_mem_info fuel gone (entire + 4)) else none)
            owns
        ∙ ap (regrown mem fresh size) erased.1) in
    elim (Bool-cases (mem == null)) [
      | inl e ↦ (erased.0, run ∙ rw e refl, rw (e, append_nil rest) erased.2)
      | inr e ↦ (made.0, run ∙ rw (e, made.1) refl, rw e made.2)
    ]

-- The report counts the records.
pub cplus_mgr_report-length :
    (fuel : ℕ) (mgr : Manager) (xs : Cells)
    → IsManager mgr xs
    → length xs < fuel
    → cplus_mgr_report fuel mgr ≡ some (length xs)
unfolding cplus_mgr_report
cplus_mgr_report-length fuel mgr xs is enough =
    rw is.start (counts fuel mgr.infos xs is.chain enough)
  where
    counts :
        (k : ℕ) (h : Infos) (ys : Cells)
        → Chain h ys null
        → length ys < k
        → count_from k h (first ys null) ≡ some (length ys)
    counts zero h ys s f = absurd (omega arith)
    counts (suc k) h [] s f = refl
    counts (suc k) h (c ∷ cs) s f =
        rw (ne→== c.0 null s.0, s.1, counts k h cs s.3 (omega arith)) (ap some (omega arith))
