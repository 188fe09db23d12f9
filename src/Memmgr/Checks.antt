-- ===== src/Memmgr/Checks.antt =====
-- The checks of src/memmgr.c on a block that is on its list.
use libcplus.Common.{
  Bool, ltb, fail, if◌then◌else◌, ℕ, ◌+◌, ◌<◌, ◌≡◌, ◌≢◌, refl, ap, arith, some, [], ◌∷◌, ◌++◌,
  length, length-append, ne→==, eq→==, success,
}
use libcplus.Heap.{Ptr, null}
use libcplus.Memmgr.{
  own, check_size, size_found, size_fits, Manager, begchk, endchk, put_tag, tags_hold,
  boundary_found, check_boundary,
}
use libcplus.Memmgr.Rep.{Cells, IsManager, Chain-split}
use libcplus.Memmgr.Records.{address_of, find_mem_info-address_of}
use libcplus.Memmgr.Erase.{without}

-- no record for that block
abbrev pub NoBlock : Ptr → Cells → Type 0
NoBlock a [] = Unit
NoBlock a (c ∷ cs) = (c.1 ≢ a) × NoBlock a cs

pub address_of-none : (a : Ptr) (xs : Cells) → NoBlock a xs → address_of a xs ≡ null
address_of-none a [] n = refl
address_of-none a (c ∷ cs) n = rw (ne→== c.1 a n.0) (address_of-none a cs n.1)

pub without-none : (a : Ptr) (xs : Cells) → NoBlock a xs → without a xs ≡ xs
without-none a [] n = refl
without-none a (c ∷ cs) n = rw (ne→== c.1 a n.0) (ap (λ ys. c ∷ ys) (without-none a cs n.1))

module _ (p a : Ptr) (size : ℕ) where
  pub address_of-last : (xs : Cells) → NoBlock a xs → address_of a (xs ++ (p, a, size) ∷ []) ≡ p
  address_of-last [] n = rw (eq→== a a refl) refl
  address_of-last (c ∷ cs) n = rw (ne→== c.1 a n.0) (address_of-last cs n.1)

  pub without-last : (xs : Cells) → NoBlock a xs → without a (xs ++ (p, a, size) ∷ []) ≡ xs
  without-last [] n = rw (eq→== a a refl) refl
  without-last (c ∷ cs) n = rw (ne→== c.1 a n.0) (ap (λ ys. c ∷ ys) (without-last cs n.1))

-- Writing a tag changes no record.
pub IsManager-put_tag :
    (mgr : Manager) (xs : Cells) (p : Ptr) (t : ℕ)
    → IsManager mgr xs
    → IsManager (put_tag mgr p t) xs
IsManager-put_tag mgr xs p t is = record {
  chain = is.chain;
  start = is.start;
  end = is.end;
  count = is.count;
}

-- Nor does an allocation or a release of the allocator.
pub IsManager-own :
    (mgr : Manager) (xs : Cells) (p : Ptr) (b : Bool)
    → IsManager mgr xs
    → IsManager (own mgr p b) xs
IsManager-own mgr xs p b is = record {
  chain = is.chain;
  start = is.start;
  end = is.end;
  count = is.count;
}

-- A block that is on the list passes if both of its tags are there.
pub check_boundary-tagged :
    (fuel : ℕ) (mgr : Manager) (xs : Cells) (p mem : Ptr) (size : ℕ)
    → IsManager mgr (xs ++ (p, mem + 4, size) ∷ [])
    → NoBlock (mem + 4) xs
    → length xs + 1 < fuel
    → mgr.tags mem ≡ begchk
    → mgr.tags (mem + 4 + size) ≡ endchk
    → check_boundary fuel mgr mem ≡ some success
unfolding check_boundary boundary_found tags_hold
check_boundary-tagged fuel mgr xs p mem size is n enough b e =
    let ys = xs ++ (p, mem + 4, size) ∷ [] in
    let long : length ys < fuel = omega (arith, length-append xs ((p, mem + 4, size) ∷ [])) in
    let cell = (Chain-split mgr.infos xs ((p, mem + 4, size) ∷ []) null is.chain).1 in
    rw
      (
        find_mem_info-address_of fuel mgr ys (mem + 4) is (omega arith) long,
        address_of-last p (mem + 4) size xs n,
        ne→== p null cell.0,
        cell.1,
        b,
        e,
      )
      refl

-- A write to a block that is on the list passes exactly if it is within the block's size.
pub check_size-size :
    (fuel : ℕ) (mgr : Manager) (xs : Cells) (p a : Ptr) (size n : ℕ)
    → IsManager mgr (xs ++ (p, a, size) ∷ [])
    → a ≢ null
    → NoBlock a xs
    → length xs + 1 < fuel
    → check_size fuel mgr a n ≡ some (if ltb size n then fail else success)
unfolding check_size size_found size_fits
check_size-size fuel mgr xs p a size n is na none_before enough =
    let ys = xs ++ (p, a, size) ∷ [] in
    let long : length ys < fuel = omega (arith, length-append xs ((p, a, size) ∷ [])) in
    let cell = (Chain-split mgr.infos xs ((p, a, size) ∷ []) null is.chain).1 in
    rw
      (
        find_mem_info-address_of fuel mgr ys a is na long,
        address_of-last p a size xs none_before,
        ne→== p null cell.0,
        cell.1,
      )
      refl
