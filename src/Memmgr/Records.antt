-- ===== src/Memmgr/Records.antt =====
-- Adding and finding a record of src/memmgr.c.
use libcplus.Common.{
  ℕ, zero, suc, ◌<◌, ◌≡◌, ◌≢◌, refl, sym, ◌∙◌, ap, arith, some, pos, [], ◌∷◌, ◌++◌, inl, inr, ◌==◌,
  if◌then◌else◌, length, length-append, ne→==, Bool-cases, increment,
}
use libcplus.Heap.{Ptr, null}
use libcplus.Memmgr.{Infos, Manager, info, put, append, add_mem_info, find_from, find_mem_info}
use libcplus.Memmgr.Rep.{
  Cell, Cells, first, last, Absent, Chain, IsManager, put-here, Chain-put, Absent-last, Apart,
  Chain-join, Chain-relink,
}

pub Chain-frame :
    (h g : Infos) (l : Ptr) (ys : Cells) (e : Ptr)
    → ((p : Ptr) → p ≢ l → g p ≡ h p)
    → Absent l ys
    → Chain h ys e
    → Chain g ys e
Chain-frame h g l [] e f a s = tt
Chain-frame h g l (c ∷ cs) e f a s = (s.0, f c.0 a.0 ∙ s.1, s.2, Chain-frame h g l cs e f a.1 s.3)

pub Apart-last : (c : Cell) (cs ys : Cells) → Apart (c ∷ cs) ys → Absent (last c.0 cs) ys
Apart-last c [] ys a = a.0
Apart-last c (d ∷ cs) ys a = Apart-last d cs ys a.1

pub Apart-one : (c : Cell) (xs : Cells) → Absent c.0 xs → Apart xs (c ∷ [])
Apart-one c [] a = tt
Apart-one c (d ∷ xs) a = ((λ (e : c.0 ≡ d.0). a.0 (sym e), tt), Apart-one c xs a.1)

pub last-append :
    (b : Ptr) (xs : Cells) (c : Cell) (cs : Cells) → last b (xs ++ c ∷ cs) ≡ last c.0 cs
last-append b [] c cs = refl
last-append b (x ∷ xs) c cs = last-append x.0 xs c cs

-- A record for a block is put behind the others, if there is memory for it.
pub add_mem_info-IsManager :
    (fresh : Ptr) (mgr : Manager) (xs : Cells) (ref : Ptr) (size : ℕ)
    → IsManager mgr xs
    → fresh ≢ null
    → Absent fresh xs
    → (r : Manager) × (add_mem_info fresh mgr ref size ≡ some r)
      × IsManager r (xs ++ (fresh, ref, size) ∷ [])
      × (r.tags ≡ mgr.tags)
      × (r.owned ≡ mgr.owned)
unfolding add_mem_info append
add_mem_info-IsManager fresh mgr [] ref size is ne a = (
  record mgr {
    infos = put mgr.infos fresh (some (info ref size null));
    ptr_info_start = fresh;
    ptr_info_last = fresh;
    inused_mem_num = increment mgr.inused_mem_num;
  },
  rw (ne→== fresh null ne, is.start) refl,
  record {
    chain = (ne, put-here mgr.infos fresh _, tt, tt);
    start = refl;
    end = refl;
    count = ap increment is.count;
  },
  refl,
  refl,
)
add_mem_info-IsManager fresh mgr (c ∷ cs) ref size is ne a =
    let h = put mgr.infos fresh (some (info ref size null)) in
    let r = Chain-relink h c cs null fresh (Chain-put mgr.infos fresh _ (c ∷ cs) null a is.chain) in
    let new : r.after fresh ≡ some (info ref size null) =
      r.frame fresh (Absent-last fresh c cs a) ∙ put-here mgr.infos fresh _ in
    (
      record mgr {
        infos = r.after;
        ptr_info_last = fresh;
        inused_mem_num = increment mgr.inused_mem_num;
      },
      rw (ne→== fresh null ne, is.start, ne→== c.0 null is.chain.0, is.end, r.result) refl,
      record {
        chain =
            Chain-join r.after (c ∷ cs) ((fresh, ref, size) ∷ []) null r.chain (ne, new, tt, tt)
              (Apart-one (fresh, ref, size) (c ∷ cs) a);
        start = is.start;
        end = sym (last-append c.0 cs (fresh, ref, size) []);
        count =
            ap increment is.count ∙ ap pos (sym (length-append (c ∷ cs) ((fresh, ref, size) ∷ [])));
      },
      refl,
      refl,
    )

-- the structure of the first record for a block
abbrev pub address_of : Ptr → Cells → Ptr
address_of a [] = null
address_of a (c ∷ cs) = if c.1 == a then c.0 else address_of a cs

pub find_from-Chain :
    (fuel : ℕ) (h : Infos) (xs : Cells) (a : Ptr)
    → Chain h xs null
    → length xs < fuel
    → find_from fuel h (first xs null) a ≡ some (address_of a xs)
unfolding find_from
find_from-Chain zero h xs a s f = absurd (omega arith)
find_from-Chain (suc fuel) h [] a s f = refl
find_from-Chain (suc fuel) h (c ∷ cs) a s f = elim (Bool-cases (c.1 == a)) [
  | inl e ↦ rw (ne→== c.0 null s.0, s.1, e) refl
  | inr e ↦ rw (ne→== c.0 null s.0, s.1, e) (find_from-Chain fuel h cs a s.3 (omega arith))
]

module _ (fuel : ℕ) (mgr : Manager) (xs : Cells) (a : Ptr) (is : IsManager mgr xs)
    (some_block : a ≢ null) (enough : length xs < fuel) where
  pub find_mem_info-address_of : find_mem_info fuel mgr a ≡ some (address_of a xs)
  unfolding find_mem_info
  find_mem_info-address_of =
      rw (ne→== a null some_block, is.start) (find_from-Chain fuel mgr.infos xs a is.chain enough)
