-- ===== src/Memmgr/Erase.antt =====
-- Erasing a record of src/memmgr.c.
use libcplus.Common.{
  ℕ, zero, suc, ◌<◌, ◌≡◌, ◌≢◌, refl, sym, ◌∙◌, ap, arith, Option, none, some, pos, [], ◌∷◌, ◌++◌,
  inl, inr, ◌==◌, if◌then◌else◌, length, length-append, ne→==, eq→==, Bool-cases, decrement,
}
use mathlib.Core.Path.{subst}
use libcplus.Heap.{Ptr, null}
use libcplus.Memmgr.{Infos, Manager, info, put, dropped, erase_at, erase_from, erase_mem_info}
use libcplus.Memmgr.Rep.{
  Cell, Cells, first, last, Absent, Chain, IsLast, IsManager, Chain-put, Absent-last, Apart,
  Chain-join, Chain-split, Relinked, Chain-relink,
}
use libcplus.Memmgr.Records.{Chain-frame, Apart-last, last-append}

-- the records without the first one for a block
abbrev pub without : Ptr → Cells → Cells
without a [] = []
without a (c ∷ cs) = if c.1 == a then cs else c ∷ without a cs

-- the links behind the removal of the record between `d ∷ ds` and `cs`
Chain-unlinked :
    (h : Infos) (d : Cell) (ds : Cells) (c : Cell) (cs : Cells)
    → Chain h ((d ∷ ds) ++ c ∷ cs) null
    → (r : Relinked h d ds (first cs null)) × Chain (put r.after c.0 none) ((d ∷ ds) ++ cs) null
Chain-unlinked h d ds c cs s =
    let parts = Chain-split h (d ∷ ds) (c ∷ cs) null s in
    let r = Chain-relink h d ds c.0 (first cs null) parts.0 in
    let behind = Apart-behind (d ∷ ds) parts.2 in
    (
      r,
      Chain-join (put r.after c.0 none) (d ∷ ds) cs null
          (Chain-put r.after c.0 none (d ∷ ds) (first cs null) behind.0 r.chain)
          (Chain-put r.after c.0 none cs null parts.1.2 (
            Chain-frame h r.after (last d.0 ds) cs null r.frame (Apart-last d ds cs behind.1)
              parts.1.3))
          behind.1,
    )
  where
    Apart-behind : (xs : Cells) → Apart xs (c ∷ cs) → Absent c.0 xs × Apart xs cs
    Apart-behind [] a = (tt, tt)
    Apart-behind (x ∷ xs) a =
        let r = Apart-behind xs a.1 in ((λ (e : x.0 ≡ c.0). a.0.0 (sym e), r.0), (a.0.1, r.1))

-- The outcome is a manager of these records, with the same tags and the same allocated blocks.
abbrev pub Erases : Manager → Cells → Option Manager → Type 0
Erases mgr xs o =
    (r : Manager) × (o ≡ some r) × IsManager r xs × (r.tags ≡ mgr.tags) × (r.owned ≡ mgr.owned)

IsLast-tail : (p : Ptr) (c : Cell) (cs : Cells) → IsLast p (c ∷ cs) → IsLast p cs
IsLast-tail p c [] e = tt
IsLast-tail p c (d ∷ cs) e = e

count_down :
    (xs : Cells) (c : Cell) (cs : Cells)
    → decrement (pos (length (xs ++ c ∷ cs))) ≡ pos (length (xs ++ cs))
count_down [] c cs = refl
count_down (x ∷ xs) c cs = ap pos (omega (arith, length-append xs (c ∷ cs), length-append xs cs))

not_first :
    (h : Infos) (d : Cell) (ds : Cells) (c : Cell) (cs : Cells)
    → Chain h ((d ∷ ds) ++ c ∷ cs) null
    → c.0 ≢ d.0
not_first h d ds c cs s = let parts = Chain-split h (d ∷ ds) (c ∷ cs) null s in parts.2.0.0

pub append_nil : (xs : Cells) → xs ++ [] ≡ xs
append_nil [] = refl
append_nil (x ∷ xs) = ap (λ ys. x ∷ ys) (append_nil xs)

-- The three branches: the first record, the last, and one between.
erase_at-Erases :
    (mgr : Manager) (ds : Cells) (c : Cell) (cs : Cells)
    → IsManager mgr (ds ++ c ∷ cs)
    → Erases mgr (ds ++ cs) (erase_at mgr (last null ds) c.0 (info c.1 c.2 (first cs null)))
unfolding erase_at dropped
erase_at-Erases mgr [] c cs is = (
  record mgr {
    ptr_info_start = first cs null;
    infos = put mgr.infos c.0 none;
    inused_mem_num = decrement mgr.inused_mem_num;
  },
  rw is.start ground arith,
  record {
    chain = Chain-put mgr.infos c.0 none cs null is.chain.2 is.chain.3;
    start = refl;
    end = IsLast-tail mgr.ptr_info_last c cs is.end;
    count = ap decrement is.count;
  },
  refl,
  refl,
)
erase_at-Erases mgr (d ∷ ds) c [] is =
    let (r, chain) = Chain-unlinked mgr.infos d ds c [] is.chain in
    let here : mgr.ptr_info_last ≡ c.0 = is.end ∙ last-append d.0 ds c [] in
    (
      record mgr {
        ptr_info_last = last d.0 ds;
        infos = put r.after c.0 none;
        inused_mem_num = decrement mgr.inused_mem_num;
      },
      rw
          (
            is.start,
            ne→== c.0 d.0 (not_first mgr.infos d ds c [] is.chain),
            here,
            eq→== c.0 c.0 refl,
            r.result,
          )
          refl,
      record {
        chain = chain;
        start = is.start;
        end = ap (last d.0) (sym (append_nil ds));
        count = ap decrement is.count ∙ count_down (d ∷ ds) c [];
      },
      refl,
      refl,
    )
erase_at-Erases mgr (d ∷ ds) c (e ∷ es) is =
    let (r, chain) = Chain-unlinked mgr.infos d ds c (e ∷ es) is.chain in
    let end : mgr.ptr_info_last ≡ last e.0 es = is.end ∙ last-append d.0 ds c (e ∷ es) in
    let parts = Chain-split mgr.infos (d ∷ ds) (c ∷ e ∷ es) null is.chain in
    (
      record mgr { infos = put r.after c.0 none; inused_mem_num = decrement mgr.inused_mem_num },
      rw
          (
            is.start,
            ne→== c.0 d.0 (not_first mgr.infos d ds c (e ∷ es) is.chain),
            end,
            ne→== c.0 (last e.0 es) (Absent-last c.0 e es parts.1.2),
            r.result,
          )
          refl,
      record {
        chain = chain;
        start = is.start;
        end = end ∙ sym (last-append d.0 ds e es);
        count = ap decrement is.count ∙ count_down (d ∷ ds) c (e ∷ es);
      },
      refl,
      refl,
    )

append_assoc : (xs : Cells) (c : Cell) (ys : Cells) → (xs ++ c ∷ []) ++ ys ≡ xs ++ c ∷ ys
append_assoc [] c ys = refl
append_assoc (x ∷ xs) c ys = ap (λ zs. x ∷ zs) (append_assoc xs c ys)

-- The loop removes the first record for a block, and none if there is none.
erase_from-Erases :
    (fuel : ℕ) (mgr : Manager) (ds cs : Cells) (a : Ptr)
    → IsManager mgr (ds ++ cs)
    → length cs < fuel
    → Erases mgr (ds ++ without a cs) (erase_from fuel mgr (last null ds) (first cs null) a)
unfolding erase_from
erase_from-Erases zero mgr ds cs a is f = absurd (omega arith)
erase_from-Erases (suc fuel) mgr ds [] a is f = (mgr, refl, is, refl, refl)
erase_from-Erases (suc fuel) mgr ds (c ∷ cs) a is f =
    let s = (Chain-split mgr.infos ds (c ∷ cs) null is.chain).1 in
    elim (Bool-cases (c.1 == a)) [
      | inl e ↦ rw (ne→== c.0 null s.0, s.1, e) (erase_at-Erases mgr ds c cs is)
      | inr e ↦
          let next =
            erase_from-Erases fuel mgr (ds ++ c ∷ []) cs a
              (subst (IsManager mgr) (sym (append_assoc ds c cs)) is) (omega arith) in
          rw (ne→== c.0 null s.0, s.1, e)
            (subst (λ (ys : Cells). Erases mgr ys (erase_from fuel mgr c.0 (first cs null) a))
              (append_assoc ds c (without a cs))
              (subst
                (λ (p : Ptr).
                  Erases mgr ((ds ++ c ∷ []) ++ without a cs)
                    (erase_from fuel mgr p (first cs null) a))
                (last-append null ds c []) next))
    ]

module _ (fuel : ℕ) (mgr : Manager) (xs : Cells) (a : Ptr) (is : IsManager mgr xs)
    (some_block : a ≢ null) (enough : length xs < fuel) where
  -- Erasing a block's record ends, whatever the place of the record: the first record for the block is
  -- gone, the others keep their order, and start, end and count agree with them. Without such a record
  -- nothing changes. The fuel is more than the number of records.
  pub erase_mem_info-without : Erases mgr (without a xs) (erase_mem_info fuel mgr a)
  unfolding erase_mem_info
  erase_mem_info-without = rw (ne→== a null some_block) (
      subst (λ (p : Ptr). Erases mgr (without a xs) (erase_from fuel mgr null p a)) (sym is.start)
        (erase_from-Erases fuel mgr [] xs a is enough))
