-- ===== src/Memmgr/Rep.antt =====
-- What the list of live allocations of src/memmgr.c stands for.
use libcplus.Common.{
  ℕ, ◌≡◌, ◌≢◌, refl, sym, ◌∙◌, ap, arith, Option, some, pos, List, [], ◌∷◌, ◌++◌, length, ne→==,
}
use libcplus.Heap.{Ptr, null}
use libcplus.Memmgr.{Info, Infos, Manager, info, put, link, set_next}

-- a structure's address, and the block's address and size
abbrev pub Cell : Type 0
Cell = Ptr × Ptr × ℕ

abbrev pub Cells : Type 0
Cells = List Cell

abbrev pub first : Cells → Ptr → Ptr
first [] e = e
first (c ∷ cs) e = c.0

abbrev pub last : Ptr → Cells → Ptr
last b [] = b
last b (c ∷ cs) = last c.0 cs

abbrev pub Absent : Ptr → Cells → Type 0
Absent p [] = Unit
Absent p (c ∷ cs) = (c.0 ≢ p) × Absent p cs

-- The structures are on the list in this order, each at its own address, and the last leads to `e`.
abbrev pub Chain : Infos → Cells → Ptr → Type 0
Chain h [] e = Unit
Chain h (c ∷ cs) e =
    (c.0 ≢ null) × (h c.0 ≡ some (info c.1 c.2 (first cs e))) × Absent c.0 cs × Chain h cs e

-- the last structure; without one, `ptr_info_last` is not read
abbrev pub IsLast : Ptr → Cells → Type 0
IsLast p [] = Unit
IsLast p (c ∷ cs) = p ≡ last c.0 cs

pub record IsManager (mgr : Manager) (xs : Cells) : Type 0 where
  pub chain : Chain mgr.infos xs null
  pub start : mgr.ptr_info_start ≡ first xs null
  pub end : IsLast mgr.ptr_info_last xs
  pub count : mgr.inused_mem_num ≡ pos (length xs)

pub put-here : (h : Infos) (p : Ptr) (o : Option Info) → put h p o p ≡ o
unfolding put
put-here h p o = ground arith

pub put-there : (h : Infos) (p : Ptr) (o : Option Info) (q : Ptr) → q ≢ p → put h p o q ≡ h q
unfolding put
put-there h p o q ne = rw (ne→== q p ne) refl

-- A change elsewhere leaves the chain.
pub Chain-put :
    (h : Infos) (p : Ptr) (o : Option Info) (xs : Cells) (e : Ptr)
    → Absent p xs
    → Chain h xs e
    → Chain (put h p o) xs e
Chain-put h p o [] e a s = tt
Chain-put h p o (c ∷ cs) e a s =
    (s.0, put-there h p o c.0 a.0 ∙ s.1, s.2, Chain-put h p o cs e a.1 s.3)

pub Absent-last : (p : Ptr) (c : Cell) (cs : Cells) → Absent p (c ∷ cs) → p ≢ last c.0 cs
Absent-last p c [] a = λ (e : p ≡ c.0). a.0 (sym e)
Absent-last p c (d ∷ cs) a = Absent-last p d cs a.1

-- Every address of the first list is absent from the second.
abbrev pub Apart : Cells → Cells → Type 0
Apart [] ys = Unit
Apart (c ∷ cs) ys = Absent c.0 ys × Apart cs ys

pub Absent-append : (p : Ptr) (xs ys : Cells) → Absent p xs → Absent p ys → Absent p (xs ++ ys)
Absent-append p [] ys a b = b
Absent-append p (c ∷ cs) ys a b = (a.0, Absent-append p cs ys a.1 b)

pub first-append : (xs ys : Cells) (e : Ptr) → first (xs ++ ys) e ≡ first xs (first ys e)
first-append [] ys e = refl
first-append (c ∷ cs) ys e = refl

pub Chain-join :
    (h : Infos) (xs ys : Cells) (e : Ptr)
    → Chain h xs (first ys e)
    → Chain h ys e
    → Apart xs ys
    → Chain h (xs ++ ys) e
Chain-join h [] ys e s t a = t
Chain-join h (c ∷ cs) ys e s t a = (
  s.0,
  s.1 ∙ ap (λ (q : Ptr). some (info c.1 c.2 q)) (sym (first-append cs ys e)),
  Absent-append c.0 cs ys s.2 a.0,
  Chain-join h cs ys e s.3 t a.1,
)

Absent-left : (p : Ptr) (xs ys : Cells) → Absent p (xs ++ ys) → Absent p xs × Absent p ys
Absent-left p [] ys a = (tt, a)
Absent-left p (c ∷ cs) ys a = let r = Absent-left p cs ys a.1 in ((a.0, r.0), r.1)

pub Chain-split :
    (h : Infos) (xs ys : Cells) (e : Ptr)
    → Chain h (xs ++ ys) e
    → Chain h xs (first ys e) × Chain h ys e × Apart xs ys
Chain-split h [] ys e s = (tt, s, tt)
Chain-split h (c ∷ cs) ys e s =
    let r = Chain-split h cs ys e s.3 in
    let a = Absent-left c.0 cs ys s.2 in
    (
      (s.0, s.1 ∙ ap (λ (q : Ptr). some (info c.1 c.2 q)) (first-append cs ys e), a.0, r.0),
      r.1,
      (a.1, r.2),
    )

-- Setting the last link of a chain makes it end elsewhere; nothing but the last structure changes.
pub record Relinked (h : Infos) (c : Cell) (cs : Cells) (q : Ptr) : Type 0 where
  pub after : Infos
  pub result : set_next h (last c.0 cs) q ≡ some after
  pub chain : Chain after (c ∷ cs) q
  pub frame : (p : Ptr) → p ≢ last c.0 cs → after p ≡ h p

pub Chain-relink :
    (h : Infos) (c : Cell) (cs : Cells) (e q : Ptr) → Chain h (c ∷ cs) e → Relinked h c cs q
unfolding set_next link
Chain-relink h c [] e q s = record {
  after = put h c.0 (some (info c.1 c.2 q));
  result = rw (ne→== c.0 null s.0, s.1) refl;
  chain = (s.0, put-here h c.0 _, tt, tt);
  frame = λ p ne. put-there h c.0 _ p ne;
}
Chain-relink h c (d ∷ cs) e q s =
    let r = Chain-relink h d cs e q s.3 in
    record {
      after = r.after;
      result = r.result;
      chain = (s.0, r.frame c.0 (Absent-last c.0 d cs s.2) ∙ s.1, s.2, r.chain);
      frame = r.frame;
    }
