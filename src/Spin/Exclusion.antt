-- ===== src/Spin/Exclusion.antt =====
-- The spin lock of src/data.c and src/mempool.c as long as no compare-exchange fails.
use mathlib.Core.Path.{subst}
use libcplus.Common.{
  ℕ, ◌≡◌, ◌≢◌, inl, inr, refl, sym, ◌∙◌, ap, arith, Bool, true, false, [], ◌∷◌, Option, none, some,
  ◌==◌, if◌then◌else◌, Bool-cases, ==→eq, ==→ne, eq→==, ne→==,
}
use libcplus.Spin.{
  Pc, idle, trying, ready, holding, comparing, failing, leaving, System, spin_up, set_pc, move, act,
  turn, turns, Calm, here, next, start,
}

pub set_pc_self : (f : ℕ → Pc) (i : ℕ) (p : Pc) → set_pc f i p i ≡ p
set_pc_self f i p = ap (λ (b : Bool). if b then p else f i) (eq→== i i refl)

pub set_pc_ne : (f : ℕ → Pc) (i : ℕ) (p : Pc) (j : ℕ) → j ≢ i → set_pc f i p j ≡ f j
set_pc_ne f i p j ne = ap (λ (b : Bool). if b then p else f j) (ne→== j i ne)

-- what holds of the entry that is written, and of the others, holds of all
pub set_pc_all :
    (P : ℕ → Pc → Type 0) (f : ℕ → Pc) (i : ℕ) (p : Pc)
    → P i p
    → ((j : ℕ) → j ≢ i → P j (f j))
    → (j : ℕ) → P j (set_pc f i p j)
set_pc_all P f i p mine others j = elim (Bool-cases (j == i)) [
  | inl e ↦ rw e (subst (λ (k : ℕ). P k p) (sym (==→eq j i e)) mine)
  | inr e ↦ rw e (others j (==→ne j i e))
]

abbrev pub lock_of : Option ℕ → ℕ
lock_of none = 0
lock_of (some i) = 1

-- the word that a thread has read from `spin_down`
abbrev pub word_read : Pc → Option ℕ
word_read (comparing v) = some v
word_read (leaving v) = some v
word_read p = none

-- behind the loop, up to the write of the unlock
abbrev pub is_inside : Pc → Bool
is_inside holding = true
is_inside (leaving v) = true
is_inside p = false

-- The lock says whether it is held, only its holder stands behind the loop, and the words that were read
-- from `spin_down` are 0.
pub record Owned (s : System) (owner : Option ℕ) : Type 0 where
  pub down : s.spin_down ≡ 0
  pub lock : s.spinlock ≡ lock_of owner
  pub only : (j : ℕ) → is_inside (s.pc j) ≡ true → owner ≡ some j
  pub read : (j v : ℕ) → word_read (s.pc j) ≡ some v → v ≡ 0

abbrev OnlyAt : Option ℕ → ℕ → Pc → Type 0
OnlyAt owner j p = is_inside p ≡ true → owner ≡ some j

abbrev ReadsZero : ℕ → Pc → Type 0
ReadsZero j p = (v : ℕ) → word_read p ≡ some v → v ≡ 0

-- a thread that moves, and neither takes the lock nor gives it back
moved :
    (s : System) (owner : Option ℕ) (i : ℕ) (p : Pc)
    → OnlyAt owner i p
    → ReadsZero i p
    → Owned s owner
    → Owned (move s i p) owner
moved s owner i p only read o = record {
  down = o.down;
  lock = o.lock;
  only = set_pc_all (OnlyAt owner) s.pc i p only (λ j ne. o.only j);
  read = set_pc_all ReadsZero s.pc i p read (λ j ne. o.read j);
}

free_of : (owner : Option ℕ) → lock_of owner ≡ 0 → owner ≡ none
free_of none h = refl
free_of (some i) h = absurd (omega arith)

taken :
    (s : System) (owner : Option ℕ) (i : ℕ)
    → s.spinlock ≡ 0
    → Owned s owner
    → Owned (record (move s i holding) { spinlock = spin_up }) (some i)
taken s owner i free o =
    let nobody = free_of owner (sym o.lock ∙ free) in
    record {
      down = o.down;
      lock = refl;
      only =
          set_pc_all (OnlyAt (some i)) s.pc i holding (λ h. refl)
            λ j ne h. let other : none ≡ some j = sym nobody ∙ o.only j h in absurd (cc other);
      read = set_pc_all ReadsZero s.pc i holding (λ v h. absurd (cc h)) (λ j ne. o.read j);
    }

left :
    (s : System) (owner : Option ℕ) (i v : ℕ)
    → s.pc i ≡ leaving v
    → Owned s owner
    → Owned (record (move s i idle) { spinlock = v }) none
left s owner i v mine o = record {
  down = o.down;
  lock = o.read i v (ap word_read mine);
  only =
      set_pc_all (OnlyAt none) s.pc i idle (λ h. absurd (cc h))
        λ j ne h.
          let same : some i ≡ some j = sym (o.only i (ap is_inside mine)) ∙ o.only j h in
          let eq : j ≡ i = cc same in absurd (ne eq);
  read = set_pc_all ReadsZero s.pc i idle (λ u h. absurd (cc h)) (λ j ne. o.read j);
}

acted :
    (p : Pc) (i : ℕ) (s : System) (owner : Option ℕ)
    → s.pc i ≡ p
    → Owned s owner
    → (act p i s).spin_down ≡ 0
    → (o : Option ℕ) × Owned (act p i s) o
acted idle i s owner at o calm =
    (owner, moved s owner i trying (λ h. absurd (cc h)) (λ v h. absurd (cc h)) o)
acted trying i s owner at o calm = elim (Bool-cases (s.spinlock == spin_up)) [
  | inl e ↦ rw e (owner, o)
  | inr e ↦ rw e (owner, moved s owner i ready (λ h. absurd (cc h)) (λ v h. absurd (cc h)) o)
]
acted ready i s owner at o calm = (
  owner,
  moved s owner i (comparing s.spin_down) (λ h. absurd (cc h))
      (λ v h. let same : s.spin_down ≡ v = cc h in sym same ∙ o.down) o,
)
acted (comparing v) i s owner at o calm = elim (Bool-cases (s.spinlock == v)) [
  | inl e ↦ rw e (some i, taken s owner i (==→eq s.spinlock v e ∙ o.read i v (ap word_read at)) o)
  | inr e ↦
      rw e
        (owner, moved s owner i (failing s.spinlock) (λ h. absurd (cc h)) (λ u h. absurd (cc h)) o)
]
acted (failing v) i s owner at o calm =
    let m = moved s owner i trying (λ h. absurd (cc h)) (λ u h. absurd (cc h)) o in
    (owner, record { down = calm; lock = m.lock; only = m.only; read = m.read })
acted holding i s owner at o calm = (
  owner,
  moved s owner i (leaving s.spin_down) (λ h. o.only i (ap is_inside at))
      (λ v h. let same : s.spin_down ≡ v = cc h in sym same ∙ o.down) o,
)
acted (leaving v) i s owner at o calm = (none, left s owner i v at o)

Calm-Owned : {s : System} → Calm start s → (owner : Option ℕ) × Owned s owner
unfolding turn
Calm-Owned here = (
  none,
  record { down = refl; lock = refl; only = λ j h. absurd (cc h); read = λ j v h. absurd (cc h) },
)
Calm-Owned (next {t} run i calm) =
    let (owner, o) = Calm-Owned run in acted (t.pc i) i t owner refl o calm

-- In a run of any number of threads in which no compare-exchange that fails writes to `spin_down`, two
-- threads are never behind DATA_SPIN_LOCK together.
pub Calm-exclusion :
    {s : System} → Calm start s → (i j : ℕ) → s.pc i ≡ holding → s.pc j ≡ holding → i ≡ j
Calm-exclusion run i j at_i at_j =
    let (owner, o) = Calm-Owned run in
    let same : some i ≡ some j =
      sym (o.only i (ap is_inside at_i)) ∙ o.only j (ap is_inside at_j) in
    cc same

pub turn_at : (s : System) (i : ℕ) (p : Pc) → s.pc i ≡ p → turn i s ≡ act p i s
unfolding turn
turn_at s i p h = ap (λ (q : Pc). act q i s) h

-- the read that finds the lock free
turn_trying : (s : System) (i : ℕ) → s.pc i ≡ trying → s.spinlock ≡ 0 → turn i s ≡ move s i ready
turn_trying s i at free =
    turn_at s i trying at
    ∙ ap (λ (b : Bool). if b then s else move s i ready)
        (ne→== s.spinlock spin_up (omega (arith, free)))

-- the compare-exchange that succeeds
pub turn_taking :
    (s : System) (i v : ℕ)
    → s.pc i ≡ comparing v
    → s.spinlock ≡ v
    → turn i s ≡ record (move s i holding) { spinlock = spin_up }
turn_taking s i v at same =
    turn_at s i (comparing v) at
    ∙ ap
        (λ (b : Bool).
          if b
          then record (move s i holding) { spinlock = spin_up }
          else move s i (failing s.spinlock))
        (eq→== s.spinlock v same)

-- the compare-exchange that fails
pub turn_failing :
    (s : System) (i v : ℕ)
    → s.pc i ≡ comparing v
    → s.spinlock ≢ v
    → turn i s ≡ move s i (failing s.spinlock)
turn_failing s i v at other =
    turn_at s i (comparing v) at
    ∙ ap
        (λ (b : Bool).
          if b
          then record (move s i holding) { spinlock = spin_up }
          else move s i (failing s.spinlock))
        (ne→== s.spinlock v other)

-- A thread that finds the lock free and `spin_down` 0, and whom no other thread disturbs, is behind DATA_SPIN_LOCK after
-- four steps with the lock set, and after two more the lock is free again and `spin_down` is still 0.
pub turn_alone :
    (s : System) (i : ℕ)
    → s.pc i ≡ idle
    → s.spinlock ≡ 0
    → s.spin_down ≡ 0
    → ((turns (i ∷ i ∷ i ∷ i ∷ []) s).pc i ≡ holding)
      × ((turns (i ∷ i ∷ i ∷ i ∷ []) s).spinlock ≡ 1)
      × ((turns (i ∷ i ∷ i ∷ i ∷ i ∷ i ∷ []) s).pc i ≡ idle)
      × ((turns (i ∷ i ∷ i ∷ i ∷ i ∷ i ∷ []) s).spinlock ≡ 0)
      × ((turns (i ∷ i ∷ i ∷ i ∷ i ∷ i ∷ []) s).spin_down ≡ 0)
turn_alone s i at free down =
    let s1 = move s i trying in
    let s2 = move s1 i ready in
    let s3 = move s2 i (comparing s.spin_down) in
    let s4 = record (move s3 i holding) { spinlock = spin_up } in
    let s5 = move s4 i (leaving s.spin_down) in
    let s6 = record (move s5 i idle) { spinlock = s.spin_down } in
    let e2 : turn i (turn i s) ≡ s2 =
      ap (turn i) (turn_at s i idle at) ∙ turn_trying s1 i (set_pc_self s.pc i trying) free in
    let e3 : turn i (turn i (turn i s)) ≡ s3 =
      ap (turn i) e2 ∙ turn_at s2 i ready (set_pc_self s1.pc i ready) in
    let e4 : turn i (turn i (turn i (turn i s))) ≡ s4 =
      ap (turn i) e3
      ∙ turn_taking s3 i s.spin_down (set_pc_self s2.pc i (comparing s.spin_down))
          (free ∙ sym down) in
    let e5 : turn i s4 ≡ s5 = turn_at s4 i holding (set_pc_self s3.pc i holding) in
    let e6 : turn i s5 ≡ s6 =
      turn_at s5 i (leaving s.spin_down) (set_pc_self s4.pc i (leaving s.spin_down)) in
    rw (e4, e5, e6) (set_pc_self s3.pc i holding, refl, set_pc_self s5.pc i idle, down, down)
