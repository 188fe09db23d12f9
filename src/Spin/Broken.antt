-- ===== src/Spin/Broken.antt =====
-- The spin lock of src/data.c and src/mempool.c after a compare-exchange that fails.
use mathlib.Core.Path.{subst}
use libcplus.Common.{
  ℕ, ◌≡◌, ◌≢◌, ◌⊎◌, inl, inr, refl, sym, ◌∙◌, ap, arith, [], ◌∷◌, ◌==◌, eq→==, Bool-cases, ==→eq,
  ==→ne,
}
use libcplus.Spin.{
  Pc, idle, trying, ready, holding, comparing, failing, leaving, System, spin_up, move, turn, turns,
  Reach, here, next,
}
use libcplus.Spin.Exclusion.{set_pc_all, set_pc_self, set_pc_ne, turn_at, turn_taking, turn_failing}

-- a thread that is outside, or about to read whether the lock is free
abbrev pub IsAway : Pc → Type 0
IsAway p = (p ≡ idle) ⊎ (p ≡ trying)

-- The lock is set, and no thread is in a place from which it would write to it.
pub record Dead (s : System) : Type 0 where
  pub lock : s.spinlock ≡ 1
  pub away : (k : ℕ) → IsAway (s.pc k)

move_trying-Dead : (s : System) (i : ℕ) → Dead s → Dead (move s i trying)
move_trying-Dead s i dead = record {
  lock = dead.lock;
  away = set_pc_all (λ k p. IsAway p) s.pc i trying (inr refl) (λ k ne. dead.away k);
}

turn_away-Dead : (s : System) (i : ℕ) → IsAway (s.pc i) → Dead s → Dead (turn i s)
turn_away-Dead s i (inl at) dead = rw (turn_at s i idle at) (move_trying-Dead s i dead)
turn_away-Dead s i (inr at) dead =
    rw (turn_at s i trying at, eq→== s.spinlock spin_up dead.lock) dead

Reach-Dead : {s t : System} → Dead s → Reach s t → Dead t
Reach-Dead dead here = dead
Reach-Dead dead (next {t} run i) = let d = Reach-Dead dead run in turn_away-Dead t i (d.away i) d

-- where the two threads of a race stand, and the two words
record Race (i j : ℕ) (p q : Pc) (lock down : ℕ) (s : System) : Type 0 where
  at_i : s.pc i ≡ p
  at_j : s.pc j ≡ q
  locked : s.spinlock ≡ lock
  lowered : s.spin_down ≡ down
  others : (k : ℕ) → k ≢ i → k ≢ j → IsAway (s.pc k)

-- a step of the first thread, and of the second
module _ (i j : ℕ) (apart : j ≢ i) {p q : Pc} {lock down : ℕ} {s : System}
    (r : Race i j p q lock down s) where
  first_moves :
      (p' : Pc) (lock' down' : ℕ)
      → turn i s ≡ record (move s i p') { spinlock = lock'; spin_down = down' }
      → Race i j p' q lock' down' (turn i s)
  first_moves p' lock' down' e = rw e (record {
    at_i = set_pc_self s.pc i p';
    at_j = set_pc_ne s.pc i p' j apart ∙ r.at_j;
    locked = refl;
    lowered = refl;
    others = λ k ki kj. subst IsAway (sym (set_pc_ne s.pc i p' k ki)) (r.others k ki kj);
  })

  second_moves :
      (q' : Pc) (lock' down' : ℕ)
      → turn j s ≡ record (move s j q') { spinlock = lock'; spin_down = down' }
      → Race i j p q' lock' down' (turn j s)
  second_moves q' lock' down' e = rw e (record {
    at_i = set_pc_ne s.pc j q' i (λ h. apart (sym h)) ∙ r.at_i;
    at_j = set_pc_self s.pc j q';
    locked = refl;
    lowered = refl;
    others = λ k ki kj. subst IsAway (sym (set_pc_ne s.pc j q' k kj)) (r.others k ki kj);
  })

-- the system behind the words that a race is known to have
with_words :
    (s : System) (i : ℕ) (p : Pc) (lock down : ℕ)
    → s.spinlock ≡ lock
    → s.spin_down ≡ down
    → move s i p ≡ record (move s i p) { spinlock = lock; spin_down = down }
with_words s i p lock down el ed =
    ap (λ (l : ℕ). record (move s i p) { spinlock = l }) el
    ∙ ap (λ (d : ℕ). record (move s i p) { spinlock = lock; spin_down = d }) ed

-- the step that reads `spin_down`
reads :
    (s : System) (i : ℕ) (f : ℕ → Pc) (lock down : ℕ)
    → turn i s ≡ move s i (f s.spin_down)
    → s.spinlock ≡ lock
    → s.spin_down ≡ down
    → turn i s ≡ record (move s i (f down)) { spinlock = lock; spin_down = down }
reads s i f lock down e el ed =
    e ∙ ap (λ (d : ℕ). move s i (f d)) ed ∙ with_words s i (f down) lock down el ed

raced :
    (s : System) (i j : ℕ)
    → j ≢ i
    → Race i j ready ready 0 0 s
    → Race i j idle trying 1 1 (turns (i ∷ j ∷ i ∷ j ∷ j ∷ i ∷ i ∷ []) s)
raced s i j apart r0 =
    let s1 = turn i s in
    let s2 = turn j s1 in
    let s3 = turn i s2 in
    let s4 = turn j s3 in
    let s5 = turn j s4 in
    let s6 = turn i s5 in
    let r1 =
      first_moves i j apart r0 (comparing 0) 0 0
        (reads s i comparing 0 0 (turn_at s i ready r0.at_i) r0.locked r0.lowered) in
    let r2 =
      second_moves i j apart r1 (comparing 0) 0 0
        (reads s1 j comparing 0 0 (turn_at s1 j ready r1.at_j) r1.locked r1.lowered) in
    let r3 = first_moves i j apart r2 holding 1 0 (
      turn_taking s2 i 0 r2.at_i r2.locked
      ∙ ap (λ (d : ℕ). record (move s2 i holding) { spinlock = 1; spin_down = d }) r2.lowered) in
    let r4 = second_moves i j apart r3 (failing 1) 1 0 (
      turn_failing s3 j 0 r3.at_j (omega (arith, r3.locked))
      ∙ ap (λ (l : ℕ). move s3 j (failing l)) r3.locked
      ∙ with_words s3 j (failing 1) 1 0 r3.locked r3.lowered) in
    let r5 = second_moves i j apart r4 trying 1 1 (
      turn_at s4 j (failing 1) r4.at_j
      ∙ ap (λ (l : ℕ). record (move s4 j trying) { spinlock = l; spin_down = 1 }) r4.locked) in
    let r6 =
      first_moves i j apart r5 (leaving 1) 1 1
        (reads s5 i leaving 1 1 (turn_at s5 i holding r5.at_i) r5.locked r5.lowered) in
    first_moves i j apart r6 idle 1 1 (
      turn_at s6 i (leaving 1) r6.at_i
      ∙ ap (λ (d : ℕ). record (move s6 i idle) { spinlock = 1; spin_down = d }) r6.lowered)

away-holding : (p : Pc) → IsAway p → p ≢ holding
away-holding p (inl e) h = let clash : idle ≡ holding = sym e ∙ h in absurd (cc clash)
away-holding p (inr e) h = let clash : trying ≡ holding = sym e ∙ h in absurd (cc clash)

-- When exactly two threads have read a free lock and no thread is past that, both read the expected
-- value 0, the first takes the lock, the second fails to and writes 1 to `spin_down`, and the first leaves:
-- whatever the threads do then, none gets behind DATA_SPIN_LOCK again.
pub turn-Dead :
    (s : System) (i j : ℕ)
    → j ≢ i
    → s.spinlock ≡ 0
    → s.spin_down ≡ 0
    → s.pc i ≡ ready
    → s.pc j ≡ ready
    → ((k : ℕ) → k ≢ i → k ≢ j → IsAway (s.pc k))
    → {t : System} → Reach (turns (i ∷ j ∷ i ∷ j ∷ j ∷ i ∷ i ∷ []) s) t
    → (k : ℕ) → t.pc k ≢ holding
turn-Dead s i j ji free down at_i at_j others {t} run k =
    let r =
      raced s i j ji
        (record { at_i = at_i; at_j = at_j; locked = free; lowered = down; others = others }) in
    let end = turns (i ∷ j ∷ i ∷ j ∷ j ∷ i ∷ i ∷ []) s in
    let dead : Dead end = record {
      lock = r.locked;
      away = λ m. elim (Bool-cases (m == i)) [
        | inl e ↦ inl (ap end.pc (==→eq m i e) ∙ r.at_i)
        | inr e ↦ elim (Bool-cases (m == j)) [
          | inl h ↦ inr (ap end.pc (==→eq m j h) ∙ r.at_j)
          | inr h ↦ r.others m (==→ne m i e) (==→ne m j h)
        ]
      ];
    } in
    away-holding (t.pc k) ((Reach-Dead dead run).away k)
