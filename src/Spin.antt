-- ===== src/Spin.antt =====
-- DATA_SPIN_LOCK and DATA_SPIN_UNLOCK of src/data.c, and their twins in src/mempool.c, among threads.
-- `spin_down` is a static variable: the compare-exchange takes its address as the expected value, and
-- writes to it what it found when it fails. The model has one object's lock.
pub mod Exclusion
pub mod Broken
mod Tests
use libcplus.Common.{ℕ, ◌≡◌, Bool, List, [], ◌∷◌, ◌==◌, if◌then◌else◌}

-- where a thread stands: outside; before the read of the loop; behind a read that found the lock free;
-- in the compare-exchange with the expected value that it has read, or, when that fails, with the value
-- that it has found; behind the loop; in the unlock with the value that it has read
pub data Pc : Type 0 where
  idle trying ready holding : Pc
  comparing failing leaving : ℕ → Pc

-- the lock of the object, the static variable, and the threads
pub record System : Type 0 where
  pub spinlock : ℕ
  pub spin_down : ℕ
  pub pc : ℕ → Pc

abbrev pub spin_up : ℕ
spin_up = 1

abbrev pub set_pc : (ℕ → Pc) → ℕ → Pc → ℕ → Pc
set_pc f i p j = if j == i then p else f j

abbrev pub move : System → ℕ → Pc → System
move s i p = record s { pc = set_pc s.pc i p }

-- One access of a thread that stands there to `spinlock` or `spin_down`; only the compare-exchange itself
-- reads and writes `spinlock` in one.
abbrev pub act : Pc → ℕ → System → System
act idle i s = move s i trying
act trying i s = if s.spinlock == spin_up then s else move s i ready
act ready i s = move s i (comparing s.spin_down)
act (comparing expected) i s =
    if s.spinlock == expected
    then record (move s i holding) { spinlock = spin_up }
    else move s i (failing s.spinlock)
act (failing found) i s = record (move s i trying) { spin_down = found }
act holding i s = move s i (leaving s.spin_down)
act (leaving v) i s = record (move s i idle) { spinlock = v }

-- the next step of a thread
unfoldable pub turn : ℕ → System → System
turn i s = act (s.pc i) i s

-- Threads take turns in any order.
pub data Reach (s : System) : System → Type 0 where
  here : Reach s s
  next : {t : System} → Reach s t → (i : ℕ) → Reach s (turn i t)

-- the threads of the list take one turn each
abbrev pub turns : List ℕ → System → System
turns [] s = s
turns (i ∷ is) s = turns is (turn i s)

-- Runs in which no compare-exchange that fails writes to `spin_down`: it keeps its value.
pub data Calm (s : System) : System → Type 0 where
  here : Calm s s
  next : {t : System} → Calm s t → (i : ℕ) → (turn i t).spin_down ≡ 0 → Calm s (turn i t)

abbrev pub start : System
start = record { spinlock = 0; spin_down = 0; pc = λ _. idle }
