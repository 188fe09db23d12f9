-- ===== src/Spin/Tests.antt =====
-- Runs of the spin lock with concrete threads.
use libcplus.Common.{inl, [], ◌∷◌, ℕ, zero, suc, ◌≡◌, ◌≢◌, refl, arith, ltb, if◌then◌else◌}
use libcplus.Spin.{Pc, idle, ready, holding, System, turn, turns, here, next, Calm, start}
use libcplus.Spin.Exclusion.{Calm-exclusion, turn_alone}
use libcplus.Spin.Broken.{IsAway, turn-Dead}

-- thread 0 has taken the lock
abbrev one_holds : System
one_holds = turns (0 ∷ 0 ∷ 0 ∷ 0 ∷ []) start

one_holds-Calm : Calm start one_holds
unfolding turn
one_holds-Calm = next (next (next (next here 0 refl) 0 refl) 0 refl) 0 refl

thread_0-holding : one_holds.pc 0 ≡ holding
unfolding turn
thread_0-holding = refl

Calm-exclusion_example : ◌≡◌ {A = ℕ} 0 0
Calm-exclusion_example = Calm-exclusion one_holds-Calm 0 0 thread_0-holding thread_0-holding

turn_alone_example :
    ((turns (0 ∷ 0 ∷ 0 ∷ 0 ∷ []) start).pc 0 ≡ holding)
    × ((turns (0 ∷ 0 ∷ 0 ∷ 0 ∷ []) start).spinlock ≡ 1)
    × ((turns (0 ∷ 0 ∷ 0 ∷ 0 ∷ 0 ∷ 0 ∷ []) start).pc 0 ≡ idle)
    × ((turns (0 ∷ 0 ∷ 0 ∷ 0 ∷ 0 ∷ 0 ∷ []) start).spinlock ≡ 0)
    × ((turns (0 ∷ 0 ∷ 0 ∷ 0 ∷ 0 ∷ 0 ∷ []) start).spin_down ≡ 0)
turn_alone_example = turn_alone start 0 refl refl refl

-- three threads, and two, have read a free lock
abbrev three_ready : System
three_ready = record {
  spinlock = 0;
  spin_down = 0;
  pc = λ (i : ℕ). if ltb i 3 then ready else idle;
}

-- Behind the failure of thread 1, thread 2 takes the lock that thread 0 holds.
both_hold :
    ((turns (0 ∷ 1 ∷ 0 ∷ 1 ∷ 1 ∷ 2 ∷ 2 ∷ []) three_ready).pc 0 ≡ holding)
    × ((turns (0 ∷ 1 ∷ 0 ∷ 1 ∷ 1 ∷ 2 ∷ 2 ∷ []) three_ready).pc 2 ≡ holding)
unfolding turn
both_hold = (refl, refl)

abbrev two_pc : ℕ → Pc
two_pc zero = ready
two_pc (suc zero) = ready
two_pc (suc (suc i)) = idle

abbrev two_ready : System
two_ready = record { spinlock = 0; spin_down = 0; pc = two_pc }

others-IsAway : (k : ℕ) → k ≢ 0 → k ≢ 1 → IsAway (two_pc k)
others-IsAway zero h0 h1 = absurd (h0 refl)
others-IsAway (suc zero) h0 h1 = absurd (h1 refl)
others-IsAway (suc (suc k)) h0 h1 = inl refl

turn-Dead_example : (turns (0 ∷ 1 ∷ 0 ∷ 1 ∷ 1 ∷ 0 ∷ 0 ∷ []) two_ready).pc 1 ≢ holding
turn-Dead_example = turn-Dead two_ready 0 1 (omega arith) refl refl refl refl others-IsAway here 1
