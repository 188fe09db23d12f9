-- ===== src/Rwlock/Trace.antt =====
-- Sequences of calls on a lock of src/rwlock.c.
use libcplus.Common.{ℕ, zero, suc, ◌^◌, ◌<◌, ◌≡◌, ◌≢◌, Option, List, [], ◌∷◌, arith, length}
use libcplus.Systime.{Timeval}
use libcplus.Rwlock.{
  Held, idle, readers, writer, Outcome, World, Pthread, read_call, write_call, cplus_rwlock_wrlock,
  cplus_rwlock_rdlock, cplus_rwlock_unlock,
}
use libcplus.Rwlock.Refine.{
  one_more, one_less, IsPthread, Agrees, Room, Attempt, done, failed, cplus_rwlock_wrlock-Attempt,
  cplus_rwlock_rdlock-Attempt, cplus_rwlock_unlock-Released,
}

-- one call, by any thread
pub data Op : Type 0 where
  write_lock read_lock : Option Timeval → ℕ → Op
  release : Op

module _ (pthread : Pthread) where
  unfoldable pub step : Op → World → World
  step (write_lock now timeout) w = (cplus_rwlock_wrlock pthread now timeout w).1
  step (read_lock now timeout) w = (cplus_rwlock_rdlock pthread now timeout w).1
  step release w = (cplus_rwlock_unlock pthread w).1

  unfoldable pub run : List Op → World → World
  run [] w = w
  run (op ∷ ops) w = run ops (step op w)

Room-weaken : (k : ℕ) (h : Held) → Room (suc k) h → Room k h
Room-weaken k idle r = omega arith
Room-weaken k (readers n) r = omega arith
Room-weaken k writer r = omega arith

Room-one : (k : ℕ) (h : Held) → Room (suc k) h → Room 1 h
Room-one k idle r = omega arith
Room-one k (readers n) r = omega arith
Room-one k writer r = omega arith

Room-more : (k : ℕ) (h : Held) → Room (suc k) h → Room k (one_more h)
Room-more k idle r = omega arith
Room-more k (readers n) r = omega arith
Room-more k writer r = omega arith

Room-bound : (k : ℕ) (h : Held) → Room (suc k) h → k < 2 ^ 32
Room-bound k idle r = omega arith
Room-bound k (readers n) r = omega arith
Room-bound k writer r = omega arith

Room-less : (k : ℕ) (h : Held) → Room (suc k) h → Room k (one_less h)
Room-less k idle r = omega arith
Room-less k (readers zero) r = omega arith
Room-less k (readers (suc n)) r = omega arith
Room-less k writer r = omega arith

-- the record agrees, and there is room for the calls to come
abbrev pub Sound : ℕ → World → Type 0
Sound k w = Agrees w × Room k w.held

Attempt-Sound :
    (Before : Type 0) (after : Held) (answer k : ℕ) (w : World) (r : Outcome × World)
    → Agrees w
    → Room k w.held
    → Room k after
    → Attempt Before after answer w r
    → Sound k r.1
Attempt-Sound Before after answer k w r a room room' (done b o h ag) = (ag, rw h room')
Attempt-Sound Before after answer k w r a room room' (failed o same) = rw same (a, room)

module _ (pthread : Pthread) (posix : IsPthread pthread) where
  step-Sound : (k : ℕ) (op : Op) (w : World) → Sound (suc k) w → Sound k (step pthread op w)
  unfolding step
  step-Sound k (write_lock now timeout) w s =
      Attempt-Sound (w.held ≡ idle) writer (pthread (write_call now timeout) w.held).0 k w
        (cplus_rwlock_wrlock pthread now timeout w) s.0 (Room-weaken k w.held s.1)
        (Room-bound k w.held s.1) (cplus_rwlock_wrlock-Attempt pthread posix now timeout w s.0)
  step-Sound k (read_lock now timeout) w s =
      Attempt-Sound (w.held ≢ writer) (one_more w.held) (pthread (read_call now timeout) w.held).0 k
        w (cplus_rwlock_rdlock pthread now timeout w) s.0 (Room-weaken k w.held s.1)
        (Room-more k w.held s.1)
        (cplus_rwlock_rdlock-Attempt pthread posix now timeout w s.0 (Room-one k w.held s.1))
  step-Sound k release w s =
      let r = cplus_rwlock_unlock-Released pthread w posix s.0 in
      (r.agrees, rw (r.held) (Room-less k w.held s.1))

  -- Over a lock that behaves as POSIX says, the record that agrees with the lock at first agrees
  -- with it after any sequence of lock and unlock calls, as long as a `uint32_t` has room for the
  -- readers that are there and one more for each call.
  pub run-Agrees :
      (ops : List Op) (w : World) → Agrees w → Room (length ops) w.held → Agrees (run pthread ops w)
  unfolding run
  run-Agrees [] w a room = a
  run-Agrees (op ∷ ops) w a room =
      let s = step-Sound (length ops) op w (a, room) in run-Agrees ops (step pthread op w) s.0 s.1
