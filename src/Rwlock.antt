-- ===== src/Rwlock.antt =====
-- src/rwlock.c: what the wrapper records about a POSIX read-write lock. The POSIX functions are an
-- argument, `pthread`: it answers a call on a lock in some state with 0 or an error number.
-- Each call is one step. The code changes its record after `pthread_rwlock_unlock` has released the lock;
-- calls that overlap there are not modelled.
pub mod Refine
pub mod Trace
pub mod Create
pub mod Attributes
mod Tests
use libcplus.Common.{
  ℕ, zero, suc, ◌+◌, ◌-◌, ◌%◌, ◌^◌, Bool, true, false, Option, none, some, List, [], ◌∷◌, ◌==◌,
  if◌then◌else◌,
}
use libcplus.Systime.{Timespec, Timeval, get_abstime_after_msec}

-- `struct rwlock`, without the type tag and the pointers to the lock
pub record Rwlock : Type 0 where
  pub st_locked : Bool
  pub count_rdlocked : ℕ

-- `pthread_rwlock_t`: not locked, locked by `n + 1` readers, or by a writer
pub data Held : Type 0 where
  idle : Held
  readers : ℕ → Held
  writer : Held

pub data Call : Type 0 where
  wrlock trywrlock : Call
  timedwrlock : Timespec → Call
  rdlock tryrdlock : Call
  timedrdlock : Timespec → Call
  unlock : Call

-- `CPLUS_SUCCESS`, `CPLUS_FAIL`, or the error number of `pthread_rwlock_unlock` as it is
pub data Outcome : Type 0 where
  success fail : Outcome
  code : ℕ → Outcome

pub record World : Type 0 where
  pub lock : Rwlock
  pub held : Held
  pub errno : ℕ

abbrev pub Pthread : Type 0
Pthread = Call → Held → ℕ × Held

abbrev pub infinite_timeout : ℕ
infinite_timeout = 4294967295

-- `ts` keeps its zeros when the clock cannot be read
unfoldable pub deadline : Option Timeval → ℕ → Timespec
deadline now timeout = elim (get_abstime_after_msec now timeout) [
  | none ↦ record { tv_sec = 0; tv_nsec = 0 }
  | some ts ↦ ts
]

unfoldable pub write_call : Option Timeval → ℕ → Call
write_call now timeout =
    if timeout == infinite_timeout
    then wrlock
    else if timeout == 0
    then trywrlock
    else timedwrlock (deadline now timeout)

unfoldable pub read_call : Option Timeval → ℕ → Call
read_call now timeout =
    if timeout == infinite_timeout
    then rdlock
    else if timeout == 0
    then tryrdlock
    else timedrdlock (deadline now timeout)

-- the bookkeeping of a successful unlock
unfoldable pub unlocked : Rwlock → Rwlock
unlocked lock =
    if lock.count_rdlocked == 0
    then record lock { st_locked = false }
    else if lock.count_rdlocked - 1 == 0
    then record { st_locked = false; count_rdlocked = lock.count_rdlocked - 1 }
    else record lock { count_rdlocked = lock.count_rdlocked - 1 }

module _ (pthread : Pthread) where
  unfoldable pub cplus_rwlock_wrlock : Option Timeval → ℕ → World → Outcome × World
  cplus_rwlock_wrlock now timeout w =
      let r = pthread (write_call now timeout) w.held in
      if r.0 == 0
      then (success, record w { held = r.1; lock = record w.lock { st_locked = true } })
      else (fail, record w { held = r.1; errno = r.0 })

  unfoldable pub cplus_rwlock_rdlock : Option Timeval → ℕ → World → Outcome × World
  cplus_rwlock_rdlock now timeout w =
      let r = pthread (read_call now timeout) w.held in
      if r.0 == 0
      then (
        success,
        record w {
          held = r.1;
          lock = record { st_locked = true; count_rdlocked = (w.lock.count_rdlocked + 1) % 2 ^ 32 };
        },
      )
      else (fail, record w { held = r.1; errno = r.0 })

  unfoldable pub cplus_rwlock_unlock : World → Outcome × World
  cplus_rwlock_unlock w =
      if w.lock.st_locked
      then (let r = pthread unlock w.held in
          if r.0 == 0
          then (success, record w { held = r.1; lock = unlocked w.lock })
          else (code r.0, record w { held = r.1 }))
      else (fail, w)
