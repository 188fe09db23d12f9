-- ===== src/Systime/Deadline.antt =====
-- The deadlines of src/systime.c.
use libcplus.Common.{ℕ, ◌+◌, ◌*◌, ◌<◌, ◌≡◌, some, arith, refl}
use libcplus.Systime.{
  Timespec, Timeval, abstime_of, abstick_of, get_abstime_after_msec, get_abstick_after_msec,
}

-- From a normalised reading, the absolute time is normalised and lies exactly `msec` milliseconds
-- after it.
pub get_abstime_after_msec-exact :
    (now : Timeval) (msec : ℕ)
    → now.tv_usec < 1000000
    → (t : Timespec) × (get_abstime_after_msec (some now) msec ≡ some t)
      × (t.tv_nsec < 1000000000)
      × (t.tv_sec * 1000000000 + t.tv_nsec
          ≡ now.tv_sec * 1000000000 + now.tv_usec * 1000 + msec * 1000000)
unfolding get_abstime_after_msec
get_abstime_after_msec-exact now msec h = (abstime_of now msec, refl, omega arith, omega arith)

-- From a normalised reading of the monotonic clock, the deadline is normalised and lies exactly
-- `msec` milliseconds after it.
pub get_abstick_after_msec-exact :
    (now : Timespec) (msec : ℕ)
    → now.tv_nsec < 1000000000
    → (t : Timespec) × (get_abstick_after_msec (some now) msec ≡ some t)
      × (t.tv_nsec < 1000000000)
      × (t.tv_sec * 1000000000 + t.tv_nsec ≡ now.tv_sec * 1000000000 + now.tv_nsec + msec * 1000000)
unfolding get_abstick_after_msec
get_abstick_after_msec-exact now msec h = (abstick_of now msec, refl, omega arith, omega arith)
