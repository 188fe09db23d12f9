-- ===== src/Systime/Tests.antt =====
-- The theorems about src/systime.c at concrete inputs.
use libcplus.Common.{
  ltb, ℕ, ◌+◌, ◌%◌, ◌*◌, ◌<◌, ◌≡◌, refl, some, [], ◌∷◌, arith, if◌then◌else◌, ◌==◌,
}
use libcplus.Systime.{Timespec, u32_mod, get_abstime_after_msec, diff_tick}
use libcplus.Systime.Deadline.{get_abstime_after_msec-exact}
use libcplus.Systime.Tick.{add-diff_tick}
use libcplus.Systime.Sleep.{cut, lasted, done, interrupted, sleep_msec, total, total-sleep_msec}
use libcplus.Systime.Local.{Tm, SysTime, get_local_time}

get_abstime_after_msec-exact_example :
    (t : Timespec) × (get_abstime_after_msec (some (record { tv_sec = 10; tv_usec = 999000 })) 2500
      ≡ some t)
    × (t.tv_nsec < 1000000000)
    × (t.tv_sec * 1000000000 + t.tv_nsec ≡ 10 * 1000000000 + 999000 * 1000 + 2500 * 1000000)
get_abstime_after_msec-exact_example =
    get_abstime_after_msec-exact (record { tv_sec = 10; tv_usec = 999000 }) 2500 (omega arith)

-- across the wrap
add-diff_tick_example :
    ((4294967290 + diff_tick 4294967290 4) % u32_mod ≡ 4) × (diff_tick 4294967290 4 < u32_mod)
add-diff_tick_example = add-diff_tick 4294967290 4 (omega arith) (omega arith)

diff_tick_wrap : diff_tick 4294967290 4 ≡ 10
unfolding diff_tick
diff_tick_wrap = refl

abbrev at : ℕ → ℕ → Timespec
at s ns = record { tv_sec = s; tv_nsec = ns }

total-sleep_msec_example :
    total (sleep_msec 1500 (cut 20) (interrupted (at 0 900000000) ∷ done ∷ [])) ≡ (
      if ltb 1500 1000
      then lasted ((if ◌==◌ 1500 0 then 1 else 1500) * 1000) (cut 20) * 1000
      else 1500 * 1000000)
total-sleep_msec_example =
    total-sleep_msec 1500 (cut 20) (interrupted (at 0 900000000) ∷ done ∷ []) (λ _. omega arith)

abbrev new_years_eve : Tm
new_years_eve = record {
  tm_sec = 59;
  tm_min = 59;
  tm_hour = 23;
  tm_mday = 31;
  tm_mon = 11;
  tm_year = 124;
  tm_wday = 2;
  tm_yday = 365;
}

abbrev blank : SysTime
blank = record {
  day_of_year = 0;
  day_of_week = 0;
  year = 0;
  month = 0;
  day_of_month = 0;
  hours = 0;
  minutes = 0;
  second = 0;
  millisecond = 0;
  microsecond = 0;
}

-- the last day of a leap year is day 366
day_366 :
    get_local_time (λ _. some new_years_eve) (some (record { tv_sec = 7; tv_usec = 123456 })) blank
    ≡ some (record {
      day_of_year = 366;
      day_of_week = 2;
      year = 2024;
      month = 12;
      day_of_month = 31;
      hours = 23;
      minutes = 59;
      second = 59;
      millisecond = 123;
      microsecond = 456;
    })
unfolding get_local_time
day_366 = refl
