-- ===== src/Systime/Local.antt =====
-- The broken-down local time of src/systime.c. `localtime_r` and `gettimeofday` are arguments.
use libcplus.Common.{ℕ, ◌+◌, ◌*◌, ◌/◌, ◌%◌, ◌≤◌, ◌<◌, ◌≡◌, Option, none, some, arith}
use libcplus.Systime.{Timeval}

-- `struct tm`; years from 1900 on
pub record Tm : Type 0 where
  pub tm_sec : ℕ
  pub tm_min : ℕ
  pub tm_hour : ℕ
  pub tm_mday : ℕ
  pub tm_mon : ℕ
  pub tm_year : ℕ
  pub tm_wday : ℕ
  pub tm_yday : ℕ

-- `cplus_systime`
pub record SysTime : Type 0 where
  pub day_of_year : ℕ
  pub day_of_week : ℕ
  pub year : ℕ
  pub month : ℕ
  pub day_of_month : ℕ
  pub hours : ℕ
  pub minutes : ℕ
  pub second : ℕ
  pub millisecond : ℕ
  pub microsecond : ℕ

-- `day_of_week` is assigned twice, first as `tm_wday + 1`: the second value stays.
unfoldable pub convert_to_systime : SysTime → Tm → SysTime
convert_to_systime stime tm = record stime {
  day_of_year = tm.tm_yday + 1;
  year = tm.tm_year + 1900;
  month = tm.tm_mon + 1;
  day_of_week = tm.tm_wday;
  day_of_month = tm.tm_mday;
  hours = tm.tm_hour;
  minutes = tm.tm_min;
  second = tm.tm_sec;
}

-- The result is the new contents of `stime`; `none` is CPLUS_FAIL. `localtime` gets the seconds.
unfoldable pub get_local_time : (ℕ → Option Tm) → Option Timeval → SysTime → Option SysTime
unfolding convert_to_systime
get_local_time localtime none stime = none
get_local_time localtime (some tv) stime = elim (localtime tv.tv_sec) [
  | none ↦ none
  | some tm ↦ some (
      convert_to_systime
        (record stime { millisecond = tv.tv_usec / 1000; microsecond = tv.tv_usec % 1000 }) tm)
]

-- the ranges that the C standard gives for `struct tm`
pub record IsTm (tm : Tm) : Type 0 where
  pub sec : tm.tm_sec ≤ 60
  pub min : tm.tm_min ≤ 59
  pub hour : tm.tm_hour ≤ 23
  pub mday : (1 ≤ tm.tm_mday) × (tm.tm_mday ≤ 31)
  pub mon : tm.tm_mon ≤ 11
  pub wday : tm.tm_wday ≤ 6
  pub yday : tm.tm_yday ≤ 365

pub record IsSysTime (t : SysTime) (usec : ℕ) : Type 0 where
  pub day_of_year : (1 ≤ t.day_of_year) × (t.day_of_year ≤ 366)
  pub day_of_week : t.day_of_week ≤ 6
  pub year : 1900 ≤ t.year
  pub month : (1 ≤ t.month) × (t.month ≤ 12)
  pub day_of_month : (1 ≤ t.day_of_month) × (t.day_of_month ≤ 31)
  pub hours : t.hours ≤ 23
  pub minutes : t.minutes ≤ 59
  pub second : t.second ≤ 60
  pub millisecond : t.millisecond ≤ 999
  pub microsecond : t.microsecond ≤ 999
  pub fraction : t.millisecond * 1000 + t.microsecond ≡ usec

-- When both calls succeed, every field of the local time is in its range (a day of the year up to
-- 366, a second up to 60), and milliseconds and microseconds make up the clock's microseconds.
pub get_local_time-IsSysTime :
    (localtime : ℕ → Option Tm) (tv : Timeval) (stime : SysTime) (tm : Tm)
    → localtime tv.tv_sec ≡ some tm
    → IsTm tm
    → tv.tv_usec < 1000000
    → (t : SysTime) × (get_local_time localtime (some tv) stime ≡ some t) × IsSysTime t tv.tv_usec
unfolding get_local_time
get_local_time-IsSysTime localtime tv stime tm e v h = (
  convert_to_systime
      (record stime { millisecond = tv.tv_usec / 1000; microsecond = tv.tv_usec % 1000 }) tm,
  ground arith,
  omega arith,
)
