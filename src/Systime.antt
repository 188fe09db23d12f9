-- ===== src/Systime.antt =====
-- src/systime.c: deadlines, the 32-bit millisecond tick, sleeping, and the broken-down local time.
-- Clock readings, `nanosleep` and `localtime_r` are arguments: what the system returned.
pub mod Deadline
pub mod Tick
pub mod Sleep
pub mod Local
mod Tests
use libcplus.Common.{
  ℕ, ◌+◌, ◌-◌, ◌*◌, ◌/◌, ◌%◌, ◌^◌, Bool, true, Option, none, some, List, [], ◌∷◌, ltb, ◌==◌,
  if◌then◌else◌,
}

abbrev pub u32_mod : ℕ
u32_mod = 2 ^ 32

abbrev pub u32_max : ℕ
u32_max = 4294967295

-- `struct timespec`
pub record Timespec : Type 0 where
  pub tv_sec : ℕ
  pub tv_nsec : ℕ

-- `struct timeval`
pub record Timeval : Type 0 where
  pub tv_sec : ℕ
  pub tv_usec : ℕ

-- what the body computes from a reading of the clock
pub abstime_of : Timeval → ℕ → Timespec
abstime_of now msec =
    let usec = now.tv_usec + msec % 1000 * 1000 in
    let sec = now.tv_sec + msec / 1000 + usec / (1000 * 1000) in
    record { tv_sec = sec; tv_nsec = usec % (1000 * 1000) * 1000 }

-- The body behind the null check; `none` is a failed `gettimeofday`, and CPLUS_FAIL.
pub get_abstime_after_msec : Option Timeval → ℕ → Option Timespec
unfolding abstime_of
get_abstime_after_msec none msec = none
get_abstime_after_msec (some now) msec = some (abstime_of now msec)

pub abstick_of : Timespec → ℕ → Timespec
abstick_of now msec =
    let nsec = now.tv_nsec + msec % 1000 * (1000 * 1000) in
    let sec = now.tv_sec + msec / 1000 + nsec / (1000 * 1000 * 1000) in
    record { tv_sec = sec; tv_nsec = nsec % (1000 * 1000 * 1000) }

pub get_abstick_after_msec : Option Timespec → ℕ → Option Timespec
unfolding abstick_of
get_abstick_after_msec none msec = none
get_abstick_after_msec (some now) msec = some (abstick_of now msec)

-- the `uint32_t` that one round of the loop computes from a reading of the monotonic clock
pub tick_of : Timespec → ℕ
tick_of tp = (tp.tv_sec * 1000 % u32_mod + tp.tv_nsec / (1000 * 1000)) % u32_mod

-- The list holds the readings of successive rounds; `none` says that the loop is still running
-- when they are used up.
pub get_tick : List Timespec → Option ℕ
unfolding tick_of
get_tick [] = none
get_tick (tp ∷ rest) =
    let again = get_tick rest in if tick_of tp == 0 then again else some (tick_of tp)

pub diff_tick : ℕ → ℕ → ℕ
diff_tick early late =
    if early == 0
    then late
    else if ltb late early
    then ((u32_max - early + late) % u32_mod + 1) % u32_mod
    else late - early

pub elapsed_tick : ℕ → List Timespec → Option ℕ
elapsed_tick msec readings = elim (get_tick readings) [
  | none ↦ none
  | some now ↦ some (diff_tick msec now)
]

-- the three results of `compare_tick`: -1, 0 and 1
pub data Sign : Type 0 where
  earlier same later : Sign

pub compare_tick : ℕ → ℕ → Sign
compare_tick msec1 msec2 =
    if msec1 == msec2
    then same
    else if ltb msec2 msec1
    then (if ltb (msec1 - msec2) (u32_max / 2) then later else earlier)
    else (if ltb (msec2 - msec1) (u32_max / 2) then earlier else later)
