-- ===== src/Systime/Sleep.antt =====
-- `cplus_systime_sleep_msec` of src/systime.c, with the answers of `usleep` and `nanosleep`.
use libcplus.Common.{
  ℕ, ◌+◌, ◌-◌, ◌*◌, ◌/◌, ◌%◌, ◌≤◌, ◌≡◌, List, [], ◌∷◌, arith, ltb, ◌==◌, if◌then◌else◌, Bool-cases,
  inl, inr, false,
}
use libcplus.Systime.{Timespec}

-- What `nanosleep` returns: 0, -1 with EINTR and the time that is left, or any other failure.
pub data Nap : Type 0 where
  done failed : Nap
  interrupted : Timespec → Nap

-- How a `usleep` ends: after its whole time, or before, with EINTR, after so many microseconds.
pub data Usleep : Type 0 where
  whole : Usleep
  cut : ℕ → Usleep

-- One call of the sleeping function: a `usleep`, whose answer is not looked at, or a run of `nanosleep`
-- calls, each with its request.
pub data Calls : Type 0 where
  usleep : ℕ → Usleep → Calls
  nanosleep : List (Timespec × Nap) → Calls

-- the `while (1)` loop; it waits for further answers when the list is used up
unfoldable pub naps : Timespec → List Nap → List (Timespec × Nap)
naps req [] = []
naps req (done ∷ rest) = (req, done) ∷ []
naps req (failed ∷ rest) = (req, failed) ∷ []
naps req (interrupted rem ∷ rest) = (req, interrupted rem) ∷ naps rem rest

abbrev pub request : ℕ → Timespec
request ms = record { tv_sec = ms / 1000; tv_nsec = ms % 1000 * (1000 * 1000) }

unfoldable pub sleep_msec : ℕ → Usleep → List Nap → Calls
unfolding naps
sleep_msec msec answer answers =
    let ms = if msec == 0 then 1 else msec in
    if ltb ms 1000 then usleep (ms * 1000) answer else nanosleep (naps (request ms) answers)

abbrev pub nanoseconds : Timespec → ℕ
nanoseconds t = t.tv_sec * 1000000000 + t.tv_nsec

-- the time that a call sleeps: the whole request, or the part of it that is not left
abbrev pub slept : List (Timespec × Nap) → ℕ
slept [] = 0
slept ((req, done) ∷ rest) = nanoseconds req + slept rest
slept ((req, failed) ∷ rest) = slept rest
slept ((req, interrupted rem) ∷ rest) = nanoseconds req - nanoseconds rem + slept rest

-- every interruption leaves at most what was asked for, and the last answer is a completed sleep
abbrev pub Completes : Timespec → List Nap → Type 0
Completes req [] = ⊥
Completes req (done ∷ rest) = Unit
Completes req (failed ∷ rest) = ⊥
Completes req (interrupted rem ∷ rest) = (nanoseconds rem ≤ nanoseconds req) × Completes rem rest

slept-naps :
    (req : Timespec) (answers : List Nap)
    → Completes req answers
    → slept (naps req answers) ≡ nanoseconds req
unfolding naps
slept-naps req [] c = absurd c
slept-naps req (done ∷ rest) c = omega arith
slept-naps req (failed ∷ rest) c = absurd c
slept-naps req (interrupted rem ∷ rest) c = omega (arith, slept-naps rem rest c.1)

-- the microseconds that a `usleep` sleeps
abbrev pub lasted : ℕ → Usleep → ℕ
lasted us whole = us
lasted us (cut n) = n

-- the nanoseconds that a call sleeps
abbrev pub total : Calls → ℕ
total (usleep us answer) = lasted us answer * 1000
total (nanosleep run) = slept run

nanoseconds-request : (ms : ℕ) → nanoseconds (request ms) ≡ ms * 1000000
nanoseconds-request ms = omega arith

-- However often signals interrupt it, a sleep of a second or more whose `nanosleep` calls report the time
-- left honestly and end with a completed one sleeps exactly as long as asked for. A shorter sleep lasts
-- as long as its one `usleep`: the time asked for (1 ms for 0), or up to the first signal.
pub total-sleep_msec :
    (msec : ℕ) (answer : Usleep) (answers : List Nap)
    → (ltb msec 1000 ≡ false → Completes (request msec) answers)
    → total (sleep_msec msec answer answers) ≡ (
        if ltb msec 1000
        then lasted ((if msec == 0 then 1 else msec) * 1000) answer * 1000
        else msec * 1000000)
unfolding sleep_msec
total-sleep_msec msec answer answers c = elim (Bool-cases (ltb msec 1000)) [
  | inl e ↦ ground (arith, e)
  | inr e ↦ ground (arith, e, slept-naps (request msec) answers (c e), nanoseconds-request msec)
]
