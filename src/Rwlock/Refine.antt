-- ===== src/Rwlock/Refine.antt =====
-- What src/rwlock.c records of a lock, against the lock under it.
use libcplus.Common.{
  ℕ, zero, suc, ◌+◌, ◌-◌, ◌%◌, ◌^◌, ◌<◌, ◌≡◌, ◌≢◌, refl, sym, ◌∙◌, ap, Bool, true, false, Option,
  ◌==◌, if◌then◌else◌, inl, inr, arith, Bool-cases, ==→eq, ==→ne, eq→==, ne→==,
}
use libcplus.Systime.{Timespec, Timeval}
use libcplus.Rwlock.{
  Rwlock, Held, idle, readers, writer, Call, wrlock, trywrlock, timedwrlock, rdlock, tryrdlock,
  timedrdlock, unlock, Outcome, success, fail, code, World, Pthread, infinite_timeout, write_call,
  read_call, cplus_rwlock_wrlock, cplus_rwlock_rdlock, cplus_rwlock_unlock, unlocked,
}

pub data IsWrite : Call → Type 0 where
  plain : IsWrite wrlock
  try : IsWrite trywrlock
  timed : {t : Timespec} → IsWrite (timedwrlock t)

pub data IsRead : Call → Type 0 where
  plain : IsRead rdlock
  try : IsRead tryrdlock
  timed : {t : Timespec} → IsRead (timedrdlock t)

abbrev pub one_more : Held → Held
one_more idle = readers 0
one_more (readers n) = readers (suc n)
one_more writer = writer

abbrev pub one_less : Held → Held
one_less idle = idle
one_less (readers zero) = idle
one_less (readers (suc n)) = readers n
one_less writer = idle

-- What POSIX says of the lock: a call that fails leaves it, a write lock is exclusive, read locks are
-- shared, and the holder can unlock.
pub record IsPthread (pthread : Pthread) : Type 0 where
  pub failure : (c : Call) (h : Held) → (pthread c h).0 ≢ 0 → (pthread c h).1 ≡ h
  pub write :
      (c : Call) (h : Held)
      → IsWrite c
      → (pthread c h).0 ≡ 0
      → (h ≡ idle) × ((pthread c h).1 ≡ writer)
  pub read :
      (c : Call) (h : Held)
      → IsRead c
      → (pthread c h).0 ≡ 0
      → (h ≢ writer) × ((pthread c h).1 ≡ one_more h)
  pub release :
      (h : Held) → h ≢ idle → ((pthread unlock h).0 ≡ 0) × ((pthread unlock h).1 ≡ one_less h)

-- what the record should say of a lock
abbrev pub recorded : Held → Rwlock
recorded idle = record { st_locked = false; count_rdlocked = 0 }
recorded (readers n) = record { st_locked = true; count_rdlocked = suc n }
recorded writer = record { st_locked = true; count_rdlocked = 0 }

abbrev pub Agrees : World → Type 0
Agrees w = w.lock ≡ recorded w.held

-- there is room for `k` more readers in a `uint32_t`
abbrev pub Room : ℕ → Held → Type 0
Room k idle = k < 2 ^ 32
Room k (readers n) = suc n + k < 2 ^ 32
Room k writer = k < 2 ^ 32

write_call-IsWrite : (now : Option Timeval) (timeout : ℕ) → IsWrite (write_call now timeout)
unfolding write_call
write_call-IsWrite now timeout = elim (Bool-cases (timeout == infinite_timeout)) [
  | inl e ↦ rw e IsWrite.plain
  | inr e ↦ elim (Bool-cases (timeout == 0)) [
    | inl z ↦ rw (e, z) IsWrite.try
    | inr z ↦ rw (e, z) IsWrite.timed
  ]
]

read_call-IsRead : (now : Option Timeval) (timeout : ℕ) → IsRead (read_call now timeout)
unfolding read_call
read_call-IsRead now timeout = elim (Bool-cases (timeout == infinite_timeout)) [
  | inl e ↦ rw e IsRead.plain
  | inr e ↦ elim (Bool-cases (timeout == 0)) [
    | inl z ↦ rw (e, z) IsRead.try
    | inr z ↦ rw (e, z) IsRead.timed
  ]
]

-- a call that locks: it succeeds from `Before` and moves the lock to `after`, or it changes nothing
pub data Attempt (Before : Type 0) (after : Held) (answer : ℕ) (w : World)
    : Outcome × World → Type 0 where
  done :
      {r : Outcome × World}
      → Before
      → r.0 ≡ success
      → r.1.held ≡ after
      → Agrees r.1
      → Attempt Before after answer w r
  failed :
      {r : Outcome × World}
      → r.0 ≡ fail
      → r.1 ≡ record w { errno = answer }
      → Attempt Before after answer w r

more_readers :
    (h : Held)
    → h ≢ writer
    → Room 1 h
    → (rw : Rwlock) → rw ≡ recorded h
    → record { st_locked = true; count_rdlocked = (rw.count_rdlocked + 1) % 2 ^ 32 }
      ≡ recorded (one_more h)
more_readers idle ne room lock e = rw e refl
more_readers (readers n) ne room lock e =
    let count : (suc n + 1) % 2 ^ 32 ≡ suc (suc n) = omega arith in rw (e, count) refl
more_readers writer ne room lock e = absurd (ne refl)

-- `cplus_rwlock_unlock` of a lock and its record
pub record Released (w : World) (r : Outcome × World) : Type 0 where
  pub outcome : r.0 ≡ (if w.lock.st_locked then success else fail)
  pub held : r.1.held ≡ one_less w.held
  pub agrees : Agrees r.1
  pub errno : r.1.errno ≡ w.errno

recorded-ne : (h : Held) (lock : Rwlock) → lock ≡ recorded h → lock.st_locked ≡ true → h ≢ idle
recorded-ne idle lock e s = cc (s, ap (λ l. l.st_locked) e)
recorded-ne (readers n) lock e s = λ h. cc h
recorded-ne writer lock e s = λ h. cc h

recorded-idle : (h : Held) (lock : Rwlock) → lock ≡ recorded h → lock.st_locked ≡ false → h ≡ idle
recorded-idle idle lock e s = refl
recorded-idle (readers n) lock e s = cc (s, ap (λ l. l.st_locked) e)
recorded-idle writer lock e s = cc (s, ap (λ l. l.st_locked) e)

unlocked-recorded : (h : Held) → unlocked (recorded h) ≡ recorded (one_less h)
unfolding unlocked
unlocked-recorded idle = refl
unlocked-recorded (readers zero) = refl
unlocked-recorded (readers (suc n)) =
    let count : suc (suc n) - 1 ≡ suc n = omega arith in
    rw (count, ne→== (suc (suc n)) 0 (omega arith), ne→== (suc n) 0 (omega arith)) refl
unlocked-recorded writer = refl

module _ (pthread : Pthread) (posix : IsPthread pthread) (now : Option Timeval) (timeout : ℕ)
    (w : World) (agrees : Agrees w) where
  -- Over a lock that behaves as POSIX says, from a record that agrees with it,
  -- `cplus_rwlock_wrlock` either succeeds, and then nobody held the lock, now a writer does, and
  -- the record agrees again, or it fails and changes nothing but `errno`, which is the error
  -- number of POSIX.
  pub cplus_rwlock_wrlock-Attempt :
      Attempt
        (w.held ≡ idle)
        writer
        (pthread (write_call now timeout) w.held).0
        w
        (cplus_rwlock_wrlock pthread now timeout w)
  unfolding cplus_rwlock_wrlock
  cplus_rwlock_wrlock-Attempt =
      let call = write_call now timeout in
      elim (Bool-cases ((pthread call w.held).0 == 0)) [
        | inl e ↦
            let got =
              posix.write call w.held (write_call-IsWrite now timeout)
                (==→eq (pthread call w.held).0 0 e) in
            rw e (done got.0 refl got.1 (rw (got.1, agrees, got.0) refl))
        | inr e ↦
            let same = posix.failure call w.held (==→ne (pthread call w.held).0 0 e) in
            rw e (failed refl (rw same refl))
      ]

  -- Over a lock that behaves as POSIX says, from a record that agrees with it, with room for a
  -- reader in a `uint32_t`, `cplus_rwlock_rdlock` either succeeds, and then no writer held the
  -- lock, now one more reader does, and the record agrees again, or it fails and changes nothing
  -- but `errno`, which is the error number of POSIX.
  pub cplus_rwlock_rdlock-Attempt :
      Room 1 w.held
      → Attempt
          (w.held ≢ writer)
          (one_more w.held)
          (pthread (read_call now timeout) w.held).0
          w
          (cplus_rwlock_rdlock pthread now timeout w)
  unfolding cplus_rwlock_rdlock
  cplus_rwlock_rdlock-Attempt room =
      let call = read_call now timeout in
      elim (Bool-cases ((pthread call w.held).0 == 0)) [
        | inl e ↦
            let got =
              posix.read call w.held (read_call-IsRead now timeout)
                (==→eq (pthread call w.held).0 0 e) in
            rw e (done got.0 refl got.1 (rw (got.1) (more_readers w.held got.0 room w.lock agrees)))
        | inr e ↦
            let same = posix.failure call w.held (==→ne (pthread call w.held).0 0 e) in
            rw e (failed refl (rw same refl))
      ]

unlock_if :
    (pthread : Pthread) (w : World)
    → IsPthread pthread
    → Agrees w
    → (locked : Bool) → w.lock.st_locked ≡ locked
    → Released w (
        if locked
        then (let r = pthread unlock w.held in
            if r.0 == 0
            then (success, record w { held = r.1; lock = unlocked w.lock })
            else (code r.0, record w { held = r.1 }))
        else (fail, w))
unlock_if pthread w posix agrees true e =
    let got = posix.release w.held (recorded-ne w.held w.lock agrees e) in
    rw (eq→== (pthread unlock w.held).0 0 got.0) record {
      outcome = sym (ap (λ b. if b then success else fail) e);
      held = got.1;
      agrees = ap unlocked agrees ∙ unlocked-recorded w.held ∙ ap recorded (sym got.1);
      errno = refl;
    }
unlock_if pthread w posix agrees false e = record {
  outcome = sym (ap (λ b. if b then success else fail) e);
  held = let free = recorded-idle w.held w.lock agrees e in free ∙ sym (ap one_less free);
  agrees = agrees;
  errno = refl;
}

-- Over a lock that behaves as POSIX says, from a record that agrees with it, `cplus_rwlock_unlock`
-- succeeds exactly if the lock is held, and then one holder leaves; otherwise it fails without a
-- call. The record agrees again, and `errno` is kept.
pub cplus_rwlock_unlock-Released :
    (pthread : Pthread) (w : World)
    → IsPthread pthread
    → Agrees w
    → Released w (cplus_rwlock_unlock pthread w)
unfolding cplus_rwlock_unlock
cplus_rwlock_unlock-Released pthread w posix agrees =
    unlock_if pthread w posix agrees w.lock.st_locked refl
