-- ===== src/Rwlock/Tests.antt =====
-- Runs of src/rwlock.c over a lock that never waits, and its theorems there.
use libcplus.Common.{ℕ, suc, ◌≡◌, ◌≢◌, refl, none, [], ◌∷◌, arith, true, false}
use libcplus.Rwlock.{
  Held, idle, readers, writer, Call, wrlock, trywrlock, timedwrlock, rdlock, tryrdlock, timedrdlock,
  unlock, World, Pthread, write_call, cplus_rwlock_wrlock, cplus_rwlock_unlock,
}
use libcplus.Rwlock.Refine.{
  IsWrite, IsRead, one_more, one_less, IsPthread, Agrees, Attempt, Released,
  cplus_rwlock_wrlock-Attempt, cplus_rwlock_unlock-Released,
}
use libcplus.Rwlock.Create.{Config, Answers, rwlock_initialize_object}
use libcplus.Rwlock.Attributes.{
  count, is_attr_init, is_attr_destroy, rwlock_initialize_object-attributes,
}
use libcplus.Rwlock.Trace.{write_lock, read_lock, release, run, run-Agrees}

-- 16 is EBUSY, 1 is EPERM
abbrev busy : Held → ℕ × Held
busy h = (16, h)

abbrev take_write : Held → ℕ × Held
take_write idle = (0, writer)
take_write (readers n) = busy (readers n)
take_write writer = busy writer

abbrev take_read : Held → ℕ × Held
take_read idle = (0, readers 0)
take_read (readers n) = (0, readers (suc n))
take_read writer = busy writer

abbrev let_go : Held → ℕ × Held
let_go idle = (1, idle)
let_go (readers n) = (0, one_less (readers n))
let_go writer = (0, idle)

abbrev posix_lock : Pthread
posix_lock wrlock h = take_write h
posix_lock trywrlock h = take_write h
posix_lock (timedwrlock t) h = take_write h
posix_lock rdlock h = take_read h
posix_lock tryrdlock h = take_read h
posix_lock (timedrdlock t) h = take_read h
posix_lock unlock h = let_go h

take_write-failure : (h : Held) → (take_write h).0 ≢ 0 → (take_write h).1 ≡ h
take_write-failure idle ne = absurd (ne refl)
take_write-failure (readers n) ne = refl
take_write-failure writer ne = refl

take_read-failure : (h : Held) → (take_read h).0 ≢ 0 → (take_read h).1 ≡ h
take_read-failure idle ne = absurd (ne refl)
take_read-failure (readers n) ne = absurd (ne refl)
take_read-failure writer ne = refl

let_go-failure : (h : Held) → (let_go h).0 ≢ 0 → (let_go h).1 ≡ h
let_go-failure idle ne = refl
let_go-failure (readers n) ne = absurd (ne refl)
let_go-failure writer ne = absurd (ne refl)

posix_lock-failure : (c : Call) (h : Held) → (posix_lock c h).0 ≢ 0 → (posix_lock c h).1 ≡ h
posix_lock-failure wrlock h ne = take_write-failure h ne
posix_lock-failure trywrlock h ne = take_write-failure h ne
posix_lock-failure (timedwrlock t) h ne = take_write-failure h ne
posix_lock-failure rdlock h ne = take_read-failure h ne
posix_lock-failure tryrdlock h ne = take_read-failure h ne
posix_lock-failure (timedrdlock t) h ne = take_read-failure h ne
posix_lock-failure unlock h ne = let_go-failure h ne

take_write-idle : (h : Held) → (take_write h).0 ≡ 0 → (h ≡ idle) × ((take_write h).1 ≡ writer)
take_write-idle idle e = (refl, refl)
take_write-idle (readers n) e = absurd (omega arith)
take_write-idle writer e = absurd (omega arith)

take_read-shared : (h : Held) → (take_read h).0 ≡ 0 → (h ≢ writer) × ((take_read h).1 ≡ one_more h)
take_read-shared idle e = ((λ w. cc w), refl)
take_read-shared (readers n) e = ((λ w. cc w), refl)
take_read-shared writer e = absurd (omega arith)

posix_lock-write :
    (c : Call) (h : Held)
    → IsWrite c
    → (posix_lock c h).0 ≡ 0
    → (h ≡ idle) × ((posix_lock c h).1 ≡ writer)
posix_lock-write c h IsWrite.plain e = take_write-idle h e
posix_lock-write c h IsWrite.try e = take_write-idle h e
posix_lock-write c h IsWrite.timed e = take_write-idle h e

posix_lock-read :
    (c : Call) (h : Held)
    → IsRead c
    → (posix_lock c h).0 ≡ 0
    → (h ≢ writer) × ((posix_lock c h).1 ≡ one_more h)
posix_lock-read c h IsRead.plain e = take_read-shared h e
posix_lock-read c h IsRead.try e = take_read-shared h e
posix_lock-read c h IsRead.timed e = take_read-shared h e

posix_lock-release :
    (h : Held) → h ≢ idle → ((posix_lock unlock h).0 ≡ 0) × ((posix_lock unlock h).1 ≡ one_less h)
posix_lock-release idle ne = absurd (ne refl)
posix_lock-release (readers n) ne = (refl, refl)
posix_lock-release writer ne = (refl, refl)

posix_lock-IsPthread : IsPthread posix_lock
posix_lock-IsPthread = record {
  failure = posix_lock-failure;
  write = posix_lock-write;
  read = posix_lock-read;
  release = posix_lock-release;
}

abbrev new_lock : World
new_lock = record {
  lock = record { st_locked = false; count_rdlocked = 0 };
  held = idle;
  errno = 0;
}

abbrev read_twice : World
read_twice = record {
  lock = record { st_locked = true; count_rdlocked = 2 };
  held = readers 1;
  errno = 0;
}

cplus_rwlock_wrlock-Attempt_example :
    Attempt
      (new_lock.held ≡ idle)
      writer
      (posix_lock (write_call none 0) idle).0
      new_lock
      (cplus_rwlock_wrlock posix_lock none 0 new_lock)
cplus_rwlock_wrlock-Attempt_example =
    cplus_rwlock_wrlock-Attempt posix_lock posix_lock-IsPthread none 0 new_lock refl

cplus_rwlock_unlock-Released_example :
    Released read_twice (cplus_rwlock_unlock posix_lock read_twice)
cplus_rwlock_unlock-Released_example =
    cplus_rwlock_unlock-Released posix_lock read_twice posix_lock-IsPthread refl

run-Agrees_example :
    Agrees
      (run posix_lock (read_lock none 0 ∷ write_lock none 5 ∷ release ∷ release ∷ []) read_twice)
run-Agrees_example =
    run-Agrees posix_lock posix_lock-IsPthread
      (read_lock none 0 ∷ write_lock none 5 ∷ release ∷ release ∷ []) read_twice refl (omega arith)

-- a lock that is shared between processes and prefers writers
abbrev shared_config : Config
shared_config = record { named = true; mode = 1; kind = 2 }

-- every call succeeds but the one that sets the kind, or but the last
abbrev kind_refused : Answers
kind_refused = record {
  object = true;
  attr = true;
  set_kind = false;
  name = true;
  shared = true;
  block = true;
  owner = true;
  attr_again = true;
  set_pshared = true;
  init = true;
}

abbrev init_refused : Answers
init_refused = record kind_refused { set_kind = true; init = false }

rwlock_initialize_object-attributes_example :
    count is_attr_init (rwlock_initialize_object shared_config init_refused).events
    ≡ count is_attr_destroy (rwlock_initialize_object shared_config init_refused).events
rwlock_initialize_object-attributes_example =
    rwlock_initialize_object-attributes init_refused shared_config
