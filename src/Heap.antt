-- ===== src/Heap.antt =====
-- The memory of src/llist.c: nodes at addresses, `errno`, and commands that may fault.
-- The address that an allocation returns is an argument of the command that makes it.
pub mod Returns
pub use libcplus.Common.{Errno, no_error, einval, enoent, enomem, enobufs}
use libcplus.Common.{ℕ, Bool, true, false, Option, none, some, ◌==◌, if◌then◌else◌}

abbrev pub Ptr : Type 0
Ptr = ℕ

abbrev pub null : Ptr
null = 0

-- `struct llist_node`; `value` is the `void *` that the client stores.
pub record Node : Type 0 where
  pub value : Ptr
  pub prev : Ptr
  pub next : Ptr

abbrev pub node : Ptr → Ptr → Ptr → Node
node v p n = record { value = v; prev = p; next = n }

abbrev pub Heap : Type 0
Heap = Ptr → Option Node

pub record Mem : Type 0 where
  pub heap : Heap
  pub errno : Errno

-- `fault` is an access through NULL or to a freed node.
pub data Run {ℓ} (A : Type ℓ) : Type ℓ where
  ok : A → Mem → Run A
  fault : Run A
  out_of_fuel : Run A

abbrev pub Cmd : Type 0 → Type 0
Cmd A = Mem → Run A

abbrev pub and_then {ℓ κ} : {A : Type ℓ} {B : Type κ} → Run A → (A → Mem → Run B) → Run B
and_then (ok a m) k = k a m
and_then fault k = fault
and_then out_of_fuel k = out_of_fuel

abbrev pub pure : {A : Type 0} → A → Cmd A
pure a m = ok a m

infixl 5 ◌>>=◌ ◌>>◌
abbrev pub ◌>>=◌ : {A B : Type 0} → Cmd A → (A → Cmd B) → Cmd B
◌>>=◌ c k m = and_then (c m) k

abbrev pub ◌>>◌ : {B : Type 0} → Cmd (Unit {0}) → Cmd B → Cmd B
c >> d = c >>= λ _. d

-- the `if` without an `else`
abbrev pub when : Bool → Cmd (Unit {0}) → Cmd (Unit {0})
when true c = c
when false c = pure tt

unfoldable pub write : Heap → Ptr → Option Node → Heap
write h p c q = if q == p then c else h q

abbrev pub set_errno : Errno → Cmd (Unit {0})
set_errno e m = ok tt (record m { errno = e })

unfoldable pub load : Ptr → Cmd Node
load p m = if p == null then fault else elim (m.heap p) [ none ↦ fault | some n ↦ ok n m ]

abbrev pub put : Ptr → Option Node → Cmd (Unit {0})
put p c m = ok tt (record m { heap = write m.heap p c })

unfoldable pub set_value : Ptr → Ptr → Cmd (Unit {0})
unfolding load write
set_value p v = do n ← load p; put p (some (record n { value = v }))

unfoldable pub set_prev : Ptr → Ptr → Cmd (Unit {0})
unfolding load write
set_prev p q = do n ← load p; put p (some (record n { prev = q }))

unfoldable pub set_next : Ptr → Ptr → Cmd (Unit {0})
unfolding load write
set_next p q = do n ← load p; put p (some (record n { next = q }))

-- `cplus_free`, or `cplus_mempool_free`, of a node
unfoldable pub release : Ptr → Cmd (Unit {0})
unfolding load write
release p = do _ ← load p; put p none
