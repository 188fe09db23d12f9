-- ===== src/Heap/Returns.antt =====
-- Total correctness of a command: it ends without a fault and with enough fuel, in a result and a
-- memory that meet the postcondition.
use libcplus.Heap.{Mem, Run, ok, Cmd, and_then}

pub data Returns {A : Type 0} (P : A → Mem → Type 0) : Run A → Type 0 where
  returns : {a : A} {m : Mem} → P a m → Returns P (ok a m)

module _ {A : Type 0} {P : A → Mem → Type 0} where
  pub Returns-and_then :
      {B : Type 0} {Q : B → Mem → Type 0} {r : Run A} {k : A → Cmd B}
      → Returns P r
      → ((a : A) (m : Mem) → P a m → Returns Q (k a m))
      → Returns Q (and_then r k)
  Returns-and_then (returns p) k = k _ _ p

  pub Returns-weaken :
      {Q : A → Mem → Type 0} {r : Run A}
      → Returns P r
      → ((a : A) (m : Mem) → P a m → Q a m)
      → Returns Q r
  Returns-weaken (returns p) f = returns (f _ _ p)
