-- ===== src/Systime/Tick.antt =====
-- The tick arithmetic of src/systime.c.
use libcplus.Common.{
  ℕ, ◌+◌, ◌%◌, ◌≤◌, ◌<◌, ◌≡◌, ◌≢◌, some, List, [], ◌∷◌, arith, ltb, ap, ne→==, eq→==, ◌++◌,
  if◌then◌else◌,
}
use libcplus.Systime.{
  Timespec, u32_mod, tick_of, get_tick, diff_tick, compare_tick, elapsed_tick, Sign, earlier, same,
  later,
}

-- The difference is the number of milliseconds, below 2^32, that lead from the early tick to the
-- late one on the 32-bit clock, also where the clock wraps in between.
pub add-diff_tick :
    (early late : ℕ)
    → early < u32_mod
    → late < u32_mod
    → ((early + diff_tick early late) % u32_mod ≡ late) × (diff_tick early late < u32_mod)
unfolding diff_tick
add-diff_tick early late h k = ground arith

-- A clock that starts at `early` and advances by less than 2^32 milliseconds has advanced by what
-- `diff_tick` says.
pub diff_tick-add :
    (early k : ℕ) → early < u32_mod → k < u32_mod → diff_tick early ((early + k) % u32_mod) ≡ k
unfolding diff_tick
diff_tick-add early k h l = ground arith

abbrev pub opposite : Sign → Sign
opposite earlier = later
opposite same = same
opposite later = earlier

-- Exchanging the ticks turns the answer of the comparison round, and only equal ticks compare the same.
pub compare_tick-opposite :
    (a b : ℕ) → (compare_tick b a ≡ opposite (compare_tick a b)) × (compare_tick a b ≡ same → a ≡ b)
unfolding compare_tick
compare_tick-opposite a b = ground arith

-- A tick that lies ahead by less than 2^31 - 1 milliseconds is later, also across the wrap.
pub compare_tick-ahead :
    (t k : ℕ) → t < u32_mod → 0 < k → k < 2147483647 → compare_tick ((t + k) % u32_mod) t ≡ later
unfolding compare_tick
compare_tick-ahead t k h p l = ground arith

-- For three distances near half the range the answer depends on where the clock stands: ahead by
-- 2^31 - 1 to 2^31 + 1, a tick is earlier if the clock did not wrap in between, and later if it did.
pub compare_tick-half :
    (t k : ℕ)
    → t < u32_mod
    → 2147483647 ≤ k
    → k ≤ 2147483649
    → compare_tick ((t + k) % u32_mod) t ≡ (if ltb (t + k) u32_mod then earlier else later)
unfolding compare_tick
compare_tick-half t k h p l = ground arith

-- `get_tick` passes over the readings whose 32-bit tick is 0, which `diff_tick` takes for "no tick",
-- and returns the first other one.
abbrev pub AllZero : List Timespec → Type 0
AllZero [] = Unit
AllZero (r ∷ rest) = (tick_of r ≡ 0) × AllZero rest

get_tick-first :
    (zeros : List Timespec) (tp : Timespec) (rest : List Timespec)
    → AllZero zeros
    → tick_of tp ≢ 0
    → get_tick (zeros ++ tp ∷ rest) ≡ some (tick_of tp)
unfolding get_tick
get_tick-first [] tp rest z n = rw (ne→== _ _ n)
get_tick-first (r ∷ zeros) tp rest z n = rw (eq→== _ _ z.0) (get_tick-first zeros tp rest z.1 n)

-- When the clock moves on from `start` by less than 2^32 ms to its first non-zero tick,
-- `elapsed_tick` returns the time that has passed, whatever zero ticks it reads before.
pub elapsed_tick-first :
    (start k : ℕ) (zeros : List Timespec) (tp : Timespec) (rest : List Timespec)
    → AllZero zeros
    → start < u32_mod
    → k < u32_mod
    → tick_of tp ≡ (start + k) % u32_mod
    → tick_of tp ≢ 0
    → elapsed_tick start (zeros ++ tp ∷ rest) ≡ some k
unfolding elapsed_tick
elapsed_tick-first start k zeros tp rest z hs hk e n =
    rw (elapsed_tick, get_tick-first zeros tp rest z n, e) (ap some (diff_tick-add start k hs hk))
