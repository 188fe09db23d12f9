-- ===== src/Common.antt =====
-- What the modules share: the libraries' names, and in two children the Boolean tests on native
-- numbers with their lemmas, and lists measured by native numbers.
mod Tests
mod Lists
mod Int
pub use Tests.*
pub use Lists.*
pub use Int.*
pub use Prim.Native.Nat.{ℕ, zero, suc, ◌+◌, ◌-◌, ◌*◌, ◌/◌, ◌%◌, ◌^◌, ◌≤◌, ◌<◌}
pub use mathlib.Core.Path.{◌≡◌, refl, sym, ap, ◌∙◌}
pub use mathlib.Core.Logic.{◌≢◌, ◌⊎◌, inl, inr}
pub use mathlib.Core.Bool.{Bool, true, false, ◌&&◌, ◌||◌, not}
pub use mathlib.Core.Option.{Option, none, some}
pub use mathlib.Core.List.{List, [], ◌∷◌, ◌++◌, map}
pub use native.Mathlib.Omega.{arith}

-- `CPLUS_SUCCESS` and `CPLUS_FAIL` of cplus/cplus_typedef.h
pub data Status : Type 0 where
  success fail : Status

-- the values of `errno` that the library sets
pub data Errno : Type 0 where
  no_error einval enoent enomem enobufs : Errno
