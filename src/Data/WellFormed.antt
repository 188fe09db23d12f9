-- ===== src/Data/WellFormed.antt =====
-- When an object of src/data.c is well formed: its lengths do not pass the ends of its blocks, and its
-- string has a NUL.
use mathlib.Core.Path.{subst}
use libcplus.Common.{
  ℕ, ◌≤◌, ◌≡◌, ◌≢◌, refl, arith, Bool, true, false, Option, none, some, List, [], ◌∷◌, ltb, ◌==◌,
  if◌then◌else◌, length, inl, inr, Bool-cases, ==→ne, Status, fail, ◌⊎◌,
}
use libcplus.Data.{
  Value, Data, Run, done, spinning, fault, under_lock, data_type, null, unknown, scalar, string,
  byte_array,
}
use libcplus.Data.Memory.{Malloc, take, moved}
use libcplus.Data.Text.{cstr, cstr_next}
use libcplus.Data.Access.{grow, grown}
use libcplus.Data.Decimal.{NoNul}
use libcplus.Data.Blocks.{length-overwrite}

-- the documented behaviour of `malloc`: a block has the size that was asked for
abbrev pub IsMalloc : Malloc → Type 0
IsMalloc malloc = (n : ℕ) (b : List ℕ) → malloc n ≡ some b → length b ≡ n

-- a block is NULL or has at least `n` bytes
abbrev pub Covers : ℕ → Option (List ℕ) → Type 0
Covers n none = Unit
Covers n (some b) = n ≤ length b

-- a NUL is in the block
abbrev pub Terminated : List ℕ → Type 0
Terminated b = (s : List ℕ) × (cstr b ≡ some s)

abbrev pub IsText : Option (List ℕ) → Type 0
IsText none = Unit
IsText (some b) = Terminated b

abbrev pub IsValue : ℕ → Value → Type 0
IsValue size null = Unit
IsValue size unknown = Unit
IsValue size (scalar s w) = Unit
IsValue size (string len bufs) = Covers len bufs × IsText bufs
IsValue size (byte_array len bufs) = Covers len bufs × Covers size bufs

pub record IsWellFormed (d : Data) : Type 0 where
  pub unlocked : d.spinlock ≡ false
  pub holds : IsValue d.bufs_size d.value
  pub key : Covers d.key_len d.key

-- The call returns; the object is well formed and unlocked, its type is the same, and it is valid after
-- a success.
abbrev pub Updates : Data → Run Status → Type 0
Updates d (done r d' e) =
    IsWellFormed d' × (data_type d'.value ≡ data_type d.value) × ((r ≡ fail) ⊎ (d'.is_valid ≡ true))
Updates d spinning = ⊥
Updates d fault = ⊥

next-NoNul :
    (z : Bool) (c : ℕ) (rest : Option (List ℕ))
    → ((t : List ℕ) → rest ≡ some t → NoNul t)
    → (z ≡ false → c ≢ 0)
    → (s : List ℕ) → cstr_next z c rest ≡ some s
    → NoNul s
unfolding cstr_next
next-NoNul true c rest ih ne s h = let e : [] ≡ s = cc h in subst NoNul e tt
next-NoNul false c none ih ne s h = absurd (cc h)
next-NoNul false c (some t) ih ne s h =
    let e : c ∷ t ≡ s = cc h in subst NoNul e (ne refl, ih t refl)

pub cstr-NoNul : (b s : List ℕ) → cstr b ≡ some s → NoNul s
unfolding cstr
cstr-NoNul [] s h = absurd (cc h)
cstr-NoNul (c ∷ b) s h = next-NoNul (c == 0) c (cstr b) (cstr-NoNul b) (==→ne c 0) s h

pub moved-Covers :
    (old : List ℕ) (size : ℕ) (o : Option (List ℕ))
    → ((b : List ℕ) → o ≡ some b → length b ≡ size)
    → Covers size (moved old size o)
moved-Covers old size none h = tt
moved-Covers old size (some b) h = omega (arith, length-overwrite (take size old) b, h b refl)

pub new-Covers :
    (size : ℕ) (o : Option (List ℕ)) → ((b : List ℕ) → o ≡ some b → length b ≡ size) → Covers size o
new-Covers size none h = tt
new-Covers size (some b) h = omega (arith, h b refl)

-- the block that an operation makes large enough
pub grow-Covers :
    (malloc : Malloc) (bufs : Option (List ℕ)) (len size : ℕ)
    → IsMalloc malloc
    → Covers len bufs
    → Covers (grown bufs len size) (grow malloc bufs len size)
grow-Covers malloc none len size is c = new-Covers size (malloc size) (is size)
grow-Covers malloc (some b) len size is c = elim (Bool-cases (ltb len size)) [
  | inl e ↦ rw e (moved-Covers b size (malloc size) (is size))
  | inr e ↦ rw e c
]

pub size-le-grown : (bufs : Option (List ℕ)) (len size : ℕ) → size ≤ grown bufs len size
size-le-grown none len size = omega arith
size-le-grown (some b) len size = ground arith

pub grown-le :
    (bufs : Option (List ℕ)) (len size m : ℕ) → len ≤ m → size ≤ m → grown bufs len size ≤ m
grown-le none len size m hl hs = hs
grown-le (some b) len size m hl hs = ground arith

-- an unlocked object, whether the access takes the lock or not
pub lock_if {ℓ} :
    {A : Type ℓ} (b : Bool) (d : Data) (r : Run A)
    → d.spinlock ≡ false
    → (if b then under_lock d r else r) ≡ r
lock_if true d r free = rw free refl
lock_if false d r free = refl
