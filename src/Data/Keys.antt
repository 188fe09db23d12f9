-- ===== src/Data/Keys.antt =====
-- The key of an object of src/data.c.
use mathlib.Core.Path.{subst}
use libcplus.Common.{
  ℕ, ◌+◌, ◌≤◌, ◌≡◌, refl, sym, arith, Bool, true, false, Option, none, some, List, leb, ◌==◌,
  if◌then◌else◌, length, Status, Errno, enomem, enobufs,
}
use libcplus.Data.{Data, Run, done, spinning, fault, data_type, under_lock}
use libcplus.Data.Memory.{Malloc, Copy, copied, refused, out_of_bounds, cplus_realloc, u32}
use libcplus.Data.Key.{keyed, new_key, longer_key, shorter_key, cplus_data_set_key}
use libcplus.Data.WellFormed.{
  IsMalloc, Covers, IsWellFormed, Updates, new-Covers, moved-Covers, lock_if,
}
use libcplus.Data.Fill.{SameSize, mem_cpy_ex-SameSize}

-- The call returns, and the object is well formed and of the same type.
abbrev pub Keeps : Data → Run Status → Type 0
Keeps d (done r d' e) = IsWellFormed d' × (data_type d'.value ≡ data_type d.value)
Keeps d spinning = ⊥
Keeps d fault = ⊥

pub Updates-Keeps : (d : Data) (r : Run Status) → Updates d r → Keeps d r
Updates-Keeps d (done r d' e) h = (h.0, h.1)
Updates-Keeps d spinning h = h
Updates-Keeps d fault h = h

unfoldable pub with_key : Data → ℕ → Option (List ℕ) → Data
with_key d n k = record d { key_len = n; key = k }

rekeyed :
    (d : Data) (n : ℕ) (k : Option (List ℕ))
    → IsWellFormed d
    → Covers n k
    → IsWellFormed (with_key d n k)
unfolding with_key
rekeyed d n k wf c = record { unlocked = wf.unlocked; holds = wf.holds; key = c }

keyed-Keeps :
    (d : Data) (n : ℕ) (old : List ℕ) (c : Copy)
    → IsWellFormed d
    → n ≤ length old
    → SameSize old c
    → Keeps d (keyed d n old c)
unfolding keyed with_key
keyed-Keeps d n old (copied b) wf h same = (rekeyed d n (some b) wf (omega arith), refl)
keyed-Keeps d n old refused wf h same = (rekeyed d n (some old) wf h, refl)
keyed-Keeps d n old out_of_bounds wf h same = same

new_key-Keeps :
    (d : Data) (n : ℕ) (bytes : List ℕ) (e : Errno) (o : Option (List ℕ))
    → IsWellFormed d
    → n ≤ length bytes
    → Covers n o
    → Keeps d (new_key d n bytes e o)
unfolding new_key with_key
new_key-Keeps d n bytes e none wf h c = (rekeyed d n none wf tt, refl)
new_key-Keeps d n bytes e (some b) wf h c =
    keyed-Keeps d n b _ wf c (mem_cpy_ex-SameSize b bytes n n c h)

Keeps-if :
    (d : Data) (b : Bool) (r s : Run Status)
    → (b ≡ true → Keeps d r)
    → (b ≡ false → Keeps d s)
    → Keeps d (if b then r else s)
Keeps-if d true r s hr hs = hr refl
Keeps-if d false r s hr hs = hs refl

module _ (malloc : Malloc) (is : IsMalloc malloc) (bytes : List ℕ) where
  longer-Keeps :
      (d : Data) (n : ℕ) (k : Option (List ℕ))
      → IsWellFormed (with_key d d.key_len k)
      → n ≤ length bytes
      → Keeps (with_key d d.key_len k) (longer_key malloc (with_key d d.key_len k) n bytes)
  unfolding longer_key with_key
  longer-Keeps d n none wf h =
      new_key-Keeps (with_key d d.key_len none) n bytes enomem (malloc n) wf h
        (new-Covers n (malloc n) (is n))
  longer-Keeps d n (some old) wf h =
      new_key-Keeps (with_key d d.key_len (some old)) n bytes enobufs (cplus_realloc malloc old n)
        wf h (moved-Covers old n (malloc n) (is n))

  shorter-Keeps :
      (d : Data) (n : ℕ) (k : Option (List ℕ))
      → IsWellFormed (with_key d d.key_len k)
      → n ≤ length bytes
      → Keeps (with_key d d.key_len k) (shorter_key (with_key d d.key_len k) n bytes)
  unfolding shorter_key with_key
  shorter-Keeps d n none wf h = (wf, refl)
  shorter-Keeps d n (some old) wf h =
      keyed-Keeps (with_key d d.key_len (some old)) d.key_len old _ wf wf.key
        (mem_cpy_ex-SameSize old bytes d.key_len n wf.key h)

  pub set_key-Keeps :
      (d : Data) (key_len : ℕ)
      → IsWellFormed d
      → u32 (key_len + 1) ≤ length bytes
      → Keeps d (cplus_data_set_key malloc d key_len (some bytes))
  unfolding cplus_data_set_key with_key
  set_key-Keeps d key_len wf h =
      let n = u32 (key_len + 1) in
      Keeps-if d (key_len == 0) _ _ (λ _. (wf, refl))
        λ _. subst (Keeps d) (sym (lock_if true d _ wf.unlocked)) (
          Keeps-if d (leb n d.key_len) _ _ (λ _. shorter-Keeps d n d.key wf h)
            (λ _. longer-Keeps d n d.key wf h))

-- The call, if it returns, leaves the value of the object alone.
abbrev pub KeepsValue : Data → Run Status → Type 0
KeepsValue d (done r d' e) = d'.value ≡ d.value
KeepsValue d spinning = Unit
KeepsValue d fault = Unit

keyed-KeepsValue : (d : Data) (n : ℕ) (old : List ℕ) (c : Copy) → KeepsValue d (keyed d n old c)
unfolding keyed
keyed-KeepsValue d n old (copied b) = refl
keyed-KeepsValue d n old refused = refl
keyed-KeepsValue d n old out_of_bounds = tt

new_key-KeepsValue :
    (d : Data) (n : ℕ) (bytes : List ℕ) (e : Errno) (o : Option (List ℕ))
    → KeepsValue d (new_key d n bytes e o)
unfolding new_key
new_key-KeepsValue d n bytes e none = refl
new_key-KeepsValue d n bytes e (some b) = keyed-KeepsValue d n b _

KeepsValue-if :
    (d : Data) (b : Bool) (r s : Run Status)
    → KeepsValue d r
    → KeepsValue d s
    → KeepsValue d (if b then r else s)
KeepsValue-if d true r s hr hs = hr
KeepsValue-if d false r s hr hs = hs

locked-KeepsValue : (d : Data) (r : Run Status) → KeepsValue d r → KeepsValue d (under_lock d r)
locked-KeepsValue d r h = KeepsValue-if d d.spinlock spinning r tt h

-- A new key, for an object that has none, leaves its value.
pub set_key-KeepsValue :
    (malloc : Malloc) (d : Data) (key_len : ℕ) (bytes : List ℕ)
    → d.key ≡ none
    → KeepsValue d (cplus_data_set_key malloc d key_len (some bytes))
unfolding cplus_data_set_key longer_key shorter_key
set_key-KeepsValue malloc d key_len bytes e =
    let n = u32 (key_len + 1) in
    KeepsValue-if d (key_len == 0) _ _ refl (
      locked-KeepsValue d _ (
        KeepsValue-if d (leb n d.key_len) _ _ (rw e refl)
          (rw e (new_key-KeepsValue d n bytes enomem (malloc n)))))
