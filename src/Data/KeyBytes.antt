-- ===== src/Data/KeyBytes.antt =====
-- `cplus_data_set_key` of src/data.c: which bytes are the key, and what a failure leaves.
use mathlib.Core.Path.{subst}
use libcplus.Common.{
  ℕ, ◌+◌, ◌^◌, ◌≤◌, ◌<◌, ◌≡◌, refl, sym, ◌∙◌, arith, true, false, Option, none, some, List, leb,
  ◌==◌, if◌then◌else◌, length, inl, inr, Bool-cases, leb→le, Status, success, fail, no_error,
  einval, enomem, enobufs,
}
use libcplus.Data.{Data, Run, done}
use libcplus.Data.Memory.{Malloc, rsize_max_mem, take, overwrite, moved, cplus_mem_cpy_ex, u32}
use libcplus.Data.Key.{
  keyed, new_key, longer_key, shorter_key, cplus_data_set_key, cplus_data_get_key,
}
use libcplus.Data.Blocks.{length-take, length-overwrite, take-overwrite, cplus_mem_cpy_ex_fit}
use libcplus.Data.WellFormed.{lock_if}
use libcplus.Data.RoundTrip.{Allocates}
use libcplus.Data.Keys.{with_key}

-- NULL without a length, or a block with at least `key_len` bytes
abbrev pub IsKey : ℕ → Option (List ℕ) → Type 0
IsKey n none = n ≡ 0
IsKey n (some b) = (n ≤ length b) × (n ≤ rsize_max_mem)

module _ (malloc : Malloc) (room : Allocates malloc) (d : Data) (n : ℕ) (bytes : List ℕ)
    (pos : 0 < n) (limit : n ≤ rsize_max_mem) (whole : n ≤ length bytes) where
  -- the key is stored, its bytes are there, and the object knows the length of its block
  abbrev Stores : ℕ → Run Status → Type 0
  Stores m r =
      (d' : Data) × (b : List ℕ) × (r ≡ done success d' no_error)
      × (cplus_data_get_key d' ≡ some b)
      × (take n b ≡ take n bytes)
      × (d'.key_len ≡ m)
      × (m ≤ length b)

  front : (old : List ℕ) → n ≤ length old → take n (overwrite (take n bytes) old) ≡ take n bytes
  front old h =
      let l = length-take n bytes whole in
      subst (λ (m : ℕ). take m (overwrite (take n bytes) old) ≡ take n bytes) l
        (take-overwrite (take n bytes) old (omega (arith, l)))

  keyed-Stores :
      (k : Data) (m : ℕ) (old : List ℕ)
      → n ≤ m
      → m ≤ rsize_max_mem
      → m ≤ length old
      → Stores m (keyed k m old (cplus_mem_cpy_ex (some old) m (some bytes) n))
  unfolding keyed cplus_data_get_key
  keyed-Stores k m old h small c =
      let written = overwrite (take n bytes) old in
      (
        record k { key_len = m; key = some written },
        written,
        rw (cplus_mem_cpy_ex_fit old bytes m n pos h small whole c) refl,
        refl,
        front old (omega arith),
        refl,
        omega (arith, length-overwrite (take n bytes) old),
      )

  longer-Stores :
      (k : Option (List ℕ)) → Stores n (longer_key malloc (with_key d d.key_len k) n bytes)
  unfolding longer_key new_key with_key
  longer-Stores none =
      let (b, e, l) = room n in
      subst
        (λ (o : Option (List ℕ)). Stores n (new_key (with_key d d.key_len none) n bytes enomem o))
        (sym e) (keyed-Stores (with_key d d.key_len none) n b (omega arith) limit (omega arith))
  longer-Stores (some old) =
      let (b, e, l) = room n in
      let moved_block = overwrite (take n old) b in
      subst
        (λ (o : Option (List ℕ)).
          Stores n (new_key (with_key d d.key_len (some old)) n bytes enobufs (moved old n o)))
        (sym e)
        (keyed-Stores (with_key d d.key_len (some old)) n moved_block (omega arith) limit
          (omega (arith, length-overwrite (take n old) b)))

  shorter-Stores :
      (k : Option (List ℕ))
      → IsKey d.key_len k
      → n ≤ d.key_len
      → Stores d.key_len (shorter_key (with_key d d.key_len k) n bytes)
  unfolding shorter_key with_key
  shorter-Stores none is h = absurd (omega arith)
  shorter-Stores (some old) is h =
      keyed-Stores (with_key d d.key_len (some old)) d.key_len old h is.1 is.0

  set_key-Stores :
      (key_len : ℕ)
      → 0 < key_len
      → n ≡ key_len + 1
      → d.spinlock ≡ false
      → IsKey d.key_len d.key
      → Stores
          (if leb n d.key_len then d.key_len else n)
          (cplus_data_set_key malloc d key_len (some bytes))
  unfolding cplus_data_set_key with_key
  set_key-Stores key_len some_key e free is =
      let size : u32 (key_len + 1) ≡ n = omega arith in
      let plain : (key_len == 0) ≡ false = ground arith in
      rw (plain, size)
        (subst (Stores (if leb n d.key_len then d.key_len else n)) (sym (lock_if true d _ free))
          (elim (Bool-cases (leb n d.key_len)) [
            | inl h ↦ rw h (shorter-Stores d.key is (leb→le n d.key_len h))
            | inr h ↦ rw h (longer-Stores d.key)
          ]))

-- A key is stored with its NUL, and `cplus_data_get_key` gives a block that starts with them; the object
-- keeps the length that it says when the new key fits in there, and has the new length otherwise, and the
-- block has as many bytes. The object is not locked, and has no key and the length 0, or a block with at
-- least the length that it says, which is at most RSIZE_MAX_MEM. The new key has at least one character
-- and less than RSIZE_MAX_MEM, the caller's block has the key and one byte behind it, and the
-- allocator has memory.
pub cplus_data_get_key-cplus_data_set_key :
    (malloc : Malloc) (d : Data) (key_len : ℕ) (bytes : List ℕ)
    → Allocates malloc
    → d.spinlock ≡ false
    → IsKey d.key_len d.key
    → 0 < key_len
    → key_len < rsize_max_mem
    → key_len < length bytes
    → (d' : Data) × (b : List ℕ) × (cplus_data_set_key malloc d key_len (some bytes)
        ≡ done success d' no_error)
      × (cplus_data_get_key d' ≡ some b)
      × (take (key_len + 1) b ≡ take (key_len + 1) bytes)
      × (d'.key_len ≡ (if leb (key_len + 1) d.key_len then d.key_len else key_len + 1))
      × ((if leb (key_len + 1) d.key_len then d.key_len else key_len + 1) ≤ length b)
cplus_data_get_key-cplus_data_set_key malloc d key_len bytes room free is pos small whole =
    set_key-Stores malloc room d (key_len + 1) bytes (omega arith) (omega arith) (omega arith)
      key_len pos (omega arith) free is

-- When there is no memory for the first key, the object keeps the length of the key that it has not:
-- setting the key again then reports CPLUS_SUCCESS, whatever the allocator has by then, and the key is
-- still NULL.
pub cplus_data_set_key-lost :
    (malloc m : Malloc) (d : Data) (key_len : ℕ) (bytes : List ℕ)
    → d.spinlock ≡ false
    → d.key ≡ none
    → 0 < key_len
    → key_len + 1 < 2 ^ 32
    → d.key_len ≤ key_len
    → malloc (key_len + 1) ≡ none
    → (d' : Data) × (cplus_data_set_key malloc d key_len (some bytes) ≡ done fail d' enomem)
      × (cplus_data_set_key m d' key_len (some bytes) ≡ done success d' einval)
      × (cplus_data_get_key d' ≡ none)
unfolding cplus_data_set_key longer_key new_key shorter_key cplus_data_get_key
cplus_data_set_key-lost malloc m d key_len bytes free no_key pos fits short out =
    let size : u32 (key_len + 1) ≡ key_len + 1 = omega arith in
    let plain : (key_len == 0) ≡ false = ground arith in
    let longer : leb (key_len + 1) d.key_len ≡ false = ground arith in
    let again : leb (key_len + 1) (key_len + 1) ≡ true = ground arith in
    let d' = record d { key_len = key_len + 1; key = none } in
    (
      d',
      rw (plain, size) (lock_if true d _ free ∙ rw (longer, no_key, out) refl),
      rw (plain, size) (lock_if true d' _ free ∙ rw again refl),
      refl,
    )
