-- ===== src/Data/Fill.antt =====
-- What `cplus_data_set_value` of src/data.c does once it has its block: text is printed into it, or
-- bytes are copied.
use libcplus.Common.{
  ℕ, zero, suc, ◌+◌, ◌^◌, ◌≤◌, ◌<◌, ◌≡◌, refl, arith, Bool, true, false, ◌||◌, Option, none, some,
  List, [], ◌∷◌, ◌++◌, ltb, leb, ◌==◌, if◌then◌else◌, length, length-append, inl, inr, ltb→le,
  success, fail, Errno, no_error, einval, enomem,
}
use libcplus.Data.{
  Value, Data, done, data_type, string_type, byte_array_type, with_value, validate, string,
  byte_array,
}
use libcplus.Data.Memory.{
  Copy, copied, refused, out_of_bounds, rsize_max_mem, take, overwrite, replicate, cplus_mem_set,
  cplus_mem_cpy_ex,
}
use libcplus.Data.Text.{cstr, cstr_next, print_into}
use libcplus.Data.Access.{grown, write_text, cleared_text, fill_text, store_bytes, fill_bytes}
use libcplus.Data.Decimal.{NoNul}
use libcplus.Data.Blocks.{length-overwrite, cstr-overwrite}
use libcplus.Data.WellFormed.{Covers, Terminated, IsValue, Updates, cstr-NoNul}

-- What the caller passes with the length `w`: a block with that many bytes, or a C string with a length
-- that has room for a NUL in 32 bits. A string is cleared only below the limit of `cplus_mem_set`. The
-- word of another type is any.
abbrev pub IsSource : Value → ℕ → Option (List ℕ) → Type 0
IsSource (string len bufs) w none = (w < rsize_max_mem) × (len ≤ rsize_max_mem)
IsSource (string len bufs) w (some chars) = (w + 1 < 2 ^ 32) × Terminated chars
IsSource (byte_array len bufs) w none = Unit
IsSource (byte_array len bufs) w (some bytes) = w ≤ length bytes
IsSource v w block = Unit

-- an object without its value
pub record IsFree (d : Data) : Type 0 where
  pub unlocked : d.spinlock ≡ false
  pub key : Covers d.key_len d.key

pub stored :
    (d : Data) (v : Value) (e : Errno)
    → IsFree d
    → IsValue d.bufs_size v
    → data_type v ≡ data_type d.value
    → Updates d (done success (validate (with_value d v)) e)
stored d v e free is same =
    (record { unlocked = free.unlocked; holds = is; key = free.key }, same, inr refl)

pub refused_by :
    (d : Data) (v : Value) (e : Errno)
    → IsFree d
    → IsValue d.bufs_size v
    → data_type v ≡ data_type d.value
    → Updates d (done fail (with_value d v) e)
refused_by d v e free is same =
    (record { unlocked = free.unlocked; holds = is; key = free.key }, same, inl refl)

take-NoNul : (n : ℕ) (s : List ℕ) → NoNul s → NoNul (take n s)
take-NoNul zero s h = tt
take-NoNul (suc n) [] h = tt
take-NoNul (suc n) (c ∷ s) h = (h.0, take-NoNul n s h.1)

length-take_le : (n : ℕ) (s : List ℕ) → length (take n s) ≤ n
length-take_le zero s = omega arith
length-take_le (suc n) [] = omega arith
length-take_le (suc n) (c ∷ s) = omega (arith, length-take_le n s)

pub print_into_cut :
    (b text : List ℕ) (room : ℕ)
    → room < length b
    → print_into b (suc room) text ≡ some (overwrite (take room text ++ 0 ∷ []) b)
unfolding print_into
print_into_cut b text room h =
    let small : leb (length (take room text ++ 0 ∷ [])) (length b) ≡ true =
      ground (arith, length-append (take room text) (0 ∷ []), length-take_le room text) in
    rw small refl

pub write_text-Updates :
    (d : Data) (len : ℕ) (b text : List ℕ)
    → IsFree d
    → string_type ≡ data_type d.value
    → 0 < len
    → len ≤ length b
    → NoNul text
    → Updates d (write_text d len b text)
unfolding write_text
write_text-Updates d zero b text free same pos fits nn = absurd (omega arith)
write_text-Updates d (suc room) b text free same pos fits nn =
    let written = overwrite (take room text ++ 0 ∷ []) b in
    let ends : cstr written ≡ some (take room text) =
      cstr-overwrite (take room text) b (take-NoNul room text nn)
        (omega (arith, length-take_le room text)) in
    let covers : suc room ≤ length written =
      omega (arith, length-overwrite (take room text ++ 0 ∷ []) b) in
    rw (print_into_cut b text room (omega arith)) (
      stored d (string (suc room) (some written)) no_error free (covers, (take room text, ends))
        same)

-- a copy that keeps the size of the block, or that is refused
abbrev pub SameSize : List ℕ → Copy → Type 0
SameSize block (copied b) = length b ≡ length block
SameSize block refused = Unit
SameSize block out_of_bounds = ⊥

SameSize-if :
    (block : List ℕ) (t : Bool) (c d : Copy)
    → SameSize block c
    → (t ≡ false → SameSize block d)
    → SameSize block (if t then c else d)
SameSize-if block true c d hc hd = hc
SameSize-if block false c d hc hd = hd refl

mem_set-SameSize :
    (block : List ℕ) (n : ℕ) → n ≤ length block → SameSize block (cplus_mem_set (some block) 0 n)
unfolding cplus_mem_set
mem_set-SameSize block n h = SameSize-if block (ltb rsize_max_mem n || n == 0) refused _ tt λ _.
    let fits : leb n (length block) ≡ true = ground arith in
    rw fits (length-overwrite (replicate n 0) block)

pub mem_cpy_ex-SameSize :
    (block bytes : List ℕ) (size n : ℕ)
    → size ≤ length block
    → n ≤ length bytes
    → SameSize block (cplus_mem_cpy_ex (some block) size (some bytes) n)
unfolding cplus_mem_cpy_ex
mem_cpy_ex-SameSize block bytes size n hs hn =
    SameSize-if block (size == 0 || ltb rsize_max_mem size || n == 0 || ltb size n) refused _ tt
      λ e.
        let inside : ltb size n ≡ false = ground arith in
        let reads : leb n (length bytes) ≡ true = ground arith in
        let writes : leb n (length block) ≡ true = ground (arith, ltb→le size n inside) in
        rw (reads, writes) (length-overwrite (take n bytes) block)

mem_set-ends :
    (block : List ℕ) (len : ℕ)
    → 0 < len
    → len ≤ rsize_max_mem
    → len ≤ length block
    → (cplus_mem_set (some block) 0 len ≡ copied (overwrite (replicate len 0) block))
      × (cstr (overwrite (replicate len 0) block) ≡ some [])
unfolding cplus_mem_set cstr cstr_next
mem_set-ends block zero pos small fits = absurd (omega arith)
mem_set-ends [] (suc n) pos small fits = absurd (omega arith)
mem_set-ends (c ∷ block) (suc n) pos small fits =
    let plain : (ltb rsize_max_mem (suc n) || suc n == 0) ≡ false = ground arith in
    let inside : leb (suc n) (length (c ∷ block)) ≡ true = ground arith in
    (rw (plain, inside) refl, refl)

-- the text that is printed, or the limit for clearing
unfoldable pub IsPrinted : ℕ → Option (List ℕ) → Type 0
IsPrinted len none = len ≤ rsize_max_mem
IsPrinted len (some chars) = Terminated chars

pub printed :
    (bufs block : Option (List ℕ)) (len w : ℕ)
    → IsSource (string len bufs) w block
    → IsPrinted (grown bufs len (w + 1)) block
unfolding IsPrinted
printed none none len w src = omega arith
printed (some b) none len w src = ground arith
printed bufs (some chars) len w src = src.1

pub string_fits :
    (bufs block : Option (List ℕ)) (len w : ℕ) → IsSource (string len bufs) w block → w + 1 < 2 ^ 32
string_fits bufs none len w src = omega arith
string_fits bufs (some chars) len w src = src.0

pub fill_text-Updates :
    (d : Data) (len : ℕ) (o block : Option (List ℕ))
    → IsFree d
    → string_type ≡ data_type d.value
    → 0 < len
    → Covers len o
    → IsPrinted len block
    → Updates d (fill_text d len o block)
unfolding fill_text cleared_text IsPrinted
fill_text-Updates d len none block free same pos c src =
    refused_by d (string len none) enomem free (tt, tt) same
fill_text-Updates d len (some b) none free same pos c src =
    let e = mem_set-ends b len pos src c in
    let written = overwrite (replicate len 0) b in
    rw e.0 (
      stored d (string len (some written)) no_error free
        (omega (arith, length-overwrite (replicate len 0) b), ([], e.1)) same)
fill_text-Updates d len (some b) (some chars) free same pos c (text, ends) =
    rw ends (write_text-Updates d len b text free same pos c (cstr-NoNul chars text ends))

store_bytes-Updates :
    (d : Data) (len : ℕ) (block : List ℕ) (c : Copy)
    → IsFree d
    → byte_array_type ≡ data_type d.value
    → len ≤ length block
    → d.bufs_size ≤ length block
    → SameSize block c
    → Updates d (store_bytes d len block c)
unfolding store_bytes
store_bytes-Updates d len block (copied b) free same hl hs e =
    stored d (byte_array len (some b)) no_error free (omega arith, omega arith) same
store_bytes-Updates d len block refused free same hl hs e =
    stored d (byte_array len (some block)) einval free (hl, hs) same
store_bytes-Updates d len block out_of_bounds free same hl hs e = e

pub fill_bytes-Updates :
    (d : Data) (len : ℕ) (o block : Option (List ℕ))
    → IsFree d
    → byte_array_type ≡ data_type d.value
    → len ≤ d.bufs_size
    → Covers d.bufs_size o
    → IsSource (byte_array len o) len block
    → Updates d (fill_bytes d len o block)
unfolding fill_bytes
fill_bytes-Updates d len none block free same h c src =
    refused_by d (byte_array len none) enomem free (tt, tt) same
fill_bytes-Updates d len (some b) none free same h c src =
    store_bytes-Updates d len b _ free same (omega arith) c (mem_set-SameSize b d.bufs_size c)
fill_bytes-Updates d len (some b) (some bytes) free same h c src =
    store_bytes-Updates d len b _ free same (omega arith) c
      (mem_cpy_ex-SameSize b bytes d.bufs_size len c src)
