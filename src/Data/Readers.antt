-- ===== src/Data/Readers.antt =====
-- The readers `cplus_data_get_as_*` of src/data.c on well-formed objects.
use mathlib.Core.Path.{subst}
use libcplus.Common.{
  ℕ, ◌≤◌, ◌≡◌, refl, sym, arith, Bool, true, false, Option, none, some, List, [], ◌∷◌, leb, ◌==◌,
  if◌then◌else◌, length, ==→ne, success, no_error,
}
use libcplus.Data.{
  Scalar, Value, Data, Run, done, spinning, fault, under_lock, or_fault, with_value, null, unknown,
  scalar, string, byte_array,
}
use libcplus.Data.Memory.{Copy, copied, refused, out_of_bounds, cplus_mem_cpy, to_bytes}
use libcplus.Data.Text.{cstr, same_word, true_word, false_word}
use libcplus.Data.Words.{Floats, size_of, is_spin, cast, scan_scalar}
use libcplus.Data.GetAs.{
  scanned, copied_word, at_most, get_as_integer, get_as_floating, bool_of_text, bool_of_bytes,
  cplus_data_get_as_bool,
}
use libcplus.Data.Print.{IsInteger}
use libcplus.Data.WellFormed.{Covers, IsValue, IsWellFormed, lock_if}
use libcplus.Data.Resize.{Converts, cast-Converts, length-to_bytes}

-- the call returns, and the object is as it was
abbrev pub Returns {ℓ} : {A : Type ℓ} → Data → Run A → Type 0
Returns d (done a d' e) = d' ≡ d
Returns d spinning = ⊥
Returns d fault = ⊥

-- The text of a string object is there.
abbrev pub HasText : Value → Type 0
HasText (string len none) = ⊥
HasText v = Unit

module _ {ℓ} {A : Type ℓ} where
  Returns-lock :
      (d : Data) (r : Run A) → d.spinlock ≡ false → Returns d r → Returns d (under_lock d r)
  Returns-lock d r free h = subst (Returns d) (sym (lock_if true d r free)) h

  Returns-if :
      (d : Data) (b : Bool) (r s : Run A)
      → Returns d r
      → (b ≡ false → Returns d s)
      → Returns d (if b then r else s)
  Returns-if d true r s hr hs = hr
  Returns-if d false r s hr hs = hs refl

  Returns-text :
      (d : Data) (o : Option (List ℕ)) (k : List ℕ → Run A) (s : List ℕ)
      → o ≡ some s
      → Returns d (k s)
      → Returns d (or_fault o k)
  Returns-text d o k s e h = rw e h

scanned-Returns : (d : Data) (old : ℕ) (o : Option ℕ) → Returns d (scanned d old o)
unfolding scanned
scanned-Returns d old none = refl
scanned-Returns d old (some w) = refl

-- a copy that stays inside its blocks
abbrev Inside : Copy → Type 0
Inside (copied b) = Unit
Inside refused = Unit
Inside out_of_bounds = ⊥

copied_word-Returns : (d : Data) (old : ℕ) (c : Copy) → Inside c → Returns d (copied_word d old c)
unfolding copied_word
copied_word-Returns d old (copied b) h = refl
copied_word-Returns d old refused h = refl
copied_word-Returns d old out_of_bounds h = h

Inside-if : (b : Bool) (c d : Copy) → Inside c → Inside d → Inside (if b then c else d)
Inside-if true c d hc hd = hc
Inside-if false c d hc hd = hd

mem_cpy-Inside :
    (dest : List ℕ) (src : Option (List ℕ)) (n : ℕ)
    → Covers n src
    → n ≤ length dest
    → Inside (cplus_mem_cpy (some dest) src n)
unfolding cplus_mem_cpy
mem_cpy-Inside dest none n hs hd = tt
mem_cpy-Inside dest (some src) n hs hd =
    let reads : leb n (length src) ≡ true = ground arith in
    let writes : leb n (length dest) ≡ true = ground arith in
    Inside-if (n == 0) refused _ tt (rw (reads, writes) tt)

at_most-left : (a b : ℕ) → at_most a b ≤ a
at_most-left a b = ground arith

at_most-right : (a b : ℕ) → at_most a b ≤ b
at_most-right a b = ground arith

less_Covers : (m n : ℕ) (o : Option (List ℕ)) → m ≤ n → Covers n o → Covers m o
less_Covers m n none h c = tt
less_Covers m n (some b) h c = omega arith

word_of_bytes-Returns :
    (d : Data) (size old len : ℕ) (bufs : Option (List ℕ))
    → Covers len bufs
    → Returns d
        (copied_word d old (cplus_mem_cpy (some (to_bytes size old)) bufs (at_most size len)))
word_of_bytes-Returns d size old len bufs c = copied_word-Returns d old _ (
    mem_cpy-Inside (to_bytes size old) bufs (at_most size len)
      (less_Covers (at_most size len) len bufs (at_most-right size len) c)
      (omega (arith, at_most-left size len, length-to_bytes size old)))

module _ (floats : Floats) where
  integer-Returns :
      (t : Scalar) (d : Data) (size old : ℕ) (v : Value)
      → d.spinlock ≡ false
      → IsValue size v
      → HasText v
      → Returns (with_value d v) (get_as_integer floats t (with_value d v) old)
  unfolding get_as_integer
  integer-Returns t d size old null free is has = refl
  integer-Returns t d size old unknown free is has = refl
  integer-Returns t d size old (scalar s w) free is has =
      Returns-if (with_value d (scalar s w)) (is_spin s) _ _
        (Returns-lock (with_value d (scalar s w)) _ free refl) (λ _. refl)
  integer-Returns t d size old (string len none) free is has = absurd has
  integer-Returns t d size old (string len (some b)) free is has =
      let o = with_value d (string len (some b)) in
      Returns-lock o _ free
        (Returns-text o (cstr b) _ is.1.0 is.1.1 (scanned-Returns o old (scan_scalar t is.1.0)))
  integer-Returns t d size old (byte_array len bufs) free is has =
      let o = with_value d (byte_array len bufs) in
      Returns-lock o _ free (word_of_bytes-Returns o (size_of t) old len bufs is.0)

  floating-Returns :
      (t : Scalar) (d : Data) (size old : ℕ) (v : Value)
      → d.spinlock ≡ false
      → IsValue size v
      → HasText v
      → Returns (with_value d v) (get_as_floating floats t (with_value d v) old)
  unfolding get_as_floating
  floating-Returns t d size old null free is has = refl
  floating-Returns t d size old unknown free is has = refl
  floating-Returns t d size old (scalar s w) free is has =
      Returns-lock (with_value d (scalar s w)) _ free refl
  floating-Returns t d size old (string len none) free is has = absurd has
  floating-Returns t d size old (string len (some b)) free is has =
      let o = with_value d (string len (some b)) in
      Returns-lock o _ free
        (Returns-text o (cstr b) _ is.1.0 is.1.1 (scanned-Returns o old (floats.scan t is.1.0)))
  floating-Returns t d size old (byte_array len bufs) free is has =
      let o = with_value d (byte_array len bufs) in
      Returns-lock o _ free (word_of_bytes-Returns o (size_of t) old len bufs is.0)

  text-Returns : (d : Data) (old : ℕ) (s : List ℕ) → Returns d (bool_of_text floats d old s)
  unfolding bool_of_text
  text-Returns d old s =
      Returns-if d (same_word true_word s) _ _ refl
        λ _. Returns-if d (same_word false_word s) _ _ refl λ _. refl

  bytes-Returns :
      (d : Data) (b : List ℕ) (len : ℕ)
      → (len == 0) ≡ false
      → len ≤ length b
      → Returns d (bool_of_bytes floats d b)
  unfolding bool_of_bytes
  bytes-Returns d [] len some_len h = absurd (==→ne len 0 some_len (omega arith))
  bytes-Returns d (c ∷ b) len some_len h = refl

  bool-Returns :
      (d : Data) (size old : ℕ) (v : Value)
      → d.spinlock ≡ false
      → IsValue size v
      → Returns (with_value d v) (cplus_data_get_as_bool floats (with_value d v) old)
  unfolding cplus_data_get_as_bool
  bool-Returns d size old null free is = refl
  bool-Returns d size old unknown free is = refl
  bool-Returns d size old (scalar s w) free is =
      Returns-if (with_value d (scalar s w)) (is_spin s) _ _
        (Returns-lock (with_value d (scalar s w)) _ free refl) (λ _. refl)
  bool-Returns d size old (string len none) free is =
      Returns-lock (with_value d (string len none)) _ free refl
  bool-Returns d size old (string len (some b)) free is =
      let o = with_value d (string len (some b)) in
      Returns-lock o _ free (
        Returns-if o (len == 0) _ _ refl
          λ _. Returns-text o (cstr b) _ is.1.0 is.1.1 (text-Returns o old is.1.0))
  bool-Returns d size old (byte_array len none) free is =
      Returns-lock (with_value d (byte_array len none)) _ free refl
  bool-Returns d size old (byte_array len (some b)) free is =
      let o = with_value d (byte_array len (some b)) in
      Returns-lock o _ free (Returns-if o (len == 0) _ _ refl λ e. bytes-Returns o b len e is.0)

  -- On a well-formed object whose text, if it has the type of a string, is not NULL, the readers of all
  -- number types return: no lock is waited for, no block is left, and the object is as it was.
  pub get_as_integer-Returns :
      (s t : Scalar) (d : Data) (old : ℕ)
      → IsWellFormed d
      → HasText d.value
      → Returns d (get_as_integer floats s d old)
        × Returns d (get_as_floating floats t d old)
        × Returns d (cplus_data_get_as_bool floats d old)
  get_as_integer-Returns s t d old wf has = (
    integer-Returns s d d.bufs_size old d.value wf.unlocked wf.holds has,
    floating-Returns t d d.bufs_size old d.value wf.unlocked wf.holds has,
    bool-Returns d d.bufs_size old d.value wf.unlocked wf.holds,
  )

  -- An integer in an unlocked object is read as any integer type: the call succeeds, and the result is
  -- C's conversion of the number: it has the range of the type that is read, and stands for the stored
  -- number, negative or not, up to a multiple of that type's modulus.
  pub get_as_integer-Converts :
      (s t : Scalar) (d : Data) (w old : ℕ) (is : IsInteger s) (it : IsInteger t)
      → d.spinlock ≡ false
      → d.value ≡ scalar s w
      → (x : ℕ) × (get_as_integer floats t d old ≡ done (success, x) d no_error)
        × Converts is it w x
  unfolding get_as_integer
  get_as_integer-Converts s t d w old is it free e =
      let o = with_value d (scalar s w) in
      (
        cast floats s t w,
        subst
            (λ (v : Value).
              get_as_integer floats t (with_value d v) old
              ≡ done (success, cast floats s t w) (with_value d v) no_error)
            (sym e) (lock_if (is_spin s) o (done (success, cast floats s t w) o no_error) free),
        cast-Converts floats is it w,
      )
