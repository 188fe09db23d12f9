-- ===== src/Data/Blocks.antt =====
-- Blocks of bytes in src/data.c: what a copy, a print and a reallocation leave in them.
use libcplus.Common.{
  ℕ, zero, suc, ◌≤◌, ◌<◌, ◌≡◌, refl, ap, arith, true, false, ◌||◌, some, List, [], ◌∷◌, ◌++◌, ltb,
  leb, ◌==◌, length, length-append, ne→==,
}
use libcplus.Data.Memory.{copied, take, overwrite, copy_bytes, rsize_max_mem, cplus_mem_cpy_ex}
use libcplus.Data.Text.{cstr, cstr_next, print_into}
use libcplus.Data.Decimal.{NoNul}

module _ {ℓ} {A : Type ℓ} where
  pub length-take : (n : ℕ) (xs : List A) → n ≤ length xs → length (take n xs) ≡ n
  length-take zero xs h = refl
  length-take (suc n) [] h = absurd (omega arith)
  length-take (suc n) (x ∷ xs) h = ap suc (length-take n xs (omega arith))

  pub take_all : (n : ℕ) (xs : List A) → length xs ≤ n → take n xs ≡ xs
  take_all zero [] h = refl
  take_all zero (x ∷ xs) h = absurd (omega arith)
  take_all (suc n) [] h = refl
  take_all (suc n) (x ∷ xs) h = ap (λ (ys : List A). x ∷ ys) (take_all n xs (omega arith))

pub length-take_le_length : (n : ℕ) (s : List ℕ) → length (take n s) ≤ length s
length-take_le_length zero s = omega arith
length-take_le_length (suc n) [] = omega arith
length-take_le_length (suc n) (c ∷ s) = omega (arith, length-take_le_length n s)

pub length-overwrite : (xs b : List ℕ) → length (overwrite xs b) ≡ length b
length-overwrite [] b = refl
length-overwrite (x ∷ xs) [] = refl
length-overwrite (x ∷ xs) (c ∷ b) = ap suc (length-overwrite xs b)

-- the bytes that were written are there
pub take-overwrite : (xs b : List ℕ) → length xs ≤ length b → take (length xs) (overwrite xs b) ≡ xs
take-overwrite [] b h = refl
take-overwrite (x ∷ xs) [] h = absurd (omega arith)
take-overwrite (x ∷ xs) (c ∷ b) h = ap (λ (ys : List ℕ). x ∷ ys) (take-overwrite xs b (omega arith))

-- A block of the same length is replaced.
pub overwrite_all : (xs b : List ℕ) → length xs ≡ length b → overwrite xs b ≡ xs
overwrite_all [] [] h = refl
overwrite_all [] (c ∷ b) h = absurd (omega arith)
overwrite_all (x ∷ xs) [] h = absurd (omega arith)
overwrite_all (x ∷ xs) (c ∷ b) h = ap (λ (ys : List ℕ). x ∷ ys) (overwrite_all xs b (omega arith))

pub copy_bytes_fit :
    (dest src : List ℕ) (n : ℕ)
    → n ≤ length src
    → n ≤ length dest
    → copy_bytes dest src n ≡ copied (overwrite (take n src) dest)
copy_bytes_fit dest src n hs hd = rw ((leb_of n (length src) hs), (leb_of n (length dest) hd)) refl
  where
    leb_of : (a b : ℕ) → a ≤ b → leb a b ≡ true
    leb_of a b h = ground arith

-- A text that was written with its NUL is read back.
pub cstr-overwrite :
    (text b : List ℕ)
    → NoNul text
    → length text < length b
    → cstr (overwrite (text ++ 0 ∷ []) b) ≡ some text
unfolding cstr cstr_next
cstr-overwrite [] [] nn h = absurd (omega arith)
cstr-overwrite [] (c ∷ b) nn h = refl
cstr-overwrite (x ∷ text) [] nn h = absurd (omega arith)
cstr-overwrite (x ∷ text) (c ∷ b) nn h =
    rw (ne→== x 0 nn.0, cstr-overwrite text b nn.1 (omega arith)) refl

pub print_into_fits :
    (b text : List ℕ) (len : ℕ)
    → length text < len
    → len ≤ length b
    → print_into b len text ≡ some (overwrite (text ++ 0 ∷ []) b)
unfolding print_into
print_into_fits b text zero h fits = absurd (omega arith)
print_into_fits b text (suc room) h fits =
    let all : take room text ≡ text = take_all room text (omega arith) in
    let small : leb (length (text ++ 0 ∷ [])) (length b) ≡ true =
      rw (length-append text (0 ∷ [])) (ground arith) in
    rw (all, small) refl

-- `cplus_mem_cpy_ex` copies what it is asked for, within the limits it checks.
pub cplus_mem_cpy_ex_fit :
    (dest src : List ℕ) (destsz n : ℕ)
    → 0 < n
    → n ≤ destsz
    → destsz ≤ rsize_max_mem
    → n ≤ length src
    → destsz ≤ length dest
    → cplus_mem_cpy_ex (some dest) destsz (some src) n ≡ copied (overwrite (take n src) dest)
unfolding cplus_mem_cpy_ex
cplus_mem_cpy_ex_fit dest src destsz n pos inside limit hs hd =
    let plain : (destsz == 0 || ltb rsize_max_mem destsz || n == 0 || ltb destsz n) ≡ false =
      ground arith in
    rw plain (copy_bytes_fit dest src n hs (omega arith))
