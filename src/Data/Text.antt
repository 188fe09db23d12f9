-- ===== src/Data/Text.antt =====
-- Text as src/data.c uses it: C strings in blocks, `cplus_str_printf` and `sscanf` on decimal
-- numbers, and `strcasecmp` with a word in lower case.
use libcplus.Common.{
  ℕ, zero, suc, ◌+◌, ◌-◌, ◌*◌, ◌/◌, ◌%◌, ◌^◌, Bool, true, false, ◌&&◌, ◌||◌, Option, none, some,
  List, [], ◌∷◌, ◌++◌, ltb, leb, ◌==◌, if◌then◌else◌, length,
}
use libcplus.Data.Memory.{take, overwrite}

unfoldable pub cstr_next : Bool → ℕ → Option (List ℕ) → Option (List ℕ)
cstr_next true c rest = some []
cstr_next false c none = none
cstr_next false c (some s) = some (c ∷ s)

-- the characters before the first NUL, when the block has one
unfoldable pub cstr : List ℕ → Option (List ℕ)
unfolding cstr_next
cstr [] = none
cstr (c ∷ cs) = cstr_next (c == 0) c (cstr cs)

-- `vsnprintf (block, size, …)` of a text: the block behind it, unless the bytes do not fit into the
-- block. The call returns the length of the text.
unfoldable pub print_into : List ℕ → ℕ → List ℕ → Option (List ℕ)
print_into block zero text = some block
print_into block (suc room) text =
    let bytes = take room text ++ 0 ∷ [] in
    if leb (length bytes) (length block) then some (overwrite bytes block) else none

-- decimal digits before `out`; each round divides by ten
unfoldable pub digits : ℕ → ℕ → List ℕ → List ℕ
digits zero n out = out
digits (suc k) n out =
    let more = digits k (n / 10) ((48 + n % 10) ∷ out) in if ltb n 10 then (48 + n) ∷ out else more

-- A 64-bit number has at most twenty digits.
unfoldable pub decimal : ℕ → List ℕ
unfolding digits
decimal n = digits 20 n []

-- `%d` of a number that is below zero when the flag says so
unfoldable pub signed_decimal : Bool → ℕ → List ℕ
unfolding decimal
signed_decimal true n = 45 ∷ decimal n
signed_decimal false n = decimal n

abbrev pub is_digit : ℕ → Bool
is_digit c = leb 48 c && leb c 57

abbrev pub is_space : ℕ → Bool
is_space c = c == 32 || (leb 9 c && leb c 13)

unfoldable pub scan_digits : List ℕ → ℕ → ℕ
scan_digits [] n = n
scan_digits (c ∷ cs) n =
    let rest = scan_digits cs (n * 10 + (c - 48)) in if is_digit c then rest else n

-- at least one digit
unfoldable pub scan_number : List ℕ → Option ℕ
unfolding scan_digits
scan_number [] = none
scan_number (c ∷ cs) = if is_digit c then some (scan_digits (c ∷ cs) 0) else none

unfoldable pub scan_sign : List ℕ → Bool × List ℕ
scan_sign [] = (false, [])
scan_sign (c ∷ cs) =
    if c == 45 then (true, cs) else if c == 43 then (false, cs) else (false, c ∷ cs)

unfoldable pub skip_spaces : List ℕ → List ℕ
skip_spaces [] = []
skip_spaces (c ∷ cs) = let rest = skip_spaces cs in if is_space c then rest else c ∷ cs

unfoldable pub with_sign : Bool → Option ℕ → Option (Bool × ℕ)
with_sign negative none = none
with_sign negative (some n) = some (negative, n)

unfoldable pub signed_number : Bool × List ℕ → Option (Bool × ℕ)
unfolding with_sign scan_number
signed_number (negative, s) = with_sign negative (scan_number s)

-- what `sscanf` reads for `%d`, `%u`, `%ld` or `%lu`: a sign, and a number without a bound
unfoldable pub scan_integer : List ℕ → Option (Bool × ℕ)
unfolding skip_spaces scan_sign signed_number
scan_integer s = signed_number (scan_sign (skip_spaces s))

-- the `long` that the C library makes of it, as its 64-bit pattern: it stops at the limits
abbrev pub to_long : Bool → ℕ → ℕ
to_long true n = if ltb n (2 ^ 63) then (2 ^ 64 - n) % 2 ^ 64 else 2 ^ 63
to_long false n = if ltb n (2 ^ 63) then n else 2 ^ 63 - 1

-- the `unsigned long`; a sign negates it
abbrev pub to_unsigned_long : Bool → ℕ → ℕ
to_unsigned_long negative n =
    if ltb n (2 ^ 64) then (if negative then (2 ^ 64 - n) % 2 ^ 64 else n) else 2 ^ 64 - 1

abbrev pub lower : ℕ → ℕ
lower c = if leb 65 c && leb c 90 then c + 32 else c

-- `0 == strcasecmp (word, s)` for a word in lower case
unfoldable pub same_word : List ℕ → List ℕ → Bool
same_word [] [] = true
same_word [] (c ∷ cs) = false
same_word (w ∷ ws) [] = false
same_word (w ∷ ws) (c ∷ cs) = w == lower c && same_word ws cs

-- "true" and "false"
abbrev pub true_word : List ℕ
true_word = 116 ∷ 114 ∷ 117 ∷ 101 ∷ []

abbrev pub false_word : List ℕ
false_word = 102 ∷ 97 ∷ 108 ∷ 115 ∷ 101 ∷ []
