-- ===== src/Data/Tests.antt =====
-- The operations of src/data.c on concrete objects.
use mathlib.Core.Path.{subst}
use libcplus.Common.{
  if◌then◌else◌, leb, ◌≤◌, ℕ, zero, suc, ◌+◌, ◌≡◌, ◌≢◌, refl, ap, arith, true, false, none, some,
  List, [], ◌∷◌, ◌++◌, ◌==◌, length, success, no_error, einval,
}
use libcplus.Data.{
  string_type, int8, int16, int64, double, Value, Data, done, spinning, fault, scalar, string,
  byte_array,
}
use libcplus.Data.Memory.{Malloc, replicate, take}
use libcplus.Data.Text.{
  cstr, cstr_next, decimal, digits, scan_integer, signed_number, scan_sign, scan_number, with_sign,
  scan_digits, skip_spaces,
}
use libcplus.Data.Words.{Floats}
use libcplus.Data.Access.{output, cplus_data_get_value, cplus_data_set_value}
use libcplus.Data.GetAs.{get_as_integer, get_as_floating, cplus_data_get_as_bool}
use libcplus.Data.SetAs.{cplus_data_set_as_double, cplus_data_set_as_pointer}
use libcplus.Data.Parse.{cplus_data_set_as_string, cplus_data_set_as_byte_array}
use libcplus.Data.Clone.{cplus_data_clone_value}
use libcplus.Data.Key.{cplus_data_set_key, cplus_data_get_key}
use libcplus.Data.New.{zero_value, data_initialize_object}
use libcplus.Data.Swap.{cplus_data_swap16, cplus_data_swap32, cplus_data_swap64}
use libcplus.Data.Order.{reversed, cplus_data_swap-reversed}
use libcplus.Data.Print.{signed8, signed16, signed64}
use libcplus.Data.WellFormed.{IsMalloc, IsWellFormed, Updates}
use libcplus.Data.Update.{cplus_data_set_value-Updates}
use libcplus.Data.RoundTrip.{Allocates, ReadsBack, get_as_integer-set_as_integer}
use libcplus.Data.Locking.{cplus_data_get_value-empty, cplus_data_set_as_double-byte_array}
use libcplus.Data.Results.{cplus_data_set_as_string-cplus_data_set_as_byte_array}
use libcplus.Data.Readers.{Returns, get_as_integer-Returns, get_as_integer-Converts}
use libcplus.Data.Resize.{Converts}
use libcplus.Data.KeyBytes.{cplus_data_get_key-cplus_data_set_key}
use libcplus.Data.Creation.{IsCreated, data_initialize_object-IsCreated}
use libcplus.Data.Clones.{cplus_data_clone_value-shorter}

-- conversions for the tests, which use no floating-point number
abbrev no_floats : Floats
no_floats = record {
  cast = λ s t w. w;
  is_zero = λ s w. w == 0;
  print = λ s w. [];
  scan = λ s text. none;
}

-- an allocator with memory, and one without
abbrev cleared : Malloc
cleared n = some (replicate n 0)

abbrev full : Malloc
full n = none

length-replicate : (n : ℕ) → length (replicate n 0) ≡ n
length-replicate zero = refl
length-replicate (suc n) = ap suc (length-replicate n)

cleared-Allocates : Allocates cleared
cleared-Allocates n = (replicate n 0, refl, length-replicate n)

cleared-IsMalloc : IsMalloc cleared
cleared-IsMalloc n b e =
    let same : replicate n 0 ≡ b = cc e in
    subst (λ (x : List ℕ). length x ≡ n) same (length-replicate n)

-- "hi" and "hello"
abbrev hi : List ℕ
hi = 104 ∷ 105 ∷ []

abbrev hello : List ℕ
hello = 104 ∷ 101 ∷ 108 ∷ 108 ∷ 111 ∷ []

abbrev object : Value → Data
object v = record {
  is_valid = true;
  action_mode = 0;
  key_len = 0;
  key = none;
  spinlock = false;
  str_code = 0;
  bufs_size = 0;
  value = v;
}

abbrev hi_object : Data
hi_object = object (string 3 (some (hi ++ 0 ∷ [])))

abbrev bytes_object : Data
bytes_object = object (byte_array 2 (some (7 ∷ 9 ∷ [])))

abbrev minus_one : Data
minus_one = object (scalar int16 0xffff)

hi_object-IsWellFormed : IsWellFormed hi_object
unfolding cstr cstr_next
hi_object-IsWellFormed = record { unlocked = refl; holds = (omega arith, (hi, refl)); key = tt }

ten_in_decimal : decimal 10 ≡ 49 ∷ 48 ∷ []
unfolding decimal digits
ten_in_decimal = refl

-- " -12x"
scan_stops : scan_integer (32 ∷ 45 ∷ 49 ∷ 50 ∷ 120 ∷ []) ≡ some (true, 12)
unfolding scan_integer signed_number scan_sign scan_number with_sign scan_digits skip_spaces
scan_stops = refl

swap_twice : cplus_data_swap32 0x1234_5678 ≡ 0x7856_3412
unfolding cplus_data_swap32
swap_twice = refl

get_as_integer-set_as_integer_example :
    ReadsBack no_floats cleared cleared-Allocates int8 200 hi_object 0
get_as_integer-set_as_integer_example =
    get_as_integer-set_as_integer no_floats cleared cleared-Allocates int8 200 hi_object 0 signed8
      (omega arith) refl (omega arith)

cplus_data_set_value-Updates_example :
    Updates hi_object (cplus_data_set_value cleared hi_object (some 5) (some (hello ++ 0 ∷ [])))
unfolding cstr cstr_next
cplus_data_set_value-Updates_example =
    cplus_data_set_value-Updates cleared hi_object 5 (some (hello ++ 0 ∷ [])) cleared-IsMalloc
      hi_object-IsWellFormed (omega arith, (hello, refl))

get_as_integer-Returns_example :
    Returns hi_object (get_as_integer no_floats int16 hi_object 0)
    × Returns hi_object (get_as_floating no_floats double hi_object 0)
    × Returns hi_object (cplus_data_get_as_bool no_floats hi_object 0)
get_as_integer-Returns_example =
    get_as_integer-Returns no_floats int16 double hi_object 0 hi_object-IsWellFormed tt

get_as_integer-Converts_example :
    (x : ℕ) × (get_as_integer no_floats int64 minus_one 0 ≡ done (success, x) minus_one no_error)
    × Converts signed16 signed64 0xffff x
get_as_integer-Converts_example =
    get_as_integer-Converts no_floats int16 int64 minus_one 0xffff 0 signed16 signed64 refl refl

data_initialize_object-IsCreated_example : IsCreated string_type (
    data_initialize_object true cleared string_type
      (some 2)
      (some (hi ++ 0 ∷ []))
      5
      (some (hello ++ 0 ∷ [])))
unfolding cstr cstr_next zero_value
data_initialize_object-IsCreated_example =
    data_initialize_object-IsCreated true cleared string_type (some 2) (some (hi ++ 0 ∷ [])) 5
      (some (hello ++ 0 ∷ [])) cleared-IsMalloc (omega arith, (hi, refl)) (omega arith)

abbrev empty_object : Data
empty_object = object (byte_array 0 (some []))

cplus_data_get_value-empty_example :
    (d' : Data) × (cplus_data_get_value empty_object (some 4) (some (replicate 4 1))
      ≡ done (output none 4 (some (replicate 4 1))) d' einval)
    × (cplus_data_get_value d' (some 2) (some (replicate 4 1)) ≡ spinning)
    × (cplus_data_set_value cleared d' (some 2) (some hi) ≡ spinning)
cplus_data_get_value-empty_example =
    cplus_data_get_value-empty cleared empty_object (some []) (some hi) 4 2 (replicate 4 1) refl
      refl

cplus_data_set_as_double-byte_array_example :
    (cplus_data_set_as_double no_floats cleared bytes_object 1 ≡ spinning)
    × (cplus_data_set_as_pointer no_floats cleared bytes_object 1 ≡ spinning)
cplus_data_set_as_double-byte_array_example =
    cplus_data_set_as_double-byte_array no_floats cleared bytes_object 1 2 (some (7 ∷ 9 ∷ [])) refl

cplus_data_set_as_string-cplus_data_set_as_byte_array_example :
    (cplus_data_set_as_string no_floats cleared minus_one 2 (some (49 ∷ 50 ∷ 0 ∷ []))
      ≢ done success minus_one no_error)
    × (cplus_data_set_as_byte_array hi_object 2 (some (49 ∷ 50 ∷ 0 ∷ []))
        ≢ done success minus_one no_error)
cplus_data_set_as_string-cplus_data_set_as_byte_array_example =
    cplus_data_set_as_string-cplus_data_set_as_byte_array no_floats cleared minus_one hi_object
      minus_one 2 (some (49 ∷ 50 ∷ 0 ∷ [])) no_error (λ q. cc q)

cplus_data_swap-reversed_example :
    (cplus_data_swap16 0x1234 ≡ reversed 2 0x1234)
    × (cplus_data_swap32 0x1234_5678 ≡ reversed 4 0x1234_5678)
    × (cplus_data_swap64 0x0102_0304_0506_0708 ≡ reversed 8 0x0102_0304_0506_0708)
cplus_data_swap-reversed_example =
    cplus_data_swap-reversed 0x1234 0x1234_5678 0x0102_0304_0506_0708 (omega arith) (omega arith)
      (omega arith)

cplus_data_get_key-cplus_data_set_key_example :
    (d' : Data) × (b : List ℕ) × (cplus_data_set_key cleared hi_object 2 (some (hi ++ 0 ∷ []))
      ≡ done success d' no_error)
    × (cplus_data_get_key d' ≡ some b)
    × (take (2 + 1) b ≡ take (2 + 1) (hi ++ 0 ∷ []))
    × (d'.key_len ≡ (if leb (2 + 1) hi_object.key_len then hi_object.key_len else 2 + 1))
    × ((if leb (2 + 1) hi_object.key_len then hi_object.key_len else 2 + 1) ≤ length b)
cplus_data_get_key-cplus_data_set_key_example =
    cplus_data_get_key-cplus_data_set_key cleared hi_object 2 (hi ++ 0 ∷ []) cleared-Allocates refl
      refl (omega arith) (omega arith) (omega arith)

abbrev long_object : Data
long_object = object (string 6 (some (hello ++ 0 ∷ [])))

cplus_data_clone_value-shorter_example :
    cplus_data_clone_value cleared long_object hi_object ≡ fault
cplus_data_clone_value-shorter_example =
    cplus_data_clone_value-shorter cleared long_object hi_object 6 3 (hello ++ 0 ∷ [])
      (hi ++ 0 ∷ []) refl refl (omega arith) (omega arith)
