-- ===== src/Data/Results.antt =====
-- The results of `cplus_data_set_as_string` and `cplus_data_set_as_byte_array` of src/data.c.
use libcplus.Common.{
  ℕ, ◌+◌, ◌≡◌, ◌≢◌, refl, Bool, true, false, Option, none, some, List, ltb, if◌then◌else◌, Status,
  success, fail, Errno,
}
use libcplus.Data.{
  string_type, Scalar, Value, Data, Run, done, spinning, fault, or_fault, data_type, with_value,
  null, unknown, scalar, string, byte_array,
}
use libcplus.Data.Memory.{Malloc, Copy, copied, refused, out_of_bounds, u32}
use libcplus.Data.Text.{cstr}
use libcplus.Data.Words.{Floats, size_of}
use libcplus.Data.Parse.{
  failed, parsed, scan_as, replaced, cplus_data_set_as_string, cplus_data_set_as_byte_array,
}

-- If the call returns, it returns CPLUS_FAIL.
abbrev Fails : Run Status → Type 0
Fails (done r d e) = r ≡ fail
Fails spinning = Unit
Fails fault = Unit

Fails-if : (b : Bool) (r s : Run Status) → Fails r → Fails s → Fails (if b then r else s)
Fails-if true r s hr hs = hr
Fails-if false r s hr hs = hs

failed-Fails : (r : Run Status) → Fails (failed r)
unfolding failed
failed-Fails (done r d e) = refl
failed-Fails spinning = tt
failed-Fails fault = tt

parsed-Fails : (d : Data) (t : Scalar) (o : Option ℕ) → Fails (parsed d t o)
unfolding parsed
parsed-Fails d t none = refl
parsed-Fails d t (some w) = refl

text-Fails :
    (o : Option (List ℕ)) (k : List ℕ → Run Status)
    → ((s : List ℕ) → Fails (k s))
    → Fails (or_fault o k)
text-Fails none k h = tt
text-Fails (some s) k h = h s

replaced-Fails : (d : Data) (make : List ℕ → Value) (c : Copy) → Fails (replaced d make c)
unfolding replaced
replaced-Fails d make (copied b) = refl
replaced-Fails d make refused = refl
replaced-Fails d make out_of_bounds = tt

string_failing :
    (floats : Floats) (malloc : Malloc) (d : Data) (v : Value) (len : ℕ) (text : Option (List ℕ))
    → data_type v ≢ string_type
    → Fails (cplus_data_set_as_string floats malloc (with_value d v) len text)
unfolding cplus_data_set_as_string
string_failing floats malloc d v len none ne = refl
string_failing floats malloc d null len (some s) ne = refl
string_failing floats malloc d unknown len (some s) ne = refl
string_failing floats malloc d (scalar t w) len (some s) ne =
    Fails-if d.spinlock _ _ tt
      (text-Fails (cstr s) _ (λ x. parsed-Fails (with_value d (scalar t w)) t (scan_as floats t x)))
string_failing floats malloc d (string n bufs) len (some s) ne = absurd (ne refl)
string_failing floats malloc d (byte_array n bufs) len (some s) ne = failed-Fails _

bytes_fail :
    (d : Data) (v : Value) (len : ℕ) (bytes : Option (List ℕ))
    → Fails (cplus_data_set_as_byte_array (with_value d v) len bytes)
unfolding cplus_data_set_as_byte_array
bytes_fail d v len none = refl
bytes_fail d null len (some s) = refl
bytes_fail d unknown len (some s) = refl
bytes_fail d (scalar t w) len (some s) =
    Fails-if d.spinlock _ _ tt
      (Fails-if (ltb len (size_of t)) _ _ refl (replaced-Fails (with_value d (scalar t w)) _ _))
bytes_fail d (string n bufs) len (some s) =
    Fails-if d.spinlock _ _ tt (
      Fails-if (ltb len (u32 (n + 1))) _ _ refl (replaced-Fails (with_value d (string n bufs)) _ _))
bytes_fail d (byte_array n bufs) len (some s) =
    Fails-if d.spinlock _ _ tt
      (Fails-if (ltb len n) _ _ refl (replaced-Fails (with_value d (byte_array n bufs)) _ _))

no_success : {d : Data} {e : Errno} (r : Run Status) → Fails r → r ≢ done success d e
no_success (done success d' e') h = absurd (cc h)
no_success (done fail d' e') h = λ q. cc q
no_success spinning h = λ q. cc q
no_success fault h = λ q. cc q

-- `cplus_data_set_as_string` never returns CPLUS_SUCCESS on an object of another type than string, and
-- `cplus_data_set_as_byte_array` on no object, whatever text, bytes and lengths they get.
pub cplus_data_set_as_string-cplus_data_set_as_byte_array :
    (floats : Floats) (malloc : Malloc) (d o d' : Data) (len : ℕ) (bytes : Option (List ℕ))
    (e : Errno)
    → data_type d.value ≢ string_type
    → (cplus_data_set_as_string floats malloc d len bytes ≢ done success d' e)
      × (cplus_data_set_as_byte_array o len bytes ≢ done success d' e)
cplus_data_set_as_string-cplus_data_set_as_byte_array floats malloc d o d' len bytes e ne = (
  no_success _ (string_failing floats malloc d d.value len bytes ne),
  no_success _ (bytes_fail o o.value len bytes),
)
