-- ===== src/Data/Clone.antt =====
-- `cplus_data_clone_value` of src/data.c, and the functions of the object that read one field.
use libcplus.Common.{
  ℕ, Bool, true, false, Option, none, some, List, ltb, if◌then◌else◌, Status, success, fail, Errno,
  no_error, einval, enomem,
}
use libcplus.Data.{
  Scalar, Value, Data, Run, done, fault, with_value, null, unknown, scalar, string, byte_array,
}
use libcplus.Data.Memory.{
  Malloc, Copy, copied, refused, out_of_bounds, cplus_mem_cpy, cplus_realloc,
}

-- the destination behind the copy, whose result is not looked at
unfoldable pub cloned : Data → (Option (List ℕ) → Value) → Option (List ℕ) → Copy → Run Status
cloned d make old (copied b) = done success (with_value d (make (some b))) no_error
cloned d make old refused = done success (with_value d (make old)) einval
cloned d make old out_of_bounds = fault

-- the copy into the block behind a reallocation, or the failure
unfoldable pub clone_resized :
    Run Status
    → Data
    → (Option (List ℕ) → Value)
    → Option (List ℕ)
    → ℕ
    → Option (List ℕ)
    → Run Status
unfolding cloned
clone_resized failure d make src count none = failure
clone_resized failure d make src count (some b) =
    cloned d make (some b) (cplus_mem_cpy (some b) src count)

-- A NULL block is not reallocated.
unfoldable pub resized : Malloc → Option (List ℕ) → ℕ → Option (List ℕ)
resized malloc none size = none
resized malloc (some b) size = cplus_realloc malloc b size

unfoldable pub resize_errno : Option (List ℕ) → Errno
resize_errno none = einval
resize_errno (some b) = enomem

unfoldable pub clone_string : Malloc → Data → ℕ → Option (List ℕ) → ℕ → Option (List ℕ) → Run Status
unfolding cloned clone_resized resized resize_errno
clone_string malloc dest len bufs src_len src_bufs =
    let small = cloned dest (string len) bufs (cplus_mem_cpy bufs src_bufs len) in
    let bigger =
      clone_resized (done fail (with_value dest (string len none)) (resize_errno bufs)) dest
        (string src_len) src_bufs src_len (resized malloc bufs src_len) in
    if ltb len src_len then bigger else small

-- The length follows only when the destination grows.
unfoldable pub clone_byte_array :
    Malloc → Data → ℕ → Option (List ℕ) → ℕ → ℕ → Option (List ℕ) → Run Status
unfolding cloned clone_resized resized resize_errno
clone_byte_array malloc dest len bufs src_size src_len src_bufs =
    let small = cloned dest (byte_array len) bufs (cplus_mem_cpy bufs src_bufs len) in
    let bigger =
      clone_resized (done fail (with_value dest (byte_array len none)) (resize_errno bufs))
        (record dest { bufs_size = src_size }) (byte_array src_len) src_bufs src_len
        (resized malloc bufs src_size) in
    if ltb dest.bufs_size src_size then bigger else small

unfoldable pub same_scalar : Scalar → Scalar → Bool
same_scalar Scalar.bool Scalar.bool = true
same_scalar Scalar.int8 Scalar.int8 = true
same_scalar Scalar.int16 Scalar.int16 = true
same_scalar Scalar.int32 Scalar.int32 = true
same_scalar Scalar.int64 Scalar.int64 = true
same_scalar Scalar.uint8 Scalar.uint8 = true
same_scalar Scalar.uint16 Scalar.uint16 = true
same_scalar Scalar.uint32 Scalar.uint32 = true
same_scalar Scalar.uint64 Scalar.uint64 = true
same_scalar Scalar.float Scalar.float = true
same_scalar Scalar.double Scalar.double = true
same_scalar Scalar.pointer Scalar.pointer = true
same_scalar s t = false

-- what the clone does with the two values; other pairs of types are CPLUS_FAIL
unfoldable pub clone_values : Malloc → Data → ℕ → ℕ → Value → Value → Run Status
unfolding clone_string clone_byte_array same_scalar
clone_values malloc dest code src_size (string len bufs) (string src_len src_bufs) =
    clone_string malloc (record dest { str_code = code }) len bufs src_len src_bufs
clone_values malloc dest code src_size (byte_array len bufs) (byte_array src_len src_bufs) =
    clone_byte_array malloc dest len bufs src_size src_len src_bufs
clone_values malloc dest code src_size (scalar s v) (scalar t w) =
    if same_scalar s t
    then done success (with_value dest (scalar s w)) no_error
    else done fail dest no_error
clone_values malloc dest code src_size null null = done success dest no_error
clone_values malloc dest code src_size unknown unknown = done success dest no_error
clone_values malloc dest code src_size v w = done fail dest no_error

-- It takes no lock, and leaves `is_valid`.
unfoldable pub cplus_data_clone_value : Malloc → Data → Data → Run Status
unfolding clone_values
cplus_data_clone_value malloc dest src =
    clone_values malloc dest src.str_code src.bufs_size dest.value src.value
