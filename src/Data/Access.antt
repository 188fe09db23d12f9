-- ===== src/Data/Access.antt =====
-- `cplus_data_get_value`, `cplus_data_set_value` and `cplus_data_clone_value` of src/data.c, with the
-- typed functions that call them.
use libcplus.Common.{
  ℕ, ◌+◌, true, Option, none, some, List, ltb, if◌then◌else◌, length, Status, success, fail,
  no_error, einval, enomem, enobufs,
}
use libcplus.Data.{
  Data, Run, done, fault, under_lock, or_fault, with_value, validate, null, unknown, scalar, string,
  byte_array,
}
use libcplus.Data.Memory.{
  Malloc, Copy, copied, refused, out_of_bounds, cplus_mem_cpy_ex, cplus_mem_set, cplus_realloc, u32,
}
use libcplus.Data.Text.{cstr, print_into}
use libcplus.Data.Words.{size_of, is_spin}

-- A result that is CPLUS_FAIL or a length is an Option; with it come the word behind `value1` and
-- the block behind `value2`.
pub record Output : Type 0 where
  pub result : Option ℕ
  pub word : ℕ
  pub block : Option (List ℕ)

abbrev pub output : Option ℕ → ℕ → Option (List ℕ) → Output
output r w b = record { result = r; word = w; block = b }

unfoldable pub get_string : Data → ℕ → List ℕ → ℕ → List ℕ → Run Output
get_string d w block len text =
    if ltb w (length text + 1)
    then done (output none w (some block)) d enobufs
    else or_fault (print_into block w text)
        (λ (b : List ℕ). done (output (some (length text)) w (some b)) d no_error)

-- A failed copy returns without DATA_SPIN_UNLOCK.
unfoldable pub copied_array : Data → ℕ → List ℕ → ℕ → Copy → Run Output
copied_array d w block len (copied b) = done (output (some len) w (some b)) d no_error
copied_array d w block len refused =
    done (output none w (some block)) (record d { spinlock = true }) einval
copied_array d w block len out_of_bounds = fault

unfoldable pub get_byte_array : Data → ℕ → List ℕ → ℕ → Option (List ℕ) → Run Output
unfolding copied_array
get_byte_array d w block len bufs =
    if ltb w len
    then done (output none w (some block)) d enobufs
    else copied_array d w block len (cplus_mem_cpy_ex (some block) w bufs len)

-- `value1` is NULL, or points to a word; `value2` is NULL, or a block.
unfoldable pub cplus_data_get_value : Data → Option ℕ → Option (List ℕ) → Run Output
unfolding get_string get_byte_array
cplus_data_get_value d none block = done (output none 0 block) d einval
cplus_data_get_value d (some w) block = elim d.value [
  | null ↦ done (output none w block) d einval
  | unknown ↦ done (output none w block) d einval
  | scalar s v ↦
      let r = done (output (some (size_of s)) v block) d no_error in
      if is_spin s then under_lock d r else r
  | string len bufs ↦ elim block [
    | none ↦ done (output none w none) d einval
    | some b ↦
        under_lock d
          (or_fault bufs (λ (chars : List ℕ). or_fault (cstr chars) (get_string d w b len)))
  ]
  | byte_array len bufs ↦ elim block [
    | none ↦ done (output none w none) d einval
    | some b ↦ under_lock d (get_byte_array d w b len bufs)
  ]
]

-- the block for `size` bytes behind one that is NULL or holds `len` of them
abbrev pub grow : Malloc → Option (List ℕ) → ℕ → ℕ → Option (List ℕ)
grow malloc none len size = malloc size
grow malloc (some b) len size = if ltb len size then cplus_realloc malloc b size else some b

-- `len` behind that
abbrev pub grown : Option (List ℕ) → ℕ → ℕ → ℕ
grown none len size = size
grown (some b) len size = if ltb len size then size else len

-- `cplus_str_printf (bufs, len, "%s", text)`
unfoldable pub write_text : Data → ℕ → List ℕ → List ℕ → Run Status
write_text d len block text =
    or_fault (print_into block len text)
      (λ (b : List ℕ). done success (validate (with_value d (string len (some b)))) no_error)

-- The result of clearing the block is not looked at.
unfoldable pub cleared_text : Data → ℕ → List ℕ → Copy → Run Status
cleared_text d len block (copied b) =
    done success (validate (with_value d (string len (some b)))) no_error
cleared_text d len block refused =
    done success (validate (with_value d (string len (some block)))) einval
cleared_text d len block out_of_bounds = fault

-- `errno` is ENOMEM when the block is NULL.
unfoldable pub fill_text : Data → ℕ → Option (List ℕ) → Option (List ℕ) → Run Status
unfolding write_text cleared_text
fill_text d len none text = done fail (with_value d (string len none)) enomem
fill_text d len (some block) none = cleared_text d len block (cplus_mem_set (some block) 0 len)
fill_text d len (some block) (some chars) = or_fault (cstr chars) (write_text d len block)

-- The result of the copy is not looked at.
unfoldable pub store_bytes : Data → ℕ → List ℕ → Copy → Run Status
store_bytes d len block (copied b) =
    done success (validate (with_value d (byte_array len (some b)))) no_error
store_bytes d len block refused =
    done success (validate (with_value d (byte_array len (some block)))) einval
store_bytes d len block out_of_bounds = fault

unfoldable pub fill_bytes : Data → ℕ → Option (List ℕ) → Option (List ℕ) → Run Status
unfolding store_bytes
fill_bytes d len none bytes = done fail (with_value d (byte_array len none)) enomem
fill_bytes d len (some block) none =
    store_bytes d len block (cplus_mem_set (some block) 0 d.bufs_size)
fill_bytes d len (some block) (some bytes) =
    store_bytes d len block (cplus_mem_cpy_ex (some block) d.bufs_size (some bytes) len)

-- `bufs_size` becomes the old length, or the new one when the block is new.
abbrev pub with_bufs_size : Data → ℕ → Data
with_bufs_size d n = record d { bufs_size = n }

-- `value1` is NULL, or points to a word of the object's type, or to a length.
unfoldable pub cplus_data_set_value : Malloc → Data → Option ℕ → Option (List ℕ) → Run Status
unfolding fill_text fill_bytes
cplus_data_set_value malloc d none block = done fail d einval
cplus_data_set_value malloc d (some w) block = elim d.value [
  | null ↦ done fail d einval
  | unknown ↦ done fail d einval
  | scalar s v ↦
      let r = done success (validate (with_value d (scalar s w))) no_error in
      if is_spin s then under_lock d r else r
  | string len bufs ↦
      let size = u32 (w + 1) in
      under_lock d (fill_text d (grown bufs len size) (grow malloc bufs len size) block)
  | byte_array len bufs ↦
      under_lock d
        (fill_bytes (with_bufs_size d (grown bufs len w)) w (grow malloc bufs len w) block)
]

-- `cplus_data_set_bool` to `cplus_data_set_pointer` pass the address of their argument.
unfoldable pub cplus_data_set_scalar : Malloc → Data → ℕ → Run Status
cplus_data_set_scalar malloc d w = cplus_data_set_value malloc d (some w) none

unfoldable pub cplus_data_set_string : Malloc → Data → ℕ → Option (List ℕ) → Run Status
cplus_data_set_string malloc d len block = cplus_data_set_value malloc d (some len) block

unfoldable pub cplus_data_set_byte_array : Malloc → Data → ℕ → Option (List ℕ) → Run Status
cplus_data_set_byte_array malloc d len block = cplus_data_set_value malloc d (some len) block
