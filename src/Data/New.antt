-- ===== src/Data/New.antt =====
-- Creating an object of src/data.c: `data_initialize_object` and the functions `cplus_data_new*`.
use libcplus.Common.{
  ℕ, Bool, true, false, Option, none, some, List, [], ◌∷◌, ◌++◌, ltb, if◌then◌else◌, Status,
  success, fail,
}
use libcplus.Data.{
  DataType, null_type, scalar_type, string_type, byte_array_type, unknown_type, Scalar, Value, Data,
  Run, done, spinning, fault, null, unknown, scalar, string, byte_array,
}
use libcplus.Data.Memory.{Malloc}
use libcplus.Data.Access.{cplus_data_set_value}
use libcplus.Data.Key.{cplus_data_set_key}

-- the union behind CPLUS_INITIALIZE_STRUCT_POINTER, which clears it
unfoldable pub zero_value : DataType → Value
zero_value null_type = null
zero_value unknown_type = unknown
zero_value (scalar_type s) = scalar s 0
zero_value string_type = string 0 none
zero_value byte_array_type = byte_array 0 none

unfoldable pub initial : DataType → Data
unfolding zero_value
initial t = record {
  is_valid = false;
  action_mode = 0;
  key_len = 0;
  key = none;
  spinlock = false;
  str_code = 0;
  bufs_size = 0;
  value = zero_value t;
}

-- NULL, with what a deletion frees behind a failure; or the object; or a call that does not return.
pub data Created : Type 0 where
  no_memory : Created
  deleted : Data → Created
  created : Data → Created
  lost : Created

-- `goto exit` on a failure
unfoldable pub next_part : Run Status → (Data → Created) → Created
next_part (done success d e) k = k d
next_part (done fail d e) k = deleted d
next_part spinning k = lost
next_part fault k = lost

unfoldable pub set_first_value :
    Malloc → Data → Option ℕ → Option (List ℕ) → (Data → Created) → Created
unfolding next_part
set_first_value malloc d none value2 k = k d
set_first_value malloc d (some w) value2 k =
    next_part (cplus_data_set_value malloc d (some w) value2) k

unfoldable pub set_first_key : Malloc → Data → ℕ → Option (List ℕ) → Created
unfolding next_part
set_first_key malloc d key_len none = created d
set_first_key malloc d key_len (some key) =
    let keyed =
      next_part (cplus_data_set_key malloc d key_len (some key)) (λ (d' : Data). created d') in
    if ltb 0 key_len then keyed else created d

-- The Boolean says whether the structure itself is allocated.
unfoldable pub data_initialize_object :
    Bool → Malloc → DataType → Option ℕ → Option (List ℕ) → ℕ → Option (List ℕ) → Created
unfolding initial set_first_value set_first_key
data_initialize_object false malloc t value1 value2 key_len key = no_memory
data_initialize_object true malloc t value1 value2 key_len key =
    set_first_value malloc (initial t) value1 value2
      (λ (d : Data). set_first_key malloc d key_len key)

module _ (room : Bool) (malloc : Malloc) where
  unfoldable pub cplus_data_new : DataType → Option ℕ → Option (List ℕ) → Created
  cplus_data_new t value1 value2 = data_initialize_object room malloc t value1 value2 0 none

  -- `cplus_data_new_bool` to `cplus_data_new_pointer`
  unfoldable pub cplus_data_new_scalar : Scalar → ℕ → Created
  cplus_data_new_scalar s w =
      data_initialize_object room malloc (scalar_type s) (some w) none 0 none

  unfoldable pub cplus_data_new_string : ℕ → Option (List ℕ) → Created
  cplus_data_new_string len chars =
      data_initialize_object room malloc string_type (some len) chars 0 none

  unfoldable pub cplus_data_new_byte_array : ℕ → Option (List ℕ) → Created
  cplus_data_new_byte_array len bytes =
      data_initialize_object room malloc byte_array_type (some len) bytes 0 none

  unfoldable pub cplus_data_new_ex :
      DataType → Option ℕ → Option (List ℕ) → ℕ → Option (List ℕ) → Created
  cplus_data_new_ex t value1 value2 key_len key =
      data_initialize_object room malloc t value1 value2 key_len key

  -- `cplus_data_new_bool_ex` to `cplus_data_new_pointer_ex`
  unfoldable pub cplus_data_new_scalar_ex : Scalar → ℕ → ℕ → Option (List ℕ) → Created
  cplus_data_new_scalar_ex s w key_len key =
      data_initialize_object room malloc (scalar_type s) (some w) none key_len key

  unfoldable pub cplus_data_new_string_ex : ℕ → Option (List ℕ) → ℕ → Option (List ℕ) → Created
  cplus_data_new_string_ex len chars key_len key =
      data_initialize_object room malloc string_type (some len) chars key_len key

  unfoldable pub cplus_data_new_byte_array_ex : ℕ → Option (List ℕ) → ℕ → Option (List ℕ) → Created
  cplus_data_new_byte_array_ex len bytes key_len key =
      data_initialize_object room malloc byte_array_type (some len) bytes key_len key

block_of : Option (List ℕ) → List (List ℕ)
block_of none = []
block_of (some b) = b ∷ []

value_blocks : Value → List (List ℕ)
unfolding block_of
value_blocks (string len bufs) = block_of bufs
value_blocks (byte_array len bufs) = block_of bufs
value_blocks v = []

-- the blocks that are freed, in this order, before the structure
unfoldable pub cplus_data_delete : Data → List (List ℕ)
unfolding block_of value_blocks
cplus_data_delete d = block_of d.key ++ value_blocks d.value
