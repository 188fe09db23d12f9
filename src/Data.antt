-- ===== src/Data.antt =====
-- src/data.c: typed values behind one handle, with conversions between all the types.
-- This file has `struct data`, its types, and the outcome of an operation. `CPLUS_FAIL` and
-- `CPLUS_SUCCESS` are a Status where a function returns nothing else.
pub mod Memory
pub mod Text
pub mod Words
pub mod Access
pub mod GetAs
pub mod Dump
pub mod SetAs
pub mod Parse
pub mod Clone
pub mod Key
pub mod New
pub mod Group
pub mod Swap
pub mod Bits
pub mod Blocks
pub mod Decimal
pub mod Print
pub mod WellFormed
pub mod Fill
pub mod Update
pub mod Resize
pub mod RoundTrip
pub mod Locking
pub mod Results
pub mod Texts
pub mod Readers
pub mod Keys
pub mod KeyBytes
pub mod Creation
pub mod Clones
mod Tests
pub mod Order
use libcplus.Common.{ℕ, Bool, true, false, Option, none, some, List, Errno, if◌then◌else◌}

-- the members of `CPLUS_DATA_TYPE` whose value is one word
pub data Scalar : Type 0 where
  bool int8 int16 int32 int64 uint8 uint16 uint32 uint64 float double pointer : Scalar

-- `CPLUS_DATA_TYPE`
pub data DataType : Type 0 where
  null_type : DataType
  scalar_type : Scalar → DataType
  string_type byte_array_type unknown_type : DataType

-- `CPLUS_DATA_VALUE`, tagged by the type that the constructor sets once. A word is the bit pattern of
-- its member. A string or an array is its `len` and its block, which is NULL or has the listed bytes.
pub data Value : Type 0 where
  null unknown : Value
  scalar : Scalar → ℕ → Value
  string byte_array : ℕ → Option (List ℕ) → Value

-- the `data_type` beside the union
abbrev pub data_type : Value → DataType
data_type null = null_type
data_type unknown = unknown_type
data_type (scalar s w) = scalar_type s
data_type (string len bufs) = string_type
data_type (byte_array len bufs) = byte_array_type

-- `struct data` without its object tag
pub record Data : Type 0 where
  pub is_valid : Bool
  pub action_mode : ℕ
  pub key_len : ℕ
  pub key : Option (List ℕ)
  pub spinlock : Bool
  pub str_code : ℕ
  pub bufs_size : ℕ
  pub value : Value

-- A call returns a result, with the object and what it left in `errno`; or it spins forever on a lock
-- that is held; or it reads or writes outside a block, or through NULL.
pub data Run {ℓ} (A : Type ℓ) : Type ℓ where
  done : A → Data → Errno → Run A
  spinning : Run A
  fault : Run A

-- DATA_SPIN_LOCK and DATA_SPIN_UNLOCK around a body that calls nothing else on the object. No other
-- thread is there to release the lock.
abbrev pub under_lock {ℓ} : {A : Type ℓ} → Data → Run A → Run A
under_lock d r = if d.spinlock then spinning else r

abbrev pub with_value : Data → Value → Data
with_value d v = record d { value = v }

-- Nothing is read from a NULL block, or written outside a block.
abbrev pub or_fault {ℓ κ} : {A : Type ℓ} {B : Type κ} → Option A → (A → Run B) → Run B
or_fault none k = fault
or_fault (some a) k = k a

-- `dt->is_valid = true` behind a switch
abbrev pub validate : Data → Data
validate d = record d { is_valid = true }
