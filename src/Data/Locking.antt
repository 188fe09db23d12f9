-- ===== src/Data/Locking.antt =====
-- The calls of src/data.c that leave the spin lock held, or take it twice.
use libcplus.Common.{
  ℕ, ◌≡◌, refl, ◌∙◌, ap, arith, Bool, true, false, Option, none, some, List, ltb, einval,
}
use libcplus.Data.WellFormed.{lock_if}
use libcplus.Data.{Scalar, double, pointer, Value, Data, done, spinning, with_value, byte_array}
use libcplus.Data.Memory.{Malloc, refused, cplus_mem_cpy_ex}
use libcplus.Data.Words.{Floats}
use libcplus.Data.Access.{
  output, get_byte_array, copied_array, cplus_data_get_value, cplus_data_set_value,
  cplus_data_set_byte_array,
}
use libcplus.Data.SetAs.{
  set_under_lock, unlock_valid, cplus_data_set_as_double, cplus_data_set_as_pointer,
}

empty_copy :
    (block : List ℕ) (bufs : Option (List ℕ)) (w : ℕ)
    → cplus_mem_cpy_ex (some block) w bufs 0 ≡ refused
unfolding cplus_mem_cpy_ex
empty_copy block none w = refl
empty_copy block (some b) w = ground arith

locked_get :
    (d : Data) (len w : ℕ) (bufs : Option (List ℕ)) (block : List ℕ)
    → cplus_data_get_value
        (record d { spinlock = true; value = byte_array len bufs })
        (some w)
        (some block)
      ≡ spinning
unfolding cplus_data_get_value
locked_get d len w bufs block = refl

locked_set :
    (d : Data) (len w : ℕ) (malloc : Malloc) (bufs bytes : Option (List ℕ))
    → cplus_data_set_value malloc
        (record d { spinlock = true; value = byte_array len bufs })
        (some w)
        bytes
      ≡ spinning
unfolding cplus_data_set_value
locked_set d len w malloc bufs bytes = refl

empty_array :
    (d : Data) (bufs : Option (List ℕ)) (w : ℕ) (block : List ℕ)
    → d.spinlock ≡ false
    → cplus_data_get_value (with_value d (byte_array 0 bufs)) (some w) (some block)
      ≡ done
          (output none w (some block))
          (record d { spinlock = true; value = byte_array 0 bufs })
          einval
unfolding cplus_data_get_value get_byte_array copied_array
empty_array d bufs w block free =
    let none_left : ltb w 0 ≡ false = ground arith in
    lock_if true (with_value d (byte_array 0 bufs)) _ free
    ∙ rw (none_left, empty_copy block bufs w) refl

-- Reading an array of length 0 with `cplus_data_get_value` fails and keeps the lock: a read or a write of
-- the value after it spins forever.
pub cplus_data_get_value-empty :
    (malloc : Malloc) (d : Data) (bufs bytes : Option (List ℕ)) (w n : ℕ) (block : List ℕ)
    → d.spinlock ≡ false
    → d.value ≡ byte_array 0 bufs
    → (d' : Data) × (cplus_data_get_value d (some w) (some block)
        ≡ done (output none w (some block)) d' einval)
      × (cplus_data_get_value d' (some n) (some block) ≡ spinning)
      × (cplus_data_set_value malloc d' (some n) bytes ≡ spinning)
cplus_data_get_value-empty malloc d bufs bytes w n block free e =
    let d' = record d { spinlock = true; value = byte_array 0 bufs } in
    (
      d',
      ap (λ (v : Value). cplus_data_get_value (with_value d v) (some w) (some block)) e
          ∙ empty_array d bufs w block free,
      locked_get d 0 n bufs block,
      locked_set d 0 n malloc bufs bytes,
    )

module _ (floats : Floats) (malloc : Malloc) where
  under_lock_spins :
      (s : Scalar) (d : Data) (v len : ℕ) (bufs : Option (List ℕ)) (b : Bool)
      → set_under_lock floats malloc s (record d { spinlock = b; value = byte_array len bufs }) v
        ≡ spinning
  unfolding set_under_lock unlock_valid cplus_data_set_byte_array cplus_data_set_value
  under_lock_spins s d v len bufs true = refl
  under_lock_spins s d v len bufs false = refl

  -- `cplus_data_set_as_double` and `cplus_data_set_as_pointer` never return on an object that holds an
  -- array: they hold the lock over the call of `cplus_data_set_byte_array`, which takes it.
  pub cplus_data_set_as_double-byte_array :
      (d : Data) (v len : ℕ) (bufs : Option (List ℕ))
      → d.value ≡ byte_array len bufs
      → (cplus_data_set_as_double floats malloc d v ≡ spinning)
        × (cplus_data_set_as_pointer floats malloc d v ≡ spinning)
  unfolding cplus_data_set_as_double cplus_data_set_as_pointer
  cplus_data_set_as_double-byte_array d v len bufs e = (stuck double, stuck pointer)
    where
      stuck : (s : Scalar) → set_under_lock floats malloc s d v ≡ spinning
      stuck s =
          ap (λ (x : Value). set_under_lock floats malloc s (with_value d x) v) e
          ∙ under_lock_spins s d v len bufs d.spinlock
