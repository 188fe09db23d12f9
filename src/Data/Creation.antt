-- ===== src/Data/Creation.antt =====
-- `data_initialize_object` of src/data.c.
use mathlib.Core.Path.{subst}
use libcplus.Common.{
  ℕ, ◌+◌, ◌≤◌, ◌≡◌, refl, sym, ◌∙◌, ap, Bool, true, false, Option, none, some, List, ltb,
  if◌then◌else◌, length, Status, success, fail, no_error,
}
use libcplus.Data.{
  DataType, null_type, scalar_type, string_type, byte_array_type, unknown_type, Scalar, Value, Data,
  Run, done, spinning, fault, data_type, validate, with_value, scalar,
}
use libcplus.Data.Memory.{Malloc, u32}
use libcplus.Data.Words.{is_spin}
use libcplus.Data.Access.{cplus_data_set_value}
use libcplus.Data.Key.{cplus_data_get_scalar, cplus_data_is_valid}
use libcplus.Data.New.{
  zero_value, initial, Created, no_memory, deleted, created, lost, next_part, set_first_value,
  set_first_key, data_initialize_object, cplus_data_new_scalar,
}
use libcplus.Data.WellFormed.{IsMalloc, IsValue, IsWellFormed, lock_if}
use libcplus.Data.Fill.{IsSource}
use libcplus.Data.Update.{cplus_data_set_value-Updates}
use libcplus.Data.Keys.{Keeps, Updates-Keeps, set_key-Keeps}

-- An object, deleted again or not, is well formed, unlocked and of the type that was asked for.
abbrev pub IsCreated : DataType → Created → Type 0
IsCreated t no_memory = Unit
IsCreated t (deleted d) = IsWellFormed d × (data_type d.value ≡ t)
IsCreated t (created d) = IsWellFormed d × (data_type d.value ≡ t)
IsCreated t lost = ⊥

-- the first value is NULL, or the caller's block holds it
abbrev pub IsFirst : DataType → Option ℕ → Option (List ℕ) → Type 0
IsFirst t none value2 = Unit
IsFirst t (some w) value2 = IsSource (zero_value t) w value2

-- the key is NULL, or a block with its NUL
abbrev pub IsKeyBlock : ℕ → Option (List ℕ) → Type 0
IsKeyBlock n none = Unit
IsKeyBlock n (some b) = u32 (n + 1) ≤ length b

zero-IsValue : (t : DataType) → IsValue 0 (zero_value t) × (data_type (zero_value t) ≡ t)
unfolding zero_value
zero-IsValue null_type = (tt, refl)
zero-IsValue (scalar_type s) = (tt, refl)
zero-IsValue string_type = ((tt, tt), refl)
zero-IsValue byte_array_type = ((tt, tt), refl)
zero-IsValue unknown_type = (tt, refl)

next-IsCreated :
    (t : DataType) (d : Data) (r : Run Status) (k : Data → Created)
    → data_type d.value ≡ t
    → Keeps d r
    → ((d' : Data) → IsWellFormed d' → data_type d'.value ≡ t → IsCreated t (k d'))
    → IsCreated t (next_part r k)
unfolding next_part
next-IsCreated t d (done success d' e) k same keeps h = h d' keeps.0 (keeps.1 ∙ same)
next-IsCreated t d (done fail d' e) k same keeps h = (keeps.0, keeps.1 ∙ same)
next-IsCreated t d spinning k same keeps h = keeps
next-IsCreated t d fault k same keeps h = keeps

IsCreated-if :
    (t : DataType) (b : Bool) (r s : Created)
    → IsCreated t r
    → IsCreated t s
    → IsCreated t (if b then r else s)
IsCreated-if t true r s hr hs = hr
IsCreated-if t false r s hr hs = hs

module _ (malloc : Malloc) (is : IsMalloc malloc) (t : DataType) where
  key-IsCreated :
      (key_len : ℕ) (key : Option (List ℕ)) (d : Data)
      → IsKeyBlock key_len key
      → IsWellFormed d
      → data_type d.value ≡ t
      → IsCreated t (set_first_key malloc d key_len key)
  unfolding set_first_key
  key-IsCreated key_len none d h wf same = (wf, same)
  key-IsCreated key_len (some b) d h wf same =
      IsCreated-if t (ltb 0 key_len) _ _
        (next-IsCreated t d _ (λ (d' : Data). created d') same
          (set_key-Keeps malloc is b d key_len wf h) (λ d' wf' same'. (wf', same')))
        (wf, same)

  value-IsCreated :
      (d : Data) (value1 : Option ℕ) (value2 : Option (List ℕ)) (k : Data → Created)
      → IsWellFormed d
      → data_type d.value ≡ t
      → d.value ≡ zero_value t
      → IsFirst t value1 value2
      → ((d' : Data) → IsWellFormed d' → data_type d'.value ≡ t → IsCreated t (k d'))
      → IsCreated t (set_first_value malloc d value1 value2 k)
  unfolding set_first_value
  value-IsCreated d none value2 k wf same zero first h = h d wf same
  value-IsCreated d (some w) value2 k wf same zero first h =
      next-IsCreated t d _ k same
        (Updates-Keeps d _ (
          cplus_data_set_value-Updates malloc d w value2 is wf
            (subst (λ (v : Value). IsSource v w value2) (sym zero) first)))
        h

-- Creating an object returns, whatever the allocator answers: with NULL, with an object that is well
-- formed, unlocked and of the given type, or, after it has deleted such an object, with NULL. The
-- allocator gives blocks of the size that it is asked for. The first value is NULL or any word; that of a
-- string is NULL, or a length below 2^32 - 1 with a C string, or one below RSIZE_MAX_MEM without; that of
-- an array is NULL, or a length with NULL or with a block of that many bytes. The key is NULL, or a block
-- that has as many bytes as its length and a NUL need, in 32 bits.
pub data_initialize_object-IsCreated :
    (room : Bool) (malloc : Malloc) (t : DataType) (value1 : Option ℕ) (value2 : Option (List ℕ))
    (key_len : ℕ) (key : Option (List ℕ))
    → IsMalloc malloc
    → IsFirst t value1 value2
    → IsKeyBlock key_len key
    → IsCreated t (data_initialize_object room malloc t value1 value2 key_len key)
unfolding data_initialize_object initial
data_initialize_object-IsCreated false malloc t value1 value2 key_len key is first h = tt
data_initialize_object-IsCreated true malloc t value1 value2 key_len key is first h =
    let zero = zero-IsValue t in
    value-IsCreated malloc is t (initial t) value1 value2 _
      (record { unlocked = refl; holds = zero.0; key = tt }) zero.1 refl first
      (λ d' wf same. key-IsCreated malloc is t key_len key d' h wf same)

-- A number, float or pointer that an object is created with is what the typed getter gives, and the
-- object is valid.
pub cplus_data_get_scalar-cplus_data_new_scalar :
    (malloc : Malloc) (s : Scalar) (w : ℕ)
    → (d : Data) × (cplus_data_new_scalar true malloc s w ≡ created d)
      × (cplus_data_get_scalar d ≡ some (done w d no_error))
      × (cplus_data_is_valid d ≡ true)
unfolding cplus_data_new_scalar data_initialize_object initial zero_value set_first_value next_part
    set_first_key cplus_data_set_value cplus_data_get_scalar cplus_data_is_valid
cplus_data_get_scalar-cplus_data_new_scalar malloc s w =
    let d = validate (with_value (initial (scalar_type s)) (scalar s w)) in
    (
      d,
      ap (λ (r : Run Status). next_part r (λ (d' : Data). set_first_key malloc d' 0 none))
          (lock_if (is_spin s) (initial (scalar_type s)) (done success d no_error) refl),
      ap (λ (r : Run ℕ). some r) (lock_if (is_spin s) d (done w d no_error) refl),
      refl,
    )
