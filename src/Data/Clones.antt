-- ===== src/Data/Clones.antt =====
-- `cplus_data_clone_value` of src/data.c on strings.
use mathlib.Core.Path.{subst}
use libcplus.Common.{
  ℕ, ◌≤◌, ◌<◌, ◌≡◌, refl, ◌∙◌, ap, arith, true, false, some, List, ltb, leb, ◌==◌, length, lt→ltb,
  le→ltb, success, no_error,
}
use libcplus.Data.{Value, Data, done, fault, string}
use libcplus.Data.Memory.{Malloc, take, overwrite, cplus_mem_cpy}
use libcplus.Data.Clone.{
  cloned, clone_resized, resized, clone_string, clone_values, cplus_data_clone_value,
}
use libcplus.Data.Blocks.{length-take, length-overwrite, take-overwrite, copy_bytes_fit}
use libcplus.Data.RoundTrip.{Allocates}

-- what the clone of a string makes of the two blocks
clone_of :
    (malloc : Malloc) (dest src : Data) (len src_len : ℕ) (b sb : List ℕ)
    → dest.value ≡ string len (some b)
    → src.value ≡ string src_len (some sb)
    → cplus_data_clone_value malloc dest src
      ≡ clone_string malloc (record dest { str_code = src.str_code }) len (some b) src_len (some sb)
unfolding cplus_data_clone_value clone_values
clone_of malloc dest src len src_len b sb ed es =
    ap (λ (v : Value). clone_values malloc dest src.str_code src.bufs_size v src.value) ed
    ∙ ap
        (λ (v : Value). clone_values malloc dest src.str_code src.bufs_size (string len (some b)) v)
        es

-- A string is cloned with its code into an object with a shorter block, when the allocator has memory:
-- the block that the object gets starts with the bytes of the source. The object does not become valid.
pub cplus_data_clone_value-longer :
    (malloc : Malloc) (dest src : Data) (len src_len : ℕ) (b sb : List ℕ)
    → Allocates malloc
    → dest.value ≡ string len (some b)
    → src.value ≡ string src_len (some sb)
    → len < src_len
    → src_len ≤ length sb
    → (c : List ℕ) × (cplus_data_clone_value malloc dest src
        ≡ done success
            (record dest { str_code = src.str_code; value = string src_len (some c) })
            no_error)
      × (take src_len c ≡ take src_len sb)
unfolding clone_string clone_resized resized cloned cplus_mem_cpy
cplus_data_clone_value-longer malloc dest src len src_len b sb room ed es shorter whole =
    let (f, e, l) = room src_len in
    let grown_block = overwrite (take src_len b) f in
    let longer : ltb len src_len ≡ true = lt→ltb len src_len shorter in
    let some_bytes : (src_len == 0) ≡ false = ground arith in
    let l' = length-take src_len sb whole in
    let fits : src_len ≤ length grown_block = omega (arith, length-overwrite (take src_len b) f) in
    (
      overwrite (take src_len sb) grown_block,
      clone_of malloc dest src len src_len b sb ed es
          ∙ rw (longer, e, some_bytes, copy_bytes_fit grown_block sb src_len whole fits) refl,
      subst (λ (m : ℕ). take m (overwrite (take src_len sb) grown_block) ≡ take src_len sb) l'
          (take-overwrite (take src_len sb) grown_block (omega arith)),
    )

-- Cloning a string into an object whose length passes the end of the source's block reads outside that
-- block: the number of bytes is the destination's length.
pub cplus_data_clone_value-shorter :
    (malloc : Malloc) (dest src : Data) (len src_len : ℕ) (b sb : List ℕ)
    → dest.value ≡ string len (some b)
    → src.value ≡ string src_len (some sb)
    → src_len ≤ len
    → length sb < len
    → cplus_data_clone_value malloc dest src ≡ fault
unfolding clone_string cloned cplus_mem_cpy
cplus_data_clone_value-shorter malloc dest src len src_len b sb ed es shorter outside =
    let small : ltb len src_len ≡ false = le→ltb len src_len shorter in
    let some_bytes : (len == 0) ≡ false = ground arith in
    let reads : leb len (length sb) ≡ false = ground arith in
    clone_of malloc dest src len src_len b sb ed es ∙ rw (small, some_bytes, reads) refl
