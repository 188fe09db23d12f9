-- ===== src/Llist/Keyed.antt =====
-- The functions of src/llist.c that keep typed data under keys: the values of such a list are the
-- addresses of objects of src/data.c, and a comparator looks a key up.
pub mod Lookup
pub mod Added
pub mod Updated
mod Tests
use libcplus.Common.{
  ℕ, not, Option, none, some, ℤ, pos, negsuc, List, [], ◌∷◌, ltb, ◌==◌, if◌then◌else◌, length,
  Status, success, fail,
}
use libcplus.Heap.{
  Ptr, null, Errno, no_error, einval, fault, out_of_fuel, Cmd, pure, ◌>>=◌, ◌>>◌, set_errno,
}
use libcplus.Data
use libcplus.Data.{Data, DataType, scalar_type, string_type, Scalar}
use libcplus.Data.Access.{cplus_data_set_value}
use libcplus.Data.Clone.{cplus_data_clone_value}
use libcplus.Data.Key.{cplus_data_set_key, cplus_data_get_key}
use libcplus.Data.Memory.{Malloc, u32}
use libcplus.Data.New.{
  Created, no_memory, deleted, created, lost, cplus_data_new_ex, cplus_data_delete,
}
use libcplus.Data.Text.{cstr}
use libcplus.Llist.{LinkedList, Comparator}
use libcplus.Llist.Api.{cplus_llist_get_if, cplus_llist_pop_if, cplus_llist_push_back}

-- the objects in memory; an address that holds none fails `cplus_data_check`
abbrev pub Objects : Type 0
Objects = Ptr → Option Data

unfoldable pub place : Objects → Ptr → Option Data → Objects
place objects p o q = if q == p then o else objects q

-- the object that NULL does not have
abbrev pub object_at : Objects → Ptr → Option Data
object_at objects p = if p == null then none else objects p

-- `strcmp` of two strings without their NUL; only its sign is specified.
unfoldable pub strcmp : List ℕ → List ℕ → ℤ
strcmp [] [] = pos 0
strcmp [] (d ∷ t) = negsuc 0
strcmp (c ∷ s) [] = pos 1
strcmp (c ∷ s) (d ∷ t) =
    let rest = strcmp s t in if c == d then rest else if ltb c d then negsuc 0 else pos 1

-- A block without a NUL, which the code reads past its end, counts as another key.
unfoldable pub compare_text : Option (List ℕ) → List ℕ → ℤ
unfolding strcmp
compare_text none key = pos 1
compare_text (some text) key = strcmp text key

-- An object without a key answers 1.
unfoldable pub compare_key : Option (List ℕ) → List ℕ → ℤ
unfolding compare_text
compare_key none key = pos 1
compare_key (some b) key = compare_text (cstr b) key

-- The values of the list are objects, which the code asserts.
unfoldable pub compare_object : Option Data → List ℕ → ℤ
unfolding compare_key
compare_object none key = pos 1
compare_object (some d) key = compare_key (cplus_data_get_key d) key

-- The key behind `data2` is an argument.
unfoldable pub find_node_by_key : Objects → List ℕ → Comparator
unfolding compare_object
find_node_by_key objects key p data2 = compare_object (objects p) key

-- an object, or NULL, with the objects and the list behind the call
abbrev pub Keyed : Type 0
Keyed = (Ptr × Objects) × LinkedList

-- the characters of the caller's key; a block without a NUL is read past its end
unfoldable pub with_key_text : {A : Type 0} → Option (List ℕ) → (List ℕ → Cmd A) → Cmd A
with_key_text none k = λ _. fault
with_key_text (some text) k = k text

-- `CHECK_NOT_NULL`
abbrev pub refuse : Objects → LinkedList → Cmd Keyed
refuse objects list = do set_errno einval; pure ((null, objects), list)

-- The new object is pushed, and handed out even if there is no node for it.
unfoldable pub push_created : (node fresh : Ptr) → Objects → LinkedList → Created → Cmd Keyed
push_created node fresh objects list no_memory = pure ((null, objects), list)
push_created node fresh objects list (deleted d) = pure ((null, objects), list)
push_created node fresh objects list lost = λ _. fault
push_created node fresh objects list (created d) = do
  (s, l) ← cplus_llist_push_back node list fresh
  pure ((fresh, place objects fresh (some d)), l)

-- `errno` is written by a failure only.
abbrev pub leave_errno : Errno → Cmd (Unit {0})
leave_errno no_error = pure tt
leave_errno e = set_errno e

-- The result of the write is not looked at.
unfoldable pub written : Ptr → Objects → LinkedList → Data.Run Status → Cmd Keyed
written p objects list (Data.done r d e) = do
  leave_errno e
  pure ((p, place objects p (some d)), list)
written p objects list Data.spinning = λ _. out_of_fuel
written p objects list Data.fault = λ _. fault

-- what a search found, or NULL
unfoldable pub cplus_llist_find_data :
    Objects → LinkedList → Option (List ℕ) → Cmd (Ptr × LinkedList)
unfolding with_key_text
cplus_llist_find_data objects list none = do set_errno einval; pure (null, list)
cplus_llist_find_data objects list (some key) =
    with_key_text (cstr key)
      (λ (text : List ℕ). cplus_llist_get_if list (some (find_node_by_key objects text)) null)

module _ (node fresh : Ptr) (malloc : Malloc) where
  unfoldable pub add_or_set :
      Objects → LinkedList → DataType → Option ℕ → Option (List ℕ) → List ℕ → ℕ → Ptr → Cmd Keyed
  unfolding push_created written
  add_or_set objects list t value1 value2 key len p = elim (object_at objects p) [
    | none ↦
        push_created node fresh objects list
          (cplus_data_new_ex (not (fresh == null)) malloc t value1 value2 len (some key))
    | some d ↦ written p objects list (cplus_data_set_value malloc d value1 value2)
  ]

  -- `node` and `fresh` are the addresses that a new node and a new object get.
  unfoldable pub cplus_llist_add_data :
      Objects → LinkedList → DataType → Option (List ℕ) → Option ℕ → Option (List ℕ) → Cmd Keyed
  unfolding with_key_text add_or_set
  cplus_llist_add_data objects list t none value1 value2 = refuse objects list
  cplus_llist_add_data objects list t (some key) none value2 = refuse objects list
  cplus_llist_add_data objects list t (some key) (some w) value2 =
      with_key_text (cstr key) (λ (text : List ℕ). do
        (p, l) ← cplus_llist_get_if list (some (find_node_by_key objects text)) null
        add_or_set objects l t (some w) value2 key (u32 (length text)) p)

  -- `cplus_llist_add_data_bool` to `cplus_llist_add_data_pointer`
  unfoldable pub cplus_llist_add_data_scalar :
      Objects → LinkedList → Scalar → Option (List ℕ) → ℕ → Cmd Keyed
  cplus_llist_add_data_scalar objects list s key w =
      cplus_llist_add_data objects list (scalar_type s) key (some w) none

  unfoldable pub cplus_llist_add_data_string :
      Objects → LinkedList → Option (List ℕ) → Option (List ℕ) → ℕ → Cmd Keyed
  cplus_llist_add_data_string objects list key chars len =
      cplus_llist_add_data objects list string_type key (some len) chars

module _ (node : Ptr) (malloc : Malloc) where
  -- the object is pushed once its key is set, and replaces what is handed out
  abbrev pub pushed_as : Objects → Ptr → Ptr → Status × LinkedList → Cmd Keyed
  pushed_as objects target value (success, l) = pure ((value, objects), l)
  pushed_as objects target value (fail, l) = pure ((target, objects), l)

  unfoldable pub push_keyed : Objects → LinkedList → Ptr → Ptr → Data.Run Status → Cmd Keyed
  push_keyed objects list target value Data.spinning = λ _. out_of_fuel
  push_keyed objects list target value Data.fault = λ _. fault
  push_keyed objects list target value (Data.done fail d e) = do
    leave_errno e
    pure ((target, place objects value (some d)), list)
  push_keyed objects list target value (Data.done success d e) = do
    leave_errno e
    r ← cplus_llist_push_back node list value
    pushed_as (place objects value (some d)) target value r

  -- The given object gets the key, whether or not a target was found.
  unfoldable pub set_and_push : Objects → LinkedList → Ptr → Ptr → List ℕ → ℕ → Cmd Keyed
  unfolding push_keyed
  set_and_push objects list target value key len = elim (object_at objects value) [
    | none ↦ λ _. fault
    | some d ↦ push_keyed objects list target value (cplus_data_set_key malloc d len (some key))
  ]

  unfoldable pub cloned_into :
      Objects → LinkedList → Ptr → Ptr → List ℕ → ℕ → Data.Run Status → Cmd Keyed
  unfolding set_and_push
  cloned_into objects list target value key len Data.spinning = λ _. out_of_fuel
  cloned_into objects list target value key len Data.fault = λ _. fault
  cloned_into objects list target value key len (Data.done fail t e) = do
    leave_errno e
    pure ((null, place objects target (some t)), list)
  cloned_into objects list target value key len (Data.done success t e) = do
    leave_errno e
    set_and_push (place objects target (some t)) list target value key len

  unfoldable pub update_found : Objects → LinkedList → Ptr → Data → Ptr → List ℕ → ℕ → Cmd Keyed
  unfolding set_and_push cloned_into
  update_found objects list target d value key len =
      if target == null
      then set_and_push objects list null value key len
      else elim (objects target) [
        | none ↦ λ _. fault
        | some t ↦ cloned_into objects list target value key len (cplus_data_clone_value malloc t d)
      ]

  unfoldable pub cplus_llist_update_data : Objects → LinkedList → Option (List ℕ) → Ptr → Cmd Keyed
  unfolding with_key_text update_found
  cplus_llist_update_data objects list none value = refuse objects list
  cplus_llist_update_data objects list (some key) value = elim (object_at objects value) [
    | none ↦ refuse objects list
    | some d ↦ with_key_text (cstr key) (λ (text : List ℕ). do
      (p, l) ← cplus_llist_get_if list (some (find_node_by_key objects text)) null
      update_found objects l p d value key (u32 (length text)))
  ]

-- the objects, the blocks that are freed with the removed one, and the list
abbrev pub removed : Objects → Ptr → LinkedList → Cmd ((Objects × List (List ℕ)) × LinkedList)
removed objects p list = if p == null then pure ((objects, []), list) else elim (objects p) [
  | none ↦ λ _. fault
  | some d ↦ pure ((place objects p none, cplus_data_delete d), list)
]

-- CPLUS_SUCCESS whether or not there is such a key; CPLUS_FAIL without a key.
unfoldable pub cplus_llist_remove_data :
    Objects → LinkedList → Option (List ℕ) → Cmd (Status × (Objects × List (List ℕ)) × LinkedList)
unfolding with_key_text
cplus_llist_remove_data objects list none = do set_errno einval; pure (fail, (objects, []), list)
cplus_llist_remove_data objects list (some key) = with_key_text (cstr key) (λ (text : List ℕ). do
  (p, l) ← cplus_llist_pop_if list (some (find_node_by_key objects text)) null
  r ← removed objects p l
  pure (success, r.0, r.1))
