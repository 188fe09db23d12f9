-- ===== src/Rwlock/Create.antt =====
-- `rwlock_initialize_object` and `cplus_rwlock_delete` of src/rwlock.c: the calls they make, for each
-- way in which the calls can be answered.
use libcplus.Common.{
  ℕ, ◌+◌, Bool, true, false, Option, none, some, List, [], ◌∷◌, ◌++◌, ltb, ◌==◌, if◌then◌else◌, not,
  ◌&&◌,
}

-- what `convert_rwlock_kind` answers
pub data PosixKind : Type 0 where
  prefer_reader prefer_writer prefer_writer_nonrecursive : PosixKind

pub data Opening : Type 0 where
  created opened hybrid : Opening

-- the calls, with whether they succeed
pub data Event : Type 0 where
  object_alloc object_free attr_destroy shared_alloc shared_delete rwlock_destroy check_failed :
      Event
  attr_init attr_set_pshared rwlock_init : Bool → Event
  attr_set_kind : PosixKind → Bool → Event
  shared_open : Opening → Bool → Event

-- `struct cplus_rwlock_config`; the enumerations are numbers, and `named` says that there is a name
pub record Config : Type 0 where
  pub named : Bool
  pub mode : ℕ
  pub kind : ℕ

-- which calls succeed, and whether this process owns the shared memory
pub record Answers : Type 0 where
  pub object : Bool
  pub attr : Bool
  pub set_kind : Bool
  pub name : Bool
  pub shared : Bool
  pub block : Bool
  pub owner : Bool
  pub attr_again : Bool
  pub set_pshared : Bool
  pub init : Bool

pub record Created : Type 0 where
  pub made : Bool
  pub events : List Event

unfoldable pub convert_rwlock_kind : ℕ → PosixKind
convert_rwlock_kind kind =
    if kind == 2
    then prefer_writer
    else if kind == 3
    then prefer_writer_nonrecursive
    else prefer_reader

-- `lock->rwlock` is never NULL: it leads to the lock in the object or in the shared memory.
unfoldable pub cplus_rwlock_delete : (shared owner : Bool) → List Event
cplus_rwlock_delete true owner =
    (if owner then rwlock_destroy ∷ [] else []) ++ shared_delete ∷ object_free ∷ []
cplus_rwlock_delete false owner = rwlock_destroy ∷ object_free ∷ []

abbrev pub destroyed : Bool → List Event
destroyed has_attr = if has_attr then attr_destroy ∷ [] else []

-- the label `exit`
unfoldable pub leave : List Event → (has_attr shared owner : Bool) → Created
leave events has_attr shared owner = record {
  made = false;
  events = events ++ (destroyed has_attr ++ cplus_rwlock_delete shared owner);
}

unfoldable pub finish : List Event → (has_attr shared do_init : Bool) → Answers → Created
finish events has_attr shared true a =
    if a.init
    then record { made = true; events = (events ++ rwlock_init true ∷ []) ++ destroyed has_attr }
    else leave (events ++ rwlock_init false ∷ []) has_attr shared a.owner
finish events has_attr shared false a = record {
  made = true;
  events = events ++ destroyed has_attr;
}

-- the attributes of a lock that this process shares
unfoldable pub share : List Event → (has_attr : Bool) → Answers → Created
share events true a =
    if a.set_pshared
    then finish (events ++ attr_set_pshared true ∷ []) true true true a
    else leave (events ++ attr_set_pshared false ∷ []) true true a.owner
share events false a =
    if a.attr_again
    then (if a.set_pshared
        then finish (events ++ attr_init true ∷ attr_set_pshared true ∷ []) true true true a
        else leave (events ++ attr_init true ∷ attr_set_pshared false ∷ []) true true a.owner)
    else finish (events ++ attr_init false ∷ []) false true true a

abbrev pub opening_of : ℕ → Opening
opening_of mode = if mode == 1 then created else if mode == 2 then opened else hybrid

unfoldable pub open_shared : List Event → (has_attr : Bool) → Config → Answers → Created
open_shared events has_attr c a =
    if not a.name
    then leave events has_attr false a.owner
    else if ltb 3 c.mode
    then leave events has_attr false a.owner
    else if not a.shared
    then leave (events ++ shared_open (opening_of c.mode) false ∷ []) has_attr false a.owner
    else if not a.block
    then leave (events ++ shared_open (opening_of c.mode) true ∷ shared_alloc ∷ []) has_attr true
        a.owner
    else if not a.owner
    then finish (events ++ shared_open (opening_of c.mode) true ∷ shared_alloc ∷ []) has_attr true
        false a
    else share (events ++ shared_open (opening_of c.mode) true ∷ shared_alloc ∷ []) has_attr a

unfoldable pub name_part : List Event → (has_attr : Bool) → Config → Answers → Created
name_part events has_attr c a =
    if c.named && not (c.mode == 0)
    then open_shared events has_attr c a
    else finish events has_attr false true a

-- Without memory for the object, `cplus_rwlock_delete` gets NULL and its check fails.
unfoldable pub rwlock_initialize_object : Config → Answers → Created
rwlock_initialize_object c a =
    if not a.object
    then record { made = false; events = object_alloc ∷ check_failed ∷ [] }
    else if ltb c.kind 4 && not (c.kind == 0)
    then (if not a.attr
        then name_part (object_alloc ∷ attr_init false ∷ []) false c a
        else if a.set_kind
        then name_part
            (object_alloc ∷ attr_init true ∷ attr_set_kind (convert_rwlock_kind c.kind) true ∷ [])
            true c a
        else leave
            (object_alloc ∷ attr_init true ∷ attr_set_kind (convert_rwlock_kind c.kind) false ∷ [])
            true false a.owner)
    else name_part (object_alloc ∷ []) false c a

-- The constructors of named locks get the length of the name, or none for NULL; `none` as the result
-- is NULL with EINVAL.
abbrev pub too_long : ℕ → Bool
too_long length = ltb 31 (length + 7)

abbrev pub named_config : ℕ → Config
named_config mode = record { named = true; mode = mode; kind = 0 }

unfoldable pub cplus_rwlock_xp_new : Option ℕ → Answers → Option Created
cplus_rwlock_xp_new none a = none
cplus_rwlock_xp_new (some length) a =
    if too_long length then none else some (rwlock_initialize_object (named_config 3) a)

unfoldable pub cplus_rwlock_xp_create : Option ℕ → Answers → Option Created
cplus_rwlock_xp_create none a = none
cplus_rwlock_xp_create (some length) a =
    if too_long length then none else some (rwlock_initialize_object (named_config 1) a)

unfoldable pub cplus_rwlock_xp_open : Option ℕ → Answers → Option Created
cplus_rwlock_xp_open none a = none
cplus_rwlock_xp_open (some length) a =
    if too_long length then none else some (rwlock_initialize_object (named_config 2) a)

unfoldable pub cplus_rwlock_new_config : Config → Answers → Created
cplus_rwlock_new_config c a = rwlock_initialize_object c a

unfoldable pub cplus_rwlock_new : Answers → Created
cplus_rwlock_new a = rwlock_initialize_object record { named = false; mode = 0; kind = 0 } a
