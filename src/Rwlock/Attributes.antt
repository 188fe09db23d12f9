-- ===== src/Rwlock/Attributes.antt =====
-- The attributes and the lock in the calls of `rwlock_initialize_object` of src/rwlock.c.
use libcplus.Common.{
  ℕ, ◌+◌, ◌≡◌, refl, Bool, true, false, List, [], ◌∷◌, ◌++◌, ltb, ◌==◌, if◌then◌else◌, not, ◌&&◌,
  arith, lt→ltb, ne→==, ◌<◌,
}
use libcplus.Rwlock.Create.{
  Event, object_alloc, attr_destroy, shared_alloc, rwlock_destroy, attr_init, attr_set_pshared,
  rwlock_init, attr_set_kind, shared_open, Config, Answers, Created, convert_rwlock_kind,
  cplus_rwlock_delete, destroyed, leave, finish, share, opening_of, open_shared, name_part,
  rwlock_initialize_object,
}

-- how often an event of a kind stands in a run
abbrev pub count : (Event → Bool) → List Event → ℕ
count test [] = 0
count test (e ∷ es) = (if test e then 1 else 0) + count test es

abbrev pub is_attr_init : Event → Bool
is_attr_init (attr_init true) = true
is_attr_init e = false

abbrev pub is_attr_destroy : Event → Bool
is_attr_destroy attr_destroy = true
is_attr_destroy e = false

count-append :
    (test : Event → Bool) (xs ys : List Event)
    → count test (xs ++ ys) ≡ count test xs + count test ys
count-append test [] ys = omega arith
count-append test (x ∷ xs) ys = omega (arith, count-append test xs ys)

-- so many attributes are initialised and not destroyed
abbrev Open : ℕ → List Event → Type 0
Open n es = count is_attr_init es ≡ count is_attr_destroy es + n

abbrev held : Bool → ℕ
held has_attr = if has_attr then 1 else 0

Open-append :
    (n k : ℕ) (xs ys : List Event)
    → Open n xs
    → count is_attr_init ys + n ≡ count is_attr_destroy ys + k
    → Open k (xs ++ ys)
Open-append n k xs ys o e =
    rw (count-append is_attr_init xs ys, count-append is_attr_destroy xs ys) (omega arith)

-- the events with which the object is left, or which end well, destroy the attributes
Open-delete :
    (has_attr shared owner : Bool) (xs : List Event)
    → Open (held has_attr) xs
    → Open 0 (xs ++ (destroyed has_attr ++ cplus_rwlock_delete shared owner))
unfolding cplus_rwlock_delete
Open-delete true true true xs o =
    Open-append 1 0 xs (destroyed true ++ cplus_rwlock_delete true true) o refl
Open-delete true true false xs o =
    Open-append 1 0 xs (destroyed true ++ cplus_rwlock_delete true false) o refl
Open-delete true false owner xs o =
    Open-append 1 0 xs (destroyed true ++ cplus_rwlock_delete false owner) o refl
Open-delete false true true xs o =
    Open-append 0 0 xs (destroyed false ++ cplus_rwlock_delete true true) o refl
Open-delete false true false xs o =
    Open-append 0 0 xs (destroyed false ++ cplus_rwlock_delete true false) o refl
Open-delete false false owner xs o =
    Open-append 0 0 xs (destroyed false ++ cplus_rwlock_delete false owner) o refl

-- one more call that is not about the attributes
Open-other :
    (has_attr : Bool) (xs ys : List Event)
    → Open (held has_attr) xs
    → count is_attr_init ys ≡ 0
    → count is_attr_destroy ys ≡ 0
    → Open (held has_attr) (xs ++ ys)
Open-other has_attr xs ys o i d = Open-append (held has_attr) (held has_attr) xs ys o (omega arith)

Open-destroyed :
    (has_attr : Bool) (xs : List Event)
    → Open (held has_attr) xs
    → Open 0 (xs ++ destroyed has_attr)
Open-destroyed true xs o = Open-append 1 0 xs (destroyed true) o refl
Open-destroyed false xs o = Open-append 0 0 xs (destroyed false) o refl

leave-Open :
    (xs : List Event) (has_attr shared owner : Bool)
    → Open (held has_attr) xs
    → Open 0 (leave xs has_attr shared owner).events
unfolding leave
leave-Open xs has_attr shared owner o = Open-delete has_attr shared owner xs o

-- whatever a test answers
Open-if :
    (b : Bool) (x y : Created)
    → Open 0 x.events
    → Open 0 y.events
    → Open 0 (if b then x else y).events
Open-if true x y o p = o
Open-if false x y o p = p

module _ (a : Answers) where
  finish-Open :
      (xs : List Event) (has_attr shared do_init : Bool)
      → Open (held has_attr) xs
      → Open 0 (finish xs has_attr shared do_init a).events
  unfolding finish
  finish-Open xs has_attr shared false o = Open-destroyed has_attr xs o
  finish-Open xs has_attr shared true o =
      Open-if a.init _ _
        (Open-destroyed has_attr (xs ++ rwlock_init true ∷ [])
          (Open-other has_attr xs (rwlock_init true ∷ []) o refl refl))
        (leave-Open (xs ++ rwlock_init false ∷ []) has_attr shared a.owner
          (Open-other has_attr xs (rwlock_init false ∷ []) o refl refl))

  share-Open :
      (xs : List Event) (has_attr : Bool)
      → Open (held has_attr) xs
      → Open 0 (share xs has_attr a).events
  unfolding share
  share-Open xs true o =
      Open-if a.set_pshared _ _
        (finish-Open (xs ++ attr_set_pshared true ∷ []) true true true
          (Open-other true xs (attr_set_pshared true ∷ []) o refl refl))
        (leave-Open (xs ++ attr_set_pshared false ∷ []) true true a.owner
          (Open-other true xs (attr_set_pshared false ∷ []) o refl refl))
  share-Open xs false o =
      let more = λ (b : Bool). xs ++ attr_init true ∷ attr_set_pshared b ∷ [] in
      Open-if a.attr_again _ _
        (Open-if a.set_pshared _ _
          (finish-Open (more true) true true true
            (Open-append 0 1 xs (attr_init true ∷ attr_set_pshared true ∷ []) o refl))
          (leave-Open (more false) true true a.owner
            (Open-append 0 1 xs (attr_init true ∷ attr_set_pshared false ∷ []) o refl)))
        (finish-Open (xs ++ attr_init false ∷ []) false true true
          (Open-other false xs (attr_init false ∷ []) o refl refl))

  open_shared-Open :
      (c : Config) (xs : List Event) (has_attr : Bool)
      → Open (held has_attr) xs
      → Open 0 (open_shared xs has_attr c a).events
  unfolding open_shared
  open_shared-Open c xs has_attr o =
      let opening = opening_of c.mode in
      let both = shared_open opening true ∷ shared_alloc ∷ [] in
      let with_both = Open-other has_attr xs both o refl refl in
      let gone = leave-Open xs has_attr false a.owner o in
      Open-if (not a.name) _ _ gone (
        Open-if (ltb 3 c.mode) _ _ gone (
          Open-if (not a.shared) _ _
            (leave-Open (xs ++ shared_open opening false ∷ []) has_attr false a.owner
              (Open-other has_attr xs (shared_open opening false ∷ []) o refl refl))
            (Open-if (not a.block) _ _ (leave-Open (xs ++ both) has_attr true a.owner with_both) (
              Open-if (not a.owner) _ _ (finish-Open (xs ++ both) has_attr true false with_both)
                (share-Open (xs ++ both) has_attr with_both)))))

  name_part-Open :
      (c : Config) (xs : List Event) (has_attr : Bool)
      → Open (held has_attr) xs
      → Open 0 (name_part xs has_attr c a).events
  unfolding name_part
  name_part-Open c xs has_attr o =
      Open-if (c.named && not (c.mode == 0)) _ _ (open_shared-Open c xs has_attr o)
        (finish-Open xs has_attr false true o)

  -- On every path, `rwlock_initialize_object` destroys the attributes exactly as often as it
  -- initialises them.
  pub rwlock_initialize_object-attributes :
      (c : Config)
      → count is_attr_init (rwlock_initialize_object c a).events
        ≡ count is_attr_destroy (rwlock_initialize_object c a).events
  unfolding rwlock_initialize_object
  rwlock_initialize_object-attributes c =
      let set = λ (b : Bool).
        object_alloc ∷ attr_init true ∷ attr_set_kind (convert_rwlock_kind c.kind) b ∷ [] in
      let balanced : Open 0 (rwlock_initialize_object c a).events =
        Open-if (not a.object) _ _ refl (
          Open-if (ltb c.kind 4 && not (c.kind == 0)) _ _
            (Open-if (not a.attr) _ _
              (name_part-Open c (object_alloc ∷ attr_init false ∷ []) false refl)
              (Open-if a.set_kind _ _ (name_part-Open c (set true) true refl)
                (leave-Open (set false) true false a.owner refl)))
            (name_part-Open c (object_alloc ∷ []) false refl)) in
      omega arith

abbrev pub is_rwlock_init : Event → Bool
is_rwlock_init (rwlock_init b) = true
is_rwlock_init e = false

abbrev pub is_rwlock_destroy : Event → Bool
is_rwlock_destroy rwlock_destroy = true
is_rwlock_destroy e = false

-- When the kind of the lock cannot be set, `rwlock_initialize_object` destroys the lock once
-- without having initialised it.
pub rwlock_initialize_object-uninitialised :
    (c : Config) (a : Answers)
    → 0 < c.kind
    → c.kind < 4
    → a.object ≡ true
    → a.attr ≡ true
    → a.set_kind ≡ false
    → (count is_rwlock_init (rwlock_initialize_object c a).events ≡ 0)
      × (count is_rwlock_destroy (rwlock_initialize_object c a).events ≡ 1)
unfolding rwlock_initialize_object leave cplus_rwlock_delete
rwlock_initialize_object-uninitialised c a lo hi object attr set_kind =
    rw (object, lt→ltb c.kind 4 hi, ne→== c.kind 0 (omega arith), attr, set_kind) (refl, refl)
