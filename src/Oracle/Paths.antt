-- ===== src/Oracle/Paths.antt =====
-- rita/src/rita_common/oracle/mod.rs: values under paths of JSON objects, and what
-- `contains_forbidden_key` says of them.
use Prim.Native.String.{String}
use text.Mathlib.Text.{◌==◌ as str_eq}
use text.Mathlib.TextEquality.{eq_iff}
use mathlib.Core.Path.{subst}
use althea_rs.Prelude.{
  ◌≡◌, refl, sym, ◌∙◌, Bool, true, false, ◌||◌, Option, none, some, List, [], ◌∷◌, arith, inl, inr,
  Bool-cases, if◌then◌else◌,
}
use althea_rs.Prelude.Sets.{contains}
use althea_rs.TrafficWatcher.Keys.{name_key}
use althea_rs.Oracle.Json.{
  Value, null, scalar, array, object, Fields, end, field, contains_key, field_of, put_field, entry,
  contains_any, in_value, results,
}

-- What a value that is an object gives.
abbrev pub of_object : (Fields → Option Value) → Value → Option Value
of_object f (object fs) = f fs
of_object f null = none
of_object f (scalar s) = none
of_object f (array xs) = none

-- The value of a name under a path of objects.
abbrev pub value_at : List String → String → Value → Option Value
value_at [] key v = of_object (field_of key) v
value_at (k ∷ path) key v = of_object (λ fs. value_at path key (entry k fs)) v

-- Every field of a name has a property.
abbrev pub AllNamed : String → (Value → Type 0) → Fields → Type 0
AllNamed k P end = Unit
AllNamed k P (field j v fs) = (str_eq j k ≡ true → P v) × AllNamed k P fs

-- Along a path a value has objects and nothing else.
abbrev pub ObjectsAlong : List String → Value → Type 0
ObjectsAlong [] (object fs) = Unit
ObjectsAlong (k ∷ path) (object fs) = AllNamed k (ObjectsAlong path) fs
ObjectsAlong [] v = ⊥
ObjectsAlong (k ∷ path) v = ⊥

pub or_false : (a b : Bool) → (a || b) ≡ false → (a ≡ false) × (b ≡ false)
or_false a b h = ground arith

pub field_of-put_field :
    (h k : String) (w : Value) (fs : Fields)
    → field_of h (put_field k w fs) ≡ (if str_eq k h then some w else field_of h fs)
unfolding field_of put_field
field_of-put_field h k w end = refl
field_of-put_field h k w (field j v fs) =
    ground (arith, eq_iff k h, eq_iff j k, eq_iff j h, field_of-put_field h k w fs)

pub entry-put_field :
    (h k : String) (w : Value) (fs : Fields)
    → entry h (put_field k w fs) ≡ (if str_eq k h then w else entry h fs)
unfolding entry
entry-put_field h k w fs = ground (arith, field_of-put_field h k w fs)

contains_key-none :
    (key : String) (fs : Fields) → contains_key key fs ≡ false → field_of key fs ≡ none
unfolding contains_key field_of
contains_key-none key end h = refl
contains_key-none key (field j v fs) h = ground (arith, contains_key-none key fs)

first_field :
    (key k : String) (v : Value) (fs : Fields)
    → contains_key key (field k v fs) ≡ false
    → str_eq k key ≡ false
unfolding contains_key
first_field key k v fs h = (or_false _ _ h).0

-- A field fewer has no more names.
contains_any_tail :
    (forbidden : List String) (k : String) (v : Value) (fs : Fields)
    → contains_any forbidden (field k v fs) ≡ false
    → contains_any forbidden fs ≡ false
unfolding contains_any
contains_any_tail [] k v fs h = refl
contains_any_tail (item ∷ forbidden) k v fs h = ground (arith, contains_any_tail forbidden k v fs)

-- Where no forbidden name occurs, one of them does not.
contains_any-key :
    (key : String) (forbidden : List String) (fs : Fields)
    → contains key forbidden ≡ true
    → contains_any forbidden fs ≡ false
    → contains_key key fs ≡ false
unfolding contains contains_any
contains_any-key key [] fs h none_in = cc
contains_any-key key (item ∷ forbidden) fs h none_in = elim (Bool-cases (str_eq item key)) [
  | inl same ↦
      subst (λ k. contains_key k fs ≡ false) ((eq_iff item key).0 same) (or_false _ _ none_in).0
  | inr other ↦ contains_any-key key forbidden fs (rw (other) at h) (or_false _ _ none_in).1
]

pub of_object-other :
    (f : Fields → Option Value) (a : Value)
    → of_object (λ fs. some null) a ≡ none
    → of_object f a ≡ none
of_object-other f null e = refl
of_object-other f (scalar s) e = refl
of_object-other f (array xs) e = refl
of_object-other f (object fs) e = cc

module _ (forbidden : List String) (key : String) (known : contains key forbidden ≡ true) where
  in_value-object :
      (map : Fields)
      → in_value forbidden (object map) ≡ (contains_any forbidden map || results forbidden map)
  unfolding in_value
  in_value-object map = refl

  results-field :
      (k : String) (v : Value) (fs : Fields)
      → results forbidden (field k v fs) ≡ (in_value forbidden v || results forbidden fs)
  unfolding in_value
  results-field k v fs = refl

  results-entry :
      (k : String) (fs : Fields)
      → results forbidden fs ≡ false
      → in_value forbidden (entry k fs) ≡ false
  unfolding entry field_of in_value
  results-entry k end h = refl
  results-entry k (field j w fs) h = ground (arith, results-field j w fs, results-entry k fs)

  pub absent :
      (path : List String) (v : Value) → in_value forbidden v ≡ false → value_at path key v ≡ none
  absent [] (object fs) h =
      contains_key-none key fs
        (contains_any-key key forbidden fs known (or_false _ _ (sym (in_value-object fs) ∙ h)).0)
  absent (k ∷ path) (object fs) h =
      absent path (entry k fs) (results-entry k fs (or_false _ _ (sym (in_value-object fs) ∙ h)).1)
  absent [] null h = refl
  absent (k ∷ path) null h = refl
  absent [] (scalar s) h = refl
  absent (k ∷ path) (scalar s) h = refl
  absent [] (array xs) h = refl
  absent (k ∷ path) (array xs) h = refl

  -- The facts about the first field, and about the others.
  pub parts_of_field :
      (k : String) (v : Value) (bs : Fields)
      → in_value forbidden (object (field k v bs)) ≡ false
      → (str_eq k key ≡ false)
        × (in_value forbidden v ≡ false)
        × (in_value forbidden (object bs) ≡ false)
  parts_of_field k v bs h =
      let parts = or_false _ _ (sym (in_value-object (field k v bs)) ∙ h) in
      let deep = or_false _ _ (sym (results-field k v bs) ∙ parts.1) in
      let here =
        first_field key k v bs (contains_any-key key forbidden (field k v bs) known parts.0) in
      (here, deep.0, in_value-object bs ∙ rw (contains_any_tail forbidden k v bs parts.0) deep.1)
