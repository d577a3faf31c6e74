-- ===== src/Oracle/Json.antt =====
-- `serde_json::Value`, and `json_merge` of settings/src/lib.rs. The map of an object is a list of
-- fields; a field that is looked up is the first of its name, as `Map` has one of each name.
use Prim.Native.String.{String}
use text.Mathlib.Text.{◌==◌ as str_eq}
use althea_rs.Prelude.{Bool, false, Option, none, some, List, [], ◌∷◌, ◌||◌, if◌then◌else◌}

mutual
  -- A number, string or truth value is told apart from others by its text alone.
  pub data Value : Type 0 where
    null : Value
    scalar : String → Value
    array : Items → Value
    object : Fields → Value

  pub data Items : Type 0 where
    nil : Items
    cons : Value → Items → Items

  pub data Fields : Type 0 where
    end : Fields
    field : String → Value → Fields → Fields

-- `map.contains_key`
unfoldable pub contains_key : String → Fields → Bool
contains_key k end = false
contains_key k (field j v fs) = str_eq j k || contains_key k fs

unfoldable pub field_of : String → Fields → Option Value
field_of k end = none
field_of k (field j v fs) = if str_eq j k then some v else field_of k fs

-- An assignment to the value of a field, which is inserted if there is none.
unfoldable pub put_field : String → Value → Fields → Fields
put_field k v end = field k v end
put_field k v (field j w fs) = if str_eq j k then field j v fs else field j w (put_field k v fs)

-- `a.entry(k).or_insert(Value::Null)`
unfoldable pub entry : String → Fields → Value
unfolding field_of
entry k fs = elim (field_of k fs) [ none ↦ null | some v ↦ v ]

unfoldable mutual
  -- `json_merge a b`, with `a` after it.
  pub json_merge : Value → Value → Value
  json_merge (object olds) (object bs) = object (merge_fields olds bs)
  json_merge null (object bs) = object bs
  json_merge (scalar s) (object bs) = object bs
  json_merge (array xs) (object bs) = object bs
  json_merge a null = null
  json_merge a (scalar s) = scalar s
  json_merge a (array xs) = array xs

  -- The loop over the fields of `b`.
  pub merge_fields : Fields → Fields → Fields
  merge_fields olds end = olds
  merge_fields olds (field k v bs) =
      merge_fields (put_field k (json_merge (entry k olds) v) olds) bs

unfoldable pub contains_any : List String → Fields → Bool
unfolding contains_key
contains_any [] map = false
contains_any (item ∷ forbidden) map = contains_key item map || contains_any forbidden map

unfoldable mutual
  -- The call for a value that is an object.
  pub in_value : List String → Value → Bool
  in_value forbidden null = false
  in_value forbidden (scalar s) = false
  in_value forbidden (array xs) = false
  in_value forbidden (object map) = contains_any forbidden map || results forbidden map

  pub results : List String → Fields → Bool
  results forbidden end = false
  results forbidden (field name new_obj fs) = in_value forbidden new_obj || results forbidden fs

unfoldable pub contains_forbidden_key : List String → Fields → Bool
unfolding in_value contains_any
contains_forbidden_key forbidden map = in_value forbidden (object map)
