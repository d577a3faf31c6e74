-- ===== src/Oracle/Merge.antt =====
-- rita/src/rita_common/oracle/mod.rs: what `merge_settings_safely` protects. A setting stands under
-- a path of objects; what the server sends cannot change one of a forbidden name, unless it sends
-- something else than an object on the way there.
use Prim.Native.String.{String}
use text.Mathlib.Text.{◌==◌ as str_eq}
use text.Mathlib.TextEquality.{eq_iff}
use althea_rs.Prelude.{
  ◌≡◌, refl, sym, ap, ◌∙◌, true, false, none, some, List, [], ◌∷◌, inl, inr, Bool-cases,
  Option-cases,
}
use althea_rs.Prelude.Sets.{contains}
use althea_rs.TrafficWatcher.Keys.{name_key}
use althea_rs.Oracle.Paths.{
  of_object, value_at, ObjectsAlong, field_of-put_field, entry-put_field, absent, parts_of_field,
  of_object-other,
}
use althea_rs.Oracle.Prices.{Serde, forbidden_merge_values, merge, merge_settings_safely}
use althea_rs.Oracle.Json.{
  Value, null, scalar, array, object, Fields, end, field, field_of, put_field, entry, json_merge,
  merge_fields, in_value, contains_forbidden_key,
}

module _ (forbidden : List String) (key : String) (known : contains key forbidden ≡ true) where
  -- One write to a field, which has another name or has the same under the path.
  put_field-keeps_here :
      (k : String) (w : Value) (olds : Fields)
      → str_eq k key ≡ false
      → field_of key (put_field k w olds) ≡ field_of key olds
  put_field-keeps_here k w olds other = rw (field_of-put_field key k w olds, other)

  put_field-keeps_below :
      (j : String) (path : List String) (k : String) (w : Value) (olds : Fields)
      → (str_eq k j ≡ true → value_at path key w ≡ value_at path key (entry k olds))
      → value_at path key (entry j (put_field k w olds)) ≡ value_at path key (entry j olds)
  put_field-keeps_below j path k w olds keep = elim (Bool-cases (str_eq k j)) [
    | inl same ↦
        rw (entry-put_field j k w olds, same)
          (keep same ∙ ap (λ i. value_at path key (entry i olds)) ((eq_iff k j).0 same))
    | inr other ↦ rw (entry-put_field j k w olds, other)
  ]

  merge_fields-field :
      (olds : Fields) (k : String) (v : Value) (bs : Fields)
      → merge_fields olds (field k v bs)
        ≡ merge_fields (put_field k (json_merge (entry k olds) v) olds) bs
  unfolding json_merge
  merge_fields-field olds k v bs = refl

  merge_fields-end : (olds : Fields) → merge_fields olds end ≡ olds
  unfolding json_merge
  merge_fields-end olds = refl

  json_merge-object :
      (olds bs : Fields) → json_merge (object olds) (object bs) ≡ object (merge_fields olds bs)
  unfolding json_merge
  json_merge-object olds bs = refl

  -- Where the old value is no object, it is replaced, and has nothing under a path.
  json_merge-other :
      (a : Value) (bs : Fields)
      → of_object (λ fs. some null) a ≡ none
      → json_merge a (object bs) ≡ object bs
  unfolding json_merge
  json_merge-other null bs e = refl
  json_merge-other (scalar s) bs e = refl
  json_merge-other (array xs) bs e = refl
  json_merge-other (object fs) bs e = cc

  value_at-other :
      (path : List String) (a : Value)
      → of_object (λ fs. some null) a ≡ none
      → value_at path key a ≡ none
  value_at-other [] a e = of_object-other (field_of key) a e
  value_at-other (k ∷ path) a e = of_object-other (λ fs. value_at path key (entry k fs)) a e

  mutual
    -- What a merge leaves under a path that ends in a forbidden name.
    keep_value :
        (b a : Value) (path : List String)
        → in_value forbidden b ≡ false
        → ObjectsAlong path b
        → value_at path key (json_merge a b) ≡ value_at path key a
    keep_value null a [] h along = absurd along
    keep_value null a (k ∷ path) h along = absurd along
    keep_value (scalar s) a [] h along = absurd along
    keep_value (scalar s) a (k ∷ path) h along = absurd along
    keep_value (array xs) a [] h along = absurd along
    keep_value (array xs) a (k ∷ path) h along = absurd along
    keep_value (object bs) null path h along =
        rw (json_merge-other null bs refl)
          (absent forbidden key known path (object bs) h ∙ sym (value_at-other path null refl))
    keep_value (object bs) (scalar s) path h along =
        rw (json_merge-other (scalar s) bs refl) (
          absent forbidden key known path (object bs) h ∙ sym (value_at-other path (scalar s) refl))
    keep_value (object bs) (array xs) path h along =
        rw (json_merge-other (array xs) bs refl) (
          absent forbidden key known path (object bs) h ∙ sym (value_at-other path (array xs) refl))
    keep_value (object bs) (object olds) path h along =
        rw (json_merge-object olds bs) (keep_fields bs olds path h along)

    keep_fields :
        (bs olds : Fields) (path : List String)
        → in_value forbidden (object bs) ≡ false
        → ObjectsAlong path (object bs)
        → value_at path key (object (merge_fields olds bs)) ≡ value_at path key (object olds)
    keep_fields end olds path h along = rw (merge_fields-end olds)
    keep_fields (field k v bs) olds [] h along =
        let parts = parts_of_field forbidden key known k v bs h in
        let w = json_merge (entry k olds) v in
        rw (merge_fields-field olds k v bs) (
          keep_fields bs (put_field k w olds) [] parts.2 tt ∙ put_field-keeps_here k w olds parts.0)
    keep_fields (field k v bs) olds (j ∷ path) h along =
        let parts = parts_of_field forbidden key known k v bs h in
        let w = json_merge (entry k olds) v in
        rw (merge_fields-field olds k v bs) (
          keep_fields bs (put_field k w olds) (j ∷ path) parts.2 along.1
          ∙ put_field-keeps_below j path k w olds
              (λ same. keep_value v (entry k olds) path parts.1 (along.0 same)))

-- What is read from a document prints the value of a name under a path as the document has it,
-- where the document has what some settings printed.
abbrev pub Prints : {S : Type 0} → Serde S → List String → String → Type 0
Prints {S} serde path key =
    (s s' : S) (v : Value)
    → serde.from_value v ≡ some s'
    → value_at path key v ≡ value_at path key (serde.to_value s)
    → value_at path key (serde.to_value s') ≡ value_at path key (serde.to_value s)

module _ {S : Type 0} (serde : Serde S) where
  merge-keeps :
      (key : String) (path : List String) (map : Fields) (s : S)
      → Prints serde path key
      → contains key forbidden_merge_values ≡ true
      → contains_forbidden_key forbidden_merge_values map ≡ false
      → ObjectsAlong path (object map)
      → value_at path key (serde.to_value (merge serde (object map) s))
        ≡ value_at path key (serde.to_value s)
  unfolding merge contains_forbidden_key
  merge-keeps key path map s prints known clean along =
      let document = json_merge (serde.to_value s) (object map) in
      elim (Option-cases (serde.from_value document)) [
        | inl refused ↦ rw (refused, merge)
        | inr (s', read) ↦
            rw (read, merge)
              (prints s s' document read (
                keep_value forbidden_merge_values key known (object map) (serde.to_value s) path
                  clean along))
      ]

  -- What the server sends to be merged leaves every setting of a forbidden name as it is, under
  -- any path along which it sends objects only.
  pub merge_settings_safely-keeps :
      (key : String) (path : List String) (new_settings : Value) (s : S)
      → Prints serde path key
      → contains key forbidden_merge_values ≡ true
      → ObjectsAlong path new_settings
      → value_at path key (serde.to_value (merge_settings_safely serde new_settings s))
        ≡ value_at path key (serde.to_value s)
  unfolding merge_settings_safely
  merge_settings_safely-keeps key path null s prints known along = refl
  merge_settings_safely-keeps key path (scalar text) s prints known along = refl
  merge_settings_safely-keeps key path (array xs) s prints known along = refl
  merge_settings_safely-keeps key path (object map) s prints known along =
      elim (Bool-cases (contains_forbidden_key forbidden_merge_values map)) [
        | inl dirty ↦ rw dirty
        | inr clean ↦ rw clean (merge-keeps key path map s prints known clean along)
      ]
