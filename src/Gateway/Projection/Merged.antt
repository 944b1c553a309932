-- ===== src/Gateway/Projection/Merged.antt =====
-- The fields that a payload is merged to (crates/gateway/src/streaming.rs).
use watt_gateway.Prelude.{
  ◌≡◌, ◌⊎◌, inl, inr, refl, sym, ap, ◌∙◌, String, Bool, true, false, Option, none, some, List, [],
  ◌∷◌, any, if◌then◌else◌, lookup, lookup-insert, string_eq, str_eq-cases, str_eq, Bool-cases,
}
use watt_gateway.Gateway.Json.{Value, Map, as_object, get}
use watt_gateway.Gateway.Projection.{
  or_else_value, or_insert_at, or_insert, as_map, or_else_map, find_nested, or_empty, add_top_level,
  non_empty, merged_payload_object,
}

-- The object under the first of the keys that has one, or no fields.
abbrev pub IsFirstObject : List String → Value → Map → Type 0
IsFirstObject [] payload m = m ≡ []
IsFirstObject (key ∷ keys) payload m =
    (as_map (get key payload) ≡ some m)
    ⊎ ((as_map (get key payload) ≡ none) × IsFirstObject keys payload m)

-- A field of the nested object, or else one of the payload beside the keys of nested objects.
abbrev pub field_of : List String → Map → Value → String → Option Value
field_of keys nested payload key =
    or_else_value (lookup key nested)
      (if any (str_eq key) keys then none else lookup key (or_empty (as_object payload)))

pub find_nested-IsFirstObject :
    (keys : List String) (payload : Value)
    → IsFirstObject keys payload (or_empty (find_nested keys payload))
unfolding find_nested
find_nested-IsFirstObject [] payload = refl
find_nested-IsFirstObject (key ∷ keys) payload =
    by_object (as_map (get key payload)) refl (find_nested-IsFirstObject keys payload)
  where
    by_object :
        (found : Option Map)
        → as_map (get key payload) ≡ found
        → IsFirstObject keys payload (or_empty (find_nested keys payload))
        → IsFirstObject
            (key ∷ keys)
            payload
            (or_empty (or_else_map found (find_nested keys payload)))
    by_object (some m) is rest = inl is
    by_object none is rest = inr (is, rest)

or_else_none : (v : Option Value) → or_else_value v none ≡ v
or_else_none none = refl
or_else_none (some v) = refl

or_else_assoc :
    (a b c : Option Value)
    → or_else_value (or_else_value a b) c ≡ or_else_value a (or_else_value b c)
or_else_assoc none b c = refl
or_else_assoc (some a) b c = refl

lookup-or_insert :
    (k key : String) (value : Value) (m : Map)
    → lookup key (or_insert k value m)
      ≡ or_else_value (lookup key m) (if str_eq k key then some value else none)
unfolding or_insert
lookup-or_insert k key value m = by_present (lookup k m) refl
  where
    by_present :
        (present : Option Value)
        → lookup k m ≡ present
        → lookup key (or_insert_at present k value m)
          ≡ or_else_value (lookup key m) (if str_eq k key then some value else none)
    by_present (some there) is = elim (str_eq-cases k key) [
      | inl (same, e) ↦ let found : lookup key m ≡ some there = rw same at is in rw found refl
      | inr other ↦ rw other (sym (or_else_none (lookup key m)))
    ]
    by_present none is = elim (str_eq-cases k key) [
      | inl (same, e) ↦
          let absent : lookup key m ≡ none = rw same at is in
          rw (lookup-insert k key value m, e, absent) refl
      | inr other ↦ rw (lookup-insert k key value m, other) (sym (or_else_none (lookup key m)))
    ]

any_same :
    (k key : String) (keys : List String) (b : Bool)
    → k ≡ key
    → any (str_eq k) keys ≡ b
    → any (str_eq key) keys ≡ b
any_same k key keys b same h = rw same at h

module _ (keys : List String) (k key : String) (v : Value) (rest m : Map) where
  abbrev beside : Option Value → Option Value
  beside value = or_else_value (lookup key m) (if any (str_eq key) keys then none else value)

  -- A key of a nested object is passed over.
  reserved_passes :
      any (str_eq k) keys ≡ true
      → beside (lookup key rest) ≡ beside (if str_eq k key then some v else lookup key rest)
  reserved_passes reserved = elim (str_eq-cases k key) [
    | inl (same, e) ↦ rw (any_same k key keys true same reserved) refl
    | inr other ↦ rw other refl
  ]

  -- Another key stands before the rest.
  plain_stands :
      any (str_eq k) keys ≡ false
      → or_else_value
          (lookup key (or_insert k v m))
          (if any (str_eq key) keys then none else lookup key rest)
        ≡ beside (if str_eq k key then some v else lookup key rest)
  plain_stands plain = rw (lookup-or_insert k key v m) (or_else_assoc (lookup key m) _ _ ∙ by_key)
    where
      by_key :
          or_else_value (lookup key m) (
            or_else_value
              (if str_eq k key then some v else none)
              (if any (str_eq key) keys then none else lookup key rest))
          ≡ beside (if str_eq k key then some v else lookup key rest)
      by_key = elim (str_eq-cases k key) [
        | inl (same, e) ↦ rw (e, any_same k key keys false same plain) refl
        | inr other ↦ rw other refl
      ]

-- The fields after the payload's are added.
lookup-add_top_level :
    (keys : List String) (top m : Map) (key : String)
    → lookup key (add_top_level keys top m)
      ≡ or_else_value (lookup key m) (if any (str_eq key) keys then none else lookup key top)
unfolding add_top_level lookup
lookup-add_top_level keys [] m key = elim (Bool-cases (any (str_eq key) keys)) [
  | inl e ↦ rw e (sym (or_else_none (lookup key m)))
  | inr e ↦ rw e (sym (or_else_none (lookup key m)))
]
lookup-add_top_level keys ((k, v) ∷ rest) m key = elim (Bool-cases (any (str_eq k) keys)) [
  | inl reserved ↦
      rw reserved
        (lookup-add_top_level keys rest m key ∙ reserved_passes keys k key v rest m reserved)
  | inr plain ↦ rw plain (
      lookup-add_top_level keys rest (or_insert k v m) key ∙ plain_stands keys k key v rest m plain)
]

merged_is : (m base : Map) → non_empty m ≡ some base → m ≡ base
merged_is [] base h = cc
merged_is (field ∷ rest) base h = cc

pub lookup-merged :
    (keys : List String) (payload : Value) (base : Map) (key : String)
    → merged_payload_object payload keys ≡ some base
    → lookup key base ≡ field_of keys (or_empty (find_nested keys payload)) payload key
unfolding merged_payload_object
lookup-merged keys payload base key h =
    ap (lookup key) (sym (merged_is _ base h))
    ∙ lookup-add_top_level keys (or_empty (as_object payload)) (or_empty (find_nested keys payload))
        key
