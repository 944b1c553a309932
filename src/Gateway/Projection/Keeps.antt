-- ===== src/Gateway/Projection/Keeps.antt =====
-- How the normalizers complete a map: what stands in it stays (crates/gateway/src/streaming.rs).
use watt_gateway.Prelude.{
  ◌≡◌, ◌∙◌, inl, inr, refl, ap, String, false, Option, none, some, lookup, insert, lookup-insert,
  lookup-insert_self, string_eq, str_eq-cases, str_eq, arith,
}
use watt_gateway.Gateway.Json.{Value, string, Map}
use watt_gateway.Gateway.Projection.{
  or_insert_at, or_insert, or_insert_some, non_blank, insert_string_if_missing, with_status,
}

-- Every field but the status stands in the second map with its value.
abbrev pub Keeps : Map → Map → Type 0
Keeps base m =
    (key : String) (value : Value)
    → str_eq key "status" ≡ false
    → lookup key base ≡ some value
    → lookup key m ≡ some value

pub Keeps-itself : (m : Map) → Keeps m m
Keeps-itself m = λ key value other h. h

insert_absent :
    (key k : String) (value v : Value) (m : Map)
    → lookup key m ≡ none
    → lookup k m ≡ some v
    → lookup k (insert key value m) ≡ some v
insert_absent key k value v m absent h = elim (str_eq-cases key k) [
  | inl (same, e) ↦ cc
  | inr e ↦ rw (lookup-insert key k value m, e) h
]

pub then_insert :
    (key : String) (value : Value) (base m : Map)
    → Keeps base m
    → Keeps base (or_insert key value m)
unfolding or_insert
then_insert key value base m keeps =
    λ k v other h. by_present (lookup key m) refl k v (keeps k v other h)
  where
    by_present :
        (present : Option Value)
        → lookup key m ≡ present
        → (k : String) (v : Value) → lookup k m ≡ some v
        → lookup k (or_insert_at present key value m) ≡ some v
    by_present (some there) is k v h = h
    by_present none is k v h = insert_absent key k value v m is h

pub then_string :
    (key : String) (value : Option String) (base m : Map)
    → Keeps base m
    → Keeps base (insert_string_if_missing key value m)
unfolding insert_string_if_missing
then_string key value base m keeps = by_text (non_blank value)
  where
    by_text : (text : Option String) → Keeps base (or_insert_some key text m)
    by_text none = keeps
    by_text (some text) = then_insert key (string text) base m keeps

-- A status alone is replaced.
pub then_status :
    (event_kind : String) (base m : Map)
    → Keeps base m
    → Keeps base (with_status (lookup "status" m) event_kind m)
then_status event_kind base m keeps = by_status (lookup "status" m)
  where
    status_replaced :
        (k : String) (v status : Value)
        → str_eq k "status" ≡ false
        → lookup k m ≡ some v
        → lookup k (insert "status" status m) ≡ some v
    status_replaced k v status other h = elim (str_eq-cases "status" k) [
      | inl (same, e) ↦ absurd (ground (arith, other, ap (λ s. str_eq s "status") same))
      | inr e ↦ rw (lookup-insert "status" k status m, e) h
    ]

    replaced : (status : Value) → Keeps base (insert "status" status m)
    replaced status = λ k v other h. status_replaced k v status other (keeps k v other h)

    by_status : (status : Option Value) → Keeps base (with_status status event_kind m)
    by_status none = replaced _
    by_status (some status) = replaced _

-- What a present value or another is.
abbrev pub value_or : Option Value → Value → Value
value_or none other = other
value_or (some value) other = value

-- A map that keeps the first one's fields, and has its source node where the first one has none.
abbrev pub IsExtended : Map → Map → Type 0
IsExtended base m = Keeps base m × (lookup "source_node_id" m ≡ lookup "source_node_id" base)

pub IsExtended-itself : (m : Map) → IsExtended m m
IsExtended-itself m = (Keeps-itself m, refl)

lookup-or_insert_ne :
    (key k : String) (value : Value) (m : Map)
    → str_eq key k ≡ false
    → lookup k (or_insert key value m) ≡ lookup k m
unfolding or_insert
lookup-or_insert_ne key k value m differs = by_present (lookup key m)
  where
    by_present : (present : Option Value) → lookup k (or_insert_at present key value m) ≡ lookup k m
    by_present (some there) = refl
    by_present none = rw (lookup-insert key k value m, differs) refl

pub extend_insert :
    (key : String) (value : Value) (base m : Map)
    → str_eq key "source_node_id" ≡ false
    → IsExtended base m
    → IsExtended base (or_insert key value m)
extend_insert key value base m differs (keeps, same) = (
  then_insert key value base m keeps,
  lookup-or_insert_ne key "source_node_id" value m differs ∙ same,
)

pub extend_string :
    (key : String) (value : Option String) (base m : Map)
    → str_eq key "source_node_id" ≡ false
    → IsExtended base m
    → IsExtended base (insert_string_if_missing key value m)
unfolding insert_string_if_missing
extend_string key value base m differs extended = by_text (non_blank value)
  where
    by_text : (text : Option String) → IsExtended base (or_insert_some key text m)
    by_text none = extended
    by_text (some text) = extend_insert key (string text) base m differs extended

-- A map that keeps the first one's fields, and names its source node: the first one's, or the node.
abbrev pub IsDone : String → Map → Map → Type 0
IsDone node_id base m =
    Keeps base m
    × (lookup "source_node_id" m ≡ some (value_or (lookup "source_node_id" base) (string node_id)))

pub IsDone-source :
    (node_id : String) (base m : Map)
    → IsExtended base m
    → IsDone node_id base (or_insert "source_node_id" (string node_id) m)
unfolding or_insert
IsDone-source node_id base m (keeps, same) = (
  then_insert "source_node_id" (string node_id) base m keeps,
  by_present (lookup "source_node_id" m) refl ∙ ap (λ v. some (value_or v (string node_id))) same,
)
  where
    by_present :
        (present : Option Value)
        → lookup "source_node_id" m ≡ present
        → lookup "source_node_id" (or_insert_at present "source_node_id" (string node_id) m)
          ≡ some (value_or (lookup "source_node_id" m) (string node_id))
    by_present (some there) is = rw is refl
    by_present none is = rw (lookup-insert_self "source_node_id" (string node_id) m, is) refl

then-IsDone :
    (node_id : String) (base m out : Map)
    → IsDone node_id base m
    → Keeps base out
    → Keeps m out
    → IsDone node_id base out
then-IsDone node_id base m out (keeps, named) kept later =
    (kept, later "source_node_id" _ refl named)

pub IsDone-insert :
    (node_id key : String) (value : Value) (base m : Map)
    → IsDone node_id base m
    → IsDone node_id base (or_insert key value m)
IsDone-insert node_id key value base m done =
    then-IsDone node_id base m _ done (then_insert key value base m done.0)
      (then_insert key value m m (Keeps-itself m))

pub IsDone-status :
    (node_id event_kind : String) (base m : Map)
    → IsDone node_id base m
    → IsDone node_id base (with_status (lookup "status" m) event_kind m)
IsDone-status node_id event_kind base m done =
    then-IsDone node_id base m _ done (then_status event_kind base m done.0)
      (then_status event_kind m m (Keeps-itself m))
