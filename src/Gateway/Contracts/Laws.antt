-- ===== src/Gateway/Contracts/Laws.antt =====
-- Rules that the data-kind catalogue keeps, and the key of a projection
-- (crates/gateway/src/contracts.rs).
use watt_gateway.Prelude.{
  String, ◌≡◌, refl, ◌⊎◌, inl, inr, Bool, true, false, ◌&&◌, ◌||◌, not, Option, none, some, List,
  [], ◌∷◌, is_blank, arith, Bool-cases, Option-cases,
}
use watt_gateway.Gateway.Contracts.Kinds.{
  DataKind, SourceSystem, hybrid, wattetheria, ProvisionalExportPolicy, never_before_confirmation,
  GatewayIngestMode, event_push, DataStage, mechanism_conclusion, HybridSubtype,
}
use watt_gateway.Gateway.Contracts.Every.{every_kind}
use watt_gateway.Gateway.Contracts.{
  data_kind_metadata, allows_public_stream, is_public, is_ws_stream, find_text, non_blank_or,
  projection_identity_key, data_kind_policy, visibility_for_kind,
}

abbrev pub is_hybrid : SourceSystem → Bool
is_hybrid hybrid = true
is_hybrid _ = false

abbrev pub is_wattetheria : Option SourceSystem → Bool
is_wattetheria (some wattetheria) = true
is_wattetheria _ = false

abbrev pub has_subtype : Option HybridSubtype → Bool
has_subtype none = false
has_subtype (some subtype) = true

abbrev pub is_provisional : ProvisionalExportPolicy → Bool
is_provisional never_before_confirmation = false
is_provisional _ = true

abbrev pub is_event_push : GatewayIngestMode → Bool
is_event_push event_push = true
is_event_push _ = false

abbrev pub is_conclusion : DataStage → Bool
is_conclusion mechanism_conclusion = true
is_conclusion _ = false

-- A kind whose primary source is a hybrid says which hybrid it is, and falls back to wattetheria.
pub hybrid_kinds_complete :
    (kind : DataKind)
    → is_hybrid (data_kind_metadata kind).primary_source ≡ true
    → (has_subtype (data_kind_policy kind).hybrid_subtype ≡ true)
      × (is_wattetheria (data_kind_metadata kind).fallback_source ≡ true)
unfolding data_kind_metadata data_kind_policy
hybrid_kinds_complete kind h =
    let test =
      every_kind
        (λ k.
          not (is_hybrid (data_kind_metadata k).primary_source)
          || (has_subtype (data_kind_policy k).hybrid_subtype
              && is_wattetheria (data_kind_metadata k).fallback_source))
        refl kind in
    (ground arith, ground arith)

-- A kind that may leave a node before it is confirmed is public, is pushed as events, is streamed
-- live, and is no conclusion of a mechanism.
pub provisional_kinds_live :
    (kind : DataKind)
    → is_provisional (data_kind_metadata kind).provisional_export_policy ≡ true
    → (allows_public_stream kind ≡ true)
      × (is_public (visibility_for_kind kind) ≡ true)
      × (is_event_push (data_kind_policy kind).ingest_mode ≡ true)
      × (is_conclusion (data_kind_metadata kind).stage ≡ false)
unfolding data_kind_metadata data_kind_policy allows_public_stream visibility_for_kind
provisional_kinds_live kind h =
    let test =
      every_kind
        (λ k.
          not (is_provisional (data_kind_metadata k).provisional_export_policy)
          || (allows_public_stream k
              && is_public (visibility_for_kind k)
              && is_event_push (data_kind_policy k).ingest_mode
              && not (is_conclusion (data_kind_metadata k).stage)))
        refl kind in
    (ground arith, ground arith, ground arith, ground arith)

-- The public stream is the websocket stream: no protected kind is delivered there.
pub stream_is_public :
    (kind : DataKind)
    → allows_public_stream kind ≡ is_ws_stream (data_kind_policy kind).ui_delivery_mode
unfolding data_kind_metadata data_kind_policy allows_public_stream
stream_is_public kind =
    let test =
      every_kind
        (λ k.
          is_public (data_kind_metadata k).visibility
          || not (is_ws_stream (data_kind_metadata k).ui_delivery_mode))
        refl kind in
    ground arith

module _ {Value : Type 0} (get_str : Value → String → Option String) where
  -- Where a text of the value is found under one of the fields.
  abbrev pub FoundAt : List String → Value → String → Type 0
  FoundAt [] value text = ⊥
  FoundAt (key ∷ keys) value text = (get_str value key ≡ some text) ⊎ FoundAt keys value text

  find_text-FoundAt :
      (keys : List String) (value : Value) (text : String)
      → find_text get_str keys value ≡ some text
      → FoundAt keys value text
  unfolding find_text
  find_text-FoundAt [] value text h = absurd (cc)
  find_text-FoundAt (key ∷ keys) value text h = elim (Option-cases (get_str value key)) [
    | inl e ↦ inr (find_text-FoundAt keys value text (ground arith))
    | inr (t, e) ↦ inl (ground arith)
  ]

  -- The key of a projection is the node that sent it, or a text of the value under an identity field
  -- of the kind, and then not blank. So no projection has a blank key, unless the node's name is.
  pub identity_key_lem :
      (kind : DataKind) (value : Value) (node : String)
      → let key = projection_identity_key get_str kind value node in
        (key ≡ node)
        ⊎ (FoundAt (data_kind_metadata kind).identity_fields value key × (is_blank key ≡ false))
  unfolding projection_identity_key
  identity_key_lem kind value node =
      at (find_text get_str (data_kind_metadata kind).identity_fields value) refl
    where
      at :
          (found : Option String)
          → find_text get_str (data_kind_metadata kind).identity_fields value ≡ found
          → let key = non_blank_or get_str node found in
            (key ≡ node)
            ⊎ (FoundAt (data_kind_metadata kind).identity_fields value key × (is_blank key ≡ false))
      at none e = inl refl
      at (some text) e = elim (Bool-cases (is_blank text)) [
        | inl b ↦ inl (rw b refl)
        | inr b ↦ inr (rw b (find_text-FoundAt _ value text e, b))
      ]
