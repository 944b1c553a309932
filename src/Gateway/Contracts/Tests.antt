-- ===== src/Gateway/Contracts/Tests.antt =====
-- Kinds of the catalogue, and the key of a thread.
use watt_gateway.Prelude.{
  String, ◌≡◌, refl, ◌⊎◌, true, false, Option, [], ◌∷◌, is_blank, string_eq, Table, lookup, pair_eq,
}
use watt_gateway.Gateway.Contracts.Kinds.{presence, task_vote_signal, social_thread, world_event}
use watt_gateway.Gateway.Contracts.{
  data_kind_metadata, allows_public_stream, is_public, is_ws_stream, projection_identity_key,
  find_text, data_kind_policy, visibility_for_kind,
}
use watt_gateway.Gateway.Contracts.Laws.{
  has_subtype, is_wattetheria, is_event_push, is_conclusion, hybrid_kinds_complete,
  provisional_kinds_live, stream_is_public, FoundAt, identity_key_lem,
}

hybrid_kinds_complete_run :
    (has_subtype (data_kind_policy presence).hybrid_subtype ≡ true)
    × (is_wattetheria (data_kind_metadata presence).fallback_source ≡ true)
unfolding data_kind_metadata
hybrid_kinds_complete_run = hybrid_kinds_complete presence refl

provisional_kinds_live_run :
    (allows_public_stream task_vote_signal ≡ true)
    × (is_public (visibility_for_kind task_vote_signal) ≡ true)
    × (is_event_push (data_kind_policy task_vote_signal).ingest_mode ≡ true)
    × (is_conclusion (data_kind_metadata task_vote_signal).stage ≡ false)
unfolding data_kind_metadata
provisional_kinds_live_run = provisional_kinds_live task_vote_signal refl

world_events_are_streamed :
    allows_public_stream world_event ≡ is_ws_stream (data_kind_policy world_event).ui_delivery_mode
world_events_are_streamed = stream_is_public world_event

-- An object whose fields are texts.
abbrev get_str : Table String String → String → Option String
get_str value key = lookup key value

abbrev thread : Table String String
thread = ("thread_id", "t-1") ∷ ("id", "seven") ∷ []

-- A blank first field hides the next one.
blank_field_hides_id :
    projection_identity_key get_str social_thread
      (("thread_id", " ") ∷ ("id", "seven") ∷ [])
      "node-a"
    ≡ "node-a"
unfolding projection_identity_key data_kind_metadata find_text lookup is_blank
blank_field_hides_id = refl

identity_key_lem_run :
    (projection_identity_key get_str social_thread thread "node-a" ≡ "node-a")
    ⊎ (FoundAt get_str
          (data_kind_metadata social_thread).identity_fields
          thread
          (projection_identity_key get_str social_thread thread "node-a")
        × (is_blank (projection_identity_key get_str social_thread thread "node-a") ≡ false))
identity_key_lem_run = identity_key_lem get_str social_thread thread "node-a"
