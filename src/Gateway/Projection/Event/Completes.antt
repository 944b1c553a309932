-- ===== src/Gateway/Projection/Event/Completes.antt =====
-- A projection completes what its event says (crates/gateway/src/streaming.rs).
use mathlib.Core.Path.{subst}
use watt_gateway.Prelude.{
  ℕ, ◌≡◌, refl, ◌∙◌, String, Bool, true, false, Option, none, some, List, [], ◌∷◌, ◌||◌,
  if◌then◌else◌, lookup, string_eq, str_eq,
}
use watt_gateway.Gateway.Json.{Value, string, object, Map, from_map, as_object}
use watt_gateway.Gateway.Contracts.Kinds.{
  DataKind, kind_beq, mission_lifecycle, task_summary, hive_metadata, hive_activity,
  hive_message_posted, board_activity, ranking_projection,
}
use watt_gateway.Gateway.NodeEvent.{SignedNodeEvent}
use watt_gateway.Gateway.Projection.{
  map_object, merged_payload_object, complete_ranking, complete_mission, complete_status,
  with_mission_id, ranking_of, ranking_from, normalized_ranking_projection_payload, or_empty,
  find_nested,
}
use watt_gateway.Gateway.Projection.Event.{
  with_topic, hive_topic, complete_hive_metadata, with_message_id, complete_hive_activity,
  complete_board_activity, with_times, normalized_mission_lifecycle_payload,
  normalized_hive_metadata_payload, normalized_hive_activity_payload,
  normalized_board_activity_payload, as_kind, event_projection,
}
use watt_gateway.Gateway.Projection.Merged.{
  IsFirstObject, field_of, find_nested-IsFirstObject, lookup-merged,
}
use watt_gateway.Gateway.Projection.Keeps.{
  IsExtended, IsExtended-itself, extend_insert, extend_string, value_or, IsDone, IsDone-source,
  IsDone-insert, IsDone-status,
}

-- The keys of the nested object whose fields an event of a kind gives.
abbrev pub nested_keys_of : DataKind → List String
nested_keys_of kind =
    if kind_beq kind mission_lifecycle
    then []
    else if kind_beq kind hive_metadata
    then "hive" ∷ "topic" ∷ []
    else if kind_beq kind hive_activity || kind_beq kind hive_message_posted
    then "message" ∷ []
    else if kind_beq kind board_activity
    then "board_message" ∷ []
    else []

module _ (event : SignedNodeEvent) where
  abbrev Done : Map → Map → Type 0
  Done base m = IsDone event.node_id base m

  ranking-IsDone : (identity : String) (m : Map) → Done m (complete_ranking event identity m)
  unfolding complete_ranking
  ranking-IsDone identity m = IsDone-insert _ _ _ m _ (
      IsDone-source _ m _ (
        extend_insert _ _ m _ refl
          (extend_insert _ _ m _ refl (extend_insert _ _ m _ refl (IsExtended-itself m)))))

  mission-IsDone : (hint : String) (m : Map) → Done m (complete_mission event hint m)
  unfolding complete_mission
  mission-IsDone hint m = IsDone-insert _ _ _ m _ (
      IsDone-insert _ _ _ m _ (
        IsDone-insert _ _ _ m _
          (IsDone-source _ m _ (extend_insert _ _ m _ refl (IsExtended-itself m)))))

  status-IsDone : (base m : Map) → Done base m → Done base (complete_status event m)
  unfolding complete_status
  status-IsDone base m h = IsDone-status event.node_id event.event_kind base m h

  mission_id-IsDone :
      (id : Option String) (base m : Map) → Done base m → Done base (with_mission_id id m)
  mission_id-IsDone none base m h = h
  mission_id-IsDone (some id) base m h =
      IsDone-insert _ _ _ base _ (IsDone-insert _ _ _ base _ (IsDone-insert _ _ _ base m h))

  topic-IsExtended : (topic : Option String) (m : Map) → IsExtended m (with_topic topic m)
  topic-IsExtended none m = IsExtended-itself m
  topic-IsExtended (some topic) m =
      extend_insert _ _ m _ refl (extend_insert _ _ m _ refl (IsExtended-itself m))

  metadata-IsDone : (m : Map) → Done m (complete_hive_metadata event m)
  unfolding complete_hive_metadata
  metadata-IsDone m = IsDone-insert _ _ _ m _ (
      IsDone-source _ m _ (
        extend_string _ _ m _ refl
          (extend_string _ _ m _ refl (topic-IsExtended (hive_topic event m) m))))

  message-IsExtended : (m : Map) → IsExtended m (with_message_id event m)
  unfolding with_message_id
  message-IsExtended m = extend_insert _ _ m _ refl (IsExtended-itself m)

  times-IsDone :
      (created_at : ℕ) (base m : Map)
      → IsExtended base m
      → Done base (with_times event created_at m)
  times-IsDone created_at base m extended =
      IsDone-insert _ _ _ base _ (IsDone-insert _ _ _ base _ (IsDone-source _ base _ extended))

  activity-IsDone : (m : Map) → Done m (complete_hive_activity event m)
  unfolding complete_hive_activity
  activity-IsDone m = times-IsDone _ m _ (
      extend_string _ _ m _ refl (
        extend_string _ _ m _ refl
          (extend_string _ _ m _ refl (extend_string _ _ m _ refl (message-IsExtended m)))))

  board-IsDone : (m : Map) → Done m (complete_board_activity event m)
  unfolding complete_board_activity
  board-IsDone m = times-IsDone _ m _ (message-IsExtended m)

  -- With the nested object that stands first under the keys, if any: a map keeps each of its fields,
  -- and each of the payload's beside the keys that it has not, but the status, and its source node
  -- is that of these fields, or else the event's.
  abbrev pub IsCompleted : List String → Value → Type 0
  IsCompleted keys payload =
      (nested out : Map) × IsFirstObject keys event.payload nested
      × (payload ≡ object (from_map out))
      × ((key : String) (value : Value)
          → str_eq key "status" ≡ false
          → field_of keys nested event.payload key ≡ some value
          → lookup key out ≡ some value)
      × (lookup "source_node_id" out
          ≡ some (
              value_or (field_of keys nested event.payload "source_node_id")
                (string event.node_id)))

  completed :
      (keys : List String) (base nested out : Map)
      → IsFirstObject keys event.payload nested
      → ((key : String) → lookup key base ≡ field_of keys nested event.payload key)
      → Done base out
      → IsCompleted keys (object (from_map out))
  completed keys base nested out first fields (keeps, named) = (
    nested,
    out,
    first,
    refl,
    (λ key value other h. keeps key value other (fields key ∙ h)),
    rw (← fields "source_node_id") named,
  )

  -- It stays folded in the proofs, so that its argument is read off.
  IsSound : List String → Option Value → Type 0
  IsSound keys none = Unit
  IsSound keys (some payload) = IsCompleted keys payload

  plain :
      (m out : Map)
      → as_object event.payload ≡ some m
      → Done m out
      → IsCompleted [] (object (from_map out))
  unfolding lookup
  plain m out is done = completed [] m [] out refl (λ key. rw is refl) done

  of_object :
      (start : Option Map) (complete : Map → Map)
      → as_object event.payload ≡ start
      → ((m : Map) → Done m (complete m))
      → IsSound [] (map_object complete start)
  unfolding IsSound
  of_object none complete is done = tt
  of_object (some m) complete is done = plain m (complete m) is (done m)

  of_ranking :
      (start : Option Map) → as_object event.payload ≡ start → IsSound [] (ranking_from event start)
  unfolding IsSound
  of_ranking none is = tt
  of_ranking (some m) is = by_identity _
    where
      by_identity : (identity : Option String) → IsSound [] (ranking_of event identity m)
      by_identity none = tt
      by_identity (some identity) = plain m _ is (ranking-IsDone identity m)

  mission-IsSound : IsSound [] (normalized_mission_lifecycle_payload event)
  unfolding normalized_mission_lifecycle_payload
  mission-IsSound =
      of_object (as_object event.payload) _ refl
        (λ m. mission_id-IsDone _ m _ (status-IsDone m _ (mission-IsDone _ m)))

  merged-IsSound :
      (keys : List String) (complete : Map → Map)
      → ((m : Map) → Done m (complete m))
      → IsSound keys (map_object complete (merged_payload_object event.payload keys))
  unfolding IsSound
  merged-IsSound keys complete done = by_start (merged_payload_object event.payload keys) refl
    where
      by_start :
          (start : Option Map)
          → merged_payload_object event.payload keys ≡ start
          → IsSound keys (map_object complete start)
      by_start none is = tt
      by_start (some m) is =
          completed keys m (or_empty (find_nested keys event.payload)) (complete m)
            (find_nested-IsFirstObject keys event.payload)
            (λ key. lookup-merged keys event.payload m key is) (done m)

  metadata-IsSound : IsSound ("hive" ∷ "topic" ∷ []) (normalized_hive_metadata_payload event)
  unfolding normalized_hive_metadata_payload
  metadata-IsSound = merged-IsSound _ (complete_hive_metadata event) metadata-IsDone

  activity-IsSound : IsSound ("message" ∷ []) (normalized_hive_activity_payload event)
  unfolding normalized_hive_activity_payload
  activity-IsSound = merged-IsSound _ (complete_hive_activity event) activity-IsDone

  board-IsSound : IsSound ("board_message" ∷ []) (normalized_board_activity_payload event)
  unfolding normalized_board_activity_payload
  board-IsSound = merged-IsSound _ (complete_board_activity event) board-IsDone

  ranking-IsSound : IsSound [] (normalized_ranking_projection_payload event)
  unfolding normalized_ranking_projection_payload
  ranking-IsSound = of_ranking (as_object event.payload) refl

  abbrev value_of : Option (DataKind × Value) → Option Value
  value_of none = none
  value_of (some (kind, payload)) = some payload

  by_kind :
      (keys : List String) (kind : DataKind) (value : Option Value)
      → IsSound keys value
      → IsSound keys (value_of (as_kind kind value))
  by_kind keys kind none h = h
  by_kind keys kind (some value) h = h

  -- A test chooses the keys and the projection.
  choose :
      (test : Bool) (keys keys' : List String) (first second : Option (DataKind × Value))
      → IsSound keys (value_of first)
      → IsSound keys' (value_of second)
      → IsSound (if test then keys else keys') (value_of (if test then first else second))
  choose true keys keys' first second here there = here
  choose false keys keys' first second here there = there

  nothing : IsSound [] none
  unfolding IsSound
  nothing = tt

  -- The last test chooses between a ranking and nothing, with no keys in either case.
  last :
      (test : Bool) (first : Option (DataKind × Value))
      → IsSound [] (value_of first)
      → IsSound [] (value_of (if test then first else none))
  last true first here = here
  last false first here = nothing

  any_completed : IsSound (nested_keys_of event.data_kind) (value_of (event_projection event))
  unfolding event_projection
  any_completed = choose _ _ _ _ _ (by_kind _ task_summary _ mission-IsSound) (
      choose _ _ _ _ _ (by_kind _ hive_metadata _ metadata-IsSound) (
        choose _ _ _ _ _ (by_kind _ hive_activity _ activity-IsSound) (
          choose _ _ _ _ _ (by_kind _ board_activity _ board-IsSound)
            (last _ _ (by_kind _ ranking_projection _ ranking-IsSound)))))

  -- What an event projects to completes the fields that it starts from: with the nested object that
  -- the payload has under the keys of the event's kind (`hive` or `topic` for the metadata of a
  -- hive, `message` for its activity, `board_message` for a board's, none else), every field of that
  -- object, and every other field of the payload that it has not, keeps its value, but the status.
  -- The projection's source node is the one that these fields name, or else the event's node.
  pub projection_completes :
      (kind : DataKind) (payload : Value)
      → event_projection event ≡ some (kind, payload)
      → IsCompleted (nested_keys_of event.data_kind) payload
  unfolding IsSound
  projection_completes kind payload h =
      subst (λ p. IsSound (nested_keys_of event.data_kind) (value_of p)) h any_completed
