-- ===== src/Message/Publish/Frame/Tests.antt =====
-- The sample frame passes the checks of its type.
use watt_gateway.Prelude.{◌≡◌, refl, String, true, some, ok, string_eq, pair_eq}
use watt_gateway.Message.Membership.{group}
use watt_gateway.Message.Membership.Mutation.{principal}
use watt_gateway.Message.Publish.{
  hint_group, feed_subscription_updated, background, Event, PublishFrame, ValidatedFrame,
  PublishLibraries, scope_from_hint, is_public_global_control,
}
use watt_gateway.Message.Publish.Frame.{
  subscription_mutation, validate_record_frame, validate_by_type, validate_event_frame,
  finish_event, lane_of_kind, event_urgency, event_mutation, mutation_differs,
}
use watt_gateway.Message.Publish.Frame.Binds.{changes_only_itself}
use watt_gateway.Message.Publish.Sample.{libraries, frame, validated}

pub frame_validates : validate_record_frame libraries "genesis" frame ≡ ok validated
unfolding validate_record_frame validate_by_type validate_event_frame finish_event lane_of_kind
    event_urgency event_mutation mutation_differs scope_from_hint is_public_global_control
frame_validates = refl

-- A subscription of a principal to a group.
abbrev joins_group : Event
joins_group = record {
  event_id = "joined";
  author_node_id = "alice";
  swarm_scope = "group";
  event_kind = "FeedSubscriptionUpdated";
  payload = feed_subscription_updated (some (hint_group "readers")) "alice" true;
}

abbrev group_libraries : PublishLibraries String
group_libraries = record libraries {
  parse_event = λ bytes. some joins_group;
  parse_scope = λ text. some (hint_group "readers");
  scope_of_route = λ r. group "readers";
}

abbrev group_frame : PublishFrame String
group_frame = record frame { record_id = "joined" }

abbrev joined : ValidatedFrame String
joined = record {
  route = "route";
  urgency = background;
  membership_mutation = some (principal (group "readers") "alice" true "joined");
}

group_frame_validates : validate_record_frame group_libraries "alice" group_frame ≡ ok joined
unfolding validate_record_frame validate_by_type validate_event_frame finish_event lane_of_kind
    event_urgency event_mutation mutation_differs scope_from_hint is_public_global_control
    subscription_mutation
group_frame_validates = refl

changes_only_itself_example :
    Path String "alice" "alice"
    × Path String "joined" "joined"
    × (group "readers" ≡ group "readers")
changes_only_itself_example =
    changes_only_itself group_libraries "alice" group_frame joined (group "readers") "alice"
      "joined" true group_frame_validates refl
