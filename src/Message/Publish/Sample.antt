-- ===== src/Message/Publish/Sample.antt =====
-- A Global event of the Genesis on the sample network.
use watt_gateway.Prelude.{
  String, Bool, true, false, Option, none, some, [], ◌∷◌, string_eq, pair_eq,
}
use watt_gateway.Message.Membership.{global}
use watt_gateway.Message.Membership.Mutation.Tests.{network, label_of}
use watt_gateway.Message.Config.Tests.{sample}
use watt_gateway.Message.Bucket.{interactive}
use watt_gateway.Message.Publish.{
  events, hint_global, Event, policy_tuned, event_type, PublishFrame, ValidatedFrame,
  PublishLibraries, PublishState, time_sensitive_control,
}
use watt_gateway.Message.Publish.Checks.{Prepared, Fanout}
use watt_gateway.Message.Publish.Pipeline.{PublishCall, Brokers}

abbrev pub event : Event
event = record {
  event_id = "record";
  author_node_id = "genesis";
  swarm_scope = "global";
  event_kind = "PolicyTuned";
  payload = policy_tuned;
}

abbrev pub route_text : Option String → String
route_text none = ""
route_text (some text) = text

-- A route is its text.
abbrev pub libraries : PublishLibraries String
libraries = record {
  scope_of_route = λ r. global;
  lane_of_route = λ r. events;
  address_of_route = λ r. r;
  from_kind_label = λ scope lane kind control. some "route";
  lane_as_str = λ lane. "events";
  label = label_of;
  parse_scope = λ text. some hint_global;
  parse_event = λ bytes. some event;
  parse_rule = λ bytes. none;
  parse_checkpoint = λ bytes. none;
  parse_summary = λ bytes. none;
  rule_message = λ rule. none;
  checkpoint_message = λ checkpoint. none;
  event_signature_holds = λ e. true;
  signature_holds = λ signer message signature. true;
  hash_bytes = λ bytes. "record hash";
  hash_route = λ r. some "route hash";
  hash_binding = λ r version n. "binding hash";
  delivery_class_for_record = λ lane urgency. interactive;
  delivery_policy_version = 1;
  is_finalizer = λ role. true;
  quorum_signature_holds = λ membership threshold signer signature. true;
}

abbrev pub frame : PublishFrame String
frame = record {
  framing_version = "1";
  delivery_policy_version = 1;
  record_id = "record";
  network_id = "network";
  transport = "route";
  payload_type = event_type;
  payload = 1 ∷ 2 ∷ [];
}

abbrev pub brokers : Bool → Brokers String
brokers confirmed = record {
  mutate = λ calls. true;
  reconcile = λ calls. true;
  publish = λ r. confirmed;
}

abbrev pub call : Bool → PublishCall String
call confirmed = record {
  brokers = brokers confirmed;
  config = sample;
  network_id = "network";
  author = "genesis";
  now = 1;
  elapsed = 0;
  receipt_id = "receipt";
  persists = true;
}

abbrev pub start : PublishState String
start = record {
  membership = network;
  receipts = [];
  global_buckets = [];
  non_global_buckets = [];
  published = [];
  audit = [];
}

abbrev pub validated : ValidatedFrame String
validated = record { route = "route"; urgency = time_sensitive_control; membership_mutation = none }

abbrev pub prepared : Prepared String
prepared = record {
  validated = validated;
  delivery_class = interactive;
  record_hash = "record hash";
  route_hash = "route hash";
}

abbrev pub fanout : Fanout
fanout = record {
  db = network;
  membership_version = some "v1";
  physical_recipients = 1;
  expected_recipients = 0;
  mutation_applied = false;
}
