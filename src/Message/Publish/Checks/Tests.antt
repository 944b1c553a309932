-- ===== src/Message/Publish/Checks/Tests.antt =====
-- The sample frame is prepared and its fanout planned.
use watt_gateway.Prelude.{◌≡◌, refl, true, ok, string_eq, pair_eq}
use watt_gateway.Message.Membership.Mutation.Tests.{
  network, genesis_is_author, genesis_is_recipient,
}
use watt_gateway.Message.Config.Tests.{sample}
use watt_gateway.Message.Publish.Checks.{
  prepare, check_snapshot, plan_fanout, bound_fanout, apply_mutation, author_is_recipient,
  allows_member_author,
}
use watt_gateway.Message.Publish.Sample.{libraries, frame, validated, prepared, fanout}
use watt_gateway.Message.Publish.Frame.Tests.{frame_validates}

pub frame_is_prepared : prepare libraries "network" "genesis" frame network ≡ ok prepared
unfolding prepare check_snapshot
frame_is_prepared = rw frame_validates refl

pub frame_is_planned :
    plan_fanout libraries "network" "genesis" (λ calls. true) sample 1 0 frame validated network
    ≡ ok fanout
unfolding plan_fanout bound_fanout apply_mutation author_is_recipient allows_member_author
frame_is_planned = rw (genesis_is_author 1, genesis_is_recipient 1) refl
