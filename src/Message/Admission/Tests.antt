-- ===== src/Message/Admission/Tests.antt =====
-- Tenant admission at the sample configuration.
use watt_gateway.Prelude.{◌≤◌, ◌≡◌, ◌↔◌, refl, ok, err, ◌>>=◌, saturating_mul, saturating_add}
use watt_gateway.Message.Config.{
  admitted_queues, queue_budget, safe_delivery_rate, required_delivery_rate,
}
use watt_gateway.Message.Config.Valid.{HasCapacity}
use watt_gateway.Message.Config.Tests.{sample, thirty_two, sample_passes}
use watt_gateway.Message.Admission.{
  validate_proposed_tenant_count, validate_active_tenant_admission, tenant_or_fanout_exceeded,
}
use watt_gateway.Message.Admission.Laws.{proposed-HasCapacity, proposed_iff, active-proposed}

four_hundred_admitted : validate_proposed_tenant_count sample 400 ≡ ok tt
unfolding validate_proposed_tenant_count admitted_queues queue_budget safe_delivery_rate
    required_delivery_rate saturating_mul saturating_add
four_hundred_admitted = refl

pub two_tenants : validate_proposed_tenant_count sample 2 ≡ ok tt
unfolding validate_proposed_tenant_count admitted_queues queue_budget safe_delivery_rate
    required_delivery_rate saturating_mul saturating_add
two_tenants = refl

more_refused : validate_proposed_tenant_count sample 401 ≡ err tenant_or_fanout_exceeded
unfolding validate_proposed_tenant_count
more_refused = refl

four_hundred_fit : (400 ≤ 400) × (400 ≤ 400) × HasCapacity sample 400
four_hundred_fit = proposed-HasCapacity sample 400 four_hundred_admitted

proposed_iff_run : (validate_proposed_tenant_count sample 7 ≡ ok tt) ↔ (7 ≤ 400)
proposed_iff_run = proposed_iff thirty_two sample 7 sample_passes

checks_agree_at_seven :
    validate_active_tenant_admission sample 7
    ≡ (validate_proposed_tenant_count sample 7 >>= λ _. ok 7)
checks_agree_at_seven = active-proposed sample 7
