-- ===== src/Message/Admission/Laws.antt =====
-- What tenant admission allows, against the limits that the configuration was validated with.
use watt_gateway.Prelude.{
  ℕ, ◌≤◌, ◌≡◌, ◌↔◌, String, Option, List, arith, ok, ◌>>=◌, saturating_mul_mono,
  saturating_mul_mono_left, saturating_add_mono,
}
use watt_gateway.Message.Config.{Config, queue_budget, required_delivery_rate, validate}
use watt_gateway.Message.Config.Valid.{
  HasCapacity, HasCapacity-of_tests, validate-IsValid, passes_budgets,
}
use watt_gateway.Message.Admission.{
  validate_proposed_tenant_count, validate_active_tenant_admission,
}

-- The budgets grow with the number of tenants.
queue_budget_mono : (a b : ℕ) → a ≤ b → queue_budget a ≤ queue_budget b
unfolding queue_budget
queue_budget_mono a b h =
    saturating_add_mono _ 16 _ 16 (saturating_mul_mono_left a b 2 h) (omega arith)

required_mono :
    (c : Config) (a b : ℕ) → a ≤ b → required_delivery_rate c a ≤ required_delivery_rate c b
unfolding required_delivery_rate
required_mono c a b h =
    saturating_add_mono _ _ _ _ (saturating_mul_mono c.max_global_publishes_per_second a b h)
      (omega arith)

-- An admitted number of tenants is within both limits, and within the exact budgets of the cell.
pub proposed-HasCapacity :
    (c : Config) (active : ℕ)
    → validate_proposed_tenant_count c active ≡ ok tt
    → (active ≤ c.max_active_tenants) × (active ≤ c.max_fanout_recipients) × HasCapacity c active
unfolding validate_proposed_tenant_count
proposed-HasCapacity c active h =
    (ground arith, ground arith, HasCapacity-of_tests c active (ground arith) (ground arith))

-- Under a validated configuration a membership is admitted exactly when it has at most
-- `max_active_tenants` members: neither the fanout limit nor the two budgets can refuse one that
-- the tenant limit lets through.
pub proposed_iff :
    (hex_decode : String → Option (List ℕ)) (c : Config) (active : ℕ)
    → validate hex_decode c ≡ ok tt
    → (validate_proposed_tenant_count c active ≡ ok tt) ↔ (active ≤ c.max_active_tenants)
unfolding validate_proposed_tenant_count
proposed_iff hex_decode c active v =
    let recipients = (validate-IsValid hex_decode c v).identities.recipients in
    let (queues, rate) = passes_budgets hex_decode c v in
    (
      λ h. ground arith,
      λ h. ground (
        arith,
        recipients,
        queues,
        rate,
        queue_budget_mono active c.max_active_tenants h,
        required_mono c active c.max_active_tenants h,
      ),
    )

-- The check at start-up and the check of a mutation decide alike.
pub active-proposed :
    (c : Config) (active : ℕ)
    → validate_active_tenant_admission c active
      ≡ (validate_proposed_tenant_count c active >>= λ _. ok active)
unfolding validate_active_tenant_admission validate_proposed_tenant_count
active-proposed c active = ground arith
