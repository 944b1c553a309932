-- ===== src/Message/Admission.antt =====
-- The tenant admission of a cell: `validate_proposed_tenant_count` of
-- crates/message-gateway/src/service.rs and the check of `validate_active_tenant_admission` of
-- crates/message-gateway/src/db.rs, which write out the budgets of `Config::validate`.
pub mod Laws
pub mod Tests
use watt_gateway.Prelude.{ℕ, ◌||◌, ltb, Result, ok, err, bail_if, ◌>>=◌, ◌>>◌}
use watt_gateway.Message.Config.{
  Config, queue_budget, admitted_queues, required_delivery_rate, safe_delivery_rate,
}

pub data AdmissionError : Type 0 where
  tenant_or_fanout_exceeded : AdmissionError
  queues_exceeded : AdmissionError
  rate_exceeded : AdmissionError

-- `service::validate_proposed_tenant_count`
pub validate_proposed_tenant_count : Config → ℕ → Result AdmissionError (Unit {0})
validate_proposed_tenant_count c active = do
  bail_if (ltb c.max_active_tenants active || ltb c.max_fanout_recipients active)
      tenant_or_fanout_exceeded
  bail_if (ltb (admitted_queues c) (queue_budget active)) queues_exceeded
  bail_if (ltb (safe_delivery_rate c) (required_delivery_rate c active)) rate_exceeded

-- `db::validate_active_tenant_admission`, at the count that `active_tenant_count` returns
pub validate_active_tenant_admission : Config → ℕ → Result AdmissionError ℕ
validate_active_tenant_admission c active = do
  bail_if (ltb c.max_active_tenants active || ltb c.max_fanout_recipients active)
      tenant_or_fanout_exceeded
  bail_if (ltb (admitted_queues c) (queue_budget active)) queues_exceeded
  bail_if (ltb (safe_delivery_rate c) (required_delivery_rate c active)) rate_exceeded
  ok active
