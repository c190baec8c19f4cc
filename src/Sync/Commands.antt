-- ===== src/Sync/Commands.antt =====
-- The transactions of src/opsflow/application/order_sync.py. `now` is func.now(), the start of the
-- transaction; `clock` is func.clock_timestamp(), read after the row locks are held.
use ops_flow_ai.Base.{
  ℕ, ◌+◌, String, Bool, true, false, not, ◌&&◌, ◌||◌, Option, none, some, [], ◌∷◌, ◌++◌, ◌==◌,
  opt_eq, is_none, is_some, Result, ok, err, domain_validation, sync_not_found, stale_sync_claim,
  step_precondition, integrity_error, ◌>>=◌, ◌>>◌, guard, or_raise, if◌then◌else◌,
}
use ops_flow_ai.Domain.State.{OrderState, syncing, state_eq}
use ops_flow_ai.Domain.Records.{AuditEvent}
use ops_flow_ai.Domain.Order.{Order, new_order, transition_to}
use ops_flow_ai.Store.{PersistedOrder, Db, get_order, get_sync, update_order_snapshot, save_sync}
use ops_flow_ai.Sync.Contracts.{
  OrderSync, OrderSyncStep, odoo_lookup, odoo_bridge, hubspot_company, hubspot_deal,
  hubspot_association, step_eq, new_sync, OrderSyncReceipt, odoo_receipt, company_receipt,
  deal_receipt, association_receipt,
}
use ops_flow_ai.Sync.Eligibility.{is_due}

-- `order_sync_from_model`: the contract's ValueError becomes a domain error.
abbrev as_domain_error : Result OrderSync → Result OrderSync
as_domain_error (ok r) = ok r
as_domain_error (err e) = err domain_validation

unfoldable pub order_sync_from_model : OrderSync → Result OrderSync
order_sync_from_model r = as_domain_error (new_sync r)

-- `_order_from_row`: the order without its lines and documents.
unfoldable pub order_from_row : PersistedOrder → Result Order
order_from_row p = new_order (record p.order { lines = []; source_documents = [] })

-- `_order_from_row(row).transition_to(target)` and the snapshot of the result, where the order's
-- state is to change.
unfoldable pub move_order : Db → PersistedOrder → Option OrderState → Result Db
move_order db o none = ok db
move_order db o (some target) = do
  order ← order_from_row o
  moved ← transition_to order target
  update_order_snapshot db moved

abbrev pub sync_event : ℕ → ℕ → String → ℕ → AuditEvent
sync_event event_id order_id event_type occurred_at = record {
  id = event_id;
  order_id = order_id;
  event_type = event_type;
  actor = "opsflow-order-sync";
  occurred_at = occurred_at;
}

abbrev pub new_intent : ℕ → ℕ → OrderSync
new_intent order_id created_at = record {
  order_id = order_id;
  claim_token = none;
  claim_expires_at = none;
  attempt_count = 0;
  retry_generation = 0;
  next_attempt_at = created_at;
  odoo_sale_order_id = none;
  odoo_sale_order_name = none;
  hubspot_company_id = none;
  hubspot_deal_id = none;
  hubspot_association_confirmed_at = none;
  in_flight_step = none;
  last_failure_step = none;
  last_failure_code = none;
  last_attempt_at = none;
  created_at = created_at;
  updated_at = created_at;
}

-- `create_order_sync_intent` with `insert_order_sync_intent`; the primary key refuses a second row.
unfoldable pub create_order_sync_intent : Db → ℕ → ℕ → Result Db
create_order_sync_intent db order_id created_at = do
  guard (is_none (get_sync db order_id)) (integrity_error false)
  ok (record db { syncs = db.syncs ++ new_intent order_id created_at ∷ [] })

abbrev pub reset_row : OrderSync → ℕ → OrderSync
reset_row r now = record r {
  retry_generation = r.retry_generation + 1;
  attempt_count = 0;
  next_attempt_at = now;
  claim_token = none;
  claim_expires_at = none;
  updated_at = now;
}

-- `reset_order_sync_for_retry` with `reset_order_sync_for_human_retry`
unfoldable pub reset_order_sync_for_retry : Db → ℕ → ℕ → Bool × Db
reset_order_sync_for_retry db order_id now = elim (get_sync db order_id) [
  | none ↦ (false, db)
  | some r ↦ (true, save_sync db (reset_row r now))
]

-- `_has_all_receipts`
abbrev pub has_all_receipts : OrderSync → Bool
has_all_receipts r =
    is_some r.odoo_sale_order_id
    && (is_some r.odoo_sale_order_name
        && (is_some r.hubspot_company_id
            && (is_some r.hubspot_deal_id && is_some r.hubspot_association_confirmed_at)))

-- `next_order_sync_step`
unfoldable pub next_order_sync_step : OrderSync → Bool → Option OrderSyncStep
next_order_sync_step r lookup_succeeded =
    if is_none r.odoo_sale_order_id
    then (if opt_eq step_eq r.in_flight_step (some odoo_bridge) || lookup_succeeded
        then some odoo_bridge
        else some odoo_lookup)
    else if is_none r.hubspot_company_id
    then some hubspot_company
    else if is_none r.hubspot_deal_id
    then some hubspot_deal
    else if is_none r.hubspot_association_confirmed_at
    then some hubspot_association
    else none

-- `_require_step_preconditions`
unfoldable pub require_step_preconditions : OrderSync → OrderSyncStep → Result (Unit {0})
require_step_preconditions r odoo_lookup = guard (is_none r.odoo_sale_order_id) step_precondition
require_step_preconditions r odoo_bridge = guard (is_none r.odoo_sale_order_id) step_precondition
require_step_preconditions r hubspot_company =
    guard (is_some r.odoo_sale_order_id) step_precondition
require_step_preconditions r hubspot_deal = guard (is_some r.hubspot_company_id) step_precondition
require_step_preconditions r hubspot_association =
    guard (is_some r.hubspot_company_id && is_some r.hubspot_deal_id) step_precondition

-- `_receipt_step`
unfoldable pub receipt_step : OrderSyncReceipt → OrderSyncStep
receipt_step (odoo_receipt i n) = odoo_bridge
receipt_step (company_receipt i) = hubspot_company
receipt_step (deal_receipt i) = hubspot_deal
receipt_step (association_receipt t) = hubspot_association

-- The claim is current: the order is SYNCING, and the token is that of the row, unexpired.
unfoldable pub is_current : OrderState → OrderSync → ℕ → ℕ → Bool
is_current state r clock token =
    state_eq state syncing
    && (opt_eq ◌==◌ r.claim_token (some token)
        && (is_some r.claim_expires_at && not (is_due r.claim_expires_at clock)))

-- `_require_current_claim`
unfoldable pub require_current_claim : Db → ℕ → ℕ → ℕ → Result (OrderSync × PersistedOrder)
require_current_claim db clock order_id token = do
  o ← or_raise (get_order db order_id) sync_not_found
  r ← or_raise (get_sync db order_id) sync_not_found
  guard (is_current o.order.state r clock token) stale_sync_claim
  ok (r, o)
