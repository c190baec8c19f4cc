-- ===== src/Sync/Transactions.antt =====
-- The fenced transactions of src/opsflow/application/order_sync.py, each under the current claim.
use ops_flow_ai.Base.{
  ℕ, ◌+◌, Bool, true, false, not, ◌&&◌, ◌||◌, Option, none, some, List, leb, ◌==◌, opt_eq, str_eq,
  any, Result, ok, step_precondition, sync_completion, integrity_error, ◌>>=◌, ◌>>◌, guard,
  if◌then◌else◌,
}
use Prim.Native.Nat.{max}
use ops_flow_ai.Domain.State.{
  OrderState, syncing, completed, failed_retryable, failed_final, state_eq,
}
use ops_flow_ai.Store.{Db, save_sync, insert_audit_event, seconds}
use ops_flow_ai.Sync.Contracts.{
  OrderSync, OrderSyncStep, odoo_lookup, odoo_bridge, step_eq, OrderSyncFailureCode,
  provider_unavailable, provider_rate_limit, provider_invalid_response, provider_pending,
  idempotency_conflict, reconciliation_required, OrderSyncReceipt, odoo_receipt, company_receipt,
  deal_receipt, association_receipt,
}
use ops_flow_ai.Sync.Commands.{
  order_sync_from_model, order_from_row, sync_event, has_all_receipts, require_step_preconditions,
  receipt_step, require_current_claim, move_order,
}

-- Save a changed row, and read it back through the contract.
abbrev pub finish : Db → OrderSync → Result (OrderSync × Db)
finish db r = do sync ← order_sync_from_model r; ok (sync, save_sync db r)

-- Another step in flight is passed over only from ODOO_LOOKUP to ODOO_BRIDGE.
abbrev pub may_begin : Option OrderSyncStep → OrderSyncStep → Bool
may_begin none step = true
may_begin (some current) step =
    step_eq current step || (step_eq current odoo_lookup && step_eq step odoo_bridge)

abbrev pub begun : OrderSync → OrderSyncStep → ℕ → OrderSync
begun r step now = record r {
  in_flight_step = some step;
  last_attempt_at = some now;
  updated_at = now;
}

unfoldable pub begin_order_sync_step : Db → ℕ → ℕ → ℕ → ℕ → OrderSyncStep → Result (OrderSync × Db)
begin_order_sync_step db now clock order_id token step = do
  (r, o) ← require_current_claim db clock order_id token
  require_step_preconditions r step
  guard (may_begin r.in_flight_step step) step_precondition
  finish db (begun r step now)

-- The unique indexes on the ERP order and on the CRM deal.
unfoldable pub collides : List OrderSync → ℕ → OrderSyncReceipt → Bool
collides rows order_id (odoo_receipt i name) =
    any (λ r. not (r.order_id == order_id) && opt_eq ◌==◌ r.odoo_sale_order_id (some i)) rows
collides rows order_id (company_receipt i) = false
collides rows order_id (deal_receipt i) =
    any (λ r. not (r.order_id == order_id) && opt_eq str_eq r.hubspot_deal_id (some i)) rows
collides rows order_id (association_receipt t) = false

abbrev pub with_receipt : OrderSync → OrderSyncReceipt → OrderSync
with_receipt r (odoo_receipt i name) = record r {
  odoo_sale_order_id = some i;
  odoo_sale_order_name = some name;
}
with_receipt r (company_receipt i) = record r { hubspot_company_id = some i }
with_receipt r (deal_receipt i) = record r { hubspot_deal_id = some i }
with_receipt r (association_receipt t) = record r { hubspot_association_confirmed_at = some t }

abbrev pub received : OrderSync → OrderSyncReceipt → ℕ → OrderSync
received r receipt now = record (with_receipt r receipt) {
  in_flight_step = none;
  last_failure_step = none;
  last_failure_code = none;
  last_attempt_at = some now;
  updated_at = now;
}

unfoldable pub persist_order_sync_receipt :
    Db → ℕ → ℕ → ℕ → ℕ → OrderSyncReceipt → Result (OrderSync × Db)
persist_order_sync_receipt db now clock order_id token receipt = do
  (r, o) ← require_current_claim db clock order_id token
  guard (opt_eq step_eq r.in_flight_step (some (receipt_step receipt))) step_precondition
  require_step_preconditions r (receipt_step receipt)
  guard (not (collides db.syncs order_id receipt)) (integrity_error true)
  finish db (received r receipt now)

-- `_FINAL_FAILURE_CODES` and `_AUTO_RETRY_CODES`
abbrev pub is_final_code : OrderSyncFailureCode → Bool
is_final_code idempotency_conflict = true
is_final_code reconciliation_required = true
is_final_code _ = false

abbrev pub is_auto_retry_code : OrderSyncFailureCode → Bool
is_auto_retry_code provider_unavailable = true
is_auto_retry_code provider_rate_limit = true
is_auto_retry_code provider_invalid_response = true
is_auto_retry_code provider_pending = true
is_auto_retry_code _ = false

abbrev pub or_zero : Option ℕ → ℕ
or_zero none = 0
or_zero (some n) = n

-- The automatic delay: 30 seconds after the first attempt, 120 after the second, or what the
-- provider asked for if that is longer.
unfoldable pub retry_delay : ℕ → Option ℕ → ℕ
retry_delay attempt_count retry_after =
    max (seconds (if attempt_count == 1 then 30 else 120)) (or_zero retry_after)

-- Where a failure takes the row, and the order if it leaves SYNCING.
unfoldable pub after_failure :
    OrderSync → OrderSyncFailureCode → Option ℕ → ℕ → OrderSync × Option OrderState
after_failure r code retry_after now =
    let attempts = r.attempt_count + 1 in
    if is_final_code code
    then (r, some failed_final)
    else if is_auto_retry_code code
    then (if leb 3 attempts
        then (record r { attempt_count = attempts; next_attempt_at = now }, some failed_retryable)
        else (
          record r {
            attempt_count = attempts;
            next_attempt_at = now + retry_delay attempts retry_after;
          },
          none,
        ))
    else (record r { next_attempt_at = now }, some failed_retryable)

abbrev pub unclaimed : OrderSync → ℕ → OrderSync
unclaimed r now = record r { claim_token = none; claim_expires_at = none; updated_at = now }

abbrev pub failed_at : OrderSync → OrderSyncStep → OrderSyncFailureCode → ℕ → OrderSync
failed_at r step code now = record (unclaimed r now) {
  last_failure_step = some step;
  last_failure_code = some code;
}

unfoldable pub record_order_sync_failure :
    Db
    → ℕ
    → ℕ
    → ℕ
    → ℕ
    → OrderSyncStep
    → OrderSyncFailureCode
    → Option ℕ
    → ℕ
    → Result (OrderSync × Db)
record_order_sync_failure db now clock order_id token step code retry_after event_id = do
  (r, o) ← require_current_claim db clock order_id token
  guard (opt_eq step_eq r.in_flight_step (some step)) step_precondition
  order ← order_from_row o
  let (r2, target) = after_failure (failed_at r step code now) code retry_after now
  db1 ← move_order db o target
  finish (insert_audit_event db1 (sync_event event_id order_id "ORDER_SYNC_FAILED" now)) r2

unfoldable pub yield_order_sync_claim : Db → ℕ → ℕ → ℕ → ℕ → Result (OrderSync × Db)
yield_order_sync_claim db now clock order_id token = do
  (r, o) ← require_current_claim db clock order_id token
  finish db (record (unclaimed r now) { next_attempt_at = now })

unfoldable pub complete_order_sync : Db → ℕ → ℕ → ℕ → ℕ → ℕ → Result (OrderSync × Db)
complete_order_sync db now clock order_id token event_id = do
  (r, o) ← require_current_claim db clock order_id token
  guard (has_all_receipts r) sync_completion
  order ← order_from_row o
  guard (state_eq order.state syncing) sync_completion
  db1 ← move_order db o (some completed)
  finish (insert_audit_event db1 (sync_event event_id order_id "ORDER_SYNC_COMPLETED" now))
      (unclaimed r now)
