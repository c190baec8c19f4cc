-- ===== src/Sync/Claiming.antt =====
-- `claim_next_order_sync` of src/opsflow/application/order_sync.py.
use ops_flow_ai.Base.{
  ℕ, ◌+◌, Bool, false, not, ◌&&◌, none, some, leb, is_some, Result, ok, sync_completion, ◌>>=◌,
  or_raise, if◌then◌else◌,
}
use ops_flow_ai.Domain.State.{approved, syncing, failed_retryable, state_eq}
use ops_flow_ai.Store.{PersistedOrder, Db, save_sync, insert_audit_event, seconds}
use ops_flow_ai.Sync.Contracts.{OrderSync, OrderSyncStep, worker_lease_exhausted, OrderSyncClaim}
use ops_flow_ai.Sync.Eligibility.{claim_one_eligible_order_sync, is_due}
use ops_flow_ai.Sync.Commands.{
  order_sync_from_model, move_order, sync_event, has_all_receipts, next_order_sync_step,
}

-- What a claim transaction returns: None, the NEEDS_REVIEW result of an exhausted lease (asked for
-- by `include_exhaustion_result`), or a claim.
pub data ClaimOutcome : Type 0 where
  no_claim : ClaimOutcome
  exhausted : (order_id : ℕ) → ClaimOutcome
  claimed : OrderSyncClaim → ClaimOutcome

-- The lease is the interval of five minutes.
abbrev pub lease : ℕ
lease = seconds 300

abbrev pub lease_expired : OrderSync → ℕ → Bool
lease_expired r now = is_some r.claim_token && is_due r.claim_expires_at now

-- `_step_from_model(row.in_flight_step) or next_order_sync_step(order_sync_from_model(row))`
unfoldable pub failure_step : OrderSync → Result OrderSyncStep
failure_step r = elim r.in_flight_step [
  | some s ↦ ok s
  | none ↦ do
    sync ← order_sync_from_model r
    or_raise (next_order_sync_step sync false) sync_completion
]

abbrev pub exhausted_row : OrderSync → OrderSyncStep → ℕ → OrderSync
exhausted_row r step now = record r {
  last_failure_step = some step;
  last_failure_code = some worker_lease_exhausted;
  claim_token = none;
  claim_expires_at = none;
  updated_at = now;
}

abbrev pub granted_row : OrderSync → ℕ → ℕ → OrderSync
granted_row r now token = record r {
  claim_token = some token;
  claim_expires_at = some (now + lease);
  last_attempt_at = some now;
  updated_at = now;
}

-- The third expired lease: the order fails and waits for an operator.
unfoldable pub exhaust : Db → OrderSync → PersistedOrder → ℕ → ℕ → Result Db
exhaust db r o now event_id = do
  step ← failure_step r
  db1 ← move_order db o (some failed_retryable)
  let db2 = save_sync db1 (exhausted_row r step now)
  ok (insert_audit_event db2 (sync_event event_id o.order.id "ORDER_SYNC_FAILED" now))

-- The first claim moves the order to SYNCING.
unfoldable pub start_syncing : Db → PersistedOrder → Result Db
start_syncing db o =
    move_order db o (if state_eq o.order.state approved then some syncing else none)

unfoldable pub grant : Db → OrderSync → PersistedOrder → ℕ → ℕ → ℕ → Result (OrderSyncClaim × Db)
grant db r o now token event_id = do
  db1 ← start_syncing db o
  let db2 = save_sync db1 (granted_row r now token)
  let event_type =
      (if state_eq o.order.state approved then "ORDER_SYNC_STARTED" else "ORDER_SYNC_RESUMED")
  ok (
    record { order_id = o.order.id; claim_token = token; claim_expires_at = now + lease },
    insert_audit_event db2 (sync_event event_id o.order.id event_type now),
  )

abbrev pub spent : OrderSync → OrderSync
spent r = record r { attempt_count = r.attempt_count + 1 }

abbrev pub as_claimed : OrderSyncClaim × Db → Result (ClaimOutcome × Db)
as_claimed (c, db) = ok (claimed c, db)

abbrev pub as_exhausted : Bool → ℕ → Db → Result (ClaimOutcome × Db)
as_exhausted include id db = ok (if include then exhausted id else no_claim, db)

-- The transaction after the selection of a row.
unfoldable pub claim_row :
    Db → OrderSync → PersistedOrder → ℕ → ℕ → ℕ → Bool → Result (ClaimOutcome × Db)
claim_row db r o now token event_id include_exhaustion_result =
    let expired = lease_expired r now && not (has_all_receipts r) in
    let r' = (if expired then spent r else r) in
    if expired && leb 3 r'.attempt_count
    then exhaust db r' o now event_id >>= as_exhausted include_exhaustion_result o.order.id
    else grant db r' o now token event_id >>= as_claimed

unfoldable pub claim_next_order_sync :
    Db → ℕ → (ℕ → Bool) → ℕ → ℕ → Bool → Result (ClaimOutcome × Db)
claim_next_order_sync db now locked token event_id include_exhaustion_result =
    elim (claim_one_eligible_order_sync db now locked) [
      | none ↦ ok (no_claim, db)
      | some (r, o) ↦ claim_row db r o now token event_id include_exhaustion_result
    ]
