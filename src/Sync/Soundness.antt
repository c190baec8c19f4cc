-- ===== src/Sync/Soundness.antt =====
-- What holds of an order and its synchronisation row between transactions.
use ops_flow_ai.Base.{
  ℕ, ◌≤◌, ◌<◌, ◌≡◌, ◌⊎◌, true, Option, none, some, arith, is_some, ok, if◌then◌else◌,
}
use ops_flow_ai.Domain.State.{OrderState, approved, syncing, completed, failed_retryable, state_eq}
use ops_flow_ai.Domain.Order.{Order, origin_ok}
use ops_flow_ai.Domain.Lifecycle.{IsValid, moved}
use ops_flow_ai.Sync.Contracts.{
  OrderSync, OrderSyncStep, OrderSyncFailureCode, odoo_receipt, company_receipt, deal_receipt,
  association_receipt, paired, optional_bounded, optional_positive, new_sync, OrderSyncReceipt,
  is_receipt,
}
use ops_flow_ai.Sync.Commands.{
  order_sync_from_model, has_all_receipts, reset_row, new_intent, require_step_preconditions,
  receipt_step,
}
use ops_flow_ai.Sync.Claiming.{granted_row, exhausted_row, spent}
use ops_flow_ai.Sync.Transactions.{begun, received, unclaimed, failed_at, after_failure}

-- The contract of `OrderSync`, the order of the receipts, and the ties to the order's state.
pub record IsSound (o : Order) (r : OrderSync) : Type 0 where
  pub order_valid : IsValid o
  pub claim_pair : paired r.claim_token r.claim_expires_at ≡ true
  pub attempts : r.attempt_count ≤ 3
  pub odoo_positive : optional_positive r.odoo_sale_order_id ≡ true
  pub odoo_pair : paired r.odoo_sale_order_id r.odoo_sale_order_name ≡ true
  pub odoo_name : optional_bounded r.odoo_sale_order_name ≡ true
  pub company_bounded : optional_bounded r.hubspot_company_id ≡ true
  pub deal_bounded : optional_bounded r.hubspot_deal_id ≡ true
  pub failure_pair : paired r.last_failure_step r.last_failure_code ≡ true
  pub company_after_odoo : is_some r.hubspot_company_id ≡ true → is_some r.odoo_sale_order_id ≡ true
  pub deal_after_company : is_some r.hubspot_deal_id ≡ true → is_some r.hubspot_company_id ≡ true
  pub association_last :
      is_some r.hubspot_association_confirmed_at ≡ true → is_some r.hubspot_deal_id ≡ true
  pub claimed_while_syncing : is_some r.claim_token ≡ true → o.state ≡ syncing
  pub attempts_left : (o.state ≡ approved) ⊎ (o.state ≡ syncing) → r.attempt_count < 3
  pub completed_with_receipts : o.state ≡ completed → has_all_receipts r ≡ true

-- The row of a sound pair passes the contract, so reading it back never raises.
pub order_sync_from_model-IsSound :
    {o : Order} {r : OrderSync} → IsSound o r → order_sync_from_model r ≡ ok r
unfolding order_sync_from_model new_sync
order_sync_from_model-IsSound s = ground arith

module _ {o : Order} {r : OrderSync} (s : IsSound o r) where
  pub begun-IsSound : (step : OrderSyncStep) (now : ℕ) → IsSound o (begun r step now)
  begun-IsSound step now = ground arith

  pub unclaimed-IsSound : (now : ℕ) → IsSound o (unclaimed r now)
  unclaimed-IsSound now = ground arith

  pub yielded-IsSound : (now : ℕ) → IsSound o (record (unclaimed r now) { next_attempt_at = now })
  yielded-IsSound now = ground arith

  -- A receipt in its place, under the preconditions of its step.
  pub received-IsSound :
      (receipt : OrderSyncReceipt) (now : ℕ)
      → o.state ≡ syncing
      → is_receipt receipt ≡ true
      → require_step_preconditions r (receipt_step receipt) ≡ ok tt
      → IsSound o (received r receipt now)
  unfolding is_receipt receipt_step require_step_preconditions
  received-IsSound (odoo_receipt i name) now e h k = ground arith
  received-IsSound (company_receipt i) now e h k = ground arith
  received-IsSound (deal_receipt i) now e h k = ground arith
  received-IsSound (association_receipt t) now e h k = ground arith

-- The order's part of a transition that may not take place.
abbrev pub at_state : Order → Option OrderState → Order
at_state o none = o
at_state o (some t) = moved o t

module _ {o : Order} {r : OrderSync} (s : IsSound o r) where
  -- A recorded failure, with the state that it takes the order to.
  pub failed-IsSound :
      (step : OrderSyncStep) (code : OrderSyncFailureCode) (retry_after : Option ℕ) (now : ℕ)
      → o.state ≡ syncing
      → let (r', target) = after_failure (failed_at r step code now) code retry_after now in
        IsSound (at_state o target) r'
  unfolding after_failure origin_ok
  failed-IsSound step code retry_after now e = ground arith

  pub completed-IsSound :
      (now : ℕ)
      → o.state ≡ syncing
      → has_all_receipts r ≡ true
      → IsSound (moved o completed) (unclaimed r now)
  unfolding origin_ok
  completed-IsSound now e h = ground arith

  pub granted-IsSound :
      (now token : ℕ)
      → (o.state ≡ approved) ⊎ (o.state ≡ syncing)
      → IsSound
          (at_state o (if state_eq o.state approved then some syncing else none))
          (granted_row r now token)
  unfolding origin_ok
  granted-IsSound now token e = ground arith

  pub spent-IsSound : r.attempt_count < 2 → IsSound o (spent r)
  spent-IsSound h = ground arith

  pub exhausted-IsSound :
      (step : OrderSyncStep) (now : ℕ)
      → o.state ≡ syncing
      → IsSound (moved o failed_retryable) (exhausted_row (spent r) step now)
  unfolding origin_ok
  exhausted-IsSound step now e = ground arith

  -- The human retry of an order that failed while syncing.
  pub reset-IsSound :
      (now : ℕ)
      → o.state ≡ failed_retryable
      → IsSound (record o { state = syncing; failure_origin = none }) (reset_row r now)
  unfolding origin_ok
  reset-IsSound now e = ground arith

-- The intent of an order that is approved.
pub new_intent-IsSound :
    (o : Order) (id created_at : ℕ)
    → IsValid o
    → o.state ≡ approved
    → IsSound o (new_intent id created_at)
new_intent-IsSound o id created_at v e = ground arith
