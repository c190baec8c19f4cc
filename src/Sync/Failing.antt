-- ===== src/Sync/Failing.antt =====
-- What a failure of a step does to the row and to the state of its order, in
-- `record_order_sync_failure` of src/opsflow/application/order_sync.py.
use ops_flow_ai.Base.{ℕ, ◌+◌, ◌≤◌, ◌≡◌, refl, true, false, Option, none, some, arith}
use ops_flow_ai.Domain.State.{OrderState, syncing, failed_retryable, failed_final}
use ops_flow_ai.Store.{seconds}
use Prim.Native.Nat.{max}
use ops_flow_ai.Sync.Contracts.{
  OrderSync, OrderSyncStep, OrderSyncFailureCode, idempotency_conflict, reconciliation_required,
  provider_unavailable, provider_rate_limit, provider_invalid_response, provider_pending,
}
use ops_flow_ai.Sync.Transactions.{
  failed_at, after_failure, retry_delay, or_zero, is_final_code, is_auto_retry_code,
}

-- What becomes of a failure, by its code.
pub data Handling : Type 0 where
  ends retried reviewed : Handling

abbrev pub handling : OrderSyncFailureCode → Handling
handling idempotency_conflict = ends
handling reconciliation_required = ends
handling provider_unavailable = retried
handling provider_rate_limit = retried
handling provider_invalid_response = retried
handling provider_pending = retried
handling _ = reviewed

-- What the provider asked to wait.
abbrev pub wish : Option ℕ → ℕ
wish none = 0
wish (some t) = t

-- What a failure makes of the row `r`, now `r'`, and of the state of its order, now `state`.
pub record FailureOutcome (r r' : OrderSync) (state : OrderState) (step : OrderSyncStep)
    (code : OrderSyncFailureCode) (retry_after : Option ℕ) (now : ℕ) : Type 0 where
  pub free : r'.claim_token ≡ none
  pub failed_step : r'.last_failure_step ≡ some step
  pub failure : r'.last_failure_code ≡ some code
  pub same_erp_id : r'.odoo_sale_order_id ≡ r.odoo_sale_order_id
  pub same_erp_name : r'.odoo_sale_order_name ≡ r.odoo_sale_order_name
  pub same_company : r'.hubspot_company_id ≡ r.hubspot_company_id
  pub same_deal : r'.hubspot_deal_id ≡ r.hubspot_deal_id
  pub same_association : r'.hubspot_association_confirmed_at ≡ r.hubspot_association_confirmed_at
  pub on_final :
      handling code ≡ ends → (state ≡ failed_final) × (r'.attempt_count ≡ r.attempt_count)
  pub on_first :
      handling code ≡ retried
      → r.attempt_count ≡ 0
      → (state ≡ syncing)
        × (r'.attempt_count ≡ 1)
        × (r'.next_attempt_at ≡ now + max (seconds 30) (wish retry_after))
  pub on_second :
      handling code ≡ retried
      → r.attempt_count ≡ 1
      → (state ≡ syncing)
        × (r'.attempt_count ≡ 2)
        × (r'.next_attempt_at ≡ now + max (seconds 120) (wish retry_after))
  pub on_last :
      handling code ≡ retried
      → 2 ≤ r.attempt_count
      → (state ≡ failed_retryable) × (r'.attempt_count ≡ r.attempt_count + 1)
  pub on_other :
      handling code ≡ reviewed → (state ≡ failed_retryable) × (r'.attempt_count ≡ r.attempt_count)

abbrev pub state_after : Option OrderState → OrderState
state_after none = syncing
state_after (some s) = s

final_lem : (code : OrderSyncFailureCode) → handling code ≡ ends → is_final_code code ≡ true
final_lem code h = ground arith

retried_lem :
    (code : OrderSyncFailureCode)
    → handling code ≡ retried
    → (is_final_code code ≡ false) × (is_auto_retry_code code ≡ true)
retried_lem code h = ground arith

reviewed_lem :
    (code : OrderSyncFailureCode)
    → handling code ≡ reviewed
    → (is_final_code code ≡ false) × (is_auto_retry_code code ≡ false)
reviewed_lem code h = ground arith

or_zero_lem : (t : Option ℕ) → or_zero t ≡ wish t
or_zero_lem none = refl
or_zero_lem (some t) = refl

pub after_failure_lem :
    (r : OrderSync) (step : OrderSyncStep) (code : OrderSyncFailureCode) (retry_after : Option ℕ)
    (now : ℕ)
    → let (r', target) = after_failure (failed_at r step code now) code retry_after now in
      FailureOutcome r r' (state_after target) step code retry_after now
unfolding after_failure retry_delay
after_failure_lem r step code retry_after now =
    let finals = final_lem code in
    let retries = retried_lem code in
    let others = reviewed_lem code in
    let asked = or_zero_lem retry_after in
    record {
      free = ground arith;
      failed_step = ground arith;
      failure = ground arith;
      same_erp_id = ground arith;
      same_erp_name = ground arith;
      same_company = ground arith;
      same_deal = ground arith;
      same_association = ground arith;
      on_final = λ h. ground (arith, finals h);
      on_first = λ h k. ground (arith, retries h);
      on_second = λ h k. ground (arith, retries h);
      on_last = λ h k. ground (arith, retries h);
      on_other = λ h. ground (arith, others h);
    }
