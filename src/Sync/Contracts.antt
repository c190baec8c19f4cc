-- ===== src/Sync/Contracts.antt =====
-- The contracts of src/opsflow/order_sync/contracts.py. A row of the table `order_syncs` has the
-- fields of `OrderSync`; `OrderSync.__post_init__` is `new_sync`.
use ops_flow_ai.Base.{
  ℕ, String, Bool, true, false, not, ◌&&◌, ◌||◌, Option, none, some, leb, ltb, ◌==◌, codes, length,
  is_none, is_some, Result, ok, value_error, ◌>>◌, guard,
}
use ops_flow_ai.Domain.State.{OrderState}
use ops_flow_ai.Domain.Records.{is_blank}

pub data OrderSyncStep : Type 0 where
  odoo_lookup odoo_bridge hubspot_company hubspot_deal hubspot_association : OrderSyncStep

abbrev step_ordinal : OrderSyncStep → ℕ
step_ordinal odoo_lookup = 0
step_ordinal odoo_bridge = 1
step_ordinal hubspot_company = 2
step_ordinal hubspot_deal = 3
step_ordinal hubspot_association = 4

abbrev pub step_eq : OrderSyncStep → OrderSyncStep → Bool
step_eq a b = step_ordinal a == step_ordinal b

pub data OrderSyncFailureCode : Type 0 where
  integration_config provider_unavailable provider_rate_limit : OrderSyncFailureCode
  provider_invalid_response provider_pending provider_rejected : OrderSyncFailureCode
  trusted_customer_missing trusted_customer_ambiguous : OrderSyncFailureCode
  trusted_product_missing trusted_product_changed inventory_insufficient : OrderSyncFailureCode
  worker_lease_exhausted idempotency_conflict reconciliation_required : OrderSyncFailureCode

pub data ExecuteNextKind : Type 0 where
  completed worked yielded no_work retry_wait needs_review : ExecuteNextKind

pub record OrderSync : Type 0 where
  pub order_id : ℕ
  pub claim_token : Option ℕ
  pub claim_expires_at : Option ℕ
  pub attempt_count : ℕ
  pub retry_generation : ℕ
  pub next_attempt_at : ℕ
  pub odoo_sale_order_id : Option ℕ
  pub odoo_sale_order_name : Option String
  pub hubspot_company_id : Option String
  pub hubspot_deal_id : Option String
  pub hubspot_association_confirmed_at : Option ℕ
  pub in_flight_step : Option OrderSyncStep
  pub last_failure_step : Option OrderSyncStep
  pub last_failure_code : Option OrderSyncFailureCode
  pub last_attempt_at : Option ℕ
  pub created_at : ℕ
  pub updated_at : ℕ

-- `(a is None) == (b is None)`
abbrev pub paired {ℓ κ} : {A : Type ℓ} {B : Type κ} → Option A → Option B → Bool
paired none none = true
paired (some a) (some b) = true
paired _ _ = false

-- `_require_bounded`: a nonblank string of at most 256 characters
unfoldable pub is_bounded : String → Bool
is_bounded s = not (is_blank s) && leb (length (codes s)) 256

abbrev pub optional_bounded : Option String → Bool
optional_bounded none = true
optional_bounded (some s) = is_bounded s

abbrev pub optional_positive : Option ℕ → Bool
optional_positive none = true
optional_positive (some n) = ltb 0 n

unfoldable pub new_sync : OrderSync → Result OrderSync
new_sync r = do
  guard (paired r.claim_token r.claim_expires_at) value_error
  guard (leb r.attempt_count 3) value_error
  guard (optional_positive r.odoo_sale_order_id) value_error
  guard (paired r.odoo_sale_order_id r.odoo_sale_order_name) value_error
  guard (optional_bounded r.odoo_sale_order_name) value_error
  guard (optional_bounded r.hubspot_company_id) value_error
  guard (optional_bounded r.hubspot_deal_id) value_error
  guard
      (is_none r.hubspot_association_confirmed_at
        || (is_some r.hubspot_company_id && is_some r.hubspot_deal_id))
      value_error
  guard (paired r.last_failure_step r.last_failure_code) value_error
  ok r

pub record OrderSyncClaim : Type 0 where
  pub order_id : ℕ
  pub claim_token : ℕ
  pub claim_expires_at : ℕ

-- OdooOrderReceipt, HubSpotCompanyReceipt, HubSpotDealReceipt and HubSpotAssociationReceipt
pub data OrderSyncReceipt : Type 0 where
  odoo_receipt : (sale_order_id : ℕ) (sale_order_name : String) → OrderSyncReceipt
  company_receipt : (company_id : String) → OrderSyncReceipt
  deal_receipt : (deal_id : String) → OrderSyncReceipt
  association_receipt : (confirmed_at : ℕ) → OrderSyncReceipt

-- The receipts' `__post_init__`.
unfoldable pub is_receipt : OrderSyncReceipt → Bool
is_receipt (odoo_receipt i name) = ltb 0 i && is_bounded name
is_receipt (company_receipt i) = is_bounded i
is_receipt (deal_receipt i) = is_bounded i
is_receipt (association_receipt t) = true

-- What one step of an executor returns: a receipt, None, or an `OrderSyncStepFailure`, whose
-- `retry_after` is in microseconds.
pub data OrderSyncStepResult : Type 0 where
  receipt : OrderSyncReceipt → OrderSyncStepResult
  nothing : OrderSyncStepResult
  failure : OrderSyncFailureCode → (retry_after : Option ℕ) → OrderSyncStepResult

pub record OrderSyncExecutionResult : Type 0 where
  pub kind : ExecuteNextKind
  pub order_id : Option ℕ
  pub state : Option OrderState
