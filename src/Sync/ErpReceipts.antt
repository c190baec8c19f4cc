-- ===== src/Sync/ErpReceipts.antt =====
-- What a transaction does to the ERP receipt of a row.
use ops_flow_ai.Base.{List, String, ℕ, ◌≡◌, refl, true, false, Option, none, some, arith, not, ok}
use ops_flow_ai.Sync.Contracts.{
  OrderSync, OrderSyncStep, OrderSyncFailureCode, OrderSyncReceipt, odoo_receipt, company_receipt,
  deal_receipt, association_receipt,
}
use ops_flow_ai.Sync.Commands.{require_step_preconditions, receipt_step}
use ops_flow_ai.Sync.Transactions.{received, collides, failed_at, after_failure}

-- What happens to the ERP receipt of a row: it stays, or a first one is written that no other row of
-- the table has.
pub data ErpReceipt (rows : List OrderSync) (id : ℕ) (r r' : OrderSync) : Type 0 where
  kept :
      r'.odoo_sale_order_id ≡ r.odoo_sale_order_id
      → r'.odoo_sale_order_name ≡ r.odoo_sale_order_name
      → ErpReceipt rows id r r'
  fresh :
      (i : ℕ) (name : String)
      → r.odoo_sale_order_id ≡ none
      → r'.odoo_sale_order_id ≡ some i
      → collides rows id (odoo_receipt i name) ≡ false
      → ErpReceipt rows id r r'

-- An ERP receipt is taken only where there is none, by the preconditions of its step.
pub received_erp :
    (rows : List OrderSync) (id : ℕ) (r : OrderSync) (receipt : OrderSyncReceipt) (now : ℕ)
    → require_step_preconditions r (receipt_step receipt) ≡ ok tt
    → not (collides rows id receipt) ≡ true
    → ErpReceipt rows id r (received r receipt now)
unfolding require_step_preconditions receipt_step
received_erp rows id r (odoo_receipt i name) now h c =
    fresh i name (ground arith) refl (ground arith)
received_erp rows id r (company_receipt i) now h c = kept refl refl
received_erp rows id r (deal_receipt i) now h c = kept refl refl
received_erp rows id r (association_receipt t) now h c = kept refl refl

pub after_failure_erp :
    (rows : List OrderSync) (id : ℕ) (r : OrderSync) (step : OrderSyncStep)
    (code : OrderSyncFailureCode) (retry_after : Option ℕ) (now : ℕ)
    → ErpReceipt rows id r (after_failure (failed_at r step code now) code retry_after now).0
unfolding after_failure
after_failure_erp rows id r step code retry_after now = kept (ground arith) (ground arith)
