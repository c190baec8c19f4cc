-- ===== src/Validation/Acceptance.antt =====
-- What an acceptable order is, described without the rules of src/opsflow/validation/engine.py.
use ops_flow_ai.Base.{
  ℕ, ◌<◌, ◌≤◌, String, ◌≡◌, true, false, ◌||◌, Option, some, List, [], ◌∷◌, Memᴰ, All, length,
  is_some,
}
use ops_flow_ai.Validation.Draft.{ExtractedLine, ExtractionDraft}
use ops_flow_ai.Validation.Models.{
  TrustedProduct, TrustedCustomer, TrustedBusinessData, ValidationFacts, ValidationContext,
  ValidationPolicy,
}
use ops_flow_ai.Validation.Clean.{IsOrderable}

abbrev pub Pairs : Type 0
Pairs = List (ExtractedLine × Option TrustedProduct)

-- Every line can be ordered.
abbrev pub AreOrderable : ValidationPolicy → String → Pairs → Type 0
AreOrderable policy currency = All λ pair. IsOrderable policy currency pair.0 pair.1

-- Exactly one active customer matches the named customer; the purchase-order number is there and new
-- to the customer, and the document is new; the order is not dated in the future, its delivery
-- neither in the past nor before the order; the currency is supported; there are lines, and each can
-- be ordered.
pub record IsAcceptable (draft : ExtractionDraft) (pairs : Pairs) (trusted : TrustedBusinessData)
    (facts : ValidationFacts) (policy : ValidationPolicy) (context : ValidationContext)
    : Type 0 where
  pub customer : TrustedCustomer
  pub po : String
  pub ordered : ℕ
  pub delivery : ℕ
  pub currency : String
  pub is_identified : (is_some draft.customer_reference || is_some draft.customer_name) ≡ true
  pub one_customer : trusted.customer_candidates ≡ customer ∷ []
  pub is_active : customer.active ≡ true
  pub has_po : draft.po_number ≡ some po
  pub is_new_po : facts.duplicate_customer_po ≡ false
  pub is_new_document : facts.document_already_processed ≡ false
  pub has_order_date : draft.order_date ≡ some ordered
  pub not_in_future : ordered ≤ context.evaluation_date
  pub has_delivery : draft.requested_delivery_date ≡ some delivery
  pub not_in_past : context.evaluation_date ≤ delivery
  pub not_before_order : ordered ≤ delivery
  pub has_currency : draft.currency ≡ some currency
  pub currency_supported : Memᴰ currency policy.supported_currencies
  pub has_lines : 0 < length draft.lines
  pub lines_orderable : AreOrderable policy currency pairs
