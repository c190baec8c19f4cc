-- ===== src/Validation/Engine.antt =====
-- src/opsflow/validation/engine.py: the rules on the order as a whole, and `validate`.
use ops_flow_ai.Base.{
  true, ℕ, Bool, false, not, ◌&&◌, ◌||◌, Option, none, some, List, [], ◌∷◌, ◌++◌, ltb, ◌==◌, length,
  is_some, is_none, Result, ok, value_error, ◌>>=◌, ◌>>◌, guard, if◌then◌else◌,
}
use ops_flow_ai.Decimal.{
  Decimal, zero_decimal, dec_leb, dec_add, dec_mul, is_below_zero, is_at_most_zero,
}
use ops_flow_ai.Domain.Order.{ValidatedOrderData}
use ops_flow_ai.Domain.Records.{warning, named, ValidationIssue}
use ops_flow_ai.Validation.Draft.{ExtractedLine, ExtractionDraft}
use ops_flow_ai.Validation.Lines.{error_issue, issue_if, is_supported, append_line_issues}
use ops_flow_ai.Validation.Build.{zip_strict, build_validated_data}
use ops_flow_ai.Validation.Models.{
  needs_review, ready_for_approval, standard, elevated, ValidationContext, ValidationFacts,
  TrustedCustomer, TrustedProduct, TrustedBusinessData, ValidationPolicy, ValidationResult,
  has_error, new_result,
}

-- The amount of one line in `_compute_total`, where the line counts.
unfoldable pub line_amount : Option Decimal → Option Decimal → Option Decimal
line_amount (some q) (some p) =
    if is_at_most_zero q || is_below_zero p then none else some (dec_mul q p)
line_amount _ _ = none

-- The loop of `_compute_total`
unfoldable pub total_from : Decimal → List ExtractedLine → Option Decimal
unfolding line_amount
total_from total [] = some total
total_from total (line ∷ lines) = elim (line_amount line.quantity line.submitted_price) [
  | none ↦ none
  | some amount ↦ total_from (dec_add total amount) lines
]

-- `_compute_total`
unfoldable pub compute_total : ExtractionDraft → Option Decimal
unfolding total_from
compute_total draft = elim draft.lines [ [] ↦ none | _ ∷ _ ↦ total_from zero_decimal draft.lines ]

-- `_append_customer_issues`: the issues appended, and the customer returned.
unfoldable pub append_customer_issues :
    ExtractionDraft → TrustedBusinessData → List ValidationIssue × Option TrustedCustomer
append_customer_issues draft data' =
    if is_none draft.customer_reference && is_none draft.customer_name
    then (error_issue "CUSTOMER_REQUIRED" (named "customer") ∷ [], none)
    else let place =
        named
          (if is_some draft.customer_reference then "customer_reference" else "customer_name") in
      elim data'.customer_candidates [
        | [] ↦ (error_issue "UNKNOWN_CUSTOMER" place ∷ [], none)
        | c ∷ [] ↦
            if not c.active
            then (error_issue "INACTIVE_CUSTOMER" place ∷ [], none)
            else ([], some c)
        | _ ∷ _ ∷ _ ↦ (error_issue "AMBIGUOUS_CUSTOMER" place ∷ [], none)
      ]

-- The tests on the purchase-order number and the document in `validate`.
unfoldable pub identity_issues :
    ExtractionDraft → ValidationFacts → Option TrustedCustomer → List ValidationIssue
identity_issues draft facts customer =
    (if is_none draft.po_number
      then error_issue "PO_NUMBER_REQUIRED" (named "po_number") ∷ []
      else issue_if (is_some customer && facts.duplicate_customer_po) "DUPLICATE_CUSTOMER_PO"
          (named "po_number"))
    ++ issue_if facts.document_already_processed "DOCUMENT_ALREADY_PROCESSED"
        (named "source_sha256")

-- draft.order_date is not None and requested_delivery_date < draft.order_date
abbrev is_before : ℕ → Option ℕ → Bool
is_before date none = false
is_before date (some d) = ltb date d

-- The tests on the dates.
unfoldable pub date_issues : ExtractionDraft → ValidationContext → List ValidationIssue
date_issues draft context =
    elim draft.order_date [
      | none ↦ error_issue "ORDER_DATE_REQUIRED" (named "order_date") ∷ []
      | some d ↦
          issue_if (ltb context.evaluation_date d) "ORDER_DATE_IN_FUTURE" (named "order_date")
    ]
    ++ elim draft.requested_delivery_date [
      | none ↦ error_issue "DELIVERY_DATE_REQUIRED" (named "requested_delivery_date") ∷ []
      | some d ↦
          issue_if (ltb d context.evaluation_date) "DELIVERY_DATE_IN_PAST"
            (named "requested_delivery_date")
          ++ issue_if (is_before d draft.order_date) "DELIVERY_BEFORE_ORDER_DATE"
              (named "requested_delivery_date")
    ]

-- The tests on the currency.
unfoldable pub currency_issues : ExtractionDraft → ValidationPolicy → List ValidationIssue
unfolding is_supported
currency_issues draft policy =
    if is_none draft.currency
    then error_issue "CURRENCY_REQUIRED" (named "currency") ∷ []
    else issue_if (not (is_supported policy draft.currency)) "UNSUPPORTED_CURRENCY"
        (named "currency")

-- The amount test of `validate`: total is not None and total >= policy.high_value_threshold
unfoldable pub is_high_value : ValidationPolicy → Option Decimal → Bool
is_high_value policy none = false
is_high_value policy (some total) = dec_leb policy.high_value_threshold total

-- The warning of a total that meets the threshold.
unfoldable pub high_value_issues : Bool → List ValidationIssue
high_value_issues false = []
high_value_issues true =
    record {
      rule_code = "HIGH_VALUE_APPROVAL_REQUIRED";
      severity = warning;
      field = named "order_total";
    }
    ∷ []

-- The tests on the lines.
unfoldable pub all_line_issues :
    ExtractionDraft
    → List (ExtractedLine × Option TrustedProduct)
    → ValidationPolicy
    → List ValidationIssue
unfolding append_line_issues
all_line_issues draft pairs policy = elim draft.lines [
  | [] ↦ error_issue "ORDER_LINES_REQUIRED" (named "lines") ∷ []
  | _ ∷ _ ↦ append_line_issues policy draft.currency pairs
]

-- The issues of `validate` before the amount test.
unfoldable pub draft_issues :
    ExtractionDraft
    → List (ExtractedLine × Option TrustedProduct)
    → TrustedBusinessData
    → ValidationFacts
    → ValidationPolicy
    → ValidationContext
    → List ValidationIssue
unfolding append_customer_issues identity_issues date_issues currency_issues all_line_issues
draft_issues draft pairs trusted facts policy context =
    let matched = append_customer_issues draft trusted in
    matched.0
    ++ identity_issues draft facts matched.1
    ++ date_issues draft context
    ++ currency_issues draft policy
    ++ all_line_issues draft pairs policy

-- The end of `validate`: `built` is what `_build_validated_data` gives, which runs without an error.
unfoldable pub conclude :
    List ValidationIssue
    → Bool
    → Option Decimal
    → Result (Option ValidatedOrderData)
    → Result ValidationResult
unfolding new_result has_error
conclude issues high total built = do
  let blocked = has_error issues
  result ← (if blocked then ok none else built)
  new_result (record {
    issues = issues;
    route = if blocked then needs_review else ready_for_approval;
    approval_level = if high then elevated else standard;
    order_total = total;
    validated_order_data = result;
  })

-- `validate`
unfoldable pub validate :
    ExtractionDraft
    → TrustedBusinessData
    → ValidationFacts
    → ValidationPolicy
    → ValidationContext
    → Result ValidationResult
unfolding zip_strict draft_issues compute_total is_high_value high_value_issues build_validated_data
    conclude
validate draft trusted facts policy context = do
  guard (length trusted.products_by_line == length draft.lines) value_error
  pairs ← zip_strict draft.lines trusted.products_by_line
  let total = compute_total draft
  let high = is_high_value policy total
  conclude (draft_issues draft pairs trusted facts policy context ++ high_value_issues high) high
      total (build_validated_data draft pairs (append_customer_issues draft trusted).1)
