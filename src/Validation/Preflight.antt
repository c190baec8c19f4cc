-- ===== src/Validation/Preflight.antt =====
-- `approved_order_trusted_data_issues` of src/opsflow/validation/engine.py: the trusted facts of an
-- approved order, looked up again before it is synchronised.
use ops_flow_ai.Base.{
  ℕ, ◌+◌, String, Bool, false, not, ◌&&◌, ◌||◌, Option, none, some, List, [], ◌∷◌, ◌++◌, length,
  ◌==◌, is_none, is_some, str_eq, opt_eq, Result, ok, value_error, ◌>>=◌, ◌>>◌, guard,
  if◌then◌else◌,
}
use ops_flow_ai.Decimal.{Decimal, dec_ltb, is_below_zero}
use ops_flow_ai.Domain.State.{approved, syncing, state_eq}
use ops_flow_ai.Domain.Records.{OrderLine, ValidationIssue, named, of_line}
use ops_flow_ai.Domain.Order.{Order}
use ops_flow_ai.Validation.Models.{
  TrustedCustomer, TrustedProduct, TrustedBusinessData, ValidationPolicy,
}
use ops_flow_ai.Validation.Lines.{error_issue, issue_if, is_supported, price_within_tolerance}
use ops_flow_ai.Validation.Build.{zip_strict}

-- The candidates with the order's reference
unfoldable pub matching : String → List TrustedCustomer → List TrustedCustomer
matching reference [] = []
matching reference (c ∷ cs) =
    let rest = matching reference cs in if str_eq c.reference reference then c ∷ rest else rest

unfoldable pub customer_issues : Option String → List TrustedCustomer → List ValidationIssue
unfolding matching
customer_issues none candidates = error_issue "CUSTOMER_REQUIRED" (named "customer_reference") ∷ []
customer_issues (some reference) candidates = elim (matching reference candidates) [
  | [] ↦ error_issue "UNKNOWN_CUSTOMER" (named "customer_reference") ∷ []
  | c ∷ [] ↦ issue_if (not c.active) "INACTIVE_CUSTOMER" (named "customer_reference")
  | _ ∷ _ ∷ _ ↦ error_issue "AMBIGUOUS_CUSTOMER" (named "customer_reference") ∷ []
]

unfoldable pub order_currency_issues : ValidationPolicy → Option String → List ValidationIssue
unfolding is_supported
order_currency_issues policy currency =
    if is_none currency
    then error_issue "CURRENCY_REQUIRED" (named "currency") ∷ []
    else issue_if (not (is_supported policy currency)) "UNSUPPORTED_CURRENCY" (named "currency")

-- The last test of a line: submitted price is there and not negative, the order's currency supported
-- and the product's, and the price outside the tolerance.
unfoldable pub is_out_of_tolerance :
    ValidationPolicy → Option String → String → Decimal → Option Decimal → Bool
unfolding is_supported price_within_tolerance
is_out_of_tolerance policy currency product_currency catalogue none = false
is_out_of_tolerance policy currency product_currency catalogue (some submitted) =
    not (is_below_zero submitted)
    && is_supported policy currency
    && opt_eq str_eq (some product_currency) currency
    && not (price_within_tolerance submitted catalogue policy)

-- The tests on a line whose product has its SKU.
unfoldable pub product_issues :
    ValidationPolicy → Option String → ℕ → OrderLine → TrustedProduct → List ValidationIssue
unfolding is_out_of_tolerance
product_issues policy currency index line p =
    issue_if (not p.active) "INACTIVE_SKU" (of_line index "sku")
    ++ elim p.available_quantity [
      | none ↦ error_issue "INVENTORY_UNAVAILABLE" (of_line index "quantity") ∷ []
      | some a ↦
          issue_if (dec_ltb a line.quantity) "INSUFFICIENT_INVENTORY" (of_line index "quantity")
    ]
    ++ issue_if (is_some currency && not (opt_eq str_eq (some p.currency) currency))
        "PRODUCT_CURRENCY_MISMATCH" (of_line index "sku")
    ++ elim p.catalogue_price [
      | none ↦ error_issue "CATALOGUE_PRICE_UNAVAILABLE" (of_line index "submitted_price") ∷ []
      | some c ↦
          issue_if (is_out_of_tolerance policy currency p.currency c line.submitted_price)
            "PRICE_OUTSIDE_TOLERANCE" (of_line index "submitted_price")
    ]

-- The body of the loop, with its three `continue`s.
unfoldable pub approved_line_issues :
    ValidationPolicy → Option String → ℕ → OrderLine → Option TrustedProduct → List ValidationIssue
unfolding product_issues
approved_line_issues policy currency index line found = elim line.sku [
  | none ↦ error_issue "SKU_REQUIRED" (of_line index "sku") ∷ []
  | some sku ↦ elim found [
    | none ↦ error_issue "UNKNOWN_SKU" (of_line index "sku") ∷ []
    | some p ↦
        if not (str_eq p.sku sku)
        then error_issue "UNKNOWN_SKU" (of_line index "sku") ∷ []
        else product_issues policy currency index line p
  ]
]

unfoldable pub approved_lines_issues :
    ValidationPolicy
    → Option String
    → ℕ
    → List (OrderLine × Option TrustedProduct)
    → List ValidationIssue
unfolding approved_line_issues
approved_lines_issues policy currency index [] = []
approved_lines_issues policy currency index (pair ∷ pairs) =
    approved_line_issues policy currency index pair.0 pair.1
    ++ approved_lines_issues policy currency (index + 1) pairs

-- `approved_order_trusted_data_issues`
unfoldable pub approved_order_trusted_data_issues :
    Order → TrustedBusinessData → ValidationPolicy → Result (List ValidationIssue)
unfolding zip_strict customer_issues order_currency_issues approved_lines_issues
approved_order_trusted_data_issues order trusted policy = do
  guard (state_eq order.state approved || state_eq order.state syncing) value_error
  guard (length trusted.products_by_line == length order.lines) value_error
  pairs ← zip_strict order.lines trusted.products_by_line
  ok (
      customer_issues order.customer_reference trusted.customer_candidates
      ++ order_currency_issues policy order.currency
      ++ approved_lines_issues policy order.currency 0 pairs)
