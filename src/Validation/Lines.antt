-- ===== src/Validation/Lines.antt =====
-- The rules on one order line of src/opsflow/validation/engine.py. A function that appends to
-- `issues` returns the issues that it appends; the diagnostics of an issue are left out.
use ops_flow_ai.Base.{
  ℕ, ◌+◌, String, Bool, false, not, ◌&&◌, Option, none, some, List, [], ◌∷◌, ◌++◌, any, is_none,
  str_eq, if◌then◌else◌,
}
use ops_flow_ai.Decimal.{
  Decimal, dec_leb, dec_ltb, dec_mul, dec_sub, dec_abs, is_below_zero, is_at_most_zero,
}
use ops_flow_ai.Domain.Records.{error, IssueField, of_line, ValidationIssue}
use ops_flow_ai.Validation.Draft.{ExtractedLine}
use ops_flow_ai.Validation.Models.{TrustedProduct, ValidationPolicy}

-- `_add_issue` with its default severity
abbrev pub error_issue : String → IssueField → ValidationIssue
error_issue code place = record { rule_code = code; severity = error; field = place }

-- if test: _add_issue(...)
abbrev pub issue_if : Bool → String → IssueField → List ValidationIssue
issue_if test code place = if test then error_issue code place ∷ [] else []

-- `_price_within_tolerance`
unfoldable pub price_within_tolerance : Decimal → Decimal → ValidationPolicy → Bool
price_within_tolerance submitted catalogue policy =
    let difference = dec_abs (dec_sub submitted catalogue) in
    let allowance = dec_mul (dec_abs catalogue) policy.price_tolerance_fraction in
    dec_leb difference allowance

-- The part of the loop body on the SKU: its issues.
unfoldable pub sku_issues : ℕ → ExtractedLine → Option TrustedProduct → List ValidationIssue
sku_issues index line product = elim line.sku [
  | none ↦ error_issue "SKU_REQUIRED" (of_line index "sku") ∷ []
  | some _ ↦ elim product [
    | none ↦ error_issue "UNKNOWN_SKU" (of_line index "sku") ∷ []
    | some p ↦ issue_if (not p.active) "INACTIVE_SKU" (of_line index "sku")
  ]
]

-- The part on the quantity.
unfoldable pub quantity_issues : ℕ → ExtractedLine → Option TrustedProduct → List ValidationIssue
quantity_issues index line product = elim line.quantity [
  | none ↦ error_issue "QUANTITY_REQUIRED" (of_line index "quantity") ∷ []
  | some q ↦
      if is_at_most_zero q
      then error_issue "QUANTITY_NOT_POSITIVE" (of_line index "quantity") ∷ []
      else elim product [
        | none ↦ []
        | some p ↦ elim p.available_quantity [
          | none ↦ error_issue "INVENTORY_UNAVAILABLE" (of_line index "quantity") ∷ []
          | some a ↦ issue_if (dec_ltb a q) "INSUFFICIENT_INVENTORY" (of_line index "quantity")
        ]
      ]
]

-- The part on the submitted price alone.
unfoldable pub price_issues : ℕ → ExtractedLine → List ValidationIssue
price_issues index line = elim line.submitted_price [
  | none ↦ error_issue "SUBMITTED_PRICE_REQUIRED" (of_line index "submitted_price") ∷ []
  | some s ↦ issue_if (is_below_zero s) "SUBMITTED_PRICE_NEGATIVE" (of_line index "submitted_price")
]

-- product.currency != usable_currency, where a currency is usable
abbrev currency_mismatch : Option String → String → Bool
currency_mismatch none product_currency = false
currency_mismatch (some c) product_currency = not (str_eq product_currency c)

-- The last test of the loop body: the prices are there, the currency is usable and the product's,
-- and the submitted price is outside the tolerance.
unfoldable pub outside_tolerance :
    ValidationPolicy → Option String → String → Option Decimal → Option Decimal → Bool
unfolding price_within_tolerance
outside_tolerance policy (some usable) product_currency (some catalogue) (some submitted) =
    not (is_below_zero submitted)
    && str_eq product_currency usable
    && not (price_within_tolerance submitted catalogue policy)
outside_tolerance policy _ _ _ _ = false

-- The part after `if product is None: continue`.
unfoldable pub catalogue_issues :
    ValidationPolicy
    → Option String
    → ℕ
    → ExtractedLine
    → Option TrustedProduct
    → List ValidationIssue
unfolding outside_tolerance
catalogue_issues policy usable index line none = []
catalogue_issues policy usable index line (some p) =
    issue_if (is_none p.catalogue_price) "CATALOGUE_PRICE_UNAVAILABLE"
      (of_line index "submitted_price")
    ++ issue_if (currency_mismatch usable p.currency) "PRODUCT_CURRENCY_MISMATCH"
        (of_line index "sku")
    ++ issue_if (outside_tolerance policy usable p.currency p.catalogue_price line.submitted_price)
        "PRICE_OUTSIDE_TOLERANCE" (of_line index "submitted_price")

-- The body of the loop of `_append_line_issues`
unfoldable pub line_issues :
    ValidationPolicy
    → Option String
    → ℕ
    → ExtractedLine
    → Option TrustedProduct
    → List ValidationIssue
unfolding sku_issues quantity_issues price_issues catalogue_issues
line_issues policy usable index line looked_up =
    let product = (if is_none line.sku then none else looked_up) in
    sku_issues index line product
    ++ quantity_issues index line product
    ++ price_issues index line
    ++ catalogue_issues policy usable index line product

-- draft.currency in policy.supported_currencies
unfoldable pub is_supported : ValidationPolicy → Option String → Bool
is_supported policy none = false
is_supported policy (some c) = any (str_eq c) policy.supported_currencies

-- The loop of `_append_line_issues`, on the lines paired with their products.
unfoldable pub issues_from :
    ValidationPolicy
    → Option String
    → ℕ
    → List (ExtractedLine × Option TrustedProduct)
    → List ValidationIssue
unfolding line_issues
issues_from policy usable index [] = []
issues_from policy usable index (pair ∷ pairs) =
    line_issues policy usable index pair.0 pair.1 ++ issues_from policy usable (index + 1) pairs

-- `_append_line_issues`
unfoldable pub append_line_issues :
    ValidationPolicy
    → Option String
    → List (ExtractedLine × Option TrustedProduct)
    → List ValidationIssue
unfolding issues_from is_supported
append_line_issues policy currency pairs =
    issues_from policy (if is_supported policy currency then currency else none) 0 pairs
