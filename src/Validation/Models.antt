-- ===== src/Validation/Models.antt =====
-- The values of src/opsflow/validation/models.py and policy.py, with the checks of their
-- constructors. A date is its ordinal; tests of a value's Python type are its type here.
use ops_flow_ai.Base.{
  ℕ, String, Bool, true, false, not, ◌&&◌, ◌||◌, Option, none, some, List, [], ◌∷◌, ltb, any, all,
  length, is_none, is_some, str_eq, Result, ok, value_error, ◌>>◌, guard,
}
use ops_flow_ai.Decimal.{Decimal, is_below_zero}
use ops_flow_ai.Domain.Records.{is_blank, is_non_blank, error, ValidationIssue}
use ops_flow_ai.Domain.Order.{is_currency_code, ValidatedOrderData}

pub data ValidationRoute : Type 0 where
  needs_review ready_for_approval : ValidationRoute

pub data ApprovalLevel : Type 0 where
  standard elevated : ApprovalLevel

pub record ValidationContext : Type 0 where
  pub evaluation_date : ℕ

pub record ValidationFacts : Type 0 where
  pub duplicate_customer_po : Bool
  pub document_already_processed : Bool

pub record TrustedCustomer : Type 0 where
  pub reference : String
  pub name : String
  pub active : Bool

pub record TrustedProduct : Type 0 where
  pub sku : String
  pub description : Option String
  pub active : Bool
  pub currency : String
  pub catalogue_price : Option Decimal
  pub available_quantity : Option Decimal

pub record TrustedBusinessData : Type 0 where
  pub customer_candidates : List TrustedCustomer
  pub products_by_line : List (Option TrustedProduct)

pub record BusinessDataLookupRequest : Type 0 where
  pub customer_reference : Option String
  pub customer_name : Option String
  pub skus : List (Option String)

pub record ValidationPolicy : Type 0 where
  pub supported_currencies : List String
  pub price_tolerance_fraction : Decimal
  pub high_value_threshold : Decimal

pub record ValidationResult : Type 0 where
  pub issues : List ValidationIssue
  pub route : ValidationRoute
  pub approval_level : ApprovalLevel
  pub order_total : Option Decimal
  pub validated_order_data : Option ValidatedOrderData

-- `_require_optional_string`
unfoldable pub optional_string_ok : Option String → Bool
optional_string_ok s = is_none s || is_non_blank s

-- `_require_nonnegative_optional_decimal`
unfoldable pub optional_decimal_ok : Option Decimal → Bool
optional_decimal_ok none = true
optional_decimal_ok (some d) = not (is_below_zero d)

-- `TrustedCustomer.__post_init__`
unfoldable pub new_customer : TrustedCustomer → Result TrustedCustomer
new_customer c = do
  guard (not (is_blank c.reference)) value_error
  guard (not (is_blank c.name)) value_error
  ok c

-- `TrustedProduct.__post_init__`
unfoldable pub new_product : TrustedProduct → Result TrustedProduct
unfolding optional_string_ok optional_decimal_ok
new_product p = do
  guard (not (is_blank p.sku)) value_error
  guard (optional_string_ok p.description) value_error
  guard (is_currency_code p.currency) value_error
  guard (optional_decimal_ok p.catalogue_price) value_error
  guard (optional_decimal_ok p.available_quantity) value_error
  ok p

-- `BusinessDataLookupRequest.__post_init__`
unfoldable pub new_lookup_request : BusinessDataLookupRequest → Result BusinessDataLookupRequest
unfolding optional_string_ok
new_lookup_request r = do
  guard (optional_string_ok r.customer_reference) value_error
  guard (optional_string_ok r.customer_name) value_error
  guard (all optional_string_ok r.skus) value_error
  ok r

-- len(set(codes)) == len(codes)
all_distinct : List String → Bool
all_distinct [] = true
all_distinct (c ∷ cs) = not (any (str_eq c) cs) && all_distinct cs

-- `ValidationPolicy.__post_init__`
unfoldable pub new_policy : ValidationPolicy → Result ValidationPolicy
unfolding all_distinct
new_policy p = do
  guard (ltb 0 (length p.supported_currencies)) value_error
  guard (all is_currency_code p.supported_currencies) value_error
  guard (all_distinct p.supported_currencies) value_error
  guard (not (is_below_zero p.price_tolerance_fraction)) value_error
  guard (not (is_below_zero p.high_value_threshold)) value_error
  ok p

-- issue.severity is ValidationSeverity.ERROR
abbrev pub is_error : ValidationIssue → Bool
is_error i = elim i.severity [ error ↦ true | _ ↦ false ]

-- any(issue.severity is ValidationSeverity.ERROR for issue in issues)
unfoldable pub has_error : List ValidationIssue → Bool
has_error = any is_error

-- `ValidationResult.__post_init__`
unfoldable pub new_result : ValidationResult → Result ValidationResult
unfolding optional_decimal_ok has_error
new_result r = do
  guard (optional_decimal_ok r.order_total) value_error
  guard (not (has_error r.issues && is_some r.validated_order_data)) value_error
  ok r
