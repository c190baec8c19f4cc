-- ===== src/Tests/Validation.antt =====
-- Runs of the validation engine, and its theorems at these inputs.
use ops_flow_ai.Base.{
  String, subst, ◌↔◌, ◌⊎◌, All, ℕ, ◌≡◌, refl, inl, true, false, none, some, [], ◌∷◌, Memᴰ, arith,
  length, ok,
}
use ops_flow_ai.Decimal.{Decimal, of_ℕ, dec_leb, dec_mul, dec_add, dec_abs}
use ops_flow_ai.Domain.State.{approved}
use ops_flow_ai.Domain.Records.{is_blank, pdf}
use ops_flow_ai.Domain.Order.{is_currency_code, new_validated_data}
use ops_flow_ai.Domain.Promotion.{promoted, IsTrusted}
use ops_flow_ai.Validation.Draft.{ExtractionDraft}
use ops_flow_ai.Validation.Models.{
  ready_for_approval, needs_review, elevated, TrustedProduct, TrustedCustomer, TrustedBusinessData,
  ValidationFacts, ValidationContext, ValidationPolicy, ValidationResult, new_policy, new_product,
  new_customer, optional_string_ok, has_error, optional_decimal_ok,
}
use ops_flow_ai.Validation.Lines.{price_within_tolerance}
use ops_flow_ai.Validation.Clean.{IsWithin}
use ops_flow_ai.Validation.Engine.{validate}
use ops_flow_ai.Validation.Acceptance.{IsAcceptable}
use ops_flow_ai.Validation.Inputs.{paired, AreChecked}
use ops_flow_ai.Validation.Building.{trusted_data}
use ops_flow_ai.Validation.Outcome.{outcome, validate-acceptable}
use ops_flow_ai.Validation.Verdict.{validate-IsAcceptable, validate-IsTrusted}
use ops_flow_ai.Validation.Preflight.{approved_order_trusted_data_issues}
use ops_flow_ai.Validation.Agreement.{preflight-accepts}
use ops_flow_ai.Tests.Data.{an_order}

-- 12.50
abbrev price : Decimal
price = record { negative = false; coefficient = 1250; up = 0; down = 2 }

-- 0.05
abbrev tolerance : Decimal
tolerance = record { negative = false; coefficient = 5; up = 0; down = 2 }

abbrev product : TrustedProduct
product = record {
  sku = "BOLT";
  description = none;
  active = true;
  currency = "EUR";
  catalogue_price = some (of_ℕ 12);
  available_quantity = some (of_ℕ 100);
}

abbrev pub customer : TrustedCustomer
customer = record { reference = "ACME"; name = "Acme"; active = true }

abbrev pub trusted : TrustedBusinessData
trusted = record { customer_candidates = customer ∷ []; products_by_line = some product ∷ [] }

abbrev pub facts : ValidationFacts
facts = record { duplicate_customer_po = false; document_already_processed = false }

abbrev pub policy : ValidationPolicy
policy = record {
  supported_currencies = "USD" ∷ "EUR" ∷ [];
  price_tolerance_fraction = tolerance;
  high_value_threshold = of_ℕ 1000;
}

abbrev pub context : ValidationContext
context = record { evaluation_date = 20 }

abbrev pub sha : String
sha = "0000000000000000000000000000000000000000000000000000000000000000"

-- A draft for `n` bolts at 12.50, 0.50 above the catalogue.
abbrev pub draft_for : ℕ → ExtractionDraft
draft_for n = record {
  source_sha256 = sha;
  source_document_type = pdf;
  customer_name = none;
  customer_reference = some "ACME";
  po_number = some "PO-1";
  order_date = some 19;
  requested_delivery_date = some 30;
  currency = some "EUR";
  lines =
      record {
        sku = some "BOLT";
        description = some "bolts";
        quantity = some (of_ℕ n);
        submitted_price = some price;
      }
      ∷ [];
  notes = none;
  evidence = [];
}

within : IsWithin policy.price_tolerance_fraction (of_ℕ 12) price
unfolding dec_abs dec_add dec_mul dec_leb
within = refl

pub draft-IsAcceptable :
    IsAcceptable (draft_for 80) (paired (draft_for 80) trusted) trusted facts policy context
unfolding dec_leb
draft-IsAcceptable = record {
  customer = customer;
  po = "PO-1";
  ordered = 19;
  delivery = 30;
  currency = "EUR";
  is_identified = refl;
  one_customer = refl;
  is_active = refl;
  has_po = refl;
  is_new_po = refl;
  is_new_document = refl;
  has_order_date = refl;
  not_in_future = omega arith;
  has_delivery = refl;
  not_in_past = omega arith;
  not_before_order = omega arith;
  has_currency = refl;
  currency_supported = Memᴰ.tail (Memᴰ.head refl);
  has_lines = omega arith;
  lines_orderable = (
    record {
      sku = "BOLT";
      product = product;
      quantity = of_ℕ 80;
      available = of_ℕ 100;
      submitted = price;
      catalogue = of_ℕ 12;
      has_sku = refl;
      has_product = refl;
      is_active = refl;
      has_quantity = refl;
      is_positive = refl;
      has_stock = refl;
      is_available = refl;
      has_price = refl;
      not_negative = refl;
      has_catalogue = refl;
      same_currency = refl;
      is_within = within;
    },
    tt,
  );
}

pub inputs-AreChecked : (n : ℕ) → AreChecked (draft_for n) trusted policy
unfolding new_customer new_product new_policy optional_string_ok optional_decimal_ok is_blank
    is_currency_code dec_leb
inputs-AreChecked n = record {
  customers = (refl, tt);
  products = (
    (λ p e.
        let same : product ≡ p = ground (arith, e) in subst (λ p. new_product p ≡ ok p) same refl),
    tt,
  );
  policy_checked = refl;
  po_text = refl;
  descriptions = (refl, tt);
}

-- 80 bolts are ready for approval, at an elevated level: 80 * 12.50 meets the threshold.
accepted_run :
    (r : ValidationResult) × (validate (draft_for 80) trusted facts policy context ≡ ok r)
    × (r.route ≡ ready_for_approval)
    × (r.approval_level ≡ elevated)
unfolding validate has_error dec_leb price_within_tolerance dec_abs dec_add dec_mul new_customer
    is_blank is_currency_code
accepted_run = (_, refl, refl, refl)

validate-IsAcceptable_example :
    (r : ValidationResult) × (validate (draft_for 80) trusted facts policy context ≡ ok r)
    × ((r.route ≡ ready_for_approval)
        ↔ IsAcceptable (draft_for 80) (paired (draft_for 80) trusted) trusted facts policy context)
    × ((has_error r.issues ≡ false)
        ↔ IsAcceptable (draft_for 80) (paired (draft_for 80) trusted) trusted facts policy context)
validate-IsAcceptable_example =
    validate-IsAcceptable (draft_for 80) trusted facts policy context (inputs-AreChecked 80) refl

abbrev accepted_result : ValidationResult
accepted_result =
    outcome (draft_for 80) trusted facts policy context (some (trusted_data draft-IsAcceptable))

accepted : validate (draft_for 80) trusted facts policy context ≡ ok accepted_result
accepted =
    validate-acceptable (draft_for 80) trusted facts policy context refl (inputs-AreChecked 80)
      draft-IsAcceptable

validate-IsTrusted_example :
    ((accepted_result.route ≡ needs_review) × (accepted_result.validated_order_data ≡ none))
    ⊎ ((accepted_result.route ≡ ready_for_approval)
        × (a : IsAcceptable
            (draft_for 80)
            (paired (draft_for 80) trusted)
            trusted
            facts
            policy
            context)
        × (accepted_result.validated_order_data ≡ some (trusted_data a))
        × (new_validated_data (trusted_data a) ≡ ok (trusted_data a))
        × All IsTrusted (trusted_data a).lines
        × (length (trusted_data a).lines ≡ length (draft_for 80).lines))
validate-IsTrusted_example =
    validate-IsTrusted (draft_for 80) trusted facts policy context (inputs-AreChecked 80) refl
      accepted

preflight-accepts_example :
    approved_order_trusted_data_issues
      (promoted (an_order approved) (trusted_data draft-IsAcceptable) (7 ∷ []))
      trusted
      policy
    ≡ ok []
preflight-accepts_example =
    preflight-accepts (draft_for 80) trusted facts policy context draft-IsAcceptable
      (an_order approved) (7 ∷ []) refl refl (inl refl)
