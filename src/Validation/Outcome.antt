-- ===== src/Validation/Outcome.antt =====
-- What `validate` of src/opsflow/validation/engine.py returns.
use ops_flow_ai.Base.{
  ◌≡◌, inl, inr, sym, ◌∙◌, Bool, true, false, ==_refl, Option, none, some, List, ◌++◌, arith,
  any-append, length, is_some, Option-cases, if◌then◌else◌, Result, ok,
}
use ops_flow_ai.Decimal.{Decimal}
use ops_flow_ai.Domain.Records.{ValidationIssue}
use ops_flow_ai.Domain.Order.{ValidatedOrderData}
use ops_flow_ai.Validation.Draft.{ExtractionDraft}
use ops_flow_ai.Validation.Models.{
  needs_review, ready_for_approval, standard, elevated, TrustedBusinessData, ValidationFacts,
  ValidationContext, ValidationPolicy, ValidationResult, new_result, has_error, is_error,
  optional_decimal_ok,
}
use ops_flow_ai.Validation.Engine.{
  compute_total, is_high_value, high_value_issues, conclude, draft_issues, validate,
}
use ops_flow_ai.Validation.Clean.{IsClean}
use ops_flow_ai.Validation.Totals.{total_not_negative}
use ops_flow_ai.Validation.Acceptance.{IsAcceptable}
use ops_flow_ai.Validation.Blocking.{draft_issues-IsClean}
use ops_flow_ai.Validation.Inputs.{paired, AreChecked, zip_strict_lem}
use ops_flow_ai.Validation.Building.{trusted_data, build_validated_data-trusted}

pub has_error-high :
    (issues : List ValidationIssue) (high : Bool)
    → has_error (issues ++ high_value_issues high) ≡ has_error issues
unfolding has_error high_value_issues
has_error-high issues high = ground (arith, any-append is_error issues (high_value_issues high))

-- The result of `conclude` with or without an error.
abbrev result_of :
    List ValidationIssue → Bool → Option Decimal → Option ValidatedOrderData → ValidationResult
result_of issues high total data' = record {
  issues = issues;
  route = if is_some data' then ready_for_approval else needs_review;
  approval_level = if high then elevated else standard;
  order_total = total;
  validated_order_data = data';
}

module _ (issues : List ValidationIssue) (high : Bool) (total : Option Decimal)
    (built : Result (Option ValidatedOrderData)) (fine : optional_decimal_ok total ≡ true) where
  conclude-blocked :
      has_error issues ≡ true
      → conclude issues high total built ≡ ok (result_of issues high total none)
  unfolding conclude new_result
  conclude-blocked b = ground (arith, fine, b)

  conclude-accepted :
      {d : ValidatedOrderData}
      → has_error issues ≡ false
      → built ≡ ok (some d)
      → conclude issues high total built ≡ ok (result_of issues high total (some d))
  unfolding conclude new_result
  conclude-accepted b e = ground (arith, fine, b, e)

total_ok : (draft : ExtractionDraft) → optional_decimal_ok (compute_total draft) ≡ true
unfolding optional_decimal_ok
total_ok draft = elim (Option-cases (compute_total draft)) [
  | inl k ↦ ground (arith, k)
  | inr (t, k) ↦ ground (arith, k, total_not_negative draft k)
]

module _ (draft : ExtractionDraft) (trusted : TrustedBusinessData) (facts : ValidationFacts)
    (policy : ValidationPolicy) (context : ValidationContext) where
  abbrev found_issues : List ValidationIssue
  found_issues = draft_issues draft (paired draft trusted) trusted facts policy context

  -- The result of `validate` with the data that it carries, if any.
  abbrev pub outcome : Option ValidatedOrderData → ValidationResult
  outcome data' =
      let high = is_high_value policy (compute_total draft) in
      result_of (found_issues ++ high_value_issues high) high (compute_total draft) data'

  module _ (e : length trusted.products_by_line ≡ length draft.lines) where
    pub validate-acceptable :
        AreChecked draft trusted policy
        → (a : IsAcceptable draft (paired draft trusted) trusted facts policy context)
        → validate draft trusted facts policy context ≡ ok (outcome (some (trusted_data a)))
    unfolding validate IsClean
    validate-acceptable h a =
        let clean =
          draft_issues-IsClean draft (paired draft trusted) trusted facts policy context a in
        let high = is_high_value policy (compute_total draft) in
        let same = has_error-high found_issues high in
        rw
          (
            e,
            ==_refl (length draft.lines),
            zip_strict_lem draft.lines trusted.products_by_line (sym e),
          )
          (conclude-accepted (found_issues ++ high_value_issues high) high (compute_total draft) _
            (total_ok draft) (same ∙ clean) (build_validated_data-trusted h e a))

    pub validate-blocked :
        has_error found_issues ≡ true
        → validate draft trusted facts policy context ≡ ok (outcome none)
    unfolding validate
    validate-blocked b =
        let high = is_high_value policy (compute_total draft) in
        let same = has_error-high found_issues high in
        rw
          (
            e,
            ==_refl (length draft.lines),
            zip_strict_lem draft.lines trusted.products_by_line (sym e),
          )
          (conclude-blocked (found_issues ++ high_value_issues high) high (compute_total draft) _
            (total_ok draft) (same ∙ b))
