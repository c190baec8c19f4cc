-- ===== src/Validation/Verdict.antt =====
-- The verdict of `validate` in src/opsflow/validation/engine.py.
use ops_flow_ai.Base.{
  ◌≡◌, ◌↔◌, ◌⊎◌, inl, inr, refl, ap, sym, ◌∙◌, false, ◌++◌, none, some, arith, All, length,
  Bool-cases, ok, ok-injective,
}
use ops_flow_ai.Domain.Order.{new_validated_data}
use ops_flow_ai.Domain.Promotion.{IsTrusted}
use ops_flow_ai.Validation.Draft.{ExtractionDraft}
use ops_flow_ai.Validation.Models.{
  needs_review, ready_for_approval, TrustedBusinessData, ValidationFacts, ValidationContext,
  ValidationPolicy, ValidationResult, has_error,
}
use ops_flow_ai.Validation.Engine.{
  compute_total, is_high_value, high_value_issues, draft_issues, validate,
}
use ops_flow_ai.Validation.Clean.{IsClean}
use ops_flow_ai.Validation.Acceptance.{IsAcceptable}
use ops_flow_ai.Validation.Blocking.{draft_issues-IsClean, draft_issues-clean}
use ops_flow_ai.Validation.Inputs.{paired, AreChecked}
use ops_flow_ai.Validation.Building.{
  trusted_data, trusted_data-checked, trusted_data-IsTrusted, length-trusted_data,
}
use ops_flow_ai.Validation.Outcome.{outcome, validate-acceptable, validate-blocked, has_error-high}

module _ (draft : ExtractionDraft) (trusted : TrustedBusinessData) (facts : ValidationFacts)
    (policy : ValidationPolicy) (context : ValidationContext) where
  -- The two ways `validate` ends on checked inputs with a product result for each line.
  data Verdict : Type 0 where
    accepted :
        (a : IsAcceptable draft (paired draft trusted) trusted facts policy context)
        → validate draft trusted facts policy context
          ≡ ok (outcome draft trusted facts policy context (some (trusted_data a)))
        → Verdict
    refused :
        (IsAcceptable draft (paired draft trusted) trusted facts policy context → ⊥)
        → validate draft trusted facts policy context
          ≡ ok (outcome draft trusted facts policy context none)
        → Verdict

  module _ (h : AreChecked draft trusted policy)
      (e : length trusted.products_by_line ≡ length draft.lines) where
    verdict : Verdict
    unfolding IsClean
    verdict =
        let pairs = paired draft trusted in
        elim (Bool-cases (has_error (draft_issues draft pairs trusted facts policy context))) [
          | inl b ↦
              refused
                (λ a.
                  let c = draft_issues-IsClean draft pairs trusted facts policy context a in
                  ground (arith, b, c))
                (validate-blocked draft trusted facts policy context e b)
          | inr c ↦
              let a = draft_issues-clean draft pairs trusted facts policy context c in
              accepted a (validate-acceptable draft trusted facts policy context e h a)
        ]

    -- On checked inputs with a product result for each line `validate` returns a result, and the
    -- verdicts agree with the independent description: the route is READY_FOR_APPROVAL exactly for
    -- the acceptable orders, where a price is acceptable if it differs from the catalogue price by
    -- at most the policy's fraction of it, and these are exactly the orders without an issue of
    -- severity ERROR.
    pub validate-IsAcceptable :
        (r : ValidationResult) × (validate draft trusted facts policy context ≡ ok r)
        × ((r.route ≡ ready_for_approval)
            ↔ IsAcceptable draft (paired draft trusted) trusted facts policy context)
        × ((has_error r.issues ≡ false)
            ↔ IsAcceptable draft (paired draft trusted) trusted facts policy context)
    unfolding IsClean
    validate-IsAcceptable =
        let pairs = paired draft trusted in
        let found = draft_issues draft pairs trusted facts policy context in
        let same = has_error-high found (is_high_value policy (compute_total draft)) in
        let errors : (has_error
                (found ++ high_value_issues (is_high_value policy (compute_total draft)))
              ≡ false)
            ↔ IsAcceptable draft pairs trusted facts policy context =
          (
            λ c. draft_issues-clean draft pairs trusted facts policy context (sym same ∙ c),
            λ a. same ∙ draft_issues-IsClean draft pairs trusted facts policy context a,
          ) in
        elim verdict [
          | accepted a v ↦ (
            outcome draft trusted facts policy context (some (trusted_data a)),
            v,
            (λ _. a, λ _. refl),
            errors,
          )
          | refused n v ↦ (
            outcome draft trusted facts policy context none,
            v,
            (λ r. cc, λ a. absurd (n a)),
            errors,
          )
        ]

    -- The data that `validate` returns on such inputs can be relied on: with the route NEEDS_REVIEW
    -- there are none; with READY_FOR_APPROVAL the order is acceptable and they are the customer's
    -- reference and the draft's number, dates and currency, with a line for each line of the draft,
    -- all of which pass their constructors.
    pub validate-IsTrusted :
        {r : ValidationResult}
        → validate draft trusted facts policy context ≡ ok r
        → ((r.route ≡ needs_review) × (r.validated_order_data ≡ none))
          ⊎ ((r.route ≡ ready_for_approval)
              × (a : IsAcceptable draft (paired draft trusted) trusted facts policy context)
              × (r.validated_order_data ≡ some (trusted_data a))
              × (new_validated_data (trusted_data a) ≡ ok (trusted_data a))
              × All IsTrusted (trusted_data a).lines
              × (length (trusted_data a).lines ≡ length draft.lines))
    validate-IsTrusted {r} k = elim verdict [
      | accepted a v ↦
          let e' : outcome draft trusted facts policy context (some (trusted_data a)) ≡ r =
            ok-injective (sym v ∙ k) in
          inr (
            sym (ap (λ x. x.route) e'),
            a,
            sym (ap (λ x. x.validated_order_data) e'),
            trusted_data-checked h e a,
            trusted_data-IsTrusted h e a,
            length-trusted_data h e a,
          )
      | refused n v ↦
          let e' : outcome draft trusted facts policy context none ≡ r = ok-injective (sym v ∙ k) in
          inl (sym (ap (λ x. x.route) e'), sym (ap (λ x. x.validated_order_data) e'))
    ]
