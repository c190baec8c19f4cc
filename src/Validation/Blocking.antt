-- ===== src/Validation/Blocking.antt =====
-- The rules of src/opsflow/validation/engine.py find no error in exactly the acceptable orders.
use ops_flow_ai.Base.{subst, ◌<◌, String, ◌≡◌, none, some, ◌++◌, Memᴰ, arith, length, if◌then◌else◌}
use ops_flow_ai.Validation.Draft.{ExtractionDraft}
use ops_flow_ai.Validation.Models.{
  TrustedBusinessData, ValidationFacts, ValidationContext, ValidationPolicy, has_error,
}
use ops_flow_ai.Validation.Lines.{is_supported, append_line_issues}
use ops_flow_ai.Validation.Engine.{
  append_customer_issues, identity_issues, date_issues, currency_issues, draft_issues,
}
use ops_flow_ai.Validation.Clean.{IsClean, IsClean-append, IsClean-parts}
use ops_flow_ai.Validation.Acceptance.{Pairs, AreOrderable, IsAcceptable}
use ops_flow_ai.Validation.Engine.{all_line_issues}
use ops_flow_ai.Validation.OrderRules.{
  Memᴰ-any, issues_from-IsClean, issues_from-clean, append_customer_issues-clean,
  append_customer_issues-some, date_issues-clean, date_issues-IsClean, currency_issues-IsClean,
  currency_issues-clean, identity_issues-clean, identity_issues-IsClean,
}

module _ (draft : ExtractionDraft) (pairs : Pairs) (policy : ValidationPolicy) {c : String}
    (has_currency : draft.currency ≡ some c) (supported : Memᴰ c policy.supported_currencies) where
  usable : (if is_supported policy draft.currency then draft.currency else none) ≡ some c
  unfolding is_supported
  usable =
      let q = Memᴰ-any c policy.supported_currencies supported in ground (arith, has_currency, q)

  all_line_issues-clean :
      IsClean (all_line_issues draft pairs policy)
      → (0 < length draft.lines) × AreOrderable policy c pairs
  unfolding IsClean has_error all_line_issues append_line_issues
  all_line_issues-clean clean =
      let u = usable in ground (arith, issues_from-clean policy c 0 pairs, u)

  all_line_issues-IsClean :
      0 < length draft.lines
      → AreOrderable policy c pairs
      → IsClean (all_line_issues draft pairs policy)
  unfolding IsClean has_error all_line_issues append_line_issues
  all_line_issues-IsClean h o =
      let u = usable in ground (arith, issues_from-IsClean policy c 0 pairs o, u)

module _ (draft : ExtractionDraft) (pairs : Pairs) (trusted : TrustedBusinessData)
    (facts : ValidationFacts) (policy : ValidationPolicy) (context : ValidationContext) where
  pub draft_issues-IsClean :
      IsAcceptable draft pairs trusted facts policy context
      → IsClean (draft_issues draft pairs trusted facts policy context)
  unfolding draft_issues
  draft_issues-IsClean a =
      let m =
        append_customer_issues-some draft trusted a.customer a.is_identified a.one_customer
          a.is_active in
      let first = identity_issues draft facts (some a.customer) in
      let p : IsClean first =
        identity_issues-IsClean draft facts a.customer a.has_po a.is_new_po a.is_new_document in
      let q =
        date_issues-IsClean draft context a.has_order_date a.not_in_future a.has_delivery
          a.not_in_past a.not_before_order in
      let r = currency_issues-IsClean draft policy a.has_currency a.currency_supported in
      let s =
        all_line_issues-IsClean draft pairs policy a.has_currency a.currency_supported a.has_lines
          a.lines_orderable in
      let two = first ++ date_issues draft context in
      let three = two ++ currency_issues draft policy in
      rw m (
        IsClean-append three (all_line_issues draft pairs policy)
          (IsClean-append two (currency_issues draft policy)
            (IsClean-append first (date_issues draft context) p q) r)
          s)

  pub draft_issues-clean :
      IsClean (draft_issues draft pairs trusted facts policy context)
      → IsAcceptable draft pairs trusted facts policy context
  unfolding draft_issues
  draft_issues-clean clean =
      let matched = append_customer_issues draft trusted in
      let first = matched.0 ++ identity_issues draft facts matched.1 in
      let (abcd, e) =
        IsClean-parts (first ++ date_issues draft context ++ currency_issues draft policy)
          (all_line_issues draft pairs policy) clean in
      let (abc, d) =
        IsClean-parts (first ++ date_issues draft context) (currency_issues draft policy) abcd in
      let (ab, c) = IsClean-parts first (date_issues draft context) abc in
      let (a, b) = IsClean-parts matched.0 (identity_issues draft facts matched.1) ab in
      let (identified, customer, one, active, matches) =
        append_customer_issues-clean draft trusted a in
      let (po, has_po, new_po, new_document) =
        identity_issues-clean draft facts customer
          (subst (λ m. IsClean (identity_issues draft facts m)) matches b) in
      let (ordered, delivery, has_date, past, has_delivery, later, after) =
        date_issues-clean draft context c in
      let (currency, has_currency, supported) = currency_issues-clean draft policy d in
      let (some_lines, orderable) =
        all_line_issues-clean draft pairs policy has_currency supported e in
      record {
        customer = customer;
        po = po;
        ordered = ordered;
        delivery = delivery;
        currency = currency;
        is_identified = identified;
        one_customer = one;
        is_active = active;
        has_po = has_po;
        is_new_po = new_po;
        is_new_document = new_document;
        has_order_date = has_date;
        not_in_future = past;
        has_delivery = has_delivery;
        not_in_past = later;
        not_before_order = after;
        has_currency = has_currency;
        currency_supported = supported;
        has_lines = some_lines;
        lines_orderable = orderable;
      }
