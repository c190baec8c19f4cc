-- ===== src/Validation/Building.antt =====
-- The trusted data of an acceptable order (src/opsflow/validation/engine.py) passes its constructors,
-- and `_build_validated_data` returns it.
use ops_flow_ai.Base.{
  subst, String, ℕ, ◌<◌, ◌≡◌, refl, sym, ◌∙◌, true, false, Option, some, List, [], ◌∷◌, arith, All,
  length, ok,
}
use ops_flow_ai.Domain.Records.{is_blank}
use ops_flow_ai.Domain.Order.{ValidatedOrderData, new_validated_data}
use ops_flow_ai.Domain.Promotion.{IsTrusted}
use ops_flow_ai.Validation.Draft.{ExtractionDraft}
use ops_flow_ai.Validation.Models.{
  TrustedCustomer, TrustedBusinessData, ValidationFacts, ValidationContext, ValidationPolicy,
  new_customer, optional_string_ok,
}
use ops_flow_ai.Validation.Build.{build_from, build_fields, build_validated_data}
use ops_flow_ai.Validation.Engine.{append_customer_issues}
use ops_flow_ai.Validation.Acceptance.{Pairs, AreOrderable, IsAcceptable}
use ops_flow_ai.Validation.OrderRules.{append_customer_issues-some}
use ops_flow_ai.Validation.Trusted.{trusted_lines, build_lines-IsTrusted}
use ops_flow_ai.Validation.Inputs.{
  paired, AreChecked, length-zip, paired-IsUsable, supported-is_currency_code,
}

customer_fact :
    {cs : List TrustedCustomer} (c : TrustedCustomer)
    → cs ≡ c ∷ []
    → All (λ c. new_customer c ≡ ok c) cs
    → is_blank c.reference ≡ false
unfolding new_customer
customer_fact c e h = let k = subst (All λ c. new_customer c ≡ ok c) e h in ground (arith, k.0)

po_fact :
    {po : Option String} {s : String}
    → po ≡ some s
    → optional_string_ok po ≡ true
    → is_blank s ≡ false
unfolding optional_string_ok
po_fact e h = ground arith

module _ {draft : ExtractionDraft} {trusted : TrustedBusinessData} {facts : ValidationFacts}
    {policy : ValidationPolicy} {context : ValidationContext} where
  -- The trusted data of an acceptable order.
  abbrev pub trusted_data :
      IsAcceptable draft (paired draft trusted) trusted facts policy context → ValidatedOrderData
  trusted_data a = record {
    customer_reference = a.customer.reference;
    po_number = a.po;
    order_date = a.ordered;
    requested_delivery_date = a.delivery;
    currency = a.currency;
    lines = trusted_lines policy a.currency (paired draft trusted) a.lines_orderable;
  }

pub length-trusted_lines :
    (policy : ValidationPolicy) (currency : String) (pairs : Pairs)
    (h : AreOrderable policy currency pairs)
    → length (trusted_lines policy currency pairs h) ≡ length pairs
length-trusted_lines policy currency [] h = refl
length-trusted_lines policy currency (pair ∷ pairs) h =
    omega (arith, length-trusted_lines policy currency pairs h.1)

build_from-some :
    (c : TrustedCustomer) (po : String) (date delivery : ℕ) (currency : String) (lines : List _)
    → 0 < length lines
    → let d : ValidatedOrderData = record {
      customer_reference = c.reference;
      po_number = po;
      order_date = date;
      requested_delivery_date = delivery;
      currency = currency;
      lines = lines;
    } in
      new_validated_data d ≡ ok d
      → build_from c po date delivery currency (some lines) ≡ ok (some d)
unfolding build_from
build_from-some c po date delivery currency [] h e = absurd (omega arith)
build_from-some c po date delivery currency (l ∷ ls) h e = rw e refl

module _ {draft : ExtractionDraft} {trusted : TrustedBusinessData} {facts : ValidationFacts}
    {policy : ValidationPolicy} {context : ValidationContext} (h : AreChecked draft trusted policy)
    (e : length trusted.products_by_line ≡ length draft.lines) where
  module _ (a : IsAcceptable draft (paired draft trusted) trusted facts policy context) where
    pub length-trusted_data : length (trusted_data a).lines ≡ length draft.lines
    length-trusted_data =
        length-trusted_lines policy a.currency (paired draft trusted) a.lines_orderable
        ∙ length-zip draft.lines trusted.products_by_line (sym e)

    pub trusted_data-checked : new_validated_data (trusted_data a) ≡ ok (trusted_data a)
    unfolding new_validated_data
    trusted_data-checked =
        let n = length-trusted_data in
        let p = a.has_lines in
        let q = customer_fact a.customer a.one_customer h.customers in
        let r = po_fact a.has_po h.po_text in
        let s =
          supported-is_currency_code policy a.currency h.policy_checked a.currency_supported in
        ground (arith, n, p, q, r, s)

    pub trusted_data-IsTrusted : All IsTrusted (trusted_data a).lines
    trusted_data-IsTrusted =
        (build_lines-IsTrusted policy a.currency (paired draft trusted) a.lines_orderable
          (paired-IsUsable h)).1

    pub build_validated_data-trusted :
        build_validated_data draft (paired draft trusted) (append_customer_issues draft trusted).1
        ≡ ok (some (trusted_data a))
    unfolding build_validated_data build_fields
    build_validated_data-trusted =
        let m =
          append_customer_issues-some draft trusted a.customer a.is_identified a.one_customer
            a.is_active in
        let lines =
          (build_lines-IsTrusted policy a.currency (paired draft trusted) a.lines_orderable
            (paired-IsUsable h)).0 in
        rw (build_fields, m, a.has_po, a.has_order_date, a.has_delivery, a.has_currency, lines)
          (build_from-some a.customer a.po a.ordered a.delivery a.currency (trusted_data a).lines
            (omega (arith, length-trusted_data, a.has_lines)) trusted_data-checked)
