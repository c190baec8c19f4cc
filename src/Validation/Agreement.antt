-- ===== src/Validation/Agreement.antt =====
-- The preflight of an approved order agrees with `validate` (src/opsflow/validation/engine.py).
use ops_flow_ai.Base.{
  ℕ, ◌+◌, String, ◌≡◌, refl, sym, ◌∙◌, ◌⊎◌, true, Option, some, List, [], ◌∷◌, arith, length,
  str_eq, eq_iff, ok, Memᴰ,
}
use ops_flow_ai.Domain.State.{approved, syncing}
use ops_flow_ai.Domain.Order.{Order, ValidatedOrderLine, promoted_line}
use ops_flow_ai.Domain.Promotion.{zip_lines, promoted}
use ops_flow_ai.Validation.Draft.{ExtractedLine, ExtractionDraft}
use ops_flow_ai.Validation.Models.{
  TrustedProduct, TrustedCustomer, TrustedBusinessData, ValidationFacts, ValidationContext,
  ValidationPolicy,
}
use ops_flow_ai.Validation.Lines.{is_supported}
use ops_flow_ai.Validation.Clean.{IsOrderable, IsWithin-price_within_tolerance}
use ops_flow_ai.Validation.Acceptance.{AreOrderable, IsAcceptable}
use ops_flow_ai.Validation.OrderRules.{Memᴰ-any}
use ops_flow_ai.Validation.Trusted.{trusted_line, trusted_lines}
use ops_flow_ai.Validation.Inputs.{zip, paired, zip_strict_lem, length-zip}
use ops_flow_ai.Validation.Building.{trusted_data, length-trusted_lines}
use ops_flow_ai.Validation.Preflight.{
  customer_issues, matching, order_currency_issues, is_out_of_tolerance, product_issues,
  approved_line_issues, approved_lines_issues, approved_order_trusted_data_issues,
}

str_eq_refl : (s : String) → str_eq s s ≡ true
str_eq_refl s = (eq_iff s s).1 refl

module _ (policy : ValidationPolicy) (currency : String)
    (supported : Memᴰ currency policy.supported_currencies) where
  approved_line-clean :
      (index id : ℕ) (line : ExtractedLine) (found : Option TrustedProduct)
      (o : IsOrderable policy currency line found)
      → approved_line_issues policy
          (some currency)
          index
          (promoted_line id (trusted_line line o))
          found
        ≡ []
  unfolding approved_line_issues product_issues is_out_of_tolerance
  approved_line-clean index id line found o =
      let same = str_eq_refl o.product.sku in
      ground (
        arith,
        same,
        o.has_product,
        o.is_active,
        o.has_stock,
        o.is_available,
        o.has_catalogue,
        o.same_currency,
        eq_iff o.product.currency currency,
        IsWithin-price_within_tolerance o.submitted o.catalogue policy o.is_within,
        o.not_negative,
      )

  approved_lines-clean :
      (index : ℕ) (ids : List ℕ) (lines : List ExtractedLine)
      (products : List (Option TrustedProduct))
      (h : AreOrderable policy currency (zip lines products))
      → approved_lines_issues policy
          (some currency)
          index
          (zip (zip_lines ids (trusted_lines policy currency (zip lines products) h)) products)
        ≡ []
  unfolding approved_lines_issues
  approved_lines-clean index [] lines products h = refl
  approved_lines-clean index (i ∷ ids) [] products h = refl
  approved_lines-clean index (i ∷ ids) (l ∷ ls) [] h = refl
  approved_lines-clean index (i ∷ ids) (l ∷ ls) (p ∷ ps) h =
      rw
        (
          approved_lines_issues,
          approved_line-clean index i l p h.0,
          approved_lines-clean (index + 1) ids ls ps h.1,
        )
        refl

length-zip_lines :
    (ids : List ℕ) (ls : List ValidatedOrderLine)
    → length ids ≡ length ls
    → length (zip_lines ids ls) ≡ length ls
length-zip_lines [] [] e = refl
length-zip_lines [] (l ∷ ls) e = absurd (omega arith)
length-zip_lines (i ∷ ids) [] e = refl
length-zip_lines (i ∷ ids) (l ∷ ls) e = omega (arith, length-zip_lines ids ls (omega arith))

customer-clean :
    {cs : List TrustedCustomer} (c : TrustedCustomer)
    → cs ≡ c ∷ []
    → c.active ≡ true
    → customer_issues (some c.reference) cs ≡ []
unfolding customer_issues matching
customer-clean c e a = let same = str_eq_refl c.reference in ground (arith, e, a, same)

currency-clean :
    (policy : ValidationPolicy) (c : String)
    → Memᴰ c policy.supported_currencies
    → order_currency_issues policy (some c) ≡ []
unfolding order_currency_issues is_supported
currency-clean policy c m = let q = Memᴰ-any c policy.supported_currencies m in ground (arith, q)

-- An order that took the data of an acceptable draft and is APPROVED or SYNCING passes the preflight
-- against the same trusted data and policy: what approval was based on is never refused by the
-- synchronisation unless the trusted data or the policy have changed.
pub preflight-accepts :
    (draft : ExtractionDraft) (trusted : TrustedBusinessData) (facts : ValidationFacts)
    (policy : ValidationPolicy) (context : ValidationContext)
    (a : IsAcceptable draft (paired draft trusted) trusted facts policy context) (o : Order)
    (ids : List ℕ)
    → length trusted.products_by_line ≡ length draft.lines
    → length ids ≡ length draft.lines
    → (o.state ≡ approved) ⊎ (o.state ≡ syncing)
    → approved_order_trusted_data_issues (promoted o (trusted_data a) ids) trusted policy ≡ ok []
unfolding approved_order_trusted_data_issues
preflight-accepts draft trusted facts policy context a o ids e n s =
    let pairs = paired draft trusted in
    let m =
      length-trusted_lines policy a.currency pairs a.lines_orderable
      ∙ length-zip draft.lines trusted.products_by_line (sym e) in
    let k : length (promoted o (trusted_data a) ids).lines ≡ length draft.lines =
      length-zip_lines ids (trusted_data a).lines (n ∙ sym m) ∙ m in
    let z =
      zip_strict_lem (promoted o (trusted_data a) ids).lines trusted.products_by_line (k ∙ sym e) in
    let lines =
      approved_lines-clean policy a.currency a.currency_supported 0 ids draft.lines
        trusted.products_by_line a.lines_orderable in
    let c = customer-clean a.customer a.one_customer a.is_active in
    let u = currency-clean policy a.currency a.currency_supported in
    ground (arith, k, z, lines, c, u, e)
