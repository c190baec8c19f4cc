-- ===== src/Validation/Trusted.antt =====
-- The trusted data that `_build_validated_data` of src/opsflow/validation/engine.py makes of an
-- acceptable order.
use ops_flow_ai.Base.{
  String, ◌≡◌, refl, true, false, Option, none, some, List, [], ◌∷◌, arith, All, eq_iff, ok,
}
use ops_flow_ai.Decimal.{Decimal, is_below_zero}
use ops_flow_ai.Decimal.Sign.{IsNonNegative-not_below, positive-IsNonNegative}
use ops_flow_ai.Domain.Records.{is_blank}
use ops_flow_ai.Domain.Order.{ValidatedOrderLine, new_validated_line}
use ops_flow_ai.Domain.Promotion.{IsTrusted}
use ops_flow_ai.Validation.Draft.{ExtractedLine}
use ops_flow_ai.Validation.Models.{
  TrustedProduct, ValidationPolicy, new_product, optional_string_ok, optional_decimal_ok,
}
use ops_flow_ai.Validation.Build.{text_or, draft_line, line_of, build_lines}
use ops_flow_ai.Validation.Clean.{IsOrderable}
use ops_flow_ai.Validation.Acceptance.{Pairs, AreOrderable}

-- A product that exists has passed its constructor, and the line's description is not blank.
abbrev pub IsUsable : ExtractedLine × Option TrustedProduct → Type 0
IsUsable pair =
    (optional_string_ok pair.0.description ≡ true)
    × ((p : TrustedProduct) → pair.1 ≡ some p → new_product p ≡ ok p)

abbrev pub trusted_line :
    {policy : ValidationPolicy} {currency : String} (line : ExtractedLine)
    {found : Option TrustedProduct}
    → IsOrderable policy currency line found
    → ValidatedOrderLine
trusted_line line o = record {
  sku = o.product.sku;
  description = text_or o.product.description line.description;
  quantity = o.quantity;
  submitted_price = o.submitted;
  trusted_catalogue_price = o.catalogue;
}

abbrev pub trusted_lines :
    (policy : ValidationPolicy) (currency : String) (pairs : Pairs)
    → AreOrderable policy currency pairs
    → List ValidatedOrderLine
trusted_lines policy currency [] h = []
trusted_lines policy currency (pair ∷ pairs) h =
    trusted_line pair.0 h.0 ∷ trusted_lines policy currency pairs h.1

text_or-ok :
    (a b : Option String)
    → optional_string_ok a ≡ true
    → optional_string_ok b ≡ true
    → optional_string_ok (text_or a b) ≡ true
unfolding text_or
text_or-ok none b h k = k
text_or-ok (some String.[]) b h k = k
text_or-ok (some (String.◌∷◌ c s)) b h k = h

product_facts :
    (p : TrustedProduct)
    → new_product p ≡ ok p
    → (is_blank p.sku ≡ false)
      × (optional_string_ok p.description ≡ true)
      × (optional_decimal_ok p.catalogue_price ≡ true)
unfolding new_product
product_facts p h = ground arith

price_fact :
    {price : Option Decimal} {d : Decimal}
    → price ≡ some d
    → optional_decimal_ok price ≡ true
    → is_below_zero d ≡ false
unfolding optional_decimal_ok
price_fact e h = ground arith

module _ (policy : ValidationPolicy) (currency : String) where
  line_of-trusted :
      (line : ExtractedLine) (found : Option TrustedProduct)
      (o : IsOrderable policy currency line found)
      → line_of currency (line, found) ≡ some (trusted_line line o)
  unfolding line_of draft_line
  line_of-trusted line found o = ground (
    arith,
    o.has_sku,
    o.has_product,
    o.is_active,
    o.has_quantity,
    o.is_positive,
    o.has_stock,
    o.is_available,
    o.has_price,
    o.not_negative,
    o.has_catalogue,
    eq_iff o.product.currency currency,
    o.same_currency,
  )

  trusted_line-IsTrusted :
      (line : ExtractedLine) (found : Option TrustedProduct)
      (o : IsOrderable policy currency line found)
      → IsUsable (line, found)
      → IsTrusted (trusted_line line o)
  unfolding new_validated_line optional_string_ok
  trusted_line-IsTrusted line found o u =
      let (sku_there, described, priced) = product_facts o.product (u.1 o.product o.has_product) in
      let text = text_or-ok o.product.description line.description described u.0 in
      let above =
        IsNonNegative-not_below o.quantity (positive-IsNonNegative o.quantity o.is_positive) in
      let catalogue = price_fact o.has_catalogue priced in
      ground (arith, sku_there, text, above, catalogue, o.is_positive, o.not_negative)

  pub build_lines-IsTrusted :
      (pairs : Pairs) (h : AreOrderable policy currency pairs)
      → All IsUsable pairs
      → (build_lines currency pairs ≡ ok (some (trusted_lines policy currency pairs h)))
        × All IsTrusted (trusted_lines policy currency pairs h)
  unfolding build_lines
  build_lines-IsTrusted [] h u = (refl, tt)
  build_lines-IsTrusted ((line, found) ∷ pairs) h u =
      let (rest, all_trusted) = build_lines-IsTrusted pairs h.1 u.1 in
      let first = trusted_line-IsTrusted line found h.0 u.0 in
      (rw (build_lines, line_of-trusted line found h.0, first, rest), (first, all_trusted))
