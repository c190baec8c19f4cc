-- ===== src/Validation/Clean.antt =====
-- Lists of issues without an error (src/opsflow/validation/engine.py), and what it takes for the
-- rules on one line to add none.
use ops_flow_ai.Base.{
  ℕ, String, ◌≡◌, inl, inr, Bool, true, false, Option, none, some, List, ◌++◌, arith, any-append,
  eq_iff, Option-cases, is_none, if◌then◌else◌,
}
use ops_flow_ai.Decimal.{
  Decimal, dec_leb, dec_mul, dec_sub, dec_abs, is_below_zero, is_at_most_zero,
}
use ops_flow_ai.Domain.Records.{ValidationIssue, IssueField}
use ops_flow_ai.Validation.Draft.{ExtractedLine}
use ops_flow_ai.Validation.Models.{TrustedProduct, ValidationPolicy, is_error, has_error}
use ops_flow_ai.Validation.Lines.{
  issue_if, price_within_tolerance, outside_tolerance, sku_issues, quantity_issues, price_issues,
  catalogue_issues, line_issues,
}

-- No issue of the list is an error.
unfoldable pub IsClean : List ValidationIssue → Type 0
unfolding has_error
IsClean issues = has_error issues ≡ false

pub IsClean-append : (xs ys : List ValidationIssue) → IsClean xs → IsClean ys → IsClean (xs ++ ys)
unfolding IsClean has_error
IsClean-append xs ys h k = ground (arith, any-append is_error xs ys)

pub IsClean-parts : (xs ys : List ValidationIssue) → IsClean (xs ++ ys) → IsClean xs × IsClean ys
unfolding IsClean has_error
IsClean-parts xs ys h = ground (arith, any-append is_error xs ys)

pub issue_if-IsClean :
    (b : Bool) (code : String) (place : IssueField) → b ≡ false → IsClean (issue_if b code place)
unfolding IsClean has_error
issue_if-IsClean b code place h = ground arith

pub issue_if-clean :
    (b : Bool) (code : String) (place : IssueField) → IsClean (issue_if b code place) → b ≡ false
unfolding IsClean has_error
issue_if-clean b code place h = ground arith

-- The price differs from the catalogue price by at most that fraction of it, in Decimal arithmetic.
abbrev pub IsWithin : Decimal → Decimal → Decimal → Type 0
IsWithin fraction catalogue price =
    dec_leb (dec_abs (dec_sub price catalogue)) (dec_mul (dec_abs catalogue) fraction) ≡ true

pub price_within_tolerance-IsWithin :
    (price catalogue : Decimal) (policy : ValidationPolicy)
    → price_within_tolerance price catalogue policy ≡ true
    → IsWithin policy.price_tolerance_fraction catalogue price
unfolding price_within_tolerance
price_within_tolerance-IsWithin price catalogue policy h = h

pub IsWithin-price_within_tolerance :
    (price catalogue : Decimal) (policy : ValidationPolicy)
    → IsWithin policy.price_tolerance_fraction catalogue price
    → price_within_tolerance price catalogue policy ≡ true
unfolding price_within_tolerance
IsWithin-price_within_tolerance price catalogue policy h = h

-- A line in `currency` that matches an active product in that currency, asks for a positive quantity
-- that is in stock, at a price that is not negative and within the tolerance.
pub record IsOrderable (policy : ValidationPolicy) (currency : String) (line : ExtractedLine)
    (looked_up : Option TrustedProduct) : Type 0 where
  pub sku : String
  pub product : TrustedProduct
  pub quantity : Decimal
  pub available : Decimal
  pub submitted : Decimal
  pub catalogue : Decimal
  pub has_sku : line.sku ≡ some sku
  pub has_product : looked_up ≡ some product
  pub is_active : product.active ≡ true
  pub has_quantity : line.quantity ≡ some quantity
  pub is_positive : is_at_most_zero quantity ≡ false
  pub has_stock : product.available_quantity ≡ some available
  pub is_available : dec_leb quantity available ≡ true
  pub has_price : line.submitted_price ≡ some submitted
  pub not_negative : is_below_zero submitted ≡ false
  pub has_catalogue : product.catalogue_price ≡ some catalogue
  pub same_currency : product.currency ≡ currency
  pub is_within : IsWithin policy.price_tolerance_fraction catalogue submitted

module _ (index : ℕ) (line : ExtractedLine) (product : Option TrustedProduct) where
  sku_issues-clean :
      IsClean (sku_issues index line product)
      → (s : String) × (p : TrustedProduct) × (line.sku ≡ some s)
        × (product ≡ some p)
        × (p.active ≡ true)
  unfolding IsClean has_error sku_issues
  sku_issues-clean c = elim (Option-cases line.sku) [
    | inl e ↦ absurd (ground (arith, e))
    | inr (s, e) ↦ elim (Option-cases product) [
      | inl q ↦ absurd (ground (arith, e, q))
      | inr (p, q) ↦ (s, p, e, q, ground (arith, e, q))
    ]
  ]

  quantity_issues-clean :
      {p : TrustedProduct}
      → product ≡ some p
      → IsClean (quantity_issues index line product)
      → (q : Decimal) × (a : Decimal) × (line.quantity ≡ some q)
        × (is_at_most_zero q ≡ false)
        × (p.available_quantity ≡ some a)
        × (dec_leb q a ≡ true)
  unfolding IsClean has_error quantity_issues
  quantity_issues-clean {p} h c = elim (Option-cases line.quantity) [
    | inl e ↦ absurd (ground (arith, e))
    | inr (q, e) ↦ elim (Option-cases p.available_quantity) [
      | inl k ↦ absurd (ground (arith, e, h, k))
      | inr (a, k) ↦ (q, a, e, ground (arith, e, h, k), k, ground (arith, e, h, k))
    ]
  ]

  price_issues-clean :
      IsClean (price_issues index line)
      → (s : Decimal) × (line.submitted_price ≡ some s) × (is_below_zero s ≡ false)
  unfolding IsClean has_error price_issues
  price_issues-clean c = elim (Option-cases line.submitted_price) [
    | inl e ↦ absurd (ground (arith, e))
    | inr (s, e) ↦ (s, e, ground (arith, e))
  ]

  catalogue_issues-clean :
      (policy : ValidationPolicy) (currency : String) {p : TrustedProduct} {s : Decimal}
      → product ≡ some p
      → line.submitted_price ≡ some s
      → is_below_zero s ≡ false
      → IsClean (catalogue_issues policy (some currency) index line product)
      → (c : Decimal) × (p.catalogue_price ≡ some c)
        × (p.currency ≡ currency)
        × (price_within_tolerance s c policy ≡ true)
  unfolding IsClean has_error catalogue_issues outside_tolerance
  catalogue_issues-clean policy currency {p} h e n clean = elim (Option-cases p.catalogue_price) [
    | inl k ↦ absurd (ground (arith, e, h, k))
    | inr (c, k) ↦
        let same : p.currency ≡ currency = ground (arith, h, k, eq_iff p.currency currency) in
        (c, k, same, ground (arith, e, h, k, n, eq_iff p.currency currency, same))
  ]

module _ (policy : ValidationPolicy) (currency : String) (index : ℕ) (line : ExtractedLine)
    (looked_up : Option TrustedProduct) where
  pub line_issues-IsClean :
      IsOrderable policy currency line looked_up
      → IsClean (line_issues policy (some currency) index line looked_up)
  unfolding IsClean has_error line_issues sku_issues quantity_issues price_issues catalogue_issues
      outside_tolerance
  line_issues-IsClean o = ground (
    arith,
    o.has_sku,
    o.has_product,
    o.is_active,
    o.has_quantity,
    o.is_positive,
    o.has_stock,
    o.is_available,
    o.has_price,
    o.not_negative,
    o.has_catalogue,
    eq_iff o.product.currency currency,
    o.same_currency,
    IsWithin-price_within_tolerance o.submitted o.catalogue policy o.is_within,
  )

  pub line_issues-clean :
      IsClean (line_issues policy (some currency) index line looked_up)
      → IsOrderable policy currency line looked_up
  unfolding line_issues
  line_issues-clean clean =
      let product = (if is_none line.sku then none else looked_up) in
      let two = sku_issues index line product ++ quantity_issues index line product in
      let (abc, d) =
        IsClean-parts (two ++ price_issues index line)
          (catalogue_issues policy (some currency) index line product) clean in
      let (ab, c) = IsClean-parts two (price_issues index line) abc in
      let (a, b) =
        IsClean-parts (sku_issues index line product) (quantity_issues index line product) ab in
      let (sku, p, has_sku, found, active) = sku_issues-clean index line product a in
      let (q, stock, has_quantity, positive, has_stock, available) =
        quantity_issues-clean index line product found b in
      let (s, has_price, not_negative) = price_issues-clean index line product c in
      let (cat, has_catalogue, same, within) =
        catalogue_issues-clean index line product policy currency found has_price not_negative d in
      record {
        sku = sku;
        product = p;
        quantity = q;
        available = stock;
        submitted = s;
        catalogue = cat;
        has_sku = has_sku;
        has_product = ground (arith, found, has_sku);
        is_active = active;
        has_quantity = has_quantity;
        is_positive = positive;
        has_stock = has_stock;
        is_available = available;
        has_price = has_price;
        not_negative = not_negative;
        has_catalogue = has_catalogue;
        same_currency = same;
        is_within = price_within_tolerance-IsWithin s cat policy within;
      }
