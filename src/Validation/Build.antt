-- ===== src/Validation/Build.antt =====
-- `_build_validated_data` of src/opsflow/validation/engine.py: the trusted data of an order without
-- errors, over the lines paired with their products.
use ops_flow_ai.Base.{
  ℕ, String, not, ◌||◌, Option, none, some, List, [], ◌∷◌, is_none, str_eq, Result, ok, err,
  value_error, ◌>>=◌, if◌then◌else◌,
}
use ops_flow_ai.Decimal.{Decimal, dec_ltb, is_below_zero, is_at_most_zero}
use ops_flow_ai.Domain.Order.{
  ValidatedOrderLine, ValidatedOrderData, new_validated_line, new_validated_data,
}
use ops_flow_ai.Validation.Draft.{ExtractedLine, ExtractionDraft}
use ops_flow_ai.Validation.Models.{TrustedCustomer, TrustedProduct}

-- a or b, on texts that may be None
unfoldable pub text_or : Option String → Option String → Option String
text_or none b = b
text_or (some String.[]) b = b
text_or (some a) b = some a

-- One line of `_build_validated_data` before its constructor; `none` where the function returns None.
unfoldable pub draft_line :
    String
    → ExtractedLine
    → TrustedProduct
    → Option Decimal
    → Option Decimal
    → Option Decimal
    → Option Decimal
    → Option ValidatedOrderLine
unfolding text_or
draft_line currency line p (some q) (some s) (some c) (some a) =
    if not p.active
      || is_at_most_zero q
      || is_below_zero s
      || dec_ltb a q
      || not (str_eq p.currency currency)
    then none
    else some (record {
      sku = p.sku;
      description = text_or p.description line.description;
      quantity = q;
      submitted_price = s;
      trusted_catalogue_price = c;
    })
draft_line currency line p _ _ _ _ = none

unfoldable pub line_of : String → ExtractedLine × Option TrustedProduct → Option ValidatedOrderLine
unfolding draft_line
line_of currency (line, none) = none
line_of currency (line, some p) =
    if is_none line.sku
    then none
    else draft_line currency line p line.quantity line.submitted_price p.catalogue_price
        p.available_quantity

-- The loop of `_build_validated_data`
unfoldable pub build_lines :
    String
    → List (ExtractedLine × Option TrustedProduct)
    → Result (Option (List ValidatedOrderLine))
unfolding line_of new_validated_line
build_lines currency [] = ok (some [])
build_lines currency (pair ∷ pairs) = elim (line_of currency pair) [
  | none ↦ ok none
  | some l ↦ do
    line ← new_validated_line l
    rest ← build_lines currency pairs
    ok (elim rest [ none ↦ none | some ls ↦ some (line ∷ ls) ])
]

-- The end of `_build_validated_data`, with the values that are not None.
unfoldable pub build_from :
    TrustedCustomer
    → String
    → ℕ
    → ℕ
    → String
    → Option (List ValidatedOrderLine)
    → Result (Option ValidatedOrderData)
unfolding new_validated_data
build_from customer po date delivery currency none = ok none
build_from customer po date delivery currency (some []) = ok none
build_from customer po date delivery currency (some lines) = do
  built ← new_validated_data (record {
    customer_reference = customer.reference;
    po_number = po;
    order_date = date;
    requested_delivery_date = delivery;
    currency = currency;
    lines = lines;
  })
  ok (some built)

unfoldable pub build_fields :
    List (ExtractedLine × Option TrustedProduct)
    → Option TrustedCustomer
    → Option String
    → Option ℕ
    → Option ℕ
    → Option String
    → Result (Option ValidatedOrderData)
unfolding build_lines build_from
build_fields pairs (some customer) (some po) (some date) (some delivery) (some currency) = do
  lines ← build_lines currency pairs
  build_from customer po date delivery currency lines
build_fields pairs _ _ _ _ _ = ok none

-- `_build_validated_data`
unfoldable pub build_validated_data :
    ExtractionDraft
    → List (ExtractedLine × Option TrustedProduct)
    → Option TrustedCustomer
    → Result (Option ValidatedOrderData)
unfolding build_fields
build_validated_data draft pairs customer =
    build_fields pairs customer draft.po_number draft.order_date draft.requested_delivery_date
      draft.currency

-- zip(a, b, strict=True), and the indexing of `b` by the index in `a` once the lengths agree.
unfoldable pub zip_strict {ℓ κ} :
    {A : Type ℓ} {B : Type κ} → List A → List B → Result (List (A × B))
zip_strict [] [] = ok []
zip_strict (x ∷ xs) (y ∷ ys) = do pairs ← zip_strict xs ys; ok ((x, y) ∷ pairs)
zip_strict _ _ = err value_error
