-- ===== src/Domain/Promotion.antt =====
-- Promotion of validated data into the order, src/opsflow/domain/order.py.
use ops_flow_ai.Base.{
  ℕ, ◌≡◌, refl, false, some, List, [], ◌∷◌, arith, ◌==◌, length, All, ok, err, domain_validation,
}
use ops_flow_ai.Domain.State.{extracted}
use ops_flow_ai.Domain.Records.{OrderLine, new_line}
use ops_flow_ai.Domain.Order.{
  Order, currency_ok, ValidatedOrderLine, ValidatedOrderData, new_validated_line,
  new_validated_data, promoted_line, promote_lines, promote_validated_data,
}
use ops_flow_ai.Domain.Lifecycle.{IsValid}

-- A trusted line that exists has passed its constructor.
abbrev pub IsTrusted : ValidatedOrderLine → Type 0
IsTrusted l = new_validated_line l ≡ ok l

new_line-promoted_line :
    (i : ℕ) (l : ValidatedOrderLine)
    → IsTrusted l
    → new_line (promoted_line i l) ≡ ok (promoted_line i l)
unfolding new_validated_line new_line
new_line-promoted_line i l h = ground arith

abbrev pub zip_lines : List ℕ → List ValidatedOrderLine → List OrderLine
zip_lines (i ∷ ids) (l ∷ ls) = promoted_line i l ∷ zip_lines ids ls
zip_lines _ _ = []

promote_lines_ok :
    (ids : List ℕ) (ls : List ValidatedOrderLine)
    → All IsTrusted ls
    → length ids ≡ length ls
    → promote_lines ids ls ≡ ok (zip_lines ids ls)
unfolding promote_lines
promote_lines_ok [] [] h e = refl
promote_lines_ok [] (l ∷ ls) h e = absurd (omega arith)
promote_lines_ok (i ∷ ids) [] h e = absurd (omega arith)
promote_lines_ok (i ∷ ids) (l ∷ ls) h e =
    rw (new_line-promoted_line i l h.0, promote_lines_ok ids ls h.1 (omega arith))

-- The order with the trusted data, its identity, documents and lifecycle kept.
abbrev pub promoted : Order → ValidatedOrderData → List ℕ → Order
promoted o d ids = record o {
  customer_reference = some d.customer_reference;
  po_number = some d.po_number;
  order_date = some d.order_date;
  requested_delivery_date = some d.requested_delivery_date;
  currency = some d.currency;
  lines = zip_lines ids d.lines;
}

promoted-IsValid :
    (o : Order) (d : ValidatedOrderData) (ids : List ℕ)
    → IsValid o
    → new_validated_data d ≡ ok d
    → IsValid (promoted o d ids)
unfolding currency_ok new_validated_data
promoted-IsValid o d ids v h = record { currency = ground arith; origin = v.origin }

-- On a well-formed order in EXTRACTED and trusted data, `promote_validated_data` succeeds for as
-- many line ids as the data has lines: the order takes the data, one line for each trusted line, in
-- order and under its id, and keeps its identity, source documents, state and failure origin. For
-- any other number of ids it raises a domain error.
pub promote_validated_data_lem :
    (o : Order) (d : ValidatedOrderData) (ids : List ℕ)
    → IsValid o
    → o.state ≡ extracted
    → new_validated_data d ≡ ok d
    → All IsTrusted d.lines
    → (length ids ≡ length d.lines → promote_validated_data o d ids ≡ ok (promoted o d ids))
      × ((length ids == length d.lines) ≡ false
          → promote_validated_data o d ids ≡ err domain_validation)
unfolding promote_validated_data
promote_validated_data_lem o d ids v e h t =
    let w = promoted-IsValid o d ids v h in
    (λ p. ground (arith, promote_lines_ok ids d.lines t p, w.currency, w.origin), λ p. ground arith)
