-- ===== src/Domain/Order.antt =====
-- The `Order` aggregate of src/opsflow/domain/order.py. `dataclasses.replace` calls the constructor,
-- so each operation ends in `new_order`, the checks of `__post_init__`.
use ops_flow_ai.Base.{
  ℕ, String, Bool, true, not, ◌&&◌, ◌||◌, ltb, Option, none, some, List, [], ◌∷◌, leb, ◌==◌, codes,
  all, length, is_none, Result, ok, err, domain_validation, value_error, invalid_state_transition,
  ◌>>=◌, ◌>>◌, guard, if◌then◌else◌,
}
use ops_flow_ai.Decimal.{Decimal, is_below_zero, is_at_most_zero}
use ops_flow_ai.Domain.State.{
  OrderState, received, extracted, needs_review, rejected, failed_retryable, state_eq, is_in,
  normal_transitions, is_failure, is_failure_origin,
}
use ops_flow_ai.Domain.Records.{is_blank, is_non_blank, OrderLine, SourceDocument, new_line}

pub record Order : Type 0 where
  pub id : ℕ
  pub customer_reference : Option String
  pub po_number : Option String
  pub order_date : Option ℕ
  pub requested_delivery_date : Option ℕ
  pub currency : Option String
  pub lines : List OrderLine
  pub source_documents : List SourceDocument
  pub state : OrderState
  pub failure_origin : Option OrderState

-- re.fullmatch(r"[A-Z]{3}", currency)
unfoldable pub is_currency_code : String → Bool
is_currency_code s = length (codes s) == 3 && all (λ c. leb b'A' c && leb c b'Z') (codes s)

unfoldable pub currency_ok : Option String → Bool
currency_ok none = true
currency_ok (some c) = is_currency_code c

unfoldable pub origin_ok : OrderState → Option OrderState → Bool
origin_ok s origin = if is_failure s then is_failure_origin origin else is_none origin

-- `Order.__post_init__`
unfoldable pub new_order : Order → Result Order
unfolding origin_ok
new_order o = do
  guard (currency_ok o.currency) domain_validation
  guard (origin_ok o.state o.failure_origin) domain_validation
  ok o

-- `Order.received`
unfoldable pub received_order :
    ℕ
    → Option String
    → Option String
    → Option ℕ
    → Option ℕ
    → Option String
    → List OrderLine
    → List SourceDocument
    → Result Order
unfolding new_order
received_order id customer po date delivery currency lines documents = new_order (record {
  id = id;
  customer_reference = customer;
  po_number = po;
  order_date = date;
  requested_delivery_date = delivery;
  currency = currency;
  lines = lines;
  source_documents = documents;
  state = received;
  failure_origin = none;
})

unfoldable pub transition_to : Order → OrderState → Result Order
unfolding new_order normal_transitions
transition_to o target =
    if is_in target (normal_transitions o.state)
    then new_order (record o {
      state = target;
      failure_origin = if is_failure target then some o.state else none;
    })
    else err invalid_state_transition

unfoldable pub retry : Order → Result Order
unfolding new_order
retry o =
    if state_eq o.state failed_retryable
    then (do
      origin ← elim o.failure_origin [ none ↦ err invalid_state_transition | some s ↦ ok s ]
      new_order (record o { state = origin; failure_origin = none }))
    else err invalid_state_transition

unfoldable pub reopen : Order → Result Order
unfolding new_order
reopen o =
    if state_eq o.state rejected
    then new_order (record o { state = needs_review; failure_origin = none })
    else err invalid_state_transition

-- src/opsflow/validation/models.py
pub record ValidatedOrderLine : Type 0 where
  pub sku : String
  pub description : Option String
  pub quantity : Decimal
  pub submitted_price : Decimal
  pub trusted_catalogue_price : Decimal

pub record ValidatedOrderData : Type 0 where
  pub customer_reference : String
  pub po_number : String
  pub order_date : ℕ
  pub requested_delivery_date : ℕ
  pub currency : String
  pub lines : List ValidatedOrderLine

-- `ValidatedOrderLine.__post_init__`
unfoldable pub new_validated_line : ValidatedOrderLine → Result ValidatedOrderLine
new_validated_line l = do
  guard (not (is_blank l.sku)) value_error
  guard (is_none l.description || is_non_blank l.description) value_error
  guard (not (is_below_zero l.quantity)) value_error
  guard (not (is_at_most_zero l.quantity)) value_error
  guard (not (is_below_zero l.submitted_price)) value_error
  guard (not (is_below_zero l.trusted_catalogue_price)) value_error
  ok l

-- `ValidatedOrderData.__post_init__`; its lines are values that exist, so checked already.
unfoldable pub new_validated_data : ValidatedOrderData → Result ValidatedOrderData
unfolding is_currency_code
new_validated_data d = do
  guard (not (is_blank d.customer_reference)) value_error
  guard (not (is_blank d.po_number)) value_error
  guard (is_currency_code d.currency) value_error
  guard (ltb 0 (length d.lines)) value_error
  ok d

-- One order line of the generator in `promote_*_data`.
abbrev pub promoted_line : ℕ → ValidatedOrderLine → OrderLine
promoted_line line_id line = record {
  id = line_id;
  sku = some line.sku;
  description = line.description;
  quantity = line.quantity;
  submitted_price = some line.submitted_price;
  trusted_catalogue_price = some line.trusted_catalogue_price;
}

-- zip(line_ids, data.lines, strict=True)
unfoldable pub promote_lines : List ℕ → List ValidatedOrderLine → Result (List OrderLine)
unfolding new_line
promote_lines [] [] = ok []
promote_lines (i ∷ ids) (l ∷ ls) = do
  line ← new_line (promoted_line i l)
  rest ← promote_lines ids ls
  ok (line ∷ rest)
promote_lines _ _ = err domain_validation

-- The common body of `promote_validated_data` and `promote_reviewed_data`, which differ in the
-- state that they require.
promote_in : OrderState → Order → ValidatedOrderData → List ℕ → Result Order
unfolding promote_lines new_order
promote_in required o d line_ids =
    if state_eq o.state required
    then (do
      guard (length line_ids == length d.lines) domain_validation
      lines ← promote_lines line_ids d.lines
      new_order (record {
        id = o.id;
        customer_reference = some d.customer_reference;
        po_number = some d.po_number;
        order_date = some d.order_date;
        requested_delivery_date = some d.requested_delivery_date;
        currency = some d.currency;
        lines = lines;
        source_documents = o.source_documents;
        state = o.state;
        failure_origin = o.failure_origin;
      }))
    else err invalid_state_transition

unfoldable pub promote_validated_data : Order → ValidatedOrderData → List ℕ → Result Order
unfolding promote_in
promote_validated_data = promote_in extracted

unfoldable pub promote_reviewed_data : Order → ValidatedOrderData → List ℕ → Result Order
unfolding promote_in
promote_reviewed_data = promote_in needs_review
