-- ===== src/Application/Routing.antt =====
-- Where `validate_order` of src/opsflow/application/validation.py routes an order.
use ops_flow_ai.Base.{
  ℕ, ◌≡◌, refl, sym, ap, ◌∙◌, ◌⊎◌, inl, inr, some, List, arith, ◌==◌, length, ok, domain_validation,
  invalid_trusted_data, guard, or_raise, >>=-eq-ok, Bool-cases,
}
use ops_flow_ai.Domain.State.{OrderState, extracted, validated, state_eq}
use ops_flow_ai.Domain.Records.{OrderLine}
use ops_flow_ai.Domain.Order.{
  Order, ValidatedOrderData, transition_to, promote_lines, promote_validated_data,
}
use ops_flow_ai.Domain.Lifecycle.{IsValid, moved, new_order-IsValid, transition_to_inv}
use ops_flow_ai.Validation.Models.{
  ValidationRoute, needs_review, ready_for_approval, ValidationResult,
}
use ops_flow_ai.Application.Validation.{route_to, routed_order, line_ids_from}

abbrev with_trusted : Order → ValidatedOrderData → List OrderLine → Order
with_trusted o d lines = record o {
  customer_reference = some d.customer_reference;
  po_number = some d.po_number;
  order_date = some d.order_date;
  requested_delivery_date = some d.requested_delivery_date;
  currency = some d.currency;
  lines = lines;
}

-- Promotion changes neither the identity, the documents nor the lifecycle.
promote_validated_data_inv :
    (o : Order) (d : ValidatedOrderData) (ids : List ℕ) {q : Order}
    → promote_validated_data o d ids ≡ ok q
    → (q.id ≡ o.id) × (q.source_documents ≡ o.source_documents) × (q.state ≡ o.state)
unfolding promote_validated_data
promote_validated_data_inv o d ids {q} h = elim (Bool-cases (state_eq o.state extracted)) [
  | inr e ↦ absurd (ground (arith, e))
  | inl e ↦
      let (_, counted, h1) =
        >>=-eq-ok (guard (length ids == length d.lines) domain_validation) _
          (rw (promote_validated_data, e) at h) in
      let (lines, made, h2) = >>=-eq-ok (promote_lines ids d.lines) _ h1 in
      let (same, valid) = new_order-IsValid (with_trusted o d lines) h2 in
      (ap (λ o. o.id) same, ap (λ o. o.source_documents) same, ap (λ o. o.state) same)
]

route_to_inv :
    (o : Order) (t : OrderState) {q : Order}
    → route_to o t ≡ ok q
    → (q ≡ moved (moved o validated) t) × IsValid q
unfolding route_to
route_to_inv o t h =
    let (v, first, rest) = >>=-eq-ok (transition_to o validated) _ h in
    let (a, _) = transition_to_inv o validated first in
    let (b, valid) = transition_to_inv v t rest in (b ∙ ap (λ o. moved o t) a, valid)

-- What a routed order keeps, and where it goes.
pub record IsRouted (o : Order) (result : ValidationResult) (q : Order) : Type 0 where
  pub same_id : q.id ≡ o.id
  pub same_documents : q.source_documents ≡ o.source_documents
  pub is_valid : IsValid q
  pub to_route :
      ((result.route ≡ ready_for_approval) × (q.state ≡ OrderState.ready_for_approval))
      ⊎ ((result.route ≡ needs_review) × (q.state ≡ OrderState.needs_review) × (q.lines ≡ o.lines))

ValidationRoute-cases : (r : ValidationRoute) → (r ≡ ready_for_approval) ⊎ (r ≡ needs_review)
ValidationRoute-cases ready_for_approval = inl refl
ValidationRoute-cases needs_review = inr refl

pub routed_order_inv :
    (o : Order) (result : ValidationResult) (line : ℕ) {q : Order}
    → routed_order o result line ≡ ok q
    → IsRouted o result q
unfolding routed_order
routed_order_inv o result line h = elim (ValidationRoute-cases result.route) [
  | inl ready ↦
      let (d, there, h1) =
        >>=-eq-ok (or_raise result.validated_order_data invalid_trusted_data) _
          (rw (routed_order, ready) at h) in
      let (p, promoted, h2) =
        >>=-eq-ok (promote_validated_data o d (line_ids_from line d.lines)) _ h1 in
      let (id, documents, state) =
        promote_validated_data_inv o d (line_ids_from line d.lines) promoted in
      let (same, valid) = route_to_inv p OrderState.ready_for_approval h2 in
      record {
        same_id = ap (λ o. o.id) same ∙ id;
        same_documents = ap (λ o. o.source_documents) same ∙ documents;
        is_valid = valid;
        to_route = inl (ready, ap (λ o. o.state) same);
      }
  | inr review ↦
      let (same, valid) = route_to_inv o OrderState.needs_review (sym (rw review refl) ∙ h) in
      record {
        same_id = ap (λ o. o.id) same;
        same_documents = ap (λ o. o.source_documents) same;
        is_valid = valid;
        to_route = inr (review, ap (λ o. o.state) same, ap (λ o. o.lines) same);
      }
]
