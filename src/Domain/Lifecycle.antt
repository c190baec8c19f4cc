-- ===== src/Domain/Lifecycle.antt =====
-- The lifecycle operations of src/opsflow/domain/order.py on a well-formed order.
use ops_flow_ai.Base.{
  ◌≡◌, refl, ◌⊎◌, inl, inr, true, none, some, [], ◌∷◌, arith, Bool-cases, Option-cases, ok, err,
  invalid_state_transition, sym, ◌∙◌, if◌then◌else◌,
}
use ops_flow_ai.Domain.State.{
  OrderState, processing, extracted, syncing, completed, failed_retryable, failed_final, is_in,
  is_failure, normal_transitions,
}
use ops_flow_ai.Domain.Order.{
  Order, currency_ok, origin_ok, new_order, transition_to, retry, reopen,
}

-- What `Order.__post_init__` guarantees of an order that exists.
pub record IsValid (o : Order) : Type 0 where
  pub currency : currency_ok o.currency ≡ true
  pub origin : origin_ok o.state o.failure_origin ≡ true

-- The outcome of the constructor, in terms of the two checks.
pub new_order_ok : (o : Order) → IsValid o → new_order o ≡ ok o
unfolding new_order
new_order_ok o v = ground arith

pub new_order-IsValid : (o : Order) {p : Order} → new_order o ≡ ok p → (p ≡ o) × IsValid p
unfolding new_order
new_order-IsValid o h = elim (Bool-cases (currency_ok o.currency)) [
  | inr e ↦ cc
  | inl e ↦ elim (Bool-cases (origin_ok o.state o.failure_origin)) [
    | inr f ↦ cc
    | inl f ↦ (ground arith, ground arith)
  ]
]

abbrev pub moved : Order → OrderState → Order
moved o t = record o { state = t; failure_origin = if is_failure t then some o.state else none }

moved_origin :
    (s t : OrderState)
    → is_in t (normal_transitions s) ≡ true
    → origin_ok t (if is_failure t then some s else none) ≡ true
unfolding origin_ok normal_transitions
moved_origin s t h = ground arith

pub moved-IsValid :
    (o : Order) (t : OrderState)
    → IsValid o
    → is_in t (normal_transitions o.state) ≡ true
    → IsValid (moved o t)
moved-IsValid o t v e = record { currency = v.currency; origin = moved_origin o.state t e }

-- A transition that succeeded.
pub transition_to_inv :
    (o : Order) (t : OrderState) {q : Order}
    → transition_to o t ≡ ok q
    → (q ≡ moved o t) × IsValid q
unfolding transition_to
transition_to_inv o t h = elim (Bool-cases (is_in t (normal_transitions o.state))) [
  | inl e ↦ let (a, b) = new_order-IsValid (moved o t) (sym (rw e refl) ∙ h) in (a, b)
  | inr e ↦ absurd (ground (arith, e))
]

-- On a well-formed order, `transition_to` succeeds exactly for the targets that the table allows,
-- never by way of a failed constructor check: the new order differs in the state, and records the
-- old state as the origin exactly when the target is a failure.
pub transition_to-IsValid :
    (o : Order) (t : OrderState)
    → IsValid o
    → transition_to o t ≡ (
        if is_in t (normal_transitions o.state)
        then ok (moved o t)
        else err invalid_state_transition)
unfolding transition_to
transition_to-IsValid o t v = elim (Bool-cases (is_in t (normal_transitions o.state))) [
  | inl e ↦ rw (e, transition_to) (new_order_ok (moved o t) (moved-IsValid o t v e))
  | inr e ↦ rw (e, transition_to)
]

pub transition_to_keeps :
    (o : Order) (t : OrderState) {p : Order} → transition_to o t ≡ ok p → IsValid p
unfolding transition_to
transition_to_keeps o t h = ground arith

pub retry_keeps : (o : Order) {p : Order} → retry o ≡ ok p → IsValid p
unfolding retry
retry_keeps o h = ground arith

pub reopen_keeps : (o : Order) {p : Order} → reopen o ≡ ok p → IsValid p
unfolding reopen
reopen_keeps o h = ground arith

-- `retry` undoes a retryable failure: whatever well-formed order failed, the retried order is the
-- one that failed.
pub retry-transition_to :
    (o : Order) {p : Order} → IsValid o → transition_to o failed_retryable ≡ ok p → retry p ≡ ok o
unfolding transition_to retry
retry-transition_to o v h = ground arith

-- On a well-formed order in FAILED_RETRYABLE, `retry` succeeds and restores the recorded origin, one
-- of PROCESSING, EXTRACTED and SYNCING, with everything else as it was.
pub retry-IsValid :
    (o : Order)
    → IsValid o
    → o.state ≡ failed_retryable
    → (s : OrderState) × (o.failure_origin ≡ some s)
      × (is_in s (processing ∷ extracted ∷ syncing ∷ []) ≡ true)
      × (retry o ≡ ok (record o { state = s; failure_origin = none }))
unfolding retry
retry-IsValid o v e = elim (Option-cases o.failure_origin) [
  | inl absent ↦ absurd (ground arith)
  | inr (s, present) ↦ (s, present, ground arith, ground arith)
]

-- COMPLETED and FAILED_FINAL are final: no lifecycle operation succeeds on an order in them.
pub final_states :
    (o : Order) (t : OrderState)
    → (o.state ≡ completed) ⊎ (o.state ≡ failed_final)
    → (transition_to o t ≡ err invalid_state_transition)
      × (retry o ≡ err invalid_state_transition)
      × (reopen o ≡ err invalid_state_transition)
unfolding transition_to retry reopen
final_states o t h = (ground arith, ground arith, ground arith)
