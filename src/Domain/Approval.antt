-- ===== src/Domain/Approval.antt =====
-- Sequences of attempted lifecycle calls, whoever makes them, in whatever order.
use ops_flow_ai.Base.{
  ◌≡◌, refl, ap, inl, inr, Bool, true, false, Option, some, List, [], ◌∷◌, ◌++◌, arith, Result, ok,
  err, Bool-cases,
}
use ops_flow_ai.Domain.State.{
  OrderState, ready_for_approval, approved, syncing, completed, failed_retryable, failed_final,
}
use ops_flow_ai.Domain.Order.{Order, origin_ok, transition_to, retry, reopen}
use ops_flow_ai.Domain.Lifecycle.{IsValid, transition_to_keeps, retry_keeps, reopen_keeps}

pub data Command : Type 0 where
  move : OrderState → Command
  retry_failed reopen_rejected : Command

unfoldable pub attempt : Command → Order → Result Order
unfolding transition_to retry reopen
attempt (move t) o = transition_to o t
attempt retry_failed o = retry o
attempt reopen_rejected o = reopen o

-- A call that raises leaves the order as it was.
abbrev settle : Result Order → Order → Order
settle (ok p) o = p
settle (err e) o = o

unfoldable pub run : Order → List Command → Order
run o [] = o
run o (c ∷ cs) = run (settle (attempt c o) o) cs

-- The order has been approved: it is in APPROVED, SYNCING or COMPLETED, or failed while syncing.
abbrev pub past_approval : OrderState → Option OrderState → Bool
past_approval approved _ = true
past_approval syncing _ = true
past_approval completed _ = true
past_approval failed_retryable (some syncing) = true
past_approval failed_final (some syncing) = true
past_approval _ _ = false

abbrev pub is_past_approval : Order → Bool
is_past_approval o = past_approval o.state o.failure_origin

settle_keeps :
    (r : Result Order) (o : Order)
    → ((p : Order) → r ≡ ok p → IsValid p)
    → IsValid o
    → IsValid (settle r o)
settle_keeps (ok p) o k v = k p refl
settle_keeps (err e) o k v = v

settle-IsValid : (c : Command) (o : Order) → IsValid o → IsValid (settle (attempt c o) o)
unfolding attempt
settle-IsValid (move t) o v =
    settle_keeps (transition_to o t) o (λ p h. transition_to_keeps o t h) v
settle-IsValid retry_failed o v = settle_keeps (retry o) o (λ p h. retry_keeps o h) v
settle-IsValid reopen_rejected o v = settle_keeps (reopen o) o (λ p h. reopen_keeps o h) v

-- One attempt passes approval only as the move of an order in READY_FOR_APPROVAL to APPROVED.
attempt_approves :
    (c : Command) (o : Order)
    → IsValid o
    → is_past_approval o ≡ false
    → is_past_approval (settle (attempt c o) o) ≡ true
    → (c ≡ move approved) × (o.state ≡ ready_for_approval)
unfolding attempt origin_ok
attempt_approves (move t) o v h k = ground arith
attempt_approves retry_failed o v h k = ground arith
attempt_approves reopen_rejected o v h k = ground arith

-- However the lifecycle calls are made, a well-formed order that was not past approval and ends past it
-- (APPROVED, SYNCING, COMPLETED, or failed while syncing) was, at some point of the sequence, in
-- READY_FOR_APPROVAL and moved from there to APPROVED.
pub approval_required :
    (o : Order) (cs : List Command)
    → IsValid o
    → is_past_approval o ≡ false
    → is_past_approval (run o cs) ≡ true
    → (before after : List Command) × (cs ≡ before ++ move approved ∷ after)
      × ((run o before).state ≡ ready_for_approval)
unfolding run
approval_required o [] v h k = absurd (ground arith)
approval_required o (c ∷ cs) v h k = elim (Bool-cases (is_past_approval (settle (attempt c o) o))) [
  | inl e ↦
      let (move_it, ready) = attempt_approves c o v h e in ([], cs, ap (λ x. x ∷ cs) move_it, ready)
  | inr e ↦
      let (before, after, split, ready) =
        approval_required (settle (attempt c o) o) cs (settle-IsValid c o v) e k in
      (c ∷ before, after, ap (λ xs. c ∷ xs) split, ready)
]
