-- ===== src/Review/Authority.antt =====
-- What a committed review command tells: `approve_order` and `retry_order` of
-- src/opsflow/application/review_commands.py.
use ops_flow_ai.Base.{
  ℕ, ◌≡◌, ap, ◌∙◌, String, Bool, true, false, Option, none, some, [], arith, any, opt_eq, Result,
  ok, err, invalid_review_state, order_not_found, >>=-eq-ok, ok-injective, guard, guard-eq-ok,
  or_raise, or_raise-eq-ok, eq_iff, err≢ok,
}
use ops_flow_ai.Domain.State.{
  OrderState, ready_for_approval, approved, failed_retryable, syncing, state_eq,
}
use ops_flow_ai.Domain.Order.{Order, transition_to, retry}
use ops_flow_ai.Store.{PersistedOrder, Db, get_order, insert_audit_event, update_order_snapshot}
use ops_flow_ai.Sync.Commands.{create_order_sync_intent}
use ops_flow_ai.Notify.Contracts.{slack, order_approved}
use ops_flow_ai.Notify.Intents.{create_notification_intent}
use ops_flow_ai.Review.Access.{
  OperatorContext, may_approve, may_review, require_retry, require_approval, Generation,
  generation_of, require_if_match, require_generation, get_latest_audit_event_id,
  has_high_value_warning,
}
use ops_flow_ai.Review.Commands.{
  or_conflict, reset_if, retry_locked, retry_order, approve_locked, approve_order, review_event,
  notify_gmail, answers_gmail,
}

pub or_conflict_inv : (m : Result (Order × Db)) {x : Order × Db} → or_conflict m ≡ ok x → m ≡ ok x
or_conflict_inv (ok y) h = h
or_conflict_inv (err e) h = absurd (err≢ok h)

-- The generation that a command found under its lock is the one whose tag the operator saw.
pub record Matched (tag : Generation → String) (db : Db) (id : ℕ) (revision : Option (ℕ × ℕ))
    (if_match : Option String) (p : PersistedOrder) : Type 0 where
  pub there : get_order db id ≡ some p
  pub matches : if_match ≡ some (tag (generation_of p revision (get_latest_audit_event_id db id)))

require_if_match_inv :
    (supplied : Option String) (current : String) {u : Unit {0}}
    → require_if_match supplied current ≡ ok u
    → supplied ≡ some current
unfolding require_if_match
require_if_match_inv none current h = absurd (ground arith)
require_if_match_inv (some s) current h =
    let same : s ≡ current = ground (arith, h, eq_iff s current) in ap some same

pub require_generation_inv :
    (tag : Generation → String) (db : Db) (id : ℕ) (revision : Option (ℕ × ℕ))
    (if_match : Option String) {p : PersistedOrder}
    → require_generation tag db id revision if_match ≡ ok p
    → Matched tag db id revision if_match p
unfolding require_generation
require_generation_inv tag db id revision if_match {p} h =
    let (q, found, h1) = >>=-eq-ok (or_raise (get_order db id) order_not_found) _ h in
    let (u, matched, h2) =
      >>=-eq-ok
        (require_if_match if_match
          (tag (generation_of q revision (get_latest_audit_event_id db id))))
        _ h1 in
    let same : q ≡ p = ok-injective h2 in
    record {
      there = or_raise-eq-ok (get_order db id) _ found ∙ ap some same;
      matches =
          require_if_match_inv if_match _ matched
          ∙ ap (λ x. some (tag (generation_of x revision (get_latest_audit_event_id db id)))) same;
    }

-- What a successful approval or retry was: by whom, on what, and on which version of the order.
pub record Allowed (tag : Generation → String) (db : Db) (id : ℕ) (revision : Option (ℕ × ℕ))
    (if_match : Option String) (state : OrderState) (role_ok : PersistedOrder → Bool) (o' : Order)
    (step : Order → Result Order) : Type 0 where
  pub order : PersistedOrder
  pub there : get_order db id ≡ some order
  pub matched :
      if_match ≡ some (tag (generation_of order revision (get_latest_audit_event_id db id)))
  pub in_state : order.order.state ≡ state
  pub by_role : role_ok order ≡ true
  pub stepped : step order.order ≡ ok o'

pub state_is : (s t : OrderState) → state_eq s t ≡ true → s ≡ t
state_is s t h = ground arith

module _ (tag : Generation → String) (preflight db : Db) (seen revision : Option (ℕ × ℕ)) (id : ℕ)
    (if_match : Option String) (operator : OperatorContext) (recorded_at : ℕ) where
  -- A retry that is committed was asked for by a reviewer, on an order that was FAILED_RETRYABLE under
  -- the lock and whose generation, revision and latest audit event included, has the tag that the
  -- request named; its result is what `Order.retry` makes of that order.
  pub retry_order_lem :
      (now event1 event2 : ℕ) {o' : Order} {db' : Db}
      → retry_order tag preflight seen db revision id if_match operator recorded_at now event1
          event2
        ≡ ok (o', db')
      → Allowed tag db id revision if_match failed_retryable
          (λ p. may_review operator.role)
          o'
          retry
  unfolding retry_order retry_locked require_retry
  retry_order_lem now event1 event2 {o'} {db'} h =
      let (u, allowed, h1) = >>=-eq-ok (require_retry operator) _ h in
      let (q, seen_it, h2) = >>=-eq-ok (require_generation tag preflight id seen if_match) _ h1 in
      let (p, locked, h3) =
        >>=-eq-ok (require_generation tag db id revision if_match) _ (or_conflict_inv _ h2) in
      let m : Matched tag db id revision if_match p =
        require_generation_inv tag db id revision if_match locked in
      let (v, failed, h4) =
        >>=-eq-ok (guard (state_eq p.order.state failed_retryable) invalid_review_state) _ h3 in
      let (w, again, h5) = >>=-eq-ok (require_retry operator) _ h4 in
      let (final, stepped, h6) = >>=-eq-ok (retry p.order) _ h5 in
      let (db1, written, h7) = >>=-eq-ok (update_order_snapshot db final) _ h6 in
      let (db2, reset, h8) =
        >>=-eq-ok
          (reset_if (opt_eq state_eq p.order.failure_origin (some syncing)) db1 p.order.id now) _
          h7 in
      record {
        order = p;
        there = m.there;
        matched = m.matches;
        in_state = state_is p.order.state failed_retryable (guard-eq-ok _ _ failed);
        by_role = guard-eq-ok _ _ again;
        stepped = stepped ∙ ap ok (ap (λ x. x.0) (ok-injective h8));
      }

  -- An approval that is committed was made by an elevated approver, or by an approver on an order
  -- without a high-value warning, on an order that was READY_FOR_APPROVAL under the lock and whose
  -- generation has the tag that the request named; its result is the move to APPROVED.
  pub approve_order_lem :
      (event_id slack_id gmail_id : ℕ) (url : String) {o' : Order} {db' : Db}
      → approve_order tag preflight seen db revision id if_match operator recorded_at event_id
          slack_id gmail_id url
        ≡ ok (o', db')
      → Allowed tag db id revision if_match ready_for_approval
          (λ p. may_approve operator.role (has_high_value_warning p))
          o'
          (λ o. transition_to o approved)
  unfolding approve_order approve_locked require_approval
  approve_order_lem event_id slack_id gmail_id url {o'} {db'} h =
      let (u, allowed, h1) = >>=-eq-ok (require_approval operator false) _ h in
      let (q, seen_it, h2) = >>=-eq-ok (require_generation tag preflight id seen if_match) _ h1 in
      let (p, locked, h3) =
        >>=-eq-ok (require_generation tag db id revision if_match) _ (or_conflict_inv _ h2) in
      let m : Matched tag db id revision if_match p =
        require_generation_inv tag db id revision if_match locked in
      let (v, ready, h4) =
        >>=-eq-ok (guard (state_eq p.order.state ready_for_approval) invalid_review_state) _ h3 in
      let (w, again, h5) = >>=-eq-ok (require_approval operator (has_high_value_warning p)) _ h4 in
      let (final, stepped, h6) = >>=-eq-ok (transition_to p.order approved) _ h5 in
      let (db1, written, h7) = >>=-eq-ok (update_order_snapshot db final) _ h6 in
      let event = review_event event_id p.order.id "ORDER_APPROVED" operator recorded_at in
      let (db2, intent, h8) =
        >>=-eq-ok (create_order_sync_intent (insert_audit_event db1 event) p.order.id recorded_at) _
          h7 in
      let (db3, told, h9) =
        >>=-eq-ok (create_notification_intent db2 slack_id final event slack order_approved url [])
          _ h8 in
      let (db4, answered, h10) =
        >>=-eq-ok
          (notify_gmail (any answers_gmail p.order.source_documents) db3 gmail_id final event url) _
          h9 in
      let same : ◌≡◌ {A = Order × Db} (final, db4) (o', db') = ok-injective h10 in
      let first : final ≡ o' = ap (λ x. x.0) same in
      record {
        order = p;
        there = m.there;
        matched = m.matches;
        in_state = state_is p.order.state ready_for_approval (guard-eq-ok _ _ ready);
        by_role = guard-eq-ok _ _ again;
        stepped = stepped ∙ ap ok first;
      }
