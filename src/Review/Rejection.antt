-- ===== src/Review/Rejection.antt =====
-- `reject_order` of src/opsflow/application/review_commands.py.
use ops_flow_ai.Base.{
  ℕ, ◌≤◌, ◌<◌, String, ◌≡◌, refl, sym, ap, ◌∙◌, subst, ◌⊎◌, true, ◌&&◌, ◌||◌, Option, some, List,
  [], ◌∷◌, arith, length, leb, ltb, codes, Result, ok, invalid_review_state,
  invalid_rejection_reason, ◌>>=◌, ◌>>◌, guard, guard-eq-ok, >>=-eq-ok, ok-injective, if◌then◌else◌,
}
use ops_flow_ai.Domain.State.{OrderState, needs_review, ready_for_approval, rejected, state_eq}
use ops_flow_ai.Domain.Records.{is_space}
use ops_flow_ai.Domain.Order.{Order, transition_to}
use ops_flow_ai.Domain.Lifecycle.{IsValid, moved, transition_to_inv}
use ops_flow_ai.Store.{
  PersistedOrder, Db, get_order, with_snapshot, update_order_snapshot, insert_audit_event,
}
use ops_flow_ai.Store.Laws.{get_order_key}
use ops_flow_ai.Store.Writes.{
  Writes, Writes-there, Writes-trans, unchanged-Writes, update_order_snapshot-Writes,
  insert_audit_event-kept,
}
use ops_flow_ai.Sync.Contracts.{OrderSync}
use ops_flow_ai.Sync.Soundness.{IsSound}
use ops_flow_ai.Sync.System.{IsDbSound}
use ops_flow_ai.Sync.OrderWrites.{Writes-IsDbSound}
use ops_flow_ai.Review.Access.{
  OperatorContext, may_reject, require_rejection, Generation, require_generation,
}
use ops_flow_ai.Review.Commands.{or_conflict, review_event}
use ops_flow_ai.Review.Authority.{or_conflict_inv, Matched, require_generation_inv, Allowed}

-- A text without the white space at its front.
drop_spaces : List ℕ → List ℕ
drop_spaces [] = []
drop_spaces (c ∷ cs) = let rest = drop_spaces cs in if is_space c then rest else c ∷ cs

reverse_onto : List ℕ → List ℕ → List ℕ
reverse_onto [] acc = acc
reverse_onto (c ∷ cs) acc = reverse_onto cs (c ∷ acc)

-- `str.strip`
unfoldable pub strip : List ℕ → List ℕ
unfolding drop_spaces reverse_onto
strip cs = reverse_onto (drop_spaces (reverse_onto (drop_spaces cs) [])) []

-- `_normalize_rejection_reason`, as characters
unfoldable pub normalize_rejection_reason : String → Result (List ℕ)
normalize_rejection_reason reason =
    let trimmed = strip (codes reason) in
    guard (ltb 0 (length trimmed) && leb (length trimmed) 500) invalid_rejection_reason
    >> ok trimmed

-- The body of the transaction, on the locked order.
unfoldable pub reject_locked : Db → PersistedOrder → OperatorContext → ℕ → ℕ → Result (Order × Db)
reject_locked db p operator recorded_at event_id = do
  guard (state_eq p.order.state needs_review || state_eq p.order.state ready_for_approval)
      invalid_review_state
  require_rejection operator p.order.state
  final_order ← transition_to p.order rejected
  db1 ← update_order_snapshot db final_order
  ok (
    final_order,
    insert_audit_event db1 (review_event event_id p.order.id "ORDER_REJECTED" operator recorded_at),
  )

-- `reject_order`; every operator of the model has a role, so each has view access.
unfoldable pub reject_order :
    (Generation → String)
    → Db
    → Option (ℕ × ℕ)
    → Db
    → Option (ℕ × ℕ)
    → ℕ
    → String
    → Option String
    → OperatorContext
    → ℕ
    → ℕ
    → Result (Order × Db)
unfolding normalize_rejection_reason reject_locked
reject_order tag preflight seen_revision db revision order_id reason if_match operator recorded_at
      event_id =
    do
      trimmed ← normalize_rejection_reason reason
      seen ← require_generation tag preflight order_id seen_revision if_match
      or_conflict (do
        p ← require_generation tag db order_id revision if_match
        reject_locked db p operator recorded_at event_id)

-- A rejected order goes with any row that it could have had.
rejected-IsSound :
    {o : Order} {r : OrderSync}
    → (o.state ≡ needs_review) ⊎ (o.state ≡ ready_for_approval)
    → IsValid (moved o rejected)
    → IsSound o r
    → IsSound (moved o rejected) r
rejected-IsSound e v s = ground arith

reviewable :
    (s : OrderState)
    → (state_eq s needs_review || state_eq s ready_for_approval) ≡ true
    → (s ≡ needs_review) ⊎ (s ≡ ready_for_approval)
reviewable s h = ground arith

normalize_rejection_reason_inv :
    (reason : String) {t : List ℕ}
    → normalize_rejection_reason reason ≡ ok t
    → (0 < length (strip (codes reason))) × (length (strip (codes reason)) ≤ 500)
unfolding normalize_rejection_reason
normalize_rejection_reason_inv reason h = ground arith

-- What the transaction of a rejection did.
record Rejected (db : Db) (p : PersistedOrder) (operator : OperatorContext) (o' : Order) (db' : Db)
    : Type 0 where
  was : (p.order.state ≡ needs_review) ⊎ (p.order.state ≡ ready_for_approval)
  by_role : may_reject operator.role p.order.state ≡ true
  stepped : transition_to p.order rejected ≡ ok o'
  moved_there : (o' ≡ moved p.order rejected) × IsValid o'
  writes : Writes db db' (with_snapshot p o')

reject_locked_inv :
    (db : Db) (p : PersistedOrder) (operator : OperatorContext) (recorded_at event_id : ℕ)
    {o' : Order} {db' : Db}
    → get_order db p.order.id ≡ some p
    → reject_locked db p operator recorded_at event_id ≡ ok (o', db')
    → Rejected db p operator o' db'
unfolding reject_locked require_rejection
reject_locked_inv db p operator recorded_at event_id {o'} {db'} there h =
    let (_, state, h1) =
      >>=-eq-ok
        (guard (state_eq p.order.state needs_review || state_eq p.order.state ready_for_approval)
          invalid_review_state)
        _ h in
    let (_, allowed, h2) = >>=-eq-ok (require_rejection operator p.order.state) _ h1 in
    let (final, stepped, h3) = >>=-eq-ok (transition_to p.order rejected) _ h2 in
    let (db1, written, h4) = >>=-eq-ok (update_order_snapshot db final) _ h3 in
    let m = transition_to_inv p.order rejected stepped in
    let e = review_event event_id p.order.id "ORDER_REJECTED" operator recorded_at in
    let w1 = update_order_snapshot-Writes p there final (ap (λ o. o.id) m.0) written in
    let kept = insert_audit_event-kept db1 e in
    let w2 : Writes db1 (insert_audit_event db1 e) (with_snapshot p final) =
      unchanged-Writes (Writes-there w1) kept.0 kept.1 in
    let r : Rejected db p operator final (insert_audit_event db1 e) = record {
      was = reviewable p.order.state (guard-eq-ok _ _ state);
      by_role = guard-eq-ok _ _ allowed;
      stepped = stepped;
      moved_there = m;
      writes = Writes-trans w1 w2 refl;
    } in
    subst (λ (x : Order × Db). Rejected db p operator x.0 x.1) (ok-injective h4) r

rejected_row-IsSound :
    (p : PersistedOrder) (o' : Order) {r : OrderSync}
    → (p.order.state ≡ needs_review) ⊎ (p.order.state ≡ ready_for_approval)
    → (o' ≡ moved p.order rejected) × IsValid o'
    → IsSound p.order r
    → IsSound (with_snapshot p o').order r
rejected_row-IsSound p o' {r} was m s =
    let row : moved p.order rejected ≡ (with_snapshot p o').order =
      ap (λ o. (with_snapshot p o).order) (sym m.0) in
    subst (λ o. IsSound o r) row (rejected-IsSound was (subst IsValid m.0 m.1) s)

module _ (tag : Generation → String) (preflight db : Db) (seen revision : Option (ℕ × ℕ)) (id : ℕ)
    (reason : String) (if_match : Option String) (operator : OperatorContext)
    (recorded_at event_id : ℕ) where
  -- A committed rejection has a reason of 1 to 500 characters once stripped; it was made on the
  -- version of the order that the request named, by a reviewer in NEEDS_REVIEW or by an approver in
  -- READY_FOR_APPROVAL; its result is the order moved to REJECTED, and a sound database stays sound.
  pub reject_order_lem :
      {o' : Order} {db' : Db}
      → IsDbSound db
      → reject_order tag preflight seen db revision id reason if_match operator recorded_at event_id
        ≡ ok (o', db')
      → (0 < length (strip (codes reason)))
        × (length (strip (codes reason)) ≤ 500)
        × ((s : OrderState) × ((s ≡ needs_review) ⊎ (s ≡ ready_for_approval))
            × Allowed tag db id revision if_match s
                (λ p. may_reject operator.role p.order.state)
                o'
                (λ o. transition_to o rejected))
        × (o'.state ≡ rejected)
        × IsDbSound db'
  unfolding reject_order
  reject_order_lem {o'} {db'} sound h =
      let (trimmed, bounded, h1) = >>=-eq-ok (normalize_rejection_reason reason) _ h in
      let (q, seen_it, h2) = >>=-eq-ok (require_generation tag preflight id seen if_match) _ h1 in
      let (p, locked, h3) =
        >>=-eq-ok (require_generation tag db id revision if_match) _ (or_conflict_inv _ h2) in
      let m : Matched tag db id revision if_match p =
        require_generation_inv tag db id revision if_match locked in
      let there = ap (get_order db) (get_order_key db id m.there) ∙ m.there in
      let r = reject_locked_inv db p operator recorded_at event_id there h3 in
      let allowed : Allowed tag db id revision if_match p.order.state
          (λ p. may_reject operator.role p.order.state) o' (λ o. transition_to o rejected) =
        record {
          order = p;
          there = m.there;
          matched = m.matches;
          in_state = refl;
          by_role = r.by_role;
          stepped = r.stepped;
        } in
      let (least, most) = normalize_rejection_reason_inv reason bounded in
      (
        least,
        most,
        (p.order.state, r.was, allowed),
        ap (λ o. o.state) r.moved_there.0,
        Writes-IsDbSound sound r.writes there
            (λ row. rejected_row-IsSound p o' r.was r.moved_there),
      )
