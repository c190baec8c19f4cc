-- ===== src/Review/Approved.antt =====
-- That an approval (`approve_order` of src/opsflow/application/review_commands.py) starts a sound
-- synchronisation.
use ops_flow_ai.Base.{
  ℕ, String, ◌≡◌, refl, sym, ap, ◌∙◌, subst, true, false, Bool, Option, none, some, [], arith, any,
  ok, invalid_review_state, guard, >>=-eq-ok, ok-injective,
}
use ops_flow_ai.Domain.State.{ready_for_approval, approved, state_eq}
use ops_flow_ai.Domain.Records.{AuditEvent}
use ops_flow_ai.Domain.Order.{Order, transition_to}
use ops_flow_ai.Domain.Lifecycle.{IsValid, moved, transition_to_inv}
use ops_flow_ai.Store.{
  PersistedOrder, Db, get_order, get_sync, with_snapshot, update_order_snapshot, insert_audit_event,
}
use ops_flow_ai.Store.Laws.{get_order_key}
use ops_flow_ai.Store.Writes.{
  Writes, Writes-there, Writes-trans, unchanged-Writes, update_order_snapshot-Writes,
  insert_audit_event-kept,
}
use ops_flow_ai.Sync.Commands.{new_intent, create_order_sync_intent}
use ops_flow_ai.Sync.Soundness.{IsSound, new_intent-IsSound}
use ops_flow_ai.Sync.System.{IsDbSound}
use ops_flow_ai.Notify.Contracts.{slack, gmail, order_approved}
use ops_flow_ai.Notify.Intents.{create_notification_intent}
use ops_flow_ai.Notify.Changes.{create-kept}
use ops_flow_ai.Review.Access.{
  OperatorContext, require_approval, Generation, has_high_value_warning, require_generation,
}
use ops_flow_ai.Review.Commands.{
  review_event, answers_gmail, notify_gmail, approve_locked, approve_order,
}
use ops_flow_ai.Review.Authority.{or_conflict_inv, Matched, require_generation_inv}
use ops_flow_ai.Review.Started.{IsStarted, kept-IsStarted, new_intent-IsStarted}

notify_gmail-kept :
    (b : Bool) (db : Db) (id : ℕ) (o : Order) (event : AuditEvent) (url : String) {db' : Db}
    → notify_gmail b db id o event url ≡ ok db'
    → (db'.orders ≡ db.orders) × (db'.syncs ≡ db.syncs)
notify_gmail-kept false db id o event url h =
    let e : db ≡ _ = ok-injective h in (ap (λ d. d.orders) (sym e), ap (λ d. d.syncs) (sym e))
notify_gmail-kept true db id o event url h = create-kept db id o event gmail order_approved url [] h

absent_before :
    (db : Db) (id created_at : ℕ) {db' : Db}
    → create_order_sync_intent db id created_at ≡ ok db'
    → get_sync db id ≡ none
unfolding create_order_sync_intent
absent_before db id created_at h = ground arith

approve_locked-IsStarted :
    (db : Db) (p : PersistedOrder) (operator : OperatorContext)
    (recorded_at event_id slack_id gmail_id : ℕ) (url : String) {o' : Order} {db' : Db}
    → IsDbSound db
    → get_order db p.order.id ≡ some p
    → approve_locked db p operator recorded_at event_id slack_id gmail_id url ≡ ok (o', db')
    → IsStarted db' p.order.id recorded_at
unfolding approve_locked
approve_locked-IsStarted db p operator recorded_at event_id slack_id gmail_id url {o'} {db'} s there
      h =
    let (_, ready, h1) =
      >>=-eq-ok (guard (state_eq p.order.state ready_for_approval) invalid_review_state) _ h in
    let (_, allowed, h2) = >>=-eq-ok (require_approval operator (has_high_value_warning p)) _ h1 in
    let (final, stepped, h3) = >>=-eq-ok (transition_to p.order approved) _ h2 in
    let (db1, written, h4) = >>=-eq-ok (update_order_snapshot db final) _ h3 in
    let event = review_event event_id p.order.id "ORDER_APPROVED" operator recorded_at in
    let audited = insert_audit_event db1 event in
    let (db2, intent, h5) =
      >>=-eq-ok (create_order_sync_intent audited p.order.id recorded_at) _ h4 in
    let (db3, told, h6) =
      >>=-eq-ok (create_notification_intent db2 slack_id final event slack order_approved url []) _
        h5 in
    let (db4, answered, h7) =
      >>=-eq-ok
        (notify_gmail (any answers_gmail p.order.source_documents) db3 gmail_id final event url) _
        h6 in
    let (same, valid) = transition_to_inv p.order approved stepped in
    let row = with_snapshot p final in
    let w1 = update_order_snapshot-Writes p there final (ap (λ o. o.id) same) written in
    let kept = insert_audit_event-kept db1 event in
    let w2 : Writes db1 audited row = unchanged-Writes (Writes-there w1) kept.0 kept.1 in
    let w : Writes db audited row = Writes-trans w1 w2 refl in
    let is_moved : moved p.order approved ≡ row.order =
      ap (λ o. (with_snapshot p o).order) (sym same) in
    let good : IsSound row.order (new_intent row.order.id recorded_at) =
      new_intent-IsSound row.order row.order.id recorded_at (subst IsValid (same ∙ is_moved) valid)
        (ap (λ o. o.state) (sym is_moved)) in
    let state = ap (λ o. o.state) (sym is_moved) in
    let s2 =
      new_intent-IsStarted s w recorded_at (absent_before audited p.order.id recorded_at intent)
        good state intent in
    let k3 = create-kept db2 slack_id final event slack order_approved url [] told in
    let k4 =
      notify_gmail-kept (any answers_gmail p.order.source_documents) db3 gmail_id final event url
        answered in
    let s4 = kept-IsStarted db3 db4 k4 (kept-IsStarted db2 db3 k3 s2) in
    subst (λ (x : Order × Db). IsStarted x.1 p.order.id recorded_at) (ok-injective h7) s4

-- A committed approval leads from a sound database to a sound database, in which the order is APPROVED
-- and has a synchronisation row that waits for its first attempt: it is due from the time of the
-- approval on, with no claim, no attempt counted, no retry, no step in flight, no failure and no
-- receipt.
pub approve_order-IsStarted :
    (tag : Generation → String) (preflight db : Db) (seen revision : Option (ℕ × ℕ)) (id : ℕ)
    (if_match : Option String) (operator : OperatorContext)
    (recorded_at event_id slack_id gmail_id : ℕ) (url : String) {o' : Order} {db' : Db}
    → IsDbSound db
    → approve_order tag preflight seen db revision id if_match operator recorded_at event_id
        slack_id gmail_id url
      ≡ ok (o', db')
    → IsStarted db' id recorded_at
unfolding approve_order
approve_order-IsStarted tag preflight db seen revision id if_match operator recorded_at event_id
      slack_id gmail_id url {db' = db'} s h =
    let (_, allowed, h1) = >>=-eq-ok (require_approval operator false) _ h in
    let (q, seen_it, h2) = >>=-eq-ok (require_generation tag preflight id seen if_match) _ h1 in
    let (p, locked, h3) =
      >>=-eq-ok (require_generation tag db id revision if_match) _ (or_conflict_inv _ h2) in
    let m : Matched tag db id revision if_match p =
      require_generation_inv tag db id revision if_match locked in
    let key = get_order_key db id m.there in
    subst (λ i. IsStarted db' i recorded_at) key
      (approve_locked-IsStarted db p operator recorded_at event_id slack_id gmail_id url s
        (ap (get_order db) key ∙ m.there) h3)
