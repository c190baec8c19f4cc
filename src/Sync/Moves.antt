-- ===== src/Sync/Moves.antt =====
-- Each fenced transaction that succeeds moves one sound pair of an order and its row to another.
use ops_flow_ai.Base.{
  ℕ, ◌≡◌, refl, ◌∙◌, sym, subst, true, Option, some, opt_eq, not, Result, ok, step_precondition,
  sync_completion, integrity_error, guard, >>=-eq-ok, guard-eq-ok,
}
use ops_flow_ai.Domain.State.{syncing, completed, state_eq}
use ops_flow_ai.Store.{PersistedOrder, Db, insert_audit_event}
use ops_flow_ai.Store.Laws.{get_order-insert_audit_event}
use ops_flow_ai.Sync.Contracts.{
  OrderSync, OrderSyncStep, OrderSyncFailureCode, OrderSyncReceipt, is_receipt, step_eq,
}
use ops_flow_ai.Sync.Commands.{
  order_from_row, sync_event, move_order, has_all_receipts, require_step_preconditions,
  receipt_step, require_current_claim,
}
use ops_flow_ai.Sync.Transactions.{
  begun, may_begin, begin_order_sync_step, received, collides, persist_order_sync_receipt,
  unclaimed, failed_at, after_failure, record_order_sync_failure, yield_order_sync_claim,
  complete_order_sync,
}
use ops_flow_ai.Sync.Effects.{Effect, advanced, Fenced, require_current_claim_inv}
use ops_flow_ai.Sync.Soundness.{
  IsSound, begun-IsSound, received-IsSound, failed-IsSound, yielded-IsSound, completed-IsSound,
}
use ops_flow_ai.Sync.ErpReceipts.{ErpReceipt, kept, received_erp, after_failure_erp}
use ops_flow_ai.Sync.Commits.{
  finish_inv, audit_syncs, at_state-advanced, received_key, after_failure_key, unit_result,
  fenced-Effect, moved_order, same_order,
}

pub record Moves (db db' : Db) (id : ℕ) : Type 0 where
  pub before : PersistedOrder
  pub after : PersistedOrder
  pub row : OrderSync
  pub row' : OrderSync
  pub effect : Effect db db' before after row row'
  pub key : row.order_id ≡ id
  pub erp : ErpReceipt db.syncs id row row'
  pub keeps : IsSound before.order row → IsSound after.order row'

module _ (db : Db) (now clock id token : ℕ) where
  abbrev current : Result (OrderSync × PersistedOrder)
  current = require_current_claim db clock id token

  pub begin-Moves :
      (step : OrderSyncStep) {s : OrderSync} {db' : Db}
      → begin_order_sync_step db now clock id token step ≡ ok (s, db')
      → Moves db db' id
  unfolding begin_order_sync_step
  begin-Moves step {s} {db'} h =
      let (x, found, h1) = >>=-eq-ok current _ h in
      let r = x.0 in
      let f : Fenced db clock id token x.0 x.1 =
        require_current_claim_inv db clock id token found in
      let (u, ready, h2) = >>=-eq-ok (require_step_preconditions r step) _ h1 in
      let (w, allowed, h3) =
        >>=-eq-ok (guard (may_begin r.in_flight_step step) step_precondition) _ h2 in
      record {
        before = x.1;
        after = x.1;
        row = r;
        row' = begun r step now;
        effect =
            fenced-Effect db f x.1 (begun r step now) db (same_order db f) refl
              (finish_inv db (begun r step now) h3).1 refl;
        key = f.sync_key;
        erp = kept refl refl;
        keeps = λ k. begun-IsSound k step now;
      }

  pub persist-Moves :
      (receipt : OrderSyncReceipt) {s : OrderSync} {db' : Db}
      → is_receipt receipt ≡ true
      → persist_order_sync_receipt db now clock id token receipt ≡ ok (s, db')
      → Moves db db' id
  unfolding persist_order_sync_receipt
  persist-Moves receipt p h =
      let (x, found, h1) = >>=-eq-ok current _ h in
      let r = x.0 in
      let f : Fenced db clock id token x.0 x.1 =
        require_current_claim_inv db clock id token found in
      let step = receipt_step receipt in
      let (u, in_flight, h2) =
        >>=-eq-ok (guard (opt_eq step_eq r.in_flight_step (some step)) step_precondition) _ h1 in
      let (v, ready, h3) = >>=-eq-ok (require_step_preconditions r step) _ h2 in
      let (w, unique, h4) =
        >>=-eq-ok (guard (not (collides db.syncs id receipt)) (integrity_error true)) _ h3 in
      record {
        before = x.1;
        after = x.1;
        row = r;
        row' = received r receipt now;
        effect =
            fenced-Effect db f x.1 (received r receipt now) db (same_order db f) refl
              (finish_inv db (received r receipt now) h4).1 (received_key r receipt now);
        key = f.sync_key;
        erp = received_erp db.syncs id r receipt now (unit_result ready) (guard-eq-ok _ _ unique);
        keeps = λ k. received-IsSound k receipt now f.order_syncing p (unit_result ready);
      }

  pub fail-Moves :
      (step : OrderSyncStep) (code : OrderSyncFailureCode) (retry_after : Option ℕ) (event_id : ℕ)
      {s : OrderSync} {db' : Db}
      → record_order_sync_failure db now clock id token step code retry_after event_id ≡ ok (s, db')
      → Moves db db' id
  unfolding record_order_sync_failure
  fail-Moves step code retry_after event_id h =
      let (x, found, h1) = >>=-eq-ok current _ h in
      let r = x.0 in
      let f : Fenced db clock id token x.0 x.1 =
        require_current_claim_inv db clock id token found in
      let (u, in_flight, h2) =
        >>=-eq-ok (guard (opt_eq step_eq r.in_flight_step (some step)) step_precondition) _ h1 in
      let (order, built, h3) = >>=-eq-ok (order_from_row x.1) _ h2 in
      let change = after_failure (failed_at r step code now) code retry_after now in
      let (db1, written, h4) = >>=-eq-ok (move_order db x.1 change.1) _ h3 in
      let event = sync_event event_id id "ORDER_SYNC_FAILED" now in
      let (orders, syncs) = moved_order db f change.1 written in
      record {
        before = x.1;
        after = advanced x.1 change.1;
        row = r;
        row' = change.0;
        effect =
            fenced-Effect db f (advanced x.1 change.1) change.0 (insert_audit_event db1 event)
              (λ j. get_order-insert_audit_event db1 event j ∙ orders j)
              (audit_syncs db1 event ∙ syncs)
              (finish_inv (insert_audit_event db1 event) change.0 h4).1
              (after_failure_key (failed_at r step code now) code retry_after now);
        key = f.sync_key;
        erp = after_failure_erp db.syncs id r step code retry_after now;
        keeps = λ k.
            subst (λ order. IsSound order change.0) (sym (at_state-advanced x.1 change.1))
              (failed-IsSound k step code retry_after now f.order_syncing);
      }

  pub yield-Moves :
      {s : OrderSync} {db' : Db}
      → yield_order_sync_claim db now clock id token ≡ ok (s, db')
      → Moves db db' id
  unfolding yield_order_sync_claim
  yield-Moves h =
      let (x, found, h1) = >>=-eq-ok current _ h in
      let f : Fenced db clock id token x.0 x.1 =
        require_current_claim_inv db clock id token found in
      let r' = record (unclaimed x.0 now) { next_attempt_at = now } in
      record {
        before = x.1;
        after = x.1;
        row = x.0;
        row' = r';
        effect = fenced-Effect db f x.1 r' db (same_order db f) refl (finish_inv db r' h1).1 refl;
        key = f.sync_key;
        erp = kept refl refl;
        keeps = λ k. yielded-IsSound k now;
      }

  pub complete-Moves :
      (event_id : ℕ) {s : OrderSync} {db' : Db}
      → complete_order_sync db now clock id token event_id ≡ ok (s, db')
      → Moves db db' id
  unfolding complete_order_sync
  complete-Moves event_id h =
      let (x, found, h1) = >>=-eq-ok current _ h in
      let f : Fenced db clock id token x.0 x.1 =
        require_current_claim_inv db clock id token found in
      let (u, receipts, h2) = >>=-eq-ok (guard (has_all_receipts x.0) sync_completion) _ h1 in
      let (order, built, h3) = >>=-eq-ok (order_from_row x.1) _ h2 in
      let (v, still, h4) = >>=-eq-ok (guard (state_eq order.state syncing) sync_completion) _ h3 in
      let (db1, written, h5) = >>=-eq-ok (move_order db x.1 (some completed)) _ h4 in
      let event = sync_event event_id id "ORDER_SYNC_COMPLETED" now in
      let (orders, syncs) = moved_order db f (some completed) written in
      record {
        before = x.1;
        after = advanced x.1 (some completed);
        row = x.0;
        row' = unclaimed x.0 now;
        effect =
            fenced-Effect db f (advanced x.1 (some completed)) (unclaimed x.0 now)
              (insert_audit_event db1 event)
              (λ j. get_order-insert_audit_event db1 event j ∙ orders j)
              (audit_syncs db1 event ∙ syncs)
              (finish_inv (insert_audit_event db1 event) (unclaimed x.0 now) h5).1 refl;
        key = f.sync_key;
        erp = kept refl refl;
        keeps = λ k. completed-IsSound k now f.order_syncing (guard-eq-ok _ _ receipts);
      }
