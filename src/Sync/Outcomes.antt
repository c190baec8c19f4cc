-- ===== src/Sync/Outcomes.antt =====
-- What a worker's claim ends in: `record_order_sync_failure` and `complete_order_sync`, under a
-- current claim on a sound database.
use ops_flow_ai.Base.{
  ℕ, ◌+◌, ◌≡◌, refl, ap, ◌∙◌, sym, subst, inl, inr, true, Option, none, some, arith, leb, ◌==◌,
  ==_refl, opt_eq, ok, Bool-cases, if◌then◌else◌,
}
use ops_flow_ai.Domain.State.{OrderState, syncing, completed, state_eq, normal_transitions}
use ops_flow_ai.Domain.Records.{AuditEvent}
use ops_flow_ai.Domain.Order.{Order}
use ops_flow_ai.Store.{PersistedOrder, Db, get_order, get_sync, save_sync, insert_audit_event}
use ops_flow_ai.Store.Laws.{get_order_key, get_order-save_sync, get_order-insert_audit_event}
use ops_flow_ai.Sync.Contracts.{OrderSync, OrderSyncStep, OrderSyncFailureCode, step_eq}
use ops_flow_ai.Sync.Commands.{is_current, require_current_claim, sync_event, has_all_receipts}
use ops_flow_ai.Sync.Transactions.{
  finish, unclaimed, failed_at, after_failure, is_final_code, is_auto_retry_code,
  record_order_sync_failure, complete_order_sync,
}
use ops_flow_ai.Sync.Effects.{advanced, may_move, move_order_lem, order_from_row_lem}
use ops_flow_ai.Sync.Soundness.{
  IsSound, failed-IsSound, completed-IsSound, order_sync_from_model-IsSound,
}
use ops_flow_ai.Sync.Failing.{FailureOutcome, state_after, after_failure_lem}

move_allowed :
    (r : OrderSync) (code : OrderSyncFailureCode) (retry_after : Option ℕ) (now : ℕ)
    (p : PersistedOrder)
    → p.order.state ≡ syncing
    → may_move p (after_failure r code retry_after now).1 ≡ true
unfolding after_failure normal_transitions
move_allowed r code retry_after now p e = elim (Bool-cases (is_final_code code)) [
  | inl f ↦ rw (f, e) refl
  | inr f ↦ elim (Bool-cases (is_auto_retry_code code)) [
    | inr g ↦ rw (f, g, e) refl
    | inl g ↦ elim (Bool-cases (leb 3 (r.attempt_count + 1))) [
      | inl k ↦ rw (f, g, k, e) refl
      | inr k ↦ rw (f, g, k) refl
    ]
  ]
]

advanced_state :
    (p : PersistedOrder) (target : Option OrderState)
    → p.order.state ≡ syncing
    → (advanced p target).order.state ≡ state_after target
advanced_state p none e = e
advanced_state p (some t) e = refl

finish_total :
    (db : Db) {o : Order} {r : OrderSync} → IsSound o r → finish db r ≡ ok (r, save_sync db r)
finish_total db {r = r} s = rw (order_sync_from_model-IsSound s) refl

module _ (db : Db) (now clock id token : ℕ) {o : PersistedOrder} {r : OrderSync}
    (sound : IsSound o.order r) (order_there : get_order db id ≡ some o)
    (row_there : get_sync db id ≡ some r)
    (claim : is_current o.order.state r clock token ≡ true) where
  claimed_syncing : o.order.state ≡ syncing
  unfolding is_current
  claimed_syncing = ground arith

  key : get_order db o.order.id ≡ some o
  key = ap (get_order db) (get_order_key db id order_there) ∙ order_there

  current : require_current_claim db clock id token ≡ ok (r, o)
  unfolding require_current_claim
  current = rw (order_there, row_there, claim) refl

  written :
      (db1 : Db) (target : Option OrderState)
      → ((j : ℕ)
          → get_order db1 j
            ≡ (if o.order.id == j then some (advanced o target) else get_order db j))
      → (r' : OrderSync) (e : AuditEvent)
      → get_order (save_sync (insert_audit_event db1 e) r') id ≡ some (advanced o target)
  written db1 target orders r' e =
      let same = get_order_key db id order_there in
      get_order-save_sync (insert_audit_event db1 e) r' id
      ∙ get_order-insert_audit_event db1 e id
      ∙ ground (arith, orders id, same, ==_refl id)

  -- A failure of the step in flight, reported under the current claim of a sound pair, is always
  -- recorded. The claim is given up, the step and the code are noted, and the receipts stay.
  -- IDEMPOTENCY_CONFLICT and RECONCILIATION_REQUIRED take the order to FAILED_FINAL.
  -- PROVIDER_UNAVAILABLE, PROVIDER_RATE_LIMIT, PROVIDER_INVALID_RESPONSE and PROVIDER_PENDING
  -- count an attempt: after the first the order stays SYNCING and the next attempt is due in
  -- exactly 30 seconds or the provider's wish, whichever is longer, after the second in 120
  -- seconds or the wish, and the third takes it to FAILED_RETRYABLE. Every other code takes it to
  -- FAILED_RETRYABLE and counts none.
  pub record_failure_lem :
      (step : OrderSyncStep) (code : OrderSyncFailureCode) (retry_after : Option ℕ) (event_id : ℕ)
      → opt_eq step_eq r.in_flight_step (some step) ≡ true
      → (s : OrderSync) × (db' : Db) × (o' : PersistedOrder) × (record_order_sync_failure db now
            clock id token step code retry_after event_id
          ≡ ok (s, db'))
        × (get_order db' id ≡ some o')
        × FailureOutcome r s o'.order.state step code retry_after now
  unfolding record_order_sync_failure
  record_failure_lem step code retry_after event_id in_flight =
      let change = after_failure (failed_at r step code now) code retry_after now in
      let event = sync_event event_id id "ORDER_SYNC_FAILED" now in
      let (db1, moved_it, orders, syncs, _, _) =
        move_order_lem db o change.1 sound.order_valid key
          (move_allowed (failed_at r step code now) code retry_after now o claimed_syncing) in
      let db2 = insert_audit_event db1 event in
      let kept = failed-IsSound sound step code retry_after now claimed_syncing in
      (
        change.0,
        save_sync db2 change.0,
        advanced o change.1,
        rw
            (
              current,
              in_flight,
              order_from_row_lem o sound.order_valid,
              moved_it,
              finish_total db2 kept,
            )
            refl,
        written db1 change.1 orders change.0 event,
        subst (λ st. FailureOutcome r change.0 st step code retry_after now)
            (sym (advanced_state o change.1 claimed_syncing))
            (after_failure_lem r step code retry_after now),
      )

  -- Once a row under the current claim has all its receipts, the completion is committed: the order is
  -- COMPLETED, its claim is given up, and the pair stays sound.
  pub complete_lem :
      (event_id : ℕ)
      → has_all_receipts r ≡ true
      → (db' : Db) × (o' : PersistedOrder) × (complete_order_sync db now clock id token event_id
          ≡ ok (unclaimed r now, db'))
        × (get_order db' id ≡ some o')
        × (o'.order.state ≡ completed)
        × IsSound o'.order (unclaimed r now)
  unfolding complete_order_sync normal_transitions
  complete_lem event_id receipts =
      let event = sync_event event_id id "ORDER_SYNC_COMPLETED" now in
      let (db1, moved_it, orders, syncs, _, _) =
        move_order_lem db o (some completed) sound.order_valid key (rw claimed_syncing refl) in
      let db2 = insert_audit_event db1 event in
      let still : state_eq o.order.state syncing ≡ true = rw claimed_syncing refl in
      let kept = completed-IsSound sound now claimed_syncing receipts in
      (
        save_sync db2 (unclaimed r now),
        advanced o (some completed),
        rw
            (
              current,
              receipts,
              order_from_row_lem o sound.order_valid,
              still,
              moved_it,
              finish_total db2 kept,
            )
            refl,
        written db1 (some completed) orders (unclaimed r now) event,
        refl,
        kept,
      )
