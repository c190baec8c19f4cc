-- ===== src/Review/Commands.antt =====
-- The commands of src/opsflow/application/review_commands.py. Each is given the database of its
-- preflight, which is a transaction of its own, and that of the command. An IntegrityError becomes a
-- conflict.
use ops_flow_ai.Base.{
  ℕ, ◌+◌, String, Bool, true, false, ◌&&◌, Option, some, [], any, opt_eq, Result, ok, err,
  integrity_error, invalid_review_state, review_persistence_conflict, ◌>>=◌, ◌>>◌, guard, Error,
}
use ops_flow_ai.Domain.State.{ready_for_approval, approved, failed_retryable, syncing, state_eq}
use ops_flow_ai.Domain.Records.{AuditEvent, SourceDocument, is_non_blank}
use ops_flow_ai.Domain.Order.{Order, transition_to, retry}
use ops_flow_ai.Store.{PersistedOrder, Db, update_order_snapshot, insert_audit_event}
use ops_flow_ai.Sync.Commands.{create_order_sync_intent, reset_order_sync_for_retry}
use ops_flow_ai.Notify.Contracts.{slack, gmail, order_approved}
use ops_flow_ai.Notify.Intents.{create_notification_intent, is_gmail_source}
use ops_flow_ai.Review.Access.{
  OperatorContext, require_retry, require_approval, Generation, require_generation,
  has_high_value_warning,
}

-- except IntegrityError: raise ReviewPersistenceConflictError
abbrev conflict_of : Error → Error
conflict_of (integrity_error b) = review_persistence_conflict
conflict_of e = e

abbrev pub or_conflict : Result (Order × Db) → Result (Order × Db)
or_conflict (ok x) = ok x
or_conflict (err e) = err (conflict_of e)

abbrev pub review_event : ℕ → ℕ → String → OperatorContext → ℕ → AuditEvent
review_event event_id order_id event_type operator recorded_at = record {
  id = event_id;
  order_id = order_id;
  event_type = event_type;
  actor = operator.actor;
  occurred_at = recorded_at;
}

-- The reset of the synchronisation, where it is the synchronisation that failed.
unfoldable pub reset_if : Bool → Db → ℕ → ℕ → Result Db
reset_if false db order_id now = ok db
reset_if true db order_id now =
    let (found, db1) = reset_order_sync_for_retry db order_id now in
    guard found review_persistence_conflict >> ok db1

-- The body of the retry's transaction, on the locked order.
unfoldable pub retry_locked :
    Db → PersistedOrder → OperatorContext → ℕ → ℕ → ℕ → ℕ → Result (Order × Db)
retry_locked db p operator recorded_at now event1 event2 = do
  guard (state_eq p.order.state failed_retryable) invalid_review_state
  require_retry operator
  final_order ← retry p.order
  db1 ← update_order_snapshot db final_order
  db2 ← reset_if (opt_eq state_eq p.order.failure_origin (some syncing)) db1 p.order.id now
  let db3 =
      insert_audit_event db2
        (review_event event1 p.order.id "ORDER_RETRY_REQUESTED" operator recorded_at)
  ok (
    final_order,
    insert_audit_event db3
        (review_event event2 p.order.id "ORDER_RETRY_RESTORED" operator (recorded_at + 1)),
  )

-- `retry_order`
unfoldable pub retry_order :
    (Generation → String)
    → Db
    → Option (ℕ × ℕ)
    → Db
    → Option (ℕ × ℕ)
    → ℕ
    → Option String
    → OperatorContext
    → ℕ
    → ℕ
    → ℕ
    → ℕ
    → Result (Order × Db)
retry_order tag preflight seen_revision db revision order_id if_match operator recorded_at now
      event1 event2 =
    do
      require_retry operator
      seen ← require_generation tag preflight order_id seen_revision if_match
      or_conflict (do
        p ← require_generation tag db order_id revision if_match
        retry_locked db p operator recorded_at now event1 event2)

abbrev pub answers_gmail : SourceDocument → Bool
answers_gmail d = is_gmail_source d && is_non_blank d.message_id

abbrev pub notify_gmail : Bool → Db → ℕ → Order → AuditEvent → String → Result Db
notify_gmail false db id o event url = ok db
notify_gmail true db id o event url =
    create_notification_intent db id o event gmail order_approved url []

-- The body of the approval's transaction, on the locked order.
unfoldable pub approve_locked :
    Db → PersistedOrder → OperatorContext → ℕ → ℕ → ℕ → ℕ → String → Result (Order × Db)
approve_locked db p operator recorded_at event_id slack_id gmail_id review_base_url = do
  guard (state_eq p.order.state ready_for_approval) invalid_review_state
  require_approval operator (has_high_value_warning p)
  final_order ← transition_to p.order approved
  db1 ← update_order_snapshot db final_order
  let event = review_event event_id p.order.id "ORDER_APPROVED" operator recorded_at
  db2 ← create_order_sync_intent (insert_audit_event db1 event) p.order.id recorded_at
  db3 ←
      create_notification_intent db2 slack_id final_order event slack order_approved review_base_url
        []
  db4 ←
      notify_gmail (any answers_gmail p.order.source_documents) db3 gmail_id final_order event
        review_base_url
  ok (final_order, db4)

-- `approve_order`
unfoldable pub approve_order :
    (Generation → String)
    → Db
    → Option (ℕ × ℕ)
    → Db
    → Option (ℕ × ℕ)
    → ℕ
    → Option String
    → OperatorContext
    → ℕ
    → ℕ
    → ℕ
    → ℕ
    → String
    → Result (Order × Db)
approve_order tag preflight seen_revision db revision order_id if_match operator recorded_at
      event_id slack_id gmail_id url =
    do
      require_approval operator false
      seen ← require_generation tag preflight order_id seen_revision if_match
      or_conflict (do
        p ← require_generation tag db order_id revision if_match
        approve_locked db p operator recorded_at event_id slack_id gmail_id url)
