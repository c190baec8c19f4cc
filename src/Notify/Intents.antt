-- ===== src/Notify/Intents.antt =====
-- Notification intents: `create_notification_intent` of src/opsflow/notifications/service.py with the
-- payloads of src/opsflow/notifications/payloads.py.
use ops_flow_ai.Base.{
  ℕ, String, Bool, true, false, not, ◌&&◌, ◌||◌, Option, none, some, List, [], ◌∷◌, ◌++◌, ◌==◌,
  str_eq, any, length, Result, ok, err, value_error, integrity_error, ◌>>=◌, ◌>>◌, guard, or_raise,
  if◌then◌else◌,
}
use ops_flow_ai.Domain.Records.{SourceDocument, AuditEvent, ValidationIssue, is_non_blank}
use ops_flow_ai.Domain.Order.{Order}
use ops_flow_ai.Store.{Db}
use ops_flow_ai.Notify.Contracts.{
  NotificationChannel, slack, gmail, NotificationKind, order_approved, NotificationStatus, pending,
  claimed, delivered, failed_final, Payload, slack_payload, gmail_payload, NotificationDelivery,
  new_delivery,
}

abbrev pub status_eq : NotificationStatus → NotificationStatus → Bool
status_eq pending pending = true
status_eq claimed claimed = true
status_eq delivered delivered = true
status_eq failed_final failed_final = true
status_eq _ _ = false

abbrev pub channel_eq : NotificationChannel → NotificationChannel → Bool
channel_eq slack slack = true
channel_eq gmail gmail = true
channel_eq _ _ = false

abbrev kind_no : NotificationKind → ℕ
kind_no NotificationKind.review_required = 0
kind_no NotificationKind.approval_ready = 1
kind_no NotificationKind.processing_failed = 2
kind_no NotificationKind.order_approved = 3

abbrev pub delivery_key : NotificationDelivery → ℕ
delivery_key d = d.id

-- `render_slack_payload`: the values that it formats.
abbrev pub render_slack_payload : NotificationKind → Order → List ValidationIssue → String → Payload
render_slack_payload kind o issues base_url =
    slack_payload kind o.id o.state (length issues) base_url

-- `render_gmail_approval_payload`
abbrev pub render_gmail_approval_payload : Option String → Result Payload
render_gmail_approval_payload none = err value_error
render_gmail_approval_payload (some m) =
    guard (is_non_blank (some m)) value_error >> ok (gmail_payload m)

abbrev pub is_gmail_source : SourceDocument → Bool
is_gmail_source d =
    any (λ entry. str_eq entry.0 "source_system" && str_eq entry.1 "GMAIL") d.metadata

-- `_gmail_message_id`: only the first source document from Gmail counts.
unfoldable pub gmail_message_id : List SourceDocument → Result String
gmail_message_id [] = err value_error
gmail_message_id (d ∷ ds) =
    let rest = gmail_message_id ds in
    if is_gmail_source d
    then (guard (is_non_blank d.message_id) value_error >> or_raise d.message_id value_error)
    else rest

abbrev pub payload_for :
    NotificationChannel → NotificationKind → Order → List ValidationIssue → String → Result Payload
payload_for slack kind o issues base_url = ok (render_slack_payload kind o issues base_url)
payload_for gmail order_approved o issues base_url = do
  m ← gmail_message_id o.source_documents
  render_gmail_approval_payload (some m)
payload_for gmail _ o issues base_url = err value_error

abbrev pub new_notification :
    ℕ → Order → AuditEvent → NotificationChannel → NotificationKind → Payload → NotificationDelivery
new_notification id o event channel kind payload = record {
  id = id;
  order_id = o.id;
  trigger_audit_event_id = event.id;
  channel = channel;
  kind = kind;
  payload = payload;
  status = pending;
  attempt_count = 0;
  claim_token = none;
  claim_expires_at = none;
  next_attempt_at = event.occurred_at;
  provider_reference = none;
  last_failure_code = none;
  created_at = event.occurred_at;
  updated_at = event.occurred_at;
}

-- The unique constraint on the trigger, the channel and the kind, and the primary key.
abbrev pub same_intent : NotificationDelivery → NotificationDelivery → Bool
same_intent a b =
    a.id == b.id
    || (a.trigger_audit_event_id == b.trigger_audit_event_id
        && (channel_eq a.channel b.channel && (kind_no a.kind == kind_no b.kind)))

-- `insert_notification_delivery`
unfoldable pub insert_notification_delivery : Db → NotificationDelivery → Result Db
insert_notification_delivery db d = do
  guard (not (any (same_intent d) db.deliveries)) (integrity_error false)
  ok (record db { deliveries = db.deliveries ++ d ∷ [] })

-- `create_notification_intent`
unfoldable pub create_notification_intent :
    Db
    → ℕ
    → Order
    → AuditEvent
    → NotificationChannel
    → NotificationKind
    → String
    → List ValidationIssue
    → Result Db
create_notification_intent db id o event channel kind review_base_url issues = do
  guard (event.order_id == o.id) value_error
  payload ← payload_for channel kind o issues review_base_url
  delivery ← new_delivery (new_notification id o event channel kind payload)
  insert_notification_delivery db delivery
