-- ===== src/Intake/Claims.antt =====
-- `claim_intake_execution` of src/opsflow/orchestration/claims.py. `normalize_mime_type`, of
-- documents/common.py, is a parameter.
use ops_flow_ai.Base.{
  ℕ, String, Bool, ◌&&◌, Option, none, some, List, [], ◌∷◌, ◌==◌, str_eq, opt_eq, Result, ok, err,
  order_not_found, idempotency_conflict, source_identity_mismatch, ◌>>=◌, ◌>>◌, guard, or_raise,
  if◌then◌else◌,
}
use ops_flow_ai.Domain.State.{processing}
use ops_flow_ai.Domain.Records.{SourceDocumentType, SourceDocument, AuditEvent, new_event}
use ops_flow_ai.Domain.Order.{transition_to}
use ops_flow_ai.Domain.Records.{type_eq}
use ops_flow_ai.Store.{
  PersistedOrder, Db, get_order, update_order_snapshot, insert_audit_event, set_intake_ownership,
}
use ops_flow_ai.Store.Keys.{get_idempotency_record}
use ops_flow_ai.Intake.History.{KnownEvent, event_name}
use ops_flow_ai.Intake.Kinds.{
  IntakeClaimKind, initial, stand_down, lease_seconds, claim_kind, event_of_kind,
}

pub record OrchestrationSourceIdentity : Type 0 where
  pub document_type : SourceDocumentType
  pub name : String
  pub mime_type : String
  pub sha256 : String
  pub message_id : Option String

pub record IntakeClaim : Type 0 where
  pub kind : IntakeClaimKind
  pub persisted : PersistedOrder
  pub source_document_id : ℕ
  pub ownership_token : Option ℕ
  pub ownership_expires_at : Option ℕ
  pub retry_after_seconds : Option ℕ

-- `get_audit_events`; the decision sorts them.
unfoldable pub events_of : ℕ → List AuditEvent → List AuditEvent
events_of id [] = []
events_of id (e ∷ es) = let rest = events_of id es in if e.order_id == id then e ∷ rest else rest

abbrev pub same_document : SourceDocument → OrchestrationSourceIdentity → String → Bool
same_document d source mime_type =
    type_eq d.document_type source.document_type
    && (str_eq d.name source.name
        && (str_eq d.mime_type mime_type
            && (str_eq d.sha256 source.sha256 && opt_eq str_eq d.message_id source.message_id)))

-- `_require_source_identity`
unfoldable pub require_source_identity :
    (String → Option String) → List SourceDocument → OrchestrationSourceIdentity → Result ℕ
require_source_identity normalize_mime_type (d ∷ []) source = do
  mime_type ← or_raise (normalize_mime_type source.mime_type) source_identity_mismatch
  guard (same_document d source mime_type) source_identity_mismatch
  ok d.id
require_source_identity normalize_mime_type _ source = err source_identity_mismatch

-- The checks on the locked order.
unfoldable pub require_claimable :
    (String → Option String)
    → Db
    → ℕ
    → String
    → String
    → OrchestrationSourceIdentity
    → Result (PersistedOrder × ℕ)
require_claimable normalize_mime_type db order_id key fingerprint source = do
  persisted ← or_raise (get_order db order_id) order_not_found
  found ← or_raise (get_idempotency_record db key) idempotency_conflict
  guard (found.order_id == order_id && str_eq found.request_fingerprint fingerprint)
      idempotency_conflict
  document ← require_source_identity normalize_mime_type persisted.order.source_documents source
  ok (persisted, document)

abbrev pub claim_event_of : ℕ → ℕ → KnownEvent → String → ℕ → AuditEvent
claim_event_of id order_id known actor recorded_at = record {
  id = id;
  order_id = order_id;
  event_type = event_name known;
  actor = actor;
  occurred_at = recorded_at;
}

-- The first claim moves the order to PROCESSING.
unfoldable pub start_processing :
    Db → PersistedOrder → IntakeClaimKind → Result (PersistedOrder × Db)
start_processing db p initial = do
  order ← transition_to p.order processing
  db1 ← update_order_snapshot db order
  ok (record p { order = order }, db1)
start_processing db p kind = ok (p, db)

abbrev pub granted_claim : PersistedOrder → ℕ → IntakeClaimKind → ℕ → ℕ → IntakeClaim
granted_claim p document kind token expires = record {
  kind = kind;
  persisted = record p { intake_claim_token = some token; intake_claim_expires_at = some expires };
  source_document_id = document;
  ownership_token = some token;
  ownership_expires_at = some expires;
  retry_after_seconds = none;
}

-- A granted claim: the event of its kind, and the ownership under a fresh token.
unfoldable pub grant_intake :
    Db → PersistedOrder → ℕ → IntakeClaimKind → AuditEvent → ℕ → ℕ → Result (IntakeClaim × Db)
grant_intake db persisted document kind event token granted_at = do
  (p, db1) ← start_processing db persisted kind
  checked ← new_event event
  (expires, db2) ←
      set_intake_ownership (insert_audit_event db1 checked) event.order_id token lease_seconds
        granted_at
  ok (granted_claim p document kind token expires, db2)

abbrev pub stood_down : PersistedOrder → ℕ → Option ℕ → IntakeClaim
stood_down p document retry_after = record {
  kind = stand_down;
  persisted = p;
  source_document_id = document;
  ownership_token = none;
  ownership_expires_at = none;
  retry_after_seconds = retry_after;
}

-- `claim_intake_execution`; `clock` and `granted_at` are two reads of clock_timestamp().
unfoldable pub claim_intake_execution :
    (String → Option String)
    → Db
    → ℕ
    → String
    → String
    → OrchestrationSourceIdentity
    → String
    → ℕ
    → ℕ
    → ℕ
    → ℕ
    → ℕ
    → Result (IntakeClaim × Db)
claim_intake_execution normalize_mime_type db order_id key fingerprint source actor recorded_at
      clock granted_at event_id token =
    do
      (persisted, document) ←
          require_claimable normalize_mime_type db order_id key fingerprint source
      let (kind, retry_after) = claim_kind persisted (events_of order_id db.audit) clock
      elim (event_of_kind kind) [
        | none ↦ ok (stood_down persisted document retry_after, db)
        | some known ↦
            grant_intake db persisted document kind
              (claim_event_of event_id order_id known actor recorded_at) token granted_at
      ]
