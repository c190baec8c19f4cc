-- ===== src/Application/Validation.antt =====
-- `validate_order` of src/opsflow/application/validation.py: two reads and one transaction, each of
-- which sees a database of its own. The provider of trusted data is a parameter.
use ops_flow_ai.Base.{
  ℕ, ◌+◌, String, Bool, not, ◌&&◌, Option, List, [], ◌∷◌, Result, ok, order_not_found,
  validation_facts_changed, invalid_trusted_data, ◌>>=◌, ◌>>◌, guard, or_raise, if◌then◌else◌,
}
use ops_flow_ai.Domain.State.{OrderState, validated}
use ops_flow_ai.Domain.Records.{AuditEvent}
use ops_flow_ai.Domain.Order.{Order, transition_to, promote_validated_data}
use ops_flow_ai.Validation.Draft.{ExtractionDraft}
use ops_flow_ai.Validation.Models.{
  ValidationRoute, needs_review, ready_for_approval, BusinessDataLookupRequest, TrustedBusinessData,
  ValidationContext, ValidationFacts, ValidationPolicy, ValidationResult,
}
use ops_flow_ai.Validation.Engine.{validate}
use ops_flow_ai.Store.{
  PersistedOrder, Db, get_order, update_order_snapshot, insert_audit_event, clear_intake_ownership,
}
use ops_flow_ai.Store.Graph.{
  replace_validation_issues, replace_order_graph, new_snapshot, insert_extraction_snapshot,
}
use ops_flow_ai.Store.Facts.{build_validation_facts}
use ops_flow_ai.Intake.Kinds.{require_current_intake_ownership}
use ops_flow_ai.Notify.Contracts.{slack, NotificationKind, review_required, approval_ready}
use ops_flow_ai.Notify.Intents.{create_notification_intent}
use ops_flow_ai.Application.Checks.{
  require_validatable, get_trusted_business_data, canonical_customer_reference,
}

-- The ids that `uuid4` gives to the rows of one call; the lines are numbered from `line`.
pub record FreshIds : Type 0 where
  pub snapshot : ℕ
  pub event1 : ℕ
  pub event2 : ℕ
  pub event3 : ℕ
  pub notification : ℕ
  pub line : ℕ

-- tuple(uuid4() for _ in lines)
abbrev pub line_ids_from {ℓ} : {A : Type ℓ} → ℕ → List A → List ℕ
line_ids_from first [] = []
line_ids_from first (x ∷ xs) = first ∷ line_ids_from (first + 1) xs

-- promoted.transition_to(VALIDATED).transition_to(target)
unfoldable pub route_to : Order → OrderState → Result Order
route_to o target = do
  validated_order ← transition_to o validated
  transition_to validated_order target

-- The order after validation.
unfoldable pub routed_order : Order → ValidationResult → ℕ → Result Order
unfolding route_to
routed_order o result first_line = elim result.route [
  | ready_for_approval ↦ do
    trusted ← or_raise result.validated_order_data invalid_trusted_data
    promoted ← promote_validated_data o trusted (line_ids_from first_line trusted.lines)
    route_to promoted OrderState.ready_for_approval
  | needs_review ↦ route_to o OrderState.needs_review
]

-- if validation_result.route is READY_FOR_APPROVAL: replace_order_graph
abbrev pub save_lines : ValidationRoute → Db → Order → Result Db
save_lines ready_for_approval db o = replace_order_graph db o
save_lines needs_review db o = ok db

abbrev pub route_event : ValidationRoute → String
route_event ready_for_approval = "ORDER_READY_FOR_APPROVAL"
route_event needs_review = "ORDER_NEEDS_REVIEW"

abbrev pub route_notification : ValidationRoute → NotificationKind
route_notification ready_for_approval = approval_ready
route_notification needs_review = review_required

abbrev pub system_event : ℕ → ℕ → String → ℕ → AuditEvent
system_event event_id order_id event_type at_time = record {
  id = event_id;
  order_id = order_id;
  event_type = event_type;
  actor = "system";
  occurred_at = at_time;
}

abbrev bool_eq : Bool → Bool → Bool
bool_eq a b = if a then b else not b

abbrev pub facts_eq : ValidationFacts → ValidationFacts → Bool
facts_eq a b =
    bool_eq a.duplicate_customer_po b.duplicate_customer_po
    && bool_eq a.document_already_processed b.document_already_processed

-- The writes of the transaction, after its checks.
unfoldable pub save_validation :
    Db
    → PersistedOrder
    → ℕ
    → ExtractionDraft
    → ValidationResult
    → FreshIds
    → ℕ
    → String
    → Result (Order × Db)
unfolding routed_order
save_validation db p source_id draft result ids recorded_at review_base_url = do
  let id = p.order.id
  snapshot ← new_snapshot (record {
    id = ids.snapshot;
    order_id = id;
    source_document_id = source_id;
    source_sha256 = draft.source_sha256;
    source_document_type = draft.source_document_type;
    draft = draft;
    created_at = recorded_at;
  })
  db1 ← insert_extraction_snapshot db snapshot
  db2 ← replace_validation_issues db1 id result.issues
  final_order ← routed_order p.order result ids.line
  db3 ← update_order_snapshot db2 final_order
  db4 ← clear_intake_ownership db3 id
  db5 ← save_lines result.route db4 final_order
  let last = system_event ids.event3 id (route_event result.route) (recorded_at + 2)
  let db6 =
      insert_audit_event db5 (system_event ids.event1 id "EXTRACTION_SNAPSHOT_RECORDED" recorded_at)
  let db7 = insert_audit_event db6 (system_event ids.event2 id "ORDER_VALIDATED" (recorded_at + 1))
  db8 ←
      create_notification_intent (insert_audit_event db7 last) ids.notification final_order last
        slack (route_notification result.route) review_base_url result.issues
  ok (final_order, db8)

-- The transaction: the checks again under the lock, and the facts as they are now.
unfoldable pub commit_validation :
    Db
    → ℕ
    → ℕ
    → ExtractionDraft
    → Option String
    → ValidationFacts
    → ValidationResult
    → Option ℕ
    → ℕ
    → FreshIds
    → ℕ
    → String
    → Result (Order × Db)
unfolding save_validation
commit_validation db order_id source_id draft reference facts result token clock ids recorded_at
      review_base_url =
    do
      locked ← or_raise (get_order db order_id) order_not_found
      require_current_intake_ownership locked token clock
      require_validatable db locked source_id draft
      fresh_facts ←
          build_validation_facts db order_id source_id reference draft.po_number draft.source_sha256
      guard (facts_eq fresh_facts facts) validation_facts_changed
      save_validation db locked source_id draft result ids recorded_at review_base_url

-- `validate_order`: `seen` is the database of the first read, `seen_later` that of the second.
unfoldable pub validate_order :
    (BusinessDataLookupRequest → Result TrustedBusinessData)
    → ValidationPolicy
    → ValidationContext
    → Db
    → Db
    → Db
    → ℕ
    → ℕ
    → ExtractionDraft
    → Option ℕ
    → ℕ
    → FreshIds
    → ℕ
    → String
    → Result (Order × ValidationResult × Db)
unfolding commit_validation
validate_order provider policy context seen seen_later db order_id source_id draft token clock ids
      recorded_at review_base_url =
    do
      p ← or_raise (get_order seen order_id) order_not_found
      require_validatable seen p source_id draft
      trusted ← get_trusted_business_data provider draft
      let reference = canonical_customer_reference trusted
      facts ←
          build_validation_facts seen_later order_id source_id reference draft.po_number
            draft.source_sha256
      result ← validate draft trusted facts policy context
      committed ←
          commit_validation db order_id source_id draft reference facts result token clock ids
            recorded_at review_base_url
      ok (committed.0, result, committed.1)
