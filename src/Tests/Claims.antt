-- ===== src/Tests/Claims.antt =====
-- An intake claim on a received order, and the theorem on a second one.
use ops_flow_ai.Base.{ℕ, ◌≤◌, ◌≡◌, ◌≢◌, refl, none, some, [], ◌∷◌, arith, ok}
use ops_flow_ai.Base.Table.{find, put}
use ops_flow_ai.Domain.State.{received, normal_transitions}
use ops_flow_ai.Domain.Records.{SourceDocument, pdf, new_event, is_blank}
use ops_flow_ai.Domain.Order.{new_order, transition_to, currency_ok, is_currency_code, origin_ok}
use ops_flow_ai.Store.{
  Db, get_order, update_order_snapshot, insert_audit_event, set_intake_ownership,
}
use ops_flow_ai.Store.Keys.{find_record, get_idempotency_record}
use ops_flow_ai.Intake.History.{known_event, sort_events, normalized_audit_event_types}
use ops_flow_ai.Intake.Kinds.{initial, stand_down, decide_intake_claim_kind, claim_kind}
use ops_flow_ai.Intake.Claims.{
  OrchestrationSourceIdentity, IntakeClaim, events_of, require_source_identity, require_claimable,
  start_processing, grant_intake, stood_down, claim_intake_execution,
}
use ops_flow_ai.Intake.Exclusive.{claim_is_exclusive}
use ops_flow_ai.Tests.Data.{an_order, persisted}

abbrev document : SourceDocument
document = record {
  id = 5;
  document_type = pdf;
  name = "po.pdf";
  mime_type = "application/pdf";
  sha256 = "00ff";
  message_id = none;
  storage_reference = none;
  metadata = [];
}

abbrev the_source : OrchestrationSourceIdentity
the_source = record {
  document_type = pdf;
  name = "po.pdf";
  mime_type = "application/pdf";
  sha256 = "00ff";
  message_id = none;
}

-- Order 1 was received at the time 1 under the key "key".
abbrev received_db : Db
received_db = record {
  orders = persisted (record (an_order received) { source_documents = document ∷ [] }) ∷ [];
  syncs = [];
  deliveries = [];
  audit =
      record {
        id = 1;
        order_id = 1;
        event_type = "ORDER_RECEIVED";
        actor = "system";
        occurred_at = 1;
      }
      ∷ [];
  keys =
      record { idempotency_key = "key"; request_fingerprint = "fp"; order_id = 1; created_at = 1 }
      ∷ [];
  snapshots = [];
}

claimed :
    (x : IntakeClaim × Db) × (claim_intake_execution some received_db 1 "key" "fp" the_source
        "intake" 100 100 101 2 70
      ≡ ok x)
    × (x.0.kind ≡ initial)
unfolding claim_intake_execution require_claimable require_source_identity get_order find
    get_idempotency_record find_record claim_kind decide_intake_claim_kind
    normalized_audit_event_types sort_events known_event events_of grant_intake start_processing
    transition_to normal_transitions new_order currency_ok is_currency_code origin_ok
    update_order_snapshot put new_event is_blank insert_audit_event set_intake_ownership
claimed = (_, refl, refl)

granted : claimed.0.0.kind ≢ stand_down
granted h = ground (arith, claimed.2, h)

events_before : events_of 1 received_db.audit ≡ received_db.audit
unfolding events_of
events_before = refl

claim_is_exclusive_example :
    (d : ℕ) × (1 ≤ d)
    × (d ≤ 210)
    × (claim_intake_execution some claimed.0.1 1 "key" "fp" the_source "other" 150 150 151 3 71
        ≡ ok
            (stood_down claimed.0.0.persisted claimed.0.0.source_document_id (some d), claimed.0.1))
claim_is_exclusive_example =
    claim_is_exclusive some received_db 1 "key" "fp" the_source "intake" "other" 100 100 101 2 70
      150 150 151 3 71 claimed.1 granted (rw events_before refl) (omega arith) (omega arith)
