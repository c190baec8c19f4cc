-- ===== src/Tests/Application.antt =====
-- A run of `validate_order`, and its theorems at it.
use ops_flow_ai.Base.{
  ℕ, ◌≡◌, ◌↔◌, ◌⊎◌, refl, sym, subst, ◌∙◌, none, some, [], ◌∷◌, ◌==◌, Result, ok, ok-injective,
  if◌then◌else◌,
}
use ops_flow_ai.Base.Table.{find, put}
use ops_flow_ai.Decimal.{dec_leb, dec_mul, dec_add, dec_abs}
use ops_flow_ai.Domain.State.{OrderState, extracted, normal_transitions}
use ops_flow_ai.Domain.Records.{SourceDocument, pdf, is_blank, new_line}
use ops_flow_ai.Domain.Order.{
  Order, new_order, transition_to, promote_lines, promote_validated_data, currency_ok,
  is_currency_code, origin_ok, new_validated_line, new_validated_data,
}
use ops_flow_ai.Validation.Draft.{is_sha256}
use ops_flow_ai.Validation.Models.{
  ValidationFacts, ValidationResult, TrustedBusinessData, BusinessDataLookupRequest,
  new_lookup_request, optional_string_ok, has_error,
}
use ops_flow_ai.Validation.Lines.{price_within_tolerance}
use ops_flow_ai.Validation.Build.{zip_strict}
use ops_flow_ai.Validation.Engine.{validate}
use ops_flow_ai.Validation.Acceptance.{IsAcceptable}
use ops_flow_ai.Validation.Inputs.{paired, AreChecked}
use ops_flow_ai.Store.{
  PersistedOrder, Db, get_order, get_sync, update_order_snapshot, insert_audit_event,
  clear_intake_ownership,
}
use ops_flow_ai.Store.Graph.{
  new_snapshot, insert_extraction_snapshot, replace_validation_issues, replace_order_graph,
}
use ops_flow_ai.Store.Facts.{
  build_validation_facts, has_processed_source_sha, has_customer_po_duplicate,
  get_extraction_snapshot,
}
use ops_flow_ai.Sync.System.{IsDbSound}
use ops_flow_ai.Intake.Kinds.{require_current_intake_ownership}
use ops_flow_ai.Notify.Contracts.{new_delivery}
use ops_flow_ai.Notify.Intents.{create_notification_intent, insert_notification_delivery}
use ops_flow_ai.Application.Contract.{
  validate_trusted_business_data, distinct_references, sorted_texts, identity_ok,
}
use ops_flow_ai.Application.Checks.{
  require_validatable, require_owned_source, require_source_identity, require_extracted_state,
  raise_snapshot_status, get_trusted_business_data, canonical_customer_reference,
}
use ops_flow_ai.Application.Validation.{
  FreshIds, route_to, routed_order, save_validation, commit_validation, validate_order,
}
use ops_flow_ai.Application.Stored.{stored}
use ops_flow_ai.Application.Outcome.{validate_order_lem, validate_order-IsDbSound}
use ops_flow_ai.Tests.Data.{an_order, persisted}
use ops_flow_ai.Tests.Validation.{sha, trusted, policy, context, draft_for, inputs-AreChecked}

abbrev document : SourceDocument
document = record {
  id = 5;
  document_type = pdf;
  name = "po.pdf";
  mime_type = "application/pdf";
  sha256 = sha;
  message_id = none;
  storage_reference = none;
  metadata = [];
}

-- The order 1 in EXTRACTED, owned under the token 70 until the time 500.
abbrev extracted_row : PersistedOrder
extracted_row =
    record (persisted (record (an_order extracted) { source_documents = document ∷ [] })) {
      intake_claim_token = some 70;
      intake_claim_expires_at = some 500;
    }

abbrev extracted_db : Db
extracted_db = record {
  orders = extracted_row ∷ [];
  syncs = [];
  deliveries = [];
  audit = [];
  keys = [];
  snapshots = [];
}

abbrev provider : BusinessDataLookupRequest → Result TrustedBusinessData
provider request = ok trusted

abbrev ids : FreshIds
ids = record { snapshot = 10; event1 = 11; event2 = 12; event3 = 13; notification = 14; line = 15 }

provided : get_trusted_business_data provider (draft_for 80) ≡ ok trusted
unfolding get_trusted_business_data validate_trusted_business_data new_lookup_request
    optional_string_ok is_blank distinct_references sorted_texts identity_ok zip_strict
provided = refl

provided-AreChecked :
    (t : TrustedBusinessData)
    → get_trusted_business_data provider (draft_for 80) ≡ ok t
    → AreChecked (draft_for 80) t policy
provided-AreChecked t h =
    subst (λ t. AreChecked (draft_for 80) t policy) (ok-injective (sym provided ∙ h))
      (inputs-AreChecked 80)

ran :
    (x : Order × ValidationResult × Db) × (validate_order provider policy context extracted_db
        extracted_db extracted_db 1 5
        (draft_for 80)
        (some 70)
        400
        ids
        400
        "https://ops"
      ≡ ok x)
    × (x.0.state ≡ OrderState.ready_for_approval)
unfolding validate_order commit_validation save_validation routed_order route_to transition_to
    normal_transitions new_order new_line promote_lines promote_validated_data currency_ok
    is_currency_code origin_ok new_validated_line new_validated_data is_sha256 is_blank validate
    has_error dec_leb price_within_tolerance dec_abs dec_add dec_mul get_order find put
    update_order_snapshot insert_audit_event clear_intake_ownership new_snapshot
    insert_extraction_snapshot replace_validation_issues replace_order_graph build_validation_facts
    has_processed_source_sha has_customer_po_duplicate get_extraction_snapshot
    require_current_intake_ownership new_delivery create_notification_intent
    insert_notification_delivery require_validatable require_owned_source require_source_identity
    require_extracted_state raise_snapshot_status canonical_customer_reference
    get_trusted_business_data validate_trusted_business_data new_lookup_request optional_string_ok
    distinct_references sorted_texts identity_ok zip_strict
ran = (_, refl, refl)

validate_order_lem_example :
    (p : PersistedOrder) × (t : TrustedBusinessData) × (facts : ValidationFacts) × (get_order
        extracted_db 1
      ≡ some p)
    × (p.order.state ≡ extracted)
    × (get_trusted_business_data provider (draft_for 80) ≡ ok t)
    × (build_validation_facts extracted_db 1 5
          (canonical_customer_reference t)
          (draft_for 80).po_number
          (draft_for 80).source_sha256
        ≡ ok facts)
    × ((ran.0.0.state ≡ OrderState.ready_for_approval) ⊎ (ran.0.0.state ≡ OrderState.needs_review))
    × ((ran.0.0.state ≡ OrderState.ready_for_approval)
        ↔ IsAcceptable (draft_for 80) (paired (draft_for 80) t) t facts policy context)
validate_order_lem_example =
    validate_order_lem provider policy context extracted_db extracted_db extracted_db 1 5
      (draft_for 80) (some 70) 400 ids 400 "https://ops" provided-AreChecked ran.1

extracted_db-IsDbSound : IsDbSound extracted_db
unfolding get_sync find
extracted_db-IsDbSound = record { distinct = tt; sound = λ id o r found_order found_sync. cc }

validate_order-IsDbSound_example :
    (p : PersistedOrder) × (get_order extracted_db 1 ≡ some p)
    × ((j : ℕ)
        → get_order ran.0.2 j
          ≡ (if ran.0.0.id == j then some (stored p ran.0.0 ran.0.1) else get_order extracted_db j))
    × IsDbSound ran.0.2
validate_order-IsDbSound_example =
    validate_order-IsDbSound provider policy context extracted_db extracted_db extracted_db 1 5
      (draft_for 80) (some 70) 400 ids 400 "https://ops" extracted_db-IsDbSound ran.1
