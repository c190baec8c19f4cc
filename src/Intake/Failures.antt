-- ===== src/Intake/Failures.antt =====
-- Operational failures of an intake: src/opsflow/orchestration/failures.py.
use ops_flow_ai.Base.{
  ℕ, String, ◌&&◌, Option, none, [], str_eq, Result, ok, err, value_error, order_not_found,
  invalid_state_transition, ◌>>=◌, ◌>>◌, guard, or_raise,
}
use ops_flow_ai.Domain.State.{
  OrderState, processing, extracted, failed_retryable, failed_final, state_eq,
}
use ops_flow_ai.Domain.Records.{AuditEvent, new_event}
use ops_flow_ai.Domain.Order.{transition_to}
use ops_flow_ai.Store.{
  PersistedOrder, Db, get_order, update_order_snapshot, clear_intake_ownership, insert_audit_event,
}
use ops_flow_ai.Notify.Contracts.{slack, processing_failed}
use ops_flow_ai.Notify.Intents.{create_notification_intent}
use ops_flow_ai.Intake.Kinds.{require_current_intake_ownership}

pub data FailureDisposition : Type 0 where
  retryable final : FailureDisposition

pub record FailureClassification : Type 0 where
  pub disposition : FailureDisposition
  pub origin : OrderState
  pub target : OrderState
  pub event_type : String
  pub description : String

-- The classes of exceptions that the classifiers tell apart. A ProviderError here is one that is
-- neither a timeout nor an unavailability.
pub data FailureCause : Type 0 where
  provider_timeout provider_unavailable extraction_response provider_error : FailureCause
  document_processing business_data_provider validation_facts_changed : FailureCause
  invalid_trusted_data any_other : FailureCause

abbrev pub processing_event : String
processing_event = "ORDER_PROCESSING_FAILED"

abbrev pub processing_description : String
processing_description = "Orchestration processing stopped with a persisted operational failure."

abbrev pub extracted_event : String
extracted_event = "ORDER_VALIDATION_FAILED"

abbrev pub extracted_description : String
extracted_description =
    "Deterministic validation could not complete; a persisted operational failure was recorded."

abbrev pub target_of : FailureDisposition → OrderState
target_of retryable = failed_retryable
target_of final = failed_final

-- `_classification`
abbrev pub classification :
    FailureDisposition → OrderState → String → String → FailureClassification
classification disposition origin event_type description = record {
  disposition = disposition;
  origin = origin;
  target = target_of disposition;
  event_type = event_type;
  description = description;
}

abbrev pub processing_disposition : FailureCause → FailureDisposition
processing_disposition provider_timeout = retryable
processing_disposition provider_unavailable = retryable
processing_disposition _ = final

abbrev pub extracted_disposition : FailureCause → FailureDisposition
extracted_disposition provider_timeout = retryable
extracted_disposition provider_unavailable = retryable
extracted_disposition business_data_provider = retryable
extracted_disposition validation_facts_changed = retryable
extracted_disposition _ = final

unfoldable pub classify_processing_failure : FailureCause → FailureClassification
classify_processing_failure cause =
    classification (processing_disposition cause) processing processing_event processing_description

unfoldable pub classify_extracted_failure : FailureCause → FailureClassification
classify_extracted_failure cause =
    classification (extracted_disposition cause) extracted extracted_event extracted_description

abbrev expected_texts : OrderState → Result (String × String)
expected_texts processing = ok (processing_event, processing_description)
expected_texts extracted = ok (extracted_event, extracted_description)
expected_texts _ = err value_error

-- `_require_valid_classification`
unfoldable pub require_valid_classification : FailureClassification → Result (Unit {0})
require_valid_classification c = do
  (event, description) ← expected_texts c.origin
  guard
      (state_eq c.target (target_of c.disposition)
        && (str_eq c.event_type event && str_eq c.description description))
      value_error

abbrev pub failure_event : ℕ → ℕ → FailureClassification → String → ℕ → AuditEvent
failure_event event_id order_id c actor recorded_at = record {
  id = event_id;
  order_id = order_id;
  event_type = c.event_type;
  actor = actor;
  occurred_at = recorded_at;
}

-- The transaction of `persist_orchestration_failure`, on the locked order.
unfoldable pub fail_locked :
    Db
    → PersistedOrder
    → FailureClassification
    → AuditEvent
    → ℕ
    → String
    → Result (PersistedOrder × Db)
fail_locked db locked c event delivery_id review_base_url = do
  failed_order ← transition_to locked.order c.target
  db1 ← update_order_snapshot db failed_order
  db2 ← clear_intake_ownership db1 locked.order.id
  checked ← new_event event
  db3 ←
      create_notification_intent (insert_audit_event db2 checked) delivery_id failed_order checked
        slack processing_failed review_base_url []
  ok (
    record locked {
      order = failed_order;
      intake_claim_token = none;
      intake_claim_expires_at = none;
    },
    db3,
  )

-- `persist_orchestration_failure`
unfoldable pub persist_orchestration_failure :
    Db
    → ℕ
    → FailureClassification
    → String
    → ℕ
    → String
    → Option ℕ
    → ℕ
    → ℕ
    → ℕ
    → Result (PersistedOrder × Db)
persist_orchestration_failure db order_id c actor recorded_at review_base_url token clock event_id
      delivery_id =
    do
      require_valid_classification c
      locked ← or_raise (get_order db order_id) order_not_found
      guard (state_eq locked.order.state c.origin) invalid_state_transition
      require_current_intake_ownership locked token clock
      fail_locked db locked c (failure_event event_id order_id c actor recorded_at) delivery_id
          review_base_url
