-- ===== src/Tests/Intake.antt =====
-- Runs of the intake decisions, and their theorems applied to them.
use ops_flow_ai.Base.{ℕ, ◌≡◌, ◌≤◌, refl, inl, true, false, some, List, [], ◌∷◌, arith, String, ◌+◌}
use ops_flow_ai.Domain.State.{OrderState}
use ops_flow_ai.Domain.Records.{AuditEvent}
use ops_flow_ai.Store.{PersistedOrder, seconds}
use ops_flow_ai.Intake.History.{
  KnownEvent, order_received, processing_started, processing_failed, retry_requested,
  retry_restored, processing_again, Status, audit_history_status, read_events, next_event,
  normalized_audit_event_types, sort_events, known_event,
}
use ops_flow_ai.Intake.Kinds.{
  stand_down, recover_stale_ownership, is_recoverable_in_progress_history,
}
use ops_flow_ai.Intake.Grants.{Consumed, claim_consumes_retry}
use ops_flow_ai.Intake.Ownership.{retry_after_is_enough}
use ops_flow_ai.Intake.Failures.{provider_timeout, classify_processing_failure}
use ops_flow_ai.Intake.Classes.{Records, classify-Records}
use ops_flow_ai.Tests.Data.{an_order, persisted}
use ops_flow_ai.Domain.Lifecycle.{IsValid}
use ops_flow_ai.Domain.Order.{currency_ok, is_currency_code, origin_ok}

abbrev failed_once : List KnownEvent
failed_once =
    order_received ∷ processing_started ∷ processing_failed ∷ retry_requested ∷ retry_restored ∷ []

abbrev failed_status : Status
failed_status = record {
  phase = processing_again;
  processing_retry = true;
  extracted_retry = false;
}

failed_run : audit_history_status failed_once ≡ some failed_status
unfolding audit_history_status read_events next_event
failed_run = refl

claim_consumes_retry_example : Consumed OrderState.processing failed_once failed_status
claim_consumes_retry_example =
    claim_consumes_retry OrderState.processing failed_once failed_status (inl refl) failed_run refl

-- An order that worker 70 owns until 300 seconds.
abbrev an_event : ℕ → String → AuditEvent
an_event id event_type = record {
  id = id;
  order_id = 1;
  event_type = event_type;
  actor = "intake";
  occurred_at = id;
}

abbrev trail : List AuditEvent
trail = an_event 2 "ORDER_PROCESSING_STARTED" ∷ an_event 1 "ORDER_RECEIVED" ∷ []

abbrev owned : PersistedOrder
owned = record (persisted (an_order OrderState.processing)) {
  intake_claim_token = some 70;
  intake_claim_expires_at = some 300000000;
}

trail_recoverable : is_recoverable_in_progress_history OrderState.processing trail ≡ true
unfolding is_recoverable_in_progress_history normalized_audit_event_types sort_events known_event
    audit_history_status read_events next_event
trail_recoverable = refl

retry_after_is_enough_example :
    (d : ℕ) × (recover_stale_ownership owned trail 100000000 ≡ (stand_down, some d))
    × (1 ≤ d)
    × (d ≤ 210)
    × (300000000 ≤ 100000000 + seconds d)
retry_after_is_enough_example =
    let (running, over) =
      retry_after_is_enough owned trail 100000000 70 300000000 refl refl (omega arith)
        trail_recoverable in
    running (omega arith)

processing-IsValid : IsValid (an_order OrderState.processing)
unfolding currency_ok is_currency_code origin_ok
processing-IsValid = record { currency = refl; origin = refl }

classify-Records_example :
    Records (an_order OrderState.processing) (classify_processing_failure provider_timeout)
classify-Records_example =
    let (in_processing, in_extracted) =
      classify-Records (an_order OrderState.processing) provider_timeout processing-IsValid in
    in_processing refl
