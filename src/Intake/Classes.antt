-- ===== src/Intake/Classes.antt =====
-- What the classification of a failure does to an order: src/opsflow/orchestration/failures.py with
-- src/opsflow/domain/order.py.
use ops_flow_ai.Base.{◌≡◌, refl, sym, ◌⊎◌, inl, inr, true, arith, ok}
use ops_flow_ai.Domain.State.{processing, extracted, normal_transitions, is_in}
use ops_flow_ai.Domain.Order.{Order, transition_to, retry}
use ops_flow_ai.Domain.Lifecycle.{IsValid, moved, transition_to-IsValid, retry-transition_to}
use ops_flow_ai.Intake.Failures.{
  FailureCause, FailureClassification, FailureDisposition, retryable, final, target_of,
  classification, processing_disposition, extracted_disposition, processing_event,
  processing_description, extracted_event, extracted_description, classify_processing_failure,
  classify_extracted_failure, require_valid_classification,
}

-- A classification is accepted and its failure can be recorded on a well-formed order in its origin;
-- what fails retryably, a retry restores.
pub record Records (o : Order) (c : FailureClassification) : Type 0 where
  pub accepted : require_valid_classification c ≡ ok tt
  pub its_origin : c.origin ≡ o.state
  pub its_target : c.target ≡ target_of c.disposition
  pub failed : transition_to o c.target ≡ ok (moved o c.target)
  pub restored : c.disposition ≡ retryable → retry (moved o c.target) ≡ ok o

allowed_failure :
    (o : Order) (d : FailureDisposition)
    → IsValid o
    → is_in (target_of d) (normal_transitions o.state) ≡ true
    → transition_to o (target_of d) ≡ ok (moved o (target_of d))
allowed_failure o d v h = rw (transition_to-IsValid o (target_of d) v, h) refl

retry_restores :
    (o : Order) (d : FailureDisposition)
    → IsValid o
    → transition_to o (target_of d) ≡ ok (moved o (target_of d))
    → d ≡ retryable
    → retry (moved o (target_of d)) ≡ ok o
retry_restores o retryable v h e = retry-transition_to o v h
retry_restores o final v h e = absurd (ground arith)

can_fail :
    (o : Order) (d : FailureDisposition)
    → ((o.state ≡ processing) ⊎ (o.state ≡ extracted))
    → is_in (target_of d) (normal_transitions o.state) ≡ true
unfolding normal_transitions
can_fail o d e = ground arith

accepts_processing :
    (d : FailureDisposition)
    → require_valid_classification
        (classification d processing processing_event processing_description)
      ≡ ok tt
unfolding require_valid_classification
accepts_processing retryable = refl
accepts_processing final = refl

accepts_extracted :
    (d : FailureDisposition)
    → require_valid_classification
        (classification d extracted extracted_event extracted_description)
      ≡ ok tt
unfolding require_valid_classification
accepts_extracted retryable = refl
accepts_extracted final = refl

-- Whatever exception stops the processing or the validation of a well-formed order, its
-- classification is one that `persist_orchestration_failure` accepts, the transition to its target
-- succeeds, and if the failure is retryable, `retry` gives back the order that failed.
pub classify-Records :
    (o : Order) (cause : FailureCause)
    → IsValid o
    → (o.state ≡ processing → Records o (classify_processing_failure cause))
      × (o.state ≡ extracted → Records o (classify_extracted_failure cause))
unfolding classify_processing_failure classify_extracted_failure
classify-Records o cause v = (
  λ e.
      let failed =
        allowed_failure o (processing_disposition cause) v
          (can_fail o (processing_disposition cause) (inl e)) in
      record {
        accepted = accepts_processing (processing_disposition cause);
        its_origin = sym e;
        its_target = refl;
        failed = failed;
        restored = retry_restores o (processing_disposition cause) v failed;
      },
  λ e.
      let failed =
        allowed_failure o (extracted_disposition cause) v
          (can_fail o (extracted_disposition cause) (inr e)) in
      record {
        accepted = accepts_extracted (extracted_disposition cause);
        its_origin = sym e;
        its_target = refl;
        failed = failed;
        restored = retry_restores o (extracted_disposition cause) v failed;
      },
)
