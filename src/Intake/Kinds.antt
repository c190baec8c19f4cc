-- ===== src/Intake/Kinds.antt =====
-- The ownership decision of an intake claim: `decide_intake_claim_kind` and
-- `_recover_stale_ownership` of src/opsflow/orchestration/claims.py, and the ownership fence of
-- src/opsflow/orchestration/ownership.py.
use ops_flow_ai.Base.{
  ℕ, ◌+◌, ◌-◌, ◌/◌, Bool, true, false, not, ◌&&◌, ◌||◌, Option, none, some, List, [], ◌∷◌, ◌==◌,
  leb, opt_eq, is_some, is_none, Result, ok, stale_intake_ownership, guard, if◌then◌else◌,
}
use Prim.Native.Nat.{max, min}
use ops_flow_ai.Domain.State.{OrderState, received, processing, extracted}
use ops_flow_ai.Domain.Records.{AuditEvent}
use ops_flow_ai.Store.{PersistedOrder}
use ops_flow_ai.Intake.History.{
  KnownEvent, order_received, normalized_audit_event_types, audit_history_status, Status,
  is_processing, is_processing_again, is_extracted, is_extracted_broken, is_extracted_again,
}

pub data IntakeClaimKind : Type 0 where
  initial resume_processing resume_extracted recover_processing recover_extracted : IntakeClaimKind
  stand_down : IntakeClaimKind

abbrev is_received_only : List KnownEvent → Bool
is_received_only (order_received ∷ []) = true
is_received_only _ = false

-- The phases that go with PROCESSING, and those that go with EXTRACTED.
abbrev pub in_processing : Status → Bool
in_processing s = is_processing s.phase || is_processing_again s.phase

abbrev pub in_extracted : Status → Bool
in_extracted s = is_extracted s.phase || (is_extracted_broken s.phase || is_extracted_again s.phase)

abbrev pub kind_in : OrderState → Status → IntakeClaimKind
kind_in processing s =
    if in_processing s && s.processing_retry then resume_processing else stand_down
kind_in extracted s = if in_extracted s && s.extracted_retry then resume_extracted else stand_down
kind_in _ s = stand_down

abbrev pub kind_of_status : OrderState → Option Status → IntakeClaimKind
kind_of_status state none = stand_down
kind_of_status state (some s) = kind_in state s

-- The decision on the event types.
abbrev pub decide_kind : OrderState → List KnownEvent → IntakeClaimKind
decide_kind received types = if is_received_only types then initial else stand_down
decide_kind processing types = kind_of_status processing (audit_history_status types)
decide_kind extracted types = kind_of_status extracted (audit_history_status types)
decide_kind _ types = stand_down

unfoldable pub decide_intake_claim_kind : OrderState → List AuditEvent → IntakeClaimKind
decide_intake_claim_kind state events = elim (normalized_audit_event_types events) [
  | none ↦ stand_down
  | some types ↦ decide_kind state types
]

abbrev pub recoverable_in : OrderState → Option Status → Bool
recoverable_in processing (some s) = in_processing s
recoverable_in extracted (some s) = in_extracted s
recoverable_in _ _ = false

-- `_is_recoverable_in_progress_history`
unfoldable pub is_recoverable_in_progress_history : OrderState → List AuditEvent → Bool
is_recoverable_in_progress_history state events = elim (normalized_audit_event_types events) [
  | none ↦ false
  | some types ↦ recoverable_in state (audit_history_status types)
]

abbrev pub lease_seconds : ℕ
lease_seconds = 210

-- math.ceil of a positive time in microseconds, in seconds
abbrev pub ceil_seconds : ℕ → ℕ
ceil_seconds t = (t + 999999) / 1000000

abbrev pub recovery_kind : OrderState → IntakeClaimKind
recovery_kind processing = recover_processing
recovery_kind _ = recover_extracted

-- `_recover_stale_ownership`: a recovery, or the delay after which a caller may try again.
unfoldable pub recover_stale_ownership :
    PersistedOrder → List AuditEvent → ℕ → IntakeClaimKind × Option ℕ
recover_stale_ownership p events clock =
    if is_recoverable_in_progress_history p.order.state events && is_some p.intake_claim_token
    then elim p.intake_claim_expires_at [
      | none ↦ (stand_down, none)
      | some expires ↦
          if leb expires clock
          then (recovery_kind p.order.state, none)
          else (stand_down, some (max 1 (min (ceil_seconds (expires - clock)) lease_seconds)))
    ]
    else (stand_down, none)

-- The kind of a claim on a locked order, and what a stand-down asks the caller to wait.
unfoldable pub claim_kind : PersistedOrder → List AuditEvent → ℕ → IntakeClaimKind × Option ℕ
claim_kind p events clock = elim (decide_intake_claim_kind p.order.state events) [
  | stand_down ↦ recover_stale_ownership p events clock
  | kind ↦ (kind, none)
]

-- The event that a granted claim records.
abbrev pub event_of_kind : IntakeClaimKind → Option KnownEvent
event_of_kind initial = some KnownEvent.processing_started
event_of_kind resume_processing = some KnownEvent.processing_resumed
event_of_kind resume_extracted = some KnownEvent.extraction_resumed
event_of_kind recover_processing = some KnownEvent.processing_recovered
event_of_kind recover_extracted = some KnownEvent.extraction_recovered
event_of_kind stand_down = none

-- The state in which an order is once a claim of the kind is granted.
abbrev pub state_of_kind : OrderState → IntakeClaimKind → OrderState
state_of_kind s initial = processing
state_of_kind s _ = s

-- `require_current_intake_ownership`
unfoldable pub require_current_intake_ownership : PersistedOrder → Option ℕ → ℕ → Result (Unit {0})
require_current_intake_ownership p token clock =
    if is_none p.intake_claim_token && is_none token
    then ok tt
    else guard
        (is_some token
          && (opt_eq ◌==◌ p.intake_claim_token token
              && elim p.intake_claim_expires_at [ none ↦ false | some t ↦ not (leb t clock) ]))
        stale_intake_ownership
