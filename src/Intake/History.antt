-- ===== src/Intake/History.antt =====
-- The audit history of an order: `_normalized_audit_event_types` and `_audit_history_status` of
-- src/opsflow/orchestration/claims.py.
use ops_flow_ai.Base.{
  ℕ, suc, String, Bool, true, false, not, ◌&&◌, ◌||◌, Option, none, some, List, [], ◌∷◌, ltb, ◌==◌,
  str_eq, all, is_some, is_none, if◌then◌else◌,
}
use ops_flow_ai.Domain.Records.{AuditEvent}

-- `_KNOWN_AUDIT_EVENTS`
pub data KnownEvent : Type 0 where
  order_received processing_started processing_recovered processing_failed processing_resumed :
      KnownEvent
  extraction_completed extraction_recovered extraction_resumed validation_failed : KnownEvent
  retry_requested retry_restored order_approved order_rejected : KnownEvent

abbrev pub event_name : KnownEvent → String
event_name order_received = "ORDER_RECEIVED"
event_name processing_started = "ORDER_PROCESSING_STARTED"
event_name processing_recovered = "ORDER_PROCESSING_RECOVERED"
event_name processing_failed = "ORDER_PROCESSING_FAILED"
event_name processing_resumed = "ORDER_PROCESSING_RESUMED"
event_name extraction_completed = "ORDER_EXTRACTION_COMPLETED"
event_name extraction_recovered = "ORDER_EXTRACTION_RECOVERED"
event_name extraction_resumed = "ORDER_EXTRACTION_RESUMED"
event_name validation_failed = "ORDER_VALIDATION_FAILED"
event_name retry_requested = "ORDER_RETRY_REQUESTED"
event_name retry_restored = "ORDER_RETRY_RESTORED"
event_name order_approved = "ORDER_APPROVED"
event_name order_rejected = "ORDER_REJECTED"

abbrev all_known : List KnownEvent
all_known =
    order_received ∷ processing_started ∷ processing_recovered ∷ processing_failed
    ∷ processing_resumed ∷ extraction_completed ∷ extraction_recovered ∷ extraction_resumed
    ∷ validation_failed ∷ retry_requested ∷ retry_restored ∷ order_approved ∷ order_rejected ∷ []

abbrev named_in : List KnownEvent → String → Option KnownEvent
named_in [] name = none
named_in (k ∷ ks) name = if str_eq (event_name k) name then some k else named_in ks name

unfoldable pub known_event : String → Option KnownEvent
known_event name = named_in all_known name

-- sorted(audit_events, key=lambda event: (event.occurred_at, event.id))
abbrev pub is_later : AuditEvent → AuditEvent → Bool
is_later a b = ltb b.occurred_at a.occurred_at || (a.occurred_at == b.occurred_at && ltb b.id a.id)

abbrev pub insert_sorted : AuditEvent → List AuditEvent → List AuditEvent
insert_sorted e [] = e ∷ []
insert_sorted e (x ∷ xs) = if is_later e x then x ∷ insert_sorted e xs else e ∷ x ∷ xs

unfoldable pub sort_events : List AuditEvent → List AuditEvent
sort_events [] = []
sort_events (e ∷ es) = insert_sorted e (sort_events es)

abbrev pub types_of : List AuditEvent → Option (List KnownEvent)
types_of [] = some []
types_of (e ∷ es) = elim (known_event e.event_type) [
  | none ↦ none
  | some k ↦ elim (types_of es) [ none ↦ none | some ks ↦ some (k ∷ ks) ]
]

abbrev pub of_one_order : List AuditEvent → Bool
of_one_order [] = true
of_one_order (e ∷ es) = all (λ x. x.order_id == e.order_id) es

-- `_normalized_audit_event_types`
unfoldable pub normalized_audit_event_types : List AuditEvent → Option (List KnownEvent)
normalized_audit_event_types events =
    if of_one_order (sort_events events) then types_of (sort_events events) else none

pub data Phase : Type 0 where
  received processing processing_broken processing_again : Phase
  extracted extracted_broken extracted_again : Phase

pub data Origin : Type 0 where
  from_processing from_extracted : Origin

-- The local variables of the loop. The retry generations are kept with the latest first.
pub record History : Type 0 where
  pub phase : Phase
  pub pending_failure : Option Origin
  pub pending_request : Option Origin
  pub received_seen : Bool
  pub started : Bool
  pub completed : Bool
  pub processing_generations : List Bool
  pub extracted_generations : List Bool

abbrev pub initial_history : History
initial_history = record {
  phase = received;
  pending_failure = none;
  pending_request = none;
  received_seen = false;
  started = false;
  completed = false;
  processing_generations = [];
  extracted_generations = [];
}

abbrev pub is_processing : Phase → Bool
is_processing processing = true
is_processing _ = false

abbrev is_received : Phase → Bool
is_received received = true
is_received _ = false

abbrev pub is_processing_again : Phase → Bool
is_processing_again processing_again = true
is_processing_again _ = false

abbrev pub is_extracted : Phase → Bool
is_extracted extracted = true
is_extracted _ = false

abbrev pub is_extracted_broken : Phase → Bool
is_extracted_broken extracted_broken = true
is_extracted_broken _ = false

abbrev pub is_extracted_again : Phase → Bool
is_extracted_again extracted_again = true
is_extracted_again _ = false

-- `_consume_latest_generation`: the generations after it, if there was one to consume.
unfoldable pub consume_latest_generation : List Bool → Option (List Bool)
consume_latest_generation [] = none
consume_latest_generation (g ∷ gs) =
    let rest = consume_latest_generation gs in
    if g then elim rest [ none ↦ none | some hs ↦ some (g ∷ hs) ] else some (true ∷ gs)

abbrev pending : History → Bool
pending h = is_some h.pending_failure || is_some h.pending_request

abbrev keep_if : Bool → History → Option History
keep_if b h = if b then some h else none

abbrev restored : History → Origin → History
restored h from_processing = record h {
  processing_generations = false ∷ h.processing_generations;
  phase = processing_again;
  pending_failure = none;
  pending_request = none;
}
restored h from_extracted = record h {
  extracted_generations = false ∷ h.extracted_generations;
  phase = extracted_again;
  pending_failure = none;
  pending_request = none;
}

-- One turn of the loop; None is the early return of an invalid history.
unfoldable pub next_event : ℕ → KnownEvent → History → Option History
next_event index order_received h =
    keep_if (not (h.received_seen || not (index == 0))) (record h { received_seen = true })
next_event index processing_started h =
    keep_if (not (h.started || (h.completed || not (is_received h.phase || is_processing h.phase))))
      (record h { started = true; phase = processing })
next_event index processing_failed h =
    keep_if (h.started && is_processing h.phase)
      (record h { pending_failure = some from_processing; phase = processing_broken })
next_event index processing_recovered h =
    keep_if (not (pending h) && is_processing h.phase) (record h { phase = processing })
next_event index extraction_completed h =
    keep_if (not (h.completed || pending h) && (not h.started || is_processing h.phase))
      (record h { completed = true; phase = extracted })
next_event index extraction_recovered h =
    keep_if (not (pending h) && is_extracted h.phase) (record h { phase = extracted })
next_event index validation_failed h =
    keep_if (not (pending h) && not (h.started && not h.completed))
      (record h { pending_failure = some from_extracted; phase = extracted_broken })
next_event index retry_requested h =
    keep_if (is_some h.pending_failure && is_none h.pending_request)
      (record h { pending_request = h.pending_failure })
next_event index retry_restored h = elim h.pending_request [
  | none ↦ none
  | some origin ↦ some (restored h origin)
]
next_event index processing_resumed h =
    if is_processing_again h.phase
    then elim (consume_latest_generation h.processing_generations) [
      | none ↦ none
      | some gs ↦ some (record h { processing_generations = gs; phase = processing })
    ]
    else none
next_event index extraction_resumed h =
    if is_extracted_again h.phase
    then elim (consume_latest_generation h.extracted_generations) [
      | none ↦ none
      | some gs ↦ some (record h { extracted_generations = gs; phase = extracted })
    ]
    else none
next_event index order_approved h = none
next_event index order_rejected h = none

unfoldable pub read_events : ℕ → List KnownEvent → History → Option History
read_events index [] h = some h
read_events index (e ∷ es) h = elim (next_event index e h) [
  | none ↦ none
  | some k ↦ read_events (suc index) es k
]

-- generations and not generations[-1]
abbrev pub has_unconsumed : List Bool → Bool
has_unconsumed [] = false
has_unconsumed (g ∷ gs) = not g

pub record Status : Type 0 where
  pub phase : Phase
  pub processing_retry : Bool
  pub extracted_retry : Bool

abbrev pub status_of : History → Option Status
status_of h =
    if pending h
    then none
    else some (record {
      phase = h.phase;
      processing_retry = has_unconsumed h.processing_generations;
      extracted_retry = has_unconsumed h.extracted_generations;
    })

abbrev pub is_order_received : KnownEvent → Bool
is_order_received order_received = true
is_order_received _ = false

abbrev pub is_processing_started : KnownEvent → Bool
is_processing_started processing_started = true
is_processing_started _ = false

-- event_types[:2] == ("ORDER_RECEIVED", "ORDER_PROCESSING_STARTED")
abbrev pub starts_right : List KnownEvent → Bool
starts_right (a ∷ b ∷ es) = is_order_received a && is_processing_started b
starts_right _ = false

-- `_audit_history_status`: None for an invalid history, whose other components nobody reads.
unfoldable pub audit_history_status : List KnownEvent → Option Status
audit_history_status es =
    if starts_right es
    then elim (read_events 0 es initial_history) [ none ↦ none | some h ↦ status_of h ]
    else none
