-- ===== src/Intake/Grants.antt =====
-- What a granted intake claim does to the history of its order: `decide_intake_claim_kind` of
-- src/opsflow/orchestration/claims.py, before and after the event that the claim records.
use ops_flow_ai.Base.{
  ℕ, suc, ◌+◌, ◌≡◌, refl, ap, ◌∙◌, sym, subst, ◌⊎◌, inl, inr, Bool, true, false, some, List, [],
  ◌∷◌, ◌++◌, arith, length, Bool-cases, Option-cases, if◌then◌else◌,
}
use ops_flow_ai.Domain.State.{OrderState}
use ops_flow_ai.Intake.History.{
  KnownEvent, processing_resumed, processing_recovered, extraction_recovered, extraction_resumed,
  Phase, processing, processing_again, extracted, extracted_again, History, initial_history,
  next_event, read_events, Status, status_of, audit_history_status, starts_right,
}
use ops_flow_ai.Intake.Kinds.{
  IntakeClaimKind, resume_processing, resume_extracted, recover_processing, recover_extracted,
  stand_down, decide_kind, kind_of_status, recoverable_in, event_of_kind, in_processing,
  in_extracted,
}
use ops_flow_ai.Intake.Reading.{IsRead, Reading, Reading-of, consume_latest}

last_read :
    (index : ℕ) (e : KnownEvent) (h k : History)
    → h ≡ k
    → read_events index (e ∷ []) h ≡ next_event index e k
unfolding read_events
last_read index e h k q = elim (Option-cases (next_event index e h)) [
  | inl stops ↦ rw (read_events, stops) (sym stops ∙ ap (next_event index e) q)
  | inr (m, goes) ↦ rw (read_events, goes) (sym goes ∙ ap (next_event index e) q)
]

read_events-append :
    (index : ℕ) (es : List KnownEvent) (e : KnownEvent) (h k : History)
    → read_events index es h ≡ some k
    → read_events index (es ++ e ∷ []) h ≡ next_event (index + length es) e k
unfolding read_events
read_events-append index [] e h k q =
    let same : index ≡ index + 0 = omega arith in
    last_read index e h k (ground arith) ∙ ap (λ i. next_event i e k) same
read_events-append index (x ∷ es) e h k q = elim (Option-cases (next_event index x h)) [
  | inl stops ↦ absurd (ground arith)
  | inr (m, goes) ↦
      let rest : read_events (suc index) (es ++ e ∷ []) m ≡ next_event (suc index + length es) e k =
        read_events-append (suc index) es e m k (ground arith) in
      let same : suc index + length es ≡ index + suc (length es) = omega arith in
      ground (arith, goes, rest, ap (λ i. next_event i e k) same)
]

abbrev in_phase : Phase → History → History
in_phase p h = record h { phase = p }

module _ (index : ℕ) (h : History) {s : Status} (r : IsRead h) (q : status_of h ≡ some s) where
  -- The history after a processing claim.
  resumed_processing :
      in_processing s ≡ true
      → (k : History) × (next_event index
            (if s.processing_retry then processing_resumed else processing_recovered)
            h
          ≡ some k)
        × (status_of k ≡ some (record s { phase = processing; processing_retry = false }))
  unfolding next_event
  resumed_processing p = elim (Bool-cases s.processing_retry) [
    | inl retry ↦
        let again : h.phase ≡ processing_again = ground arith in
        let (gs, consumed, used) =
          consume_latest h.processing_generations (r.processing_free again) in
        (record h { processing_generations = gs; phase = processing }, ground arith, ground arith)
    | inr calm ↦ (record h { phase = processing }, ground arith, ground arith)
  ]

  resumed_extracted :
      in_extracted s ≡ true
      → (k : History) × (next_event index
            (if s.extracted_retry then extraction_resumed else extraction_recovered)
            h
          ≡ some k)
        × (status_of k ≡ some (record s { phase = extracted; extracted_retry = false }))
  unfolding next_event
  resumed_extracted p = elim (Bool-cases s.extracted_retry) [
    | inl retry ↦
        let again : h.phase ≡ extracted_again = ground arith in
        let (gs, consumed, used) =
          consume_latest h.extracted_generations (r.extracted_free again) in
        (record h { extracted_generations = gs; phase = extracted }, ground arith, ground arith)
    | inr calm ↦ (record h { phase = extracted }, ground arith, ground arith)
  ]

starts-append :
    (es : List KnownEvent) (e : KnownEvent)
    → starts_right es ≡ true
    → starts_right (es ++ e ∷ []) ≡ true
starts-append [] e h = absurd (ground arith)
starts-append (a ∷ []) e h = absurd (ground arith)
starts-append (a ∷ b ∷ es) e h = h

-- A history read one event further.
read_on :
    (es : List KnownEvent) (e : KnownEvent) {s t : Status} {k : History} (reading : Reading es s)
    → next_event (0 + length es) e reading.history ≡ some k
    → status_of k ≡ some t
    → audit_history_status (es ++ e ∷ []) ≡ some t
unfolding audit_history_status
read_on es e reading q st =
    rw
      (
        starts-append es e reading.right,
        read_events-append 0 es e initial_history reading.history reading.read,
        q,
      )
      st

-- The event of a claim on an order in progress, by the kind: a retry that a human authorised is resumed,
-- and a claim whose lease ran out is recovered.
abbrev pub claim_event : OrderState → Status → KnownEvent
claim_event OrderState.processing s =
    if s.processing_retry then processing_resumed else processing_recovered
claim_event _ s = if s.extracted_retry then extraction_resumed else extraction_recovered

abbrev pub granted_kind : OrderState → Status → IntakeClaimKind
granted_kind OrderState.processing s =
    if s.processing_retry then resume_processing else recover_processing
granted_kind _ s = if s.extracted_retry then resume_extracted else recover_extracted

abbrev pub authorised : OrderState → Status → Bool
authorised OrderState.processing s = s.processing_retry
authorised _ s = s.extracted_retry

-- A grant is recorded, and the next claim stands down on a history that is valid again.
pub record Consumed (state : OrderState) (types : List KnownEvent) (s : Status) : Type 0 where
  pub decided :
      decide_kind state types ≡ (if authorised state s then granted_kind state s else stand_down)
  pub recorded : event_of_kind (granted_kind state s) ≡ some (claim_event state s)
  pub after : Status
  pub valid_after : audit_history_status (types ++ claim_event state s ∷ []) ≡ some after
  pub recoverable_after : recoverable_in state (some after) ≡ true
  pub decided_after : decide_kind state (types ++ claim_event state s ∷ []) ≡ stand_down

processing-Consumed :
    (types : List KnownEvent) (s : Status)
    → audit_history_status types ≡ some s
    → in_processing s ≡ true
    → Consumed OrderState.processing types s
processing-Consumed types s h p =
    let reading = Reading-of types h in
    let (k, goes, st) =
      resumed_processing (0 + length types) reading.history reading.is_read reading.status p in
    let valid = read_on types (claim_event OrderState.processing s) reading goes st in
    record {
      decided = ground (arith, h, p);
      recorded = ground arith;
      after = record s { phase = processing; processing_retry = false };
      valid_after = valid;
      recoverable_after = refl;
      decided_after = ap (kind_of_status OrderState.processing) valid;
    }

extracted-Consumed :
    (types : List KnownEvent) (s : Status)
    → audit_history_status types ≡ some s
    → in_extracted s ≡ true
    → Consumed OrderState.extracted types s
extracted-Consumed types s h p =
    let reading = Reading-of types h in
    let (k, goes, st) =
      resumed_extracted (0 + length types) reading.history reading.is_read reading.status p in
    let valid = read_on types (claim_event OrderState.extracted s) reading goes st in
    record {
      decided = ground (arith, h, p);
      recorded = ground arith;
      after = record s { phase = extracted; extracted_retry = false };
      valid_after = valid;
      recoverable_after = refl;
      decided_after = ap (kind_of_status OrderState.extracted) valid;
    }

-- On a valid history whose phase goes with the state of the order, PROCESSING or EXTRACTED, the decision
-- is to resume just when the latest human retry is not consumed, and else to stand down. With the event
-- of the resumption, or else of the recovery, the history is valid again and can be recovered, and the
-- next decision is to stand down: a retry is handed out once.
pub claim_consumes_retry :
    (state : OrderState) (types : List KnownEvent) (s : Status)
    → (state ≡ OrderState.processing) ⊎ (state ≡ OrderState.extracted)
    → audit_history_status types ≡ some s
    → recoverable_in state (some s) ≡ true
    → Consumed state types s
claim_consumes_retry state types s (inl e) h p =
    subst (λ st. Consumed st types s) (sym e)
      (processing-Consumed types s h (subst (λ st. recoverable_in st (some s) ≡ true) e p))
claim_consumes_retry state types s (inr e) h p =
    subst (λ st. Consumed st types s) (sym e)
      (extracted-Consumed types s h (subst (λ st. recoverable_in st (some s) ≡ true) e p))
