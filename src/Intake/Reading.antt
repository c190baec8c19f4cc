-- ===== src/Intake/Reading.antt =====
-- That the history parser hands out each authorised retry once, and that a claim keeps the history
-- one that can be read on.
use ops_flow_ai.Base.{
  ℕ, suc, ◌≡◌, refl, ◌∙◌, sym, subst, ◌⊎◌, inl, inr, Bool, true, false, ◌&&◌, some, List, [], ◌∷◌,
  arith, is_some, Option-cases,
}
use ops_flow_ai.Intake.History.{
  KnownEvent, order_received, processing_started, processing_failed, processing_resumed,
  processing_recovered, extraction_completed, extraction_recovered, extraction_resumed,
  validation_failed, retry_requested, retry_restored, order_approved, order_rejected, received,
  processing, processing_broken, processing_again, extracted, extracted_broken, extracted_again,
  from_extracted, History, initial_history, next_event, read_events, has_unconsumed, Status,
  status_of, audit_history_status, is_order_received, is_processing_started, starts_right,
  consume_latest_generation,
}

-- What holds of the loop's variables once processing has started.
pub record IsRead (h : History) : Type 0 where
  pub seen : h.received_seen ≡ true
  pub begun : h.started ≡ true
  pub not_received : h.phase ≡ received → h.started ≡ false
  pub processing_used :
      (h.phase ≡ processing) ⊎ (h.phase ≡ processing_broken)
      → has_unconsumed h.processing_generations ≡ false
  pub processing_free : h.phase ≡ processing_again → has_unconsumed h.processing_generations ≡ true
  pub extracted_used : h.phase ≡ extracted → has_unconsumed h.extracted_generations ≡ false
  pub extracted_free : h.phase ≡ extracted_again → has_unconsumed h.extracted_generations ≡ true
  pub before_extraction : h.completed ≡ false → has_unconsumed h.extracted_generations ≡ false
  pub failed_after :
      (h.pending_failure ≡ some from_extracted) ⊎ (h.pending_request ≡ some from_extracted)
      → h.completed ≡ true
  pub broken :
      (h.phase ≡ processing_broken) ⊎ (h.phase ≡ extracted_broken)
      → is_some h.pending_failure ≡ true
  pub idle :
      (is_some h.pending_failure ≡ true) ⊎ (is_some h.pending_request ≡ true)
      → (h.phase ≡ processing_broken) ⊎ (h.phase ≡ extracted_broken)
  pub again_completed : (h.phase ≡ extracted_again) ⊎ (h.phase ≡ extracted) → h.completed ≡ true

-- The latest generation is consumed if it is there to be consumed.
pub consume_latest :
    (gs : List Bool)
    → has_unconsumed gs ≡ true
    → (hs : List Bool) × (consume_latest_generation gs ≡ some hs) × (has_unconsumed hs ≡ false)
unfolding consume_latest_generation
consume_latest [] h = absurd (ground arith)
consume_latest (true ∷ gs) h = absurd (ground arith)
consume_latest (false ∷ gs) h = (true ∷ gs, refl, refl)

module _ (h : History) (r : IsRead h) (index : ℕ) where
  next-IsRead : (e : KnownEvent) (k : History) → next_event index e h ≡ some k → IsRead k
  unfolding next_event
  next-IsRead order_received k q = ground arith
  next-IsRead processing_started k q = ground arith
  next-IsRead processing_failed k q = ground arith
  next-IsRead processing_recovered k q = ground arith
  next-IsRead extraction_completed k q = ground arith
  next-IsRead extraction_recovered k q = ground arith
  next-IsRead validation_failed k q = ground arith
  next-IsRead retry_requested k q = ground arith
  next-IsRead retry_restored k q = ground arith
  next-IsRead processing_resumed k q =
      let again : h.phase ≡ processing_again = ground arith in
      let (hs, consumed, used) =
        consume_latest h.processing_generations (r.processing_free again) in
      ground arith
  next-IsRead extraction_resumed k q =
      let again : h.phase ≡ extracted_again = ground arith in
      let (hs, consumed, used) = consume_latest h.extracted_generations (r.extracted_free again) in
      ground arith
  next-IsRead order_approved k q = ground arith
  next-IsRead order_rejected k q = ground arith

read_events-IsRead :
    (index : ℕ) (es : List KnownEvent) (h k : History)
    → IsRead h
    → read_events index es h ≡ some k
    → IsRead k
unfolding read_events
read_events-IsRead index [] h k r q = subst IsRead (ground arith) r
read_events-IsRead index (e ∷ es) h k r q = elim (Option-cases (next_event index e h)) [
  | inl stops ↦ absurd (ground arith)
  | inr (m, goes) ↦
      read_events-IsRead (suc index) es m k (next-IsRead h r index e m goes) (ground arith)
]

-- The history that a valid sequence of events reads.
pub record Reading (es : List KnownEvent) (s : Status) : Type 0 where
  pub history : History
  pub read : read_events 0 es initial_history ≡ some history
  pub is_read : IsRead history
  pub status : status_of history ≡ some s
  pub right : starts_right es ≡ true

abbrev begun_history : History
begun_history = record initial_history { received_seen = true; started = true; phase = processing }

begun_history-IsRead : IsRead begun_history
begun_history-IsRead = ground arith

begins_right :
    (a b : KnownEvent)
    → (is_order_received a && is_processing_started b) ≡ true
    → (a ≡ order_received) × (b ≡ processing_started)
begins_right a b h = (ground arith, ground arith)

begin_read :
    (rest : List KnownEvent)
    → read_events 0 (order_received ∷ processing_started ∷ rest) initial_history
      ≡ read_events 2 rest begun_history
unfolding read_events next_event
begin_read rest = refl

started_IsRead :
    (rest : List KnownEvent) (k : History)
    → read_events 0 (order_received ∷ processing_started ∷ rest) initial_history ≡ some k
    → IsRead k
started_IsRead rest k q =
    read_events-IsRead 2 rest begun_history k begun_history-IsRead (sym (begin_read rest) ∙ q)

pub Reading-of :
    (es : List KnownEvent) {s : Status} → audit_history_status es ≡ some s → Reading es s
unfolding audit_history_status
Reading-of [] h = absurd (ground arith)
Reading-of (a ∷ []) h = absurd (ground arith)
Reading-of (a ∷ b ∷ rest) {s} h =
    let right : (is_order_received a && is_processing_started b) ≡ true = ground arith in
    let (first, second) = begins_right a b right in
    let shape : ◌≡◌ {A = List KnownEvent} (a ∷ b ∷ rest)
        (order_received ∷ processing_started ∷ rest) =
      rw (first, second) refl in
    elim (Option-cases (read_events 0 (a ∷ b ∷ rest) initial_history)) [
      | inl stops ↦ absurd (ground arith)
      | inr (k, goes) ↦ record {
        history = k;
        read = goes;
        is_read =
            started_IsRead rest k
              (subst (λ es. read_events 0 es initial_history ≡ some k) shape goes);
        status = ground arith;
        right = right;
      }
    ]
