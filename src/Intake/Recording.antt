-- ===== src/Intake/Recording.antt =====
-- The history of an order with one more event at its end, and the decision on it
-- (src/opsflow/orchestration/claims.py).
use ops_flow_ai.Base.{
  ℕ, ◌≡◌, refl, ap, ◌∙◌, inl, inr, Bool, true, false, not, some, List, [], ◌∷◌, ◌++◌, arith, ◌==◌,
  all, Option-cases,
}
use ops_flow_ai.Domain.Records.{AuditEvent}
use ops_flow_ai.Intake.History.{
  KnownEvent, event_name, known_event, is_later, insert_sorted, sort_events, types_of, of_one_order,
  normalized_audit_event_types,
}
use ops_flow_ai.Intake.Claims.{events_of}

module _ (n : AuditEvent) where
  -- No event sorts after `n`.
  abbrev pub is_last : List AuditEvent → Bool
  is_last es = all (λ e. not (is_later e n)) es

  insert-append :
      (e : AuditEvent) (xs : List AuditEvent)
      → is_later e n ≡ false
      → insert_sorted e (xs ++ n ∷ []) ≡ insert_sorted e xs ++ n ∷ []
  insert-append e [] h = rw h refl
  insert-append e (x ∷ xs) h = ground (arith, insert-append e xs h)

  sort-append :
      (es : List AuditEvent)
      → is_last es ≡ true
      → sort_events (es ++ n ∷ []) ≡ sort_events es ++ n ∷ []
  unfolding sort_events
  sort-append [] h = refl
  sort-append (e ∷ es) h =
      ap (insert_sorted e) (sort-append es (ground arith))
      ∙ insert-append e (sort_events es) (ground arith)

  types-append :
      (xs : List AuditEvent) {k : KnownEvent} {ks : List KnownEvent}
      → known_event n.event_type ≡ some k
      → types_of xs ≡ some ks
      → types_of (xs ++ n ∷ []) ≡ some (ks ++ k ∷ [])
  types-append [] known h = ground arith
  types-append (x ∷ xs) {k} {ks} known h = elim (Option-cases (types_of xs)) [
    | inl e ↦ absurd (ground arith)
    | inr (js, e) ↦ ground (arith, types-append xs known e)
  ]

  abbrev of_order : ℕ → List AuditEvent → Bool
  of_order id xs = all (λ x. x.order_id == id) xs

  insert-of_order :
      (id : ℕ) (e : AuditEvent) (xs : List AuditEvent)
      → (e.order_id == id) ≡ true
      → of_order id xs ≡ true
      → of_order id (insert_sorted e xs) ≡ true
  insert-of_order id e [] h k = ground arith
  insert-of_order id e (x ∷ xs) h k = ground (arith, insert-of_order id e xs h)

  sort-of_order :
      (id : ℕ) (es : List AuditEvent) → of_order id es ≡ true → of_order id (sort_events es) ≡ true
  unfolding sort_events
  sort-of_order id [] h = refl
  sort-of_order id (e ∷ es) h =
      insert-of_order id e (sort_events es) (ground arith) (sort-of_order id es (ground arith))

  all_same :
      (id i : ℕ) (xs : List AuditEvent)
      → i ≡ id
      → of_order id xs ≡ true
      → all (λ x. x.order_id == i) (xs ++ n ∷ []) ≡ (n.order_id == i)
  all_same id i [] e h = ground arith
  all_same id i (x ∷ xs) e h = ground (arith, all_same id i xs e (ground arith))

  one-append :
      (id : ℕ) (xs : List AuditEvent)
      → n.order_id ≡ id
      → of_order id xs ≡ true
      → of_one_order (xs ++ n ∷ []) ≡ true
  one-append id [] e h = refl
  one-append id (x ∷ xs) e h =
      let same : x.order_id ≡ id = ground arith in
      ground (arith, all_same id x.order_id xs same (ground arith))

  events-of_order : (id : ℕ) (es : List AuditEvent) → of_order id (events_of id es) ≡ true
  unfolding events_of
  events-of_order id [] = refl
  events-of_order id (e ∷ es) = ground (arith, events-of_order id es)

  pub events_of-append :
      (id : ℕ) (es : List AuditEvent)
      → n.order_id ≡ id
      → events_of id (es ++ n ∷ []) ≡ events_of id es ++ n ∷ []
  unfolding events_of
  events_of-append id [] e = ground arith
  events_of-append id (x ∷ es) e = ground (arith, events_of-append id es e)

  -- The known events of an order with one more that sorts last.
  pub normalized-append :
      (id : ℕ) (es : List AuditEvent) {k : KnownEvent} {ks : List KnownEvent}
      → n.order_id ≡ id
      → is_last (events_of id es) ≡ true
      → known_event n.event_type ≡ some k
      → normalized_audit_event_types (events_of id es) ≡ some ks
      → normalized_audit_event_types (events_of id es ++ n ∷ []) ≡ some (ks ++ k ∷ [])
  unfolding normalized_audit_event_types
  normalized-append id es {k} {ks} same last known h =
      let xs = events_of id es in
      let sorted = sort-append xs last in
      let one = one-append id (sort_events xs) same (sort-of_order id xs (events-of_order id es)) in
      let found : types_of (sort_events xs) ≡ some ks = ground arith in
      rw (sorted, one) (types-append (sort_events xs) known found)

pub known_event-event_name : (k : KnownEvent) → known_event (event_name k) ≡ some k
unfolding known_event
known_event-event_name KnownEvent.order_received = refl
known_event-event_name KnownEvent.processing_started = refl
known_event-event_name KnownEvent.processing_recovered = refl
known_event-event_name KnownEvent.processing_failed = refl
known_event-event_name KnownEvent.processing_resumed = refl
known_event-event_name KnownEvent.extraction_completed = refl
known_event-event_name KnownEvent.extraction_recovered = refl
known_event-event_name KnownEvent.extraction_resumed = refl
known_event-event_name KnownEvent.validation_failed = refl
known_event-event_name KnownEvent.retry_requested = refl
known_event-event_name KnownEvent.retry_restored = refl
known_event-event_name KnownEvent.order_approved = refl
known_event-event_name KnownEvent.order_rejected = refl
