-- ===== src/Intake/Decisions.antt =====
-- The decision of src/opsflow/orchestration/claims.py once the event of a granted claim is recorded.
use ops_flow_ai.Base.{
  ℕ, ◌≡◌, refl, sym, ap, ◌∙◌, subst, ◌⊎◌, inl, inr, true, Option, none, some, List, [], ◌∷◌, ◌++◌,
  arith, Option-cases,
}
use ops_flow_ai.Domain.State.{OrderState}
use ops_flow_ai.Domain.Records.{AuditEvent}
use ops_flow_ai.Store.{PersistedOrder}
use ops_flow_ai.Intake.History.{
  KnownEvent, order_received, normalized_audit_event_types, Status, audit_history_status,
  read_events, next_event,
}
use ops_flow_ai.Intake.Kinds.{
  IntakeClaimKind, initial, resume_processing, resume_extracted, recover_processing,
  recover_extracted, stand_down, decide_kind, recoverable_in, decide_intake_claim_kind,
  is_recoverable_in_progress_history, recover_stale_ownership, recovery_kind, claim_kind,
  event_of_kind, state_of_kind,
}
use ops_flow_ai.Intake.Grants.{Consumed, claim_event, claim_consumes_retry}

-- The history with `known` at its end can be recovered, and no retry is left in it.
pub record IsSpent (state : OrderState) (types : List KnownEvent) (known : KnownEvent)
    : Type 0 where
  pub after : Status
  pub valid : audit_history_status (types ++ known ∷ []) ≡ some after
  pub recoverable : recoverable_in state (some after) ≡ true
  pub decided : decide_kind state (types ++ known ∷ []) ≡ stand_down

Consumed-IsSpent :
    {state : OrderState} {types : List KnownEvent} {s : Status} {known : KnownEvent}
    → Consumed state types s
    → known ≡ claim_event state s
    → IsSpent state types known
Consumed-IsSpent {state} {types} c e = subst (IsSpent state types) (sym e) (record {
  after = c.after;
  valid = c.valid_after;
  recoverable = c.recoverable_after;
  decided = c.decided_after;
})

-- How a claim comes to be granted.
abbrev Granting : OrderState → List KnownEvent → IntakeClaimKind → Type 0
Granting state types kind =
    (decide_kind state types ≡ kind)
    ⊎ ((decide_kind state types ≡ stand_down)
        × (recoverable_in state (audit_history_status types) ≡ true)
        × (kind ≡ recovery_kind state))

received-IsSpent :
    (types : List KnownEvent) {kind : IntakeClaimKind} {known : KnownEvent}
    → Granting OrderState.received types kind
    → event_of_kind kind ≡ some known
    → IsSpent (state_of_kind OrderState.received kind) types known
unfolding audit_history_status read_events next_event
received-IsSpent (order_received ∷ []) {kind} {known} (inl h) e =
    let k : initial ≡ kind = h in
    let same : KnownEvent.processing_started ≡ known = ground (arith, k, e) in
    subst (λ x. IsSpent (state_of_kind OrderState.received x) (order_received ∷ []) known) k
      (subst (IsSpent OrderState.processing (order_received ∷ [])) same
        (record { after = _; valid = refl; recoverable = refl; decided = refl }))
received-IsSpent (order_received ∷ []) (inr (stands, recoverable, same)) e =
    absurd (ground (arith, stands))
received-IsSpent _ g e = absurd (ground (arith, g, e))

-- What a grant on an order in progress is, in the terms of its history.
processing-granted :
    (types : List KnownEvent) {s : Status} {kind : IntakeClaimKind} {known : KnownEvent}
    → audit_history_status types ≡ some s
    → Consumed OrderState.processing types s
    → Granting OrderState.processing types kind
    → event_of_kind kind ≡ some known
    → (known ≡ claim_event OrderState.processing s)
      × (state_of_kind OrderState.processing kind ≡ OrderState.processing)
processing-granted types h c (inl g) e = ground (arith, c.decided, h)
processing-granted types h c (inr (stands, recoverable, same)) e = ground (arith, c.decided, h)

extracted-granted :
    (types : List KnownEvent) {s : Status} {kind : IntakeClaimKind} {known : KnownEvent}
    → audit_history_status types ≡ some s
    → Consumed OrderState.extracted types s
    → Granting OrderState.extracted types kind
    → event_of_kind kind ≡ some known
    → (known ≡ claim_event OrderState.extracted s)
      × (state_of_kind OrderState.extracted kind ≡ OrderState.extracted)
extracted-granted types h c (inl g) e = ground (arith, c.decided, h)
extracted-granted types h c (inr (stands, recoverable, same)) e = ground (arith, c.decided, h)

-- A grant needs a valid history whose phase goes with the state.
Granting-status :
    (state : OrderState) (types : List KnownEvent) {kind : IntakeClaimKind} {known : KnownEvent}
    → (state ≡ OrderState.processing) ⊎ (state ≡ OrderState.extracted)
    → Granting state types kind
    → event_of_kind kind ≡ some known
    → (s : Status) × (audit_history_status types ≡ some s) × (recoverable_in state (some s) ≡ true)
Granting-status state types in_progress g e = elim (Option-cases (audit_history_status types)) [
  | inl h ↦ absurd (ground (arith, h, g, e, in_progress))
  | inr (s, h) ↦ (s, h, ground (arith, h, g, e, in_progress))
]

-- The event of a granted claim leaves a spent history.
pub granted-IsSpent :
    (state : OrderState) (types : List KnownEvent) {kind : IntakeClaimKind} {known : KnownEvent}
    → Granting state types kind
    → event_of_kind kind ≡ some known
    → IsSpent (state_of_kind state kind) types known
granted-IsSpent OrderState.received types g e = received-IsSpent types g e
granted-IsSpent OrderState.processing types {known = known} g e =
    let (s, h, p) = Granting-status OrderState.processing types (inl refl) g e in
    let c = claim_consumes_retry OrderState.processing types s (inl refl) h p in
    let (recorded, same) = processing-granted types h c g e in
    subst (λ st. IsSpent st types known) (sym same) (Consumed-IsSpent c recorded)
granted-IsSpent OrderState.extracted types {known = known} g e =
    let (s, h, p) = Granting-status OrderState.extracted types (inr refl) g e in
    let c = claim_consumes_retry OrderState.extracted types s (inr refl) h p in
    let (recorded, same) = extracted-granted types h c g e in
    subst (λ st. IsSpent st types known) (sym same) (Consumed-IsSpent c recorded)
granted-IsSpent _ types g e = absurd (ground (arith, g, e))

chosen :
    (decided kind : IntakeClaimKind) (recovered : IntakeClaimKind × Option ℕ)
    {retry_after : Option ℕ}
    → ◌≡◌ {A = IntakeClaimKind × Option ℕ}
        (elim decided [ stand_down ↦ recovered | x ↦ (x, none) ])
        (kind, retry_after)
    → (decided ≡ kind) ⊎ ((decided ≡ stand_down) × (recovered ≡ (kind, retry_after)))
chosen stand_down kind r h = inr (refl, h)
chosen initial kind r h = inl (ap (λ x. x.0) h)
chosen resume_processing kind r h = inl (ap (λ x. x.0) h)
chosen resume_extracted kind r h = inl (ap (λ x. x.0) h)
chosen recover_processing kind r h = inl (ap (λ x. x.0) h)
chosen recover_extracted kind r h = inl (ap (λ x. x.0) h)

recovery-granted :
    (p : PersistedOrder) (events : List AuditEvent) (clock : ℕ) {kind : IntakeClaimKind}
    {retry_after : Option ℕ} {known : KnownEvent}
    → recover_stale_ownership p events clock ≡ (kind, retry_after)
    → event_of_kind kind ≡ some known
    → (is_recoverable_in_progress_history p.order.state events ≡ true)
      × (kind ≡ recovery_kind p.order.state)
unfolding recover_stale_ownership
recovery-granted p events clock h e = ground arith

known_types :
    (p : PersistedOrder) (events : List AuditEvent) (clock : ℕ) {kind : IntakeClaimKind}
    {retry_after : Option ℕ} {known : KnownEvent}
    → claim_kind p events clock ≡ (kind, retry_after)
    → event_of_kind kind ≡ some known
    → (types : List KnownEvent) × (normalized_audit_event_types events ≡ some types)
unfolding claim_kind decide_intake_claim_kind is_recoverable_in_progress_history
known_types p events clock {kind} h e = elim (Option-cases (normalized_audit_event_types events)) [
  | inr x ↦ x
  | inl n ↦
      elim (chosen (decide_intake_claim_kind p.order.state events) kind
        (recover_stale_ownership p events clock) h) [
          | inl d ↦ absurd (ground (arith, n, d, e))
          | inr (d, r) ↦ absurd (ground (arith, n, recovery-granted p events clock r e))
        ]
]

-- A claim of a kind that has an event was granted on the known events of the order.
pub claim_kind-Granting :
    (p : PersistedOrder) (events : List AuditEvent) (clock : ℕ) {kind : IntakeClaimKind}
    {retry_after : Option ℕ} {known : KnownEvent}
    → claim_kind p events clock ≡ (kind, retry_after)
    → event_of_kind kind ≡ some known
    → (types : List KnownEvent) × (normalized_audit_event_types events ≡ some types)
      × Granting p.order.state types kind
unfolding claim_kind decide_intake_claim_kind is_recoverable_in_progress_history
claim_kind-Granting p events clock {kind} h e =
    let (types, n) = known_types p events clock h e in
    let decided : decide_intake_claim_kind p.order.state events ≡ decide_kind p.order.state types =
      rw (decide_intake_claim_kind, n) refl in
    (
      types,
      n,
      elim (chosen (decide_intake_claim_kind p.order.state events) kind
          (recover_stale_ownership p events clock) h) [
            | inl d ↦ inl (sym decided ∙ d)
            | inr (d, r) ↦
                let (recoverable, same) = recovery-granted p events clock r e in
                inr (sym decided ∙ d, ground (arith, n, recoverable), same)
          ],
    )
