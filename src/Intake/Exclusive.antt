-- ===== src/Intake/Exclusive.antt =====
-- Two intake claims on one order: claim_intake_execution of src/opsflow/orchestration/claims.py.
use ops_flow_ai.Base.{
  ℕ, ◌+◌, ◌<◌, ◌≤◌, String, ◌≡◌, ◌≢◌, refl, sym, ap, ◌∙◌, subst, inl, inr, true, Option, some, List,
  [], ◌∷◌, ◌++◌, arith, ltb, all, Option-cases, Result, ok, >>=-eq-ok, ok-injective,
}
use ops_flow_ai.Domain.Records.{AuditEvent, new_event}
use ops_flow_ai.Store.{
  PersistedOrder, Db, get_order, set_intake_ownership, insert_audit_event, seconds,
}
use ops_flow_ai.Store.Laws.{get_order_key}
use ops_flow_ai.Store.Keys.{get_idempotency_record}
use ops_flow_ai.Store.Writes.{Writes-there}
use ops_flow_ai.Intake.History.{KnownEvent, normalized_audit_event_types}
use ops_flow_ai.Intake.Kinds.{
  IntakeClaimKind, stand_down, lease_seconds, claim_kind, event_of_kind, decide_intake_claim_kind,
  is_recoverable_in_progress_history, recover_stale_ownership,
}
use ops_flow_ai.Intake.Ownership.{retry_after_is_enough}
use ops_flow_ai.Intake.Claims.{
  OrchestrationSourceIdentity, IntakeClaim, events_of, require_claimable, claim_event_of,
  start_processing, grant_intake, stood_down, claim_intake_execution,
}
use ops_flow_ai.Intake.Claiming.{grant_intake-IsGranted}
use ops_flow_ai.Intake.Recording.{
  is_last, events_of-append, normalized-append, known_event-event_name,
}
use ops_flow_ai.Intake.Decisions.{IsSpent, granted-IsSpent, claim_kind-Granting}

kind_stands :
    (p : PersistedOrder) (events : List AuditEvent) (clock : ℕ) {k : IntakeClaimKind × Option ℕ}
    → decide_intake_claim_kind p.order.state events ≡ stand_down
    → recover_stale_ownership p events clock ≡ k
    → claim_kind p events clock ≡ k
unfolding claim_kind
kind_stands p events clock decided recovered = rw (claim_kind, decided) recovered

-- The kind of a claim on a spent history under a running lease.
owned_kind :
    (p : PersistedOrder) (events : List AuditEvent) (clock token t : ℕ) (types : List KnownEvent)
    {known : KnownEvent}
    → normalized_audit_event_types events ≡ some (types ++ known ∷ [])
    → IsSpent p.order.state types known
    → p.intake_claim_token ≡ some token
    → p.intake_claim_expires_at ≡ some t
    → t ≤ clock + seconds lease_seconds
    → clock < t
    → (d : ℕ) × (claim_kind p events clock ≡ (stand_down, some d)) × (1 ≤ d) × (d ≤ 210)
unfolding decide_intake_claim_kind is_recoverable_in_progress_history
owned_kind p events clock token t types n spent owned expires bound running =
    let recoverable : is_recoverable_in_progress_history p.order.state events ≡ true =
      rw (is_recoverable_in_progress_history, n, spent.valid) spent.recoverable in
    let decided : decide_intake_claim_kind p.order.state events ≡ stand_down =
      rw (decide_intake_claim_kind, n) spent.decided in
    let (d, kind, least, most, _) =
      (retry_after_is_enough p events clock token t owned expires bound recoverable).0 running in
    (d, kind_stands p events clock decided kind, least, most)

module _ (normalize_mime_type : String → Option String) (db : Db) (order_id : ℕ)
    (key fingerprint : String) (source : OrchestrationSourceIdentity) where
  -- What is needed for a claim stays there when the row keeps its documents and the keys are kept.
  require_claimable_inv :
      {p : PersistedOrder} {document : ℕ}
      → require_claimable normalize_mime_type db order_id key fingerprint source ≡ ok (p, document)
      → (get_order db order_id ≡ some p)
        × ((db' : Db) (q : PersistedOrder)
            → get_order db' order_id ≡ some q
            → db'.keys ≡ db.keys
            → q.order.source_documents ≡ p.order.source_documents
            → require_claimable normalize_mime_type db' order_id key fingerprint source
              ≡ ok (q, document))
  unfolding require_claimable get_idempotency_record
  require_claimable_inv h =
      (ground arith, λ db' q there keys documents. ground (arith, h, there, keys, documents))

-- A claim that was granted: what it was granted on.
record IsClaim (normalize_mime_type : String → Option String) (db db' : Db) (order_id : ℕ)
    (key fingerprint : String) (source : OrchestrationSourceIdentity) (actor : String)
    (recorded_at clock granted_at event_id token : ℕ) (c : IntakeClaim) : Type 0 where
  row : PersistedOrder
  document : ℕ
  known : KnownEvent
  required :
      require_claimable normalize_mime_type db order_id key fingerprint source ≡ ok (row, document)
  has_event : event_of_kind (claim_kind row (events_of order_id db.audit) clock).0 ≡ some known
  granted :
      grant_intake db row document
        (claim_kind row (events_of order_id db.audit) clock).0
        (claim_event_of event_id order_id known actor recorded_at)
        token
        granted_at
      ≡ ok (c, db')

module _ (normalize_mime_type : String → Option String) (db : Db) (order_id : ℕ)
    (key fingerprint : String) (source : OrchestrationSourceIdentity) (actor : String)
    (recorded_at clock granted_at event_id token : ℕ) {c : IntakeClaim} {db' : Db} where
  IsClaim-inv :
      claim_intake_execution normalize_mime_type db order_id key fingerprint source actor
          recorded_at clock granted_at event_id token
        ≡ ok (c, db')
      → c.kind ≢ stand_down
      → IsClaim normalize_mime_type db db' order_id key fingerprint source actor recorded_at clock
          granted_at event_id token c
  unfolding claim_intake_execution
  IsClaim-inv h goes =
      let ((p, document), required, h1) =
        >>=-eq-ok (require_claimable normalize_mime_type db order_id key fingerprint source) _ h in
      let k = claim_kind p (events_of order_id db.audit) clock in
      elim (Option-cases (event_of_kind k.0)) [
        | inl e ↦
            let stood : ◌≡◌ {A = Result (IntakeClaim × Db)} (ok (stood_down p document k.1, db))
                (ok (c, db')) =
              ground (arith, e, h1) in
            absurd (goes (sym (ap (λ x. x.0.kind) (ok-injective stood))))
        | inr (known, e) ↦ record {
          row = p;
          document = document;
          known = known;
          required = required;
          has_event = e;
          granted = ground (arith, e, h1);
        }
      ]

earlier-is_last :
    (n : AuditEvent) (es : List AuditEvent)
    → all (λ e. ltb e.occurred_at n.occurred_at) es ≡ true
    → is_last n es ≡ true
earlier-is_last n [] h = refl
earlier-is_last n (e ∷ es) h = ground (arith, earlier-is_last n es (ground arith))

grant_document :
    (db : Db) (p : PersistedOrder) (document : ℕ) (kind : IntakeClaimKind) (event : AuditEvent)
    (token granted_at : ℕ) {c : IntakeClaim} {db' : Db}
    → grant_intake db p document kind event token granted_at ≡ ok (c, db')
    → c.source_document_id ≡ document
unfolding grant_intake
grant_document db p document kind event token granted_at h =
    let ((q, db1), started, h1) = >>=-eq-ok (start_processing db p kind) _ h in
    let (checked, made, h2) = >>=-eq-ok (new_event event) _ h1 in
    let ((expires, db2), owned, h3) =
      >>=-eq-ok
        (set_intake_ownership (insert_audit_event db1 checked) event.order_id token lease_seconds
          granted_at)
        _ h2 in
    sym (ap (λ x. x.0.source_document_id) (ok-injective h3))

-- A second claim under the key of one that was granted, once its kind is known.
claim_stands :
    (normalize_mime_type : String → Option String) (db : Db) (order_id : ℕ)
    (key fingerprint : String) (source : OrchestrationSourceIdentity) (actor : String)
    (recorded_at clock granted_at event_id token : ℕ) {p : PersistedOrder} {document d : ℕ}
    → require_claimable normalize_mime_type db order_id key fingerprint source ≡ ok (p, document)
    → claim_kind p (events_of order_id db.audit) clock ≡ (stand_down, some d)
    → claim_intake_execution normalize_mime_type db order_id key fingerprint source actor
        recorded_at clock granted_at event_id token
      ≡ ok (stood_down p document (some d), db)
unfolding claim_intake_execution
claim_stands normalize_mime_type db order_id key fingerprint source actor recorded_at clock
      granted_at event_id token required kind =
    ground (arith, required, kind)

module _ (normalize_mime_type : String → Option String) (db : Db) (order_id : ℕ)
    (key fingerprint : String) (source : OrchestrationSourceIdentity) (actor actor' : String)
    (recorded_at clock granted_at event_id token recorded_at' clock' granted_at' event_id'
      token' : ℕ)
    {c : IntakeClaim} {db' : Db} where
  -- Let an intake claim on an order have been granted, its event recorded later than the events of the
  -- order so far. Then a second claim with the same key, fingerprint and source, made within the 210
  -- seconds of the ownership, stands down: it changes nothing, and asks the caller to wait for 1 to
  -- 210 seconds.
  pub claim_is_exclusive :
      claim_intake_execution normalize_mime_type db order_id key fingerprint source actor
          recorded_at clock granted_at event_id token
        ≡ ok (c, db')
      → c.kind ≢ stand_down
      → all (λ e. ltb e.occurred_at recorded_at) (events_of order_id db.audit) ≡ true
      → granted_at ≤ clock'
      → clock' < granted_at + seconds 210
      → (d : ℕ) × (1 ≤ d)
        × (d ≤ 210)
        × (claim_intake_execution normalize_mime_type db' order_id key fingerprint source actor'
              recorded_at' clock' granted_at' event_id' token'
            ≡ ok (stood_down c.persisted c.source_document_id (some d), db'))
  claim_is_exclusive h goes earlier begun running =
      let a =
        IsClaim-inv normalize_mime_type db order_id key fingerprint source actor recorded_at clock
          granted_at event_id token h goes in
      let es = events_of order_id db.audit in
      let k = claim_kind a.row es clock in
      let n = claim_event_of event_id order_id a.known actor recorded_at in
      let (there, again) =
        require_claimable_inv normalize_mime_type db order_id key fingerprint source a.required in
      let id : a.row.order.id ≡ order_id = get_order_key db order_id there in
      let g =
        grant_intake-IsGranted db a.row a.document k.0 n token granted_at
          (ap (get_order db) id ∙ there) (sym id) a.granted in
      let (types, normalized, granting) = claim_kind-Granting a.row es clock refl a.has_event in
      let events : events_of order_id db'.audit ≡ es ++ n ∷ [] =
        ap (events_of order_id) g.audit ∙ events_of-append n order_id db.audit refl in
      let read =
        ap normalized_audit_event_types events
        ∙ normalized-append n order_id db.audit refl (earlier-is_last n es earlier)
            (known_event-event_name a.known) normalized in
      let spent =
        subst (λ st. IsSpent st types a.known) (sym g.state)
          (granted-IsSpent a.row.order.state types granting a.has_event) in
      let (d, kind, least, most) =
        owned_kind c.persisted (events_of order_id db'.audit) clock' token
          (granted_at + seconds lease_seconds) types read spent g.token_is g.expires (omega arith)
          running in
      let found : get_order db' order_id ≡ some c.persisted =
        ap (get_order db') (sym id ∙ sym g.same_id) ∙ Writes-there g.writes in
      let document = grant_document db a.row a.document k.0 n token granted_at a.granted in
      (
        d,
        least,
        most,
        claim_stands normalize_mime_type db' order_id key fingerprint source actor' recorded_at'
            clock' granted_at' event_id' token'
            (again db' c.persisted found g.keys g.same_documents
              ∙ ap (λ x. ok (c.persisted, x)) (sym document))
            kind,
      )
