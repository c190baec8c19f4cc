-- ===== src/Intake/Claiming.antt =====
-- What a granted intake claim writes: `claim_intake_execution` of src/opsflow/orchestration/claims.py.
use ops_flow_ai.Base.{
  ℕ, ◌+◌, ◌≡◌, refl, sym, ap, ◌∙◌, subst, some, [], ◌∷◌, ◌++◌, arith, Result, ok, >>=-eq-ok,
  ok-injective,
}
use ops_flow_ai.Domain.State.{processing}
use ops_flow_ai.Domain.Records.{AuditEvent, new_event}
use ops_flow_ai.Domain.Order.{Order, transition_to}
use ops_flow_ai.Domain.Lifecycle.{moved, transition_to_inv}
use ops_flow_ai.Store.{
  PersistedOrder, Db, get_order, update_order_snapshot, insert_audit_event, set_intake_ownership,
  seconds,
}
use ops_flow_ai.Store.Writes.{
  Writes, Writes-there, Writes-trans, unchanged-Writes, put-Writes, update_order_snapshot-Writes,
  insert_audit_event-kept,
}
use ops_flow_ai.Intake.Kinds.{
  IntakeClaimKind, initial, resume_processing, resume_extracted, recover_processing,
  recover_extracted, stand_down, lease_seconds, state_of_kind,
}
use ops_flow_ai.Intake.Claims.{IntakeClaim, granted_claim, start_processing, grant_intake}

record Started (db db' : Db) (p q : PersistedOrder) (kind : IntakeClaimKind) : Type 0 where
  writes : Writes db db' q
  row : q ≡ record p { order = q.order }
  same_id : q.order.id ≡ p.order.id
  same_documents : q.order.source_documents ≡ p.order.source_documents
  state : q.order.state ≡ state_of_kind p.order.state kind
  records : (db'.audit ≡ db.audit) × (db'.keys ≡ db.keys)

snapshot_tables :
    (db : Db) (o : Order) {db' : Db}
    → update_order_snapshot db o ≡ ok db'
    → (db'.audit ≡ db.audit) × (db'.keys ≡ db.keys)
unfolding update_order_snapshot
snapshot_tables db o h = ground arith

module _ (db : Db) (p : PersistedOrder) (there : get_order db p.order.id ≡ some p) where
  unchanged-Started :
      (kind : IntakeClaimKind) {q : PersistedOrder} {db' : Db}
      → state_of_kind p.order.state kind ≡ p.order.state
      → ◌≡◌ {A = Result (PersistedOrder × Db)} (ok (p, db)) (ok (q, db'))
      → Started db db' p q kind
  unchanged-Started kind {q} {db'} same h =
      let pair : ◌≡◌ {A = PersistedOrder × Db} (p, db) (q, db') = ok-injective h in
      subst (λ x. Started db x.1 p x.0 kind) pair
        (record {
          writes = unchanged-Writes there refl refl;
          row = refl;
          same_id = refl;
          same_documents = refl;
          state = sym same;
          records = (refl, refl);
        })

  initial-Started :
      {q : PersistedOrder} {db' : Db}
      → start_processing db p initial ≡ ok (q, db')
      → Started db db' p q initial
  unfolding start_processing
  initial-Started {q} {db'} h =
      let (o, went, h1) = >>=-eq-ok (transition_to p.order processing) _ h in
      let (db1, saved, h2) = >>=-eq-ok (update_order_snapshot db o) _ h1 in
      let same : o ≡ moved p.order processing = (transition_to_inv p.order processing went).0 in
      let saved' : update_order_snapshot db (moved p.order processing) ≡ ok db1 =
        subst (λ o. update_order_snapshot db o ≡ ok db1) same saved in
      let pair : ◌≡◌ {A = PersistedOrder × Db} (record p { order = moved p.order processing }, db1)
          (q, db') =
        ap (λ o. (record p { order = o }, db1)) (sym same) ∙ ok-injective h2 in
      subst (λ x. Started db x.1 p x.0 initial) pair
        (record {
          writes = update_order_snapshot-Writes p there (moved p.order processing) refl saved';
          row = refl;
          same_id = refl;
          same_documents = refl;
          state = refl;
          records = snapshot_tables db (moved p.order processing) saved';
        })

  start_processing-Started :
      (kind : IntakeClaimKind) {q : PersistedOrder} {db' : Db}
      → start_processing db p kind ≡ ok (q, db')
      → Started db db' p q kind
  unfolding start_processing
  start_processing-Started initial h = initial-Started h
  start_processing-Started resume_processing h = unchanged-Started resume_processing refl h
  start_processing-Started resume_extracted h = unchanged-Started resume_extracted refl h
  start_processing-Started recover_processing h = unchanged-Started recover_processing refl h
  start_processing-Started recover_extracted h = unchanged-Started recover_extracted refl h
  start_processing-Started stand_down h = unchanged-Started stand_down refl h

abbrev pub owned_row : PersistedOrder → ℕ → ℕ → PersistedOrder
owned_row q token granted_at = record q {
  intake_claim_token = some token;
  intake_claim_expires_at = some (granted_at + seconds lease_seconds);
}

ownership-Writes :
    (db : Db) (row : PersistedOrder) (token granted_at : ℕ) {expires : ℕ} {db' : Db}
    → get_order db row.order.id ≡ some row
    → set_intake_ownership db row.order.id token lease_seconds granted_at ≡ ok (expires, db')
    → Writes db db' (owned_row row token granted_at)
      × (expires ≡ granted_at + seconds lease_seconds)
      × (db'.audit ≡ db.audit)
      × (db'.keys ≡ db.keys)
unfolding set_intake_ownership
ownership-Writes db row token granted_at {expires} {db'} there h =
    let new = owned_row row token granted_at in
    (
      subst (λ d. Writes db d new) (ground (arith, there)) (put-Writes db row new there refl),
      ground (arith, there),
      ground (arith, there),
      ground (arith, there),
    )

-- The claim `c` was granted on the order `p`, with the event `event`.
pub record IsGranted (db db' : Db) (p : PersistedOrder) (c : IntakeClaim) (kind : IntakeClaimKind)
    (event : AuditEvent) (token granted_at : ℕ) : Type 0 where
  pub kind_is : c.kind ≡ kind
  pub writes : Writes db db' c.persisted
  pub same_id : c.persisted.order.id ≡ p.order.id
  pub same_documents : c.persisted.order.source_documents ≡ p.order.source_documents
  pub state : c.persisted.order.state ≡ state_of_kind p.order.state kind
  pub token_is : c.persisted.intake_claim_token ≡ some token
  pub expires : c.persisted.intake_claim_expires_at ≡ some (granted_at + seconds lease_seconds)
  pub audit : db'.audit ≡ db.audit ++ event ∷ []
  pub keys : db'.keys ≡ db.keys

new_event_inv : (e : AuditEvent) {x : AuditEvent} → new_event e ≡ ok x → x ≡ e
unfolding new_event
new_event_inv e h = ground arith

recorded_tables :
    (db : Db) (e : AuditEvent)
    → ((insert_audit_event db e).audit ≡ db.audit ++ e ∷ [])
      × ((insert_audit_event db e).keys ≡ db.keys)
unfolding insert_audit_event
recorded_tables db e = (refl, refl)

pub grant_intake-IsGranted :
    (db : Db) (p : PersistedOrder) (document : ℕ) (kind : IntakeClaimKind) (event : AuditEvent)
    (token granted_at : ℕ) {c : IntakeClaim} {db' : Db}
    → get_order db p.order.id ≡ some p
    → event.order_id ≡ p.order.id
    → grant_intake db p document kind event token granted_at ≡ ok (c, db')
    → IsGranted db db' p c kind event token granted_at
unfolding grant_intake
grant_intake-IsGranted db p document kind event token granted_at {c} {db'} there same_order h =
    let ((q, db1), started, h1) = >>=-eq-ok (start_processing db p kind) _ h in
    let (checked, made, h2) = >>=-eq-ok (new_event event) _ h1 in
    let ((expires, db2), owned, h3) =
      >>=-eq-ok
        (set_intake_ownership (insert_audit_event db1 checked) event.order_id token lease_seconds
          granted_at)
        _ h2 in
    let s = start_processing-Started db p there kind started in
    let db1e = insert_audit_event db1 checked in
    let w1 : Writes db db1e q =
      Writes-trans s.writes
        (unchanged-Writes (Writes-there s.writes) (insert_audit_event-kept db1 checked).0
          (insert_audit_event-kept db1 checked).1)
        refl in
    let key : event.order_id ≡ q.order.id = same_order ∙ sym s.same_id in
    let owned' : set_intake_ownership db1e q.order.id token lease_seconds granted_at
        ≡ ok (expires, db2) =
      subst (λ id. set_intake_ownership db1e id token lease_seconds granted_at ≡ ok (expires, db2))
        key owned in
    let (w2, until, audit2, keys2) =
      ownership-Writes db1e q token granted_at (Writes-there w1) owned' in
    let tables = recorded_tables db1 checked in
    let pair : ◌≡◌ {A = IntakeClaim × Db} (granted_claim q document kind token expires, db2)
        (c, db') =
      ok-injective h3 in
    subst (λ x. IsGranted db x.1 p x.0 kind event token granted_at) pair
      (record {
        kind_is = refl;
        writes =
            Writes-trans w1
              (subst
                (λ t.
                  Writes db1e db2 (record q {
                    intake_claim_token = some token;
                    intake_claim_expires_at = some t;
                  }))
                (sym until) w2)
              refl;
        same_id = s.same_id;
        same_documents = s.same_documents;
        state = s.state;
        token_is = refl;
        expires = ap some until;
        audit =
            audit2
            ∙ tables.0
            ∙ ap (λ l. l ++ checked ∷ []) s.records.0
            ∙ ap (λ e. db.audit ++ e ∷ []) (new_event_inv event made);
        keys = keys2 ∙ tables.1 ∙ s.records.1;
      })
