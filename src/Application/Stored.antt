-- ===== src/Application/Stored.antt =====
-- What the transaction of `validate_order` (src/opsflow/application/validation.py) stores.
use ops_flow_ai.Base.{
  ℕ, ◌+◌, String, ◌≡◌, refl, sym, ◌∙◌, subst, inl, inr, none, some, ok, arith, >>=-eq-ok,
  ok-injective,
}
use ops_flow_ai.Domain.Order.{Order}
use ops_flow_ai.Validation.Draft.{ExtractionDraft}
use ops_flow_ai.Validation.Models.{ValidationResult}
use ops_flow_ai.Store.{
  PersistedOrder, PersistedExtractionSnapshot, Db, get_order, with_snapshot, update_order_snapshot,
  insert_audit_event, clear_intake_ownership,
}
use ops_flow_ai.Store.Graph.{replace_validation_issues, new_snapshot, insert_extraction_snapshot}
use ops_flow_ai.Store.Writes.{
  Writes, Writes-there, Writes-trans, unchanged-Writes, replace_validation_issues-Writes,
  replace_order_graph-Writes, update_order_snapshot-Writes, clear_intake_ownership-Writes,
  insert_audit_event-kept, insert_extraction_snapshot-kept,
}
use ops_flow_ai.Notify.Contracts.{slack}
use ops_flow_ai.Notify.Intents.{create_notification_intent}
use ops_flow_ai.Notify.Changes.{create-kept}
use ops_flow_ai.Application.Validation.{
  FreshIds, routed_order, save_lines, route_event, route_notification, system_event,
  save_validation,
}
use ops_flow_ai.Application.Routing.{IsRouted, routed_order_inv}

-- The row of the order afterwards: the routed order, the issues found, and no intake owner.
abbrev pub stored : PersistedOrder → Order → ValidationResult → PersistedOrder
stored p final result = record p {
  order = final;
  validation_issues = result.issues;
  intake_claim_token = none;
  intake_claim_expires_at = none;
}

-- The row before the lines are replaced.
abbrev unlined : PersistedOrder → Order → ValidationResult → PersistedOrder
unlined p final result = record p {
  order = record final {
    id = p.order.id;
    lines = p.order.lines;
    source_documents = p.order.source_documents;
  };
  validation_issues = result.issues;
  intake_claim_token = none;
  intake_claim_expires_at = none;
}

relined :
    (p : PersistedOrder) (final : Order) (result : ValidationResult)
    → IsRouted p.order result final
    → record (unlined p final result) {
      order = record (unlined p final result).order { lines = final.lines };
    }
      ≡ stored p final result
relined p final result r = ground (arith, r.same_id, r.same_documents)

save_lines-Writes :
    (p : PersistedOrder) (final : Order) (result : ValidationResult) (db : Db) {db' : Db}
    → IsRouted p.order result final
    → get_order db p.order.id ≡ some (unlined p final result)
    → save_lines result.route db final ≡ ok db'
    → Writes db db' (stored p final result)
save_lines-Writes p final result db {db'} r there h = elim r.to_route [
  | inl (ready, state) ↦ subst (Writes db db') (relined p final result r) (
      replace_order_graph-Writes (unlined p final result) there final r.same_id
        (subst (λ x. save_lines x db final ≡ ok db') ready h))
  | inr (review, state, lines) ↦
      let same : db ≡ db' = ok-injective (subst (λ x. save_lines x db final ≡ ok db') review h) in
      let row : unlined p final result ≡ stored p final result =
        ground (arith, r.same_id, r.same_documents, lines) in
      subst (λ d. Writes db d (stored p final result)) same
        (subst (Writes db db) row (unchanged-Writes there refl refl))
]

abbrev snapshot_of :
    PersistedOrder → ℕ → ExtractionDraft → FreshIds → ℕ → PersistedExtractionSnapshot
snapshot_of p source_id draft ids recorded_at = record {
  id = ids.snapshot;
  order_id = p.order.id;
  source_document_id = source_id;
  source_sha256 = draft.source_sha256;
  source_document_type = draft.source_document_type;
  draft = draft;
  created_at = recorded_at;
}

-- Audit events and a notification after the row is written.
told :
    (db : Db) {db' : Db} (row : PersistedOrder) (a b c : _) (id : ℕ) (o : Order) (kind : _)
    (url : String) (issues : _)
    → get_order db row.order.id ≡ some row
    → create_notification_intent
        (insert_audit_event (insert_audit_event (insert_audit_event db a) b) c)
        id
        o
        c
        slack
        kind
        url
        issues
      ≡ ok db'
    → Writes db db' row
told db row a b c id o kind url issues there h =
    let db1 = insert_audit_event db a in
    let db2 = insert_audit_event db1 b in
    let db3 = insert_audit_event db2 c in
    let k = create-kept db3 id o c slack kind url issues h in
    let k1 = insert_audit_event-kept db a in
    let k2 = insert_audit_event-kept db1 b in
    let k3 = insert_audit_event-kept db2 c in
    unchanged-Writes there (k.0 ∙ k3.0 ∙ k2.0 ∙ k1.0) (k.1 ∙ k3.1 ∙ k2.1 ∙ k1.1)

pub save_validation_inv :
    (db : Db) (p : PersistedOrder) (source_id : ℕ) (draft : ExtractionDraft)
    (result : ValidationResult) (ids : FreshIds) (recorded_at : ℕ) (url : String) {final : Order}
    {db' : Db}
    → get_order db p.order.id ≡ some p
    → save_validation db p source_id draft result ids recorded_at url ≡ ok (final, db')
    → (routed_order p.order result ids.line ≡ ok final)
      × IsRouted p.order result final
      × Writes db db' (stored p final result)
unfolding save_validation
save_validation_inv db p source_id draft result ids recorded_at url {final} {db'} there h =
    let id = p.order.id in
    let (snapshot, made, h1) =
      >>=-eq-ok (new_snapshot (snapshot_of p source_id draft ids recorded_at)) _ h in
    let (db1, inserted, h2) = >>=-eq-ok (insert_extraction_snapshot db snapshot) _ h1 in
    let (db2, issued, h3) = >>=-eq-ok (replace_validation_issues db1 id result.issues) _ h2 in
    let (final', routed, h4) = >>=-eq-ok (routed_order p.order result ids.line) _ h3 in
    let (db3, updated, h5) = >>=-eq-ok (update_order_snapshot db2 final') _ h4 in
    let (db4, cleared, h6) = >>=-eq-ok (clear_intake_ownership db3 id) _ h5 in
    let (db5, lined, h7) = >>=-eq-ok (save_lines result.route db4 final') _ h6 in
    let last = system_event ids.event3 id (route_event result.route) (recorded_at + 2) in
    let first = system_event ids.event1 id "EXTRACTION_SNAPSHOT_RECORDED" recorded_at in
    let second = system_event ids.event2 id "ORDER_VALIDATED" (recorded_at + 1) in
    let db8 = insert_audit_event (insert_audit_event (insert_audit_event db5 first) second) last in
    let (db9, notified, h8) =
      >>=-eq-ok
        (create_notification_intent db8 ids.notification final' last slack
          (route_notification result.route) url result.issues)
        _ h7 in
    let r = routed_order_inv p.order result ids.line routed in
    let kept = insert_extraction_snapshot-kept db snapshot inserted in
    let w1 : Writes db db1 p = unchanged-Writes there kept.0 kept.1 in
    let w2 = replace_validation_issues-Writes p (Writes-there w1) result.issues issued in
    let row2 : PersistedOrder = record p { validation_issues = result.issues } in
    let w3 = update_order_snapshot-Writes row2 (Writes-there w2) final' r.same_id updated in
    let w4 = clear_intake_ownership-Writes (with_snapshot row2 final') (Writes-there w3) cleared in
    let w5 = save_lines-Writes p final' result db4 r (Writes-there w4) lined in
    let w6 =
      told db5 (stored p final' result) first second last ids.notification final'
        (route_notification result.route) url result.issues (Writes-there w5) notified in
    let same : ◌≡◌ {A = Order × Db} (final', db9) (final, db') = ok-injective h8 in
    let e = sym r.same_id in
    let w : Writes db db9 (stored p final' result) =
      Writes-trans
        (Writes-trans (Writes-trans (Writes-trans (Writes-trans w1 w2 refl) w3 refl) w4 refl) w5 e)
        w6 refl in
    subst
      (λ (x : Order × Db).
        (routed_order p.order result ids.line ≡ ok x.0)
        × IsRouted p.order result x.0
        × Writes db x.1 (stored p x.0 result))
      same (routed, r, w)
