-- ===== src/Store/Writes.antt =====
-- What the writes of src/opsflow/persistence/repositories.py to one order do to every lookup.
use ops_flow_ai.Base.{
  ℕ, ◌≡◌, refl, ◌∙◌, none, some, List, arith, ◌==◌, ==_refl, ok, subst, if◌then◌else◌,
}
use ops_flow_ai.Base.Table.{put, find-put, find_key}
use ops_flow_ai.Domain.Records.{AuditEvent, ValidationIssue}
use ops_flow_ai.Domain.Order.{Order}
use ops_flow_ai.Store.{
  PersistedOrder, PersistedExtractionSnapshot, Db, order_key, get_order, with_snapshot,
  update_order_snapshot, insert_audit_event, clear_intake_ownership,
}
use ops_flow_ai.Store.Graph.{
  replace_validation_issues, replace_order_graph, insert_extraction_snapshot,
}

-- The order of `row` now has that row, and the other orders and all synchronisation rows are as before.
pub record Writes (db db' : Db) (row : PersistedOrder) : Type 0 where
  pub orders : (j : ℕ) → get_order db' j ≡ (if row.order.id == j then some row else get_order db j)
  pub syncs : db'.syncs ≡ db.syncs

-- The row is there afterwards.
pub Writes-there :
    {db db' : Db} {row : PersistedOrder} → Writes db db' row → get_order db' row.order.id ≡ some row
Writes-there {row = row} w = ground (arith, w.orders row.order.id, ==_refl row.order.id)

pub Writes-trans :
    {db db1 db2 : Db} {row row' : PersistedOrder}
    → Writes db db1 row
    → Writes db1 db2 row'
    → row.order.id ≡ row'.order.id
    → Writes db db2 row'
Writes-trans w v e = record {
  orders = λ j. ground (arith, w.orders j, v.orders j, e);
  syncs = v.syncs ∙ w.syncs;
}

-- An operation on other tables.
pub unchanged-Writes :
    {db db' : Db} {row : PersistedOrder}
    → get_order db row.order.id ≡ some row
    → db'.orders ≡ db.orders
    → db'.syncs ≡ db.syncs
    → Writes db db' row
unfolding get_order
unchanged-Writes {db} {db'} {row} there same kept = record {
  orders = λ j. ground (arith, same, find_key order_key j db.orders, there);
  syncs = kept;
}

pub put-Writes :
    (db : Db) (row row' : PersistedOrder)
    → get_order db row.order.id ≡ some row
    → row'.order.id ≡ row.order.id
    → Writes db (record db { orders = put order_key row' db.orders }) row'
unfolding get_order
put-Writes db row row' there e = record {
  orders = λ j. ground (arith, find-put order_key j row' db.orders, there, e);
  syncs = refl;
}

module _ {db db' : Db} (row : PersistedOrder) (there : get_order db row.order.id ≡ some row) where
  pub replace_validation_issues-Writes :
      (issues : List ValidationIssue)
      → replace_validation_issues db row.order.id issues ≡ ok db'
      → Writes db db' (record row { validation_issues = issues })
  unfolding replace_validation_issues
  replace_validation_issues-Writes issues h =
      let new : PersistedOrder = record row { validation_issues = issues } in
      subst (λ d. Writes db d new) (ground (arith, there)) (put-Writes db row new there refl)

  pub replace_order_graph-Writes :
      (o : Order)
      → o.id ≡ row.order.id
      → replace_order_graph db o ≡ ok db'
      → Writes db db' (record row { order = record row.order { lines = o.lines } })
  unfolding replace_order_graph
  replace_order_graph-Writes o e h =
      let new : PersistedOrder = record row { order = record row.order { lines = o.lines } } in
      subst (λ d. Writes db d new) (ground (arith, e, there)) (put-Writes db row new there refl)

  pub update_order_snapshot-Writes :
      (o : Order)
      → o.id ≡ row.order.id
      → update_order_snapshot db o ≡ ok db'
      → Writes db db' (with_snapshot row o)
  unfolding update_order_snapshot
  update_order_snapshot-Writes o e h =
      subst (λ d. Writes db d (with_snapshot row o)) (ground (arith, e, there))
        (put-Writes db row (with_snapshot row o) there refl)

  pub clear_intake_ownership-Writes :
      clear_intake_ownership db row.order.id ≡ ok db'
      → Writes db db' (record row { intake_claim_token = none; intake_claim_expires_at = none })
  unfolding clear_intake_ownership
  clear_intake_ownership-Writes h =
      let new : PersistedOrder = record row {
        intake_claim_token = none;
        intake_claim_expires_at = none;
      } in
      subst (λ d. Writes db d new) (ground (arith, there)) (put-Writes db row new there refl)

pub insert_audit_event-kept :
    (db : Db) (e : AuditEvent)
    → ((insert_audit_event db e).orders ≡ db.orders) × ((insert_audit_event db e).syncs ≡ db.syncs)
unfolding insert_audit_event
insert_audit_event-kept db e = (refl, refl)

pub insert_extraction_snapshot-kept :
    (db : Db) {db' : Db} (s : PersistedExtractionSnapshot)
    → insert_extraction_snapshot db s ≡ ok db'
    → (db'.orders ≡ db.orders) × (db'.syncs ≡ db.syncs)
unfolding insert_extraction_snapshot
insert_extraction_snapshot-kept db s h = ground arith
