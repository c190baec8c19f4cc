-- ===== src/Review/Started.antt =====
-- An order whose approval (src/opsflow/application/review_commands.py) just started its
-- synchronisation.
use ops_flow_ai.Base.{
  ℕ, ◌==◌, ==_iff, ==_refl, ◌≡◌, refl, sym, ap, ◌∙◌, subst, inl, inr, none, some, [], ◌∷◌, ◌++◌,
  arith, ok, Bool-cases,
}
use ops_flow_ai.Base.Table.{Distinct, Distinct-append, find, find-append}
use ops_flow_ai.Domain.State.{approved}
use ops_flow_ai.Store.{PersistedOrder, Db, order_key, sync_key, get_order, get_sync}
use ops_flow_ai.Store.Writes.{Writes, Writes-there}
use ops_flow_ai.Sync.Contracts.{OrderSync}
use ops_flow_ai.Sync.Commands.{new_intent, create_order_sync_intent}
use ops_flow_ai.Sync.Soundness.{IsSound}
use ops_flow_ai.Sync.System.{IsDbSound}

-- The same orders and rows are as sound.
kept-IsDbSound :
    (db db' : Db) → db'.orders ≡ db.orders → db'.syncs ≡ db.syncs → IsDbSound db → IsDbSound db'
unfolding get_order get_sync
kept-IsDbSound db db' e f s = record {
  distinct = subst (Distinct sync_key) (sym f) s.distinct;
  sound = λ id o r a b. s.sound id o r (ground (arith, e, a)) (ground (arith, f, b));
}

-- The row waits, from the time `now` on, for the first attempt of its first generation.
pub record IsWaiting (r : OrderSync) (now : ℕ) : Type 0 where
  pub due : r.next_attempt_at ≡ now
  pub no_claim : r.claim_token ≡ none
  pub no_attempt : r.attempt_count ≡ 0
  pub no_retry : r.retry_generation ≡ 0
  pub no_step : r.in_flight_step ≡ none
  pub no_failure : r.last_failure_code ≡ none
  pub no_erp : r.odoo_sale_order_id ≡ none
  pub no_company : r.hubspot_company_id ≡ none
  pub no_deal : r.hubspot_deal_id ≡ none
  pub no_association : r.hubspot_association_confirmed_at ≡ none

-- The database is sound, and the order `id` in it is APPROVED with a row that waits.
pub record IsStarted (db : Db) (id now : ℕ) : Type 0 where
  pub sound : IsDbSound db
  pub order : PersistedOrder
  pub order_there : get_order db id ≡ some order
  pub is_approved : order.order.state ≡ approved
  pub row : OrderSync
  pub row_there : get_sync db id ≡ some row
  pub waiting : IsWaiting row now

pub kept-IsStarted :
    (db db' : Db) {id now : ℕ}
    → (db'.orders ≡ db.orders) × (db'.syncs ≡ db.syncs)
    → IsStarted db id now
    → IsStarted db' id now
unfolding get_order get_sync
kept-IsStarted db db' {id} (e, f) s = record {
  sound = kept-IsDbSound db db' e f s.sound;
  order = s.order;
  order_there = ap (find order_key id) e ∙ s.order_there;
  is_approved = s.is_approved;
  row = s.row;
  row_there = ap (find sync_key id) f ∙ s.row_there;
  waiting = s.waiting;
}

module _ {db db1 : Db} {row : PersistedOrder} (s : IsDbSound db) (w : Writes db db1 row)
    (created_at : ℕ) (absent : get_sync db1 row.order.id ≡ none)
    (good : IsSound row.order (new_intent row.order.id created_at)) where
  started-IsSound :
      (id : ℕ) (o : PersistedOrder) (r : OrderSync)
      → get_order db1 id ≡ some o
      → find sync_key id (db1.syncs ++ new_intent row.order.id created_at ∷ []) ≡ some r
      → IsSound o.order r
  unfolding get_sync find
  started-IsSound id o r found_order found =
      let seen = w.orders id in
      let both = find-append sync_key id db1.syncs (new_intent row.order.id created_at ∷ []) in
      elim (Bool-cases (row.order.id == id)) [
        | inr differs ↦
            let old : find sync_key id db1.syncs ≡ some r = ground (arith, both) in
            s.sound id o r (ground arith) (ap (find sync_key id) (sym w.syncs) ∙ old)
        | inl same ↦
            let this : row ≡ o = ground arith in
            let key : row.order.id ≡ id = (==_iff row.order.id id).0 same in
            let none_here : find sync_key id db1.syncs ≡ none =
              ap (λ k. find sync_key k db1.syncs) (sym key) ∙ absent in
            let fresh : new_intent row.order.id created_at ≡ r = ground (arith, both, none_here) in
            subst (λ x. IsSound x.order r) this (subst (IsSound row.order) fresh good)
      ]

  started-IsDbSound :
      {db2 : Db} → create_order_sync_intent db1 row.order.id created_at ≡ ok db2 → IsDbSound db2
  unfolding create_order_sync_intent get_sync get_order
  started-IsDbSound {db2} h =
      let new = new_intent row.order.id created_at in
      let db2' : Db = record db1 { syncs = db1.syncs ++ new ∷ [] } in
      let same : db2' ≡ db2 = ground (arith, absent) in
      let d : Distinct sync_key db1.syncs = subst (Distinct sync_key) (sym w.syncs) s.distinct in
      subst IsDbSound same (record {
        distinct = Distinct-append sync_key db1.syncs new d absent;
        sound = started-IsSound;
      })

  pub new_intent-IsStarted :
      {db2 : Db}
      → row.order.state ≡ approved
      → create_order_sync_intent db1 row.order.id created_at ≡ ok db2
      → IsStarted db2 row.order.id created_at
  unfolding create_order_sync_intent get_sync get_order find
  new_intent-IsStarted {db2} state h =
      let new = new_intent row.order.id created_at in
      let same : record db1 { syncs = db1.syncs ++ new ∷ [] } ≡ db2 = ground (arith, absent) in
      record {
        sound = started-IsDbSound h;
        order = row;
        order_there =
            ap (λ (d : Db). find order_key row.order.id d.orders) (sym same) ∙ Writes-there w;
        is_approved = state;
        row = new;
        row_there =
            ap (λ (d : Db). find sync_key row.order.id d.syncs) (sym same)
            ∙ find-append sync_key row.order.id db1.syncs (new ∷ [])
            ∙ ground (arith, absent, ==_refl row.order.id);
        waiting = record {
          due = refl;
          no_claim = refl;
          no_attempt = refl;
          no_retry = refl;
          no_step = refl;
          no_failure = refl;
          no_erp = refl;
          no_company = refl;
          no_deal = refl;
          no_association = refl;
        };
      }
