-- ===== src/Sync/OrderWrites.antt =====
-- Writes to an order outside the synchronisation (src/opsflow/persistence/repositories.py) and the
-- soundness of the database.
use ops_flow_ai.Base.{◌==◌, ==_iff, ◌≡◌, sym, ap, ◌∙◌, subst, inl, inr, some, arith, Bool-cases}
use ops_flow_ai.Base.Table.{Distinct, find}
use ops_flow_ai.Store.{PersistedOrder, Db, sync_key, get_order, get_sync}
use ops_flow_ai.Store.Writes.{Writes}
use ops_flow_ai.Sync.Contracts.{OrderSync}
use ops_flow_ai.Sync.Soundness.{IsSound}
use ops_flow_ai.Sync.System.{IsDbSound}

-- A write under which the order still goes with its row keeps the database sound.
pub Writes-IsDbSound :
    {db db' : Db} {p row : PersistedOrder}
    → IsDbSound db
    → Writes db db' row
    → get_order db row.order.id ≡ some p
    → ((r : OrderSync) → IsSound p.order r → IsSound row.order r)
    → IsDbSound db'
unfolding get_sync
Writes-IsDbSound {db} {db'} {p} {row} s w there keeps = record {
  distinct = subst (Distinct sync_key) (sym w.syncs) s.distinct;
  sound = λ id q r found_order found_sync.
      let before : get_sync db id ≡ some r = ap (find sync_key id) (sym w.syncs) ∙ found_sync in
      let seen = w.orders id in
      elim (Bool-cases (row.order.id == id)) [
        | inr differs ↦ s.sound id q r (ground arith) before
        | inl same ↦
            let this : row ≡ q = ground arith in
            let key : row.order.id ≡ id = (==_iff row.order.id id).0 same in
            subst (λ x. IsSound x.order r) this
              (keeps r (s.sound id p r (ap (get_order db) (sym key) ∙ there) before))
      ];
}
