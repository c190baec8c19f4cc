-- ===== src/Store/Laws.antt =====
-- What the repository operations do to each lookup.
use ops_flow_ai.Base.{ℕ, ◌≡◌, refl, some, arith, ◌==◌, ok, if◌then◌else◌}
use ops_flow_ai.Base.Table.{put, find_key, find-put}
use ops_flow_ai.Domain.Order.{Order}
use ops_flow_ai.Domain.Records.{AuditEvent}
use ops_flow_ai.Sync.Contracts.{OrderSync}
use ops_flow_ai.Store.{
  PersistedOrder, Db, order_key, sync_key, get_order, get_sync, with_snapshot,
  update_order_snapshot, save_sync, insert_audit_event,
}

pub get_order_key :
    (db : Db) (id : ℕ) {p : PersistedOrder} → get_order db id ≡ some p → p.order.id ≡ id
unfolding get_order
get_order_key db id h = find_key order_key id db.orders h

pub get_sync_key : (db : Db) (id : ℕ) {r : OrderSync} → get_sync db id ≡ some r → r.order_id ≡ id
unfolding get_sync
get_sync_key db id h = find_key sync_key id db.syncs h

module _ (db : Db) (o : Order) {p : PersistedOrder} (present : get_order db o.id ≡ some p) where
  -- A snapshot of an order that is there can be written, and is read back.
  pub update_order_snapshot_lem :
      (db' : Db) × (update_order_snapshot db o ≡ ok db')
      × ((j : ℕ)
          → get_order db' j ≡ (if o.id == j then some (with_snapshot p o) else get_order db j))
      × (db'.syncs ≡ db.syncs)
      × (db'.deliveries ≡ db.deliveries)
      × (db'.audit ≡ db.audit)
  unfolding update_order_snapshot get_order
  update_order_snapshot_lem = (
    record db { orders = put order_key (with_snapshot p o) db.orders },
    ground arith,
    λ j. ground (
      arith,
      find-put order_key j (with_snapshot p o) db.orders,
      find_key order_key o.id db.orders present,
    ),
    refl,
    refl,
    refl,
  )

module _ (db : Db) (r : OrderSync) {q : OrderSync} (present : get_sync db r.order_id ≡ some q) where
  pub get_sync-save_sync :
      (j : ℕ) → get_sync (save_sync db r) j ≡ (if r.order_id == j then some r else get_sync db j)
  unfolding save_sync get_sync
  get_sync-save_sync j = ground (arith, find-put sync_key j r db.syncs)

pub get_order-save_sync :
    (db : Db) (r : OrderSync) (j : ℕ) → get_order (save_sync db r) j ≡ get_order db j
unfolding save_sync get_order
get_order-save_sync db r j = refl

pub get_order-insert_audit_event :
    (db : Db) (e : AuditEvent) (j : ℕ) → get_order (insert_audit_event db e) j ≡ get_order db j
unfolding insert_audit_event get_order
get_order-insert_audit_event db e j = refl

pub get_sync-insert_audit_event :
    (db : Db) (e : AuditEvent) (j : ℕ) → get_sync (insert_audit_event db e) j ≡ get_sync db j
unfolding insert_audit_event get_sync
get_sync-insert_audit_event db e j = refl
