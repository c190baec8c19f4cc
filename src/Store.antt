-- ===== src/Store.antt =====
-- The database and the transaction-neutral operations of src/opsflow/persistence/repositories.py.
-- A table is the list of its rows. The child tables of an order (lines, source documents,
-- validation issues, each ordered by position) are kept in the row of their order, as
-- `PersistedOrder` has them. A transaction is a function from the database to a `Result` with the
-- new database: a raise rolls back. Keys from `uuid4` are arguments and taken to be fresh.
pub mod Laws
pub mod Graph
pub mod Facts
pub mod Writes
pub mod Keys
use ops_flow_ai.Base.{
  ℕ, ◌+◌, ◌*◌, ◌≡◌, refl, String, Bool, true, false, Option, none, some, List, [], ◌∷◌, ◌++◌,
  str_eq, any, Result, ok, err, value_error, order_not_found, integrity_error, ◌>>=◌, or_raise,
  if◌then◌else◌,
}
use ops_flow_ai.Base.Table.{find, put}
use ops_flow_ai.Domain.Order.{Order}
use ops_flow_ai.Domain.Records.{AuditEvent, ValidationIssue, SourceDocumentType}
use ops_flow_ai.Validation.Draft.{ExtractionDraft}
use ops_flow_ai.Sync.Contracts.{OrderSync}
use ops_flow_ai.Notify.Contracts.{NotificationDelivery}

pub record PersistedOrder : Type 0 where
  pub order : Order
  pub created_at : ℕ
  pub validation_issues : List ValidationIssue
  pub intake_claim_token : Option ℕ
  pub intake_claim_expires_at : Option ℕ

pub record IdempotencyRecord : Type 0 where
  pub idempotency_key : String
  pub request_fingerprint : String
  pub order_id : ℕ
  pub created_at : ℕ

-- persistence/mappers.py
pub record PersistedExtractionSnapshot : Type 0 where
  pub id : ℕ
  pub order_id : ℕ
  pub source_document_id : ℕ
  pub source_sha256 : String
  pub source_document_type : SourceDocumentType
  pub draft : ExtractionDraft
  pub created_at : ℕ

pub record Db : Type 0 where
  pub orders : List PersistedOrder
  pub syncs : List OrderSync
  pub deliveries : List NotificationDelivery
  pub audit : List AuditEvent
  pub keys : List IdempotencyRecord
  pub snapshots : List PersistedExtractionSnapshot

abbrev pub order_key : PersistedOrder → ℕ
order_key p = p.order.id

abbrev pub sync_key : OrderSync → ℕ
sync_key r = r.order_id

-- One microsecond is the unit of time.
abbrev pub seconds : ℕ → ℕ
seconds n = n * 1000000

-- `get_order` and `get_order_for_update`
unfoldable pub get_order : Db → ℕ → Option PersistedOrder
get_order db id = find order_key id db.orders

-- `get_order_sync_for_update`
unfoldable pub get_sync : Db → ℕ → Option OrderSync
get_sync db id = find sync_key id db.syncs

-- The scalar columns that `update_order_snapshot` writes; lines and documents stay.
abbrev pub with_snapshot : PersistedOrder → Order → PersistedOrder
with_snapshot p o = record p {
  order = record o {
    id = p.order.id;
    lines = p.order.lines;
    source_documents = p.order.source_documents;
  };
}

unfoldable pub update_order_snapshot : Db → Order → Result Db
update_order_snapshot db o = do
  row ← or_raise (get_order db o.id) value_error
  ok (record db { orders = put order_key (with_snapshot row o) db.orders })

-- The write of a changed sync row at `session.flush`.
unfoldable pub save_sync : Db → OrderSync → Db
save_sync db r = record db { syncs = put sync_key r db.syncs }

unfoldable pub insert_audit_event : Db → AuditEvent → Db
insert_audit_event db e = record db { audit = db.audit ++ e ∷ [] }

unfoldable pub set_intake_ownership : Db → ℕ → ℕ → ℕ → ℕ → Result (ℕ × Db)
set_intake_ownership db order_id token lease_seconds clock = do
  row ← or_raise (get_order db order_id) value_error
  let expires = clock + seconds lease_seconds
  ok (
    expires,
    record db {
      orders =
          put order_key
            (record row { intake_claim_token = some token; intake_claim_expires_at = some expires })
            db.orders;
    },
  )

unfoldable pub clear_intake_ownership : Db → ℕ → Result Db
clear_intake_ownership db order_id = do
  row ← or_raise (get_order db order_id) value_error
  ok (record db {
    orders =
        put order_key (record row { intake_claim_token = none; intake_claim_expires_at = none })
          db.orders;
  })
