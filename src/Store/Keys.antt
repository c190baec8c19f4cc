-- ===== src/Store/Keys.antt =====
-- The insertions of a new order and of its idempotency key, src/opsflow/persistence/repositories.py.
use ops_flow_ai.Base.{
  ℕ, String, false, Option, none, some, List, [], ◌∷◌, ◌++◌, is_none, str_eq, Result, ok,
  integrity_error, duplicate_idempotency_key, ◌>>◌, guard, if◌then◌else◌,
}
use ops_flow_ai.Domain.Order.{Order}
use ops_flow_ai.Store.{PersistedOrder, IdempotencyRecord, Db, get_order}

-- The row of an order that was just inserted.
abbrev pub new_row : Order → ℕ → PersistedOrder
new_row o created_at = record {
  order = o;
  created_at = created_at;
  validation_issues = [];
  intake_claim_token = none;
  intake_claim_expires_at = none;
}

-- `insert_order_graph`; the primary key refuses an id that is there.
unfoldable pub insert_order_graph : Db → Order → ℕ → Result Db
insert_order_graph db o created_at = do
  guard (is_none (get_order db o.id)) (integrity_error false)
  ok (record db { orders = db.orders ++ new_row o created_at ∷ [] })

unfoldable pub find_record : String → List IdempotencyRecord → Option IdempotencyRecord
find_record key [] = none
find_record key (r ∷ rs) =
    let rest = find_record key rs in if str_eq r.idempotency_key key then some r else rest

-- `get_idempotency_record`
unfoldable pub get_idempotency_record : Db → String → Option IdempotencyRecord
unfolding find_record
get_idempotency_record db key = find_record key db.keys

-- `insert_idempotency_record`, which its primary key decides
unfoldable pub insert_idempotency_record : Db → IdempotencyRecord → Result Db
insert_idempotency_record db r = do
  guard (is_none (get_idempotency_record db r.idempotency_key)) duplicate_idempotency_key
  ok (record db { keys = db.keys ++ r ∷ [] })
