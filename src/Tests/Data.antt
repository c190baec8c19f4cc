-- ===== src/Tests/Data.antt =====
-- The orders, rows and databases of the tests.
use ops_flow_ai.Base.{ℕ, ◌≡◌, refl, inl, false, Bool, none, some, List, [], ◌∷◌, arith, subst}
use ops_flow_ai.Base.Table.{find}
use ops_flow_ai.Domain.State.{OrderState, approved, syncing}
use ops_flow_ai.Domain.Records.{AuditEvent}
use ops_flow_ai.Domain.Order.{Order, currency_ok, origin_ok, is_currency_code}
use ops_flow_ai.Domain.Lifecycle.{IsValid}
use ops_flow_ai.Store.{PersistedOrder, Db, get_order, get_sync, order_key, sync_key}
use ops_flow_ai.Sync.Contracts.{OrderSync}
use ops_flow_ai.Sync.Commands.{new_intent, sync_event}
use ops_flow_ai.Sync.Claiming.{granted_row}
use ops_flow_ai.Sync.Soundness.{IsSound, new_intent-IsSound, granted-IsSound}
use ops_flow_ai.Sync.System.{IsDbSound}

abbrev pub an_order : OrderState → Order
an_order s = record {
  id = 1;
  customer_reference = some "ACME";
  po_number = some "PO-1";
  order_date = none;
  requested_delivery_date = none;
  currency = some "EUR";
  lines = [];
  source_documents = [];
  state = s;
  failure_origin = none;
}

pub approved-IsValid : IsValid (an_order approved)
unfolding currency_ok is_currency_code origin_ok
approved-IsValid = record { currency = refl; origin = refl }

abbrev pub persisted : Order → PersistedOrder
persisted o = record {
  order = o;
  created_at = 0;
  validation_issues = [];
  intake_claim_token = none;
  intake_claim_expires_at = none;
}

abbrev pub db_with : Order → OrderSync → Db
db_with o r = record {
  orders = persisted o ∷ [];
  syncs = r ∷ [];
  deliveries = [];
  audit = [];
  keys = [];
  snapshots = [];
}

abbrev pub nobody : ℕ → Bool
nobody id = false

-- One approved order with its intent, created at time 5.
abbrev pub before_claim : Db
before_claim = db_with (an_order approved) (new_intent 1 5)

-- The database after worker 70 claimed it at time 10.
abbrev pub after_claim : Db
after_claim = record (db_with (an_order syncing) (granted_row (new_intent 1 5) 10 70)) {
  audit = sync_event 900 1 "ORDER_SYNC_STARTED" 10 ∷ [];
}

only_order : (p q : PersistedOrder) (id : ℕ) → find order_key id (p ∷ []) ≡ some q → p ≡ q
unfolding find
only_order p q id h = ground arith

only_row : (r s : OrderSync) (id : ℕ) → find sync_key id (r ∷ []) ≡ some s → r ≡ s
unfolding find
only_row r s id h = ground arith

-- A database with one order and its row.
pub single-IsDbSound :
    (p : PersistedOrder) (r : OrderSync) (audit : List AuditEvent)
    → IsSound p.order r
    → IsDbSound (record {
      orders = p ∷ [];
      syncs = r ∷ [];
      deliveries = [];
      audit = audit;
      keys = [];
      snapshots = [];
    })
unfolding get_order get_sync find
single-IsDbSound p r audit s = record {
  distinct = (refl, tt);
  sound = λ id o q found_order found_sync.
      subst (λ x. IsSound x.order q) (only_order p o id found_order)
        (subst (IsSound p.order) (only_row r q id found_sync) s);
}

pub before_claim-IsDbSound : IsDbSound before_claim
before_claim-IsDbSound =
    single-IsDbSound (persisted (an_order approved)) (new_intent 1 5) []
      (new_intent-IsSound (an_order approved) 1 5 approved-IsValid refl)

-- Under the claim of worker 70 the order's row is sound.
pub claimed-IsSound : IsSound (an_order syncing) (granted_row (new_intent 1 5) 10 70)
claimed-IsSound =
    granted-IsSound (new_intent-IsSound (an_order approved) 1 5 approved-IsValid refl) 10 70
      (inl refl)
