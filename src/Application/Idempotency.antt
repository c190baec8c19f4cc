-- ===== src/Application/Idempotency.antt =====
-- Creating an order twice under one key: src/opsflow/application/orders.py.
use ops_flow_ai.Base.{
  ℕ, String, ◌≡◌, refl, sym, ap, ◌∙◌, true, none, some, List, [], ◌∷◌, ◌++◌, arith, str_eq, eq_iff,
  ==_refl, Result, ok, err, idempotency_conflict, duplicate_idempotency_key, >>=-eq-ok,
  ok-injective, err≢ok, if◌then◌else◌,
}
use ops_flow_ai.Base.Table.{find, find-append}
use ops_flow_ai.Domain.Records.{AuditEvent, is_blank, new_event}
use ops_flow_ai.Domain.Order.{Order}
use ops_flow_ai.Store.{
  PersistedOrder, IdempotencyRecord, Db, order_key, get_order, insert_audit_event,
}
use ops_flow_ai.Store.Keys.{
  new_row, insert_order_graph, find_record, get_idempotency_record, insert_idempotency_record,
}
use ops_flow_ai.Application.Creation.{
  CreateOrderInput, created_by_this_command, replayed_existing, CreateOrderResult, CanonicalOrder,
  canonical_order_request, CreationIds, order_from_create_input, resolve_idempotency_race,
  received_event, insert_order, after_insert, create_order_with_disposition,
}

find_record-append :
    (key : String) (rs ss : List IdempotencyRecord)
    → find_record key (rs ++ ss)
      ≡ elim (find_record key rs) [ none ↦ find_record key ss | some r ↦ some r ]
unfolding find_record
find_record-append key [] ss = refl
find_record-append key (r ∷ rs) ss = ground (arith, find_record-append key rs ss)

str_eq_refl : (s : String) → str_eq s s ≡ true
str_eq_refl s = (eq_iff s s).1 refl

abbrev pub record_for : String → String → Order → ℕ → IdempotencyRecord
record_for key fingerprint o now = record {
  idempotency_key = key;
  request_fingerprint = fingerprint;
  order_id = o.id;
  created_at = now;
}

-- The database with the order, its event and its key.
abbrev pub with_order : Db → Order → AuditEvent → IdempotencyRecord → ℕ → Db
with_order db o event r now = record db {
  orders = db.orders ++ new_row o now ∷ [];
  audit = db.audit ++ event ∷ [];
  keys = db.keys ++ r ∷ [];
}

insert_order_inv :
    (db : Db) (o : Order) (event : AuditEvent) (key fingerprint : String) (now : ℕ) {db' : Db}
    → insert_order db o event key fingerprint now ≡ ok db'
    → (get_order db o.id ≡ none)
      × (get_idempotency_record db key ≡ none)
      × (db' ≡ with_order db o event (record_for key fingerprint o now) now)
unfolding insert_order insert_order_graph insert_idempotency_record get_idempotency_record
    insert_audit_event
insert_order_inv db o event key fingerprint now h = ground arith

after_insert_inv :
    (m : Result Db) (later : Db) (o : Order) (key fingerprint : String) (now : ℕ)
    {r : CreateOrderResult} {db' : Db}
    → after_insert m later o key fingerprint now ≡ ok (r, db')
    → r.disposition ≡ created_by_this_command
    → (m ≡ ok db') × (r.persisted ≡ new_row o now)
after_insert_inv (ok d) later o key fingerprint now h created =
    let same = ok-injective h in (ap (λ x. ok x.1) same, sym (ap (λ x. x.0.persisted) same))
after_insert_inv (err duplicate_idempotency_key) later o key fingerprint now h created =
    let (existing, resolved, h1) = >>=-eq-ok (resolve_idempotency_race later key fingerprint) _ h in
    absurd (ground (arith, ok-injective h1))
after_insert_inv (err _) later o key fingerprint now h created = absurd (err≢ok h)

-- The key of the inserted record is the one that is found.
found_record :
    (db : Db) (o : Order) (event : AuditEvent) (key fingerprint : String) (now : ℕ)
    → get_idempotency_record db key ≡ none
    → get_idempotency_record (with_order db o event (record_for key fingerprint o now) now) key
      ≡ some (record_for key fingerprint o now)
unfolding get_idempotency_record find_record
found_record db o event key fingerprint now fresh = ground (
  arith,
  find_record-append key db.keys (record_for key fingerprint o now ∷ []),
  fresh,
  str_eq_refl key,
)

found_order :
    (db : Db) (o : Order) (event : AuditEvent) (r : IdempotencyRecord) (now : ℕ)
    → get_order db o.id ≡ none
    → get_order (with_order db o event r now) o.id ≡ some (new_row o now)
unfolding get_order find
found_order db o event r now fresh =
    ground (arith, find-append order_key o.id db.orders (new_row o now ∷ []), fresh, ==_refl o.id)

-- The insertion under a key that is there.
insert_order_again :
    (db : Db) (o : Order) (event : AuditEvent) (key fingerprint : String) (now : ℕ)
    {r : IdempotencyRecord}
    → get_order db o.id ≡ none
    → get_idempotency_record db key ≡ some r
    → insert_order db o event key fingerprint now ≡ err duplicate_idempotency_key
unfolding insert_order insert_order_graph insert_idempotency_record get_idempotency_record
    insert_audit_event
insert_order_again db o event key fingerprint now fresh found = ground arith

resolve_lem :
    (db : Db) (key fingerprint : String) {r : IdempotencyRecord} {p : PersistedOrder}
    → get_idempotency_record db key ≡ some r
    → get_order db r.order_id ≡ some p
    → resolve_idempotency_race db key fingerprint
      ≡ (if str_eq r.request_fingerprint fingerprint then ok p else err idempotency_conflict)
unfolding resolve_idempotency_race
resolve_lem db key fingerprint found order = ground arith

-- What `create_order_with_disposition` answers under a key that is there.
replayed :
    (digest : CanonicalOrder → String) (db : Db) (request : CreateOrderInput) (key : String)
    (now : ℕ) (ids : CreationIds) {o : Order} {r : IdempotencyRecord} {p : PersistedOrder}
    → order_from_create_input request ids ≡ ok o
    → get_order db o.id ≡ none
    → get_idempotency_record db key ≡ some r
    → get_order db r.order_id ≡ some p
    → create_order_with_disposition digest db db request key now ids ≡ (
        if str_eq r.request_fingerprint (digest (canonical_order_request request))
        then ok (record { persisted = p; disposition = replayed_existing }, db)
        else err idempotency_conflict)
unfolding create_order_with_disposition new_event is_blank
replayed digest db request key now ids {o} built fresh found order =
    let fingerprint = digest (canonical_order_request request) in
    rw
      (
        built,
        insert_order_again db o (received_event ids.event o.id now) key fingerprint now fresh found,
        resolve_lem db key fingerprint found order,
      )
      (ground arith)

-- Let a request have created an order under a key, and let a second request under that key describe an
-- order, whose id is not in the resulting database. Then the second creates nothing and leaves the
-- database as it is: it returns the first order as replayed if the fingerprints of the two requests
-- are equal, and an idempotency conflict if not.
pub create_order_twice :
    (digest : CanonicalOrder → String) (db later : Db) (request request' : CreateOrderInput)
    (key : String) (now now' : ℕ) (ids ids' : CreationIds) {r : CreateOrderResult} {db' : Db}
    {o' : Order}
    → create_order_with_disposition digest db later request key now ids ≡ ok (r, db')
    → r.disposition ≡ created_by_this_command
    → order_from_create_input request' ids' ≡ ok o'
    → get_order db' o'.id ≡ none
    → create_order_with_disposition digest db' db' request' key now' ids' ≡ (
        if str_eq
          (digest (canonical_order_request request))
          (digest (canonical_order_request request'))
        then ok (record { persisted = r.persisted; disposition = replayed_existing }, db')
        else err idempotency_conflict)
unfolding create_order_with_disposition
create_order_twice digest db later request request' key now now' ids ids' {r} {db'} h created built'
      fresh' =
    let fingerprint = digest (canonical_order_request request) in
    let (o, built, h1) = >>=-eq-ok (order_from_create_input request ids) _ h in
    let (event, made, h2) = >>=-eq-ok (new_event (received_event ids.event o.id now)) _ h1 in
    let (inserted, persisted) =
      after_insert_inv (insert_order db o event key fingerprint now) later o key fingerprint now h2
        created in
    let (fresh_id, fresh_key, same) = insert_order_inv db o event key fingerprint now inserted in
    let record' = record_for key fingerprint o now in
    replayed digest db' request' key now' ids' built' fresh'
      (ap (λ d. get_idempotency_record d key) same
        ∙ found_record db o event key fingerprint now fresh_key)
      (ap (λ d. get_order d o.id) same
        ∙ found_order db o event record' now fresh_id
        ∙ ap some (sym persisted))
