-- ===== src/Sync/Commits.antt =====
-- What a row that is saved under a current claim changes, in the transactions of
-- src/opsflow/application/order_sync.py.
use ops_flow_ai.Base.{
  ℕ, ◌≡◌, refl, ap, ◌∙◌, sym, subst, Option, none, some, arith, ◌==◌, Result, ok, >>=-eq-ok,
  ok-injective, if◌then◌else◌,
}
use ops_flow_ai.Domain.State.{OrderState}
use ops_flow_ai.Domain.Records.{AuditEvent}
use ops_flow_ai.Store.{PersistedOrder, Db, get_order, get_sync, save_sync, insert_audit_event}
use ops_flow_ai.Sync.Contracts.{
  OrderSync, OrderSyncFailureCode, OrderSyncReceipt, odoo_receipt, new_sync,
}
use ops_flow_ai.Sync.Commands.{order_sync_from_model, move_order}
use ops_flow_ai.Sync.Transactions.{finish, received, after_failure}
use ops_flow_ai.Sync.Effects.{Effect, advanced, move_order_inv, saved-Effect, Fenced}
use ops_flow_ai.Sync.Soundness.{at_state}

pub order_sync_from_model_same :
    (r : OrderSync) {s : OrderSync} → order_sync_from_model r ≡ ok s → s ≡ r
unfolding order_sync_from_model new_sync
order_sync_from_model_same r h = ground arith

pub finish_inv :
    (db : Db) (r : OrderSync) {s : OrderSync} {db' : Db}
    → finish db r ≡ ok (s, db')
    → (s ≡ r) × (save_sync db r ≡ db')
finish_inv db r {s} {db'} h =
    let (t, read, h1) = >>=-eq-ok (order_sync_from_model r) _ h in
    let pair : ◌≡◌ {A = OrderSync × Db} (t, save_sync db r) (s, db') = ok-injective h1 in
    (sym (ap (λ p. p.0) pair) ∙ order_sync_from_model_same r read, ap (λ p. p.1) pair)

-- A lookup that returns what the table has already.
pub unchanged :
    (db : Db) (k : ℕ) {o : PersistedOrder}
    → get_order db k ≡ some o
    → (j : ℕ) → get_order db j ≡ (if k == j then some o else get_order db j)
unchanged db k h j = ground (arith, h)

-- A row saved under a current claim, after the order was written and an event recorded.
module _ (db : Db) {clock id token : ℕ} {r : OrderSync} {o : PersistedOrder}
    (f : Fenced db clock id token r o) where
  pub fenced-Effect :
      (o' : PersistedOrder) (r' : OrderSync) (db1 : Db) {db' : Db}
      → ((j : ℕ) → get_order db1 j ≡ (if r.order_id == j then some o' else get_order db j))
      → db1.syncs ≡ db.syncs
      → save_sync db1 r' ≡ db'
      → r'.order_id ≡ r.order_id
      → Effect db db' o o' r r'
  fenced-Effect o' r' db1 orders syncs e same =
      subst (λ d. Effect db d o o' r r') e
        (saved-Effect db db1 o o' r r' (ap (get_order db) f.sync_key ∙ f.order_there)
          (ap (get_sync db) f.sync_key ∙ f.sync_there) orders syncs same)

  pub same_order : (j : ℕ) → get_order db j ≡ (if r.order_id == j then some o else get_order db j)
  same_order = unchanged db r.order_id (ap (get_order db) f.sync_key ∙ f.order_there)

  pub moved_order :
      (target : Option OrderState) {db1 : Db}
      → move_order db o target ≡ ok db1
      → ((j : ℕ)
          → get_order db1 j
            ≡ (if r.order_id == j then some (advanced o target) else get_order db j))
        × (db1.syncs ≡ db.syncs)
  moved_order target {db1} h =
      let (orders, syncs, allowed) =
        move_order_inv db o target (ap (get_order db) f.order_key ∙ f.order_there) h in
      (
        subst
            (λ k.
              (j : ℕ)
              → get_order db1 j ≡ (if k == j then some (advanced o target) else get_order db j))
            (f.order_key ∙ sym f.sync_key) orders,
        syncs,
      )

pub received_key :
    (r : OrderSync) (receipt : OrderSyncReceipt) (now : ℕ)
    → (received r receipt now).order_id ≡ r.order_id
received_key r (odoo_receipt i name) now = refl
received_key r _ now = refl

pub after_failure_key :
    (r : OrderSync) (code : OrderSyncFailureCode) (retry_after : Option ℕ) (now : ℕ)
    → (after_failure r code retry_after now).0.order_id ≡ r.order_id
unfolding after_failure
after_failure_key r code retry_after now = ground arith

pub audit_syncs : (db : Db) (e : AuditEvent) → (insert_audit_event db e).syncs ≡ db.syncs
unfolding insert_audit_event
audit_syncs db e = refl

pub unit_result : {m : Result (Unit {0})} {u : Unit {0}} → m ≡ ok u → m ≡ ok tt
unit_result h = h

pub at_state-advanced :
    (o : PersistedOrder) (target : Option OrderState)
    → (advanced o target).order ≡ at_state o.order target
at_state-advanced o none = refl
at_state-advanced o (some t) = refl
