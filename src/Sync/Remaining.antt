-- ===== src/Sync/Remaining.antt =====
-- The steps that an order has left, and what a committed receipt or completion of
-- src/opsflow/application/order_sync.py makes of them.
use ops_flow_ai.Base.{
  ℕ, ◌<◌, ◌≡◌, sym, ap, ◌∙◌, subst, Bool, true, false, not, Option, none, some, arith, opt_eq, ok,
  integrity_error, step_precondition, sync_completion, ok-injective, >>=-eq-ok, guard, guard-eq-ok,
}
use ops_flow_ai.Domain.State.{OrderState}
use ops_flow_ai.Domain.Order.{Order}
use ops_flow_ai.Store.{PersistedOrder, Db, get_order}
use ops_flow_ai.Sync.Contracts.{
  OrderSync, OrderSyncStep, odoo_lookup, odoo_bridge, hubspot_company, hubspot_deal,
  hubspot_association, step_eq, OrderSyncReceipt, odoo_receipt, company_receipt, deal_receipt,
  association_receipt, is_receipt, OrderSyncStepResult, receipt,
}
use ops_flow_ai.Sync.Commands.{
  next_order_sync_step, receipt_step, require_step_preconditions, is_current, require_current_claim,
  has_all_receipts,
}
use ops_flow_ai.Sync.Transactions.{
  persist_order_sync_receipt, complete_order_sync, received, collides,
}
use ops_flow_ai.Sync.Soundness.{IsSound}
use ops_flow_ai.Sync.Effects.{Fenced, require_current_claim_inv}
use ops_flow_ai.Sync.Commits.{finish_inv}
use ops_flow_ai.Sync.Outcomes.{complete_lem}
use ops_flow_ai.Sync.System.{IsDbSound}
use ops_flow_ai.Sync.Phases.{provider_answer}

-- How many steps are left from a step on, itself included.
abbrev pub steps_left : Option OrderSyncStep → ℕ
steps_left none = 0
steps_left (some hubspot_association) = 1
steps_left (some hubspot_deal) = 2
steps_left (some hubspot_company) = 3
steps_left (some odoo_bridge) = 4
steps_left (some odoo_lookup) = 5

-- The receipt of a step leaves fewer steps.
received_left :
    {o : Order} (r : OrderSync) (x : OrderSyncReceipt) (now : ℕ)
    → IsSound o r
    → require_step_preconditions r (receipt_step x) ≡ ok tt
    → steps_left (next_order_sync_step (received r x now) false)
      < steps_left (some (receipt_step x))
unfolding next_order_sync_step require_step_preconditions receipt_step
received_left r (odoo_receipt i n) now s h = ground arith
received_left r (company_receipt i) now s h = ground arith
received_left r (deal_receipt i) now s h = ground arith
received_left r (association_receipt t) now s h = ground arith

pub looked_up_left :
    (r : OrderSync) (lookup_succeeded : Bool)
    → next_order_sync_step r lookup_succeeded ≡ some odoo_lookup
    → steps_left (next_order_sync_step r true) ≡ 4
unfolding next_order_sync_step
looked_up_left r lookup_succeeded h = ground arith

pub persist_left :
    (db : Db) (now clock id token : ℕ) (r : OrderSyncReceipt) {s : OrderSync} {db' : Db}
    → IsDbSound db
    → persist_order_sync_receipt db now clock id token r ≡ ok (s, db')
    → steps_left (next_order_sync_step s false) < steps_left (some (receipt_step r))
unfolding persist_order_sync_receipt
persist_left db now clock id token r sound h =
    let (x, found, h1) = >>=-eq-ok (require_current_claim db clock id token) _ h in
    let f : Fenced db clock id token x.0 x.1 = require_current_claim_inv db clock id token found in
    let (u, in_flight, h2) =
      >>=-eq-ok
        (guard (opt_eq step_eq x.0.in_flight_step (some (receipt_step r))) step_precondition) _
        h1 in
    let (v, ready, h3) = >>=-eq-ok (require_step_preconditions x.0 (receipt_step r)) _ h2 in
    let (y, unique, h4) =
      >>=-eq-ok (guard (not (collides db.syncs id r)) (integrity_error true)) _ h3 in
    subst (λ s. steps_left (next_order_sync_step s false) < steps_left (some (receipt_step r)))
      (sym (finish_inv db (received x.0 r now) h4).0)
      (received_left x.0 r now (sound.sound id x.1 x.0 f.order_there f.sync_there) ready)

still_current :
    (db : Db) (clock id token : ℕ) {r : OrderSync} {o : PersistedOrder}
    → require_current_claim db clock id token ≡ ok (r, o)
    → is_current o.order.state r clock token ≡ true
unfolding require_current_claim
still_current db clock id token h = ground arith

pub complete_inv :
    (db : Db) (now clock id token event_id : ℕ) {s : OrderSync} {db' : Db}
    → IsDbSound db
    → complete_order_sync db now clock id token event_id ≡ ok (s, db')
    → (p : PersistedOrder) × (get_order db' id ≡ some p) × (p.order.state ≡ OrderState.completed)
unfolding complete_order_sync
complete_inv db now clock id token event_id sound h =
    let (x, found, h1) = >>=-eq-ok (require_current_claim db clock id token) _ h in
    let f : Fenced db clock id token x.0 x.1 = require_current_claim_inv db clock id token found in
    let (u, receipts, h2) = >>=-eq-ok (guard (has_all_receipts x.0) sync_completion) _ h1 in
    let (db'', o', ran, there, state, _) =
      complete_lem db now clock id token (sound.sound id x.1 x.0 f.order_there f.sync_there)
        f.order_there f.sync_there (still_current db clock id token found) event_id
        (guard-eq-ok _ _ receipts) in
    (o', ap (λ d. get_order d id) (ap (λ x. x.1) (ok-injective (sym h ∙ ran))) ∙ there, state)

pub provider_answer_inv :
    (x : Option OrderSyncStepResult) (r : OrderSyncReceipt)
    → provider_answer x ≡ receipt r
    → is_receipt r ≡ true
unfolding provider_answer
provider_answer_inv x r h = ground arith
