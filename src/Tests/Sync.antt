-- ===== src/Tests/Sync.antt =====
-- Runs of the synchronisation, and its theorems applied to them.
use ops_flow_ai.Base.{◌≡◌, ◌⊎◌, refl, true, inl, none, some, [], ◌∷◌, arith, ok}
use ops_flow_ai.Base.Table.{find, put}
use ops_flow_ai.Base.Select.{first_by}
use ops_flow_ai.Domain.State.{approved, syncing, completed, normal_transitions}
use ops_flow_ai.Domain.Records.{is_blank}
use ops_flow_ai.Domain.Order.{new_order, transition_to, currency_ok, origin_ok, is_currency_code}
use ops_flow_ai.Store.{
  PersistedOrder, Db, get_order, get_sync, save_sync, insert_audit_event, update_order_snapshot,
}
use ops_flow_ai.Sync.Contracts.{
  OrderSync, OrderSyncClaim, odoo_lookup, odoo_bridge, hubspot_company, new_sync,
  provider_unavailable, is_bounded,
}
use ops_flow_ai.Sync.Eligibility.{
  is_eligible, is_eligible_in, comes_before, claim_one_eligible_order_sync,
}
use ops_flow_ai.Sync.Commands.{
  new_intent, order_from_row, move_order, order_sync_from_model, require_current_claim,
  require_step_preconditions, is_current, next_order_sync_step,
}
use ops_flow_ai.Sync.Claiming.{
  ClaimOutcome, no_claim, claimed, granted_row, claim_row, claim_next_order_sync, grant,
  start_syncing,
}
use ops_flow_ai.Sync.Transactions.{
  begun, begin_order_sync_step, unclaimed, record_order_sync_failure, complete_order_sync,
}
use ops_flow_ai.Sync.System.{IsDbSound, Reaches, start, then_step, claim, begin, Reaches-IsDbSound}
use ops_flow_ai.Sync.Soundness.{IsSound, begun-IsSound, new_intent-IsSound}
use ops_flow_ai.Sync.Fencing.{IsRefused, lease_is_exclusive}
use ops_flow_ai.Sync.Progress.{claim_next_total, never_stuck, next_step}
use ops_flow_ai.Sync.Choice.{IsTakable, IsNotAfter, claim_one_lem}
use ops_flow_ai.Sync.Handing.{HandsOut}
use ops_flow_ai.Sync.Receipts.{
  HasErpOrder, IsErpUnique, erp_receipt_is_durable, Reaches-IsErpUnique,
}
use ops_flow_ai.Sync.Failing.{FailureOutcome}
use ops_flow_ai.Sync.Outcomes.{record_failure_lem, complete_lem}
use ops_flow_ai.Tests.Data.{
  an_order, approved-IsValid, persisted, db_with, before_claim, after_claim, nobody,
  before_claim-IsDbSound, claimed-IsSound, single-IsDbSound,
}

abbrev the_claim : OrderSyncClaim
the_claim = record { order_id = 1; claim_token = 70; claim_expires_at = 300000010 }

claim_run :
    claim_next_order_sync before_claim 10 nobody 70 900 true ≡ ok (claimed the_claim, after_claim)
unfolding claim_next_order_sync claim_one_eligible_order_sync first_by is_eligible comes_before
    get_order find claim_row grant start_syncing move_order order_from_row new_order currency_ok
    is_currency_code origin_ok transition_to normal_transitions update_order_snapshot put save_sync
    insert_audit_event
claim_run = refl

abbrev in_lookup : OrderSync
in_lookup = begun (granted_row (new_intent 1 5) 10 70) odoo_lookup 20

abbrev after_begin : Db
after_begin = record after_claim { syncs = in_lookup ∷ [] }

begin_run : begin_order_sync_step after_claim 20 21 1 70 odoo_lookup ≡ ok (in_lookup, after_begin)
unfolding begin_order_sync_step require_current_claim is_current get_order get_sync find
    require_step_preconditions order_sync_from_model new_sync is_bounded put save_sync
begin_run = refl

two_steps : Reaches before_claim after_begin
two_steps =
    then_step (then_step start (claim 10 70 900 nobody true (claimed the_claim) claim_run))
      (begin 20 21 1 70 odoo_lookup in_lookup begin_run)

Reaches-IsDbSound_example : IsDbSound after_begin
Reaches-IsDbSound_example = Reaches-IsDbSound before_claim-IsDbSound two_steps

-- After the lease ran out the worker's own token is refused.
lease_is_exclusive_example : IsRefused after_claim 300000010 1 70
lease_is_exclusive_example =
    let (token, expiry, holds, late, other, again) =
      lease_is_exclusive before_claim 10 70 900 nobody true before_claim-IsDbSound claim_run in
    late 300000010 (omega arith)

claim_next_total_example :
    ((r : OrderSync) × (o : PersistedOrder) × IsTakable before_claim 10 nobody r o
      × (out : ClaimOutcome) × (db' : Db) × (claim_next_order_sync before_claim 10 nobody 70 900
            true
          ≡ ok (out, db'))
      × HandsOut db' 10 70 r out)
    ⊎ ((claim_next_order_sync before_claim 10 nobody 70 900 true ≡ ok (no_claim, before_claim))
        × ((r : OrderSync) (o : PersistedOrder) → ¬ IsTakable before_claim 10 nobody r o))
claim_next_total_example = claim_next_total before_claim 10 70 900 nobody before_claim-IsDbSound

next_run : next_order_sync_step in_lookup true ≡ some odoo_bridge
unfolding next_order_sync_step
next_run = refl

choice_run :
    claim_one_eligible_order_sync before_claim 10 nobody
    ≡ some (new_intent 1 5, persisted (an_order approved))
unfolding claim_one_eligible_order_sync first_by is_eligible comes_before get_order find
choice_run = refl

never_stuck_example : is_eligible_in approved (new_intent 1 5) 10 ≡ true
never_stuck_example =
    never_stuck (new_intent-IsSound (an_order approved) 1 5 approved-IsValid refl) (inl refl) 10
      (omega arith)

next_step_example : require_step_preconditions in_lookup odoo_bridge ≡ ok tt
next_step_example =
    let (done, may_begin_it) = next_step true (begun-IsSound claimed-IsSound odoo_lookup 20) in
    may_begin_it odoo_bridge next_run

claim_one_lem_example :
    IsTakable before_claim 10 nobody (new_intent 1 5) (persisted (an_order approved))
    × ((s : OrderSync) (p : PersistedOrder)
        → IsTakable before_claim 10 nobody s p
        → IsNotAfter (new_intent 1 5) s)
claim_one_lem_example =
    (claim_one_lem before_claim 10 nobody).0 (new_intent 1 5) (persisted (an_order approved))
      choice_run

-- A sound row with its ERP order, while worker 70 goes on.
abbrev linked : OrderSync
linked = record (granted_row (new_intent 1 5) 10 70) {
  odoo_sale_order_id = some 44;
  odoo_sale_order_name = some "S00044";
}

abbrev linked_db : Db
linked_db = db_with (an_order syncing) linked

abbrev linked_after : OrderSync
linked_after = begun linked hubspot_company 20

abbrev linked_db_after : Db
linked_db_after = record linked_db { syncs = linked_after ∷ [] }

name_bounded : is_bounded "S00044" ≡ true
unfolding is_bounded is_blank
name_bounded = refl

linked-IsSound : IsSound (an_order syncing) linked
linked-IsSound = let s = claimed-IsSound in ground (arith, name_bounded)

linked-IsDbSound : IsDbSound linked_db
linked-IsDbSound = single-IsDbSound (persisted (an_order syncing)) linked [] linked-IsSound

linked_run :
    begin_order_sync_step linked_db 20 21 1 70 hubspot_company ≡ ok (linked_after, linked_db_after)
unfolding begin_order_sync_step require_current_claim is_current get_order get_sync find
    require_step_preconditions order_sync_from_model new_sync is_bounded is_blank put save_sync
linked_run = refl

one_more : Reaches linked_db linked_db_after
one_more = then_step start (begin 20 21 1 70 hubspot_company linked_after linked_run)

linked_there : HasErpOrder linked_db 1 44 (some "S00044")
unfolding get_sync find
linked_there = record { row = linked; there = refl; erp_order = refl; erp_name = refl }

erp_receipt_is_durable_example : HasErpOrder linked_db_after 1 44 (some "S00044")
erp_receipt_is_durable_example = erp_receipt_is_durable linked-IsDbSound linked_there one_more

linked-IsErpUnique : IsErpUnique linked_db
unfolding IsErpUnique get_sync find
linked-IsErpUnique j k i r s at_j at_k e f = ground arith

Reaches-IsErpUnique_example : IsErpUnique linked_db_after
Reaches-IsErpUnique_example = Reaches-IsErpUnique linked-IsDbSound linked-IsErpUnique one_more

-- A worker that looks up the ERP order, and whose provider is down.
order_in_db : get_order after_begin 1 ≡ some (persisted (an_order syncing))
unfolding get_order find
order_in_db = refl

row_in_db : get_sync after_begin 1 ≡ some in_lookup
unfolding get_sync find
row_in_db = refl

claim_runs : is_current syncing in_lookup 31 70 ≡ true
unfolding is_current
claim_runs = refl

record_failure_lem_example :
    (s : OrderSync) × (db' : Db) × (o' : PersistedOrder) × (record_order_sync_failure after_begin 30
        31 1 70 odoo_lookup provider_unavailable none 901
      ≡ ok (s, db'))
    × (get_order db' 1 ≡ some o')
    × FailureOutcome in_lookup s o'.order.state odoo_lookup provider_unavailable none 30
record_failure_lem_example =
    record_failure_lem after_begin 30 31 1 70 (begun-IsSound claimed-IsSound odoo_lookup 20)
      order_in_db row_in_db claim_runs odoo_lookup provider_unavailable none 901 refl

-- The same row with every receipt.
abbrev finished_row : OrderSync
finished_row = record linked {
  hubspot_company_id = some "S00044";
  hubspot_deal_id = some "S00044";
  hubspot_association_confirmed_at = some 25;
}

abbrev finished_db : Db
finished_db = db_with (an_order syncing) finished_row

finished-IsSound : IsSound (an_order syncing) finished_row
finished-IsSound = let s = linked-IsSound in ground (arith, name_bounded)

finished_order : get_order finished_db 1 ≡ some (persisted (an_order syncing))
unfolding get_order find
finished_order = refl

finished_there : get_sync finished_db 1 ≡ some finished_row
unfolding get_sync find
finished_there = refl

finished_current : is_current syncing finished_row 31 70 ≡ true
unfolding is_current
finished_current = refl

complete_lem_example :
    (db' : Db) × (o' : PersistedOrder) × (complete_order_sync finished_db 30 31 1 70 902
      ≡ ok (unclaimed finished_row 30, db'))
    × (get_order db' 1 ≡ some o')
    × (o'.order.state ≡ completed)
    × IsSound o'.order (unclaimed finished_row 30)
complete_lem_example =
    complete_lem finished_db 30 31 1 70 finished-IsSound finished_order finished_there
      finished_current 902 refl
