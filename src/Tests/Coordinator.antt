-- ===== src/Tests/Coordinator.antt =====
-- A call of the coordinator that runs one approved order to its completion, and the theorems on it.
use ops_flow_ai.Base.{ℕ, ◌+◌, ◌≡◌, ◌≢◌, refl, true, some, arith}
use ops_flow_ai.Base.Table.{find, put}
use ops_flow_ai.Base.Select.{first_by}
use ops_flow_ai.Domain.State.{OrderState, normal_transitions}
use ops_flow_ai.Domain.Records.{is_blank}
use ops_flow_ai.Domain.Order.{new_order, transition_to, currency_ok, origin_ok, is_currency_code}
use ops_flow_ai.Store.{
  PersistedOrder, get_order, get_sync, save_sync, insert_audit_event, update_order_snapshot,
  seconds,
}
use ops_flow_ai.Sync.Contracts.{
  OrderSync, OrderSyncStep, odoo_lookup, odoo_bridge, hubspot_company, hubspot_deal,
  hubspot_association, OrderSyncStepResult, receipt, nothing, odoo_receipt, company_receipt,
  deal_receipt, association_receipt, is_receipt, new_sync, is_bounded, ExecuteNextKind,
  OrderSyncExecutionResult,
}
use ops_flow_ai.Sync.Eligibility.{is_eligible, comes_before, claim_one_eligible_order_sync}
use ops_flow_ai.Sync.Commands.{
  order_from_row, move_order, order_sync_from_model, require_current_claim,
  require_step_preconditions, is_current, next_order_sync_step, receipt_step, has_all_receipts,
}
use ops_flow_ai.Sync.Claiming.{claim_row, claim_next_order_sync, grant, start_syncing}
use ops_flow_ai.Sync.Transactions.{
  begin_order_sync_step, persist_order_sync_receipt, collides, complete_order_sync,
}
use ops_flow_ai.Sync.System.{IsDbSound, Reaches, start}
use ops_flow_ai.Sync.Phases.{
  in_time, World, Session, returned, unfinished, within_deadline, attempt, provider_answer,
}
use ops_flow_ai.Sync.Coordinator.{
  finish_order, store_receipt, after_answer, call_provider, run_step, round, run_rounds,
  execute_claim, execute_next_order_sync,
}
use ops_flow_ai.Sync.Execution.{execute_next_order_sync_ends, execute_next_order_sync_lem}
use ops_flow_ai.Tests.Data.{before_claim, nobody, before_claim-IsDbSound}

abbrev provider : OrderSyncStep → OrderSyncStepResult
provider odoo_lookup = nothing
provider odoo_bridge = receipt (odoo_receipt 42 "S00042")
provider hubspot_company = receipt (company_receipt "c-1")
provider hubspot_deal = receipt (deal_receipt "d-1")
provider hubspot_association = receipt (association_receipt 30)

-- One tick takes one second; nobody else works.
abbrev quiet : World
quiet = record {
  monotonic = seconds;
  cut = λ k. in_time;
  others = λ k db. db;
  now = λ k. seconds (10 + k);
  clock = λ k. seconds (10 + k);
  token = λ k. 70 + k;
  fresh_id = λ k. 900 + k;
  locked = λ k. nobody;
  execute = λ k id step. some (provider step);
}

abbrev idle : Session
idle = record { tick = 0; db = before_claim }

completed_run :
    (s : Session) × (execute_next_order_sync quiet (seconds 210) 6 idle ≡ (
      returned (record {
        kind = ExecuteNextKind.completed;
        order_id = some 1;
        state = some OrderState.completed;
      }),
      s,
    ))
unfolding execute_next_order_sync execute_claim run_rounds round run_step call_provider after_answer
    store_receipt finish_order provider_answer within_deadline attempt begin_order_sync_step
    persist_order_sync_receipt complete_order_sync collides is_receipt receipt_step
    next_order_sync_step require_current_claim require_step_preconditions is_current
    order_sync_from_model new_sync is_bounded is_blank claim_next_order_sync
    claim_one_eligible_order_sync first_by is_eligible comes_before get_order get_sync find
    claim_row grant start_syncing move_order order_from_row new_order currency_ok is_currency_code
    origin_ok transition_to normal_transitions update_order_snapshot put save_sync
    insert_audit_event
completed_run = (_, refl)

execute_next_order_sync_ends_example :
    (execute_next_order_sync quiet (seconds 210) 6 idle).0 ≢ unfinished
execute_next_order_sync_ends_example =
    execute_next_order_sync_ends quiet (seconds 210) 6 idle (λ k db. start) (omega arith)
      before_claim-IsDbSound

execute_next_order_sync_lem_example :
    let (end, s') = execute_next_order_sync quiet (seconds 210) 6 idle in
    Reaches before_claim s'.db
    × IsDbSound s'.db
    × ((r : OrderSyncExecutionResult)
        → end ≡ returned r
        → r.kind ≡ ExecuteNextKind.completed
        → (id : ℕ) × (p : PersistedOrder) × (r.order_id ≡ some id)
          × (get_order s'.db id ≡ some p)
          × (p.order.state ≡ OrderState.completed)
          × ((q : OrderSync) → get_sync s'.db id ≡ some q → has_all_receipts q ≡ true))
execute_next_order_sync_lem_example =
    execute_next_order_sync_lem quiet (seconds 210) 6 idle (λ k db. start) (omega arith)
      before_claim-IsDbSound
