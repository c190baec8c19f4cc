-- ===== src/Sync/Coordinator.antt =====
-- `execute_next_order_sync` of src/opsflow/application/order_sync.py.
use ops_flow_ai.Base.{
  ℕ, zero, suc, ◌+◌, ◌/◌, Bool, true, false, none, some, leb, ltb, Error, Result, ok,
  stale_sync_claim, sync_not_found, integrity_error, deadline_exceeded, ◌>>=◌, or_raise,
  if◌then◌else◌,
}
use Prim.Native.Nat.{min}
use ops_flow_ai.Domain.State.{OrderState, failed_retryable}
use ops_flow_ai.Store.{Db, get_sync}
use ops_flow_ai.Sync.Contracts.{
  OrderSync, OrderSyncStep, odoo_lookup, step_eq, provider_invalid_response, idempotency_conflict,
  OrderSyncClaim, OrderSyncReceipt, OrderSyncStepResult, receipt, nothing, failure, ExecuteNextKind,
  no_work, retry_wait, needs_review,
}
use ops_flow_ai.Sync.Commands.{order_sync_from_model, next_order_sync_step, receipt_step}
use ops_flow_ai.Sync.Claiming.{ClaimOutcome, no_claim, exhausted, claimed, claim_next_order_sync}
use ops_flow_ai.Sync.Transactions.{
  begin_order_sync_step, persist_order_sync_receipt, complete_order_sync,
}
use ops_flow_ai.Sync.Phases.{
  World, Session, End, unfinished, after_tick, within_deadline, attempt, give, raise,
  read_order_state, on_stale, yield_for_budget, report_failure, step_timeout, receipt_allowance,
  provider_answer,
}

-- `_get_order_sync`
abbrev pub read_order_sync : ℕ → ℕ → Db → Result (OrderSync × Db)
read_order_sync id tick db = do
  r ← or_raise (get_sync db id) sync_not_found
  sync ← order_sync_from_model r
  ok (sync, db)

-- What the loop does next: a row, and whether its lookup has succeeded.
abbrev pub Continue : Type 0
Continue = OrderSync → Bool → Session → End × Session

-- The coordinator under one claim.
module _ (w : World) (deadline : ℕ) (c : OrderSyncClaim) where
  abbrev pub tick_s : Session → Session
  tick_s s = after_tick s s.db

  -- The step is None: every receipt is there.
  unfoldable pub finish_order : Session → End × Session
  finish_order s =
      attempt
        (within_deadline w deadline 0
          (λ k db.
            complete_order_sync db (w.now k) (w.clock k) c.order_id c.claim_token (w.fresh_id k))
          s)
        (λ completed. give ExecuteNextKind.completed (some c.order_id) (some OrderState.completed))
        (on_stale w deadline c.order_id)

  -- The errors of the transaction that stores a receipt.
  unfoldable pub receipt_refused : OrderSyncStep → Error → Session → End × Session
  receipt_refused step stale_sync_claim s =
      attempt (within_deadline w deadline 0 (read_order_state c.order_id) s)
        (λ state. give retry_wait (some c.order_id) state) raise
  receipt_refused step (integrity_error true) s =
      report_failure w deadline c step idempotency_conflict none s
  receipt_refused step e s = raise e s

  unfoldable pub store_receipt :
      Continue → OrderSyncStep → OrderSyncReceipt → Session → End × Session
  store_receipt continue step r s =
      attempt
        (within_deadline w deadline 0
          (λ k db. persist_order_sync_receipt db (w.now k) (w.clock k) c.order_id c.claim_token r)
          s)
        (λ sync. continue sync false) (receipt_refused step)

  -- What follows the executor's answer to a step on the row `sync`.
  unfoldable pub after_answer :
      Continue → OrderSync → OrderSyncStep → OrderSyncStepResult → Session → End × Session
  after_answer continue sync step (failure code retry_after) s =
      report_failure w deadline c step code retry_after s
  after_answer continue sync step nothing s =
      if step_eq step odoo_lookup
      then continue sync true s
      else report_failure w deadline c step provider_invalid_response none s
  after_answer continue sync step (receipt r) s =
      if step_eq (receipt_step r) step
      then store_receipt continue step r s
      else report_failure w deadline c step provider_invalid_response none s

  -- The call of the executor, for which there must be time; the test reads the clock again.
  unfoldable pub call_provider : Continue → OrderSync → OrderSyncStep → Session → End × Session
  call_provider continue sync step s =
      if leb deadline (w.monotonic s.tick + receipt_allowance)
      then yield_for_budget w deadline c (tick_s s)
      else after_answer continue sync step (provider_answer (w.execute s.tick c.order_id step))
          (tick_s s)

  -- The errors of the transaction that begins a step.
  unfoldable pub begin_refused : Error → Session → End × Session
  begin_refused deadline_exceeded s = yield_for_budget w deadline c s
  begin_refused e s = on_stale w deadline c.order_id e s

  unfoldable pub run_step : Continue → OrderSync → OrderSyncStep → Session → End × Session
  run_step continue sync step s =
      let required = step_timeout step + receipt_allowance in
      if ltb deadline (w.monotonic s.tick + required)
      then yield_for_budget w deadline c (tick_s s)
      else attempt
          (within_deadline w deadline required
            (λ k db. begin_order_sync_step db (w.now k) (w.clock k) c.order_id c.claim_token step)
            (tick_s s))
          (λ begun. call_provider continue sync step) begin_refused

  -- One round of the loop, and `rounds` of them.
  unfoldable pub round : Continue → Continue
  round continue sync lookup_succeeded s = elim (next_order_sync_step sync lookup_succeeded) [
    | none ↦ finish_order s
    | some step ↦ run_step continue sync step s
  ]

  unfoldable pub run_rounds : ℕ → Continue
  run_rounds zero sync lookup_succeeded s = (unfinished, s)
  run_rounds (suc rounds) sync lookup_succeeded s =
      round (run_rounds rounds) sync lookup_succeeded s

  -- `except OrderSyncExecutionDeadlineExceeded` around the read of the row
  unfoldable pub read_refused : Error → Session → End × Session
  read_refused deadline_exceeded s = yield_for_budget w deadline c s
  read_refused e s = raise e s

  unfoldable pub execute_claim : ℕ → ℕ → Session → End × Session
  execute_claim rounds cleanup_allowance s =
      attempt (within_deadline w deadline cleanup_allowance (read_order_sync c.order_id) s)
        (λ sync. run_rounds rounds sync false) read_refused

abbrev pub after_claim : World → ℕ → ℕ → ℕ → ClaimOutcome → Session → End × Session
after_claim w deadline rounds cleanup_allowance no_claim s = give no_work none none s
after_claim w deadline rounds cleanup_allowance (exhausted id) s =
    give needs_review (some id) (some failed_retryable) s
after_claim w deadline rounds cleanup_allowance (claimed c) s =
    execute_claim w deadline c rounds cleanup_allowance s

-- `execute_next_order_sync`, with at most `rounds` rounds of its loop
unfoldable pub execute_next_order_sync : World → ℕ → ℕ → Session → End × Session
execute_next_order_sync w budget rounds s =
    let deadline = w.monotonic s.tick + budget in
    let cleanup_allowance = min receipt_allowance (budget / 10) in
    attempt
      (within_deadline w deadline cleanup_allowance
        (λ k db. claim_next_order_sync db (w.now k) (w.locked k) (w.token k) (w.fresh_id k) true)
        (after_tick s s.db))
      (after_claim w deadline rounds cleanup_allowance) raise
