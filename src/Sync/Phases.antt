-- ===== src/Sync/Phases.antt =====
-- The bounded phases of execute_next_order_sync, src/opsflow/application/order_sync.py: each is one
-- transaction or one call under the deadline of the request.
use ops_flow_ai.Base.{
  ℕ, ◌+◌, Bool, true, false, Option, none, some, leb, Error, Result, ok, err, stale_sync_claim,
  deadline_exceeded, if◌then◌else◌,
}
use mathlib.Core.Option
use ops_flow_ai.Domain.State.{OrderState, syncing, failed_retryable, failed_final}
use ops_flow_ai.Store.{Db, get_order, seconds}
use ops_flow_ai.Sync.Contracts.{
  OrderSyncStep, odoo_lookup, odoo_bridge, hubspot_company, hubspot_deal, hubspot_association,
  OrderSyncFailureCode, provider_unavailable, OrderSyncClaim, is_receipt, OrderSyncStepResult,
  receipt, failure, ExecuteNextKind, yielded, no_work, retry_wait, needs_review,
  OrderSyncExecutionResult,
}
use ops_flow_ai.Sync.Transactions.{record_order_sync_failure, yield_order_sync_claim}

-- How the timeout of a phase ends it: not at all, or before or after its transaction commits.
pub data Cut : Type 0 where
  in_time before_commit after_commit : Cut

-- What the coordinator meets at its n-th tick, times in microseconds. `others` is what other workers
-- commit meanwhile; `execute` is the answer of the executor, none if it raises or times out.
pub record World : Type 0 where
  pub monotonic : ℕ → ℕ
  pub cut : ℕ → Cut
  pub others : ℕ → Db → Db
  pub now : ℕ → ℕ
  pub clock : ℕ → ℕ
  pub token : ℕ → ℕ
  pub fresh_id : ℕ → ℕ
  pub locked : ℕ → ℕ → Bool
  pub execute : ℕ → ℕ → OrderSyncStep → Option OrderSyncStepResult

-- The database as the coordinator last saw it, and the ticks it has used.
pub record Session : Type 0 where
  pub tick : ℕ
  pub db : Db

pub data End : Type 0 where
  returned : OrderSyncExecutionResult → End
  raised : Error → End
  unfinished : End

abbrev pub after_tick : Session → Db → Session
after_tick s db = record { tick = s.tick + 1; db = db }

abbrev pub committed {ℓ} : {A : Type ℓ} → Cut → Session → Db → Result (A × Db) → Result A × Session
committed in_time s db (ok (a, db')) = (ok a, after_tick s db')
committed after_commit s db (ok (a, db')) = (err deadline_exceeded, after_tick s db')
committed before_commit s db (ok (a, db')) = (err deadline_exceeded, after_tick s db)
committed cut s db (err e) = (err e, after_tick s db)

-- `_within_deadline`, with the transaction as a function of the tick
unfoldable pub within_deadline {ℓ} :
    {A : Type ℓ} → World → ℕ → ℕ → (ℕ → Db → Result (A × Db)) → Session → Result A × Session
within_deadline w deadline reserve operation s =
    let db = w.others s.tick s.db in
    if leb deadline (w.monotonic s.tick + reserve)
    then (err deadline_exceeded, after_tick s s.db)
    else committed (w.cut s.tick) s db (operation s.tick db)

-- `try: ... except ...` around a phase
unfoldable pub attempt {ℓ} :
    {A : Type ℓ}
    → Result A × Session
    → (A → Session → End × Session)
    → (Error → Session → End × Session)
    → End × Session
attempt (ok a, s) continue handle = continue a s
attempt (err e, s) continue handle = handle e s

abbrev pub give : ExecuteNextKind → Option ℕ → Option OrderState → Session → End × Session
give kind id state s = (returned (record { kind = kind; order_id = id; state = state }), s)

abbrev pub raise : Error → Session → End × Session
raise e s = (raised e, s)

-- `_read_order_state`
abbrev pub read_order_state : ℕ → ℕ → Db → Result (Option OrderState × Db)
read_order_state id tick db = ok (Option.map (λ p. p.order.state) (get_order db id), db)

abbrev pub is_failed : OrderState → Bool
is_failed failed_retryable = true
is_failed failed_final = true
is_failed _ = false

-- The kind of a result whose claim is lost.
abbrev pub stale_kind : OrderState → ExecuteNextKind
stale_kind OrderState.completed = ExecuteNextKind.completed
stale_kind state = if is_failed state then needs_review else retry_wait

abbrev pub failure_kind : Option OrderState → ExecuteNextKind
failure_kind none = retry_wait
failure_kind (some state) = if is_failed state then needs_review else retry_wait

abbrev pub stale_answer : ℕ → Option OrderState → Session → End × Session
stale_answer id none s = give no_work none none s
stale_answer id (some state) s = give (stale_kind state) (some id) (some state) s

-- `_stale_claim_result`
unfoldable pub stale_claim_result : World → ℕ → ℕ → Session → End × Session
stale_claim_result w deadline id s =
    attempt (within_deadline w deadline 0 (read_order_state id) s) (stale_answer id) raise

-- `except StaleOrderSyncClaimError`
abbrev pub on_stale : World → ℕ → ℕ → Error → Session → End × Session
on_stale w deadline id stale_sync_claim s = stale_claim_result w deadline id s
on_stale w deadline id e s = raise e s

-- `_yield_for_budget`
unfoldable pub yield_for_budget : World → ℕ → OrderSyncClaim → Session → End × Session
yield_for_budget w deadline c s =
    attempt
      (within_deadline w deadline 0
        (λ k db. yield_order_sync_claim db (w.now k) (w.clock k) c.order_id c.claim_token) s)
      (λ updated. give yielded (some c.order_id) (some syncing)) (on_stale w deadline c.order_id)

-- `_failure_result`
unfoldable pub failure_result : World → ℕ → ℕ → Session → End × Session
failure_result w deadline id s =
    attempt (within_deadline w deadline 0 (read_order_state id) s)
      (λ state. give (failure_kind state) (some id) state) raise

-- The recording of a failure, and the result that reports it.
unfoldable pub report_failure :
    World
    → ℕ
    → OrderSyncClaim
    → OrderSyncStep
    → OrderSyncFailureCode
    → Option ℕ
    → Session
    → End × Session
report_failure w deadline c step code retry_after s =
    attempt
      (within_deadline w deadline 0
        (λ k db.
          record_order_sync_failure db (w.now k) (w.clock k) c.order_id c.claim_token step code
            retry_after (w.fresh_id k))
        s)
      (λ updated. failure_result w deadline c.order_id) (on_stale w deadline c.order_id)

-- `_STEP_TIMEOUTS` and `_RECEIPT_TRANSACTION_ALLOWANCE`
abbrev pub step_timeout : OrderSyncStep → ℕ
step_timeout odoo_lookup = seconds 20
step_timeout odoo_bridge = seconds 20
step_timeout hubspot_company = seconds 15
step_timeout hubspot_deal = seconds 15
step_timeout hubspot_association = seconds 15

abbrev pub receipt_allowance : ℕ
receipt_allowance = seconds 5

-- The answer of the executor. A receipt that its constructor refuses is an exception of the executor.
unfoldable pub provider_answer : Option OrderSyncStepResult → OrderSyncStepResult
provider_answer none = failure provider_unavailable none
provider_answer (some (receipt r)) =
    if is_receipt r then receipt r else failure provider_unavailable none
provider_answer (some answer) = answer
