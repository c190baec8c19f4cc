-- ===== src/Sync/Execution.antt =====
-- What one call of execute_next_order_sync does, src/opsflow/application/order_sync.py.
use ops_flow_ai.Base.{
  ℕ, ◌+◌, ◌/◌, ◌<◌, ◌≤◌, ◌≡◌, ◌≢◌, ap, subst, true, false, Option, none, some, arith, Error,
  deadline_exceeded, sync_not_found, ok, or_raise, >>=-eq-ok, ok-injective,
}
use Prim.Native.Nat.{min}
use ops_flow_ai.Domain.State.{OrderState, failed_retryable}
use ops_flow_ai.Store.{PersistedOrder, Db, get_order, get_sync}
use ops_flow_ai.Sync.Contracts.{
  OrderSync, OrderSyncStep, OrderSyncClaim, ExecuteNextKind, no_work, needs_review,
  OrderSyncExecutionResult,
}
use ops_flow_ai.Sync.Commands.{order_sync_from_model, next_order_sync_step, has_all_receipts}
use ops_flow_ai.Sync.Claiming.{ClaimOutcome, no_claim, exhausted, claimed, claim_next_order_sync}
use ops_flow_ai.Sync.System.{IsDbSound, Reaches, start, then_step, claim, Reaches-IsDbSound}
use ops_flow_ai.Sync.Phases.{World, Session, returned, unfinished, after_tick, receipt_allowance}
use ops_flow_ai.Sync.Coordinator.{
  read_order_sync, read_refused, execute_claim, after_claim, execute_next_order_sync,
}
use ops_flow_ai.Sync.Coordination.{Ends, raise-Ends, give-Ends, IsFair, phase-Ends, yield-Ends}
use ops_flow_ai.Sync.Remaining.{steps_left}
use ops_flow_ai.Sync.Rounds.{rounds-Ends}

steps_left_most : (x : Option OrderSyncStep) → steps_left x < 6
steps_left_most none = omega arith
steps_left_most (some step) = ground arith

read_sync_inv :
    (id k : ℕ) (db : Db) (r : OrderSync) (db' : Db)
    → read_order_sync id k db ≡ ok (r, db')
    → Reaches db db'
read_sync_inv id k db r db' h =
    let (x, found, h1) = >>=-eq-ok (or_raise (get_sync db id) sync_not_found) _ h in
    let (sync, read, h2) = >>=-eq-ok (order_sync_from_model x) _ h1 in
    subst (Reaches db) (ap (λ x. x.1) (ok-injective h2)) start

module _ (w : World) (fair : IsFair w) (deadline rounds cleanup_allowance : ℕ) (enough : 6 ≤ rounds)
    {db0 : Db} (sound : IsDbSound db0) where
  read_refused-Ends :
      (c : OrderSyncClaim) (e : Error) (s : Session)
      → Reaches db0 s.db
      → Ends db0 (read_refused w deadline c e s)
  unfolding read_refused
  read_refused-Ends c deadline_exceeded s path = yield-Ends w fair deadline c s path
  read_refused-Ends c e s path = raise-Ends e s path

  claim-Ends :
      (c : OrderSyncClaim) (s : Session)
      → Reaches db0 s.db
      → Ends db0 (execute_claim w deadline c rounds cleanup_allowance s)
  unfolding execute_claim
  claim-Ends c s path =
      phase-Ends w fair deadline cleanup_allowance (read_order_sync c.order_id) s
        (read_sync_inv c.order_id) path
        (λ sync s' db before ran reached.
          let most = steps_left_most (next_order_sync_step sync false) in
          rounds-Ends w fair deadline c sound rounds sync false s' (omega arith) reached)
        (read_refused-Ends c)

  after_claim-Ends :
      (out : ClaimOutcome) (s : Session)
      → Reaches db0 s.db
      → Ends db0 (after_claim w deadline rounds cleanup_allowance out s)
  after_claim-Ends no_claim s path = give-Ends no_work none none s path (λ e. ground arith)
  after_claim-Ends (exhausted id) s path =
      give-Ends needs_review (some id) (some failed_retryable) s path (λ e. ground arith)
  after_claim-Ends (claimed c) s path = claim-Ends c s path

execute-Ends :
    (w : World) (budget rounds : ℕ) (s : Session)
    → IsFair w
    → 6 ≤ rounds
    → IsDbSound s.db
    → Ends s.db (execute_next_order_sync w budget rounds s)
unfolding execute_next_order_sync
execute-Ends w budget rounds s fair enough sound =
    let deadline = w.monotonic s.tick + budget in
    let cleanup_allowance = min receipt_allowance (budget / 10) in
    phase-Ends w fair deadline cleanup_allowance
      (λ k db. claim_next_order_sync db (w.now k) (w.locked k) (w.token k) (w.fresh_id k) true)
      (after_tick s s.db)
      (λ k db out db' h.
        then_step start (claim (w.now k) (w.token k) (w.fresh_id k) (w.locked k) true out h))
      start
      (λ out s' db before ran reached.
        after_claim-Ends w fair deadline rounds cleanup_allowance enough sound out s' reached)
      raise-Ends

-- From a sound database one call of the coordinator always ends, by a result or an exception: six
-- rounds of its loop are enough, whatever the clock, the timeouts and the executor do and whatever
-- synchronisation transactions other workers commit meanwhile.
pub execute_next_order_sync_ends :
    (w : World) (budget rounds : ℕ) (s : Session)
    → IsFair w
    → 6 ≤ rounds
    → IsDbSound s.db
    → (execute_next_order_sync w budget rounds s).0 ≢ unfinished
execute_next_order_sync_ends w budget rounds s fair enough sound =
    (execute-Ends w budget rounds s fair enough sound).ended

-- One call of the coordinator on a sound database, with six rounds or more, while other workers
-- commit synchronisation transactions only, changes it only by such transactions, its own and
-- theirs, so that it stays sound; and where it reports COMPLETED, it names an order that is
-- COMPLETED, whose row, if there is one, has all its receipts.
pub execute_next_order_sync_lem :
    (w : World) (budget rounds : ℕ) (s : Session)
    → IsFair w
    → 6 ≤ rounds
    → IsDbSound s.db
    → let (end, s') = execute_next_order_sync w budget rounds s in
      Reaches s.db s'.db
      × IsDbSound s'.db
      × ((r : OrderSyncExecutionResult)
          → end ≡ returned r
          → r.kind ≡ ExecuteNextKind.completed
          → (id : ℕ) × (p : PersistedOrder) × (r.order_id ≡ some id)
            × (get_order s'.db id ≡ some p)
            × (p.order.state ≡ OrderState.completed)
            × ((q : OrderSync) → get_sync s'.db id ≡ some q → has_all_receipts q ≡ true))
execute_next_order_sync_lem w budget rounds s fair enough sound =
    let ends = execute-Ends w budget rounds s fair enough sound in
    let sound' = Reaches-IsDbSound sound ends.reaches in
    (
      ends.reaches,
      sound',
      λ r h k.
          let (id, p, named, there, done) = ends.completes r h k in
          (
            id,
            p,
            named,
            there,
            done,
            λ q row. (sound'.sound id p q there row).completed_with_receipts done,
          ),
    )
