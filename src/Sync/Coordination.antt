-- ===== src/Sync/Coordination.antt =====
-- What the phases of the coordinator (src/opsflow/application/order_sync.py) do to the database, and
-- what their results say.
use ops_flow_ai.Base.{
  ℕ, ◌+◌, ◌≡◌, ◌≢◌, refl, ap, ◌∙◌, subst, inl, inr, Option, none, some, arith, leb, Bool-cases,
  Option-cases, Error, Result, ok, err, stale_sync_claim, ok-injective, err≢ok,
}
use ops_flow_ai.Domain.State.{OrderState, syncing}
use ops_flow_ai.Store.{PersistedOrder, Db, get_order}
use ops_flow_ai.Sync.Contracts.{
  OrderSyncStep, OrderSyncFailureCode, OrderSyncClaim, ExecuteNextKind, yielded, no_work,
  OrderSyncExecutionResult,
}
use ops_flow_ai.Sync.Transactions.{record_order_sync_failure, yield_order_sync_claim}
use ops_flow_ai.Sync.System.{Reaches, start, then_step, fail, yield}
use ops_flow_ai.Sync.Phases.{
  Cut, in_time, before_commit, after_commit, World, Session, End, returned, unfinished, committed,
  within_deadline, attempt, give, raise, read_order_state, stale_kind, failure_kind, stale_answer,
  stale_claim_result, on_stale, yield_for_budget, failure_result, report_failure,
}

pub Reaches-trans : {a b c : Db} → Reaches a b → Reaches b c → Reaches a c
Reaches-trans p start = p
Reaches-trans p (then_step q step) = then_step (Reaches-trans p q) step

-- The result names an order that is COMPLETED in the database.
abbrev pub IsCompleted : OrderSyncExecutionResult → Db → Type 0
IsCompleted r db =
    (id : ℕ) × (p : PersistedOrder) × (r.order_id ≡ some id)
    × (get_order db id ≡ some p)
    × (p.order.state ≡ OrderState.completed)

-- The coordinator ended, by transactions that led from `db0` to its database, and what it reports as
-- COMPLETED is.
pub record Ends (db0 : Db) (e : End × Session) : Type 0 where
  pub reaches : Reaches db0 e.1.db
  pub ended : e.0 ≢ unfinished
  pub completes :
      (r : OrderSyncExecutionResult)
      → e.0 ≡ returned r
      → r.kind ≡ ExecuteNextKind.completed
      → IsCompleted r e.1.db

pub raise-Ends : {db0 : Db} (e : Error) (s : Session) → Reaches db0 s.db → Ends db0 (raise e s)
raise-Ends e s path = record {
  reaches = path;
  ended = λ h. ground arith;
  completes = λ r h k. ground arith;
}

pub give-Ends :
    {db0 : Db} (kind : ExecuteNextKind) (id : Option ℕ) (state : Option OrderState) (s : Session)
    → Reaches db0 s.db
    → (kind ≡ ExecuteNextKind.completed
        → IsCompleted (record { kind = kind; order_id = id; state = state }) s.db)
    → Ends db0 (give kind id state s)
give-Ends kind id state s path done = record {
  reaches = path;
  ended = λ h. ground arith;
  completes = λ r h k.
      let same : record { kind = kind; order_id = id; state = state } ≡ r = ground arith in
      subst (λ r. IsCompleted r s.db) same (done (ground arith));
}

attempt-Ends {ℓ} :
    {A : Type ℓ} {db0 : Db} (m : Result A × Session) (k : A → Session → End × Session)
    (h : Error → Session → End × Session)
    → ((a : A) → m.0 ≡ ok a → Ends db0 (k a m.1))
    → ((e : Error) → Ends db0 (h e m.1))
    → Ends db0 (attempt m k h)
unfolding attempt
attempt-Ends (ok a, s) k h good bad = good a refl
attempt-Ends (err e, s) k h good bad = bad e

committed-Reaches {ℓ} :
    {A : Type ℓ} {db0 : Db} (cut : Cut) (s : Session) (db : Db) (m : Result (A × Db))
    → Reaches db0 db
    → ((a : A) (db' : Db) → m ≡ ok (a, db') → Reaches db db')
    → Reaches db0 (committed cut s db m).1.db
      × ((a : A) → (committed cut s db m).0 ≡ ok a → m ≡ ok (a, (committed cut s db m).1.db))
committed-Reaches in_time s db (ok (a, db')) path step =
    (Reaches-trans path (step a db' refl), λ b h. ap (λ x. ok (x, db')) (ok-injective h))
committed-Reaches after_commit s db (ok (a, db')) path step =
    (Reaches-trans path (step a db' refl), λ b h. absurd (err≢ok h))
committed-Reaches before_commit s db (ok (a, db')) path step = (path, λ b h. absurd (err≢ok h))
committed-Reaches in_time s db (err e) path step = (path, λ b h. absurd (err≢ok h))
committed-Reaches before_commit s db (err e) path step = (path, λ b h. absurd (err≢ok h))
committed-Reaches after_commit s db (err e) path step = (path, λ b h. absurd (err≢ok h))

pub reads :
    (id : ℕ) (k : ℕ) (db : Db) (a : Option OrderState) (db' : Db)
    → read_order_state id k db ≡ ok (a, db')
    → Reaches db db'
reads id k db a db' h = subst (Reaches db) (ap (λ x. x.1) (ok-injective h)) start

-- The state that was read is that of the order.
read_order_state_inv :
    (id k : ℕ) (db : Db) {state : OrderState} {db' : Db}
    → read_order_state id k db ≡ ok (some state, db')
    → (p : PersistedOrder) × (get_order db' id ≡ some p) × (p.order.state ≡ state)
read_order_state_inv id k db {state} {db'} h = elim (Option-cases (get_order db id)) [
  | inl e ↦ absurd (ground (arith, h, e))
  | inr (p, e) ↦ (p, ground (arith, h, e), ground (arith, h, e))
]

stale_kind_inv :
    (state : OrderState)
    → stale_kind state ≡ ExecuteNextKind.completed
    → state ≡ OrderState.completed
stale_kind_inv state h = ground arith

failure_kind_lem : (state : Option OrderState) → failure_kind state ≢ ExecuteNextKind.completed
failure_kind_lem none h = ground arith
failure_kind_lem (some state) h = ground arith

-- What other workers commit is a sequence of the transactions of the system.
abbrev pub IsFair : World → Type 0
IsFair w = (k : ℕ) (db : Db) → Reaches db (w.others k db)

module _ (w : World) (fair : IsFair w) (deadline : ℕ) {db0 : Db} where
  within-Reaches {ℓ} :
      {A : Type ℓ} (reserve : ℕ) (op : ℕ → Db → Result (A × Db)) (s : Session)
      → ((k : ℕ) (db : Db) (a : A) (db' : Db) → op k db ≡ ok (a, db') → Reaches db db')
      → Reaches db0 s.db
      → let m = within_deadline w deadline reserve op s in
        Reaches db0 m.1.db
        × ((a : A) → m.0 ≡ ok a → (db : Db) × Reaches db0 db × (op s.tick db ≡ ok (a, m.1.db)))
  unfolding within_deadline
  within-Reaches reserve op s steps path =
      elim (Bool-cases (leb deadline (w.monotonic s.tick + reserve))) [
        | inl late ↦ rw late (path, λ a h. absurd (err≢ok h))
        | inr early ↦
            let db = w.others s.tick s.db in
            let path' = Reaches-trans path (fair s.tick s.db) in
            let (reached, done) =
              committed-Reaches (w.cut s.tick) s db (op s.tick db) path' (steps s.tick db) in
            rw early (reached, λ a h. (db, path', done a h))
      ]

  -- A phase with its two continuations.
  pub phase-Ends {ℓ} :
      {A : Type ℓ} (reserve : ℕ) (op : ℕ → Db → Result (A × Db)) (s : Session)
      {k : A → Session → End × Session} {h : Error → Session → End × Session}
      → ((k : ℕ) (db : Db) (a : A) (db' : Db) → op k db ≡ ok (a, db') → Reaches db db')
      → Reaches db0 s.db
      → ((a : A) (s' : Session) (db : Db)
          → Reaches db0 db
          → op s.tick db ≡ ok (a, s'.db)
          → Reaches db0 s'.db
          → Ends db0 (k a s'))
      → ((e : Error) (s' : Session) → Reaches db0 s'.db → Ends db0 (h e s'))
      → Ends db0 (attempt (within_deadline w deadline reserve op s) k h)
  phase-Ends reserve op s {k} {h} steps path good bad =
      let m = within_deadline w deadline reserve op s in
      let (reached, done) = within-Reaches reserve op s steps path in
      attempt-Ends m k h
        (λ a e. let (db, before, ran) = done a e in good a m.1 db before ran reached)
        (λ e. bad e m.1 reached)

  stale_answer-Ends :
      (id k : ℕ) (db : Db) (state : Option OrderState) (s : Session)
      → read_order_state id k db ≡ ok (state, s.db)
      → Reaches db0 s.db
      → Ends db0 (stale_answer id state s)
  stale_answer-Ends id k db none s h path = give-Ends no_work none none s path (λ e. ground arith)
  stale_answer-Ends id k db (some state) s h path =
      give-Ends (stale_kind state) (some id) (some state) s path (λ e.
        let (p, there, same) = read_order_state_inv id k db h in
        (id, p, refl, there, same ∙ stale_kind_inv state e))

  stale-Ends :
      (id : ℕ) (s : Session) → Reaches db0 s.db → Ends db0 (stale_claim_result w deadline id s)
  unfolding stale_claim_result
  stale-Ends id s path =
      phase-Ends 0 (read_order_state id) s (reads id) path
        (λ state s' db before ran reached. stale_answer-Ends id s.tick db state s' ran reached)
        raise-Ends

  pub on_stale-Ends :
      (id : ℕ) (e : Error) (s : Session) → Reaches db0 s.db → Ends db0 (on_stale w deadline id e s)
  on_stale-Ends id stale_sync_claim s path = stale-Ends id s path
  on_stale-Ends id e s path = raise-Ends e s path

  pub yield-Ends :
      (c : OrderSyncClaim) (s : Session)
      → Reaches db0 s.db
      → Ends db0 (yield_for_budget w deadline c s)
  unfolding yield_for_budget
  yield-Ends c s path =
      phase-Ends 0
        (λ k db. yield_order_sync_claim db (w.now k) (w.clock k) c.order_id c.claim_token) s
        (λ k db r db' h. then_step start (yield (w.now k) (w.clock k) c.order_id c.claim_token r h))
        path
        (λ r s' db before ran reached.
          give-Ends yielded (some c.order_id) (some syncing) s' reached (λ e. ground arith))
        (on_stale-Ends c.order_id)

  pub failure_result-Ends :
      (id : ℕ) (s : Session) → Reaches db0 s.db → Ends db0 (failure_result w deadline id s)
  unfolding failure_result
  failure_result-Ends id s path =
      phase-Ends 0 (read_order_state id) s (reads id) path
        (λ state s' db before ran reached.
          give-Ends (failure_kind state) (some id) state s' reached
            (λ e. absurd (failure_kind_lem state e)))
        raise-Ends

  pub report-Ends :
      (c : OrderSyncClaim) (step : OrderSyncStep) (code : OrderSyncFailureCode)
      (retry_after : Option ℕ) (s : Session)
      → Reaches db0 s.db
      → Ends db0 (report_failure w deadline c step code retry_after s)
  unfolding report_failure
  report-Ends c step code retry_after s path =
      phase-Ends 0
        (λ k db.
          record_order_sync_failure db (w.now k) (w.clock k) c.order_id c.claim_token step code
            retry_after (w.fresh_id k))
        s
        (λ k db r db' h. then_step start (
          fail (w.now k) (w.clock k) c.order_id c.claim_token step code retry_after (w.fresh_id k) r
            h))
        path (λ r s' db before ran reached. failure_result-Ends c.order_id s' reached)
        (on_stale-Ends c.order_id)
