-- ===== src/Sync/Rounds.antt =====
-- The loop of the coordinator, src/opsflow/application/order_sync.py: each round ends it or makes the
-- next step a later one.
use ops_flow_ai.Base.{
  ℕ, zero, suc, ◌+◌, ◌<◌, ◌≡◌, refl, ap, ◌∙◌, subst, inl, inr, Bool, true, false, none, some, arith,
  leb, ltb, Bool-cases, Option-cases, Error, stale_sync_claim, deadline_exceeded, integrity_error,
}
use ops_flow_ai.Domain.State.{OrderState}
use ops_flow_ai.Store.{Db}
use ops_flow_ai.Sync.Contracts.{
  OrderSync, OrderSyncStep, odoo_lookup, step_eq, OrderSyncClaim, OrderSyncReceipt, is_receipt,
  OrderSyncStepResult, receipt, nothing, failure, provider_invalid_response, idempotency_conflict,
  ExecuteNextKind, retry_wait,
}
use ops_flow_ai.Sync.Commands.{next_order_sync_step, receipt_step}
use ops_flow_ai.Sync.Transactions.{
  begin_order_sync_step, persist_order_sync_receipt, complete_order_sync,
}
use ops_flow_ai.Sync.System.{
  IsDbSound, Reaches, start, then_step, begin, persist, complete, Reaches-IsDbSound,
}
use ops_flow_ai.Sync.Phases.{
  World, Session, read_order_state, provider_answer, receipt_allowance, step_timeout,
}
use ops_flow_ai.Sync.Coordinator.{
  Continue, tick_s, finish_order, receipt_refused, store_receipt, after_answer, call_provider,
  begin_refused, run_step, round, run_rounds,
}
use ops_flow_ai.Sync.Coordination.{
  Ends, raise-Ends, give-Ends, IsFair, phase-Ends, reads, on_stale-Ends, yield-Ends, report-Ends,
}
use ops_flow_ai.Sync.Remaining.{
  steps_left, looked_up_left, persist_left, complete_inv, provider_answer_inv,
}

module _ (w : World) (fair : IsFair w) (deadline : ℕ) (c : OrderSyncClaim) {db0 : Db}
    (sound : IsDbSound db0) where
  finish-Ends : (s : Session) → Reaches db0 s.db → Ends db0 (finish_order w deadline c s)
  unfolding finish_order
  finish-Ends s path =
      phase-Ends w fair deadline 0
        (λ k db.
          complete_order_sync db (w.now k) (w.clock k) c.order_id c.claim_token (w.fresh_id k))
        s
        (λ k db r db' h.
          then_step start
            (complete (w.now k) (w.clock k) c.order_id c.claim_token (w.fresh_id k) r h))
        path
        (λ r s' db before ran reached.
          give-Ends ExecuteNextKind.completed (some c.order_id) (some OrderState.completed) s'
            reached
            (λ e.
              let (p, there, done) =
                complete_inv db (w.now s.tick) (w.clock s.tick) c.order_id c.claim_token
                  (w.fresh_id s.tick) (Reaches-IsDbSound sound before) ran in
              (c.order_id, p, refl, there, done)))
        (on_stale-Ends w fair deadline c.order_id)

  refused-Ends :
      (step : OrderSyncStep) (e : Error) (s : Session)
      → Reaches db0 s.db
      → Ends db0 (receipt_refused w deadline c step e s)
  unfolding receipt_refused
  refused-Ends step stale_sync_claim s path =
      phase-Ends w fair deadline 0 (read_order_state c.order_id) s (reads c.order_id) path
        (λ state s' db before ran reached.
          give-Ends retry_wait (some c.order_id) state s' reached (λ e. ground arith))
        raise-Ends
  refused-Ends step (integrity_error true) s path =
      report-Ends w fair deadline c step idempotency_conflict none s path
  refused-Ends step e s path = raise-Ends e s path

  begin_refused-Ends :
      (e : Error) (s : Session) → Reaches db0 s.db → Ends db0 (begin_refused w deadline c e s)
  unfolding begin_refused
  begin_refused-Ends deadline_exceeded s path = yield-Ends w fair deadline c s path
  begin_refused-Ends e s path = on_stale-Ends w fair deadline c.order_id e s path

  -- The continuation of a round ends where fewer steps are left than at `step`.
  abbrev ContinueEnds : Continue → OrderSync → OrderSyncStep → Type 0
  ContinueEnds continue sync step =
      ((s : Session) → step ≡ odoo_lookup → Reaches db0 s.db → Ends db0 (continue sync true s))
      × ((sync' : OrderSync) (s : Session)
          → steps_left (next_order_sync_step sync' false) < steps_left (some step)
          → Reaches db0 s.db
          → Ends db0 (continue sync' false s))

  module _ (continue : Continue) (sync : OrderSync) (step : OrderSyncStep)
      (good : ContinueEnds continue sync step) where
    store-Ends :
        (r : OrderSyncReceipt) (s : Session)
        → is_receipt r ≡ true
        → receipt_step r ≡ step
        → Reaches db0 s.db
        → Ends db0 (store_receipt w deadline c continue step r s)
    unfolding store_receipt
    store-Ends r s valid same path =
        phase-Ends w fair deadline 0
          (λ k db. persist_order_sync_receipt db (w.now k) (w.clock k) c.order_id c.claim_token r) s
          (λ k db q db' h.
            then_step start (persist (w.now k) (w.clock k) c.order_id c.claim_token r q valid h))
          path
          (λ q s' db before ran reached.
            good.1 q s'
              (subst (λ x. steps_left (next_order_sync_step q false) < steps_left (some x)) same
                (persist_left db (w.now s.tick) (w.clock s.tick) c.order_id c.claim_token r
                  (Reaches-IsDbSound sound before) ran))
              reached)
          (refused-Ends step)

    answer-Ends :
        (answer : OrderSyncStepResult) (s : Session)
        → ((r : OrderSyncReceipt) → answer ≡ receipt r → is_receipt r ≡ true)
        → Reaches db0 s.db
        → Ends db0 (after_answer w deadline c continue sync step answer s)
    unfolding after_answer
    answer-Ends (failure code retry_after) s valid path =
        report-Ends w fair deadline c step code retry_after s path
    answer-Ends nothing s valid path = elim (Bool-cases (step_eq step odoo_lookup)) [
      | inl e ↦ rw e (good.0 s (ground arith) path)
      | inr e ↦ rw e (report-Ends w fair deadline c step provider_invalid_response none s path)
    ]
    answer-Ends (receipt r) s valid path = elim (Bool-cases (step_eq (receipt_step r) step)) [
      | inl e ↦ rw e (store-Ends r s (valid r refl) (ground arith) path)
      | inr e ↦ rw e (report-Ends w fair deadline c step provider_invalid_response none s path)
    ]

    call-Ends :
        (s : Session)
        → Reaches db0 s.db
        → Ends db0 (call_provider w deadline c continue sync step s)
    unfolding call_provider
    call-Ends s path = elim (Bool-cases (leb deadline (w.monotonic s.tick + receipt_allowance))) [
      | inl e ↦ rw e (yield-Ends w fair deadline c (tick_s w deadline c s) path)
      | inr e ↦ rw e (
          answer-Ends (provider_answer (w.execute s.tick c.order_id step)) (tick_s w deadline c s)
            (λ r h. provider_answer_inv (w.execute s.tick c.order_id step) r h) path)
    ]

    step-Ends :
        (s : Session) → Reaches db0 s.db → Ends db0 (run_step w deadline c continue sync step s)
    unfolding run_step
    step-Ends s path =
        let required = step_timeout step + receipt_allowance in
        elim (Bool-cases (ltb deadline (w.monotonic s.tick + required))) [
          | inl e ↦ rw e (yield-Ends w fair deadline c (tick_s w deadline c s) path)
          | inr e ↦ rw e (
              phase-Ends w fair deadline required
                (λ k db.
                  begin_order_sync_step db (w.now k) (w.clock k) c.order_id c.claim_token step)
                (tick_s w deadline c s)
                (λ k db r db' h.
                  then_step start (begin (w.now k) (w.clock k) c.order_id c.claim_token step r h))
                path (λ r s' db before ran reached. call-Ends s' reached) begin_refused-Ends)
        ]

  round-Ends :
      (continue : Continue) (n : ℕ)
      → ((sync : OrderSync) (lookup_succeeded : Bool) (s : Session)
          → steps_left (next_order_sync_step sync lookup_succeeded) < n
          → Reaches db0 s.db
          → Ends db0 (continue sync lookup_succeeded s))
      → (sync : OrderSync) (lookup_succeeded : Bool) (s : Session)
      → steps_left (next_order_sync_step sync lookup_succeeded) < suc n
      → Reaches db0 s.db
      → Ends db0 (round w deadline c continue sync lookup_succeeded s)
  unfolding round
  round-Ends continue n good sync lookup_succeeded s few path =
      elim (Option-cases (next_order_sync_step sync lookup_succeeded)) [
        | inl e ↦ rw (round, e) (finish-Ends s path)
        | inr (step, e) ↦
            let few' : steps_left (some step) < suc n = subst (λ x. steps_left x < suc n) e few in
            rw (round, e)
              (step-Ends continue sync step
                (
                  λ s' is_lookup reached.
                      let next = looked_up_left sync lookup_succeeded (e ∙ ap some is_lookup) in
                      let most : steps_left (some step) ≡ 5 =
                        ap (λ x. steps_left (some x)) is_lookup in
                      good sync true s' (omega arith) reached,
                  λ sync' s' fewer reached. good sync' false s' (omega arith) reached,
                )
                s path)
      ]

  -- The loop ends within as many rounds as there are steps left, and one more.
  pub rounds-Ends :
      (n : ℕ) (sync : OrderSync) (lookup_succeeded : Bool) (s : Session)
      → steps_left (next_order_sync_step sync lookup_succeeded) < n
      → Reaches db0 s.db
      → Ends db0 (run_rounds w deadline c n sync lookup_succeeded s)
  unfolding run_rounds
  rounds-Ends zero sync lookup_succeeded s few path = absurd (omega arith)
  rounds-Ends (suc n) sync lookup_succeeded s few path =
      round-Ends (run_rounds w deadline c n) n (rounds-Ends n) sync lookup_succeeded s few path
