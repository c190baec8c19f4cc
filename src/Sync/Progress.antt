-- ===== src/Sync/Progress.antt =====
-- That the synchronisation of a sound order goes on: claims are handed out, the next step is always
-- one that may begin, and a row with all its receipts is completed.
use ops_flow_ai.Base.{
  ℕ, ◌+◌, ◌≤◌, ◌<◌, ◌≡◌, refl, ap, ◌∙◌, ◌⊎◌, inl, inr, Bool, true, false, not, ◌&&◌, Option, none,
  some, arith, leb, ok, >>=-total, Bool-cases, Option-cases, if◌then◌else◌,
}
use ops_flow_ai.Domain.State.{
  OrderState, approved, syncing, failed_retryable, state_eq, normal_transitions,
}
use ops_flow_ai.Domain.Order.{Order}
use ops_flow_ai.Store.{PersistedOrder, Db, get_order}
use ops_flow_ai.Store.Laws.{get_order_key}
use ops_flow_ai.Sync.Contracts.{OrderSync, OrderSyncStep, OrderSyncClaim, new_sync}
use ops_flow_ai.Sync.Commands.{
  order_sync_from_model, has_all_receipts, next_order_sync_step, require_step_preconditions,
  move_order,
}
use ops_flow_ai.Sync.Eligibility.{is_eligible_in, claim_one_eligible_order_sync}
use ops_flow_ai.Sync.Claiming.{
  ClaimOutcome, no_claim, exhausted, claimed, lease_expired, failure_step, exhaust, start_syncing,
  grant, spent, claim_row, claim_next_order_sync,
}
use ops_flow_ai.Sync.Soundness.{IsSound}
use ops_flow_ai.Sync.Effects.{may_move, move_order_lem}
use ops_flow_ai.Sync.ClaimMoves.{eligible_state, expired_syncing, eligible_attempts}
use ops_flow_ai.Sync.Choice.{IsTakable, claim_one_lem}
use ops_flow_ai.Sync.Handing.{
  HandsOut, lapsed_lem, not_lapsed_lem, grant-HandsOut, exhaust-HandsOut,
}
use ops_flow_ai.Sync.System.{IsDbSound, Selected, claim_one-Selected}

-- The step that is next on a sound row may begin, unless all the receipts are there, which is just
-- when there is none.
pub next_step :
    {o : Order} {r : OrderSync} (lookup_succeeded : Bool)
    → IsSound o r
    → ((next_order_sync_step r lookup_succeeded ≡ none → has_all_receipts r ≡ true)
        × (has_all_receipts r ≡ true → next_order_sync_step r lookup_succeeded ≡ none))
      × ((step : OrderSyncStep)
          → next_order_sync_step r lookup_succeeded ≡ some step
          → require_step_preconditions r step ≡ ok tt)
unfolding next_order_sync_step require_step_preconditions
next_step lookup_succeeded s = ((λ h. ground arith, λ h. ground arith), λ step h. ground arith)

-- The time from which a row of an order in that state may be taken.
abbrev pub ready_at : OrderSync → ℕ
ready_at r = elim r.claim_expires_at [ none ↦ r.next_attempt_at | some t ↦ t ]

-- No order is stuck: on a sound pair that is APPROVED or SYNCING, the row is eligible from the end of
-- its lease, or from its next attempt if it has none, for as long as nobody changes it.
pub never_stuck :
    {o : Order} {r : OrderSync}
    → IsSound o r
    → (o.state ≡ approved) ⊎ (o.state ≡ syncing)
    → (now : ℕ) → ready_at r ≤ now
    → is_eligible_in o.state r now ≡ true
never_stuck s e now h = ground arith

step_there :
    {o : Order} {r : OrderSync}
    → IsSound o r
    → has_all_receipts r ≡ false
    → (step : OrderSyncStep) × (next_order_sync_step (spent r) false ≡ some step)
unfolding next_order_sync_step
step_there {r} s h = elim (Option-cases (next_order_sync_step (spent r) false)) [
  | inl e ↦ absurd (ground arith)
  | inr x ↦ x
]

spent_read :
    {o : Order} {r : OrderSync}
    → IsSound o r
    → r.attempt_count < 3
    → order_sync_from_model (spent r) ≡ ok (spent r)
unfolding order_sync_from_model new_sync
spent_read s h = ground arith

next_failure_step :
    (q : OrderSync) {step : OrderSyncStep}
    → q.in_flight_step ≡ none
    → order_sync_from_model q ≡ ok q
    → next_order_sync_step q false ≡ some step
    → failure_step q ≡ ok step
unfolding failure_step
next_failure_step q e read next = ground arith

failure_step_there :
    {o : Order} {r : OrderSync}
    → IsSound o r
    → r.attempt_count < 3
    → has_all_receipts r ≡ false
    → (step : OrderSyncStep) × (failure_step (spent r) ≡ ok step)
unfolding failure_step
failure_step_there {r} s few h = elim (Option-cases r.in_flight_step) [
  | inr (step, e) ↦ (step, rw e refl)
  | inl e ↦
      let (step, next) = step_there s h in
      (step, next_failure_step (spent r) e (spent_read s few) next)
]

start_allowed :
    (p : PersistedOrder)
    → (p.order.state ≡ approved) ⊎ (p.order.state ≡ syncing)
    → may_move p (if state_eq p.order.state approved then some syncing else none) ≡ true
unfolding normal_transitions
start_allowed p (inl e) = rw e refl
start_allowed p (inr e) = rw e refl

module _ (db : Db) {r : OrderSync} {o : PersistedOrder} (now token event_id : ℕ)
    (sel : Selected db now r o) (s : IsSound o.order r) where
  key : get_order db o.order.id ≡ some o
  key = ap (get_order db) (get_order_key db r.order_id sel.order_there) ∙ sel.order_there

  grant_total :
      (r' : OrderSync) → (x : OrderSyncClaim × Db) × (grant db r' o now token event_id ≡ ok x)
  unfolding grant start_syncing
  grant_total r' =
      let target : Option OrderState =
        (if state_eq o.order.state approved then some syncing else none) in
      let (db1, moved, _, _, _, _) =
        move_order_lem db o target s.order_valid key
          (start_allowed o (eligible_state o.order.state r now sel.eligible)) in
      >>=-total (move_order db o target) _ moved (_, refl)

  exhaust_total :
      has_all_receipts r ≡ false
      → lease_expired r now ≡ true
      → (db' : Db) × (exhaust db (spent r) o now event_id ≡ ok db')
  unfolding exhaust normal_transitions
  exhaust_total h expired =
      let state = expired_syncing o.order.state r now sel.eligible expired in
      let few = eligible_attempts o.order.state r now sel.eligible expired in
      let (step, known) = failure_step_there s few h in
      let (db1, moved, _, _, _, _) =
        move_order_lem db o (some failed_retryable) s.order_valid key (rw state refl) in
      >>=-total (failure_step (spent r)) _ known
        (>>=-total (move_order db o (some failed_retryable)) _ moved (_, refl))

  -- A claim on the selected row hands out what it should.
  abbrev Total : Type 0
  Total =
      (out : ClaimOutcome) × (db' : Db) × (claim_row db r o now token event_id true ≡ ok (out, db'))
      × HandsOut db' now token r out

  claim_row_total : Total
  unfolding claim_row
  claim_row_total = elim (Bool-cases (lease_expired r now && not (has_all_receipts r))) [
    | inr e ↦
        let (x, g) = grant_total r in
        let left = s.attempts_left (eligible_state o.order.state r now sel.eligible) in
        (
          claimed x.0,
          x.1,
          rw (e, g) refl,
          grant-HandsOut db now token event_id sel r refl
              (inr (not_lapsed_lem now o.order r s e, refl)) left g,
        )
    | inl e ↦
        let lapsed = lapsed_lem now r e in
        elim (Bool-cases (leb 3 (r.attempt_count + 1))) [
          | inr f ↦
              let (x, g) = grant_total (spent r) in
              (
                claimed x.0,
                x.1,
                rw (e, f, g) refl,
                grant-HandsOut db now token event_id sel (spent r) refl (inl (lapsed, refl))
                    (ground arith) g,
              )
          | inl f ↦
              let left = s.attempts_left (eligible_state o.order.state r now sel.eligible) in
              let (db', g) = exhaust_total (ground arith) (ground arith) in
              (
                exhausted o.order.id,
                db',
                rw (e, f, g) refl,
                exhaust-HandsOut db now token event_id sel lapsed (ground arith) g,
              )
        ]
  ]

-- On a sound database a claim transaction never raises. Where some row may be taken, it takes one:
-- either it hands out a claim of 300 seconds under the token, with the order SYNCING and fewer than
-- three attempts counted, one more than before just if the last lease lapsed with a receipt missing;
-- or, where two attempts were counted and the lease lapsed again, it reports the order as failed, with
-- the third attempt counted, no claim and the order FAILED_RETRYABLE. Where no row may be taken, it
-- returns None and changes nothing.
pub claim_next_total :
    (db : Db) (now token event_id : ℕ) (locked : ℕ → Bool)
    → IsDbSound db
    → ((r : OrderSync) × (o : PersistedOrder) × IsTakable db now locked r o
        × (out : ClaimOutcome) × (db' : Db) × (claim_next_order_sync db now locked token event_id
              true
            ≡ ok (out, db'))
        × HandsOut db' now token r out)
      ⊎ ((claim_next_order_sync db now locked token event_id true ≡ ok (no_claim, db))
          × ((r : OrderSync) (o : PersistedOrder) → ¬ IsTakable db now locked r o))
unfolding claim_next_order_sync
claim_next_total db now token event_id locked s =
    elim (Option-cases (claim_one_eligible_order_sync db now locked)) [
      | inl e ↦ inr (rw (claim_next_order_sync, e) refl, (claim_one_lem db now locked).1 e)
      | inr ((r, o), e) ↦
          let sel = claim_one-Selected db now locked s.distinct e in
          let sound = s.sound r.order_id o r sel.order_there sel.row_there in
          let (out, db', done, handed) = claim_row_total db now token event_id sel sound in
          inl (
            r,
            o,
            ((claim_one_lem db now locked).0 r o e).0,
            out,
            db',
            rw (claim_next_order_sync, e, done) refl,
            handed,
          )
    ]
