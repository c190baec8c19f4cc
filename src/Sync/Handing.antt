-- ===== src/Sync/Handing.antt =====
-- What a claim transaction of src/opsflow/application/order_sync.py hands out.
use ops_flow_ai.Base.{
  ℕ, ◌+◌, ◌<◌, ◌≤◌, ◌≡◌, refl, sym, subst, ◌⊎◌, inl, inr, true, false, not, ◌&&◌, none, some, arith,
  ==_refl, ok, Option-cases, if◌then◌else◌,
}
use ops_flow_ai.Domain.State.{approved, syncing, failed_retryable, state_eq}
use ops_flow_ai.Domain.Order.{Order}
use ops_flow_ai.Store.{PersistedOrder, Db, get_order, get_sync, seconds}
use ops_flow_ai.Store.Laws.{get_order_key}
use ops_flow_ai.Sync.Contracts.{OrderSync, OrderSyncClaim, worker_lease_exhausted}
use ops_flow_ai.Sync.Commands.{has_all_receipts}
use ops_flow_ai.Sync.Claiming.{
  lease, ClaimOutcome, exhausted, claimed, lease_expired, granted_row, exhausted_row, exhaust,
  grant, spent,
}
use ops_flow_ai.Sync.Soundness.{IsSound}
use ops_flow_ai.Sync.Effects.{Effect, advanced}
use ops_flow_ai.Sync.ClaimMoves.{grant_inv, exhaust_inv, eligible_state}
use ops_flow_ai.Sync.System.{Selected}

-- The lease on the row is over, and a receipt is missing.
pub record HasLapsed (now : ℕ) (r : OrderSync) : Type 0 where
  pub until : ℕ
  pub expires : r.claim_expires_at ≡ some until
  pub over : until ≤ now
  pub missing : has_all_receipts r ≡ false

-- What was handed out for the row `r`, which is `r'` in `db'`, with its order `o'`: a claim of 300
-- seconds, with one attempt more than before if the last lease lapsed; or, at the third lapse, the
-- order that failed.
pub data Handed (now token : ℕ) (r r' : OrderSync) (o' : PersistedOrder)
    : ClaimOutcome → Type 0 where
  with_claim :
      (c : OrderSyncClaim)
      → c ≡ record {
        order_id = r.order_id;
        claim_token = token;
        claim_expires_at = now + seconds 300;
      }
      → r'.claim_token ≡ some token
      → r'.claim_expires_at ≡ some (now + seconds 300)
      → o'.order.state ≡ syncing
      → (HasLapsed now r × (r'.attempt_count ≡ r.attempt_count + 1))
        ⊎ ((¬ HasLapsed now r) × (r'.attempt_count ≡ r.attempt_count))
      → r'.attempt_count < 3
      → Handed now token r r' o' (claimed c)
  with_failure :
      HasLapsed now r
      → r.attempt_count ≡ 2
      → r'.attempt_count ≡ 3
      → r'.claim_token ≡ none
      → r'.last_failure_code ≡ some worker_lease_exhausted
      → o'.order.state ≡ failed_retryable
      → Handed now token r r' o' (exhausted r.order_id)

-- The row and its order as they are in `db'` after that.
pub record HandsOut (db' : Db) (now token : ℕ) (r : OrderSync) (out : ClaimOutcome) : Type 0 where
  pub row : OrderSync
  pub order : PersistedOrder
  pub row_there : get_sync db' r.order_id ≡ some row
  pub order_there : get_order db' r.order_id ≡ some order
  pub handed : Handed now token r row order out

pub lapsed_lem :
    (now : ℕ) (r : OrderSync)
    → (lease_expired r now && not (has_all_receipts r)) ≡ true
    → HasLapsed now r
lapsed_lem now r h = elim (Option-cases r.claim_expires_at) [
  | inl e ↦ absurd (ground arith)
  | inr (t, e) ↦ record { until = t; expires = e; over = ground arith; missing = ground arith }
]

pub not_lapsed_lem :
    (now : ℕ) (o : Order) (r : OrderSync)
    → IsSound o r
    → (lease_expired r now && not (has_all_receipts r)) ≡ false
    → ¬ HasLapsed now r
not_lapsed_lem now o r s h l = ground (arith, l.expires, l.over, l.missing, s.claim_pair)

-- The row and its order after a change of the pair.
pub Effect-there :
    {db db' : Db} {o o' : PersistedOrder} {r r' : OrderSync}
    → Effect db db' o o' r r'
    → (get_sync db' r.order_id ≡ some r') × (get_order db' r.order_id ≡ some o')
Effect-there {r = r} e = (
  ground (arith, e.syncs r.order_id, ==_refl r.order_id),
  ground (arith, e.orders r.order_id, ==_refl r.order_id),
)

started_state :
    (p : PersistedOrder)
    → (p.order.state ≡ approved) ⊎ (p.order.state ≡ syncing)
    → (advanced p (if state_eq p.order.state approved then some syncing else none)).order.state
      ≡ syncing
started_state p (inl e) = rw e refl
started_state p (inr e) = rw e refl

module _ (db : Db) {r : OrderSync} {o : PersistedOrder} (now token event_id : ℕ)
    (sel : Selected db now r o) {db' : Db} where
  pub grant-HandsOut :
      (q : OrderSync) {c : OrderSyncClaim}
      → q.order_id ≡ r.order_id
      → (HasLapsed now r × (q.attempt_count ≡ r.attempt_count + 1))
        ⊎ ((¬ HasLapsed now r) × (q.attempt_count ≡ r.attempt_count))
      → q.attempt_count < 3
      → grant db q o now token event_id ≡ ok (c, db')
      → HandsOut db' now token r (claimed c)
  grant-HandsOut q {c} same counted few h =
      let (effect, is_claim) =
        grant_inv db sel.order_there sel.row_there q now token event_id same h in
      let (row, order) = Effect-there effect in
      let key = get_order_key db r.order_id sel.order_there in
      let state = started_state o (eligible_state o.order.state r now sel.eligible) in
      record {
        row = granted_row q now token;
        order = _;
        row_there = row;
        order_there = order;
        handed =
            with_claim c
              (subst
                (λ id.
                  c ≡ record { order_id = id; claim_token = token; claim_expires_at = now + lease })
                key is_claim)
              refl refl state counted few;
      }

  pub exhaust-HandsOut :
      HasLapsed now r
      → r.attempt_count ≡ 2
      → exhaust db (spent r) o now event_id ≡ ok db'
      → HandsOut db' now token r (exhausted o.order.id)
  exhaust-HandsOut lapsed second h =
      let (step, effect) =
        exhaust_inv db sel.order_there sel.row_there (spent r) now event_id refl h in
      let (row, order) = Effect-there effect in
      let key = get_order_key db r.order_id sel.order_there in
      let third : (spent r).attempt_count ≡ 3 = omega (arith, second) in
      let row' = exhausted_row (spent r) step now in
      let o' = advanced o (some failed_retryable) in
      record {
        row = row';
        order = o';
        row_there = row;
        order_there = order;
        handed =
            subst (λ id. Handed now token r row' o' (exhausted id)) (sym key)
              (with_failure lapsed second third refl refl refl);
      }
