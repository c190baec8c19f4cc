-- ===== src/Sync/ClaimMoves.antt =====
-- The claim transaction moves one sound pair of an order and its row to another.
use ops_flow_ai.Base.{
  ℕ, ◌+◌, ◌≤◌, ◌<◌, ◌≡◌, refl, ap, ◌∙◌, sym, subst, ◌⊎◌, inl, inr, Bool, true, false, not, ◌&&◌,
  Option, none, some, arith, ◌==◌, leb, ok, ◌>>=◌, >>=-eq-ok, ok-injective, Bool-cases,
  if◌then◌else◌,
}
use ops_flow_ai.Base.Table.{Distinct}
use ops_flow_ai.Domain.State.{OrderState, approved, syncing, failed_retryable, state_eq}
use ops_flow_ai.Domain.Records.{AuditEvent}
use ops_flow_ai.Store.{
  PersistedOrder, Db, sync_key, get_order, get_sync, save_sync, insert_audit_event,
}
use ops_flow_ai.Store.Laws.{
  get_order_key, get_order-insert_audit_event, get_sync-insert_audit_event,
}
use ops_flow_ai.Sync.Contracts.{OrderSync, OrderSyncStep, OrderSyncClaim}
use ops_flow_ai.Sync.Eligibility.{is_eligible_in}
use ops_flow_ai.Sync.Commands.{move_order, has_all_receipts}
use ops_flow_ai.Sync.Claiming.{
  ClaimOutcome, no_claim, exhausted, claimed, lease, lease_expired, failure_step, exhausted_row,
  granted_row, exhaust, start_syncing, grant, spent, as_claimed, as_exhausted, claim_row,
}
use ops_flow_ai.Sync.Effects.{Effect, advanced, move_order_inv, saved-Effect}
use ops_flow_ai.Sync.Commits.{audit_syncs}

pub audit-Effect :
    {db db1 : Db} {o o' : PersistedOrder} {r r' : OrderSync} (e : AuditEvent)
    → Effect db db1 o o' r r'
    → Effect db (insert_audit_event db1 e) o o' r r'
audit-Effect {db1 = db1} e f = record {
  order_there = f.order_there;
  sync_there = f.sync_there;
  orders = λ j. get_order-insert_audit_event db1 e j ∙ f.orders j;
  syncs = λ j. get_sync-insert_audit_event db1 e j ∙ f.syncs j;
  distinct = λ d. subst (Distinct sync_key) (sym (audit_syncs db1 e)) (f.distinct d);
}

module _ (db : Db) {r : OrderSync} {o : PersistedOrder}
    (order_there : get_order db r.order_id ≡ some o)
    (row_there : get_sync db r.order_id ≡ some r) where
  -- The order moved, a row written in place of `r`, and an event recorded.
  written-Effect :
      (target : Option OrderState) (r' : OrderSync) (e : AuditEvent) {db1 : Db}
      → r'.order_id ≡ r.order_id
      → move_order db o target ≡ ok db1
      → Effect db (insert_audit_event (save_sync db1 r') e) o (advanced o target) r r'
  unfolding get_sync
  written-Effect target r' e {db1} same h =
      let key = get_order_key db r.order_id order_there in
      let (orders, syncs, allowed) =
        move_order_inv db o target (ap (get_order db) key ∙ order_there) h in
      audit-Effect e (
        saved-Effect db db1 o (advanced o target) r r' order_there row_there
          (subst
            (λ k.
              (j : ℕ)
              → get_order db1 j ≡ (if k == j then some (advanced o target) else get_order db j))
            key orders)
          syncs same)

  abbrev pub first_move : Option OrderState
  first_move = if state_eq o.order.state approved then some syncing else none

  pub grant_inv :
      (r' : OrderSync) (now token event_id : ℕ) {c : OrderSyncClaim} {db' : Db}
      → r'.order_id ≡ r.order_id
      → grant db r' o now token event_id ≡ ok (c, db')
      → Effect db db' o (advanced o first_move) r (granted_row r' now token)
        × (c
            ≡ record { order_id = o.order.id; claim_token = token; claim_expires_at = now + lease })
  unfolding grant start_syncing
  grant_inv r' now token event_id {c} {db'} same h =
      let (db1, moved_it, h1) = >>=-eq-ok (move_order db o first_move) _ h in
      let pair = ok-injective h1 in
      (
        subst (λ d. Effect db d o (advanced o first_move) r (granted_row r' now token))
            (ap (λ p. p.1) pair)
            (written-Effect first_move (granted_row r' now token) _ same moved_it),
        sym (ap (λ p. p.0) pair),
      )

  pub exhaust_inv :
      (r' : OrderSync) (now event_id : ℕ) {db' : Db}
      → r'.order_id ≡ r.order_id
      → exhaust db r' o now event_id ≡ ok db'
      → (step : OrderSyncStep) × Effect db db' o
          (advanced o (some failed_retryable))
          r
          (exhausted_row r' step now)
  unfolding exhaust
  exhaust_inv r' now event_id {db'} same h =
      let (step, known, h1) = >>=-eq-ok (failure_step r') _ h in
      let (db1, moved_it, h2) = >>=-eq-ok (move_order db o (some failed_retryable)) _ h1 in
      (
        step,
        subst
            (λ d. Effect db d o (advanced o (some failed_retryable)) r (exhausted_row r' step now))
            (ok-injective h2)
            (written-Effect (some failed_retryable) (exhausted_row r' step now) _ same moved_it),
      )

-- What an eligible pair tells of the order's state.
pub eligible_state :
    (s : OrderState) (r : OrderSync) (now : ℕ)
    → is_eligible_in s r now ≡ true
    → (s ≡ approved) ⊎ (s ≡ syncing)
eligible_state s r now h = ground arith

pub expired_syncing :
    (s : OrderState) (r : OrderSync) (now : ℕ)
    → is_eligible_in s r now ≡ true
    → lease_expired r now ≡ true
    → s ≡ syncing
expired_syncing s r now h e = ground arith

pub eligible_attempts :
    (s : OrderState) (r : OrderSync) (now : ℕ)
    → is_eligible_in s r now ≡ true
    → lease_expired r now ≡ true
    → r.attempt_count < 3
eligible_attempts s r now h e = ground arith

-- The three ways in which a claim transaction on a selected row ends.
pub data Claims (db db' : Db) (r : OrderSync) (o : PersistedOrder) (now token : ℕ)
    (out : ClaimOutcome) : Type 0 where
  granted :
      (r' : OrderSync) (c : OrderSyncClaim)
      → (r' ≡ r) ⊎ ((r' ≡ spent r) × (r.attempt_count < 2) × (lease_expired r now ≡ true))
      → c ≡ record { order_id = o.order.id; claim_token = token; claim_expires_at = now + lease }
      → Effect db db' o
          (advanced o (if state_eq o.order.state approved then some syncing else none))
          r
          (granted_row r' now token)
      → out ≡ claimed c
      → Claims db db' r o now token out
  gave_up :
      (step : OrderSyncStep) (include : Bool)
      → out ≡ (if include then exhausted o.order.id else no_claim)
      → 2 ≤ r.attempt_count
      → lease_expired r now ≡ true
      → Effect db db' o (advanced o (some failed_retryable)) r (exhausted_row (spent r) step now)
      → Claims db db' r o now token out

spent_is_two : (n : ℕ) → leb 3 (n + 1) ≡ true → 2 ≤ n
spent_is_two n h = ground arith

spent_is_below : (n : ℕ) → leb 3 (n + 1) ≡ false → n < 2
spent_is_below n h = ground arith

expired_of : (a b : Bool) → (a && not b) ≡ true → a ≡ true
expired_of true b h = refl
expired_of false b h = cc

module _ (db : Db) {r : OrderSync} {o : PersistedOrder} (now token event_id : ℕ)
    (order : get_order db r.order_id ≡ some o) (row : get_sync db r.order_id ≡ some r) where
  granted_case :
      (r' : OrderSync) {out : ClaimOutcome} {db' : Db}
      → (r' ≡ r) ⊎ ((r' ≡ spent r) × (r.attempt_count < 2) × (lease_expired r now ≡ true))
      → r'.order_id ≡ r.order_id
      → (grant db r' o now token event_id >>= as_claimed) ≡ ok (out, db')
      → Claims db db' r o now token out
  granted_case r' {out} {db'} why same h =
      let (x, given, h1) = >>=-eq-ok (grant db r' o now token event_id) _ h in
      let pair : ◌≡◌ {A = ClaimOutcome × Db} (claimed x.0, x.1) (out, db') = ok-injective h1 in
      let (effect, claim) = grant_inv db order row r' now token event_id same given in
      let seen =
        subst
          (λ d.
            Effect db d o
              (advanced o (if state_eq o.order.state approved then some syncing else none)) r
              (granted_row r' now token))
          (ap (λ p. p.1) pair) effect in
      granted r' x.0 why claim seen (sym (ap (λ p. p.0) pair))

  gave_up_case :
      (include : Bool) {out : ClaimOutcome} {db' : Db}
      → 2 ≤ r.attempt_count
      → lease_expired r now ≡ true
      → (exhaust db (spent r) o now event_id >>= as_exhausted include o.order.id) ≡ ok (out, db')
      → Claims db db' r o now token out
  gave_up_case include {out} {db'} many expired h =
      let (d, given, h1) = >>=-eq-ok (exhaust db (spent r) o now event_id) _ h in
      let pair : ◌≡◌ {A = ClaimOutcome × Db} (if include then exhausted o.order.id else no_claim, d)
          (out, db') =
        ok-injective h1 in
      let (step, effect) = exhaust_inv db order row (spent r) now event_id refl given in
      let seen =
        subst
          (λ d.
            Effect db d o (advanced o (some failed_retryable)) r (exhausted_row (spent r) step now))
          (ap (λ p. p.1) pair) effect in
      gave_up step include (sym (ap (λ p. p.0) pair)) many expired seen

  pub claim_row_inv :
      (include : Bool) {out : ClaimOutcome} {db' : Db}
      → claim_row db r o now token event_id include ≡ ok (out, db')
      → Claims db db' r o now token out
  unfolding claim_row
  claim_row_inv include h = elim (Bool-cases (lease_expired r now && not (has_all_receipts r))) [
    | inr e ↦ granted_case r (inl refl) refl (rw e at h)
    | inl e ↦
        let expired = expired_of _ _ e in
        elim (Bool-cases (leb 3 (r.attempt_count + 1))) [
          | inl f ↦ gave_up_case include (spent_is_two _ f) expired (rw (e, f) at h)
          | inr f ↦
              granted_case (spent r) (inr (refl, spent_is_below _ f, expired)) refl (rw (e, f) at h)
        ]
  ]
