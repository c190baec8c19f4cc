-- ===== src/Sync/Fencing.antt =====
-- The claim of a worker as a lease with a fencing token: `_require_current_claim` under the five
-- transactions that take a token, and `claim_next_order_sync` that hands the token out.
use ops_flow_ai.Base.{
  ℕ, ◌+◌, ◌≤◌, ◌<◌, ◌≡◌, ◌≢◌, refl, ap, ◌∙◌, sym, subst, ◌⊎◌, inl, inr, Bool, true, false, Option,
  none, some, arith, ==_refl, ok, err, stale_sync_claim, if◌then◌else◌,
}
use ops_flow_ai.Domain.State.{OrderState, approved, syncing, state_eq}
use ops_flow_ai.Store.{PersistedOrder, Db, get_order, get_sync}
use ops_flow_ai.Store.Laws.{get_order_key}
use ops_flow_ai.Sync.Contracts.{
  OrderSync, OrderSyncStep, OrderSyncFailureCode, OrderSyncReceipt, OrderSyncClaim,
}
use ops_flow_ai.Sync.Commands.{is_current, require_current_claim}
use ops_flow_ai.Sync.Claiming.{claimed, lease, granted_row, claim_next_order_sync}
use ops_flow_ai.Sync.Eligibility.{is_eligible_in}
use ops_flow_ai.Sync.Transactions.{
  begin_order_sync_step, persist_order_sync_receipt, record_order_sync_failure,
  yield_order_sync_claim, complete_order_sync,
}
use ops_flow_ai.Sync.Effects.{advanced}
use ops_flow_ai.Sync.ClaimMoves.{Claims, granted, gave_up, eligible_state}
use ops_flow_ai.Sync.System.{IsDbSound, Selected, claim_next_inv, claim, step-IsDbSound}

-- Every transaction under a token is refused, whatever its arguments.
pub record IsRefused (db : Db) (clock id token : ℕ) : Type 0 where
  pub begins :
      (now : ℕ) (step : OrderSyncStep)
      → begin_order_sync_step db now clock id token step ≡ err stale_sync_claim
  pub persists :
      (now : ℕ) (receipt : OrderSyncReceipt)
      → persist_order_sync_receipt db now clock id token receipt ≡ err stale_sync_claim
  pub fails :
      (now : ℕ) (step : OrderSyncStep) (code : OrderSyncFailureCode) (retry_after : Option ℕ)
      (event_id : ℕ)
      → record_order_sync_failure db now clock id token step code retry_after event_id
        ≡ err stale_sync_claim
  pub yields : (now : ℕ) → yield_order_sync_claim db now clock id token ≡ err stale_sync_claim
  pub completes :
      (now event_id : ℕ) → complete_order_sync db now clock id token event_id ≡ err stale_sync_claim

module _ (db : Db) (clock id token : ℕ) where
  IsRefused-of_stale :
      require_current_claim db clock id token ≡ err stale_sync_claim → IsRefused db clock id token
  unfolding begin_order_sync_step persist_order_sync_receipt record_order_sync_failure
      yield_order_sync_claim complete_order_sync
  IsRefused-of_stale h = record {
    begins = λ now step. rw h refl;
    persists = λ now receipt. rw h refl;
    fails = λ now step code retry_after event_id. rw h refl;
    yields = λ now. rw h refl;
    completes = λ now event_id. rw h refl;
  }

  module _ {o : PersistedOrder} {r : OrderSync} (order : get_order db id ≡ some o)
      (row : get_sync db id ≡ some r) where
    stale :
        is_current o.order.state r clock token ≡ false
        → require_current_claim db clock id token ≡ err stale_sync_claim
    unfolding require_current_claim
    stale h = rw (order, row, h) refl

    current :
        is_current o.order.state r clock token ≡ true
        → require_current_claim db clock id token ≡ ok (r, o)
    unfolding require_current_claim
    current h = rw (order, row, h) refl

-- The granted row under a token and at a time.
granted_current :
    (s : OrderState) (r : OrderSync) (now token clock : ℕ)
    → s ≡ syncing
    → clock < now + lease
    → is_current s (granted_row r now token) clock token ≡ true
unfolding is_current
granted_current s r now token clock e h = ground arith

granted_late :
    (s : OrderState) (r : OrderSync) (now token clock : ℕ)
    → now + lease ≤ clock
    → is_current s (granted_row r now token) clock token ≡ false
unfolding is_current
granted_late s r now token clock h = ground arith

granted_other :
    (s : OrderState) (r : OrderSync) (now token other clock : ℕ)
    → other ≢ token
    → is_current s (granted_row r now token) clock other ≡ false
unfolding is_current
granted_other s r now token other clock h = ground arith

granted_not_eligible :
    (s : OrderState) (r : OrderSync) (now token later : ℕ)
    → later < now + lease
    → is_eligible_in s (granted_row r now token) later ≡ true
    → ⊥
granted_not_eligible s r now token later h e = ground arith

-- What a claim that was handed out leaves in the database.
pub record Handed (db' : Db) (c : OrderSyncClaim) (now token : ℕ) : Type 0 where
  pub row : OrderSync
  pub order : PersistedOrder
  pub token_is : c.claim_token ≡ token
  pub expires_is : c.claim_expires_at ≡ now + lease
  pub order_there : get_order db' c.order_id ≡ some order
  pub row_there : get_sync db' c.order_id ≡ some (granted_row row now token)
  pub order_syncing : order.order.state ≡ syncing

claimed-injective : {c d : OrderSyncClaim} → claimed c ≡ claimed d → c ≡ d
claimed-injective h = ground arith

advanced_syncing :
    (o : PersistedOrder)
    → (o.order.state ≡ approved) ⊎ (o.order.state ≡ syncing)
    → (advanced o (if state_eq o.order.state approved then some syncing else none)).order.state
      ≡ syncing
advanced_syncing o h = ground arith

-- A claim is for the order of the row that was selected.
taken_key :
    {db db' : Db} {r : OrderSync} {o : PersistedOrder} {now token : ℕ} {c : OrderSyncClaim}
    → Selected db now r o
    → Claims db db' r o now token (claimed c)
    → c.order_id ≡ r.order_id
taken_key {db} {r} sel (granted r' d why issued effect same) =
    let key = get_order_key db r.order_id sel.order_there in ground arith
taken_key sel (gave_up step true same many expired effect) = absurd (ground arith)
taken_key sel (gave_up step false same many expired effect) = absurd (ground arith)

Handed-of :
    {db db' : Db} {r : OrderSync} {o : PersistedOrder} {now token : ℕ} {c : OrderSyncClaim}
    → Selected db now r o
    → Claims db db' r o now token (claimed c)
    → Handed db' c now token
Handed-of {db} {db'} {r} {o} {now} {token} {c} sel (granted r' d why issued effect same) =
    let this = taken_key {db = db} {db' = db'} sel (granted r' d why issued effect same) in
    record {
      row = r';
      order = advanced o (if state_eq o.order.state approved then some syncing else none);
      token_is = ground arith;
      expires_is = ground arith;
      order_there = ground (arith, effect.orders c.order_id, this, ==_refl c.order_id);
      row_there = ground (arith, effect.syncs c.order_id, this, ==_refl c.order_id);
      order_syncing = advanced_syncing o (eligible_state o.order.state r now sel.eligible);
    }
Handed-of sel (gave_up step true same many expired effect) = absurd (ground arith)
Handed-of sel (gave_up step false same many expired effect) = absurd (ground arith)

row-injective : {r q : OrderSync} → some r ≡ some q → r ≡ q
row-injective h = ground arith

-- A row whose lease runs is not selected.
not-Selected :
    {db' : Db} {r : OrderSync} (q : OrderSync) {o : PersistedOrder} {now token later id : ℕ}
    → get_sync db' id ≡ some (granted_row q now token)
    → later < now + lease
    → Selected db' later r o
    → r.order_id ≢ id
not-Selected {db'} {r} q {o} {now} {token} {later} row soon sel same =
    let granted_it : granted_row q now token ≡ r =
      row-injective (sym row ∙ ap (get_sync db') (sym same) ∙ sel.row_there) in
    granted_not_eligible o.order.state q now token later soon
      (subst (λ x. is_eligible_in o.order.state x later ≡ true) (sym granted_it) sel.eligible)

module _ (db : Db) (now token event_id : ℕ) (locked : ℕ → Bool) (include : Bool)
    {c : OrderSyncClaim} {db' : Db} (sound : IsDbSound db)
    (claims : claim_next_order_sync db now locked token event_id include
      ≡ ok (claimed c, db')) where
  handed : Handed db' c now token
  handed = elim (claim_next_inv db now token event_id locked include sound.distinct claims) [
    | inl (same, other) ↦ absurd (ground arith)
    | inr t ↦ Handed-of t.selected t.claims
  ]

  refused :
      (h : Handed db' c now token) (clock other : ℕ)
      → is_current h.order.order.state (granted_row h.row now token) clock other ≡ false
      → IsRefused db' clock c.order_id other
  refused h clock other e =
      IsRefused-of_stale db' clock c.order_id other
        (stale db' clock c.order_id other h.order_there h.row_there e)

  -- A claim that was handed out on a sound database is a lease with a fence. In the database that it
  -- leaves, the token passes `_require_current_claim` until the expiry, five minutes after the start
  -- of the transaction; from then on it is refused by every fenced transaction, and any other token
  -- is refused at every time; and no claim transaction before the expiry hands out the same order.
  pub lease_is_exclusive :
      (c.claim_token ≡ token)
      × (c.claim_expires_at ≡ now + lease)
      × ((clock : ℕ)
          → clock < c.claim_expires_at
          → (x : OrderSync × PersistedOrder) × (require_current_claim db' clock c.order_id token
              ≡ ok x))
      × ((clock : ℕ) → c.claim_expires_at ≤ clock → IsRefused db' clock c.order_id token)
      × ((clock other : ℕ) → other ≢ token → IsRefused db' clock c.order_id other)
      × ((later token' event' : ℕ) (locked' : ℕ → Bool) (include' : Bool) (d : OrderSyncClaim)
            (db'' : Db)
          → later < c.claim_expires_at
          → claim_next_order_sync db' later locked' token' event' include' ≡ ok (claimed d, db'')
          → d.order_id ≢ c.order_id)
  lease_is_exclusive =
      let h = handed in
      (
        h.token_is,
        h.expires_is,
        λ clock soon. (
          (granted_row h.row now token, h.order),
          current db' clock c.order_id token h.order_there h.row_there (
              granted_current h.order.order.state h.row now token clock h.order_syncing
                (ground arith)),
        ),
        λ clock late.
            refused h clock token
              (granted_late h.order.order.state h.row now token clock (ground arith)),
        λ clock other differs.
            refused h clock other
              (granted_other h.order.order.state h.row now token other clock differs),
        λ later token' event' locked' include' d db'' soon again same.
            let sound' =
              step-IsDbSound sound (claim now token event_id locked include (claimed c) claims) in
            elim (claim_next_inv db' later token' event' locked' include' sound'.distinct again) [
              | inl (unchanged, other) ↦ absurd (ground arith)
              | inr t ↦
                  not-Selected h.row h.row_there (ground arith) t.selected
                    (sym (taken_key t.selected t.claims) ∙ same)
            ],
      )
