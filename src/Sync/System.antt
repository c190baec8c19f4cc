-- ===== src/Sync/System.antt =====
-- The transactions of src/opsflow/application/order_sync.py as the steps of a system: any number of
-- workers, each transaction of a worker at any time, with any token and any argument.
use ops_flow_ai.Base.{
  ℕ, ◌≡◌, ap, sym, subst, ◌⊎◌, inl, inr, Bool, true, Option, some, arith, ◌==◌, ok, Bool-cases,
  Option-cases, ok-injective,
}
use ops_flow_ai.Base.Table.{Distinct, find_of_mem}
use ops_flow_ai.Store.{PersistedOrder, Db, sync_key, get_order, get_sync}
use ops_flow_ai.Sync.Contracts.{
  OrderSync, OrderSyncStep, OrderSyncFailureCode, OrderSyncReceipt, is_receipt,
}
use ops_flow_ai.Sync.Eligibility.{is_eligible, is_eligible_in, claim_one_eligible_order_sync}
use ops_flow_ai.Sync.Claiming.{ClaimOutcome, no_claim, claim_next_order_sync, granted_row}
use ops_flow_ai.Sync.Transactions.{
  begin_order_sync_step, persist_order_sync_receipt, record_order_sync_failure,
  yield_order_sync_claim, complete_order_sync,
}
use ops_flow_ai.Sync.Effects.{Effect}
use ops_flow_ai.Sync.Soundness.{IsSound, granted-IsSound, spent-IsSound, exhausted-IsSound}
use ops_flow_ai.Sync.Moves.{
  Moves, begin-Moves, persist-Moves, fail-Moves, yield-Moves, complete-Moves,
}
use ops_flow_ai.Sync.Commits.{at_state-advanced}
use ops_flow_ai.Sync.Choice.{claim_one_inv}
use ops_flow_ai.Sync.ClaimMoves.{
  Claims, granted, gave_up, claim_row_inv, eligible_state, expired_syncing,
}

-- Every order that has a synchronisation row is sound with it.
pub record IsDbSound (db : Db) : Type 0 where
  pub distinct : Distinct sync_key db.syncs
  pub sound :
      (id : ℕ) (o : PersistedOrder) (r : OrderSync)
      → get_order db id ≡ some o
      → get_sync db id ≡ some r
      → IsSound o.order r

-- One transaction that was committed. A receipt is one that its constructor accepts.
pub data Step (db db' : Db) : Type 0 where
  claim :
      (now token event_id : ℕ) (locked : ℕ → Bool) (include : Bool) (out : ClaimOutcome)
      → claim_next_order_sync db now locked token event_id include ≡ ok (out, db')
      → Step db db'
  begin :
      (now clock id token : ℕ) (step : OrderSyncStep) (s : OrderSync)
      → begin_order_sync_step db now clock id token step ≡ ok (s, db')
      → Step db db'
  persist :
      (now clock id token : ℕ) (receipt : OrderSyncReceipt) (s : OrderSync)
      → is_receipt receipt ≡ true
      → persist_order_sync_receipt db now clock id token receipt ≡ ok (s, db')
      → Step db db'
  fail :
      (now clock id token : ℕ) (step : OrderSyncStep) (code : OrderSyncFailureCode)
      (retry_after : Option ℕ) (event_id : ℕ) (s : OrderSync)
      → record_order_sync_failure db now clock id token step code retry_after event_id ≡ ok (s, db')
      → Step db db'
  yield :
      (now clock id token : ℕ) (s : OrderSync)
      → yield_order_sync_claim db now clock id token ≡ ok (s, db')
      → Step db db'
  complete :
      (now clock id token event_id : ℕ) (s : OrderSync)
      → complete_order_sync db now clock id token event_id ≡ ok (s, db')
      → Step db db'

-- Any number of transactions of any workers, in the order in which they commit.
pub data Reaches (db : Db) : Db → Type 0 where
  start : Reaches db db
  then_step : {db1 db2 : Db} → Reaches db db1 → Step db1 db2 → Reaches db db2

-- A change of one sound pair to a sound pair keeps the database sound.
pub Effect-IsDbSound :
    {db db' : Db} {o o' : PersistedOrder} {r r' : OrderSync}
    → IsDbSound db
    → Effect db db' o o' r r'
    → (IsSound o.order r → IsSound o'.order r')
    → IsDbSound db'
Effect-IsDbSound {db} {db'} {o} {o'} {r} {r'} s e keeps = record {
  distinct = e.distinct s.distinct;
  sound = λ id p q found_order found_sync.
      let other = e.orders id in
      let row = e.syncs id in
      elim (Bool-cases (r.order_id == id)) [
        | inl same ↦
            let po : o' ≡ p = ground arith in
            let qr : r' ≡ q = ground arith in
            subst (λ x. IsSound x.order q) po
              (subst (IsSound o'.order) qr
                (keeps (s.sound r.order_id o r e.order_there e.sync_there)))
        | inr differs ↦ s.sound id p q (ground arith) (ground arith)
      ];
}

Moves-IsDbSound : {db db' : Db} {id : ℕ} → IsDbSound db → Moves db db' id → IsDbSound db'
Moves-IsDbSound s m = Effect-IsDbSound s m.effect m.keeps

-- The selected row is the one under its key, its order is there, and the pair is eligible.
pub record Selected (db : Db) (now : ℕ) (r : OrderSync) (o : PersistedOrder) : Type 0 where
  pub order_there : get_order db r.order_id ≡ some o
  pub row_there : get_sync db r.order_id ≡ some r
  pub eligible : is_eligible_in o.order.state r now ≡ true

eligible_here :
    (db : Db) (now : ℕ) (locked : ℕ → Bool) (r : OrderSync) {o : PersistedOrder}
    → get_order db r.order_id ≡ some o
    → is_eligible db now locked r ≡ true
    → is_eligible_in o.order.state r now ≡ true
unfolding is_eligible
eligible_here db now locked r e h = ground arith

pub claim_one-Selected :
    (db : Db) (now : ℕ) (locked : ℕ → Bool) {r : OrderSync} {o : PersistedOrder}
    → Distinct sync_key db.syncs
    → claim_one_eligible_order_sync db now locked ≡ some (r, o)
    → Selected db now r o
unfolding get_sync
claim_one-Selected db now locked {r} {o} d h =
    let (first, there) = (claim_one_inv db now locked).0 r o h in
    record {
      order_there = there;
      row_there = find_of_mem sync_key db.syncs d first.among;
      eligible = eligible_here db now locked r there first.passes;
    }

Claims-IsDbSound :
    {db db' : Db} {r : OrderSync} {o : PersistedOrder} {now token : ℕ} {out : ClaimOutcome}
    → IsDbSound db
    → Selected db now r o
    → Claims db db' r o now token out
    → IsDbSound db'
Claims-IsDbSound {r} {o} {now} {token} s sel (granted r' c why same effect outcome) =
    let ready = eligible_state o.order.state r now sel.eligible in
    Effect-IsDbSound s effect (λ k.
      let k' : IsSound o.order r' = elim why [
        | inl e ↦ subst (IsSound o.order) (sym e) k
        | inr (e, few, expired) ↦ subst (IsSound o.order) (sym e) (spent-IsSound k few)
      ] in
      subst (λ x. IsSound x (granted_row r' now token)) (sym (at_state-advanced o _))
        (granted-IsSound k' now token ready))
Claims-IsDbSound {r} {o} {now} s sel (gave_up step include outcome many expired effect) =
    Effect-IsDbSound s effect
      (λ k. exhausted-IsSound k step now (expired_syncing o.order.state r now sel.eligible expired))

-- A claim transaction that took one selected row.
pub record Taken (db db' : Db) (now token : ℕ) (out : ClaimOutcome) : Type 0 where
  pub row : OrderSync
  pub order : PersistedOrder
  pub selected : Selected db now row order
  pub claims : Claims db db' row order now token out

module _ (db : Db) (now token event_id : ℕ) (locked : ℕ → Bool) (include : Bool)
    {out : ClaimOutcome} {db' : Db} (d : Distinct sync_key db.syncs) where
  pub claim_next_inv :
      claim_next_order_sync db now locked token event_id include ≡ ok (out, db')
      → ((db' ≡ db) × (out ≡ no_claim)) ⊎ Taken db db' now token out
  unfolding claim_next_order_sync
  claim_next_inv h = elim (Option-cases (claim_one_eligible_order_sync db now locked)) [
    | inl e ↦
        let same : ◌≡◌ {A = ClaimOutcome × Db} (no_claim, db) (out, db') =
          ok-injective (rw (claim_next_order_sync, e) at h) in
        inl (sym (ap (λ p. p.1) same), sym (ap (λ p. p.0) same))
    | inr ((r, o), e) ↦
        let sel = claim_one-Selected db now locked d e in
        inr (record {
          row = r;
          order = o;
          selected = sel;
          claims =
              claim_row_inv db now token event_id sel.order_there sel.row_there include
                (rw (claim_next_order_sync, e) at h);
        })
  ]

-- Every transaction keeps the database sound.
pub step-IsDbSound : {db db' : Db} → IsDbSound db → Step db db' → IsDbSound db'
step-IsDbSound {db} {db'} s (claim now token event_id locked include out h) =
    elim (claim_next_inv db now token event_id locked include s.distinct h) [
      | inl (e, none_taken) ↦ subst IsDbSound (sym e) s
      | inr t ↦ Claims-IsDbSound s t.selected t.claims
    ]
step-IsDbSound {db} s (begin now clock id token step r h) =
    Moves-IsDbSound s (begin-Moves db now clock id token step h)
step-IsDbSound {db} s (persist now clock id token receipt r p h) =
    Moves-IsDbSound s (persist-Moves db now clock id token receipt p h)
step-IsDbSound {db} s (fail now clock id token step code retry_after event_id r h) =
    Moves-IsDbSound s (fail-Moves db now clock id token step code retry_after event_id h)
step-IsDbSound {db} s (yield now clock id token r h) =
    Moves-IsDbSound s (yield-Moves db now clock id token h)
step-IsDbSound {db} s (complete now clock id token event_id r h) =
    Moves-IsDbSound s (complete-Moves db now clock id token event_id h)

-- Whatever transactions run, and in whatever order, a sound database stays sound: row keys are
-- distinct, and every order that has a row keeps the contract of the row, receipts in the order ERP,
-- company, deal, association, a claim only while SYNCING, an attempt left while APPROVED or SYNCING,
-- and all receipts when COMPLETED.
pub Reaches-IsDbSound : {db db' : Db} → IsDbSound db → Reaches db db' → IsDbSound db'
Reaches-IsDbSound s start = s
Reaches-IsDbSound s (then_step path step) = step-IsDbSound (Reaches-IsDbSound s path) step
