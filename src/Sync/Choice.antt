-- ===== src/Sync/Choice.antt =====
-- Which row `claim_one_eligible_order_sync` returns.
use ops_flow_ai.Base.{
  ℕ, ◌≤◌, ◌<◌, ◌≡◌, sym, ◌∙◌, subst, Memᴰ, ◌⊎◌, inl, inr, Bool, true, false, Option, none, some,
  arith, Option-cases,
}
use mathlib.Core.Bool.{false≢true}
use ops_flow_ai.Base.Select.{IsOrder, IsFirst, Outcome, first_by, first_by-Outcome}
use ops_flow_ai.Domain.State.{OrderState, approved, syncing}
use ops_flow_ai.Store.{PersistedOrder, Db, get_order}
use ops_flow_ai.Sync.Contracts.{OrderSync}
use ops_flow_ai.Sync.Eligibility.{
  is_eligible, is_eligible_in, comes_before, claim_one_eligible_order_sync,
}

before_itself : (r : OrderSync) → comes_before r r ≡ false
unfolding comes_before
before_itself r = ground arith

before_asym : (r s : OrderSync) → comes_before s r ≡ true → comes_before r s ≡ false
unfolding comes_before
before_asym r s h = ground arith

not_before_trans :
    (r s t : OrderSync)
    → comes_before t s ≡ false
    → comes_before s r ≡ false
    → comes_before t r ≡ false
unfolding comes_before
not_before_trans r s t h k = ground arith

comes_before-IsOrder : IsOrder comes_before
comes_before-IsOrder = record {
  irrefl = before_itself;
  asym = before_asym;
  not_trans = not_before_trans;
}

eligible_order :
    (db : Db) (now : ℕ) (locked : ℕ → Bool) (r : OrderSync)
    → is_eligible db now locked r ≡ true
    → (o : PersistedOrder) × (get_order db r.order_id ≡ some o)
unfolding is_eligible
eligible_order db now locked r h = elim (Option-cases (get_order db r.order_id)) [
  | inl e ↦ absurd (ground arith)
  | inr (o, e) ↦ (o, e)
]

Chosen : Db → ℕ → (ℕ → Bool) → Option (OrderSync × PersistedOrder) → Type 0
Chosen db now locked none = (s : OrderSync) → Memᴰ s db.syncs → is_eligible db now locked s ≡ false
Chosen db now locked (some (r, o)) =
    IsFirst comes_before (is_eligible db now locked) db.syncs r × (get_order db r.order_id ≡ some o)

Chosen-of :
    (db : Db) (now : ℕ) (locked : ℕ → Bool) (x : Option OrderSync)
    → Outcome comes_before (is_eligible db now locked) db.syncs x
    → Chosen db now locked (elim x [
      | none ↦ none
      | some r ↦ elim (get_order db r.order_id) [ none ↦ none | some o ↦ some (r, o) ]
    ])
unfolding Chosen
Chosen-of db now locked none h = h
Chosen-of db now locked (some r) h =
    let (o, e) = eligible_order db now locked r h.passes in
    subst (λ y. Chosen db now locked (elim y [ none ↦ none | some o ↦ some (r, o) ])) (sym e) (h, e)

claim_one-Chosen :
    (db : Db) (now : ℕ) (locked : ℕ → Bool)
    → Chosen db now locked (claim_one_eligible_order_sync db now locked)
unfolding claim_one_eligible_order_sync
claim_one-Chosen db now locked =
    Chosen-of db now locked (first_by comes_before (is_eligible db now locked) db.syncs)
      (first_by-Outcome comes_before comes_before-IsOrder (is_eligible db now locked) db.syncs)

-- The chosen row in the terms of the code's tests.
pub claim_one_inv :
    (db : Db) (now : ℕ) (locked : ℕ → Bool)
    → ((r : OrderSync) (o : PersistedOrder)
        → claim_one_eligible_order_sync db now locked ≡ some (r, o)
        → IsFirst comes_before (is_eligible db now locked) db.syncs r
          × (get_order db r.order_id ≡ some o))
      × (claim_one_eligible_order_sync db now locked ≡ none
          → (s : OrderSync) → Memᴰ s db.syncs
          → is_eligible db now locked s ≡ false)
unfolding Chosen
claim_one_inv db now locked =
    let c = claim_one-Chosen db now locked in
    (λ r o e. subst (Chosen db now locked) e c, λ e. subst (Chosen db now locked) e c)

-- The time from which a row may be taken in a state, written without the query: an APPROVED order
-- that nobody claimed from its next attempt on; a SYNCING order with an attempt left from its next
-- attempt on if nobody holds it, and from the end of the lease on if somebody does.
pub data IsReady (now : ℕ) (r : OrderSync) : OrderState → Type 0 where
  first : r.claim_token ≡ none → r.next_attempt_at ≤ now → IsReady now r approved
  again :
      r.claim_token ≡ none → r.next_attempt_at ≤ now → r.attempt_count < 3 → IsReady now r syncing
  abandoned :
      (token t : ℕ)
      → r.claim_token ≡ some token
      → r.claim_expires_at ≡ some t
      → t ≤ now
      → r.attempt_count < 3
      → IsReady now r syncing

pub IsReady-of :
    (now : ℕ) (r : OrderSync) (state : OrderState)
    → is_eligible_in state r now ≡ true
    → IsReady now r state
IsReady-of now r approved h = first (ground arith) (ground arith)
IsReady-of now r syncing h = elim (Option-cases r.claim_token) [
  | inl e ↦ again e (ground arith) (ground arith)
  | inr (token, e) ↦ elim (Option-cases r.claim_expires_at) [
    | inl f ↦ absurd (ground arith)
    | inr (t, f) ↦ abandoned token t e f (ground arith) (ground arith)
  ]
]
IsReady-of now r _ h = absurd (ground arith)

pub IsReady-is_eligible_in :
    (now : ℕ) (r : OrderSync) (state : OrderState)
    → IsReady now r state
    → is_eligible_in state r now ≡ true
IsReady-is_eligible_in now r _ (first a b) = ground arith
IsReady-is_eligible_in now r _ (again a b c) = ground arith
IsReady-is_eligible_in now r _ (abandoned token t a b c d) = ground arith

-- A row of the table that may be taken, whose order is there and not locked.
pub record IsTakable (db : Db) (now : ℕ) (locked : ℕ → Bool) (r : OrderSync) (o : PersistedOrder)
    : Type 0 where
  pub among : Memᴰ r db.syncs
  pub order_there : get_order db r.order_id ≡ some o
  pub free : locked r.order_id ≡ false
  pub ready : IsReady now r o.order.state

-- Sooner due, or due at the same time and created sooner, or created at the same time with the
-- smaller id, or the same in all three.
abbrev pub IsNotAfter : OrderSync → OrderSync → Type 0
IsNotAfter a b =
    (a.next_attempt_at < b.next_attempt_at)
    ⊎ ((a.next_attempt_at ≡ b.next_attempt_at)
        × ((a.created_at < b.created_at)
            ⊎ ((a.created_at ≡ b.created_at) × (a.order_id ≤ b.order_id))))

not_before-IsNotAfter : (r s : OrderSync) → comes_before s r ≡ false → IsNotAfter r s
unfolding comes_before
not_before-IsNotAfter r s h = ground arith

module _ (db : Db) (now : ℕ) (locked : ℕ → Bool) where
  eligible-IsTakable :
      (r : OrderSync) (o : PersistedOrder)
      → Memᴰ r db.syncs
      → get_order db r.order_id ≡ some o
      → is_eligible db now locked r ≡ true
      → IsTakable db now locked r o
  unfolding is_eligible
  eligible-IsTakable r o m e h = record {
    among = m;
    order_there = e;
    free = ground arith;
    ready = IsReady-of now r o.order.state (ground arith);
  }

  pub IsTakable-is_eligible :
      (r : OrderSync) (o : PersistedOrder)
      → IsTakable db now locked r o
      → is_eligible db now locked r ≡ true
  unfolding is_eligible
  IsTakable-is_eligible r o t =
      ground (arith, t.order_there, t.free, IsReady-is_eligible_in now r o.order.state t.ready)

  -- A claim takes a row that may be taken, with its order, and no row that may be taken is due sooner,
  -- or at the same time and was created sooner, or at the same times and has a smaller order id. It
  -- takes none only if there is no such row. A row may be taken if its order is there and not locked,
  -- and is APPROVED without a claim and due, or SYNCING with fewer than three attempts and either
  -- without a claim and due or with a claim whose lease is over.
  pub claim_one_lem :
      ((r : OrderSync) (o : PersistedOrder)
        → claim_one_eligible_order_sync db now locked ≡ some (r, o)
        → IsTakable db now locked r o
          × ((s : OrderSync) (p : PersistedOrder) → IsTakable db now locked s p → IsNotAfter r s))
      × (claim_one_eligible_order_sync db now locked ≡ none
          → (s : OrderSync) (p : PersistedOrder) → ¬ IsTakable db now locked s p)
  claim_one_lem = (
    λ r o h.
        let (chosen, there) = (claim_one_inv db now locked).0 r o h in
        (
          eligible-IsTakable r o chosen.among there chosen.passes,
          λ s p t. not_before-IsNotAfter r s (chosen.first s t.among (IsTakable-is_eligible s p t)),
        ),
    λ h s p t.
        false≢true
          (sym ((claim_one_inv db now locked).1 h s t.among) ∙ IsTakable-is_eligible s p t),
  )
