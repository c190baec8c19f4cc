-- ===== src/Sync/Effects.antt =====
-- What a transaction of the synchronisation changes: one order, one row, and the audit trail.

use ops_flow_ai.Base.{
  ℕ, ◌≡◌, refl, ap, ◌∙◌, sym, subst, inl, inr, Bool-cases, Bool, true, Option, none, some, [],
  arith, ◌==◌, ok, >>=-eq-ok, ok-injective, guard, or_raise, or_raise-eq-ok, guard-eq-ok,
  sync_not_found, stale_sync_claim, if◌then◌else◌,
}
use ops_flow_ai.Domain.State.{OrderState, syncing, is_in, normal_transitions}
use ops_flow_ai.Domain.Order.{Order, new_order, transition_to}
use ops_flow_ai.Domain.Lifecycle.{
  IsValid, moved, new_order_ok, new_order-IsValid, transition_to-IsValid,
}
use ops_flow_ai.Base.Table.{find, Distinct, Distinct-put}
use ops_flow_ai.Store.{sync_key, PersistedOrder, Db, get_order, get_sync, save_sync}
use ops_flow_ai.Store.Laws.{
  get_order_key, get_sync_key, update_order_snapshot_lem, get_sync-save_sync, get_order-save_sync,
}
use ops_flow_ai.Sync.Contracts.{OrderSync}
use ops_flow_ai.Sync.Commands.{order_from_row, move_order, is_current, require_current_claim}

-- `db'` differs from `db` in the order `o`, now `o'`, and in its row `r`, now `r'`.
pub record Effect (db db' : Db) (o o' : PersistedOrder) (r r' : OrderSync) : Type 0 where
  pub order_there : get_order db r.order_id ≡ some o
  pub sync_there : get_sync db r.order_id ≡ some r
  pub orders : (j : ℕ) → get_order db' j ≡ (if r.order_id == j then some o' else get_order db j)
  pub syncs : (j : ℕ) → get_sync db' j ≡ (if r.order_id == j then some r' else get_sync db j)
  pub distinct : Distinct sync_key db.syncs → Distinct sync_key db'.syncs

-- The order as its transition leaves it in the database.
abbrev pub advanced : PersistedOrder → Option OrderState → PersistedOrder
advanced p none = p
advanced p (some t) = record p { order = moved p.order t }

abbrev pub may_move : PersistedOrder → Option OrderState → Bool
may_move p none = true
may_move p (some t) = is_in t (normal_transitions p.order.state)

pub order_from_row_lem :
    (p : PersistedOrder)
    → IsValid p.order
    → order_from_row p ≡ ok (record p.order { lines = []; source_documents = [] })
unfolding order_from_row
order_from_row_lem p v =
    new_order_ok (record p.order { lines = []; source_documents = [] })
      (record { currency = v.currency; origin = v.origin })

-- An allowed transition of a well-formed order is written, and nothing else is.
pub move_order_lem :
    (db : Db) (p : PersistedOrder) (target : Option OrderState)
    → IsValid p.order
    → get_order db p.order.id ≡ some p
    → may_move p target ≡ true
    → (db' : Db) × (move_order db p target ≡ ok db')
      × ((j : ℕ)
          → get_order db' j
            ≡ (if p.order.id == j then some (advanced p target) else get_order db j))
      × (db'.syncs ≡ db.syncs)
      × (db'.deliveries ≡ db.deliveries)
      × (db'.audit ≡ db.audit)
unfolding move_order
move_order_lem db p none v h m = (db, refl, λ j. ground arith, refl, refl, refl)
move_order_lem db p (some t) v h m =
    let bare = record p.order { lines = []; source_documents = [] } in
    let (db', written, orders, syncs, deliveries, audit) =
      update_order_snapshot_lem db (moved bare t) h in
    (
      db',
      rw
          (
            order_from_row_lem p v,
            transition_to-IsValid bare t (record { currency = v.currency; origin = v.origin }),
            m,
          )
          written,
      orders,
      syncs,
      deliveries,
      audit,
    )

allowed_of_ok :
    (o : Order) (t : OrderState) {p : Order}
    → IsValid o
    → transition_to o t ≡ ok p
    → is_in t (normal_transitions o.state) ≡ true
allowed_of_ok o t v h = elim (Bool-cases (is_in t (normal_transitions o.state))) [
  | inl e ↦ e
  | inr e ↦ cc (transition_to-IsValid o t v, e)
]

-- Conversely, a move that succeeded was an allowed one of a well-formed order, with that effect; the
-- synchronisation needs no other check of the state.
move_some_inv :
    (db : Db) (p : PersistedOrder) (t : OrderState) {db' : Db}
    → move_order db p (some t) ≡ ok db'
    → IsValid p.order × (is_in t (normal_transitions p.order.state) ≡ true)
unfolding move_order order_from_row
move_some_inv db p t h =
    let bare = record p.order { lines = []; source_documents = [] } in
    let (order, built, h1) = >>=-eq-ok (new_order bare) _ h in
    let (q, stepped, h2) = >>=-eq-ok (transition_to order t) _ h1 in
    let (same, valid) = new_order-IsValid bare built in
    let w = subst IsValid same valid in
    let stepped' = subst (λ x. transition_to x t ≡ ok q) same stepped in
    (record { currency = w.currency; origin = w.origin }, allowed_of_ok bare t w stepped')

-- The effect of a move that succeeded.
pub move_order_inv :
    (db : Db) (p : PersistedOrder) (target : Option OrderState) {db' : Db}
    → get_order db p.order.id ≡ some p
    → move_order db p target ≡ ok db'
    → ((j : ℕ)
        → get_order db' j ≡ (if p.order.id == j then some (advanced p target) else get_order db j))
      × (db'.syncs ≡ db.syncs)
      × (may_move p target ≡ true)
unfolding move_order
move_order_inv db p none {db'} there h =
    let same : db ≡ db' = ok-injective h in
    (
      subst (λ d. (j : ℕ) → get_order d j ≡ (if p.order.id == j then some p else get_order db j))
          same (λ j. ground arith),
      ap (λ d. d.syncs) (sym same),
      refl,
    )
move_order_inv db p (some t) {db'} there h =
    let (valid, allowed) = move_some_inv db p t h in
    let (db1, written, orders, syncs, deliveries, audit) =
      move_order_lem db p (some t) valid there allowed in
    let same : db1 ≡ db' = ok-injective (sym written ∙ h) in
    (
      subst
          (λ d.
            (j : ℕ)
            → get_order d j
              ≡ (if p.order.id == j then some (advanced p (some t)) else get_order db j))
          same orders,
      ap (λ d. d.syncs) (sym same) ∙ syncs,
      allowed,
    )

-- A change of the order, then of its row, is an effect.
pub saved-Effect :
    (db db1 : Db) (o o' : PersistedOrder) (r r' : OrderSync)
    → get_order db r.order_id ≡ some o
    → get_sync db r.order_id ≡ some r
    → ((j : ℕ) → get_order db1 j ≡ (if r.order_id == j then some o' else get_order db j))
    → db1.syncs ≡ db.syncs
    → r'.order_id ≡ r.order_id
    → Effect db (save_sync db1 r') o o' r r'
unfolding save_sync get_sync
saved-Effect db db1 o o' r r' there row orders syncs same = record {
  order_there = there;
  sync_there = row;
  orders = λ j. get_order-save_sync db1 r' j ∙ orders j;
  syncs = λ j.
      let kept : (i : ℕ) → get_sync db1 i ≡ get_sync db i =
        λ i. ap (λ rows. find sync_key i rows) syncs in
      ground (
        arith,
        get_sync-save_sync db1 r' (kept r'.order_id ∙ ap (get_sync db) same ∙ row) j,
        kept j,
      );
  distinct = λ d. Distinct-put sync_key r' db1.syncs (subst (Distinct sync_key) (sym syncs) d);
}

-- What a transaction knows once its claim has been found current.
pub record Fenced (db : Db) (clock id token : ℕ) (r : OrderSync) (o : PersistedOrder) : Type 0 where
  pub order_there : get_order db id ≡ some o
  pub sync_there : get_sync db id ≡ some r
  pub order_key : o.order.id ≡ id
  pub sync_key : r.order_id ≡ id
  pub order_syncing : o.order.state ≡ syncing
  pub token_current : r.claim_token ≡ some token

is_current_syncing :
    (s : OrderState) (r : OrderSync) (clock token : ℕ)
    → is_current s r clock token ≡ true
    → s ≡ syncing
unfolding is_current
is_current_syncing s r clock token h = ground arith

is_current_token :
    (s : OrderState) (r : OrderSync) (clock token : ℕ)
    → is_current s r clock token ≡ true
    → r.claim_token ≡ some token
unfolding is_current
is_current_token s r clock token h = ground arith

pub require_current_claim_inv :
    (db : Db) (clock id token : ℕ) {r : OrderSync} {o : PersistedOrder}
    → require_current_claim db clock id token ≡ ok (r, o)
    → Fenced db clock id token r o
unfolding require_current_claim
require_current_claim_inv db clock id token {r} {o} h =
    let (p, found_order, h1) = >>=-eq-ok (or_raise (get_order db id) sync_not_found) _ h in
    let (q, found_sync, h2) = >>=-eq-ok (or_raise (get_sync db id) sync_not_found) _ h1 in
    let (u, passed, h3) =
      >>=-eq-ok (guard (is_current p.order.state q clock token) stale_sync_claim) _ h2 in
    let there : get_order db id ≡ some o =
      cc (or_raise-eq-ok (get_order db id) _ found_order, h3) in
    let row : get_sync db id ≡ some r = cc (or_raise-eq-ok (get_sync db id) _ found_sync, h3) in
    let current : is_current o.order.state r clock token ≡ true =
      subst (λ x. is_current x.1.order.state x.0 clock token ≡ true) (ok-injective h3)
        (guard-eq-ok _ _ passed) in
    record {
      order_there = there;
      sync_there = row;
      order_key = get_order_key db id there;
      sync_key = get_sync_key db id row;
      order_syncing = is_current_syncing o.order.state r clock token current;
      token_current = is_current_token o.order.state r clock token current;
    }
