-- ===== src/Sync/Receipts.antt =====
-- The ERP receipt of a row: once it is durable no transaction changes it, and no two orders have the
-- same ERP order.
use ops_flow_ai.Base.{
  ℕ, ◌≡◌, ◌<◌, refl, ap, ◌∙◌, sym, subst, ◌⊎◌, inl, inr, Bool, true, false, Option, some, String,
  List, [], ◌∷◌, arith, ◌==◌, ==_refl, Bool-cases,
}
use ops_flow_ai.Base.Table.{find}
use ops_flow_ai.Store.{PersistedOrder, Db, sync_key, get_sync}
use ops_flow_ai.Sync.Contracts.{OrderSync, odoo_receipt}
use ops_flow_ai.Sync.Claiming.{granted_row, spent, ClaimOutcome}
use ops_flow_ai.Sync.Transactions.{collides}
use ops_flow_ai.Sync.Effects.{Effect}
use ops_flow_ai.Sync.ErpReceipts.{ErpReceipt, kept, fresh}
use ops_flow_ai.Sync.Moves.{
  Moves, begin-Moves, persist-Moves, fail-Moves, yield-Moves, complete-Moves,
}
use ops_flow_ai.Sync.ClaimMoves.{Claims, granted, gave_up}
use ops_flow_ai.Sync.System.{
  IsDbSound, Step, claim, begin, persist, fail, yield, complete, Reaches, start, then_step,
  claim_next_inv, Reaches-IsDbSound,
}

-- No two rows have the same ERP order.
unfoldable pub IsErpUnique : Db → Type 0
IsErpUnique db =
    (j k i : ℕ) (r s : OrderSync)
    → get_sync db j ≡ some r
    → get_sync db k ≡ some s
    → r.odoo_sale_order_id ≡ some i
    → s.odoo_sale_order_id ≡ some i
    → j ≡ k

-- A step of one row, as far as its ERP receipt goes.
record Touch (db db' : Db) : Type 0 where
  before : PersistedOrder
  after : PersistedOrder
  row : OrderSync
  row' : OrderSync
  effect : Effect db db' before after row row'
  erp : ErpReceipt db.syncs row.order_id row row'

Moves-Touch : {db db' : Db} {id : ℕ} → Moves db db' id → Touch db db'
Moves-Touch {db} m = record {
  before = m.before;
  after = m.after;
  row = m.row;
  row' = m.row';
  effect = m.effect;
  erp = subst (λ k. ErpReceipt db.syncs k m.row m.row') (sym m.key) m.erp;
}

granted_erp :
    (rows : List OrderSync) (id : ℕ) (r r' : OrderSync) (now token : ℕ) {p q : ℕ} {b : Bool}
    → (r' ≡ r) ⊎ ((r' ≡ spent r) × (p < q) × (b ≡ true))
    → ErpReceipt rows id r (granted_row r' now token)
granted_erp rows id r r' now token (inl e) =
    kept (ap (λ x. x.odoo_sale_order_id) e) (ap (λ x. x.odoo_sale_order_name) e)
granted_erp rows id r r' now token (inr (e, _, _)) =
    kept (ap (λ x. x.odoo_sale_order_id) e) (ap (λ x. x.odoo_sale_order_name) e)

Claims-Touch :
    {db db' : Db} {r : OrderSync} {o : PersistedOrder} {now token : ℕ} {out : ClaimOutcome}
    → Claims db db' r o now token out
    → Touch db db'
Claims-Touch {db} {r = r} {now = now} {token = token} (granted r' c why issued effect outcome) =
    record {
      before = _;
      after = _;
      row = _;
      row' = _;
      effect = effect;
      erp = granted_erp db.syncs r.order_id r r' now token why;
    }
Claims-Touch (gave_up step include outcome many expired effect) = record {
  before = _;
  after = _;
  row = _;
  row' = _;
  effect = effect;
  erp = kept refl refl;
}

step-Touch : {db db' : Db} → IsDbSound db → Step db db' → (db' ≡ db) ⊎ Touch db db'
step-Touch {db} s (claim now token event_id locked include out h) =
    elim (claim_next_inv db now token event_id locked include s.distinct h) [
      | inl (e, none_taken) ↦ inl e
      | inr t ↦ inr (Claims-Touch t.claims)
    ]
step-Touch {db} s (begin now clock id token step r h) =
    inr (Moves-Touch (begin-Moves db now clock id token step h))
step-Touch {db} s (persist now clock id token receipt r p h) =
    inr (Moves-Touch (persist-Moves db now clock id token receipt p h))
step-Touch {db} s (fail now clock id token step code retry_after event_id r h) =
    inr (Moves-Touch (fail-Moves db now clock id token step code retry_after event_id h))
step-Touch {db} s (yield now clock id token r h) =
    inr (Moves-Touch (yield-Moves db now clock id token h))
step-Touch {db} s (complete now clock id token event_id r h) =
    inr (Moves-Touch (complete-Moves db now clock id token event_id h))

-- A row with that ERP receipt.
pub record HasErpOrder (db : Db) (id i : ℕ) (name : Option String) : Type 0 where
  pub row : OrderSync
  pub there : get_sync db id ≡ some row
  pub erp_order : row.odoo_sale_order_id ≡ some i
  pub erp_name : row.odoo_sale_order_name ≡ name

Touch-keeps :
    {db db' : Db} {id i : ℕ} {name : Option String}
    → HasErpOrder db id i name
    → Touch db db'
    → HasErpOrder db' id i name
Touch-keeps {db} {db'} {id} {i} {name} h t = elim (Bool-cases (t.row.order_id == id)) [
  | inr differs ↦ record {
    row = h.row;
    there = ground (arith, t.effect.syncs id, h.there);
    erp_order = h.erp_order;
    erp_name = h.erp_name;
  }
  | inl same ↦
      let this : t.row ≡ h.row = ground (arith, t.effect.sync_there, h.there) in
      let now_there : get_sync db' id ≡ some t.row' = ground (arith, t.effect.syncs id) in
      elim t.erp [
        | kept e f ↦ record {
          row = t.row';
          there = now_there;
          erp_order = e ∙ ap (λ x. x.odoo_sale_order_id) this ∙ h.erp_order;
          erp_name = f ∙ ap (λ x. x.odoo_sale_order_name) this ∙ h.erp_name;
        }
        | fresh j n e f c ↦ absurd (cc (h.erp_order, this, e))
      ]
]

-- An ERP order that was recorded for an order is never overwritten, whatever transactions follow.
pub erp_receipt_is_durable :
    {db db' : Db} {id i : ℕ} {name : Option String}
    → IsDbSound db
    → HasErpOrder db id i name
    → Reaches db db'
    → HasErpOrder db' id i name
erp_receipt_is_durable s h start = h
erp_receipt_is_durable {id = id} {i = i} {name = name} s h (then_step {db1} {db2} path step) =
    let h1 = erp_receipt_is_durable s h path in
    elim (step-Touch (Reaches-IsDbSound s path) step) [
      | inl e ↦ subst (λ d. HasErpOrder d id i name) (sym e) h1
      | inr t ↦ Touch-keeps h1 t
    ]

-- A receipt that does not collide is that of no other row.
no_collision :
    (rows : List OrderSync) (id j i : ℕ) (name : String) {s : OrderSync}
    → collides rows id (odoo_receipt i name) ≡ false
    → find sync_key j rows ≡ some s
    → s.odoo_sale_order_id ≡ some i
    → j ≡ id
unfolding collides find
no_collision [] id j i name c h e = absurd (ground arith)
no_collision (x ∷ xs) id j i name {s} c h e = elim (Bool-cases (x.order_id == j)) [
  | inr differs ↦ no_collision xs id j i name {s = s} (ground arith) (ground arith) e
  | inl same ↦
      let this : x ≡ s = ground arith in
      let mine : x.odoo_sale_order_id ≡ some i = ap (λ r. r.odoo_sale_order_id) this ∙ e in
      ground (arith, ==_refl i)
]

-- The changed row has an ERP order that no other row has.
changed_row :
    {db db' : Db} (t : Touch db db') {k i : ℕ} {s : OrderSync}
    → IsErpUnique db
    → get_sync db k ≡ some s
    → s.odoo_sale_order_id ≡ some i
    → t.row'.odoo_sale_order_id ≡ some i
    → k ≡ t.row.order_id
unfolding get_sync IsErpUnique
changed_row {db} t {k} {i} {s} u there e f = elim t.erp [
  | kept same named ↦ u k t.row.order_id i s t.row there t.effect.sync_there e (sym same ∙ f)
  | fresh j name empty written free ↦
      no_collision db.syncs t.row.order_id k j name free there (e ∙ sym f ∙ written)
]

Touch-unique : {db db' : Db} → IsErpUnique db → Touch db db' → IsErpUnique db'
unfolding IsErpUnique
Touch-unique {db} u t j k i r s at_j at_k e f =
    let rows_j = t.effect.syncs j in
    let rows_k = t.effect.syncs k in
    elim (Bool-cases (t.row.order_id == j)) [
      | inl a ↦ elim (Bool-cases (t.row.order_id == k)) [
        | inl b ↦ ground arith
        | inr b ↦
            let this : t.row' ≡ r = ground arith in
            let same : k ≡ t.row.order_id =
              changed_row t {s = s} u (ground arith) f (ap (λ x. x.odoo_sale_order_id) this ∙ e) in
            ground arith
      ]
      | inr a ↦ elim (Bool-cases (t.row.order_id == k)) [
        | inr b ↦ u j k i r s (ground arith) (ground arith) e f
        | inl b ↦
            let this : t.row' ≡ s = ground arith in
            let same : j ≡ t.row.order_id =
              changed_row t {s = r} u (ground arith) e (ap (λ x. x.odoo_sale_order_id) this ∙ f) in
            ground arith
      ]
    ]

-- No ERP order is ever recorded for two orders, whatever transactions run.
pub Reaches-IsErpUnique :
    {db db' : Db} → IsDbSound db → IsErpUnique db → Reaches db db' → IsErpUnique db'
Reaches-IsErpUnique s u start = u
Reaches-IsErpUnique s u (then_step path step) =
    let v = Reaches-IsErpUnique s u path in
    elim (step-Touch (Reaches-IsDbSound s path) step) [
      | inl e ↦ subst IsErpUnique (sym e) v
      | inr t ↦ Touch-unique v t
    ]
