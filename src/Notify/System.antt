-- ===== src/Notify/System.antt =====
-- The notification transactions as the steps of a system: any number of producers and transports,
-- each transaction at any time and with any argument.
use ops_flow_ai.Base.{
  ℕ, ◌≡◌, refl, ap, ◌∙◌, sym, subst, inl, inr, Bool, true, false, Option, none, some, List, [], ◌∷◌,
  String, arith, All, All-append, ok, ok-injective,
}
use ops_flow_ai.Base.Table.{
  find, Distinct, Distinct-put, Distinct-append, All-put, find-put, find-append, find-map,
  find_of_mem,
}
use ops_flow_ai.Domain.Records.{AuditEvent, ValidationIssue}
use ops_flow_ai.Domain.Order.{Order}
use ops_flow_ai.Store.{Db}
use ops_flow_ai.Notify.Contracts.{
  NotificationChannel, NotificationKind, NotificationStatus, delivered, failed_final,
  NotificationDelivery, NotificationClaim, NotificationOutcome, NotificationOutcomeResult,
  new_outcome,
}
use ops_flow_ai.Notify.Delivery.{
  finalized, finalize_expired_last_attempts, leased, claim_next_notification, get_delivery,
  save_delivery, record_notification_outcome,
}
use ops_flow_ai.Notify.Intents.{delivery_key, create_notification_intent}
use ops_flow_ai.Notify.Soundness.{IsDelivery, leased-IsDelivery}
use ops_flow_ai.Notify.Changes.{IsNotifySound, Change, added, updated, create-Change, settle-Change}
use ops_flow_ai.Notify.Claiming.{
  finalized_key, finalize-IsNotifySound, claimable_ready, row_sound, TakesFirst, claim_next_lem,
}

-- One transaction that was committed. An outcome is one that its constructor accepts.
pub data Step (db db' : Db) : Type 0 where
  create :
      (id : ℕ) (o : Order) (event : AuditEvent) (channel : NotificationChannel)
      (kind : NotificationKind) (url : String) (issues : List ValidationIssue)
      → create_notification_intent db id o event channel kind url issues ≡ ok db'
      → Step db db'
  claim :
      (now token : ℕ) (locked : ℕ → Bool) (c : Option NotificationClaim)
      → claim_next_notification db now locked token ≡ ok (c, db')
      → Step db db'
  settle :
      (now id : ℕ) (outcome : NotificationOutcome) (result : NotificationOutcomeResult)
      → new_outcome outcome ≡ ok outcome
      → record_notification_outcome db now id outcome ≡ ok (result, db')
      → Step db db'

pub data Reaches (db : Db) : Db → Type 0 where
  start : Reaches db db
  then_step : {db1 db2 : Db} → Reaches db db1 → Step db1 db2 → Reaches db db2

-- A change keeps the table sound, and a row that is settled as it is.
Change-IsNotifySound : {db db' : Db} → IsNotifySound db → Change db db' → IsNotifySound db'
unfolding get_delivery
Change-IsNotifySound {db} s (added d ok_row free e) = record {
  distinct =
      subst (Distinct delivery_key) (sym e)
        (Distinct-append delivery_key db.deliveries d s.distinct free);
  rows =
      subst (All IsDelivery) (sym e)
        (All-append IsDelivery db.deliveries (d ∷ []) s.rows (ok_row, tt));
}
Change-IsNotifySound {db} s (updated d d' there same waiting ok_row e) = record {
  distinct =
      subst (Distinct delivery_key) (sym e) (Distinct-put delivery_key d' db.deliveries s.distinct);
  rows =
      subst (All IsDelivery) (sym e)
        (All-put delivery_key IsDelivery d' db.deliveries s.rows ok_row);
}

abbrev pub is_settled : NotificationStatus → Bool
is_settled delivered = true
is_settled failed_final = true
is_settled _ = false

find_changed :
    {db db' : Db} (id : ℕ) {x : NotificationDelivery}
    → Change db db'
    → get_delivery db id ≡ some x
    → is_settled x.status ≡ true
    → get_delivery db' id ≡ some x
unfolding get_delivery
find_changed {db} {db'} id {x} (added d ok_row free e) there done =
    ap (find delivery_key id) e
    ∙ ground (arith, find-append delivery_key id db.deliveries (d ∷ []), there)
find_changed {db} {db'} id {x} (updated d d' was same waiting ok_row e) there done =
    ap (find delivery_key id) e
    ∙ ground (arith, find-put delivery_key id d' db.deliveries, there, was, same, waiting, done)

-- The steps of a transaction.
claim-Change :
    {db db' : Db} {now token : ℕ} {locked : ℕ → Bool} {c : NotificationClaim}
    → IsNotifySound db
    → TakesFirst db db' now token locked c
    → Change (finalize_expired_last_attempts db now) db'
unfolding get_delivery save_delivery
claim-Change {db} {db'} {now} {token} {locked} s t =
    let db1 = finalize_expired_last_attempts db now in
    let sound = finalize-IsNotifySound db now s in
    let (ready, few) = claimable_ready now locked t.row t.first.passes in
    updated t.row (leased t.row now token)
      (find_of_mem delivery_key db1.deliveries sound.distinct t.first.among) refl ready
      (leased-IsDelivery t.row now token (row_sound db1 sound t.first.among) few)
      (ap (λ d. d.deliveries) t.result)

find_finalized :
    (db : Db) (now id : ℕ) {x : NotificationDelivery}
    → get_delivery db id ≡ some x
    → is_settled x.status ≡ true
    → get_delivery (finalize_expired_last_attempts db now) id ≡ some x
unfolding get_delivery finalize_expired_last_attempts
find_finalized db now id there done =
    ground (
      arith,
      find-map delivery_key (finalized now) id db.deliveries (finalized_key now),
      there,
      done,
    )

-- Every transaction keeps the table sound and every settled row as it is.
Keeps : Db → Db → Type 0
Keeps db db' =
    IsNotifySound db'
    × ((id : ℕ) (x : NotificationDelivery)
        → get_delivery db id ≡ some x
        → is_settled x.status ≡ true
        → get_delivery db' id ≡ some x)

Change-Keeps : {db db' : Db} → IsNotifySound db → Change db db' → Keeps db db'
unfolding Keeps
Change-Keeps s c = (Change-IsNotifySound s c, λ id x there done. find_changed id c there done)

claimed-Keeps :
    (db : Db) (now token : ℕ) (locked : ℕ → Bool) {c : Option NotificationClaim} {db' : Db}
    → IsNotifySound db
    → claim_next_notification db now locked token ≡ ok (c, db')
    → Keeps db db'
unfolding Keeps
claimed-Keeps db now token locked {c} {db'} s h =
    let sound = finalize-IsNotifySound db now s in
    elim (claim_next_lem db now token locked s) [
      | inr (quiet, none_left) ↦
          let same : ◌≡◌ {A = Option NotificationClaim × Db}
              (none, finalize_expired_last_attempts db now) (c, db') =
            ok-injective (sym quiet ∙ h) in
          subst (Keeps db) (ap (λ p. p.1) same)
            (sound, λ id x there done. find_finalized db now id there done)
      | inl (d, db2, handed, t) ↦
          let same : ◌≡◌ {A = Option NotificationClaim × Db} (some d, db2) (c, db') =
            ok-injective (sym handed ∙ h) in
          let change = claim-Change s t in
          subst (Keeps db) (ap (λ p. p.1) same) (
            Change-IsNotifySound sound change,
            λ id x there done. find_changed id change (find_finalized db now id there done) done,
          )
    ]

step-Keeps : {db db' : Db} → IsNotifySound db → Step db db' → Keeps db db'
step-Keeps {db} s (create id o event channel kind url issues h) =
    Change-Keeps s (create-Change db id o event channel kind url issues h)
step-Keeps {db} s (claim now token locked c h) = claimed-Keeps db now token locked s h
step-Keeps {db} s (settle now id outcome result accepted h) =
    Change-Keeps s (settle-Change db now id outcome s accepted h)

-- Whatever transactions run, the table stays sound: ids are distinct, no row has more than three
-- attempts, a token and an expiry are there just while a row is CLAIMED, and a PENDING row has an
-- attempt left. A row that is DELIVERED or FAILED_FINAL never changes again.
pub Reaches-keeps :
    {db db' : Db}
    → IsNotifySound db
    → Reaches db db'
    → IsNotifySound db'
      × ((id : ℕ) (x : NotificationDelivery)
          → get_delivery db id ≡ some x
          → is_settled x.status ≡ true
          → get_delivery db' id ≡ some x)
unfolding Keeps
Reaches-keeps s start = (s, λ id x there done. there)
Reaches-keeps s (then_step path step) =
    let (sound, kept) = Reaches-keeps s path in
    let (sound', kept') = step-Keeps sound step in
    (sound', λ id x there done. kept' id x (kept id x there done) done)
