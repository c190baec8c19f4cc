-- ===== src/Notify/Changes.antt =====
-- The notification table between transactions, and what an intent and an outcome change in it:
-- src/opsflow/notifications/service.py.
use ops_flow_ai.Base.{
  ℕ, ◌≡◌, refl, ap, ◌∙◌, sym, subst, ◌⊎◌, inl, inr, false, not, none, some, List, [], ◌∷◌, ◌++◌,
  String, arith, All, any, ◌==◌, ok, value_error, integrity_error, >>=-eq-ok, err≢ok, ok-injective,
  guard, guard-eq-ok, Bool-cases, Option-cases,
}
use ops_flow_ai.Base.Table.{find, put, Distinct, All-find, find_key}
use ops_flow_ai.Domain.Records.{AuditEvent, ValidationIssue}
use ops_flow_ai.Domain.Order.{Order}
use ops_flow_ai.Store.{Db}
use ops_flow_ai.Notify.Contracts.{
  NotificationChannel, NotificationKind, pending, claimed, NotificationDelivery,
  NotificationOutcome, NotificationOutcomeResult, new_outcome, new_delivery,
}
use ops_flow_ai.Notify.Delivery.{
  get_delivery, save_delivery, outcome_token, is_current_lease, record_notification_outcome,
  result_of,
}
use ops_flow_ai.Notify.Intents.{
  delivery_key, new_notification, same_intent, insert_notification_delivery,
  create_notification_intent, payload_for,
}
use ops_flow_ai.Notify.Soundness.{IsDelivery, new_notification-IsDelivery}
use ops_flow_ai.Notify.Outcome.{record_outcome_lem, current_claimed}

-- The table of notifications between transactions.
pub record IsNotifySound (db : Db) : Type 0 where
  pub distinct : Distinct delivery_key db.deliveries
  pub rows : All IsDelivery db.deliveries

-- A changed row, or one more row, and the rest as it was.
pub data Change (db db' : Db) : Type 0 where
  added :
      (d : NotificationDelivery)
      → IsDelivery d
      → get_delivery db d.id ≡ none
      → db'.deliveries ≡ db.deliveries ++ d ∷ []
      → Change db db'
  updated :
      (d d' : NotificationDelivery)
      → get_delivery db d.id ≡ some d
      → d'.id ≡ d.id
      → (d.status ≡ pending) ⊎ (d.status ≡ claimed)
      → IsDelivery d'
      → db'.deliveries ≡ put delivery_key d' db.deliveries
      → Change db db'

not_there :
    (d : NotificationDelivery) (rows : List NotificationDelivery)
    → any (same_intent d) rows ≡ false
    → find delivery_key d.id rows ≡ none
unfolding find
not_there d [] h = refl
not_there d (x ∷ xs) h = ground (arith, not_there d xs (ground arith))

new_delivery_same :
    (d : NotificationDelivery) {e : NotificationDelivery} → new_delivery d ≡ ok e → e ≡ d
unfolding new_delivery
new_delivery_same d h = ground arith

pub create-Change :
    (db : Db) (id : ℕ) (o : Order) (event : AuditEvent) (channel : NotificationChannel)
    (kind : NotificationKind) (url : String) (issues : List ValidationIssue) {db' : Db}
    → create_notification_intent db id o event channel kind url issues ≡ ok db'
    → Change db db'
unfolding create_notification_intent insert_notification_delivery get_delivery
create-Change db id o event channel kind url issues {db'} h =
    let (u, belongs, h1) = >>=-eq-ok (guard (event.order_id == o.id) value_error) _ h in
    let (payload, rendered, h2) = >>=-eq-ok (payload_for channel kind o issues url) _ h1 in
    let d = new_notification id o event channel kind payload in
    let (e, built, h3) = >>=-eq-ok (new_delivery d) _ h2 in
    let (v, free, h4) =
      >>=-eq-ok (guard (not (any (same_intent e) db.deliveries)) (integrity_error false)) _ h3 in
    let same : e ≡ d = new_delivery_same d built in
    let fresh = guard-eq-ok _ _ free in
    added e
      (subst IsDelivery (sym same) (new_notification-IsDelivery id o event channel kind payload))
      (not_there e db.deliveries (ground arith)) (ap (λ x. x.deliveries) (sym (ok-injective h4)))

pub settle-Change :
    (db : Db) (now id : ℕ) (outcome : NotificationOutcome) {result : NotificationOutcomeResult}
    {db' : Db}
    → IsNotifySound db
    → new_outcome outcome ≡ ok outcome
    → record_notification_outcome db now id outcome ≡ ok (result, db')
    → Change db db'
unfolding get_delivery save_delivery
settle-Change db now id outcome {result} {db'} s accepted h =
    let (on_current, on_stale, on_missing) = record_outcome_lem db now id outcome accepted in
    elim (Option-cases (get_delivery db id)) [
      | inl missing ↦ absurd (err≢ok (sym (on_missing missing) ∙ h))
      | inr (d, there) ↦ elim (Bool-cases (is_current_lease d (outcome_token outcome) now)) [
        | inr stale ↦ absurd (err≢ok (sym (on_stale d there stale) ∙ h))
        | inl current ↦
            let key = find_key delivery_key id db.deliveries there in
            let (d', done, t) =
              on_current d there (All-find delivery_key IsDelivery id db.deliveries s.rows there)
                current in
            let same : ◌≡◌ {A = NotificationOutcomeResult × Db} (result_of d', save_delivery db d')
                (result, db') =
              ok-injective (sym done ∙ h) in
            updated d d' (ap (get_delivery db) key ∙ there) t.same_id
              (inr (current_claimed d (outcome_token outcome) now current)) t.sound
              (sym (ap (λ x. x.1.deliveries) same))
      ]
    ]

-- An intent leaves the orders and their synchronisation alone.
pub create-kept :
    (db : Db) (id : ℕ) (o : Order) (event : AuditEvent) (channel : NotificationChannel)
    (kind : NotificationKind) (url : String) (issues : List ValidationIssue) {db' : Db}
    → create_notification_intent db id o event channel kind url issues ≡ ok db'
    → (db'.orders ≡ db.orders) × (db'.syncs ≡ db.syncs)
unfolding create_notification_intent insert_notification_delivery
create-kept db id o event channel kind url issues h =
    let (u, belongs, h1) = >>=-eq-ok (guard (event.order_id == o.id) value_error) _ h in
    let (payload, rendered, h2) = >>=-eq-ok (payload_for channel kind o issues url) _ h1 in
    let d = new_notification id o event channel kind payload in
    let (e, built, h3) = >>=-eq-ok (new_delivery d) _ h2 in
    let (v, free, h4) =
      >>=-eq-ok (guard (not (any (same_intent e) db.deliveries)) (integrity_error false)) _ h3 in
    (ap (λ x. x.orders) (sym (ok-injective h4)), ap (λ x. x.syncs) (sym (ok-injective h4)))
