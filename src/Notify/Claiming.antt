-- ===== src/Notify/Claiming.antt =====
-- `claim_next_notification` of src/opsflow/notifications/service.py.
use ops_flow_ai.Base.{
  ℕ, ◌+◌, ◌≤◌, ◌<◌, ◌≡◌, refl, subst, ◌⊎◌, inl, inr, Bool, true, false, ◌&&◌, none, some, arith,
  Memᴰ, leb, ok, Option-cases, Bool-cases,
}
use ops_flow_ai.Base.Table.{Distinct-map, All-map, All-find, find_of_mem}
use ops_flow_ai.Base.Select.{IsOrder, IsFirst, Outcome, first_by, first_by-Outcome}
use ops_flow_ai.Store.{Db, seconds}
use ops_flow_ai.Notify.Contracts.{
  pending, claimed, NotificationDelivery, NotificationClaim, new_claim,
}
use ops_flow_ai.Notify.Delivery.{
  finalized, finalize_expired_last_attempts, is_claimable, is_before,
  claim_one_eligible_notification, leased, claim_of, lease_delivery, claim_next_notification,
  save_delivery,
}
use ops_flow_ai.Notify.Intents.{status_eq, delivery_key}
use ops_flow_ai.Notify.Soundness.{
  IsDelivery, finalized-IsDelivery, leased-IsDelivery, notification_delivery_from_model-IsDelivery,
}
use ops_flow_ai.Notify.Changes.{IsNotifySound}

-- The table after the exhausted leases have failed.
pub finalized_key : (now : ℕ) (d : NotificationDelivery) → (finalized now d).id ≡ d.id
finalized_key now d = ground arith

pub finalize-IsNotifySound :
    (db : Db) (now : ℕ) → IsNotifySound db → IsNotifySound (finalize_expired_last_attempts db now)
unfolding finalize_expired_last_attempts
finalize-IsNotifySound db now s = record {
  distinct = Distinct-map delivery_key (finalized now) db.deliveries (finalized_key now) s.distinct;
  rows =
      All-map delivery_key IsDelivery (finalized now) db.deliveries (finalized-IsDelivery now)
        s.rows;
}

before_itself : (r : NotificationDelivery) → is_before r r ≡ false
before_itself r = ground arith

before_asym : (r s : NotificationDelivery) → is_before s r ≡ true → is_before r s ≡ false
before_asym r s h = ground arith

not_before_trans :
    (r s t : NotificationDelivery)
    → is_before t s ≡ false
    → is_before s r ≡ false
    → is_before t r ≡ false
not_before_trans r s t h k = ground arith

is_before-IsOrder : IsOrder is_before
is_before-IsOrder = record {
  irrefl = before_itself;
  asym = before_asym;
  not_trans = not_before_trans;
}

pub claimable_ready :
    (now : ℕ) (locked : ℕ → Bool) (d : NotificationDelivery)
    → is_claimable now locked d ≡ true
    → ((d.status ≡ pending) ⊎ (d.status ≡ claimed)) × (d.attempt_count < 3)
claimable_ready now locked d h = (ground arith, ground arith)

pub row_sound :
    (db : Db) {d : NotificationDelivery} → IsNotifySound db → Memᴰ d db.deliveries → IsDelivery d
row_sound db {d} s m =
    All-find delivery_key IsDelivery d.id db.deliveries s.rows
      (find_of_mem delivery_key db.deliveries s.distinct m)

-- A claim on a selected sound row is written and handed out.
lease_delivery_lem :
    (db : Db) (now token : ℕ) (d : NotificationDelivery)
    → IsDelivery d
    → d.attempt_count < 3
    → (c : NotificationClaim) × (lease_delivery db now token d
        ≡ ok (c, save_delivery db (leased d now token)))
      × (c.notification_id ≡ d.id)
      × (c.attempt_number ≡ d.attempt_count + 1)
      × (c.claim_token ≡ token)
      × (c.claim_expires_at ≡ now + seconds 300)
unfolding lease_delivery new_claim
lease_delivery_lem db now token d s few =
    let written = leased d now token in
    let number : (leb 1 (d.attempt_count + 1) && leb (d.attempt_count + 1) 3) ≡ true =
      ground arith in
    (
      claim_of written token (now + seconds 300),
      rw (notification_delivery_from_model-IsDelivery (leased-IsDelivery d now token s few), number)
          refl,
      refl,
      refl,
      refl,
      refl,
    )

-- Sooner due, or due at the same time and created sooner, or created at the same time with an id that
-- is no larger.
abbrev pub IsNotAfter : NotificationDelivery → NotificationDelivery → Type 0
IsNotAfter a b =
    (a.next_attempt_at < b.next_attempt_at)
    ⊎ ((a.next_attempt_at ≡ b.next_attempt_at)
        × ((a.created_at < b.created_at) ⊎ ((a.created_at ≡ b.created_at) × (a.id ≤ b.id))))

not_before-IsNotAfter : (r s : NotificationDelivery) → is_before s r ≡ false → IsNotAfter r s
not_before-IsNotAfter r s h = ground arith

-- PENDING and due, or CLAIMED with a lease that is over.
abbrev pub IsReady : ℕ → NotificationDelivery → Type 0
IsReady now d =
    ((d.status ≡ pending) × (d.next_attempt_at ≤ now))
    ⊎ ((d.status ≡ claimed) × (t : ℕ) × (d.claim_expires_at ≡ some t) × (t ≤ now))

IsReady-of :
    (now : ℕ) (locked : ℕ → Bool) (d : NotificationDelivery)
    → is_claimable now locked d ≡ true
    → IsReady now d
IsReady-of now locked d h = elim (Option-cases d.claim_expires_at) [
  | inl e ↦ inl (ground arith, ground arith)
  | inr (t, e) ↦ elim (Bool-cases (status_eq d.status claimed)) [
    | inl c ↦ inr (ground arith, t, e, ground arith)
    | inr c ↦ inl (ground arith, ground arith)
  ]
]

-- The row that a claim takes in the table after the exhausted leases have failed.
pub record TakesFirst (db db' : Db) (now token : ℕ) (locked : ℕ → Bool) (c : NotificationClaim)
    : Type 0 where
  pub row : NotificationDelivery
  pub first :
      IsFirst is_before
        (is_claimable now locked)
        (finalize_expired_last_attempts db now).deliveries
        row
  pub ready : IsReady now row
  pub unlocked : locked row.id ≡ false
  pub not_after :
      (d : NotificationDelivery)
      → Memᴰ d (finalize_expired_last_attempts db now).deliveries
      → is_claimable now locked d ≡ true
      → IsNotAfter row d
  pub result : db' ≡ save_delivery (finalize_expired_last_attempts db now) (leased row now token)
  pub its_id : c.notification_id ≡ row.id
  pub its_attempt : c.attempt_number ≡ row.attempt_count + 1
  pub at_most_three : c.attempt_number ≤ 3
  pub its_token : c.claim_token ≡ token
  pub its_expiry : c.claim_expires_at ≡ now + seconds 300

-- A claim transaction on a sound table never raises. A claimable row, PENDING and due or CLAIMED with a
-- lease that is over, is leased for five minutes as its next attempt, which is at most the third; no
-- claimable row is due sooner, or at the same time and created sooner, or at the same times with a
-- smaller id. Where no row is claimable nothing is handed out.
pub claim_next_lem :
    (db : Db) (now token : ℕ) (locked : ℕ → Bool)
    → IsNotifySound db
    → ((c : NotificationClaim) × (db' : Db) × (claim_next_notification db now locked token
          ≡ ok (some c, db'))
        × TakesFirst db db' now token locked c)
      ⊎ ((claim_next_notification db now locked token
            ≡ ok (none, finalize_expired_last_attempts db now))
          × ((d : NotificationDelivery)
              → Memᴰ d (finalize_expired_last_attempts db now).deliveries
              → is_claimable now locked d ≡ false))
unfolding claim_next_notification claim_one_eligible_notification
claim_next_lem db now token locked s =
    let db1 = finalize_expired_last_attempts db now in
    let sound = finalize-IsNotifySound db now s in
    let found =
      first_by-Outcome is_before is_before-IsOrder (is_claimable now locked) db1.deliveries in
    elim (Option-cases (first_by is_before (is_claimable now locked) db1.deliveries)) [
      | inl e ↦ inr (
        rw (claim_next_notification, claim_one_eligible_notification, e) refl,
        subst (Outcome is_before (is_claimable now locked) db1.deliveries) e found,
      )
      | inr (d, e) ↦
          let first = subst (Outcome is_before (is_claimable now locked) db1.deliveries) e found in
          let (ready, few) = claimable_ready now locked d first.passes in
          let (c, done, its_id, its_attempt, its_token, its_expiry) =
            lease_delivery_lem db1 now token d (row_sound db1 sound first.among) few in
          inl (
            c,
            save_delivery db1 (leased d now token),
            rw (claim_next_notification, claim_one_eligible_notification, e, done) refl,
            record {
              row = d;
              first = first;
              ready = IsReady-of now locked d first.passes;
              unlocked = ground (arith, first.passes);
              not_after = λ x m h. not_before-IsNotAfter d x (first.first x m h);
              result = refl;
              its_id = its_id;
              its_attempt = its_attempt;
              at_most_three = ground arith;
              its_token = its_token;
              its_expiry = its_expiry;
            },
          )
    ]
