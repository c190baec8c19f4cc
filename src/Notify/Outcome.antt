-- ===== src/Notify/Outcome.antt =====
-- `record_notification_outcome`, on every branch.
use ops_flow_ai.Base.{
  ℕ, ◌+◌, ◌≤◌, ◌<◌, ◌≡◌, refl, inl, inr, Bool, true, false, Option, none, some, String, arith, leb,
  ◌==◌, ok, err, notification_not_found, stale_notification_claim, Bool-cases, if◌then◌else◌,
}
use Prim.Native.Nat.{max}
use ops_flow_ai.Store.{Db, seconds}
use ops_flow_ai.Notify.Contracts.{
  slack, pending, claimed, delivered, failed_final, NotificationDelivery, NotificationOutcome,
  delivery_succeeded, delivery_failed, new_outcome, new_result, reference_ok,
}
use ops_flow_ai.Notify.Delivery.{
  settle, undelivered, retried, outcome_token, is_current_lease, get_delivery, save_delivery,
  result_of, record_notification_outcome,
}
use ops_flow_ai.Notify.Intents.{channel_eq}
use ops_flow_ai.Notify.Soundness.{
  IsDelivery, asked, wish_bounded, retry_delay_seconds_lem,
  notification_delivery_from_model-IsDelivery,
}

abbrev pub is_success : NotificationOutcome → Bool
is_success (delivery_succeeded token reference) = true
is_success (delivery_failed token code retry_after) = false

-- What an outcome makes of a row that was claimed.
pub record Settled (d d' : NotificationDelivery) (outcome : NotificationOutcome) (now : ℕ)
    : Type 0 where
  pub sound : IsDelivery d'
  pub same_id : d'.id ≡ d.id
  pub same_attempts : d'.attempt_count ≡ d.attempt_count
  pub free : d'.claim_token ≡ none
  pub on_success : is_success outcome ≡ true → d'.status ≡ delivered
  pub on_last : is_success outcome ≡ false → 3 ≤ d.attempt_count → d'.status ≡ failed_final
  pub on_failure : is_success outcome ≡ false → d.attempt_count < 3 → d'.status ≡ pending
  pub waits :
      is_success outcome ≡ false
      → d.attempt_count < 3
      → (now + seconds 30 ≤ d'.next_attempt_at) × (d'.next_attempt_at ≤ now + seconds 300)

claimed_attempts :
    (d : NotificationDelivery) → IsDelivery d → d.status ≡ claimed → 0 < d.attempt_count
claimed_attempts d s e = ground arith

accepted_reference :
    (token : ℕ) (reference : Option String)
    → new_outcome (delivery_succeeded token reference) ≡ ok (delivery_succeeded token reference)
    → reference_ok reference ≡ true
unfolding new_outcome
accepted_reference token reference h = ground arith

retried_times :
    (n asked_for : ℕ)
    → max (if n == 1 then 30 else 120) asked_for ≤ 300
    → (now : ℕ)
    → (now + seconds 30 ≤ now + seconds (max (if n == 1 then 30 else 120) asked_for))
      × (now + seconds (max (if n == 1 then 30 else 120) asked_for) ≤ now + seconds 300)
retried_times n asked_for h now = (ground arith, ground arith)

settle_lem :
    (d : NotificationDelivery) (outcome : NotificationOutcome) (now : ℕ)
    → IsDelivery d
    → d.status ≡ claimed
    → new_outcome outcome ≡ ok outcome
    → (d' : NotificationDelivery) × (settle d outcome now ≡ ok d') × Settled d d' outcome now
unfolding settle
settle_lem d (delivery_succeeded token reference) now s e h = (
  _,
  refl,
  record {
    sound = record {
      attempts = s.attempts;
      claim = refl;
      reference = accepted_reference token reference h;
      pending_left = λ x. ground arith;
    };
    same_id = refl;
    same_attempts = refl;
    free = refl;
    on_success = λ x. refl;
    on_last = λ x. ground arith;
    on_failure = λ x. ground arith;
    waits = λ x. ground arith;
  },
)
settle_lem d (delivery_failed token code retry_after) now s e h =
    let outcome = delivery_failed token code retry_after in
    let is_slack = channel_eq d.channel slack in
    elim (Bool-cases (leb 3 d.attempt_count)) [
      | inl last ↦ (
        record (undelivered d code now) { status = failed_final },
        rw last refl,
        record {
          sound = record {
            attempts = s.attempts;
            claim = refl;
            reference = refl;
            pending_left = λ x. ground arith;
          };
          same_id = refl;
          same_attempts = refl;
          free = refl;
          on_success = λ x. ground arith;
          on_last = λ x y. refl;
          on_failure = λ x y. ground arith;
          waits = λ x y. ground arith;
        },
      )
      | inr early ↦
          let (delay, bound) =
            retry_delay_seconds_lem d.attempt_count is_slack retry_after
              (ground (arith, claimed_attempts d s e)) (wish_bounded is_slack outcome h) in
          (
            retried d code now
                (max (if d.attempt_count == 1 then 30 else 120) (asked is_slack retry_after)),
            rw (early, delay) refl,
            record {
              sound = record {
                attempts = s.attempts;
                claim = refl;
                reference = refl;
                pending_left = λ x. ground arith;
              };
              same_id = refl;
              same_attempts = refl;
              free = refl;
              on_success = λ x. ground arith;
              on_last = λ x y. ground arith;
              on_failure = λ x y. refl;
              waits = λ x y. retried_times d.attempt_count (asked is_slack retry_after) bound now;
            },
          )
    ]

result_accepted :
    (d : NotificationDelivery)
    → IsDelivery d
    → 0 < d.attempt_count
    → new_result (result_of d) ≡ ok (result_of d)
unfolding new_result
result_accepted d s h = ground arith

pub current_claimed :
    (d : NotificationDelivery) (token now : ℕ)
    → is_current_lease d token now ≡ true
    → d.status ≡ claimed
unfolding is_current_lease
current_claimed d token now h = ground arith

-- The outcome of a claim. Under the current claim the transaction is committed and returns the row:
-- DELIVERED after a success; after a failure FAILED_FINAL at the third attempt, and before that
-- PENDING again, to be tried in 30 to 300 seconds; the attempt count stays and the claim is given up.
-- A claim that is not current, by its token, the expiry or the status, is refused, and an id without
-- a row is not found.
pub record_outcome_lem :
    (db : Db) (now id : ℕ) (outcome : NotificationOutcome)
    → new_outcome outcome ≡ ok outcome
    → ((d : NotificationDelivery)
        → get_delivery db id ≡ some d
        → IsDelivery d
        → is_current_lease d (outcome_token outcome) now ≡ true
        → (d' : NotificationDelivery) × (record_notification_outcome db now id outcome
            ≡ ok (result_of d', save_delivery db d'))
          × Settled d d' outcome now)
      × ((d : NotificationDelivery)
          → get_delivery db id ≡ some d
          → is_current_lease d (outcome_token outcome) now ≡ false
          → record_notification_outcome db now id outcome ≡ err stale_notification_claim)
      × (get_delivery db id ≡ none
          → record_notification_outcome db now id outcome ≡ err notification_not_found)
unfolding record_notification_outcome
record_outcome_lem db now id outcome h = (
  λ d there s current.
      let claimed_it = current_claimed d (outcome_token outcome) now current in
      let (d', settled, t) = settle_lem d outcome now s claimed_it h in
      let attempts = claimed_attempts d s claimed_it in
      (
        d',
        rw
            (
              there,
              current,
              settled,
              notification_delivery_from_model-IsDelivery t.sound,
              result_accepted d' t.sound (ground (arith, t.same_attempts)),
            )
            refl,
        t,
      ),
  λ d there stale. rw (there, stale) refl,
  λ missing. rw missing refl,
)
