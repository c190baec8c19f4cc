-- ===== src/Notify/Soundness.antt =====
-- What holds of a notification row between transactions, and what each operation does to it.
use ops_flow_ai.Base.{
  ℕ, ◌≤◌, ◌<◌, ◌≡◌, ◌⊎◌, Bool, true, false, Option, none, some, arith, ok, if◌then◌else◌, ◌==◌,
}
use Prim.Native.Nat.{max}
use ops_flow_ai.Domain.Records.{AuditEvent}
use ops_flow_ai.Domain.Order.{Order}
use ops_flow_ai.Notify.Contracts.{
  NotificationChannel, NotificationKind, pending, Payload, NotificationDelivery,
  NotificationOutcome, delivery_succeeded, delivery_failed, new_outcome, new_delivery, reference_ok,
  claim_ok,
}
use ops_flow_ai.Notify.Delivery.{
  finalized, leased, retry_delay_seconds, notification_delivery_from_model,
}
use ops_flow_ai.Notify.Intents.{new_notification}

-- The contract of `NotificationDelivery`, and that a row still to be sent has an attempt left.
pub record IsDelivery (d : NotificationDelivery) : Type 0 where
  pub attempts : d.attempt_count ≤ 3
  pub claim : claim_ok d.status d.claim_token d.claim_expires_at d.attempt_count ≡ true
  pub reference : reference_ok d.provider_reference ≡ true
  pub pending_left : d.status ≡ pending → d.attempt_count < 3

pub new_notification-IsDelivery :
    (id : ℕ) (o : Order) (event : AuditEvent) (channel : NotificationChannel)
    (kind : NotificationKind) (payload : Payload)
    → IsDelivery (new_notification id o event channel kind payload)
new_notification-IsDelivery id o event channel kind payload = ground arith

pub finalized-IsDelivery :
    (now : ℕ) (d : NotificationDelivery) → IsDelivery d → IsDelivery (finalized now d)
finalized-IsDelivery now d s = ground arith

pub leased-IsDelivery :
    (d : NotificationDelivery) (now token : ℕ)
    → IsDelivery d
    → d.attempt_count < 3
    → IsDelivery (leased d now token)
leased-IsDelivery d now token s h = ground arith

pub notification_delivery_from_model-IsDelivery :
    {d : NotificationDelivery} → IsDelivery d → notification_delivery_from_model d ≡ ok d
unfolding notification_delivery_from_model new_delivery
notification_delivery_from_model-IsDelivery s = ground arith

-- How long an outcome asks to wait, as far as it is heard: only Slack's wish is.
abbrev pub asked : Bool → Option ℕ → ℕ
asked true (some s) = s
asked _ _ = 0

-- The delay after the first or the second attempt is 30 or 120 seconds, or what Slack asked for if
-- that is longer, and never more than 300.
pub retry_delay_seconds_lem :
    (attempt_count : ℕ) (is_slack : Bool) (retry_after : Option ℕ)
    → (attempt_count ≡ 1) ⊎ (attempt_count ≡ 2)
    → asked is_slack retry_after ≤ 300
    → (retry_delay_seconds attempt_count is_slack retry_after
        ≡ ok (max (if attempt_count == 1 then 30 else 120) (asked is_slack retry_after)))
      × (max (if attempt_count == 1 then 30 else 120) (asked is_slack retry_after) ≤ 300)
unfolding retry_delay_seconds
retry_delay_seconds_lem attempt_count true (some s) h k = (ground arith, ground arith)
retry_delay_seconds_lem attempt_count false (some s) h k = (ground arith, ground arith)
retry_delay_seconds_lem attempt_count true none h k = (ground arith, ground arith)
retry_delay_seconds_lem attempt_count false none h k = (ground arith, ground arith)

-- A wish that `NotificationOutcome` accepts.
abbrev pub wish : NotificationOutcome → Option ℕ
wish (delivery_succeeded token reference) = none
wish (delivery_failed token code retry_after) = retry_after

pub wish_bounded :
    (is_slack : Bool) (outcome : NotificationOutcome)
    → new_outcome outcome ≡ ok outcome
    → asked is_slack (wish outcome) ≤ 300
unfolding new_outcome
wish_bounded is_slack (delivery_succeeded token reference) h = ground arith
wish_bounded false (delivery_failed token code retry_after) h = ground arith
wish_bounded true (delivery_failed token code none) h = ground arith
wish_bounded true (delivery_failed token code (some s)) h = ground arith
