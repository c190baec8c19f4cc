-- ===== src/Tests/Notify.antt =====
-- Runs of the notification service, and its theorems applied to them.
use ops_flow_ai.Base.{◌≡◌, ◌⊎◌, ◌≤◌, refl, true, false, inr, none, some, [], ◌∷◌, arith, ok, Memᴰ}
use ops_flow_ai.Base.Table.{find, put}
use ops_flow_ai.Base.Select.{first_by}
use ops_flow_ai.Store.{Db}
use ops_flow_ai.Notify.Contracts.{
  NotificationDelivery, NotificationClaim, NotificationOutcome, delivery_failed, slack,
  NotificationKind, slack_payload, pending, rate_limited, new_outcome, new_delivery, new_claim,
}
use ops_flow_ai.Domain.State.{approved}
use ops_flow_ai.Notify.Delivery.{
  leased, claim_of, claim_next_notification, finalize_expired_last_attempts,
  claim_one_eligible_notification, lease_delivery, notification_delivery_from_model, save_delivery,
  get_delivery, record_notification_outcome, is_current_lease, result_of, retry_delay_seconds,
  is_claimable,
}
use ops_flow_ai.Notify.Soundness.{IsDelivery, retry_delay_seconds_lem}
use ops_flow_ai.Notify.Outcome.{Settled, record_outcome_lem}
use ops_flow_ai.Notify.Changes.{IsNotifySound}
use ops_flow_ai.Notify.Claiming.{TakesFirst, claim_next_lem}
use ops_flow_ai.Notify.System.{start, then_step, claim, Reaches-keeps}
use ops_flow_ai.Tests.Data.{nobody}

-- A Slack message that waits since time 5, and its claim by transport 80 at time 10.
abbrev waiting : NotificationDelivery
waiting = record {
  id = 3;
  order_id = 1;
  trigger_audit_event_id = 900;
  channel = slack;
  kind = NotificationKind.order_approved;
  payload = slack_payload NotificationKind.order_approved 1 approved 0 "https://ops";
  status = pending;
  attempt_count = 0;
  claim_token = none;
  claim_expires_at = none;
  next_attempt_at = 5;
  provider_reference = none;
  last_failure_code = none;
  created_at = 5;
  updated_at = 5;
}

abbrev db_of : NotificationDelivery → Db
db_of d = record {
  orders = [];
  syncs = [];
  deliveries = d ∷ [];
  audit = [];
  keys = [];
  snapshots = [];
}

abbrev the_claim : NotificationClaim
the_claim = claim_of (leased waiting 10 80) 80 300000010

claim_run :
    claim_next_notification (db_of waiting) 10 nobody 80
    ≡ ok (some the_claim, db_of (leased waiting 10 80))
unfolding claim_next_notification finalize_expired_last_attempts claim_one_eligible_notification
    first_by lease_delivery notification_delivery_from_model new_delivery new_claim save_delivery
    put
claim_run = refl

waiting-IsNotifySound : IsNotifySound (db_of waiting)
unfolding find
waiting-IsNotifySound = record {
  distinct = (refl, tt);
  rows = (
    record {
      attempts = omega arith;
      claim = refl;
      reference = refl;
      pending_left = λ h. omega arith;
    },
    tt,
  );
}

Reaches-keeps_example : IsNotifySound (db_of (leased waiting 10 80))
Reaches-keeps_example =
    let (sound, kept) =
      Reaches-keeps waiting-IsNotifySound
        (then_step start (claim 10 80 nobody (some the_claim) claim_run)) in
    sound

claim_next_lem_example :
    ((c : NotificationClaim) × (db' : Db) × (claim_next_notification (db_of waiting) 10 nobody 80
        ≡ ok (some c, db'))
      × TakesFirst (db_of waiting) db' 10 80 nobody c)
    ⊎ ((claim_next_notification (db_of waiting) 10 nobody 80
          ≡ ok (none, finalize_expired_last_attempts (db_of waiting) 10))
        × ((d : NotificationDelivery)
            → Memᴰ d (finalize_expired_last_attempts (db_of waiting) 10).deliveries
            → is_claimable 10 nobody d ≡ false))
claim_next_lem_example = claim_next_lem (db_of waiting) 10 80 nobody waiting-IsNotifySound

abbrev limited : NotificationOutcome
limited = delivery_failed 80 rate_limited (some 200)

limited_accepted : new_outcome limited ≡ ok limited
unfolding new_outcome
limited_accepted = refl

leased_there : get_delivery (db_of (leased waiting 10 80)) 3 ≡ some (leased waiting 10 80)
unfolding get_delivery find
leased_there = refl

leased-IsDelivery_run : IsDelivery (leased waiting 10 80)
leased-IsDelivery_run = record {
  attempts = omega arith;
  claim = refl;
  reference = refl;
  pending_left = λ h. ground arith;
}

lease_runs : is_current_lease (leased waiting 10 80) 80 50 ≡ true
unfolding is_current_lease
lease_runs = refl

record_outcome_lem_example :
    (d' : NotificationDelivery) × (record_notification_outcome
        (db_of (leased waiting 10 80))
        50
        3
        limited
      ≡ ok (result_of d', save_delivery (db_of (leased waiting 10 80)) d'))
    × Settled (leased waiting 10 80) d' limited 50
record_outcome_lem_example =
    let (on_current, on_stale, on_missing) =
      record_outcome_lem (db_of (leased waiting 10 80)) 50 3 limited limited_accepted in
    on_current (leased waiting 10 80) leased_there leased-IsDelivery_run lease_runs

retry_delay_seconds_lem_example : (retry_delay_seconds 2 true (some 200) ≡ ok 200) × (200 ≤ 300)
retry_delay_seconds_lem_example = retry_delay_seconds_lem 2 true (some 200) (inr refl) (omega arith)
