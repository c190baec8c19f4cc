-- ===== src/Notify/Delivery.antt =====
-- The notification service: src/opsflow/notifications/service.py over
-- src/opsflow/persistence/notification_repository.py. `now` is func.now().
use ops_flow_ai.Base.{
  ℕ, ◌+◌, Bool, false, not, ◌&&◌, ◌||◌, Option, none, some, map, leb, ltb, ◌==◌, opt_eq, is_some,
  Result, ok, err, value_error, domain_validation, notification_not_found, stale_notification_claim,
  ◌>>=◌, ◌>>◌, guard, or_raise, if◌then◌else◌,
}
use Prim.Native.Nat.{max, min}
use ops_flow_ai.Base.Table.{find, put}
use ops_flow_ai.Base.Select.{first_by}
use ops_flow_ai.Store.{Db, seconds}
use ops_flow_ai.Notify.Contracts.{
  slack, pending, claimed, delivered, failed_final, NotificationFailureCode, NotificationDelivery,
  new_delivery, NotificationClaim, new_claim, NotificationOutcome, delivery_succeeded,
  delivery_failed, NotificationOutcomeResult, new_result,
}
use ops_flow_ai.Notify.Intents.{status_eq, channel_eq, delivery_key}

abbrev pub expired_by : NotificationDelivery → ℕ → Bool
expired_by d now = elim d.claim_expires_at [ none ↦ false | some t ↦ leb t now ]

abbrev pub finalized : ℕ → NotificationDelivery → NotificationDelivery
finalized now d =
    if status_eq d.status claimed && (d.attempt_count == 3 && expired_by d now)
    then record d {
      status = failed_final;
      claim_token = none;
      claim_expires_at = none;
      updated_at = now;
    }
    else d

-- `finalize_expired_last_attempts`
unfoldable pub finalize_expired_last_attempts : Db → ℕ → Db
finalize_expired_last_attempts db now = record db { deliveries = map (finalized now) db.deliveries }

-- The WHERE clause of `claim_one_eligible_notification`; SKIP LOCKED passes over the locked rows.
abbrev pub is_claimable : ℕ → (ℕ → Bool) → NotificationDelivery → Bool
is_claimable now locked d =
    not (locked d.id)
    && ((status_eq d.status pending && (ltb d.attempt_count 3 && leb d.next_attempt_at now))
        || (status_eq d.status claimed && (expired_by d now && ltb d.attempt_count 3)))

-- ORDER BY next_attempt_at, created_at, id
abbrev pub is_before : NotificationDelivery → NotificationDelivery → Bool
is_before a b =
    ltb a.next_attempt_at b.next_attempt_at
    || (a.next_attempt_at == b.next_attempt_at
        && (ltb a.created_at b.created_at || (a.created_at == b.created_at && ltb a.id b.id)))

unfoldable pub claim_one_eligible_notification : Db → ℕ → (ℕ → Bool) → Option NotificationDelivery
claim_one_eligible_notification db now locked =
    first_by is_before (is_claimable now locked) db.deliveries

abbrev pub leased : NotificationDelivery → ℕ → ℕ → NotificationDelivery
leased d now token = record d {
  status = claimed;
  attempt_count = d.attempt_count + 1;
  claim_token = some token;
  claim_expires_at = some (now + seconds 300);
  updated_at = now;
}

-- `notification_delivery_from_model`: the contract's ValueError becomes a domain error.
unfoldable pub notification_delivery_from_model : NotificationDelivery → Result NotificationDelivery
notification_delivery_from_model d = elim (new_delivery d) [
  | ok e ↦ ok e
  | err e ↦ err domain_validation
]

-- `get_notification_delivery_for_update`
unfoldable pub get_delivery : Db → ℕ → Option NotificationDelivery
get_delivery db id = find delivery_key id db.deliveries

unfoldable pub save_delivery : Db → NotificationDelivery → Db
save_delivery db d = record db { deliveries = put delivery_key d db.deliveries }

abbrev pub claim_of : NotificationDelivery → ℕ → ℕ → NotificationClaim
claim_of d token expires = record {
  notification_id = d.id;
  channel = d.channel;
  kind = d.kind;
  payload = d.payload;
  attempt_number = d.attempt_count;
  claim_token = token;
  claim_expires_at = expires;
}

-- The mutation of the selected row, flushed and read back.
unfoldable pub lease_delivery : Db → ℕ → ℕ → NotificationDelivery → Result (NotificationClaim × Db)
lease_delivery db now token row = do
  d ← notification_delivery_from_model (leased row now token)
  expires ← or_raise d.claim_expires_at value_error
  c ← new_claim (claim_of d token expires)
  ok (c, save_delivery db (leased row now token))

abbrev pub as_some : NotificationClaim × Db → Result (Option NotificationClaim × Db)
as_some (c, db) = ok (some c, db)

-- `claim_next_notification`
unfoldable pub claim_next_notification :
    Db → ℕ → (ℕ → Bool) → ℕ → Result (Option NotificationClaim × Db)
claim_next_notification db now locked token =
    let db1 = finalize_expired_last_attempts db now in
    elim (claim_one_eligible_notification db1 now locked) [
      | none ↦ ok (none, db1)
      | some row ↦ lease_delivery db1 now token row >>= as_some
    ]

-- `_retry_delay_seconds`
unfoldable pub retry_delay_seconds : ℕ → Bool → Option ℕ → Result ℕ
retry_delay_seconds attempt_count is_slack retry_after = do
  base_delay ←
      (if attempt_count == 1 then ok 30 else if attempt_count == 2 then ok 120 else err value_error)
  elim retry_after [
    | none ↦ ok base_delay
    | some s ↦
        if is_slack
        then (guard (leb s 300) value_error >> ok (max base_delay (min s 300)))
        else ok base_delay
  ]

abbrev pub outcome_token : NotificationOutcome → ℕ
outcome_token (delivery_succeeded token reference) = token
outcome_token (delivery_failed token code retry_after) = token

-- The claim is current: the row is CLAIMED under that token, and the lease runs.
unfoldable pub is_current_lease : NotificationDelivery → ℕ → ℕ → Bool
is_current_lease d token now =
    status_eq d.status claimed
    && (opt_eq ◌==◌ d.claim_token (some token)
        && (is_some d.claim_expires_at && not (expired_by d now)))

abbrev pub released : NotificationDelivery → ℕ → NotificationDelivery
released d now = record d { claim_token = none; claim_expires_at = none; updated_at = now }

abbrev pub undelivered : NotificationDelivery → NotificationFailureCode → ℕ → NotificationDelivery
undelivered d code now = record (released d now) {
  provider_reference = none;
  last_failure_code = some code;
}

abbrev pub retried : NotificationDelivery → NotificationFailureCode → ℕ → ℕ → NotificationDelivery
retried d code now delay = record (undelivered d code now) {
  status = pending;
  next_attempt_at = now + seconds delay;
}

-- The row after an outcome.
unfoldable pub settle : NotificationDelivery → NotificationOutcome → ℕ → Result NotificationDelivery
settle d (delivery_succeeded token reference) now = ok (record (released d now) {
  status = delivered;
  provider_reference = reference;
  last_failure_code = none;
})
settle d (delivery_failed token code retry_after) now =
    if leb 3 d.attempt_count
    then ok (record (undelivered d code now) { status = failed_final })
    else do
      delay ← retry_delay_seconds d.attempt_count (channel_eq d.channel slack) retry_after
      ok (retried d code now delay)

abbrev pub result_of : NotificationDelivery → NotificationOutcomeResult
result_of d = record {
  notification_id = d.id;
  status = d.status;
  attempt_count = d.attempt_count;
  next_attempt_at = d.next_attempt_at;
  provider_reference = d.provider_reference;
  last_failure_code = d.last_failure_code;
}

-- `record_notification_outcome`
unfoldable pub record_notification_outcome :
    Db → ℕ → ℕ → NotificationOutcome → Result (NotificationOutcomeResult × Db)
record_notification_outcome db now id outcome = do
  row ← or_raise (get_delivery db id) notification_not_found
  guard (is_current_lease row (outcome_token outcome) now) stale_notification_claim
  settled ← settle row outcome now
  d ← notification_delivery_from_model settled
  result ← new_result (result_of d)
  ok (result, save_delivery db settled)
