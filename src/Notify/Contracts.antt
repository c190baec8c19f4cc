-- ===== src/Notify/Contracts.antt =====
-- The contracts of src/opsflow/notifications/contracts.py. A row of `notification_deliveries` has
-- the fields of `NotificationDelivery`. A payload is the values that payloads.py formats.
use ops_flow_ai.Base.{
  ℕ, String, Bool, true, ◌&&◌, Option, none, some, leb, ltb, codes, length, is_none, is_some,
  Result, ok, value_error, ◌>>◌, guard,
}
use ops_flow_ai.Domain.State.{OrderState}

pub data NotificationChannel : Type 0 where
  slack gmail : NotificationChannel

pub data NotificationKind : Type 0 where
  review_required approval_ready processing_failed order_approved : NotificationKind

pub data NotificationStatus : Type 0 where
  pending claimed delivered failed_final : NotificationStatus

pub data NotificationFailureCode : Type 0 where
  rate_limited authentication_failed permission_denied target_not_found : NotificationFailureCode
  provider_unavailable timeout delivery_rejected unknown_failure : NotificationFailureCode

pub data Payload : Type 0 where
  slack_payload :
      (kind : NotificationKind) (order_id : ℕ) (state : OrderState) (issues : ℕ) (base_url : String)
      → Payload
  gmail_payload : (message_id : String) → Payload

pub record NotificationDelivery : Type 0 where
  pub id : ℕ
  pub order_id : ℕ
  pub trigger_audit_event_id : ℕ
  pub channel : NotificationChannel
  pub kind : NotificationKind
  pub payload : Payload
  pub status : NotificationStatus
  pub attempt_count : ℕ
  pub claim_token : Option ℕ
  pub claim_expires_at : Option ℕ
  pub next_attempt_at : ℕ
  pub provider_reference : Option String
  pub last_failure_code : Option NotificationFailureCode
  pub created_at : ℕ
  pub updated_at : ℕ

-- `len(value) <= 256`
unfoldable pub within_256 : String → Bool
within_256 s = leb (length (codes s)) 256

abbrev pub reference_ok : Option String → Bool
reference_ok none = true
reference_ok (some s) = within_256 s

abbrev pub claim_ok : NotificationStatus → Option ℕ → Option ℕ → ℕ → Bool
claim_ok claimed token expiry attempts = is_some token && is_some expiry && ltb 0 attempts
claim_ok _ token expiry attempts = is_none token && is_none expiry

-- `NotificationDelivery.__post_init__`
unfoldable pub new_delivery : NotificationDelivery → Result NotificationDelivery
new_delivery d = do
  guard (leb d.attempt_count 3) value_error
  guard (claim_ok d.status d.claim_token d.claim_expires_at d.attempt_count) value_error
  guard (reference_ok d.provider_reference) value_error
  ok d

pub record NotificationClaim : Type 0 where
  pub notification_id : ℕ
  pub channel : NotificationChannel
  pub kind : NotificationKind
  pub payload : Payload
  pub attempt_number : ℕ
  pub claim_token : ℕ
  pub claim_expires_at : ℕ

-- `NotificationClaim.__post_init__`
unfoldable pub new_claim : NotificationClaim → Result NotificationClaim
new_claim c = do guard (leb 1 c.attempt_number && leb c.attempt_number 3) value_error; ok c

-- A transport result; `NotificationOutcome.__post_init__` keeps the fields of the two kinds apart.
pub data NotificationOutcome : Type 0 where
  delivery_succeeded : (claim_token : ℕ) (provider_reference : Option String) → NotificationOutcome
  delivery_failed :
      (claim_token : ℕ) (failure_code : NotificationFailureCode) (retry_after_seconds : Option ℕ)
      → NotificationOutcome

-- `NotificationOutcome.__post_init__`
unfoldable pub new_outcome : NotificationOutcome → Result NotificationOutcome
new_outcome (delivery_succeeded token reference) = do
  guard (reference_ok reference) value_error
  ok (delivery_succeeded token reference)
new_outcome (delivery_failed token code none) = ok (delivery_failed token code none)
new_outcome (delivery_failed token code (some seconds)) = do
  guard (leb seconds 300) value_error
  ok (delivery_failed token code (some seconds))

pub record NotificationOutcomeResult : Type 0 where
  pub notification_id : ℕ
  pub status : NotificationStatus
  pub attempt_count : ℕ
  pub next_attempt_at : ℕ
  pub provider_reference : Option String
  pub last_failure_code : Option NotificationFailureCode

-- `NotificationOutcomeResult.__post_init__`
unfoldable pub new_result : NotificationOutcomeResult → Result NotificationOutcomeResult
new_result r = do
  guard (leb 1 r.attempt_count && leb r.attempt_count 3) value_error
  guard (reference_ok r.provider_reference) value_error
  ok r
