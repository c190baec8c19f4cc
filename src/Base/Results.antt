-- ===== src/Base/Results.antt =====
-- A Python function that may raise returns a `Result`. A database transaction that raises is
-- rolled back, so it returns its new state only in `ok`.
use mathlib.Core.Path.{◌≡◌, refl}
use mathlib.Core.Logic.{◌≢◌}
use mathlib.Core.Bool.{Bool, true, false}
use mathlib.Core.Option.{Option, none, some}

-- The exceptions of the modelled modules, without their messages.
pub data Error : Type 0 where
  -- ValueError, RuntimeError and AssertionError
  value_error runtime_error assertion_error : Error
  -- domain/errors.py
  domain_validation invalid_state_transition : Error
  -- application/errors.py
  order_not_found idempotency_conflict source_identity_mismatch : Error
  -- application/order_sync.py
  sync_not_found stale_sync_claim step_precondition sync_completion deadline_exceeded : Error
  -- notifications/service.py
  notification_not_found stale_notification_claim : Error
  -- the review commands
  forbidden invalid_review_state review_precondition_required : Error
  review_precondition_failed review_persistence_conflict invalid_rejection_reason : Error
  -- application/errors.py, for the validation of an order
  source_document_not_found source_ownership order_validation_state snapshot_replay : Error
  snapshot_conflict validation_facts_changed invalid_trusted_data business_data_provider : Error
  -- validation/business_data.py
  trusted_data_contract : Error
  -- orchestration/ownership.py
  stale_intake_ownership : Error
  -- IntegrityError of the database, with whether its constraint is one of the external receipts'
  integrity_error : Bool → Error
  -- IntegrityError on the primary key of the idempotency records
  duplicate_idempotency_key : Error

-- A value that was returned, or the exception that was raised.
pub data Result {ℓ} (A : Type ℓ) : Type ℓ where
  err : (raised : Error) → Result A
  ok : (returned : A) → Result A

-- `if x is None: raise error`
abbrev pub or_raise {ℓ} : {A : Type ℓ} → Option A → Error → Result A
or_raise (some x) error = ok x
or_raise none error = err error

-- `if not condition: raise error`
abbrev pub guard : Bool → Error → Result (Unit {0})
guard false error = err error
guard true error = ok tt

module _ {ℓ κ} {A : Type ℓ} {B : Type κ} where
  -- The statements that follow run only if nothing was raised.
  infixl 5 ◌>>=◌
  abbrev pub ◌>>=◌ : Result A → (A → Result B) → Result B
  err error >>= rest = err error
  ok x >>= rest = rest x

  -- What was returned at the end of a sequence was returned by its parts.
  pub >>=-eq-ok :
      (first : Result A) (rest : A → Result B) {y : B}
      → (first >>= rest) ≡ ok y
      → (x : A) × (first ≡ ok x) × (rest x ≡ ok y)
  >>=-eq-ok (err error) rest returned = cc
  >>=-eq-ok (ok x) rest returned = (x, refl, returned)

infixl 5 ◌>>◌
abbrev pub ◌>>◌ {κ} : {B : Type κ} → Result (Unit {0}) → Result B → Result B
check >> rest = check >>= λ done. rest

pub or_raise-eq-ok {ℓ} :
    {A : Type ℓ} (o : Option A) (e : Error) {a : A} → or_raise o e ≡ ok a → o ≡ some a
or_raise-eq-ok none e h = cc
or_raise-eq-ok (some b) e h = cc

pub guard-eq-ok : (b : Bool) (e : Error) {u : Unit {0}} → guard b e ≡ ok u → b ≡ true
guard-eq-ok true e h = refl
guard-eq-ok false e h = cc

pub ok-injective {ℓ} : {A : Type ℓ} {a b : A} → ok a ≡ ok b → a ≡ b
ok-injective h = cc

-- A sequence whose parts return a value returns one.
pub >>=-total {ℓ κ} :
    {A : Type ℓ} {B : Type κ} (m : Result A) (f : A → Result B) {a : A}
    → m ≡ ok a
    → (b : B) × (f a ≡ ok b)
    → (b : B) × ((m >>= f) ≡ ok b)
>>=-total m f h (b, e) = (b, rw h e)

pub err≢ok {ℓ} : {A : Type ℓ} {e : Error} {a : A} → err e ≢ ok a
err≢ok h = cc
