-- ===== src/Review/Access.antt =====
-- Who may do what, and on which version: src/opsflow/review/auth.py and
-- src/opsflow/review/concurrency.py. The entity tag is a parameter: `tag` stands for the SHA-256 of
-- the canonical text of a generation.
use ops_flow_ai.Base.{
  ℕ, zero, suc, String, Bool, true, false, not, ◌&&◌, ◌||◌, Option, none, some, List, [], ◌∷◌, ltb,
  leb, ◌==◌, str_eq, codes, any, Result, ok, err, forbidden, review_precondition_required,
  review_precondition_failed, order_not_found, ◌>>=◌, ◌>>◌, guard, or_raise,
}
use ops_flow_ai.Base.Select.{first_by}
use ops_flow_ai.Domain.State.{OrderState, needs_review, ready_for_approval, state_eq}
use ops_flow_ai.Domain.Records.{AuditEvent, ValidationSeverity}
use ops_flow_ai.Store.{PersistedOrder, Db, get_order}

pub data OperatorRole : Type 0 where
  reviewer approver elevated_approver : OperatorRole

pub record OperatorContext : Type 0 where
  pub actor : String
  pub role : OperatorRole

abbrev pub may_review : OperatorRole → Bool
may_review reviewer = true
may_review _ = false

-- `require_reviewer` and `require_retry`
unfoldable pub require_retry : OperatorContext → Result (Unit {0})
require_retry c = guard (may_review c.role) forbidden

abbrev pub may_approve : OperatorRole → Bool → Bool
may_approve elevated_approver high_value = true
may_approve approver high_value = not high_value
may_approve reviewer high_value = false

unfoldable pub require_approval : OperatorContext → Bool → Result (Unit {0})
require_approval c high_value = guard (may_approve c.role high_value) forbidden

abbrev pub may_reject : OperatorRole → OrderState → Bool
may_reject reviewer state = state_eq state needs_review
may_reject _ state = state_eq state ready_for_approval

unfoldable pub require_rejection : OperatorContext → OrderState → Result (Unit {0})
require_rejection c state = guard (may_reject c.role state) forbidden

-- What the entity tag is computed from; a review revision is its number and its id.
pub record Generation : Type 0 where
  pub order_id : ℕ
  pub state : OrderState
  pub failure_origin : Option OrderState
  pub revision : Option (ℕ × ℕ)
  pub latest_audit : Option ℕ

abbrev is_newer : AuditEvent → AuditEvent → Bool
is_newer a b = ltb b.occurred_at a.occurred_at || (a.occurred_at == b.occurred_at && ltb b.id a.id)

-- `get_latest_audit_event_id`
unfoldable pub get_latest_audit_event_id : Db → ℕ → Option ℕ
get_latest_audit_event_id db order_id =
    elim (first_by is_newer (λ e. e.order_id == order_id) db.audit) [
      | none ↦ none
      | some e ↦ some e.id
    ]

-- The arguments of `compute_review_etag`, as `_etag` gives them. The table of review revisions is
-- outside the database of the model: `revision` is its latest row for the order.
abbrev pub generation_of : PersistedOrder → Option (ℕ × ℕ) → Option ℕ → Generation
generation_of p revision latest_audit = record {
  order_id = p.order.id;
  state = p.order.state;
  failure_origin = p.order.failure_origin;
  revision = revision;
  latest_audit = latest_audit;
}

abbrev is_hex : ℕ → Bool
is_hex c = (leb b'0' c && leb c b'9') || (leb b'a' c && leb c b'f')

-- `count` digits and the closing quotation mark
hex_to_quote : ℕ → List ℕ → Bool
hex_to_quote zero (c ∷ []) = c == b'"'
hex_to_quote (suc count) (c ∷ cs) = let rest = hex_to_quote count cs in is_hex c && rest
hex_to_quote _ _ = false

quoted_hex : List ℕ → Bool
unfolding hex_to_quote
quoted_hex [] = false
quoted_hex (c ∷ cs) = c == b'"' && hex_to_quote 64 cs

-- `_STRONG_REVIEW_ETAG.fullmatch`
unfoldable pub is_strong_review_etag : String → Bool
unfolding quoted_hex
is_strong_review_etag s = quoted_hex (codes s)

-- `require_if_match`
unfoldable pub require_if_match : Option String → String → Result (Unit {0})
require_if_match none current = err review_precondition_required
require_if_match (some supplied) current =
    guard
      (is_strong_review_etag supplied && (is_strong_review_etag current && str_eq supplied current))
      review_precondition_failed

-- `_load_generation` with the check of the tag on it.
unfoldable pub require_generation :
    (Generation → String) → Db → ℕ → Option (ℕ × ℕ) → Option String → Result PersistedOrder
require_generation tag db order_id revision if_match = do
  p ← or_raise (get_order db order_id) order_not_found
  require_if_match if_match (tag (generation_of p revision (get_latest_audit_event_id db order_id)))
  ok p

abbrev is_warning : ValidationSeverity → Bool
is_warning ValidationSeverity.warning = true
is_warning _ = false

-- `_has_high_value_warning`
unfoldable pub has_high_value_warning : PersistedOrder → Bool
has_high_value_warning p =
    any (λ i. str_eq i.rule_code "HIGH_VALUE_APPROVAL_REQUIRED" && is_warning i.severity)
      p.validation_issues
