-- ===== src/Application/Committed.antt =====
-- What a committed `validate_order` (src/opsflow/application/validation.py) went through.
use ops_flow_ai.Base.{
  ℕ, ◌==◌, ==_iff, String, ◌≡◌, ap, ◌∙◌, subst, true, some, Option, ok, arith, Result, length,
  order_not_found, validation_facts_changed, trusted_data_contract, or_raise, guard, >>=-eq-ok,
  or_raise-eq-ok, guard-eq-ok, ok-injective, err, err≢ok,
}
use ops_flow_ai.Domain.State.{OrderState, extracted, state_eq}
use ops_flow_ai.Domain.Order.{Order}
use ops_flow_ai.Validation.Draft.{ExtractionDraft}
use ops_flow_ai.Validation.Models.{
  ValidationResult, ValidationFacts, TrustedBusinessData, BusinessDataLookupRequest,
  new_lookup_request,
}
use ops_flow_ai.Store.{PersistedOrder, Db, get_order}
use ops_flow_ai.Store.Laws.{get_order_key}
use ops_flow_ai.Store.Facts.{build_validation_facts}
use ops_flow_ai.Store.Writes.{Writes}
use ops_flow_ai.Intake.Kinds.{require_current_intake_ownership}
use ops_flow_ai.Application.Contract.{validate_trusted_business_data}
use ops_flow_ai.Application.Checks.{
  request_of, require_owned_source, require_source_identity, require_extracted_state,
  require_validatable, or_data_error, get_trusted_business_data,
}
use ops_flow_ai.Application.Validation.{FreshIds, facts_eq, routed_order, commit_validation}
use ops_flow_ai.Application.Routing.{IsRouted}
use ops_flow_ai.Application.Stored.{stored, save_validation_inv}

facts_eq-eq : (a b : ValidationFacts) → facts_eq a b ≡ true → a ≡ b
facts_eq-eq a b h = ground arith

state_is : (s : OrderState) → state_eq s extracted ≡ true → s ≡ extracted
state_is s h = ground arith

-- The order passed the checks in the state EXTRACTED.
require_validatable_inv :
    (db : Db) (p : PersistedOrder) (source_id : ℕ) (draft : ExtractionDraft) {u : Unit {0}}
    → require_validatable db p source_id draft ≡ ok u
    → p.order.state ≡ extracted
unfolding require_validatable require_extracted_state
require_validatable_inv db p source_id draft h =
    let (document, owned, h1) = >>=-eq-ok (require_owned_source db p source_id) _ h in
    let (_, identity, h2) = >>=-eq-ok (require_source_identity document draft) _ h1 in
    let (_, state, h3) = >>=-eq-ok (require_extracted_state p) _ h2 in
    state_is p.order.state (guard-eq-ok _ _ state)

-- Data that were loaded have a product result for each line.
contract_length :
    (draft : ExtractionDraft) (trusted : TrustedBusinessData) {u : Unit {0}}
    → validate_trusted_business_data draft trusted ≡ ok u
    → length trusted.products_by_line ≡ length draft.lines
unfolding validate_trusted_business_data
contract_length draft trusted h =
    let (_, counted, _) =
      >>=-eq-ok
        (guard (length trusted.products_by_line == length draft.lines) trusted_data_contract) _ h in
    (==_iff _ _).0 (guard-eq-ok _ _ counted)

or_data_error_inv :
    (m : Result TrustedBusinessData) {t : TrustedBusinessData} → or_data_error m ≡ ok t → m ≡ ok t
or_data_error_inv (ok x) h = h
or_data_error_inv (err e) h = absurd (err≢ok h)

pub loaded_length :
    (provider : BusinessDataLookupRequest → Result TrustedBusinessData) (draft : ExtractionDraft)
    {trusted : TrustedBusinessData}
    → get_trusted_business_data provider draft ≡ ok trusted
    → length trusted.products_by_line ≡ length draft.lines
unfolding get_trusted_business_data
loaded_length provider draft {trusted} h =
    let (request, made, h1) = >>=-eq-ok (new_lookup_request (request_of draft)) _ h in
    let (t, answered, h2) = >>=-eq-ok (provider request) _ (or_data_error_inv _ h1) in
    let (_, checked, h3) = >>=-eq-ok (validate_trusted_business_data draft t) _ h2 in
    subst (λ t. length t.products_by_line ≡ length draft.lines) (ok-injective h3)
      (contract_length draft t checked)

-- The transaction behind a commit.
pub record Committed (db : Db) (order_id source_id : ℕ) (draft : ExtractionDraft)
    (reference : Option String) (facts : ValidationFacts) (token : Option ℕ) (clock line : ℕ)
    (result : ValidationResult) (final : Order) (db' : Db) : Type 0 where
  pub p : PersistedOrder
  pub there : get_order db order_id ≡ some p
  pub owned : (u : Unit {0}) × (require_current_intake_ownership p token clock ≡ ok u)
  pub was_extracted : p.order.state ≡ extracted
  pub facts_now :
      build_validation_facts db order_id source_id reference draft.po_number draft.source_sha256
      ≡ ok facts
  pub routed : routed_order p.order result line ≡ ok final
  pub is_routed : IsRouted p.order result final
  pub writes : Writes db db' (stored p final result)

pub commit_validation_inv :
    (db : Db) (order_id source_id : ℕ) (draft : ExtractionDraft) (reference : Option String)
    (facts : ValidationFacts) (result : ValidationResult) (token : Option ℕ) (clock : ℕ)
    (ids : FreshIds) (recorded_at : ℕ) (url : String) {final : Order} {db' : Db}
    → commit_validation db order_id source_id draft reference facts result token clock ids
        recorded_at url
      ≡ ok (final, db')
    → Committed db order_id source_id draft reference facts token clock ids.line result final db'
unfolding commit_validation
commit_validation_inv db order_id source_id draft reference facts result token clock ids recorded_at
      url {final} {db'} h =
    let (p, locked, k1) = >>=-eq-ok (or_raise (get_order db order_id) order_not_found) _ h in
    let (o, owned, k2) = >>=-eq-ok (require_current_intake_ownership p token clock) _ k1 in
    let (v, checked, k3) = >>=-eq-ok (require_validatable db p source_id draft) _ k2 in
    let (fresh, facts_now, k4) =
      >>=-eq-ok
        (build_validation_facts db order_id source_id reference draft.po_number draft.source_sha256)
        _ k3 in
    let (w, same_facts, k5) =
      >>=-eq-ok (guard (facts_eq fresh facts) validation_facts_changed) _ k4 in
    let there : get_order db order_id ≡ some p = or_raise-eq-ok _ _ locked in
    let key = get_order_key db order_id there in
    let (routed, is_routed, writes) =
      save_validation_inv db p source_id draft result ids recorded_at url
        (ap (get_order db) key ∙ there) k5 in
    record {
      p = p;
      there = there;
      owned = (o, owned);
      was_extracted = require_validatable_inv db p source_id draft checked;
      facts_now = facts_now ∙ ap ok (facts_eq-eq fresh facts (guard-eq-ok _ _ same_facts));
      routed = routed;
      is_routed = is_routed;
      writes = writes;
    }
