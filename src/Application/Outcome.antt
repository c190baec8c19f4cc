-- ===== src/Application/Outcome.antt =====
-- What `validate_order` of src/opsflow/application/validation.py guarantees once it is committed.
use ops_flow_ai.Base.{
  ℕ, ◌==◌, String, ◌≡◌, sym, ap, ◌∙◌, subst, ◌↔◌, ◌⊎◌, some, Option, ok, arith, Result,
  order_not_found, or_raise, >>=-eq-ok, ok-injective, if◌then◌else◌,
}
use ops_flow_ai.Domain.State.{OrderState, extracted}
use ops_flow_ai.Domain.Order.{Order}
use ops_flow_ai.Validation.Draft.{ExtractionDraft}
use ops_flow_ai.Validation.Models.{
  ready_for_approval, ValidationResult, ValidationFacts, ValidationContext, ValidationPolicy,
  TrustedBusinessData, BusinessDataLookupRequest,
}
use ops_flow_ai.Validation.Engine.{validate}
use ops_flow_ai.Validation.Acceptance.{IsAcceptable}
use ops_flow_ai.Validation.Inputs.{paired, AreChecked}
use ops_flow_ai.Validation.Verdict.{validate-IsAcceptable}
use ops_flow_ai.Store.{PersistedOrder, Db, get_order}
use ops_flow_ai.Store.Facts.{build_validation_facts}
use ops_flow_ai.Sync.Contracts.{OrderSync}
use ops_flow_ai.Sync.Soundness.{IsSound}
use ops_flow_ai.Sync.System.{IsDbSound}
use ops_flow_ai.Sync.OrderWrites.{Writes-IsDbSound}
use ops_flow_ai.Store.Laws.{get_order_key}
use ops_flow_ai.Application.Checks.{
  require_validatable, get_trusted_business_data, canonical_customer_reference,
}
use ops_flow_ai.Application.Validation.{FreshIds, commit_validation, validate_order}
use ops_flow_ai.Application.Routing.{IsRouted}
use ops_flow_ai.Application.Stored.{stored}
use ops_flow_ai.Application.Committed.{loaded_length, Committed, commit_validation_inv}

-- The state that a routed order is in says whether the route is READY_FOR_APPROVAL.
ready_route :
    (o : Order) (result : ValidationResult) (q : Order)
    → IsRouted o result q
    → (q.state ≡ OrderState.ready_for_approval) ↔ (result.route ≡ ready_for_approval)
ready_route o result q r = ground (arith, r.to_route)

-- A row of an order in EXTRACTED goes with whatever state validation leads to.
routed-IsSound :
    {o q : Order} {r : OrderSync} (result : ValidationResult)
    → IsRouted o result q
    → o.state ≡ extracted
    → IsSound o r
    → IsSound q r
routed-IsSound result i e s = ground (arith, i.is_valid, i.to_route)

module _ (provider : BusinessDataLookupRequest → Result TrustedBusinessData)
    (policy : ValidationPolicy) (context : ValidationContext) (seen seen_later db : Db)
    (order_id source_id : ℕ) (draft : ExtractionDraft) (token : Option ℕ) (clock : ℕ)
    (ids : FreshIds) (recorded_at : ℕ) (url : String) where
  -- The data and facts that a committed validation used.
  record Used (final : Order) (result : ValidationResult) (db' : Db) : Type 0 where
    trusted : TrustedBusinessData
    facts : ValidationFacts
    loaded : get_trusted_business_data provider draft ≡ ok trusted
    verdict : validate draft trusted facts policy context ≡ ok result
    commit :
        Committed db order_id source_id draft
          (canonical_customer_reference trusted)
          facts
          token
          clock
          ids.line
          result
          final
          db'

  validate_order_inv :
      {final : Order} {result : ValidationResult} {db' : Db}
      → validate_order provider policy context seen seen_later db order_id source_id draft token
          clock ids recorded_at url
        ≡ ok (final, result, db')
      → Used final result db'
  unfolding validate_order
  validate_order_inv {final} {result} {db'} h =
      let (p0, there0, h1) = >>=-eq-ok (or_raise (get_order seen order_id) order_not_found) _ h in
      let (_, checked0, h2) = >>=-eq-ok (require_validatable seen p0 source_id draft) _ h1 in
      let (trusted, loaded, h3) = >>=-eq-ok (get_trusted_business_data provider draft) _ h2 in
      let reference = canonical_customer_reference trusted in
      let (facts, facts_then, h4) =
        >>=-eq-ok
          (build_validation_facts seen_later order_id source_id reference draft.po_number
            draft.source_sha256)
          _ h3 in
      let (r, verdict, h5) = >>=-eq-ok (validate draft trusted facts policy context) _ h4 in
      let (out, committed, h6) =
        >>=-eq-ok
          (commit_validation db order_id source_id draft reference facts r token clock ids
            recorded_at url)
          _ h5 in
      let c =
        commit_validation_inv db order_id source_id draft reference facts r token clock ids
          recorded_at url committed in
      let same : ◌≡◌ {A = Order × ValidationResult × Db} (out.0, r, out.1) (final, result, db') =
        ok-injective h6 in
      subst (λ (x : Order × ValidationResult × Db). Used x.0 x.1 x.2) same
        (record {
          trusted = trusted;
          facts = facts;
          loaded = loaded;
          verdict = verdict;
          commit = c;
        })

  -- A committed validation found the order EXTRACTED under the lock, and decided on the provider's
  -- answer and on the duplicate facts as they are in the database that it commits to: it leaves the
  -- order READY_FOR_APPROVAL if the draft is acceptable by them, and NEEDS_REVIEW if not, given that
  -- the answer passed its constructors and the texts of the draft are not blank.
  pub validate_order_lem :
      ((t : TrustedBusinessData)
        → get_trusted_business_data provider draft ≡ ok t
        → AreChecked draft t policy)
      → {final : Order} {result : ValidationResult} {db' : Db}
      → validate_order provider policy context seen seen_later db order_id source_id draft token
          clock ids recorded_at url
        ≡ ok (final, result, db')
      → (p : PersistedOrder) × (trusted : TrustedBusinessData) × (facts : ValidationFacts)
        × (get_order db order_id ≡ some p)
        × (p.order.state ≡ extracted)
        × (get_trusted_business_data provider draft ≡ ok trusted)
        × (build_validation_facts db order_id source_id
              (canonical_customer_reference trusted)
              draft.po_number
              draft.source_sha256
            ≡ ok facts)
        × ((final.state ≡ OrderState.ready_for_approval) ⊎ (final.state ≡ OrderState.needs_review))
        × ((final.state ≡ OrderState.ready_for_approval)
            ↔ IsAcceptable draft (paired draft trusted) trusted facts policy context)
  validate_order_lem checked {final} {result} {db'} h =
      let u = validate_order_inv h in
      let c = u.commit in
      let (r, ran, route, _) =
        validate-IsAcceptable draft u.trusted u.facts policy context (checked u.trusted u.loaded)
          (loaded_length provider draft u.loaded) in
      let same : r ≡ result = ok-injective (sym ran ∙ u.verdict) in
      let (to, from) = ready_route c.p.order result final c.is_routed in
      let (there, back) =
        subst
          (λ r.
            (r.route ≡ ready_for_approval)
            ↔ IsAcceptable draft (paired draft u.trusted) u.trusted u.facts policy context)
          same route in
      let ends : (final.state ≡ OrderState.ready_for_approval)
          ⊎ (final.state ≡ OrderState.needs_review) =
        ground (arith, c.is_routed.to_route) in
      (
        c.p,
        u.trusted,
        u.facts,
        c.there,
        c.was_extracted,
        u.loaded,
        c.facts_now,
        ends,
        (λ s. there (to s), λ a. from (back a)),
      )

  -- A committed validation writes the whole result and nothing else of the orders: the row has the
  -- routed order with its lines, the issues of the result and no intake owner, every other order is
  -- as before, and a sound database stays sound.
  pub validate_order-IsDbSound :
      IsDbSound db
      → {final : Order} {result : ValidationResult} {db' : Db}
      → validate_order provider policy context seen seen_later db order_id source_id draft token
          clock ids recorded_at url
        ≡ ok (final, result, db')
      → (p : PersistedOrder) × (get_order db order_id ≡ some p)
        × ((j : ℕ)
            → get_order db' j
              ≡ (if final.id == j then some (stored p final result) else get_order db j))
        × IsDbSound db'
  validate_order-IsDbSound sound {final} {result} {db'} h =
      let c = (validate_order_inv h).commit in
      let w = c.writes in
      let key : final.id ≡ order_id = c.is_routed.same_id ∙ get_order_key db order_id c.there in
      (
        c.p,
        c.there,
        w.orders,
        Writes-IsDbSound sound w (ap (get_order db) key ∙ c.there)
            (λ r. routed-IsSound result c.is_routed c.was_extracted),
      )
