-- ===== src/Application/Checks.antt =====
-- The checks of src/opsflow/application/validation.py on the order, its source and its snapshot, and
-- the trusted data that it loads. The provider of trusted data is a parameter.
use ops_flow_ai.Base.{
  ℕ, String, Bool, true, false, ◌&&◌, Option, none, some, List, [], ◌∷◌, ◌==◌, map, opt_eq, codes,
  str_eq, is_some, Error, Result, ok, err, source_document_not_found, source_ownership,
  source_identity_mismatch, order_validation_state, snapshot_replay, snapshot_conflict,
  invalid_trusted_data, business_data_provider, trusted_data_contract, ◌>>=◌, ◌>>◌, guard,
  if◌then◌else◌,
}
use ops_flow_ai.Decimal.{Decimal, dec_leb}
use ops_flow_ai.Domain.State.{extracted, state_eq}
use ops_flow_ai.Domain.Records.{SourceDocument, type_eq}
use ops_flow_ai.Validation.Draft.{ExtractedLine, Evidence, ExtractionDraft}
use ops_flow_ai.Validation.Models.{
  BusinessDataLookupRequest, new_lookup_request, TrustedBusinessData,
}
use ops_flow_ai.Store.{PersistedOrder, PersistedExtractionSnapshot, Db}
use ops_flow_ai.Store.Facts.{get_extraction_snapshot, get_source_document_order_id}
use ops_flow_ai.Application.Contract.{fold_code, codes_eq, validate_trusted_business_data}

-- Equality of two canonical texts, which equal numbers share.
abbrev dec_eq : Decimal → Decimal → Bool
dec_eq a b = dec_leb a b && dec_leb b a

abbrev line_eq : ExtractedLine → ExtractedLine → Bool
line_eq a b =
    opt_eq str_eq a.sku b.sku
    && opt_eq str_eq a.description b.description
    && opt_eq dec_eq a.quantity b.quantity
    && opt_eq dec_eq a.submitted_price b.submitted_price

abbrev evidence_eq : Evidence → Evidence → Bool
evidence_eq a b =
    str_eq a.field_path b.field_path
    && str_eq a.source_location b.source_location
    && str_eq a.quote b.quote

abbrev list_eq {ℓ} : {A : Type ℓ} → (A → A → Bool) → List A → List A → Bool
list_eq e [] [] = true
list_eq e (x ∷ xs) (y ∷ ys) = e x y && list_eq e xs ys
list_eq e _ _ = false

-- extraction_draft_to_payload(a) == extraction_draft_to_payload(b)
unfoldable pub same_payload : ExtractionDraft → ExtractionDraft → Bool
same_payload a b =
    str_eq a.source_sha256 b.source_sha256
    && type_eq a.source_document_type b.source_document_type
    && opt_eq str_eq a.customer_name b.customer_name
    && opt_eq str_eq a.customer_reference b.customer_reference
    && opt_eq str_eq a.po_number b.po_number
    && opt_eq ◌==◌ a.order_date b.order_date
    && opt_eq ◌==◌ a.requested_delivery_date b.requested_delivery_date
    && opt_eq str_eq a.currency b.currency
    && list_eq line_eq a.lines b.lines
    && opt_eq str_eq a.notes b.notes
    && list_eq evidence_eq a.evidence b.evidence

document_in : ℕ → List SourceDocument → Option SourceDocument
document_in id [] = none
document_in id (d ∷ ds) = let rest = document_in id ds in if d.id == id then some d else rest

-- `_require_owned_source`
unfoldable pub require_owned_source : Db → PersistedOrder → ℕ → Result SourceDocument
unfolding document_in
require_owned_source db p source_id = elim (document_in source_id p.order.source_documents) [
  | some d ↦ ok d
  | none ↦ elim (get_source_document_order_id db source_id) [
    | none ↦ err source_document_not_found
    | some owner ↦ err source_ownership
  ]
]

-- `_require_source_identity`
unfoldable pub require_source_identity : SourceDocument → ExtractionDraft → Result (Unit {0})
require_source_identity d draft =
    guard
      (codes_eq (map fold_code (codes d.sha256)) (codes draft.source_sha256)
        && type_eq d.document_type draft.source_document_type)
      source_identity_mismatch

-- `_require_extracted_state`
unfoldable pub require_extracted_state : PersistedOrder → Result (Unit {0})
require_extracted_state p = guard (state_eq p.order.state extracted) order_validation_state

-- `_raise_snapshot_status`
unfoldable pub raise_snapshot_status :
    Option PersistedExtractionSnapshot → ExtractionDraft → Result (Unit {0})
unfolding same_payload
raise_snapshot_status none draft = ok tt
raise_snapshot_status (some s) draft =
    if str_eq s.source_sha256 draft.source_sha256
      && type_eq s.source_document_type draft.source_document_type
      && same_payload s.draft draft
    then err snapshot_replay
    else err snapshot_conflict

-- The checks that the preflight and the transaction share.
unfoldable pub require_validatable : Db → PersistedOrder → ℕ → ExtractionDraft → Result (Unit {0})
unfolding require_owned_source require_source_identity require_extracted_state raise_snapshot_status
require_validatable db p source_id draft = do
  document ← require_owned_source db p source_id
  require_source_identity document draft
  require_extracted_state p
  raise_snapshot_status (get_extraction_snapshot db p.order.id source_id) draft

-- except TrustedBusinessDataContractError / except Exception
abbrev data_error : Error → Error
data_error trusted_data_contract = invalid_trusted_data
data_error _ = business_data_provider

abbrev pub or_data_error : Result TrustedBusinessData → Result TrustedBusinessData
or_data_error (ok x) = ok x
or_data_error (err e) = err (data_error e)

-- The request that looks the draft's identities up.
abbrev pub request_of : ExtractionDraft → BusinessDataLookupRequest
request_of draft = record {
  customer_reference = draft.customer_reference;
  customer_name = if is_some draft.customer_reference then none else draft.customer_name;
  skus = map (λ l. l.sku) draft.lines;
}

-- `_get_trusted_business_data`
unfoldable pub get_trusted_business_data :
    (BusinessDataLookupRequest → Result TrustedBusinessData)
    → ExtractionDraft
    → Result TrustedBusinessData
unfolding new_lookup_request validate_trusted_business_data
get_trusted_business_data provider draft = do
  request ← new_lookup_request (request_of draft)
  or_data_error (do
    trusted ← provider request
    checked ← validate_trusted_business_data draft trusted
    ok trusted)

-- `_canonical_customer_reference`
unfoldable pub canonical_customer_reference : TrustedBusinessData → Option String
canonical_customer_reference trusted = elim trusted.customer_candidates [
  | [] ↦ none
  | c ∷ [] ↦ if c.active then some c.reference else none
  | _ ∷ _ ∷ _ ↦ none
]
