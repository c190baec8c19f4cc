-- ===== src/Store/Facts.antt =====
-- The queries of src/opsflow/persistence/repositories.py on snapshots, documents and duplicates.
use ops_flow_ai.Base.{
  ℕ, String, Bool, false, not, ◌&&◌, ◌==◌, Option, none, some, List, [], ◌∷◌, any, str_eq, opt_eq,
  Result, ok, value_error, ◌>>=◌, ◌>>◌, guard, if◌then◌else◌,
}
use ops_flow_ai.Validation.Draft.{is_sha256}
use ops_flow_ai.Validation.Models.{ValidationFacts}
use ops_flow_ai.Store.{PersistedOrder, PersistedExtractionSnapshot, Db}

find_snapshot : ℕ → ℕ → List PersistedExtractionSnapshot → Option PersistedExtractionSnapshot
find_snapshot order_id source_id [] = none
find_snapshot order_id source_id (s ∷ ss) =
    let rest = find_snapshot order_id source_id ss in
    if s.order_id == order_id && s.source_document_id == source_id then some s else rest

-- `get_extraction_snapshot`
unfoldable pub get_extraction_snapshot : Db → ℕ → ℕ → Option PersistedExtractionSnapshot
unfolding find_snapshot
get_extraction_snapshot db order_id source_id = find_snapshot order_id source_id db.snapshots

find_owner : ℕ → List PersistedOrder → Option ℕ
find_owner document_id [] = none
find_owner document_id (p ∷ ps) =
    let rest = find_owner document_id ps in
    if any (λ d. d.id == document_id) p.order.source_documents then some p.order.id else rest

-- `get_source_document_order_id`
unfoldable pub get_source_document_order_id : Db → ℕ → Option ℕ
unfolding find_owner
get_source_document_order_id db document_id = find_owner document_id db.orders

-- `has_customer_po_duplicate`; a comparison with NULL does not hold.
unfoldable pub has_customer_po_duplicate : Db → String → String → ℕ → Bool
has_customer_po_duplicate db reference po exclude_order_id =
    any
      (λ p.
        opt_eq str_eq p.order.customer_reference (some reference)
        && opt_eq str_eq p.order.po_number (some po)
        && not (p.order.id == exclude_order_id))
      db.orders

-- `has_processed_source_sha`
unfoldable pub has_processed_source_sha : Db → String → ℕ → ℕ → Result Bool
has_processed_source_sha db sha256 exclude_order_id exclude_source_id = do
  guard (is_sha256 sha256) value_error
  ok (
      any
        (λ s.
          str_eq s.source_sha256 sha256
          && not (s.order_id == exclude_order_id && s.source_document_id == exclude_source_id))
        db.snapshots)

abbrev duplicate_po : Db → Option String → Option String → ℕ → Bool
duplicate_po db (some reference) (some po) order_id =
    has_customer_po_duplicate db reference po order_id
duplicate_po db _ _ order_id = false

-- `build_validation_facts`
unfoldable pub build_validation_facts :
    Db → ℕ → ℕ → Option String → Option String → String → Result ValidationFacts
build_validation_facts db order_id source_id reference po sha256 = do
  processed ← has_processed_source_sha db sha256 order_id source_id
  ok (record {
    duplicate_customer_po = duplicate_po db reference po order_id;
    document_already_processed = processed;
  })
