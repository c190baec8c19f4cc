-- ===== src/Store/Graph.antt =====
-- The writes of src/opsflow/persistence/repositories.py to the children of an order, its issues and
-- lines, and of extraction snapshots.
use ops_flow_ai.Base.{
  ℕ, Bool, false, not, ◌&&◌, ◌||◌, ◌==◌, none, some, List, [], ◌∷◌, ◌++◌, any, str_eq, Result, ok,
  err, integrity_error, domain_validation, ◌>>◌, guard,
}
use ops_flow_ai.Base.Table.{put}
use ops_flow_ai.Domain.Records.{ValidationIssue, type_eq}
use ops_flow_ai.Domain.Order.{Order}
use ops_flow_ai.Validation.Draft.{is_sha256}
use ops_flow_ai.Store.{PersistedExtractionSnapshot, Db, order_key, get_order}

-- `replace_validation_issues`; a new issue refers to its order.
unfoldable pub replace_validation_issues : Db → ℕ → List ValidationIssue → Result Db
replace_validation_issues db order_id issues = elim (get_order db order_id) [
  | some row ↦
      ok
        (record db { orders = put order_key (record row { validation_issues = issues }) db.orders })
  | none ↦ elim issues [ [] ↦ ok db | _ ∷ _ ↦ err (integrity_error false) ]
]

-- `replace_order_graph`; a new line refers to its order, and its id is fresh.
unfoldable pub replace_order_graph : Db → Order → Result Db
replace_order_graph db o = elim (get_order db o.id) [
  | some row ↦ ok (record db {
    orders = put order_key (record row { order = record row.order { lines = o.lines } }) db.orders;
  })
  | none ↦ elim o.lines [ [] ↦ ok db | _ ∷ _ ↦ err (integrity_error false) ]
]

-- `PersistedExtractionSnapshot.__post_init__`
unfoldable pub new_snapshot : PersistedExtractionSnapshot → Result PersistedExtractionSnapshot
new_snapshot s = do
  guard (is_sha256 s.source_sha256) domain_validation
  guard (str_eq s.source_sha256 s.draft.source_sha256) domain_validation
  guard (type_eq s.source_document_type s.draft.source_document_type) domain_validation
  ok s

-- The unique constraints on the pair of order and source, and on the id.
abbrev pub same_snapshot : PersistedExtractionSnapshot → PersistedExtractionSnapshot → Bool
same_snapshot a b =
    a.id == b.id || (a.order_id == b.order_id && a.source_document_id == b.source_document_id)

-- The foreign key: the source document is one of the order's.
abbrev has_document : Db → ℕ → ℕ → Bool
has_document db order_id document_id = elim (get_order db order_id) [
  | none ↦ false
  | some row ↦ any (λ d. d.id == document_id) row.order.source_documents
]

-- `insert_extraction_snapshot`
unfoldable pub insert_extraction_snapshot : Db → PersistedExtractionSnapshot → Result Db
insert_extraction_snapshot db s = do
  guard (not (any (same_snapshot s) db.snapshots)) (integrity_error false)
  guard (has_document db s.order_id s.source_document_id) (integrity_error false)
  ok (record db { snapshots = db.snapshots ++ s ∷ [] })
