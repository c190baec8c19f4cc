-- ===== src/Application/Creation.antt =====
-- The creation of an order: src/opsflow/application/orders.py. The SHA-256 of the canonical JSON is a
-- parameter on the canonical payload.
use ops_flow_ai.Base.{
  ℕ, zero, suc, ◌+◌, ◌*◌, ◌/◌, ◌%◌, ◌^◌, String, Option, none, some, List, [], ◌∷◌, ◌++◌, map, ◌==◌,
  str_eq, Result, ok, err, idempotency_conflict, runtime_error, duplicate_idempotency_key, ◌>>=◌,
  ◌>>◌, guard, or_raise, if◌then◌else◌,
}
use ops_flow_ai.Decimal.{Decimal, is_zero}
use ops_flow_ai.Domain.Records.{
  SourceDocumentType, OrderLine, SourceDocument, AuditEvent, new_line, new_document, new_event,
}
use ops_flow_ai.Domain.Order.{Order, received_order}
use ops_flow_ai.Store.{PersistedOrder, Db, get_order, insert_audit_event}
use ops_flow_ai.Store.Keys.{
  new_row, insert_order_graph, get_idempotency_record, insert_idempotency_record,
}

pub record CreateLineInput : Type 0 where
  pub sku : Option String
  pub description : Option String
  pub quantity : Decimal
  pub submitted_price : Option Decimal
  pub trusted_catalogue_price : Option Decimal

pub record CreateSourceDocumentInput : Type 0 where
  pub document_type : SourceDocumentType
  pub name : String
  pub mime_type : String
  pub sha256 : String
  pub message_id : Option String
  pub storage_reference : Option String
  pub metadata : List (String × String)

pub record CreateOrderInput : Type 0 where
  pub customer_reference : Option String
  pub po_number : Option String
  pub order_date : Option ℕ
  pub requested_delivery_date : Option ℕ
  pub currency : Option String
  pub lines : List CreateLineInput
  pub source_documents : List CreateSourceDocumentInput

pub data CreateOrderDisposition : Type 0 where
  created_by_this_command replayed_existing : CreateOrderDisposition

pub record CreateOrderResult : Type 0 where
  pub persisted : PersistedOrder
  pub disposition : CreateOrderDisposition

-- The decimal digits of `n`, the last of them `count`.
unfoldable pub digits : ℕ → ℕ → List ℕ
digits zero n = []
digits (suc count) n = digits count (n / 10) ++ (b'0' + n % 10) ∷ []

-- How many digits `n` has; `n` itself is fuel enough.
unfoldable pub digits_of : ℕ → ℕ → List ℕ
digits_of zero n = []
digits_of (suc fuel) n =
    let rest = digits_of fuel (n / 10) in if n == 0 then [] else rest ++ (b'0' + n % 10) ∷ []

-- rstrip("0").rstrip("."): the fraction without the zeros at its end, and without a point if empty.
unfoldable pub strip_fraction : ℕ → ℕ → List ℕ
unfolding digits
strip_fraction zero n = []
strip_fraction (suc places) n =
    let rest = strip_fraction places (n / 10) in
    if n % 10 == 0 then rest else b'.' ∷ digits (suc places) n

-- `_canonical_decimal`, as characters
unfoldable pub canonical_decimal : Decimal → List ℕ
unfolding digits_of strip_fraction
canonical_decimal d =
    if is_zero d
    then b'0' ∷ []
    else let n = d.coefficient * 10 ^ d.up in
      let whole = n / 10 ^ d.down in
      (if d.negative then b'-' ∷ [] else [])
      ++ (if whole == 0 then b'0' ∷ [] else digits_of whole whole)
      ++ strip_fraction d.down (n % 10 ^ d.down)

abbrev optional_canonical : Option Decimal → Option (List ℕ)
optional_canonical none = none
optional_canonical (some d) = some (canonical_decimal d)

pub record CanonicalLine : Type 0 where
  pub sku : Option String
  pub description : Option String
  pub quantity : List ℕ
  pub submitted_price : Option (List ℕ)
  pub trusted_catalogue_price : Option (List ℕ)

-- The payload that `canonical_order_request` serialises.
pub record CanonicalOrder : Type 0 where
  pub customer_reference : Option String
  pub po_number : Option String
  pub order_date : Option ℕ
  pub requested_delivery_date : Option ℕ
  pub currency : Option String
  pub lines : List CanonicalLine
  pub source_documents : List CreateSourceDocumentInput

abbrev canonical_line : CreateLineInput → CanonicalLine
canonical_line l = record {
  sku = l.sku;
  description = l.description;
  quantity = canonical_decimal l.quantity;
  submitted_price = optional_canonical l.submitted_price;
  trusted_catalogue_price = optional_canonical l.trusted_catalogue_price;
}

-- `canonical_order_request`, before the serialisation
abbrev pub canonical_order_request : CreateOrderInput → CanonicalOrder
canonical_order_request r = record {
  customer_reference = r.customer_reference;
  po_number = r.po_number;
  order_date = r.order_date;
  requested_delivery_date = r.requested_delivery_date;
  currency = r.currency;
  lines = map canonical_line r.lines;
  source_documents = r.source_documents;
}

-- The ids of one creation; lines and documents are numbered from theirs.
pub record CreationIds : Type 0 where
  pub order : ℕ
  pub event : ℕ
  pub line : ℕ
  pub document : ℕ

abbrev pub line_with : ℕ → CreateLineInput → OrderLine
line_with id l = record {
  id = id;
  sku = l.sku;
  description = l.description;
  quantity = l.quantity;
  submitted_price = l.submitted_price;
  trusted_catalogue_price = l.trusted_catalogue_price;
}

abbrev pub document_with : ℕ → CreateSourceDocumentInput → SourceDocument
document_with id d = record {
  id = id;
  document_type = d.document_type;
  name = d.name;
  mime_type = d.mime_type;
  sha256 = d.sha256;
  message_id = d.message_id;
  storage_reference = d.storage_reference;
  metadata = d.metadata;
}

unfoldable pub create_lines : ℕ → List CreateLineInput → Result (List OrderLine)
create_lines id [] = ok []
create_lines id (l ∷ ls) = do
  line ← new_line (line_with id l)
  rest ← create_lines (id + 1) ls
  ok (line ∷ rest)

unfoldable pub create_documents : ℕ → List CreateSourceDocumentInput → Result (List SourceDocument)
create_documents id [] = ok []
create_documents id (d ∷ ds) = do
  document ← new_document (document_with id d)
  rest ← create_documents (id + 1) ds
  ok (document ∷ rest)

-- `_order_from_create_input`
unfoldable pub order_from_create_input : CreateOrderInput → CreationIds → Result Order
unfolding create_lines create_documents
order_from_create_input r ids = do
  lines ← create_lines ids.line r.lines
  documents ← create_documents ids.document r.source_documents
  received_order ids.order r.customer_reference r.po_number r.order_date r.requested_delivery_date
      r.currency lines documents

-- `_resolve_idempotency_race`
unfoldable pub resolve_idempotency_race : Db → String → String → Result PersistedOrder
resolve_idempotency_race db key fingerprint = do
  found ← or_raise (get_idempotency_record db key) runtime_error
  guard (str_eq found.request_fingerprint fingerprint) idempotency_conflict
  or_raise (get_order db found.order_id) runtime_error

abbrev pub received_event : ℕ → ℕ → ℕ → AuditEvent
received_event id order_id now = record {
  id = id;
  order_id = order_id;
  event_type = "ORDER_RECEIVED";
  actor = "system";
  occurred_at = now;
}

-- The transaction of the creation.
unfoldable pub insert_order : Db → Order → AuditEvent → String → String → ℕ → Result Db
insert_order db o event key fingerprint now = do
  db1 ← insert_order_graph db o now
  insert_idempotency_record (insert_audit_event db1 event) (record {
    idempotency_key = key;
    request_fingerprint = fingerprint;
    order_id = o.id;
    created_at = now;
  })

-- What follows the transaction: `later` is the database that a conflict is resolved in.
abbrev pub after_insert :
    Result Db → Db → Order → String → String → ℕ → Result (CreateOrderResult × Db)
after_insert (ok db) later o key fingerprint now =
    ok (record { persisted = new_row o now; disposition = created_by_this_command }, db)
after_insert (err duplicate_idempotency_key) later o key fingerprint now = do
  existing ← resolve_idempotency_race later key fingerprint
  ok (record { persisted = existing; disposition = replayed_existing }, later)
after_insert (err e) later o key fingerprint now = err e

-- `create_order_with_disposition`
unfoldable pub create_order_with_disposition :
    (CanonicalOrder → String)
    → Db
    → Db
    → CreateOrderInput
    → String
    → ℕ
    → CreationIds
    → Result (CreateOrderResult × Db)
unfolding canonical_decimal order_from_create_input insert_order resolve_idempotency_race
create_order_with_disposition digest db later request key now ids = do
  let fingerprint = digest (canonical_order_request request)
  o ← order_from_create_input request ids
  event ← new_event (received_event ids.event o.id now)
  after_insert (insert_order db o event key fingerprint now) later o key fingerprint now
