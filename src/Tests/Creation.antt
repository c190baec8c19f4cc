-- ===== src/Tests/Creation.antt =====
-- Two requests to create an order under one key, and the theorem on them.
use ops_flow_ai.Base.{
  ℕ, String, ◌≡◌, refl, true, false, none, some, [], ◌∷◌, ok, err, idempotency_conflict, str_eq,
  if◌then◌else◌,
}
use ops_flow_ai.Base.Table.{find}
use ops_flow_ai.Decimal.{is_zero, dec_leb}
use ops_flow_ai.Domain.Records.{is_blank, new_line, new_document, new_event}
use ops_flow_ai.Domain.Order.{
  Order, new_order, currency_ok, is_currency_code, origin_ok, received_order,
}
use ops_flow_ai.Store.{Db, get_order, insert_audit_event}
use ops_flow_ai.Store.Keys.{
  insert_order_graph, find_record, get_idempotency_record, insert_idempotency_record,
}
use ops_flow_ai.Application.Creation.{
  CreateOrderInput, CreateOrderResult, CanonicalOrder, canonical_order_request, CreationIds,
  canonical_decimal, digits, digits_of, strip_fraction, create_lines, create_documents,
  order_from_create_input, insert_order, created_by_this_command, replayed_existing,
  create_order_with_disposition,
}
use ops_flow_ai.Application.Idempotency.{create_order_twice}

abbrev request_of : String → CreateOrderInput
request_of po = record {
  customer_reference = some "ACME";
  po_number = some po;
  order_date = none;
  requested_delivery_date = none;
  currency = some "EUR";
  lines =
      record {
        sku = some "SKU-1";
        description = none;
        quantity = record { negative = false; coefficient = 25; up = 0; down = 1 };
        submitted_price = none;
        trusted_catalogue_price = none;
      }
      ∷ [];
  source_documents = [];
}

-- 25.0 is written as 25, 0.050 as 0.05.
canonical_texts :
    (canonical_decimal (record { negative = false; coefficient = 250; up = 0; down = 1 })
      ≡ b'2' ∷ b'5' ∷ [])
    × (canonical_decimal (record { negative = true; coefficient = 50; up = 0; down = 3 })
        ≡ b'-' ∷ b'0' ∷ b'.' ∷ b'0' ∷ b'5' ∷ [])
unfolding canonical_decimal is_zero digits digits_of strip_fraction
canonical_texts = (refl, refl)

abbrev digest : CanonicalOrder → String
digest c = elim c.po_number [ none ↦ "" | some po ↦ po ]

abbrev empty_db : Db
empty_db = record {
  orders = [];
  syncs = [];
  deliveries = [];
  audit = [];
  keys = [];
  snapshots = [];
}

abbrev ids_from : ℕ → CreationIds
ids_from n = record { order = n; event = n; line = n; document = n }

created :
    (x : CreateOrderResult × Db) × (create_order_with_disposition digest empty_db empty_db
        (request_of "PO-1")
        "key"
        100
        (ids_from 1)
      ≡ ok x)
    × (x.0.disposition ≡ created_by_this_command)
unfolding create_order_with_disposition order_from_create_input create_lines create_documents
    dec_leb new_line new_document received_order new_order currency_ok is_currency_code origin_ok
    new_event is_blank insert_order insert_order_graph get_order find insert_audit_event
    insert_idempotency_record get_idempotency_record find_record
created = (_, refl, refl)

described :
    (o : Order) × (order_from_create_input (request_of "PO-2") (ids_from 2) ≡ ok o)
    × (get_order created.0.1 o.id ≡ none)
unfolding created order_from_create_input create_lines create_documents dec_leb new_line
    new_document received_order new_order currency_ok is_currency_code origin_ok is_blank get_order
    find
described = (_, refl, refl)

create_order_twice_example :
    create_order_with_disposition digest created.0.1 created.0.1
      (request_of "PO-2")
      "key"
      200
      (ids_from 2)
    ≡ (if str_eq
          (digest (canonical_order_request (request_of "PO-1")))
          (digest (canonical_order_request (request_of "PO-2")))
        then ok (
          record { persisted = created.0.0.persisted; disposition = replayed_existing },
          created.0.1,
        )
        else err idempotency_conflict)
create_order_twice_example =
    create_order_twice digest empty_db empty_db (request_of "PO-1") (request_of "PO-2") "key" 100
      200 (ids_from 1) (ids_from 2) created.1 created.2 described.1 described.2
