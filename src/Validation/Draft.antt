-- ===== src/Validation/Draft.antt =====
-- The extracted order of src/opsflow/extraction/models.py: values that a provider claims, typed but
-- not yet trusted. Tests of a value's Python type are its type here.
use ops_flow_ai.Base.{
  ℕ, String, Bool, not, ◌&&◌, ◌||◌, Option, List, leb, ◌==◌, codes, all, length, Result, ok,
  value_error, ◌>>◌, guard,
}
use ops_flow_ai.Decimal.{Decimal}
use ops_flow_ai.Domain.Records.{is_blank, SourceDocumentType}

pub record ExtractedLine : Type 0 where
  pub sku : Option String
  pub description : Option String
  pub quantity : Option Decimal
  pub submitted_price : Option Decimal

pub record Evidence : Type 0 where
  pub field_path : String
  pub source_location : String
  pub quote : String

pub record ExtractionDraft : Type 0 where
  pub source_sha256 : String
  pub source_document_type : SourceDocumentType
  pub customer_name : Option String
  pub customer_reference : Option String
  pub po_number : Option String
  pub order_date : Option ℕ
  pub requested_delivery_date : Option ℕ
  pub currency : Option String
  pub lines : List ExtractedLine
  pub notes : Option String
  pub evidence : List Evidence

-- `Evidence.__post_init__`
unfoldable pub new_evidence : Evidence → Result Evidence
new_evidence e = do
  guard (not (is_blank e.field_path)) value_error
  guard (not (is_blank e.source_location)) value_error
  guard (not (is_blank e.quote)) value_error
  ok e

-- re.fullmatch(r"[0-9a-f]{64}", source_sha256)
unfoldable pub is_sha256 : String → Bool
is_sha256 s =
    length (codes s) == 64
    && all (λ c. (leb b'0' c && leb c b'9') || (leb b'a' c && leb c b'f')) (codes s)

-- `ExtractionDraft.__post_init__`
unfoldable pub new_draft : ExtractionDraft → Result ExtractionDraft
unfolding is_sha256
new_draft d = do guard (is_sha256 d.source_sha256) value_error; ok d
