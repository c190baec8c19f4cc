-- ===== src/Domain/Records.antt =====
-- The supporting records of src/opsflow/domain/records.py. A UUID is a number, a date its ordinal,
-- a timestamp the microseconds since an epoch; the tests of a value's Python type are its type here.
use ops_flow_ai.Base.{
  ℕ, String, Bool, false, not, ◌&&◌, ◌||◌, Option, none, some, List, leb, ◌==◌, codes, all, length,
  Result, ok, domain_validation, ◌>>◌, guard,
}
use ops_flow_ai.Decimal.{Decimal, is_below_zero, is_at_most_zero}

pub data SourceDocumentType : Type 0 where
  email_body pdf xlsx csv form : SourceDocumentType

abbrev pub type_ordinal : SourceDocumentType → ℕ
type_ordinal email_body = 0
type_ordinal pdf = 1
type_ordinal xlsx = 2
type_ordinal csv = 3
type_ordinal form = 4

abbrev pub type_eq : SourceDocumentType → SourceDocumentType → Bool
type_eq a b = type_ordinal a == type_ordinal b

pub data ValidationSeverity : Type 0 where
  info warning error : ValidationSeverity

-- The white space that `str.strip` removes: `str.isspace` of one code point.
abbrev pub is_space : ℕ → Bool
is_space c =
    (leb 9 c && leb c 13)
    || (leb 28 c && leb c 32)
    || c == 133
    || c == 160
    || c == 5760
    || (leb 8192 c && leb c 8202)
    || c == 8232
    || c == 8233
    || c == 8239
    || c == 8287
    || c == 12288

-- `not value.strip()`
unfoldable pub is_blank : String → Bool
is_blank s = all is_space (codes s)

abbrev pub is_non_blank : Option String → Bool
is_non_blank none = false
is_non_blank (some s) = not (is_blank s)

abbrev pub require_non_blank : String → Result (Unit {0})
require_non_blank s = guard (not (is_blank s)) domain_validation

-- `_require_decimal(value, name)` on a value that may be None
abbrev require_not_negative : Option Decimal → Result (Unit {0})
require_not_negative none = ok tt
require_not_negative (some d) = guard (not (is_below_zero d)) domain_validation

pub record OrderLine : Type 0 where
  pub id : ℕ
  pub sku : Option String
  pub description : Option String
  pub quantity : Decimal
  pub submitted_price : Option Decimal
  pub trusted_catalogue_price : Option Decimal

-- `OrderLine.__post_init__`
unfoldable pub new_line : OrderLine → Result OrderLine
new_line l = do
  guard (not (is_at_most_zero l.quantity)) domain_validation
  require_not_negative l.submitted_price
  require_not_negative l.trusted_catalogue_price
  guard (is_non_blank l.sku || is_non_blank l.description) domain_validation
  ok l

pub record SourceDocument : Type 0 where
  pub id : ℕ
  pub document_type : SourceDocumentType
  pub name : String
  pub mime_type : String
  pub sha256 : String
  pub message_id : Option String
  pub storage_reference : Option String
  pub metadata : List (String × String)

-- [0-9A-Fa-f]
abbrev is_hex_digit : ℕ → Bool
is_hex_digit c =
    (leb b'0' c && leb c b'9') || (leb b'A' c && leb c b'F') || (leb b'a' c && leb c b'f')

-- `SourceDocument.__post_init__`
unfoldable pub new_document : SourceDocument → Result SourceDocument
new_document d = do
  require_non_blank d.name
  require_non_blank d.mime_type
  guard (length (codes d.sha256) == 64 && all is_hex_digit (codes d.sha256)) domain_validation
  ok d

-- The `field` of an issue: a name, or one part of a line, f"lines[{index}].{part}".
pub data IssueField : Type 0 where
  named : String → IssueField
  of_line : ℕ → String → IssueField

-- An issue without its diagnostics (`expected`, `actual`, `explanation`), which nothing reads back.
pub record ValidationIssue : Type 0 where
  pub rule_code : String
  pub severity : ValidationSeverity
  pub field : IssueField

pub record AuditEvent : Type 0 where
  pub id : ℕ
  pub order_id : ℕ
  pub event_type : String
  pub actor : String
  pub occurred_at : ℕ

-- `AuditEvent.__post_init__`; the fixed descriptions are not blank and are left out.
unfoldable pub new_event : AuditEvent → Result AuditEvent
new_event e = do require_non_blank e.event_type; require_non_blank e.actor; ok e
