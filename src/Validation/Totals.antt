-- ===== src/Validation/Totals.antt =====
-- The order total of `_compute_total` in src/opsflow/validation/engine.py is never negative.
use ops_flow_ai.Base.{
  subst, ◌≡◌, inl, inr, false, Option, none, some, List, [], ◌∷◌, arith, Option-cases,
}
use ops_flow_ai.Decimal.{Decimal, zero_decimal, dec_add, dec_mul, is_below_zero, is_at_most_zero}
use ops_flow_ai.Decimal.Sign.{
  zero-IsNonNegative, positive-IsNonNegative, IsNonNegative, IsNonNegative-not_below,
  not_below-IsNonNegative, dec_add-IsNonNegative, dec_mul-IsNonNegative,
}
use ops_flow_ai.Validation.Draft.{ExtractedLine, ExtractionDraft}
use ops_flow_ai.Validation.Engine.{line_amount, total_from, compute_total}

line_amount-IsNonNegative :
    (q p : Option Decimal) {amount : Decimal} → line_amount q p ≡ some amount → IsNonNegative amount
unfolding line_amount
line_amount-IsNonNegative (some q) (some p) {amount} h =
    let a : is_at_most_zero q ≡ false = ground arith in
    let b : is_below_zero p ≡ false = ground arith in
    let e : dec_mul q p ≡ amount = ground arith in
    subst IsNonNegative e
      (dec_mul-IsNonNegative q p (positive-IsNonNegative q a) (not_below-IsNonNegative p b))
line_amount-IsNonNegative (some q) none h = cc
line_amount-IsNonNegative none p h = cc

total_from-IsNonNegative :
    (total : Decimal) (lines : List ExtractedLine) {result : Decimal}
    → IsNonNegative total
    → total_from total lines ≡ some result
    → IsNonNegative result
unfolding total_from
total_from-IsNonNegative total [] n h = ground arith
total_from-IsNonNegative total (line ∷ lines) n h =
    elim (Option-cases (line_amount line.quantity line.submitted_price)) [
      | inl e ↦ absurd (ground (arith, e))
      | inr (amount, e) ↦
          total_from-IsNonNegative (dec_add total amount) lines
            (dec_add-IsNonNegative total amount n
              (line_amount-IsNonNegative line.quantity line.submitted_price e))
            (rw (total_from, e) at h)
    ]

pub total_not_negative :
    (draft : ExtractionDraft) {total : Decimal}
    → compute_total draft ≡ some total
    → is_below_zero total ≡ false
unfolding compute_total
total_not_negative draft {total} h =
    IsNonNegative-not_below total
      (total_from-IsNonNegative zero_decimal draft.lines zero-IsNonNegative (ground arith))
