-- ===== src/Tests/Domain.antt =====
-- Runs of the order aggregate, and its theorems applied to them.
use ops_flow_ai.Base.{
  ◌≡◌, refl, true, inl, none, some, List, [], ◌∷◌, ◌++◌, ok, err, invalid_state_transition,
}
use ops_flow_ai.Decimal.{of_ℕ, dec_leb}
use ops_flow_ai.Domain.State.{
  OrderState, received, processing, extracted, validated, ready_for_approval, approved, syncing,
  completed, failed_retryable, normal_transitions, is_in,
}
use ops_flow_ai.Domain.Records.{is_blank}
use ops_flow_ai.Domain.Order.{
  Order, ValidatedOrderLine, ValidatedOrderData, new_validated_line, new_validated_data, new_order,
  transition_to, retry, reopen, currency_ok, is_currency_code, origin_ok, promote_validated_data,
}
use ops_flow_ai.Domain.Lifecycle.{
  IsValid, moved, transition_to-IsValid, retry-transition_to, retry-IsValid, final_states,
}
use ops_flow_ai.Domain.Approval.{Command, move, run, attempt, is_past_approval, approval_required}
use ops_flow_ai.Domain.Promotion.{IsTrusted, promoted, promote_validated_data_lem}
use ops_flow_ai.Tests.Data.{an_order}

IsValid-in : (s : OrderState) → origin_ok s none ≡ true → IsValid (an_order s)
unfolding currency_ok is_currency_code
IsValid-in s h = record { currency = refl; origin = h }

syncing-IsValid : IsValid (an_order syncing)
unfolding origin_ok
syncing-IsValid = IsValid-in syncing refl

approved_allows : is_in syncing (normal_transitions approved) ≡ true
unfolding normal_transitions
approved_allows = refl

approved-IsValid : IsValid (an_order approved)
unfolding origin_ok
approved-IsValid = IsValid-in approved refl

transition_to-IsValid_example :
    transition_to (an_order approved) syncing ≡ ok (moved (an_order approved) syncing)
unfolding normal_transitions
transition_to-IsValid_example = transition_to-IsValid (an_order approved) syncing approved-IsValid

abbrev failed_order : Order
failed_order = record (an_order failed_retryable) { failure_origin = some syncing }

fail_run : transition_to (an_order syncing) failed_retryable ≡ ok failed_order
unfolding transition_to normal_transitions new_order currency_ok is_currency_code origin_ok
fail_run = refl

retry-transition_to_example : retry failed_order ≡ ok (an_order syncing)
retry-transition_to_example = retry-transition_to (an_order syncing) syncing-IsValid fail_run

failed-IsValid : IsValid failed_order
unfolding currency_ok is_currency_code origin_ok
failed-IsValid = record { currency = refl; origin = refl }

retry-IsValid_example :
    (s : OrderState) × (failed_order.failure_origin ≡ some s)
    × (is_in s (processing ∷ extracted ∷ syncing ∷ []) ≡ true)
    × (retry failed_order ≡ ok (record failed_order { state = s; failure_origin = none }))
retry-IsValid_example = retry-IsValid failed_order failed-IsValid refl

final_states_example :
    (transition_to (an_order completed) syncing ≡ err invalid_state_transition)
    × (retry (an_order completed) ≡ err invalid_state_transition)
    × (reopen (an_order completed) ≡ err invalid_state_transition)
final_states_example = final_states (an_order completed) syncing (inl refl)

abbrev whole_way : List Command
whole_way =
    move processing
    ∷ move extracted
    ∷ move validated
    ∷ move ready_for_approval
    ∷ move approved
    ∷ move syncing
    ∷ []

whole_run : run (an_order received) whole_way ≡ an_order syncing
unfolding run attempt transition_to normal_transitions new_order currency_ok is_currency_code
    origin_ok
whole_run = refl

received-IsValid : IsValid (an_order received)
unfolding origin_ok
received-IsValid = IsValid-in received refl

whole_past : is_past_approval (run (an_order received) whole_way) ≡ true
whole_past = rw whole_run refl

approval_required_example :
    (before after : List Command) × (whole_way ≡ before ++ move approved ∷ after)
    × ((run (an_order received) before).state ≡ ready_for_approval)
approval_required_example =
    approval_required (an_order received) whole_way received-IsValid refl whole_past

abbrev trusted_line : ValidatedOrderLine
trusted_line = record {
  sku = "A-1";
  description = none;
  quantity = of_ℕ 2;
  submitted_price = of_ℕ 5;
  trusted_catalogue_price = of_ℕ 5;
}

abbrev trusted_data : ValidatedOrderData
trusted_data = record {
  customer_reference = "ACME";
  po_number = "PO-1";
  order_date = 100;
  requested_delivery_date = 110;
  currency = "EUR";
  lines = trusted_line ∷ [];
}

line-IsTrusted : IsTrusted trusted_line
unfolding new_validated_line is_blank dec_leb
line-IsTrusted = refl

data_accepted : new_validated_data trusted_data ≡ ok trusted_data
unfolding new_validated_data is_blank is_currency_code
data_accepted = refl

extracted-IsValid : IsValid (an_order extracted)
unfolding origin_ok
extracted-IsValid = IsValid-in extracted refl

promote_validated_data_lem_example :
    promote_validated_data (an_order extracted) trusted_data (7 ∷ [])
    ≡ ok (promoted (an_order extracted) trusted_data (7 ∷ []))
promote_validated_data_lem_example =
    let (same_count, other_count) =
      promote_validated_data_lem (an_order extracted) trusted_data (7 ∷ []) extracted-IsValid refl
        data_accepted (line-IsTrusted, tt) in
    same_count refl
