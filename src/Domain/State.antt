-- ===== src/Domain/State.antt =====
-- `OrderState` and `_NORMAL_TRANSITIONS` of src/opsflow/domain/order.py.
use ops_flow_ai.Base.{
  ℕ, ◌≡◌, ◌↔◌, Bool, true, false, Option, none, some, List, [], ◌∷◌, arith, ◌==◌, any,
}

pub data OrderState : Type 0 where
  received processing extracted validated needs_review ready_for_approval : OrderState
  approved syncing completed rejected failed_retryable failed_final : OrderState

-- The position of a member in the enumeration; equality of members is tested by it.
abbrev pub ordinal : OrderState → ℕ
ordinal received = 0
ordinal processing = 1
ordinal extracted = 2
ordinal validated = 3
ordinal needs_review = 4
ordinal ready_for_approval = 5
ordinal approved = 6
ordinal syncing = 7
ordinal completed = 8
ordinal rejected = 9
ordinal failed_retryable = 10
ordinal failed_final = 11

-- `s is t`
abbrev pub state_eq : OrderState → OrderState → Bool
state_eq s t = ordinal s == ordinal t

pub state_eq_iff : (s t : OrderState) → (state_eq s t ≡ true) ↔ (s ≡ t)
state_eq_iff s t = ground arith

-- `s in states`
abbrev pub is_in : OrderState → List OrderState → Bool
is_in s states = any (state_eq s) states

unfoldable pub normal_transitions : OrderState → List OrderState
normal_transitions received = processing ∷ []
normal_transitions processing = extracted ∷ failed_retryable ∷ failed_final ∷ []
normal_transitions extracted = validated ∷ failed_retryable ∷ failed_final ∷ []
normal_transitions validated = needs_review ∷ ready_for_approval ∷ []
normal_transitions needs_review = validated ∷ rejected ∷ []
normal_transitions ready_for_approval = approved ∷ rejected ∷ []
normal_transitions approved = syncing ∷ []
normal_transitions syncing = completed ∷ failed_retryable ∷ failed_final ∷ []
normal_transitions completed = []
normal_transitions rejected = []
normal_transitions failed_retryable = []
normal_transitions failed_final = []

-- `s in (FAILED_RETRYABLE, FAILED_FINAL)`
abbrev pub is_failure : OrderState → Bool
is_failure s = is_in s (failed_retryable ∷ failed_final ∷ [])

-- The states that a failure may record as its origin.
abbrev pub is_failure_origin : Option OrderState → Bool
is_failure_origin none = false
is_failure_origin (some s) = is_in s (processing ∷ extracted ∷ syncing ∷ [])
