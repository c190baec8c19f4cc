-- ===== src/Validation/OrderRules.antt =====
-- What it takes for each group of rules of src/opsflow/validation/engine.py to add no error.
use ops_flow_ai.Base.{
  ℕ, ◌+◌, ◌≤◌, String, ◌≡◌, refl, ◌⊎◌, inl, inr, true, false, ◌||◌, some, List, [], ◌∷◌, Memᴰ,
  arith, any, str_eq, eq_iff, Bool-cases, Option-cases, is_some,
}
use ops_flow_ai.Validation.Draft.{ExtractionDraft}
use ops_flow_ai.Validation.Models.{
  TrustedCustomer, TrustedBusinessData, ValidationFacts, ValidationContext, ValidationPolicy,
  has_error,
}
use ops_flow_ai.Validation.Lines.{line_issues, issues_from, is_supported}
use ops_flow_ai.Validation.Engine.{
  append_customer_issues, identity_issues, date_issues, currency_issues,
}
use ops_flow_ai.Validation.Clean.{
  IsClean, IsClean-append, IsClean-parts, line_issues-IsClean, line_issues-clean,
}
use ops_flow_ai.Validation.Acceptance.{Pairs, AreOrderable}

pub any-Memᴰ : (c : String) (cs : List String) → any (str_eq c) cs ≡ true → Memᴰ c cs
any-Memᴰ c [] h = cc
any-Memᴰ c (d ∷ ds) h = elim (Bool-cases (str_eq c d)) [
  | inl e ↦ Memᴰ.head ((eq_iff c d).0 e)
  | inr n ↦ Memᴰ.tail (any-Memᴰ c ds (ground (arith, h, n)))
]

pub Memᴰ-any : (c : String) (cs : List String) → Memᴰ c cs → any (str_eq c) cs ≡ true
Memᴰ-any c [] m = elim m [ ]
Memᴰ-any c (d ∷ ds) (Memᴰ.head e) = ground (arith, eq_iff c d)
Memᴰ-any c (d ∷ ds) (Memᴰ.tail m) = ground (arith, Memᴰ-any c ds m)

module _ (policy : ValidationPolicy) (currency : String) where
  pub issues_from-IsClean :
      (index : ℕ) (pairs : Pairs)
      → AreOrderable policy currency pairs
      → IsClean (issues_from policy (some currency) index pairs)
  unfolding issues_from IsClean has_error
  issues_from-IsClean index [] h = refl
  issues_from-IsClean index ((line, found) ∷ pairs) h =
      IsClean-append (line_issues policy (some currency) index line found)
        (issues_from policy (some currency) (index + 1) pairs)
        (line_issues-IsClean policy currency index line found h.0)
        (issues_from-IsClean (index + 1) pairs h.1)

  pub issues_from-clean :
      (index : ℕ) (pairs : Pairs)
      → IsClean (issues_from policy (some currency) index pairs)
      → AreOrderable policy currency pairs
  unfolding issues_from
  issues_from-clean index [] h = tt
  issues_from-clean index ((line, found) ∷ pairs) h =
      let (a, b) =
        IsClean-parts (line_issues policy (some currency) index line found)
          (issues_from policy (some currency) (index + 1) pairs) h in
      (line_issues-clean policy currency index line found a, issues_from-clean (index + 1) pairs b)

singleton-cases {ℓ} :
    {A : Type ℓ} (xs : List A)
    → ((x : A) × (xs ≡ x ∷ []))
      ⊎ ((xs ≡ []) ⊎ ((x : A) × (y : A) × (ys : List A) × (xs ≡ x ∷ y ∷ ys)))
singleton-cases [] = inr (inl refl)
singleton-cases (x ∷ []) = inl (x, refl)
singleton-cases (x ∷ y ∷ ys) = inr (inr (x, y, ys, refl))

module _ (draft : ExtractionDraft) where
  pub append_customer_issues-clean :
      (trusted : TrustedBusinessData)
      → IsClean (append_customer_issues draft trusted).0
      → ((is_some draft.customer_reference || is_some draft.customer_name) ≡ true)
        × (c : TrustedCustomer) × (trusted.customer_candidates ≡ c ∷ [])
        × (c.active ≡ true)
        × ((append_customer_issues draft trusted).1 ≡ some c)
  unfolding IsClean has_error append_customer_issues
  append_customer_issues-clean trusted clean = elim (singleton-cases trusted.customer_candidates) [
    | inl (c, e) ↦ ground (arith, e)
    | inr (inl e) ↦ absurd (ground (arith, e))
    | inr (inr (c, d, ds, e)) ↦ absurd (ground (arith, e))
  ]

  pub append_customer_issues-some :
      (trusted : TrustedBusinessData) (c : TrustedCustomer)
      → (is_some draft.customer_reference || is_some draft.customer_name) ≡ true
      → trusted.customer_candidates ≡ c ∷ []
      → c.active ≡ true
      → append_customer_issues draft trusted ≡ ([], some c)
  unfolding append_customer_issues
  append_customer_issues-some trusted c h e a = ground (arith, e)

  pub date_issues-clean :
      (context : ValidationContext)
      → IsClean (date_issues draft context)
      → (ordered : ℕ) × (delivery : ℕ) × (draft.order_date ≡ some ordered)
        × (ordered ≤ context.evaluation_date)
        × (draft.requested_delivery_date ≡ some delivery)
        × (context.evaluation_date ≤ delivery)
        × (ordered ≤ delivery)
  unfolding IsClean has_error date_issues
  date_issues-clean context clean = elim (Option-cases draft.order_date) [
    | inl e ↦ absurd (ground (arith, e))
    | inr (o, e) ↦ elim (Option-cases draft.requested_delivery_date) [
      | inl k ↦ absurd (ground (arith, e, k))
      | inr (d, k) ↦ (o, d, e, ground (arith, e, k), k, ground (arith, e, k), ground (arith, e, k))
    ]
  ]

  pub date_issues-IsClean :
      (context : ValidationContext) {ordered delivery : ℕ}
      → draft.order_date ≡ some ordered
      → ordered ≤ context.evaluation_date
      → draft.requested_delivery_date ≡ some delivery
      → context.evaluation_date ≤ delivery
      → ordered ≤ delivery
      → IsClean (date_issues draft context)
  unfolding IsClean has_error date_issues
  date_issues-IsClean context e a k b c = ground (arith, e, k, a, b, c)

  pub currency_issues-IsClean :
      (policy : ValidationPolicy) {c : String}
      → draft.currency ≡ some c
      → Memᴰ c policy.supported_currencies
      → IsClean (currency_issues draft policy)
  unfolding IsClean has_error currency_issues is_supported
  currency_issues-IsClean policy {c} e m =
      let q = Memᴰ-any c policy.supported_currencies m in ground (arith, e, q)

  pub currency_issues-clean :
      (policy : ValidationPolicy)
      → IsClean (currency_issues draft policy)
      → (c : String) × (draft.currency ≡ some c) × Memᴰ c policy.supported_currencies
  unfolding IsClean has_error currency_issues is_supported
  currency_issues-clean policy clean = elim (Option-cases draft.currency) [
    | inl e ↦ absurd (ground (arith, e))
    | inr (c, e) ↦ (c, e, any-Memᴰ c policy.supported_currencies (ground (arith, e)))
  ]

  pub identity_issues-clean :
      (facts : ValidationFacts) (c : TrustedCustomer)
      → IsClean (identity_issues draft facts (some c))
      → (po : String) × (draft.po_number ≡ some po)
        × (facts.duplicate_customer_po ≡ false)
        × (facts.document_already_processed ≡ false)
  unfolding IsClean has_error identity_issues
  identity_issues-clean facts c clean = elim (Option-cases draft.po_number) [
    | inl e ↦ absurd (ground (arith, e))
    | inr (po, e) ↦ ground (arith, e)
  ]

  pub identity_issues-IsClean :
      (facts : ValidationFacts) (c : TrustedCustomer) {po : String}
      → draft.po_number ≡ some po
      → facts.duplicate_customer_po ≡ false
      → facts.document_already_processed ≡ false
      → IsClean (identity_issues draft facts (some c))
  unfolding IsClean has_error identity_issues
  identity_issues-IsClean facts c e a b = ground (arith, e, a, b)
