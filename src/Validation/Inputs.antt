-- ===== src/Validation/Inputs.antt =====
-- The inputs of `validate` in src/opsflow/validation/engine.py: what their constructors and the
-- checks on a provider's answer have made sure of, and the pairing of lines with products.
use ops_flow_ai.Base.{
  ◌≡◌, refl, List, [], ◌∷◌, Option, some, true, arith, All, length, Memᴰ, String, ok, all, Bool,
}
use ops_flow_ai.Domain.Order.{is_currency_code}
use ops_flow_ai.Validation.Draft.{ExtractedLine, ExtractionDraft}
use ops_flow_ai.Validation.Models.{
  TrustedProduct, TrustedBusinessData, ValidationPolicy, new_product, new_customer, new_policy,
  optional_string_ok,
}
use ops_flow_ai.Validation.Build.{zip_strict}
use ops_flow_ai.Validation.Trusted.{IsUsable}

abbrev pub zip {ℓ κ} : {A : Type ℓ} {B : Type κ} → List A → List B → List (A × B)
zip (x ∷ xs) (y ∷ ys) = (x, y) ∷ zip xs ys
zip _ _ = []

-- The lines of the draft, each with the product that was looked up for it.
abbrev pub paired :
    ExtractionDraft → TrustedBusinessData → List (ExtractedLine × Option TrustedProduct)
paired draft trusted = zip draft.lines trusted.products_by_line

abbrev IsCheckedProduct : Option TrustedProduct → Type 0
IsCheckedProduct found = (p : TrustedProduct) → found ≡ some p → new_product p ≡ ok p

-- The customers, products and policy exist, so they passed their constructors; the texts of the draft
-- that enter the order are not blank, which `_reject_blank_optional` of the provider's response asks.
pub record AreChecked (draft : ExtractionDraft) (trusted : TrustedBusinessData)
    (policy : ValidationPolicy) : Type 0 where
  pub customers : All (λ c. new_customer c ≡ ok c) trusted.customer_candidates
  pub products : All IsCheckedProduct trusted.products_by_line
  pub policy_checked : new_policy policy ≡ ok policy
  pub po_text : optional_string_ok draft.po_number ≡ true
  pub descriptions : All (λ l. optional_string_ok l.description ≡ true) draft.lines

module _ {ℓ κ} {A : Type ℓ} {B : Type κ} where
  pub zip_strict_lem :
      (xs : List A) (ys : List B) → length xs ≡ length ys → zip_strict xs ys ≡ ok (zip xs ys)
  unfolding zip_strict
  zip_strict_lem [] [] h = refl
  zip_strict_lem [] (y ∷ ys) h = absurd (omega arith)
  zip_strict_lem (x ∷ xs) [] h = absurd (omega arith)
  zip_strict_lem (x ∷ xs) (y ∷ ys) h = rw (zip_strict, zip_strict_lem xs ys (omega arith)) refl

  pub length-zip :
      (xs : List A) (ys : List B) → length xs ≡ length ys → length (zip xs ys) ≡ length xs
  length-zip [] ys h = refl
  length-zip (x ∷ xs) [] h = absurd (omega arith)
  length-zip (x ∷ xs) (y ∷ ys) h = omega (arith, length-zip xs ys (omega arith))

zip-IsUsable :
    (lines : List ExtractedLine) (products : List (Option TrustedProduct))
    → All (λ l. optional_string_ok l.description ≡ true) lines
    → All IsCheckedProduct products
    → All IsUsable (zip lines products)
zip-IsUsable [] ps h k = tt
zip-IsUsable (l ∷ ls) [] h k = tt
zip-IsUsable (l ∷ ls) (p ∷ ps) h k = ((h.0, k.0), zip-IsUsable ls ps h.1 k.1)

module _ {draft : ExtractionDraft} {trusted : TrustedBusinessData} {policy : ValidationPolicy}
    (h : AreChecked draft trusted policy) where
  pub paired-IsUsable : All IsUsable (paired draft trusted)
  paired-IsUsable = zip-IsUsable draft.lines trusted.products_by_line h.descriptions h.products

all-Memᴰ :
    (p : String → Bool) (c : String) (cs : List String) → all p cs ≡ true → Memᴰ c cs → p c ≡ true
all-Memᴰ p c [] h m = elim m [ ]
all-Memᴰ p c (d ∷ ds) h (Memᴰ.head e) = ground (arith, e)
all-Memᴰ p c (d ∷ ds) h (Memᴰ.tail m) = all-Memᴰ p c ds (ground arith) m

-- A supported currency is a currency code.
pub supported-is_currency_code :
    (policy : ValidationPolicy) (c : String)
    → new_policy policy ≡ ok policy
    → Memᴰ c policy.supported_currencies
    → is_currency_code c ≡ true
unfolding new_policy
supported-is_currency_code policy c h m =
    all-Memᴰ is_currency_code c policy.supported_currencies (ground arith) m
