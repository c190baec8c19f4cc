-- ===== src/Application/Contract.antt =====
-- src/opsflow/validation/business_data.py: the contract of the answer of a provider of trusted data.
-- Letters are folded over ASCII.
use ops_flow_ai.Base.{
  ℕ, ◌+◌, String, Bool, true, false, not, ◌&&◌, Option, none, some, List, [], ◌∷◌, ◌++◌, map, leb,
  ltb, ◌==◌, any, length, codes, str_eq, Result, trusted_data_contract, ◌>>=◌, ◌>>◌, guard,
  if◌then◌else◌,
}
use ops_flow_ai.Domain.Records.{is_space}
use ops_flow_ai.Validation.Draft.{ExtractedLine, ExtractionDraft}
use ops_flow_ai.Validation.Models.{TrustedCustomer, TrustedProduct, TrustedBusinessData}
use ops_flow_ai.Validation.Build.{zip_strict}

-- `str.casefold` of one character
abbrev pub fold_code : ℕ → ℕ
fold_code c = if leb b'A' c && leb c b'Z' then c + 32 else c

-- Equality of texts given by their characters.
abbrev pub codes_eq : List ℕ → List ℕ → Bool
codes_eq [] [] = true
codes_eq (a ∷ as') (b ∷ bs) = a == b && codes_eq as' bs
codes_eq _ _ = false

abbrev end_word : List ℕ → List (List ℕ) → List (List ℕ)
end_word [] words = words
end_word word words = word ∷ words

-- The words of a text, read with the word that is begun.
words_from : List ℕ → List ℕ → List (List ℕ)
words_from begun [] = end_word begun []
words_from begun (c ∷ cs) = elim (is_space c) [
  | true ↦ end_word begun (words_from [] cs)
  | false ↦ words_from (begun ++ c ∷ []) cs
]

-- " ".join(words)
join_words : List (List ℕ) → List ℕ
join_words [] = []
join_words (w ∷ []) = w
join_words (w ∷ ws) = w ++ b' ' ∷ join_words ws

-- `normalize_customer_name`, as characters
unfoldable pub normalize_customer_name : String → List ℕ
unfolding words_from join_words
normalize_customer_name value = join_words (words_from [] (map fold_code (codes value)))

-- The order of Python's texts.
codes_leb : List ℕ → List ℕ → Bool
codes_leb [] ys = true
codes_leb (x ∷ xs) [] = false
codes_leb (x ∷ xs) (y ∷ ys) = let rest = codes_leb xs ys in if x == y then rest else ltb x y

insert_text : String → List String → List String
unfolding codes_leb
insert_text x [] = x ∷ []
insert_text x (y ∷ ys) =
    let rest = insert_text x ys in if codes_leb (codes x) (codes y) then x ∷ y ∷ ys else y ∷ rest

-- sorted(references)
unfoldable pub sorted_texts : List String → List String
unfolding insert_text
sorted_texts [] = []
sorted_texts (x ∷ xs) = insert_text x (sorted_texts xs)

abbrev texts_eq : List String → List String → Bool
texts_eq [] [] = true
texts_eq (a ∷ as') (b ∷ bs) = str_eq a b && texts_eq as' bs
texts_eq _ _ = false

-- The loop over the candidates: no reference among those seen.
unfoldable pub distinct_references : List String → List TrustedCustomer → Bool
distinct_references seen [] = true
distinct_references seen (c ∷ cs) =
    not (any (str_eq c.reference) seen) && distinct_references (seen ++ c.reference ∷ []) cs

abbrev reference_of : TrustedCustomer → String
reference_of c = c.reference

-- The tests on the identity that was asked for.
unfoldable pub identity_ok : Option String → Option String → List TrustedCustomer → Bool
unfolding normalize_customer_name
identity_ok (some reference) name candidates =
    not (any (λ c. not (str_eq c.reference reference)) candidates)
identity_ok none (some name) candidates =
    let wanted = normalize_customer_name name in
    not (any (λ c. not (codes_eq (normalize_customer_name c.name) wanted)) candidates)
identity_ok none none candidates = elim candidates [ [] ↦ true | _ ∷ _ ↦ false ]

abbrev product_ok : ExtractedLine × Option TrustedProduct → Bool
product_ok (line, none) = true
product_ok (line, some p) = elim line.sku [ none ↦ false | some sku ↦ str_eq p.sku sku ]

abbrev products_ok : List (ExtractedLine × Option TrustedProduct) → Bool
products_ok [] = true
products_ok (pair ∷ pairs) = product_ok pair && products_ok pairs

-- `validate_trusted_business_data`
unfoldable pub validate_trusted_business_data :
    ExtractionDraft → TrustedBusinessData → Result (Unit {0})
unfolding distinct_references sorted_texts identity_ok zip_strict
validate_trusted_business_data draft trusted = do
  guard (length trusted.products_by_line == length draft.lines) trusted_data_contract
  guard (distinct_references [] trusted.customer_candidates) trusted_data_contract
  let references = map reference_of trusted.customer_candidates
  guard (texts_eq references (sorted_texts references)) trusted_data_contract
  guard (identity_ok draft.customer_reference draft.customer_name trusted.customer_candidates)
      trusted_data_contract
  pairs ← zip_strict draft.lines trusted.products_by_line
  guard (products_ok pairs) trusted_data_contract
