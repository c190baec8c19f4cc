-- ===== src/Base/Select.antt =====
-- `SELECT ... WHERE test ORDER BY ... LIMIT 1` over a list of rows: the first row that passes a test,
-- by a strict order given as a Boolean test.
use mathlib.Core.Path.{◌≡◌, refl, sym, ap, ◌∙◌}
use mathlib.Core.Logic.{inl, inr}
use mathlib.Core.Bool.{Bool, true, false, false≢true}
use mathlib.Core.Option.{Option, none, some}
use mathlib.Core.List.{List, [], ◌∷◌, Memᴰ}
use ops_flow_ai.Base.Tests.{Bool-cases, if◌then◌else◌}
use ops_flow_ai.Base.Lists.{mem-cons_cases}

-- What ORDER BY needs of its order.
pub record IsOrder {ℓ} {A : Type ℓ} (before : A → A → Bool) : Type ℓ where
  pub irrefl : (r : A) → before r r ≡ false
  pub asym : (r s : A) → before s r ≡ true → before r s ≡ false
  pub not_trans : (r s t : A) → before t s ≡ false → before s r ≡ false → before t r ≡ false

module _ {ℓ} {A : Type ℓ} (before : A → A → Bool) where
  abbrev earlier : A → Option A → Option A
  earlier r none = some r
  earlier r (some s) = if before s r then some s else some r

  unfoldable pub first_by : (A → Bool) → List A → Option A
  first_by p [] = none
  first_by p (r ∷ rs) = let rest = first_by p rs in if p r then earlier r rest else rest

  -- `r` passes the test, and no row of the list that does comes before it.
  pub record IsFirst (p : A → Bool) (rows : List A) (r : A) : Type ℓ where
    pub passes : p r ≡ true
    pub among : Memᴰ r rows
    pub first : (s : A) → Memᴰ s rows → p s ≡ true → before s r ≡ false

  abbrev pub Outcome : (A → Bool) → List A → Option A → Type ℓ
  Outcome p rows none = (s : A) → Memᴰ s rows → p s ≡ false
  Outcome p rows (some r) = IsFirst p rows r

module _ {ℓ} {A : Type ℓ} (before : A → A → Bool) (order : IsOrder before) (p : A → Bool) where
  module _ (r : A) (rows : List A) where
    -- A row that does not pass changes nothing.
    skip : (o : Option A) → p r ≡ false → Outcome before p rows o → Outcome before p (r ∷ rows) o
    skip none e h = λ s m. elim (mem-cons_cases m) [ inl q ↦ rw q e | inr m' ↦ h s m' ]
    skip (some t) e h = record {
      passes = h.passes;
      among = Memᴰ.tail h.among;
      first = λ s m q. elim (mem-cons_cases m) [
        | inl same ↦ absurd (false≢true (sym e ∙ sym (ap p same) ∙ q))
        | inr m' ↦ h.first s m' q
      ];
    }

    -- The first row that passes.
    only : p r ≡ true → Outcome before p rows none → IsFirst before p (r ∷ rows) r
    only e h = record {
      passes = e;
      among = Memᴰ.head refl;
      first = λ s m q. elim (mem-cons_cases m) [
        | inl same ↦ rw same (order.irrefl r)
        | inr m' ↦ absurd (false≢true (sym (h s m') ∙ q))
      ];
    }

    -- A row that passes, against the first of the others.
    against :
        (t : A)
        → p r ≡ true
        → IsFirst before p rows t
        → Outcome before p (r ∷ rows) (earlier before r (some t))
    against t e h = elim (Bool-cases (before t r)) [
      | inl b ↦ rw b record {
        passes = h.passes;
        among = Memᴰ.tail h.among;
        first = λ s m q. elim (mem-cons_cases m) [
          | inl same ↦ rw same (order.asym r t b)
          | inr m' ↦ h.first s m' q
        ];
      }
      | inr b ↦ rw b record {
        passes = e;
        among = Memᴰ.head refl;
        first = λ s m q. elim (mem-cons_cases m) [
          | inl same ↦ rw same (order.irrefl r)
          | inr m' ↦ order.not_trans r t s (h.first s m' q) b
        ];
      }
    ]

    chosen :
        (o : Option A)
        → p r ≡ true
        → Outcome before p rows o
        → Outcome before p (r ∷ rows) (earlier before r o)
    chosen none e h = only e h
    chosen (some t) e h = against t e h

    consider :
        (o : Option A)
        → Outcome before p rows o
        → Outcome before p (r ∷ rows) (if p r then earlier before r o else o)
    consider o h = elim (Bool-cases (p r)) [
      | inr e ↦ rw e (skip o e h)
      | inl e ↦ rw e (chosen o e h)
    ]

  pub first_by-Outcome : (rows : List A) → Outcome before p rows (first_by before p rows)
  unfolding first_by
  first_by-Outcome [] = λ s m. elim m [ ]
  first_by-Outcome (r ∷ rows) = consider r rows (first_by before p rows) (first_by-Outcome rows)
