-- ===== src/Base/Table.antt =====
-- A database table as the list of its rows, with a key.
use Prim.Native.Nat.{ℕ}
use mathlib.Core.Path.{◌≡◌, refl, subst}
use mathlib.Core.Logic.{inl, inr}
use mathlib.Core.Option.{Option, none, some}
use mathlib.Core.Option
use mathlib.Core.List.{List, [], ◌∷◌, ◌++◌, map, Memᴰ}
use native.Mathlib.Omega.{arith}
use ops_flow_ai.Base.Tests.{◌==◌, Bool-cases, if◌then◌else◌}
use ops_flow_ai.Base.Lists.{All}

module _ {ℓ} {A : Type ℓ} (key : A → ℕ) where
  -- The row under a key.
  unfoldable pub find : ℕ → List A → Option A
  find k [] = none
  find k (x ∷ xs) = if key x == k then some x else find k xs

  -- The row of a table with the key of the given row is replaced by it (UPDATE by primary key).
  unfoldable pub put : A → List A → List A
  put x [] = []
  put x (y ∷ ys) = if key y == key x then x ∷ ys else y ∷ put x ys

  -- What a lookup returns has the key that was looked up.
  pub find_key : (k : ℕ) (xs : List A) {x : A} → find k xs ≡ some x → key x ≡ k
  unfolding find
  find_key k [] h = ground arith
  find_key k (x ∷ xs) h = elim (Bool-cases (key x == k)) [
    | inl e ↦ ground arith
    | inr e ↦ find_key k xs (ground arith)
  ]

  pub find-put :
      (j : ℕ) (x : A) (xs : List A)
      → find j (put x xs) ≡ (if key x == j then Option.map (λ _. x) (find j xs) else find j xs)
  unfolding find put
  find-put j x [] = ground arith
  find-put j x (y ∷ ys) = ground (arith, find-put j x ys)

  -- A row that is there is found again after its update.
  pub find-put_self :
      (x : A) (xs : List A) {y : A} → find (key x) xs ≡ some y → find (key x) (put x xs) ≡ some x
  find-put_self x xs h = ground (arith, find-put (key x) x xs)

  pub All-put {κ} : (P : A → Type κ) (x : A) (xs : List A) → All P xs → P x → All P (put x xs)
  unfolding put
  All-put P x [] h p = h
  All-put P x (y ∷ ys) h p = elim (Bool-cases (key y == key x)) [
    | inl e ↦ rw e (p, h.1)
    | inr e ↦ rw e (h.0, All-put P x ys h.1 p)
  ]

  -- A predicate of all rows holds of the row that is found.
  pub All-find {κ} :
      (P : A → Type κ) (k : ℕ) (xs : List A) {x : A} → All P xs → find k xs ≡ some x → P x
  unfolding find
  All-find P k [] h e = absurd (ground arith)
  All-find P k (y ∷ ys) {x} h e = elim (Bool-cases (key y == k)) [
    | inl t ↦ let same : y ≡ x = ground arith in subst P same h.0
    | inr t ↦ All-find P k ys h.1 (ground arith)
  ]

  -- A row added at the end is found under its key if no row had it.
  pub find-append :
      (k : ℕ) (xs ys : List A)
      → find k (xs ++ ys) ≡ elim (find k xs) [ none ↦ find k ys | some x ↦ some x ]
  unfolding find
  find-append k [] ys = refl
  find-append k (x ∷ xs) ys = ground (arith, find-append k xs ys)

  -- No two rows have the same key.
  abbrev pub Distinct : List A → Type ℓ
  Distinct [] = Unit
  Distinct (x ∷ xs) = (find (key x) xs ≡ none) × Distinct xs

  pub Distinct-put : (x : A) (xs : List A) → Distinct xs → Distinct (put x xs)
  unfolding put
  Distinct-put x [] d = d
  Distinct-put x (y ∷ ys) d = elim (Bool-cases (key y == key x)) [
    | inl e ↦ rw e (ground (arith, d.0), d.1)
    | inr e ↦ rw e (ground (arith, d.0, find-put (key y) x ys), Distinct-put x ys d.1)
  ]

  -- Under distinct keys every row is the one found under its key.
  pub find_of_mem : (xs : List A) {x : A} → Distinct xs → Memᴰ x xs → find (key x) xs ≡ some x
  unfolding find
  find_of_mem [] d m = elim m [ ]
  find_of_mem (y ∷ ys) {x} d (Memᴰ.head e) = ground (arith, e)
  find_of_mem (y ∷ ys) {x} d (Memᴰ.tail m) = ground (arith, find_of_mem ys d.1 m, d.0)

-- Changes of a whole table.
module _ {ℓ} {A : Type ℓ} (key : A → ℕ) where
  pub All-map {κ} :
      (P : A → Type κ) (f : A → A) (xs : List A)
      → ((x : A) → P x → P (f x))
      → All P xs
      → All P (map f xs)
  All-map P f [] keeps h = h
  All-map P f (x ∷ xs) keeps h = (keeps x h.0, All-map P f xs keeps h.1)

  pub find-map :
      (f : A → A) (k : ℕ) (xs : List A)
      → ((x : A) → key (f x) ≡ key x)
      → find key k (map f xs) ≡ Option.map f (find key k xs)
  unfolding find
  find-map f k [] same = refl
  find-map f k (x ∷ xs) same = ground (arith, same x, find-map f k xs same)

  pub Distinct-map :
      (f : A → A) (xs : List A)
      → ((x : A) → key (f x) ≡ key x)
      → Distinct key xs
      → Distinct key (map f xs)
  Distinct-map f [] same d = d
  Distinct-map f (x ∷ xs) same d =
      (ground (arith, same x, find-map f (key (f x)) xs same, d.0), Distinct-map f xs same d.1)

  pub Distinct-append :
      (xs : List A) (y : A)
      → Distinct key xs
      → find key (key y) xs ≡ none
      → Distinct key (xs ++ y ∷ [])
  unfolding find
  Distinct-append [] y d h = (refl, tt)
  Distinct-append (x ∷ xs) y d h = (
    ground (arith, find-append key (key x) xs (y ∷ []), d.0),
    Distinct-append xs y d.1 (ground arith),
  )
