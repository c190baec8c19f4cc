-- ===== src/Decimal/Sign.antt =====
-- The sign of a decimal value: +, * and rounding keep values that are at least 0 so.
use ops_flow_ai.Base.{
  ℕ, suc, zero, ◌+◌, ◌-◌, ◌*◌, ◌^◌, ◌<◌, ◌≡◌, ◌⊎◌, inl, inr, refl, false, arith, Bool-cases,
}
use ops_flow_ai.Decimal.{
  Decimal, zero_decimal, dec_leb, dec_add, dec_mul, fix, is_below_zero, is_at_most_zero,
  round_half_even, rounded, exact_mul, exact_add,
}

-- At least 0: without the sign, or a signed zero.
pub IsNonNegative : Decimal → Type 0
IsNonNegative d = (d.negative ≡ false) ⊎ (d.coefficient ≡ 0)

pow_pos : (n : ℕ) → 0 < 10 ^ n
pow_pos zero = omega arith
pow_pos (suc n) = omega (arith, pow_pos n)

mul_zero : (a b : ℕ) → 0 < b → a * b ≡ 0 → a ≡ 0
mul_zero zero b p e = refl
mul_zero (suc a) b p e = absurd (omega arith)

pub IsNonNegative-not_below : (d : Decimal) → IsNonNegative d → is_below_zero d ≡ false
unfolding IsNonNegative dec_leb
IsNonNegative-not_below d (inl e) = ground arith
IsNonNegative-not_below d (inr e) = ground arith

pub not_below-IsNonNegative : (d : Decimal) → is_below_zero d ≡ false → IsNonNegative d
unfolding IsNonNegative dec_leb
not_below-IsNonNegative d h = elim (Bool-cases d.negative) [
  | inl e ↦ inr (mul_zero d.coefficient (10 ^ (d.up + 0)) (pow_pos (d.up + 0)) (ground (arith, e)))
  | inr e ↦ inl e
]

round_half_even_zero : (k : ℕ) → round_half_even 0 k ≡ 0
unfolding round_half_even
round_half_even_zero k = ground (arith, pow_pos k)

rounded-IsNonNegative : (n : ℕ) (d : Decimal) → IsNonNegative d → IsNonNegative (rounded n d)
unfolding IsNonNegative rounded
rounded-IsNonNegative n d h = ground (arith, round_half_even_zero (n - 28))

fix-IsNonNegative : (d : Decimal) → IsNonNegative d → IsNonNegative (fix d)
unfolding fix
fix-IsNonNegative d h = rounded-IsNonNegative _ d h

exact_mul-IsNonNegative :
    (a b : Decimal) → IsNonNegative a → IsNonNegative b → IsNonNegative (exact_mul a b)
unfolding IsNonNegative exact_mul
exact_mul-IsNonNegative a b h k = ground arith

pub dec_mul-IsNonNegative :
    (a b : Decimal) → IsNonNegative a → IsNonNegative b → IsNonNegative (dec_mul a b)
unfolding dec_mul
dec_mul-IsNonNegative a b h k = fix-IsNonNegative (exact_mul a b) (exact_mul-IsNonNegative a b h k)

exact_add-IsNonNegative :
    (a b : Decimal) → IsNonNegative a → IsNonNegative b → IsNonNegative (exact_add a b)
unfolding IsNonNegative exact_add
exact_add-IsNonNegative a b h k = ground arith

pub dec_add-IsNonNegative :
    (a b : Decimal) → IsNonNegative a → IsNonNegative b → IsNonNegative (dec_add a b)
unfolding dec_add
dec_add-IsNonNegative a b h k = fix-IsNonNegative (exact_add a b) (exact_add-IsNonNegative a b h k)

pub zero-IsNonNegative : IsNonNegative zero_decimal
unfolding IsNonNegative
zero-IsNonNegative = inl refl

pub positive-IsNonNegative : (d : Decimal) → is_at_most_zero d ≡ false → IsNonNegative d
unfolding IsNonNegative dec_leb
positive-IsNonNegative d h = ground arith
