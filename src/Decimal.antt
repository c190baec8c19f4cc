-- ===== src/Decimal.antt =====
-- Python's finite `Decimal` values under the default context, as far as the program computes with
-- them: sign, coefficient and exponent; order, +, -, * and abs, rounded half to even to 28 digits.
-- The bounds on the exponent (about a million) and the non-finite values, which every constructor
-- of the program refuses, are left out.
pub mod Sign
use ops_flow_ai.Base.{
  ℕ, zero, suc, ◌+◌, ◌-◌, ◌*◌, ◌/◌, ◌%◌, ◌^◌, Bool, true, false, ◌&&◌, ◌||◌, not, ltb, leb, ◌==◌,
  if◌then◌else◌,
}

-- The number (-1)^negative * coefficient * 10^(up - down), with `up` or `down` 0 in a value read
-- from text.
pub record Decimal : Type 0 where
  pub negative : Bool
  pub coefficient : ℕ
  pub up : ℕ
  pub down : ℕ

abbrev pub of_ℕ : ℕ → Decimal
of_ℕ n = record { negative = false; coefficient = n; up = 0; down = 0 }

-- Decimal("0")
abbrev pub zero_decimal : Decimal
zero_decimal = of_ℕ 0

unfoldable pub is_zero : Decimal → Bool
is_zero d = d.coefficient == 0

-- The coefficients of two values at a common exponent.
abbrev at_common : Decimal → Decimal → ℕ
at_common a b = a.coefficient * 10 ^ (a.up + b.down)

-- a <= b
unfoldable pub dec_leb : Decimal → Decimal → Bool
dec_leb a b =
    let x = at_common a b in
    let y = at_common b a in
    if a.negative
    then (if b.negative then leb y x else true)
    else if b.negative
    then (x == 0 && y == 0)
    else leb x y

-- a < b
abbrev pub dec_ltb : Decimal → Decimal → Bool
dec_ltb a b = not (dec_leb b a)

-- value < 0 and value <= 0
abbrev pub is_below_zero : Decimal → Bool
is_below_zero d = dec_ltb d zero_decimal

abbrev pub is_at_most_zero : Decimal → Bool
is_at_most_zero d = dec_leb d zero_decimal

-- The number of decimal digits; a number has no more digits than its value, so `n` is fuel enough.
digit_count : ℕ → ℕ → ℕ
digit_count zero n = 0
digit_count (suc f) n = let rest = digit_count f (n / 10) in if n == 0 then 0 else suc rest

abbrev precision : ℕ
precision = 28

-- Division by 10 ^ k, half to even.
round_half_even : ℕ → ℕ → ℕ
round_half_even n k =
    let q = n / 10 ^ k in
    let r = n % 10 ^ k in
    if ltb (10 ^ k) (2 * r) || (2 * r == 10 ^ k && q % 2 == 1) then q + 1 else q

-- A value of `n` digits rounded to the context's precision; a carry into a 29th digit ends in 0 and
-- changes no value.
rounded : ℕ → Decimal → Decimal
unfolding round_half_even
rounded n d = if leb n precision then d else record d {
  coefficient = round_half_even d.coefficient (n - precision);
  up = d.up + (n - precision);
}

unfoldable pub fix : Decimal → Decimal
unfolding digit_count rounded
fix d = rounded (digit_count (d.coefficient + 1) d.coefficient) d

-- The exact product and sum, of which Python's operators return the rounded value.
exact_mul : Decimal → Decimal → Decimal
exact_mul a b = record {
  negative = if a.negative then not b.negative else b.negative;
  coefficient = a.coefficient * b.coefficient;
  up = a.up + b.up;
  down = a.down + b.down;
}

exact_add : Decimal → Decimal → Decimal
exact_add a b =
    let x = at_common a b in
    let y = at_common b a in
    let same = (if a.negative then b.negative else not b.negative) in
    record {
      negative = if same then a.negative else if ltb x y then b.negative else ltb y x && a.negative;
      coefficient = if same then x + y else if ltb x y then y - x else x - y;
      up = 0;
      down = a.down + b.down;
    }

unfoldable pub dec_mul : Decimal → Decimal → Decimal
unfolding fix exact_mul
dec_mul a b = fix (exact_mul a b)

unfoldable pub dec_add : Decimal → Decimal → Decimal
unfolding fix exact_add
dec_add a b = fix (exact_add a b)

abbrev pub dec_neg : Decimal → Decimal
dec_neg a = record a { negative = not a.negative }

abbrev pub dec_sub : Decimal → Decimal → Decimal
dec_sub a b = dec_add a (dec_neg b)

unfoldable pub dec_abs : Decimal → Decimal
unfolding fix
dec_abs a = fix (record a { negative = false })
