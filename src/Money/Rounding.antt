-- ===== src/Money/Rounding.antt =====
-- Rounding to minor units, and the exactness of sums and products (src/fees/money.ts).
use qift_platform.Prelude.{ℕ, ◌*◌, ◌/◌, ◌≡◌, List, [], ◌∷◌, map, arith, ap, ◌∙◌}
use qift_platform.Prelude.Int.{ℤ, pos, ◌+ℤ◌, ◌*ℕ◌, ◌<ℤ◌, sum_ℤ, int_laws, +ℤ_assoc, zero-add_ℤ}
use qift_platform.Money.{
  CurrencyCode, unit, scale_for, to_minor, from_minor, round_money, sum_minor, add_money, mul_money,
}

-- Converting integer minor units to major units and back gives the same minor units.
pub to_minor-from_minor : (c : CurrencyCode) (m : ℤ) → to_minor c (from_minor c m) ≡ m
unfolding to_minor from_minor
to_minor-from_minor CurrencyCode.sar m = ground arith
to_minor-from_minor _ m = ground arith

-- The minor units of an amount that is less than half a minor unit from `n` minor units, on either side,
-- are `n`; an exact half, which is as far from two numbers, is left out.
pub to_minor_nearest :
    (c : CurrencyCode) (a n : ℤ)
    → n *ℕ (2 * (unit / scale_for c)) <ℤ a *ℕ 2 +ℤ pos (unit / scale_for c)
    → a *ℕ 2 <ℤ n *ℕ (2 * (unit / scale_for c)) +ℤ pos (unit / scale_for c)
    → to_minor c a ≡ n
unfolding to_minor
to_minor_nearest CurrencyCode.sar a n above below = ground arith
to_minor_nearest _ a n above below = ground arith

sum_minor_lem :
    (c : CurrencyCode) (t : ℤ) (xs : List ℤ) → sum_minor c t xs ≡ t +ℤ sum_ℤ (map (to_minor c) xs)
unfolding sum_minor
sum_minor_lem c t [] = omega int_laws
sum_minor_lem c t (x ∷ xs) =
    sum_minor_lem c (t +ℤ to_minor c x) xs ∙ +ℤ_assoc t (to_minor c x) (sum_ℤ (map (to_minor c) xs))

-- The minor units of a sum are exactly the sum of the minor units of its addends.
pub to_minor-add_money :
    (c : CurrencyCode) (xs : List ℤ) → to_minor c (add_money c xs) ≡ sum_ℤ (map (to_minor c) xs)
unfolding add_money
to_minor-add_money c xs =
    to_minor-from_minor c (sum_minor c (pos 0) xs)
    ∙ sum_minor_lem c (pos 0) xs
    ∙ zero-add_ℤ (sum_ℤ (map (to_minor c) xs))

-- The minor units of a product by a count are the count times the minor units of the factor.
pub to_minor-mul_money :
    (c : CurrencyCode) (u : ℤ) (n : ℕ) → to_minor c (mul_money c u n) ≡ to_minor c u *ℕ n
unfolding mul_money
to_minor-mul_money c u n = to_minor-from_minor c (to_minor c u *ℕ n)

-- Rounding a rounded amount changes nothing.
pub round_money_idem :
    (c : CurrencyCode) (a : ℤ) → round_money c (round_money c a) ≡ round_money c a
unfolding round_money
round_money_idem c a = ap (from_minor c) (to_minor-from_minor c (to_minor c a))
