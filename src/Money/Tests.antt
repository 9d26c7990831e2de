-- ===== src/Money/Tests.antt =====
-- The money policy at concrete amounts.
use qift_platform.Prelude.{◌≡◌, refl, [], ◌∷◌, map, arith}
use qift_platform.Prelude.Int.{pos, negsuc, ◌+ℤ◌, ◌*ℕ◌, sum_ℤ}
use qift_platform.Money.{
  CurrencyCode, scale_for, to_minor, add_money, mul_money, sum_minor, from_minor,
}
use qift_platform.Money.Rounding.{to_minor_nearest, to_minor-add_money}

-- 0.1 + 0.2 is 0.3, and three times 19.99 is 59.97.
tenths : add_money CurrencyCode.sar (pos 100_000 ∷ pos 200_000 ∷ []) ≡ pos 300_000
unfolding add_money to_minor from_minor sum_minor
tenths = refl

line_total : mul_money CurrencyCode.sar (pos 19_990_000) 3 ≡ pos 59_970_000
unfolding mul_money to_minor from_minor
line_total = refl

-- A half goes up, also below zero: `Math.round(-0.5)` is 0.
half_up : to_minor CurrencyCode.sar (negsuc 4_999) ≡ pos 0
unfolding to_minor
half_up = refl

-- 19.996 is 20.00.
to_minor_nearest_example : to_minor CurrencyCode.sar (pos 19_996_000) ≡ pos 2_000
unfolding scale_for ◌*ℕ◌ ◌+ℤ◌
to_minor_nearest_example =
    to_minor_nearest CurrencyCode.sar (pos 19_996_000) (pos 2_000) (omega arith) (omega arith)

to_minor-add_money_example :
    to_minor CurrencyCode.kwd (add_money CurrencyCode.kwd (pos 1_234_500 ∷ negsuc 999 ∷ []))
    ≡ sum_ℤ (map (to_minor CurrencyCode.kwd) (pos 1_234_500 ∷ negsuc 999 ∷ []))
to_minor-add_money_example = to_minor-add_money CurrencyCode.kwd (pos 1_234_500 ∷ negsuc 999 ∷ [])
