-- ===== src/Money.antt =====
-- src/fees/money.ts: the money policy. A `number` of major units is a whole number of ticks, one
-- millionth of a major unit each, so that every finite decimal amount of up to six digits is exact.
-- The test for a non-finite amount has no counterpart: every integer of ticks is finite.
-- The source rounds a product of doubles. A decimal half, such as 1.005 riyals, goes up here, while the
-- product may lie just below it (1.005 * 100 is 100.49999999999999) and go down there.
pub mod Rounding
mod Tests
use qift_platform.Prelude.{ℕ, ◌*◌, ◌/◌, ◌^◌, List, [], ◌∷◌, Bool, true, false, Option, none, some}
use qift_platform.Prelude.Int.{ℤ, pos, ◌+ℤ◌, ◌*ℕ◌, math_round}

pub data CurrencyCode : Type 0 where
  sar aed qar bhd kwd omr : CurrencyCode

-- ISO-4217 minor-unit digits.
unfoldable pub minor_digits_for : CurrencyCode → ℕ
minor_digits_for CurrencyCode.sar = 2
minor_digits_for CurrencyCode.aed = 2
minor_digits_for CurrencyCode.qar = 2
minor_digits_for CurrencyCode.bhd = 3
minor_digits_for CurrencyCode.kwd = 3
minor_digits_for CurrencyCode.omr = 3

abbrev pub default_currency : CurrencyCode
default_currency = CurrencyCode.sar

-- Ticks in one major unit.
abbrev pub unit : ℕ
unit = 1_000_000

unfoldable pub scale_for : CurrencyCode → ℕ
unfolding minor_digits_for
scale_for c = 10 ^ minor_digits_for c

-- `Math.round(amount * scaleFor(currency))`
unfoldable pub to_minor : CurrencyCode → ℤ → ℤ
unfolding scale_for math_round ◌*ℕ◌
to_minor c amount = math_round (amount *ℕ scale_for c) unit

-- `minor / scaleFor(currency)`, which is a whole number of ticks.
unfoldable pub from_minor : CurrencyCode → ℤ → ℤ
unfolding scale_for ◌*ℕ◌
from_minor c minor = minor *ℕ (unit / scale_for c)

unfoldable pub round_money : CurrencyCode → ℤ → ℤ
round_money c amount = from_minor c (to_minor c amount)

-- `amounts.reduce((sum, a) => sum + toMinor(a, currency), 0)`
unfoldable pub sum_minor : CurrencyCode → ℤ → List ℤ → ℤ
sum_minor c total [] = total
sum_minor c total (a ∷ rest) = sum_minor c (total +ℤ to_minor c a) rest

unfoldable pub add_money : CurrencyCode → List ℤ → ℤ
add_money c amounts = from_minor c (sum_minor c (pos 0) amounts)

-- The count is an integer by its type.
unfoldable pub mul_money : CurrencyCode → ℤ → ℕ → ℤ
mul_money c unit_amount count = from_minor c (to_minor c unit_amount *ℕ count)
