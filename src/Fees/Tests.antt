-- ===== src/Fees/Tests.antt =====
-- Charges at concrete subtotals.
use qift_platform.Prelude.{◌≡◌, ◌⊎◌, refl}
use qift_platform.Prelude.Int.{pos, ◌+ℤ◌, ◌*ℕ◌, ◌≤ℤ◌, ◌<ℤ◌}
use qift_platform.Money.{CurrencyCode, to_minor, add_money, sum_minor, from_minor}
use qift_platform.Fees.{FeeInput, DeliverySpeed, service_fee_for, delivery_fee_for, compute_fees}
use qift_platform.Fees.Charge.{service_fee_for_nearest, compute_fees_total}

abbrev basket : FeeInput
basket = record { item_subtotal = pos 299_500_000; delivery_speed = DeliverySpeed.fast }

-- 3% of 299.50 is 8.985, a fee of 9; with 15 for delivery the total is 323.50.
basket_total : (compute_fees basket).grand_total ≡ pos 323_500_000
unfolding compute_fees service_fee_for delivery_fee_for add_money sum_minor to_minor from_minor
basket_total = refl

service_fee_for_nearest_example :
    (pos 5_000_000 ≤ℤ service_fee_for (pos 299_500_000))
    × (service_fee_for (pos 299_500_000) ≡ pos 5_000_000
        ⊎ (service_fee_for (pos 299_500_000) *ℕ 200 ≤ℤ pos 299_500_000 *ℕ 3 *ℕ 2 +ℤ pos 100_000_000)
          × (pos 299_500_000 *ℕ 3 *ℕ 2 +ℤ pos 100_000_000
              <ℤ service_fee_for (pos 299_500_000) *ℕ 200 +ℤ pos 200_000_000))
service_fee_for_nearest_example = service_fee_for_nearest (pos 299_500_000)

compute_fees_total_example :
    (to_minor CurrencyCode.sar (compute_fees basket).grand_total
      ≡ to_minor CurrencyCode.sar (pos 299_500_000)
        +ℤ (to_minor CurrencyCode.sar (compute_fees basket).delivery_fee
            +ℤ to_minor CurrencyCode.sar (compute_fees basket).service_fee))
    × (to_minor CurrencyCode.sar (pos 299_500_000) +ℤ pos 500
        ≤ℤ to_minor CurrencyCode.sar (compute_fees basket).grand_total)
compute_fees_total_example = compute_fees_total basket
