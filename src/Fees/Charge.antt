-- ===== src/Fees/Charge.antt =====
-- What an order is charged (src/fees/fee-engine.ts).
use qift_platform.Prelude.{◌≡◌, ◌⊎◌, [], ◌∷◌, arith}
use qift_platform.Prelude.Int.{
  ℤ, pos, ◌+ℤ◌, ◌*ℕ◌, ◌≤ℤ◌, ◌<ℤ◌, int_laws, math_round, math_round_mono, max_ℤ,
}
use qift_platform.Money.{CurrencyCode, to_minor}
use qift_platform.Money.Rounding.{to_minor-add_money}
use qift_platform.Fees.{FeeInput, DeliverySpeed, service_fee_for, delivery_fee_for, compute_fees}

-- The service fee is five major units, or else it is more than that and is the whole number of
-- major units nearest to 3% of the subtotal, a half going up.
pub service_fee_for_nearest :
    (a : ℤ)
    → let fee = service_fee_for a in
      let rate = a *ℕ 3 in
      (pos 5_000_000 ≤ℤ fee)
      × (fee ≡ pos 5_000_000
          ⊎ (fee *ℕ 200 ≤ℤ rate *ℕ 2 +ℤ pos 100_000_000)
            × (rate *ℕ 2 +ℤ pos 100_000_000 <ℤ fee *ℕ 200 +ℤ pos 200_000_000))
unfolding service_fee_for
service_fee_for_nearest a = ground arith

thrice_mono : (a b : ℤ) → a ≤ℤ b → a *ℕ 3 ≤ℤ b *ℕ 3
unfolding ◌*ℕ◌
thrice_mono a b h = ground arith

floor_mono : (x y : ℤ) → x ≤ℤ y → max_ℤ (pos 5) x *ℕ 1_000_000 ≤ℤ max_ℤ (pos 5) y *ℕ 1_000_000
unfolding ◌*ℕ◌
floor_mono x y h = ground arith

-- A larger subtotal never pays a smaller service fee.
pub service_fee_for_mono : (a b : ℤ) → a ≤ℤ b → service_fee_for a ≤ℤ service_fee_for b
unfolding service_fee_for
service_fee_for_mono a b h =
    floor_mono (math_round (a *ℕ 3) 100_000_000) (math_round (b *ℕ 3) 100_000_000)
      (math_round_mono (a *ℕ 3) (b *ℕ 3) 100_000_000 (thrice_mono a b h))

floor_minor : (x : ℤ) → pos 500 ≤ℤ to_minor CurrencyCode.sar (max_ℤ (pos 5) x *ℕ 1_000_000)
unfolding ◌*ℕ◌ to_minor
floor_minor x = ground arith

service_fee_minor : (a : ℤ) → pos 500 ≤ℤ to_minor CurrencyCode.sar (service_fee_for a)
unfolding service_fee_for
service_fee_minor a = floor_minor (math_round (a *ℕ 3) 100_000_000)

delivery_fee_minor : (s : DeliverySpeed) → pos 0 ≤ℤ to_minor CurrencyCode.sar (delivery_fee_for s)
unfolding delivery_fee_for to_minor
delivery_fee_minor DeliverySpeed.same_day = omega arith
delivery_fee_minor DeliverySpeed.fast = omega arith

-- The grand total is, to the minor unit, the rounded subtotal plus the delivery fee plus the service
-- fee, and it is at least five major units over the rounded subtotal.
pub compute_fees_total :
    (input : FeeInput)
    → let b = compute_fees input in
      let m = to_minor CurrencyCode.sar in
      (m b.grand_total ≡ m input.item_subtotal +ℤ (m b.delivery_fee +ℤ m b.service_fee))
      × (m input.item_subtotal +ℤ pos 500 ≤ℤ m b.grand_total)
unfolding compute_fees
compute_fees_total input =
    rw
      (to_minor-add_money CurrencyCode.sar (
        input.item_subtotal
        ∷ delivery_fee_for input.delivery_speed
        ∷ service_fee_for input.item_subtotal
        ∷ []))
      (omega
        (int_laws, service_fee_minor input.item_subtotal, delivery_fee_minor input.delivery_speed))
