-- ===== src/Fees.antt =====
-- src/fees/fee-engine.ts: the charge of an order. Amounts are ticks of `Money`.
pub mod Charge
mod Tests
use Prim.Native.String.{String}
use qift_platform.Prelude.{ℕ, ◌*◌, List, [], ◌∷◌}
use qift_platform.Prelude.Int.{ℤ, pos, ◌*ℕ◌, max_ℤ, math_round}
use qift_platform.Money.{unit, default_currency, add_money}

-- 3%, as hundredths.
abbrev pub qift_service_fee_rate : ℕ
qift_service_fee_rate = 3

abbrev pub qift_min_service_fee : ℤ
qift_min_service_fee = pos 5

abbrev pub fast_delivery_fee : ℤ
fast_delivery_fee = pos 15

abbrev pub standard_delivery_fee : ℤ
standard_delivery_fee = pos 0

abbrev pub fee_policy_version : String
fee_policy_version = "fee-v1"

pub data DeliverySpeed : Type 0 where
  same_day fast : DeliverySpeed

pub record FeeInput : Type 0 where
  pub item_subtotal : ℤ
  pub delivery_speed : DeliverySpeed

pub record FeePolicy : Type 0 where
  pub service_fee_rate : ℕ
  pub min_service_fee : ℤ
  pub fast_fee : ℤ
  pub standard_fee : ℤ
  pub version : String

pub record FeeBreakdown : Type 0 where
  pub item_subtotal : ℤ
  pub delivery_fee : ℤ
  pub service_fee : ℤ
  pub grand_total : ℤ
  pub policy : FeePolicy

unfoldable pub fee_policy_snapshot : FeePolicy
fee_policy_snapshot = record {
  service_fee_rate = qift_service_fee_rate;
  min_service_fee = qift_min_service_fee *ℕ unit;
  fast_fee = fast_delivery_fee *ℕ unit;
  standard_fee = standard_delivery_fee *ℕ unit;
  version = fee_policy_version;
}

-- `Math.max(MIN, Math.round(itemSubtotal * RATE))`: whole major units, then ticks.
unfoldable pub service_fee_for : ℤ → ℤ
unfolding math_round ◌*ℕ◌
service_fee_for item_subtotal =
    max_ℤ qift_min_service_fee (math_round (item_subtotal *ℕ qift_service_fee_rate) (100 * unit))
    *ℕ unit

unfoldable pub delivery_fee_for : DeliverySpeed → ℤ
unfolding ◌*ℕ◌
delivery_fee_for DeliverySpeed.fast = fast_delivery_fee *ℕ unit
delivery_fee_for DeliverySpeed.same_day = standard_delivery_fee *ℕ unit

unfoldable pub compute_fees : FeeInput → FeeBreakdown
compute_fees input =
    let delivery_fee = delivery_fee_for input.delivery_speed in
    let service_fee = service_fee_for input.item_subtotal in
    record {
      item_subtotal = input.item_subtotal;
      delivery_fee = delivery_fee;
      service_fee = service_fee;
      grand_total =
          add_money default_currency (input.item_subtotal ∷ delivery_fee ∷ service_fee ∷ []);
      policy = fee_policy_snapshot;
    }
