-- ===== src/Settlement/Calculator.antt =====
-- src/settlement/settlement-calculator.ts: the net of a batch, as an enumerated signed sum in integer
-- minor units. Amounts are ticks of `Money`; a currency is the text of its column.
pub mod Net
use Prim.Native.String.{String}
use mathlib.Core.Option.{get_or}
use text.Mathlib.Text.{◌==◌ as str_eq}
use qift_platform.Prelude.{
  ℕ, Bool, true, false, ◌||◌, Option, none, some, List, [], ◌∷◌, ◌==◌, length, if◌then◌else◌,
}
use qift_platform.Prelude.Int.{ℤ, pos, ◌+ℤ◌, ◌-ℤ◌}
use qift_platform.Prelude.Outcome.{Result, ok, err, ◌>>=◌, ◌>>◌, throw_if}
use qift_platform.Prelude.Text.{to_upper}
use qift_platform.Money.{CurrencyCode, minor_digits_for, to_minor, from_minor}
use qift_platform.Settlement.Errors.{
  SettlementError, currency_scale_unsupported, unknown_currency, empty_composition,
  currencies_never_sum,
}

abbrev pub code_text : CurrencyCode → String
code_text CurrencyCode.sar = "SAR"
code_text CurrencyCode.aed = "AED"
code_text CurrencyCode.qar = "QAR"
code_text CurrencyCode.bhd = "BHD"
code_text CurrencyCode.kwd = "KWD"
code_text CurrencyCode.omr = "OMR"

abbrev pub currency_index : CurrencyCode → ℕ
currency_index CurrencyCode.sar = 0
currency_index CurrencyCode.aed = 1
currency_index CurrencyCode.qar = 2
currency_index CurrencyCode.bhd = 3
currency_index CurrencyCode.kwd = 4
currency_index CurrencyCode.omr = 5

abbrev pub currency_eq : CurrencyCode → CurrencyCode → Bool
currency_eq a b = currency_index a == currency_index b

-- `UNSAFE_3DP_CURRENCIES.has(c)`
is_unsafe_3dp : String → Bool
is_unsafe_3dp c = str_eq c "KWD" || str_eq c "BHD" || str_eq c "OMR"

unfoldable pub as_currency_code : String → Result SettlementError CurrencyCode
unfolding is_unsafe_3dp
as_currency_code raw =
    let c = to_upper raw in
    if is_unsafe_3dp c
    then err currency_scale_unsupported
    else if str_eq c "SAR"
    then ok CurrencyCode.sar
    else if str_eq c "AED"
    then ok CurrencyCode.aed
    else if str_eq c "QAR"
    then ok CurrencyCode.qar
    else err unknown_currency

pub record SettlementItemInput : Type 0 where
  pub item_id : ℕ
  pub occurrence_type : String
  pub occurrence_id : ℕ
  pub amount : ℤ
  pub currency : String

-- The lines that a caller leaves out are `none`.
pub record SettlementAdjustments : Type 0 where
  pub marketplace_adjustments : Option ℤ
  pub refunds : Option ℤ
  pub chargebacks : Option ℤ
  pub reserve_held : Option ℤ
  pub reserve_released : Option ℤ
  pub manual_adjustments : Option ℤ
  pub receivable_recovery : Option ℤ

-- The adjustments of a batch that only recovers receivables.
abbrev pub recovery_only : ℤ → SettlementAdjustments
recovery_only r = record {
  marketplace_adjustments = none;
  refunds = none;
  chargebacks = none;
  reserve_held = none;
  reserve_released = none;
  manual_adjustments = none;
  receivable_recovery = some r;
}

pub record SettlementLines : Type 0 where
  pub merchant_gross : ℤ
  pub marketplace_adjustments : ℤ
  pub qift_fees : ℤ
  pub taxes : ℤ
  pub refunds : ℤ
  pub chargebacks : ℤ
  pub reserve_held : ℤ
  pub reserve_released : ℤ
  pub manual_adjustments : ℤ
  pub receivable_recovery : ℤ

pub record SettlementCalculation : Type 0 where
  pub currency : CurrencyCode
  pub lines : SettlementLines
  pub net_amount : ℤ
  pub item_count : ℕ

-- The loop over the items, which adds to `gross_minor`.
unfoldable pub gross_loop : CurrencyCode → ℤ → List SettlementItemInput → Result SettlementError ℤ
gross_loop currency gross_minor [] = ok gross_minor
gross_loop currency gross_minor (item ∷ rest) =
    let next = gross_loop currency (gross_minor +ℤ to_minor currency item.amount) rest in
    do
      c ← as_currency_code item.currency
      throw_if (if currency_eq c currency then false else true) currencies_never_sum
      next

-- `toMinor(v ?? 0, currency)`
abbrev pub minor_or_zero : CurrencyCode → Option ℤ → ℤ
minor_or_zero currency v = to_minor currency (get_or v (pos 0))

-- The net of the gross and of the adjustments, all in minor units.
unfoldable pub net_minor : CurrencyCode → ℤ → SettlementAdjustments → ℤ
net_minor currency gross adj =
    gross
    +ℤ minor_or_zero currency adj.marketplace_adjustments
    -ℤ minor_or_zero currency adj.refunds
    -ℤ minor_or_zero currency adj.chargebacks
    -ℤ minor_or_zero currency adj.reserve_held
    +ℤ minor_or_zero currency adj.reserve_released
    +ℤ minor_or_zero currency adj.manual_adjustments
    -ℤ minor_or_zero currency adj.receivable_recovery

-- The result, from the currency and the gross.
unfoldable pub calculation_of : CurrencyCode → ℤ → SettlementAdjustments → ℕ → SettlementCalculation
calculation_of currency gross adj count =
    let major = λ (v : Option ℤ). from_minor currency (minor_or_zero currency v) in
    record {
      currency = currency;
      lines = record {
        merchant_gross = from_minor currency gross;
        marketplace_adjustments = major adj.marketplace_adjustments;
        qift_fees = pos 0;
        taxes = pos 0;
        refunds = major adj.refunds;
        chargebacks = major adj.chargebacks;
        reserve_held = major adj.reserve_held;
        reserve_released = major adj.reserve_released;
        manual_adjustments = major adj.manual_adjustments;
        receivable_recovery = major adj.receivable_recovery;
      };
      net_amount = from_minor currency (net_minor currency gross adj);
      item_count = count;
    }

unfoldable pub calculate_settlement :
    List SettlementItemInput → SettlementAdjustments → Result SettlementError SettlementCalculation
calculate_settlement [] adj = err empty_composition
calculate_settlement (first ∷ rest) adj = do
  currency ← as_currency_code first.currency
  gross ← gross_loop currency (pos 0) (first ∷ rest)
  ok (calculation_of currency gross adj (length (first ∷ rest)))
