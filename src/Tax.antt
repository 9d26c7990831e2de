-- ===== src/Tax.antt =====
-- src/fees/tax-engine.ts: Saudi VAT. Amounts and rates are ticks of `Money`; a rate is not negative.
pub mod Rounding
pub mod Breakdown
mod Tests
use Prim.Native.String.{String}
use mathlib.Core.Option.{get_or}
use qift_platform.Prelude.{
  ℕ, ◌+◌, ◌*◌, ◌/◌, ◌%◌, Bool, true, false, Option, none, some, leb, if◌then◌else◌,
}
use qift_platform.Prelude.Int.{ℤ, pos, negsuc, ◌+ℤ◌, ◌-ℤ◌}
use qift_platform.Prelude.Outcome.{Result, ok, err, ◌>>=◌}
use qift_platform.Money.{CurrencyCode, unit, to_minor, from_minor, round_money}

-- `Error('tax_engine_negative_base_unsupported')`
pub data TaxError : Type 0 where
  negative_base_unsupported : TaxError

-- 15%
abbrev pub saudi_vat_rate : ℕ
saudi_vat_rate = 150_000

abbrev pub tax_rule_version : String
tax_rule_version = "sa-vat-agent-v3"

pub data TaxTreatment : Type 0 where
  full_value_standard agent_fee_only : TaxTreatment

abbrev pub default_tax_treatment : TaxTreatment
default_tax_treatment = TaxTreatment.agent_fee_only

abbrev pub default_prices_include_vat : Bool
default_prices_include_vat = false

abbrev pub rate_scale : ℕ
rate_scale = 10_000

-- `Math.round(rate * RATE_SCALE)`
unfoldable pub rate_basis_points : ℕ → ℕ
rate_basis_points rate = (2 * (rate * rate_scale) + unit) / (2 * unit)

-- The natural number that a non-negative count of minor units is, or the refusal.
unfoldable pub assert_non_negative_minor : ℤ → Result TaxError ℕ
assert_non_negative_minor (pos n) = ok n
assert_non_negative_minor (negsuc n) = err negative_base_unsupported

-- `Math.floor(num / den)`, one more if twice the remainder reaches `den`.
unfoldable pub divide_half_up : ℕ → ℕ → ℕ
divide_half_up num den =
    let q = num / den in let r = num % den in q + (if leb den (2 * r) then 1 else 0)

unfoldable pub vat_on_minor : ℤ → ℕ → Result TaxError ℤ
unfolding assert_non_negative_minor
vat_on_minor base_minor rate_bp = do
  base ← assert_non_negative_minor base_minor
  ok (pos (divide_half_up (base * rate_bp) rate_scale))

unfoldable pub extract_net_minor : ℤ → ℕ → Result TaxError ℤ
unfolding assert_non_negative_minor
extract_net_minor gross_minor rate_bp = do
  gross ← assert_non_negative_minor gross_minor
  ok (pos (divide_half_up (gross * rate_scale) (rate_scale + rate_bp)))

pub record TaxInput : Type 0 where
  pub subtotal_amount : ℤ
  pub platform_fee_amount : ℤ
  pub treatment : Option TaxTreatment
  pub prices_include_vat : Option Bool
  pub vat_rate : Option ℕ

-- The amounts that one leg is charged, in major units.
pub record Charged : Type 0 where
  pub taxable_amount : ℤ
  pub vat_amount : ℤ
  pub total_amount : ℤ

pub record TaxSnapshot : Type 0 where
  pub rule_version : String
  pub snapshot_rate : ℕ
  pub snapshot_treatment : TaxTreatment
  pub snapshot_includes_vat : Bool
  pub taxable_base : ℤ
  pub snapshot_vat : ℤ
  pub snapshot_facilitated : ℤ

pub record TaxBreakdown : Type 0 where
  pub tax_treatment : TaxTreatment
  pub includes_vat : Bool
  pub taxable_amount : ℤ
  pub rate : ℕ
  pub vat_amount : ℤ
  pub total_before_vat : ℤ
  pub total_amount : ℤ
  pub facilitated_value : ℤ
  pub tax_snapshot : TaxSnapshot

-- The two price conventions, on a charge in minor units.
unfoldable pub charge_minor : Bool → ℤ → ℕ → Result TaxError Charged
charge_minor true gross rate_bp = do
  net ← extract_net_minor gross rate_bp
  ok (record {
    taxable_amount = from_minor CurrencyCode.sar net;
    vat_amount = from_minor CurrencyCode.sar (gross -ℤ net);
    total_amount = from_minor CurrencyCode.sar gross;
  })
charge_minor false base rate_bp = do
  vat ← vat_on_minor base rate_bp
  ok (record {
    taxable_amount = from_minor CurrencyCode.sar base;
    vat_amount = from_minor CurrencyCode.sar vat;
    total_amount = from_minor CurrencyCode.sar (base +ℤ vat);
  })

-- What Qift charges: its fee alone as an agent, the whole value as a principal.
unfoldable pub qift_charge_base : TaxTreatment → TaxInput → ℤ
qift_charge_base TaxTreatment.agent_fee_only input = input.platform_fee_amount
qift_charge_base TaxTreatment.full_value_standard input =
    input.subtotal_amount +ℤ input.platform_fee_amount

unfoldable pub facilitated_by : TaxTreatment → ℤ → ℤ
facilitated_by TaxTreatment.agent_fee_only subtotal = round_money CurrencyCode.sar subtotal
facilitated_by TaxTreatment.full_value_standard subtotal = pos 0

-- The breakdown of the charged amounts, with the snapshot that freezes it.
unfoldable pub tax_breakdown : TaxInput → Charged → TaxBreakdown
tax_breakdown input c =
    let treatment = get_or input.treatment default_tax_treatment in
    let includes = get_or input.prices_include_vat default_prices_include_vat in
    let vat_rate = get_or input.vat_rate saudi_vat_rate in
    let facilitated = facilitated_by treatment input.subtotal_amount in
    record {
      tax_treatment = treatment;
      includes_vat = includes;
      taxable_amount = c.taxable_amount;
      rate = vat_rate;
      vat_amount = c.vat_amount;
      total_before_vat = c.taxable_amount;
      total_amount = c.total_amount;
      facilitated_value = facilitated;
      tax_snapshot = record {
        rule_version = tax_rule_version;
        snapshot_rate = vat_rate;
        snapshot_treatment = treatment;
        snapshot_includes_vat = includes;
        taxable_base = c.taxable_amount;
        snapshot_vat = c.vat_amount;
        snapshot_facilitated = facilitated;
      };
    }

unfoldable pub compute_tax : TaxInput → Result TaxError TaxBreakdown
compute_tax input = do
  let treatment = get_or input.treatment default_tax_treatment
  let includes = get_or input.prices_include_vat default_prices_include_vat
  let vat_rate = get_or input.vat_rate saudi_vat_rate
  c ←
      charge_minor includes (to_minor CurrencyCode.sar (qift_charge_base treatment input))
        (rate_basis_points vat_rate)
  ok (tax_breakdown input c)

pub data MerchantTreatment : Type 0 where
  merchant_goods_standard merchant_not_vat_registered : MerchantTreatment

pub record MerchantGoodsTaxInput : Type 0 where
  pub goods_subtotal_amount : ℤ
  pub vat_registered : Bool
  pub vat_number : Option String
  pub prices_include_vat : Option Bool
  pub vat_rate : Option ℕ

pub record MerchantGoodsTaxSnapshot : Type 0 where
  pub rule_version : String
  pub snapshot_rate : ℕ
  pub snapshot_treatment : MerchantTreatment
  pub snapshot_registered : Bool
  pub snapshot_number : Option String
  pub snapshot_includes_vat : Bool
  pub taxable_base : ℤ
  pub snapshot_vat : ℤ

pub record MerchantGoodsTaxBreakdown : Type 0 where
  pub merchant_treatment : MerchantTreatment
  pub includes_vat : Bool
  pub taxable_amount : ℤ
  pub rate : ℕ
  pub vat_amount : ℤ
  pub total_amount : ℤ
  pub goods_snapshot : MerchantGoodsTaxSnapshot

-- The breakdown of a treatment, a rate and the charged amounts.
goods_breakdown :
    MerchantGoodsTaxInput → MerchantTreatment → ℕ → Charged → MerchantGoodsTaxBreakdown
goods_breakdown input treatment vat_rate c =
    let includes = get_or input.prices_include_vat default_prices_include_vat in
    record {
      merchant_treatment = treatment;
      includes_vat = includes;
      taxable_amount = c.taxable_amount;
      rate = vat_rate;
      vat_amount = c.vat_amount;
      total_amount = c.total_amount;
      goods_snapshot = record {
        rule_version = tax_rule_version;
        snapshot_rate = vat_rate;
        snapshot_treatment = treatment;
        snapshot_registered = input.vat_registered;
        snapshot_number = input.vat_number;
        snapshot_includes_vat = includes;
        taxable_base = c.taxable_amount;
        snapshot_vat = c.vat_amount;
      };
    }

-- The goods leg of a merchant that is registered for VAT, and of one that is not.
registered_goods_tax : Bool → MerchantGoodsTaxInput → Result TaxError MerchantGoodsTaxBreakdown
unfolding goods_breakdown
registered_goods_tax false input =
    let total = round_money CurrencyCode.sar input.goods_subtotal_amount in
    ok (
      goods_breakdown input MerchantTreatment.merchant_not_vat_registered 0
        (record { taxable_amount = total; vat_amount = pos 0; total_amount = total }))
registered_goods_tax true input = do
  let includes = get_or input.prices_include_vat default_prices_include_vat
  let vat_rate = get_or input.vat_rate saudi_vat_rate
  c ←
      charge_minor includes (to_minor CurrencyCode.sar input.goods_subtotal_amount)
        (rate_basis_points vat_rate)
  ok (goods_breakdown input MerchantTreatment.merchant_goods_standard vat_rate c)

unfoldable pub compute_merchant_goods_tax :
    MerchantGoodsTaxInput → Result TaxError MerchantGoodsTaxBreakdown
unfolding registered_goods_tax
compute_merchant_goods_tax input = registered_goods_tax input.vat_registered input
