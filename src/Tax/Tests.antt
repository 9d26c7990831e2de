-- ===== src/Tax/Tests.antt =====
-- The tax engine at concrete charges.
use mathlib.Core.Option.{get_or}
use qift_platform.Prelude.{ℕ, ◌+◌, ◌*◌, ◌≤◌, ◌<◌, ◌≡◌, refl, true, false, none, some}
use qift_platform.Prelude.Int.{pos, negsuc}
use qift_platform.Prelude.Outcome.{ok, err, ◌>>=◌}
use qift_platform.Money.{CurrencyCode, round_money}
use qift_platform.Tax.{
  TaxInput, MerchantGoodsTaxInput, MerchantGoodsTaxBreakdown, negative_base_unsupported,
  divide_half_up, vat_on_minor, extract_net_minor, qift_charge_base, compute_tax,
  compute_merchant_goods_tax, default_tax_treatment, default_prices_include_vat,
}
use qift_platform.Tax.Rounding.{vat_on_minor_half_up, extract_net-vat_on}
use qift_platform.Tax.Breakdown.{
  Accounts, GoodsAccounts, charged, m, compute_tax-Accounts, compute_tax_excludes_goods,
  compute_merchant_goods_tax_legs,
}

-- A fee of 8.99 on goods of 299.50.
abbrev fee_leg : TaxInput
fee_leg = record {
  subtotal_amount = pos 299_500_000;
  platform_fee_amount = pos 8_990_000;
  treatment = none;
  prices_include_vat = none;
  vat_rate = none;
}

abbrev goods_leg : MerchantGoodsTaxInput
goods_leg = record {
  goods_subtotal_amount = pos 115_000_000;
  vat_registered = true;
  vat_number = some "300000000000003";
  prices_include_vat = some true;
  vat_rate = none;
}

-- 15% of 8.99 is 1.3485, so 1.35.
fee_vat : vat_on_minor (pos 899) 1_500 ≡ ok (pos 135)
unfolding vat_on_minor divide_half_up
fee_vat = refl

vat_on_minor_half_up_example :
    (vat : ℕ) × (vat_on_minor (pos 899) 1_500 ≡ ok (pos vat))
    × (20_000 * vat ≤ 2 * (899 * 1_500) + 10_000)
    × (2 * (899 * 1_500) + 10_000 < 20_000 * vat + 20_000)
    × (vat_on_minor (negsuc 899) 1_500 ≡ err negative_base_unsupported)
vat_on_minor_half_up_example = vat_on_minor_half_up 899 1_500

extract_net-vat_on_example : extract_net_minor (pos (899 + 135)) 1_500 ≡ ok (pos 899)
extract_net-vat_on_example = extract_net-vat_on 899 1_500 135 fee_vat

compute_tax-Accounts_example :
    Accounts
      (get_or fee_leg.prices_include_vat default_prices_include_vat)
      (m (qift_charge_base (get_or fee_leg.treatment default_tax_treatment) fee_leg))
      (compute_tax fee_leg)
compute_tax-Accounts_example = compute_tax-Accounts fee_leg

compute_tax_excludes_goods_example :
    (compute_tax (record fee_leg { subtotal_amount = pos 1_000_000 }) >>= λ b. ok (charged b))
    ≡ (compute_tax fee_leg >>= λ b. ok (charged b))
compute_tax_excludes_goods_example = compute_tax_excludes_goods fee_leg (pos 1_000_000) refl

compute_merchant_goods_tax_legs_example :
    ((b : MerchantGoodsTaxBreakdown) × (compute_merchant_goods_tax
          (record goods_leg { vat_registered = false })
        ≡ ok b)
      × (b.vat_amount ≡ pos 0)
      × (b.total_amount ≡ round_money CurrencyCode.sar (pos 115_000_000))
      × (b.taxable_amount ≡ b.total_amount))
    × GoodsAccounts
        (get_or goods_leg.prices_include_vat default_prices_include_vat)
        (m goods_leg.goods_subtotal_amount)
        (compute_merchant_goods_tax (record goods_leg { vat_registered = true }))
compute_merchant_goods_tax_legs_example = compute_merchant_goods_tax_legs goods_leg
