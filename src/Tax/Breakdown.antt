-- ===== src/Tax/Breakdown.antt =====
-- What a tax breakdown adds up to, on both price conventions and both legs (src/fees/tax-engine.ts).
use mathlib.Core.Option.{get_or}
use qift_platform.Prelude.{ℕ, ◌+◌, ◌*◌, ◌≤◌, ◌≡◌, refl, Bool, true, false, arith, if◌then◌else◌}
use qift_platform.Prelude.Int.{ℤ, pos, negsuc, ◌+ℤ◌, ◌≤ℤ◌, int_laws}
use qift_platform.Prelude.Outcome.{Result, ok, err, ◌>>=◌}
use qift_platform.Money.{CurrencyCode, to_minor, round_money}
use qift_platform.Money.Rounding.{to_minor-from_minor}
use qift_platform.Tax.{
  TaxError, negative_base_unsupported, TaxTreatment, TaxInput, TaxBreakdown, Charged,
  default_tax_treatment, default_prices_include_vat, rate_scale, divide_half_up, vat_on_minor,
  extract_net_minor, charge_minor, qift_charge_base, compute_tax, MerchantGoodsTaxInput,
  MerchantGoodsTaxBreakdown, MerchantTreatment, compute_merchant_goods_tax, rate_basis_points,
  saudi_vat_rate, tax_breakdown, goods_breakdown,
}
use qift_platform.Tax.Rounding.{divide_half_up_nearest, squeeze}

abbrev pub m : ℤ → ℤ
m = to_minor CurrencyCode.sar

-- What the amounts of one leg add up to, in minor units, for a charge.
pub record Balances (includes_vat : Bool) (charge : ℤ) (c : Charged) : Type 0 where
  pub adds_up : m c.total_amount ≡ m c.taxable_amount +ℤ m c.vat_amount
  pub vat_nonneg : pos 0 ≤ℤ m c.vat_amount
  pub base_nonneg : pos 0 ≤ℤ m c.taxable_amount
  pub kept : m (if includes_vat then c.total_amount else c.taxable_amount) ≡ charge

net_le_gross : (g r : ℕ) → divide_half_up (g * rate_scale) (rate_scale + r) ≤ g
net_le_gross g r =
    squeeze (rate_scale + r) (divide_half_up (g * rate_scale) (rate_scale + r)) g
      (2 * (g * rate_scale) + (rate_scale + r))
      (divide_half_up_nearest (g * rate_scale) (rate_scale + r) (omega arith)).0 (omega arith)

-- A charge of zero or more minor units has charged amounts, under either price convention: the total
-- is the taxable amount plus the VAT, neither is negative, and the charge is the total where prices
-- include VAT and the taxable amount where they do not.
pub charge_minor-Balances :
    (includes : Bool) (charge r : ℕ)
    → (c : Charged) × (charge_minor includes (pos charge) r ≡ ok c)
      × Balances includes (pos charge) c
unfolding charge_minor extract_net_minor vat_on_minor
charge_minor-Balances true g r = (
  _,
  refl,
  record {
    adds_up = simp to_minor-from_minor (omega (int_laws, net_le_gross g r));
    vat_nonneg = simp to_minor-from_minor (omega (int_laws, net_le_gross g r));
    base_nonneg = simp to_minor-from_minor (omega arith);
    kept = to_minor-from_minor CurrencyCode.sar (pos g);
  },
)
charge_minor-Balances false b r = (
  _,
  refl,
  record {
    adds_up = simp to_minor-from_minor;
    vat_nonneg = simp to_minor-from_minor (omega arith);
    base_nonneg = simp to_minor-from_minor (omega arith);
    kept = to_minor-from_minor CurrencyCode.sar (pos b);
  },
)

charge_minor_refuses :
    (includes : Bool) (n r : ℕ) → charge_minor includes (negsuc n) r ≡ err negative_base_unsupported
unfolding charge_minor extract_net_minor vat_on_minor
charge_minor_refuses true n r = refl
charge_minor_refuses false n r = refl

-- The amounts of a breakdown of either leg.
abbrev pub charged : TaxBreakdown → Charged
charged b = record {
  taxable_amount = b.taxable_amount;
  vat_amount = b.vat_amount;
  total_amount = b.total_amount;
}

abbrev goods_charged : MerchantGoodsTaxBreakdown → Charged
goods_charged b = record {
  taxable_amount = b.taxable_amount;
  vat_amount = b.vat_amount;
  total_amount = b.total_amount;
}

-- How a computation on a charge in minor units ends: a negative charge is refused, any other has a
-- breakdown that balances and whose snapshot repeats it.
abbrev pub Accounts : Bool → ℤ → Result TaxError TaxBreakdown → Type 0
Accounts includes (pos n) (ok b) =
    Balances includes (pos n) (charged b)
    × (b.total_before_vat ≡ b.taxable_amount)
    × (b.tax_snapshot.snapshot_vat ≡ b.vat_amount)
    × (b.tax_snapshot.taxable_base ≡ b.taxable_amount)
Accounts includes (negsuc n) (err e) = Unit
Accounts _ _ _ = ⊥

abbrev pub GoodsAccounts : Bool → ℤ → Result TaxError MerchantGoodsTaxBreakdown → Type 0
GoodsAccounts includes (pos n) (ok b) =
    Balances includes (pos n) (goods_charged b)
    × (b.goods_snapshot.snapshot_vat ≡ b.vat_amount)
    × (b.goods_snapshot.taxable_base ≡ b.taxable_amount)
GoodsAccounts includes (negsuc n) (err e) = Unit
GoodsAccounts _ _ _ = ⊥

Accounts_lem :
    (input : TaxInput) (includes : Bool) (charge : ℤ) (r : ℕ)
    → Accounts includes charge (charge_minor includes charge r >>= λ c. ok (tax_breakdown input c))
unfolding tax_breakdown
Accounts_lem input includes (pos n) r =
    let (c, e, bal) = charge_minor-Balances includes n r in rw e (bal, refl, refl, refl)
Accounts_lem input includes (negsuc n) r = rw (charge_minor_refuses includes n r) tt

goods_lem :
    (input : MerchantGoodsTaxInput) (includes : Bool) (charge : ℤ) (r : ℕ)
    → GoodsAccounts includes charge (
        charge_minor includes charge r >>= λ c. ok (
          goods_breakdown input MerchantTreatment.merchant_goods_standard
            (get_or input.vat_rate saudi_vat_rate)
            c))
unfolding goods_breakdown
goods_lem input includes (pos n) r =
    let (c, e, bal) = charge_minor-Balances includes n r in rw e (bal, refl, refl)
goods_lem input includes (negsuc n) r = rw (charge_minor_refuses includes n r) tt

-- Under either treatment and either price convention, a non-negative charge has a breakdown: to the
-- minor unit the total is the taxable amount plus the VAT, neither is negative, and the charge is the
-- total where prices include VAT and the taxable amount where they do not. A negative one is refused.
pub compute_tax-Accounts :
    (input : TaxInput)
    → Accounts
        (get_or input.prices_include_vat default_prices_include_vat)
        (m (qift_charge_base (get_or input.treatment default_tax_treatment) input))
        (compute_tax input)
unfolding compute_tax
compute_tax-Accounts input =
    Accounts_lem input (get_or input.prices_include_vat default_prices_include_vat)
      (m (qift_charge_base (get_or input.treatment default_tax_treatment) input))
      (rate_basis_points (get_or input.vat_rate saudi_vat_rate))

same_charged :
    (one two : TaxInput) (r : Result TaxError Charged)
    → ((r >>= λ c. ok (tax_breakdown one c)) >>= λ b. ok (charged b))
      ≡ ((r >>= λ c. ok (tax_breakdown two c)) >>= λ b. ok (charged b))
unfolding tax_breakdown
same_charged one two (ok c) = refl
same_charged one two (err e) = refl

-- As an agent, Qift's taxable amount, VAT and total do not depend on the value of the goods: for any
-- other subtotal the breakdown has the same charged amounts, and the refusal is the same.
pub compute_tax_excludes_goods :
    (input : TaxInput) (other : ℤ)
    → get_or input.treatment default_tax_treatment ≡ TaxTreatment.agent_fee_only
    → (compute_tax (record input { subtotal_amount = other }) >>= λ b. ok (charged b))
      ≡ (compute_tax input >>= λ b. ok (charged b))
unfolding compute_tax qift_charge_base
compute_tax_excludes_goods input other h =
    rw h (same_charged (record input { subtotal_amount = other }) input _)

-- An unregistered merchant charges no VAT under either price convention: the total is the rounded
-- goods value, and so is the taxable amount. A registered one has a breakdown that balances against
-- the goods value as its price convention says, or is refused where that value is negative.
pub compute_merchant_goods_tax_legs :
    (input : MerchantGoodsTaxInput)
    → let unregistered = compute_merchant_goods_tax (record input { vat_registered = false }) in
      let registered = compute_merchant_goods_tax (record input { vat_registered = true }) in
      ((b : MerchantGoodsTaxBreakdown) × (unregistered ≡ ok b)
        × (b.vat_amount ≡ pos 0)
        × (b.total_amount ≡ round_money CurrencyCode.sar input.goods_subtotal_amount)
        × (b.taxable_amount ≡ b.total_amount))
      × GoodsAccounts
          (get_or input.prices_include_vat default_prices_include_vat)
          (m input.goods_subtotal_amount)
          registered
unfolding compute_merchant_goods_tax
compute_merchant_goods_tax_legs input = (
  (_, refl, refl, refl, refl),
  goods_lem (record input { vat_registered = true })
      (get_or input.prices_include_vat default_prices_include_vat) (m input.goods_subtotal_amount)
      (rate_basis_points (get_or input.vat_rate saudi_vat_rate)),
)
