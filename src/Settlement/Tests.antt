-- ===== src/Settlement/Tests.antt =====
-- Policies, lifecycles and calculations of settlement at concrete inputs.
use qift_platform.Prelude.{
  ◌≡◌, ◌≢◌, ◌⊎◌, ◌↔◌, refl, arith, true, false, some, List, [], ◌∷◌, any, length,
}
use qift_platform.Prelude.Int.{pos, ◌+ℤ◌, ◌<ℤ◌}
use qift_platform.Prelude.Outcome.{ok}
use qift_platform.Prelude.Text.{to_upper}
use qift_platform.Money.{CurrencyCode, to_minor}
use qift_platform.Settlement.States.{ItemState, item_eq, assert_item_transition}
use qift_platform.Settlement.States.Runs.{run, item_settles_from_ready}
use qift_platform.Settlement.Policy.{t2_minor, required_execution_approval}
use qift_platform.Settlement.Policy.Bands.{
  required_execution_approval_levels, required_execution_approval_fragments,
}
use qift_platform.Settlement.Calculator.{
  SettlementItemInput, SettlementCalculation, as_currency_code, calculate_settlement,
  calculation_of, minor_or_zero, recovery_only, gross_loop,
}
use qift_platform.Settlement.Calculator.Net.{
  Uniform, gross_minor, signed_lines, calculate_settlement_net, calculate_settlement-Uniform,
}

-- An item that is assembled, released, assembled again and settled.
abbrev settling : List ItemState
settling = ItemState.ready ∷ ItemState.eligible ∷ ItemState.ready ∷ ItemState.settled ∷ []

settled_run : run assert_item_transition ItemState.eligible settling ≡ ok ItemState.settled
unfolding run assert_item_transition
settled_run = refl

item_settles_from_ready_example :
    any (item_eq ItemState.ready) (ItemState.eligible ∷ settling) ≡ true
item_settles_from_ready_example =
    item_settles_from_ready ItemState.eligible settling settled_run (λ h. cc)

-- SAR 20,000.00 after SAR 40,000.00 of the same day.
required_execution_approval_levels_example :
    (((required_execution_approval (pos 2_000_000) (pos 4_000_000)).level ≡ 3)
      ↔ ((t2_minor <ℤ pos 2_000_000) ⊎ (t2_minor <ℤ pos 2_000_000 +ℤ pos 4_000_000)))
    × (((required_execution_approval (pos 2_000_000) (pos 4_000_000)).level ≡ 3)
          × ((required_execution_approval (pos 2_000_000) (pos 4_000_000)).approvals_needed ≡ 2)
          × ((required_execution_approval (pos 2_000_000) (pos 4_000_000)).senior_required ≡ true)
        ⊎ ((required_execution_approval (pos 2_000_000) (pos 4_000_000)).level ≡ 2)
          × ((required_execution_approval (pos 2_000_000) (pos 4_000_000)).approvals_needed ≡ 1)
          × ((required_execution_approval (pos 2_000_000) (pos 4_000_000)).senior_required ≡ false))
required_execution_approval_levels_example =
    required_execution_approval_levels (pos 2_000_000) (pos 4_000_000)

required_execution_approval_fragments_example :
    ((required_execution_approval (pos 2_000_000) (pos 0 +ℤ pos 4_000_000)).level
      ≡ (required_execution_approval (pos 4_000_000 +ℤ pos 2_000_000) (pos 0)).level)
    × ((required_execution_approval (pos 2_000_000) (pos 0 +ℤ pos 4_000_000)).approvals_needed
        ≡ (required_execution_approval (pos 4_000_000 +ℤ pos 2_000_000) (pos 0)).approvals_needed)
    × ((required_execution_approval (pos 2_000_000) (pos 0 +ℤ pos 4_000_000)).senior_required
        ≡ (required_execution_approval (pos 4_000_000 +ℤ pos 2_000_000) (pos 0)).senior_required)
required_execution_approval_fragments_example =
    required_execution_approval_fragments (pos 4_000_000) (pos 2_000_000) (pos 0) (omega arith)
      (omega arith)

-- Two items of SAR 100.00 and SAR 50.25, of which SAR 30.00 is recovered.
abbrev two_items : List SettlementItemInput
two_items =
    record {
      item_id = 1;
      occurrence_type = "merchant_invoice";
      occurrence_id = 11;
      amount = pos 100_000_000;
      currency = "SAR";
    }
    ∷ record {
      item_id = 2;
      occurrence_type = "merchant_invoice";
      occurrence_id = 12;
      amount = pos 50_250_000;
      currency = "sar";
    }
    ∷ []

two_items-Uniform : Uniform CurrencyCode.sar two_items
unfolding as_currency_code to_upper
two_items-Uniform = (refl, (refl, tt))

calculate_settlement_net_example :
    (calc : SettlementCalculation) × (calculate_settlement two_items
        (recovery_only (pos 30_000_000))
      ≡ ok calc)
    × (calc.currency ≡ CurrencyCode.sar)
    × (to_minor CurrencyCode.sar calc.net_amount ≡ signed_lines CurrencyCode.sar calc.lines)
    × (to_minor CurrencyCode.sar calc.lines.merchant_gross ≡ gross_minor CurrencyCode.sar two_items)
    × (to_minor CurrencyCode.sar calc.lines.receivable_recovery
        ≡ minor_or_zero CurrencyCode.sar (some (pos 30_000_000)))
    × (calc.lines.qift_fees ≡ pos 0)
    × (calc.lines.taxes ≡ pos 0)
    × (calc.item_count ≡ length two_items)
calculate_settlement_net_example =
    calculate_settlement_net CurrencyCode.sar two_items (recovery_only (pos 30_000_000)) (λ h. cc)
      two_items-Uniform

abbrev two_items_calculation : SettlementCalculation
two_items_calculation =
    calculation_of CurrencyCode.sar (pos 15_025) (recovery_only (pos 30_000_000)) 2

calculated :
    calculate_settlement two_items (recovery_only (pos 30_000_000)) ≡ ok two_items_calculation
unfolding calculate_settlement gross_loop as_currency_code to_upper to_minor ◌+ℤ◌
calculated = refl

calculate_settlement-Uniform_example :
    (two_items ≢ []) × Uniform two_items_calculation.currency two_items
calculate_settlement-Uniform_example =
    calculate_settlement-Uniform two_items (recovery_only (pos 30_000_000)) two_items_calculation
      calculated
