-- ===== src/Settlement/Binding/Recomputed.antt =====
-- What an assembly freezes recomputes to itself: the replay check of the preview
-- (settlement-execution-binding.ts) on a batch of `assembleBatch` (settlement-engine.service.ts).
use Prim.Native.String.{String}
use qift_platform.Prelude.{
  ℕ, ◌+◌, ◌*◌, List, [], ◌∷◌, ◌≡◌, refl, ap, ap₂, ◌∙◌, subst, arith, map, if_both,
}
use qift_platform.Prelude.Int.{
  ℤ, pos, pos_part, neg_part, ◌+ℤ◌, ◌-ℤ◌, ◌*ℕ◌, min_ℤ, leb_ℤ, int_laws, zero-add_ℤ,
}
use qift_platform.Prelude.Outcome.{Result, ok, err, elim_ok}
use qift_platform.Prelude.Text.{to_upper}
use qift_platform.Money.{CurrencyCode, from_minor, scale_for, minor_digits_for}
use qift_platform.Settlement.Errors.{SettlementError}
use qift_platform.Settlement.Calculator.{
  SettlementCalculation, as_currency_code, calculate_settlement, recovery_only,
}
use qift_platform.Settlement.Store.{Db, Item, Receivable, Allocation}
use qift_platform.Settlement.Engine.Plan.{
  Plan, Recovery, to_calculator_input, balance_minor, plan_loop, gross_budget, open_receivables,
  plan_recovery, composition_entry, plan_items,
}
use qift_platform.Settlement.Engine.Assemble.{new_batch}
use qift_platform.Settlement.Engine.Reads.{frozen_of}
use qift_platform.Settlement.Binding.{entry_input, recovered_total, recompute}

*ℕ_parts : (a : ℤ) (k : ℕ) → pos_part (a *ℕ k) + neg_part a * k ≡ pos_part a * k + neg_part (a *ℕ k)
unfolding ◌*ℕ◌
*ℕ_parts a k = ground arith

add-from_minor :
    (c : CurrencyCode) (a b : ℤ) → from_minor c a +ℤ from_minor c b ≡ from_minor c (a +ℤ b)
unfolding from_minor scale_for minor_digits_for
add-from_minor CurrencyCode.sar a b = grind (int_laws, *ℕ_parts)
add-from_minor CurrencyCode.aed a b = grind (int_laws, *ℕ_parts)
add-from_minor CurrencyCode.qar a b = grind (int_laws, *ℕ_parts)
add-from_minor CurrencyCode.bhd a b = grind (int_laws, *ℕ_parts)
add-from_minor CurrencyCode.kwd a b = grind (int_laws, *ℕ_parts)
add-from_minor CurrencyCode.omr a b = grind (int_laws, *ℕ_parts)

recovered_total_from :
    (t : ℤ) (rows : List Allocation) → recovered_total t rows ≡ t +ℤ recovered_total (pos 0) rows
unfolding recovered_total
recovered_total_from t [] = grind int_laws
recovered_total_from t (r ∷ rest) =
    rw (recovered_total_from (t +ℤ r.amount) rest, recovered_total_from (pos 0 +ℤ r.amount) rest)
      (grind int_laws)

from_minor_zero : (c : CurrencyCode) → pos 0 ≡ from_minor c (pos 0)
unfolding from_minor scale_for minor_digits_for ◌*ℕ◌
from_minor_zero CurrencyCode.sar = refl
from_minor_zero CurrencyCode.aed = refl
from_minor_zero CurrencyCode.qar = refl
from_minor_zero CurrencyCode.bhd = refl
from_minor_zero CurrencyCode.kwd = refl
from_minor_zero CurrencyCode.omr = refl

AddsUp : CurrencyCode → Recovery → Type 0
AddsUp c plan = recovered_total (pos 0) plan.allocation ≡ from_minor c plan.total_minor

-- The offsets add up to the total that the plan took.
recovered_total-plan_loop :
    (c : CurrencyCode) (budget : ℤ) (rows : List Receivable)
    → recovered_total (pos 0) (plan_loop c budget rows).allocation
      ≡ from_minor c (plan_loop c budget rows).total_minor
unfolding plan_loop recovered_total AddsUp
recovered_total-plan_loop c budget [] = from_minor_zero c
recovered_total-plan_loop c budget (r ∷ rest) =
    let take = min_ℤ (balance_minor c r) budget in
    let after = plan_loop c (budget -ℤ take) rest in
    if_both (AddsUp c) (leb_ℤ budget (pos 0)) (from_minor_zero c) (
      if_both (AddsUp c) (leb_ℤ (balance_minor c r) (pos 0))
        (recovered_total-plan_loop c budget rest)
        (recovered_total_from (pos 0 +ℤ from_minor c take) after.allocation
          ∙ (ap₂ (λ x y. x +ℤ y) (zero-add_ℤ (from_minor c take))
                (recovered_total-plan_loop c (budget -ℤ take) rest)
              ∙ add-from_minor c take after.total_minor)))

entry_input-composition_entry :
    (db : Db) (items : List Item)
    → map entry_input (map (composition_entry db) items) ≡ map to_calculator_input items
unfolding entry_input composition_entry to_calculator_input
entry_input-composition_entry db [] = refl
entry_input-composition_entry db (i ∷ rest) =
    ap (λ xs. to_calculator_input i ∷ xs) (entry_input-composition_entry db rest)

plan_with : ℕ → List Item → Db → Recovery → SettlementCalculation → Plan
plan_with store items db recovery calc = record {
  store_id = store;
  items = items;
  recovery = recovery;
  calculation = calc;
  composition = map (composition_entry db) items;
}

-- The plan of items, in a currency that was read.
plan_in : ℕ → String → List Item → Db → CurrencyCode → Result SettlementError Plan
plan_in store currency items db c =
    let inputs = map to_calculator_input items in
    let recovery = plan_recovery c (to_upper currency) store inputs db.receivables in
    elim (calculate_settlement inputs (recovery_only (from_minor c recovery.total_minor))) [
      | err e ↦ err e
      | ok calc ↦ ok (plan_with store items db recovery calc)
    ]

-- The recomputation of a batch that was assembled from a plan is the calculation of the plan.
pub recompute-new_batch :
    (store : ℕ) (currency : String) (items : List Item) (db : Db) (plan : Plan)
    (actor reference fresh : ℕ)
    → plan_items store currency items db ≡ ok plan
    → recompute (frozen_of (new_batch actor reference fresh plan)) ≡ ok plan.calculation
unfolding plan_items recompute new_batch frozen_of plan_in plan_with plan_recovery
recompute-new_batch store currency items db plan actor reference fresh h =
    let (c, _, planned) =
      elim_ok (as_currency_code (to_upper currency)) (plan_in store currency items db) h in
    let inputs = map to_calculator_input items in
    let recovery = plan_recovery c (to_upper currency) store inputs db.receivables in
    let (calc, reckoned, done) =
      elim_ok (calculate_settlement inputs (recovery_only (from_minor c recovery.total_minor)))
        (λ calc. ok (plan_with store items db recovery calc)) planned in
    let plan_eq : plan_with store items db recovery calc ≡ plan = cc in
    subst
      (λ (q : Plan). recompute (frozen_of (new_batch actor reference fresh q)) ≡ ok q.calculation)
      plan_eq
      (ap₂ (λ xs total. calculate_settlement xs (recovery_only total))
          (entry_input-composition_entry db items)
          (recovered_total-plan_loop c (gross_budget c inputs)
            (open_receivables store (to_upper currency) db.receivables))
        ∙ reckoned)
