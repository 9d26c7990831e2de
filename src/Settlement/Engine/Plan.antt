-- ===== src/Settlement/Engine/Plan.antt =====
-- The reads of simulation and assembly (src/settlement/settlement-engine.service.ts): the eligible
-- items of a store, the offsets of its open receivables, the calculation and the composition.
pub mod Offsets
use Prim.Native.String.{String}
use text.Mathlib.Text.{◌==◌ as str_eq}
use qift_platform.Prelude.{
  ℕ, Bool, true, false, ◌&&◌, ◌||◌, Option, none, some, List, [], ◌∷◌, ◌++◌, ◌==◌, map, filter,
  find, if◌then◌else◌,
}
use qift_platform.Prelude.Int.{ℤ, pos, ◌+ℤ◌, ◌-ℤ◌, leb_ℤ, ltb_ℤ, min_ℤ, sum_ℤ}
use qift_platform.Prelude.Outcome.{Result, ok, err}
use qift_platform.Prelude.Text.{to_upper}
use qift_platform.Money.{CurrencyCode, to_minor, from_minor}
use qift_platform.Ledger.{is_none}
use qift_platform.Settlement.Errors.{SettlementError, nothing_eligible, negative_net_deferred}
use qift_platform.Settlement.States.{
  ItemState, item_eq, ReceivableState, receivable_eq, assert_item_transition,
}
use qift_platform.Settlement.Calculator.{
  SettlementItemInput, SettlementCalculation, recovery_only, as_currency_code, calculate_settlement,
}
use qift_platform.Settlement.Store.{
  Db, Item, Receivable, Allocation, CompositionEntry, References, MerchantInvoice, GiftCampaign,
  AuditAction, Tx, ◌>>=◌, ◌>>◌, pure, lift, modify,
}

-- `eligibleItems`: the items of the store in the currency, in the order of the table.
unfoldable pub eligible_items : ℕ → String → List Item → List Item
eligible_items store currency = filter (λ i.
    i.store_id == store
    && (item_eq i.state ItemState.eligible && str_eq i.currency (to_upper currency)))

unfoldable pub to_calculator_input : Item → SettlementItemInput
to_calculator_input i = record {
  item_id = i.id;
  occurrence_type = i.occurrence_type;
  occurrence_id = i.occurrence_id;
  amount = i.amount;
  currency = i.currency;
}

-- A receivable that has a balance to recover and that no batch has staged.
unfoldable pub is_recoverable : ReceivableState → Bool
is_recoverable s =
    receivable_eq s ReceivableState.open_ || receivable_eq s ReceivableState.partially_recovered

unfoldable pub open_receivables : ℕ → String → List Receivable → List Receivable
unfolding is_recoverable
open_receivables store currency = filter (λ r.
    r.store_id == store
    && (str_eq r.currency currency && (is_recoverable r.state && is_none r.staged_by)))

pub record Recovery : Type 0 where
  pub allocation : List Allocation
  pub total_minor : ℤ

-- What is left to recover of a receivable, in minor units.
unfoldable pub balance_minor : CurrencyCode → Receivable → ℤ
balance_minor c r = to_minor c r.amount -ℤ to_minor c r.amount_recovered

-- The loop over the open receivables, with the budget that is left.
unfoldable pub plan_loop : CurrencyCode → ℤ → List Receivable → Recovery
plan_loop c budget [] = record { allocation = []; total_minor = pos 0 }
plan_loop c budget (r ∷ rest) =
    let balance = balance_minor c r in
    let take = min_ℤ balance budget in
    let skip = plan_loop c budget rest in
    let after = plan_loop c (budget -ℤ take) rest in
    let offset : Recovery = record {
      allocation =
          record {
            receivable_id = r.id;
            occurrence_id = r.occurrence_id;
            amount = from_minor c take;
            amount_recovered_at_plan = from_minor c (to_minor c r.amount_recovered);
            balance_after = from_minor c (balance -ℤ take);
          }
          ∷ after.allocation;
      total_minor = take +ℤ after.total_minor;
    } in
    if leb_ℤ budget (pos 0)
    then record { allocation = []; total_minor = pos 0 }
    else if leb_ℤ balance (pos 0)
    then skip
    else offset

-- The batch gross, the cap of what is recovered.
unfoldable pub gross_budget : CurrencyCode → List SettlementItemInput → ℤ
gross_budget c items = sum_ℤ (map (λ i. to_minor c i.amount) items)

unfoldable pub plan_recovery :
    CurrencyCode → String → ℕ → List SettlementItemInput → List Receivable → Recovery
plan_recovery c currency store items rows =
    plan_loop c (gross_budget c items) (open_receivables store currency rows)

-- `occurrenceReferences`: the references of one item, from the invoice and campaign tables.
invoice_references : List GiftCampaign → Option MerchantInvoice → References
invoice_references campaigns none = []
invoice_references campaigns (some inv) =
    ("merchantInvoiceNumber", inv.merchant_invoice_number)
    ∷ (
      "campaignReference",
      elim (find (λ (c : GiftCampaign). c.id == inv.campaign_id) campaigns) [
        | none ↦ none
        | some c ↦ c.reference_number
      ],
    )
    ∷ []

unfoldable pub occurrence_references : Db → Item → References
unfolding invoice_references
occurrence_references db i =
    if str_eq i.occurrence_type "merchant_invoice"
    then invoice_references db.campaigns
        (find (λ (inv : MerchantInvoice). inv.id == i.occurrence_id) db.invoices)
    else []

unfoldable pub composition_entry : Db → Item → CompositionEntry
composition_entry db i = record {
  item_id = i.id;
  occurrence_type = i.occurrence_type;
  occurrence_id = i.occurrence_id;
  amount = i.amount;
  currency = i.currency;
  references = occurrence_references db i;
}

-- What a simulation shows and what an assembly commits.
pub record Plan : Type 0 where
  pub store_id : ℕ
  pub items : List Item
  pub recovery : Recovery
  pub calculation : SettlementCalculation
  pub composition : List CompositionEntry

-- The ONE calculation of `simulate` and `assembleBatch`, on the items that were read.
unfoldable pub plan_items : ℕ → String → List Item → Db → Result SettlementError Plan
plan_items store currency items db = elim (as_currency_code (to_upper currency)) [
  | err e ↦ err e
  | ok c ↦
      let inputs = map to_calculator_input items in
      let recovery = plan_recovery c (to_upper currency) store inputs db.receivables in
      elim (calculate_settlement inputs (recovery_only (from_minor c recovery.total_minor))) [
        | err e ↦ err e
        | ok calc ↦ ok (record {
          store_id = store;
          items = items;
          recovery = recovery;
          calculation = calc;
          composition = map (composition_entry db) items;
        })
      ]
]

-- A best-effort audit, which never fails the act.
unfoldable pub audit_record : AuditAction → ℕ → ℕ → Tx (Unit {0})
audit_record action actor store = modify (λ db. record db {
  audit =
      db.audit ++ record { key = none; action = action; actor = actor; target_store = store } ∷ [];
})

abbrev pub is_nil : List Item → Bool
is_nil [] = true
is_nil (i ∷ rest) = false

-- `simulate`: nothing eligible, or the plan and one audit row.
unfoldable pub simulate : ℕ → ℕ → String → Tx (Option Plan)
simulate actor store currency db =
    let items = eligible_items store currency db.items in
    let shown =
      (do
        plan ← lift (plan_items store currency items db)
        audit_record AuditAction.simulated actor store
        pure (some plan))
        db in
    if is_nil items then ok (none, db) else shown

-- `items.forEach(assertItemTransition(state, 'ready'))`
unfoldable pub assert_all_ready : List Item → Result SettlementError (Unit {0})
assert_all_ready [] = ok tt
assert_all_ready (i ∷ rest) =
    let others = assert_all_ready rest in
    elim (assert_item_transition i.state ItemState.ready) [ ok _ ↦ others | err e ↦ err e ]

-- The refusal of a negative net, and the assertion over the items.
unfoldable pub checked_plan : Plan → Result SettlementError Plan
checked_plan plan =
    if ltb_ℤ (to_minor plan.calculation.currency plan.calculation.net_amount) (pos 0)
    then err negative_net_deferred
    else elim (assert_all_ready plan.items) [ ok _ ↦ ok plan | err e ↦ err e ]

-- The reads of `assembleBatch`, up to its transaction.
unfoldable pub assembly_plan : ℕ → String → Db → Result SettlementError Plan
assembly_plan store currency db =
    let items = eligible_items store currency db.items in
    let planned : Result SettlementError Plan = elim (plan_items store currency items db) [
      | err e ↦ err e
      | ok plan ↦ checked_plan plan
    ] in
    if is_nil items then err nothing_eligible else planned
