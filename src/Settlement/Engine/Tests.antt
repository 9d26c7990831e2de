-- ===== src/Settlement/Engine/Tests.antt =====
-- A store with one eligible item, and the assembly and the settle of its batch.
use qift_platform.Prelude.{true, ℕ, ◌≤◌, ◌≡◌, refl, arith, false, none, [], ◌∷◌, All}
use qift_platform.Prelude.Int.{pos, ◌+ℤ◌, ◌-ℤ◌}
use qift_platform.Prelude.Outcome.{Result, ok, err}
use qift_platform.Prelude.Text.{trim, is_empty, to_upper}
use qift_platform.Money.{CurrencyCode, to_minor, from_minor}
use qift_platform.Ledger.{record_entry, validated, append_row, holds_key, is_lifecycle_marker}
use qift_platform.Settlement.Errors.{SettlementError}
use qift_platform.Settlement.States.{
  ItemState, ReceivableState, assert_item_transition, assert_batch_transition,
}
use qift_platform.Settlement.Calculator.{
  as_currency_code, calculate_settlement, gross_loop, calculation_of, net_minor, recovery_only,
}
use qift_platform.Settlement.Store.{Db, Item, Batch, Receivable, count, update_many, post}
use qift_platform.Settlement.Engine.Plan.{
  Plan, eligible_items, to_calculator_input, open_receivables, plan_loop, gross_budget,
  plan_recovery, composition_entry, plan_items, assert_all_ready, checked_plan, assembly_plan,
}
use qift_platform.Settlement.Engine.Plan.Offsets.{Within, plan_loop-Within}
use qift_platform.Settlement.Engine.Assemble.{
  claims, bind_item, bind_loop, stage_loop, marker, audit_guaranteed, new_batch, is_taken,
  write_claim, claim, commit_assembly, or_again, attempts, assemble_batch,
}
use qift_platform.Settlement.Engine.Assemble.Guards.{has_item_id, claim_guard}
use qift_platform.Settlement.Engine.Lifecycle.{load_batch}
use qift_platform.Settlement.Engine.Close.{
  Evidence, is_member, settle_rows, remittance_of, consume_allocation, settle_tx, mark_settled,
}
use qift_platform.Settlement.Engine.Payout.{PaidOnce}
use qift_platform.Settlement.Engine.Payout.Replay.{mark_settled_idem}
use qift_platform.Settlement.Engine.Payout.Reachable.{Step, Reach, Reach-PaidOnce}
use qift_platform.Settlement.Canonical.{Platform}
use qift_platform.Settlement.Engine.Reads.{frozen_of}
use qift_platform.Settlement.Binding.{ExecutionPreview, build_execution_preview}
use qift_platform.Settlement.Binding.Assembled.{assemble_batch-build_execution_preview}

abbrev invoice_item : Item
invoice_item = record {
  id = 1;
  store_id = 7;
  occurrence_type = "merchant_invoice";
  occurrence_id = 11;
  amount = pos 100_000_000;
  currency = "SAR";
  state = ItemState.eligible;
  batch_id = none;
  hold_type = none;
  hold_evidence = none;
}

abbrev fresh_db : Db
fresh_db = record {
  items = invoice_item ∷ [];
  batches = [];
  receivables = [];
  remittances = [];
  previews = [];
  approvals = [];
  statements = [];
  credit_notes = [];
  credit_note_versions = [];
  replay_records = [];
  invoices = [];
  receipts = [];
  refunds = [];
  campaigns = [];
  ledger = [];
  audit = [];
}

fresh_db-PaidOnce : PaidOnce fresh_db
unfolding count
fresh_db-PaidOnce = record {
  distinct = λ k. omega arith;
  paid = λ k h. cc;
  once = λ k. omega arith;
}

-- The tables and the batch that a run leaves, where it commits.
abbrev tables_of : {A : Type 0} → Result SettlementError (A × Db) → Db
tables_of (ok (a, db)) = db
tables_of (err e) = fresh_db

abbrev invoice_plan : Plan
invoice_plan = record {
  store_id = 7;
  items = invoice_item ∷ [];
  recovery = record { allocation = []; total_minor = pos 0 };
  calculation = calculation_of CurrencyCode.sar (pos 10_000) (recovery_only (pos 0)) 1;
  composition = composition_entry fresh_db invoice_item ∷ [];
}

abbrev assembled_batch : Batch
assembled_batch = new_batch 5 100 9 invoice_plan

abbrev claimed_db : Db
claimed_db = tables_of (claim 5 100 9 invoice_plan fresh_db)

abbrev assembled_db : Db
assembled_db = tables_of (assemble_batch 5 7 "sar" ((100, 9) ∷ []) fresh_db)

claimed_run : claim 5 100 9 invoice_plan fresh_db ≡ ok (tt, claimed_db)
unfolding claim is_taken bind_loop claims bind_item update_many count stage_loop write_claim
claimed_run = refl

assembled_run :
    assemble_batch 5 7 "sar" ((100, 9) ∷ []) fresh_db ≡ ok (assembled_batch, assembled_db)
unfolding claim is_taken bind_loop claims bind_item update_many count stage_loop write_claim
    assemble_batch attempts or_again commit_assembly assembly_plan eligible_items plan_items
    checked_plan assert_all_ready to_upper as_currency_code plan_recovery plan_loop open_receivables
    gross_budget calculate_settlement gross_loop to_calculator_input calculation_of net_minor
    to_minor from_minor assert_item_transition post record_entry validated append_row holds_key
    is_lifecycle_marker trim is_empty marker audit_guaranteed new_batch ◌+ℤ◌ ◌-ℤ◌
assembled_run = refl

abbrev paid_evidence : Evidence
paid_evidence = record { bank_reference = "TRX-1"; executed_at = 1_000; executed_by = 6 }

abbrev settled_db : Db
settled_db = tables_of (mark_settled 6 9 paid_evidence 40 2_000 assembled_db)

settled_run :
    mark_settled 6 9 paid_evidence 40 2_000 assembled_db
    ≡ ok ((remittance_of assembled_batch paid_evidence 40 2_000, false), settled_db)
unfolding claim is_taken bind_loop claims bind_item update_many count stage_loop write_claim
    assemble_batch attempts or_again commit_assembly assembly_plan eligible_items plan_items
    checked_plan assert_all_ready to_upper as_currency_code plan_recovery plan_loop open_receivables
    gross_budget calculate_settlement gross_loop to_calculator_input calculation_of net_minor
    to_minor from_minor assert_item_transition post record_entry validated append_row holds_key
    is_lifecycle_marker trim is_empty marker audit_guaranteed new_batch ◌+ℤ◌ ◌-ℤ◌ mark_settled
    load_batch assert_batch_transition settle_tx settle_rows is_member remittance_of
    consume_allocation composition_entry
settled_run = refl

item_ids_distinct : (k : ℕ) → count (has_item_id k) fresh_db.items ≤ 1
unfolding count
item_ids_distinct k = ground arith

claim_guard_example : All (λ i. count (claims i) fresh_db.items ≡ 1) invoice_plan.items
claim_guard_example =
    claim_guard 5 100 9 invoice_plan fresh_db claimed_db item_ids_distinct claimed_run

-- The history of the two calls.
assembled-Step : Step fresh_db assembled_db
assembled-Step =
    Step.assembled 5 7 "sar" ((100, 9) ∷ []) fresh_db assembled_db assembled_batch assembled_run

Reach-PaidOnce_example : PaidOnce settled_db
Reach-PaidOnce_example =
    Reach-PaidOnce
      (Reach.after fresh_db assembled_db settled_db
        (Reach.after fresh_db fresh_db assembled_db (Reach.here fresh_db) assembled-Step)
        (Step.settled 6 9 paid_evidence 40 2_000 assembled_db settled_db
          (remittance_of assembled_batch paid_evidence 40 2_000, false) settled_run))
      fresh_db-PaidOnce

assembled_db-PaidOnce : PaidOnce assembled_db
assembled_db-PaidOnce =
    Reach-PaidOnce (Reach.after fresh_db fresh_db assembled_db (Reach.here fresh_db) assembled-Step)
      fresh_db-PaidOnce

-- Another actor settles the batch again, with other evidence.
abbrev late_evidence : Evidence
late_evidence = record { bank_reference = "TRX-2"; executed_at = 1_500; executed_by = 8 }

mark_settled_idem_example :
    mark_settled 8 9 late_evidence 41 3_000 settled_db
    ≡ ok ((remittance_of assembled_batch paid_evidence 40 2_000, true), settled_db)
mark_settled_idem_example =
    mark_settled_idem 6 8 9 paid_evidence late_evidence 40 41 2_000 3_000 assembled_db settled_db
      (remittance_of assembled_batch paid_evidence 40 2_000) false settled_run assembled_db-PaidOnce

-- A receivable of 30.00 of which 10.00 is recovered, against a budget of 50.00.
abbrev owed : Receivable
owed = record {
  id = 3;
  store_id = 7;
  currency = "SAR";
  occurrence_id = 12;
  amount = pos 30_000_000;
  amount_recovered = pos 10_000_000;
  state = ReceivableState.partially_recovered;
  staged_by = none;
  recovered_at = none;
  recovered_by = none;
}

plan_loop-Within_example :
    Within CurrencyCode.sar
      (pos 5_000)
      (owed ∷ [])
      (plan_loop CurrencyCode.sar (pos 5_000) (owed ∷ []))
plan_loop-Within_example = plan_loop-Within CurrencyCode.sar (pos 5_000) (owed ∷ [])

abbrev simple_platform : Platform
simple_platform = record {
  quote = λ s. s;
  number_text = λ n. "0";
  sha256 = λ s. "h";
  iso = λ at. "t";
  id_text = λ n. "i";
  coerced = λ v. "";
}

assemble_batch-build_execution_preview_example :
    (preview : ExecutionPreview) × (build_execution_preview simple_platform
        (frozen_of assembled_batch)
        "t"
      ≡ ok preview)
    × (preview.replay_verified ≡ true)
assemble_batch-build_execution_preview_example =
    assemble_batch-build_execution_preview simple_platform 5 7 "sar" "t" ((100, 9) ∷ []) fresh_db
      assembled_db assembled_batch assembled_run
