-- ===== src/Settlement/Execution/Fixtures.antt =====
-- A batch that pays one item, and the tables that hold it, for the runs of an execution.
use qift_platform.Prelude.{true, none, some, List, [], ◌∷◌}
use qift_platform.Prelude.Int.{pos}
use qift_platform.Prelude.Outcome.{Result, ok, err}
use qift_platform.Money.{CurrencyCode}
use qift_platform.Settlement.Errors.{SettlementError}
use qift_platform.Settlement.States.{ItemState, BatchState}
use qift_platform.Settlement.Calculator.{SettlementCalculation, calculation_of, recovery_only}
use qift_platform.Settlement.Store.{
  Db, Item, Batch, Receivable, CompositionEntry, Allocation, Approval, PreviewAct, Remittance,
}
use qift_platform.Settlement.Canonical.{Platform}
use qift_platform.Settlement.Execution.{Env}
use qift_platform.Settlement.Execution.Operations.{ExecuteInput}

abbrev pub simple_platform : Platform
simple_platform = record {
  quote = λ s. s;
  number_text = λ n. "0";
  sha256 = λ s. "h";
  iso = λ at. "t";
  id_text = λ n. "i";
  coerced = λ v. "";
}

abbrev pub open_env : Env
open_env = record { gates_attested = some "true"; senior_approvers = [] }

abbrev pub invoice_entry : CompositionEntry
invoice_entry = record {
  item_id = 1;
  occurrence_type = "merchant_invoice";
  occurrence_id = 11;
  amount = pos 100_000_000;
  currency = "SAR";
  references = [];
}

abbrev pub bound_item : Item
bound_item = record {
  id = 1;
  store_id = 7;
  occurrence_type = "merchant_invoice";
  occurrence_id = 11;
  amount = pos 100_000_000;
  currency = "SAR";
  state = ItemState.ready;
  batch_id = some 9;
  hold_type = none;
  hold_evidence = none;
}

abbrev pub batch_with : SettlementCalculation → List Allocation → Batch
batch_with calculation allocation = record {
  id = 9;
  reference = 100;
  store_id = 7;
  currency = "SAR";
  window_type = "manual";
  status = BatchState.ready;
  gross_amount = pos 100_000_000;
  net_amount = calculation.net_amount;
  composition = invoice_entry ∷ [];
  calculation = calculation;
  allocation = allocation;
  assembled_by = some 5;
  closure_type = none;
  closed_at = none;
  failure_evidence = none;
  superseded_by = none;
}

abbrev pub paying_batch : Batch
paying_batch =
    batch_with (calculation_of CurrencyCode.sar (pos 10_000) (recovery_only (pos 0)) 1) []

-- The act of preview and the vote of another identity than the proposer and the executor.
abbrev pub reviewed : PreviewAct
reviewed = record {
  id = 1;
  settlement_id = 9;
  reference = 100;
  calculation_hash = "h";
  replay_verified = true;
  previewed_by = 6;
  previewed_at = 1_000;
}

abbrev pub vote : Approval
vote = record {
  id = 2;
  settlement_id = 9;
  reference = 100;
  calculation_hash = "h";
  required_level = 2;
  approved_by = 8;
  approved_at = 2_000;
  note = none;
}

abbrev pub tables : Batch → List Receivable → List Approval → Db
tables batch receivables approvals = record {
  items = bound_item ∷ [];
  batches = batch ∷ [];
  receivables = receivables;
  remittances = [];
  previews = reviewed ∷ [];
  approvals = approvals;
  statements = [];
  credit_notes = [];
  credit_note_versions = [];
  replay_records = [];
  invoices = [];
  receipts = [];
  refunds = [];
  campaigns = [];
  ledger = [];
  audit = [];
}

abbrev pub paying_db : Db
paying_db = tables paying_batch [] (vote ∷ [])

abbrev pub value_or : {A : Type 0} → A → Result SettlementError A × Db → A
value_or a (ok b, db) = b
value_or a (err e, db) = a

abbrev pub paying_input : ExecuteInput
paying_input = record {
  preview_hash = "h";
  bank_transfer_reference = " TRX-1 ";
  executed_at = some 2_500;
}

abbrev pub no_remittance : Remittance
no_remittance = record {
  id = 0;
  settlement_id = 0;
  reference = 0;
  store_id = 0;
  currency = "";
  amount = pos 0;
  bank_reference = "";
  executed_at = 0;
  executed_by = 0;
  created_at = 0;
}
