-- ===== src/Settlement/Refunds/Tests.antt =====
-- Refunds of a paid merchant invoice, before and after its item was settled.
use qift_platform.Prelude.{Bool, true, false, none, some, List, [], ◌∷◌, ◌≡◌, refl, map, arith}
use qift_platform.Prelude.Int.{ℤ, pos, ◌+ℤ◌, ◌-ℤ◌, ◌*ℕ◌, floor_div}
use qift_platform.Prelude.Outcome.{Result, ok}
use qift_platform.Settlement.Errors.{SettlementError}
use qift_platform.Settlement.States.{ItemState}
use qift_platform.Settlement.Store.{
  Db, Item, Receivable, MerchantInvoice, SettlementRefund, Interaction, item_reduced,
  receivable_accrued,
}
use qift_platform.Settlement.Canonical.{Platform}
use qift_platform.Settlement.Execution.{Env}
use qift_platform.Settlement.Refunds.Input.{
  RecordRefundInput, minor, merchant_invoice, RefundRequest, checked_refund,
}
use qift_platform.Settlement.Refunds.{Draws, refund_tx, write_refund, new_refund, found_or_new}
use qift_platform.Settlement.Refunds.Amounts.{
  received_minor, refunded_minor, refunded_vat_minor, vat_component_minor,
}
use qift_platform.Settlement.Refunds.Rows.{
  receivable_row, refund_posting, receivable_posting, refund_row,
}
use qift_platform.Settlement.Refunds.Interactions.{flip, accrue, clawed_minor, interact}
use qift_platform.Prelude.Text.{is_empty, trim, to_upper}
use qift_platform.Money.{to_minor, from_minor}
use qift_platform.Settlement.Call.{and_then, ◌>>=◌, transaction, committed}
use qift_platform.Settlement.Store.{count, update_many, post}
use qift_platform.Ledger.{record_entry, validated, append_row, holds_key, is_lifecycle_marker}
use qift_platform.Settlement.Engine.Assemble.{audit_guaranteed}
use qift_platform.Settlement.Refunds.Note.{issue_note, trimmed_or_none}
use qift_platform.Settlement.Refunds.Record.{record_refund, audited}
use qift_platform.Settlement.Refunds.Covered.{Covered, record_refund-Covered}
use qift_platform.Settlement.Refunds.Replay.{record_refund_idem}
use qift_platform.Settlement.Refunds.Due.{due}
use qift_platform.Settlement.Refunds.Conserved.{record_refund_conserves}

abbrev plain_platform : Platform
plain_platform = record {
  quote = λ s. s;
  number_text = λ n. "0";
  sha256 = λ s. "h";
  iso = λ at. "t";
  id_text = λ n. "i";
  coerced = λ v. "";
}

abbrev attested : Env
attested = record { gates_attested = some "true"; senior_approvers = [] }

abbrev invoice : MerchantInvoice
invoice = record {
  id = 11;
  merchant_invoice_number = some "M-1";
  campaign_id = 3;
  store_id = 7;
  org_id = 2;
  currency = "SAR";
  status = "paid";
  total_amount = pos 115_000_000;
  vat_amount = pos 15_000_000;
}

abbrev goods_item : ItemState → Item
goods_item state = record {
  id = 1;
  store_id = 7;
  occurrence_type = "merchant_invoice";
  occurrence_id = 11;
  amount = pos 115_000_000;
  currency = "SAR";
  state = state;
  batch_id = none;
  hold_type = none;
  hold_evidence = none;
}

abbrev paid_db : ItemState → Db
paid_db state = record {
  items = goods_item state ∷ [];
  batches = [];
  receivables = [];
  remittances = [];
  previews = [];
  approvals = [];
  statements = [];
  credit_notes = [];
  credit_note_versions = [];
  replay_records = [];
  invoices = invoice ∷ [];
  receipts =
      record { invoice_type = "merchant_invoice"; invoice_id = 11; amount = pos 115_000_000 } ∷ [];
  refunds = [];
  campaigns = [];
  ledger = [];
  audit = [];
}

abbrev returning : RecordRefundInput
returning = record {
  invoice_type = merchant_invoice;
  invoice_id = 11;
  amount = pos 23_000_000;
  reason = "damaged";
  evidence_ref = " TRX-9 ";
  refunded_at = some 2_500;
  issuance = record {
    merchant_credit_note_number = some "CN-1";
    issuance_source = none;
    on_behalf_authorization_ref = none;
  };
}

abbrev draws : Draws
draws = record { refund_id = 20; receivable_id = 21; note_id = 22; references = "QN-1" ∷ [] }

abbrev request : RefundRequest
request = record {
  invoice_id = 11;
  amount_minor = pos 2_300;
  reason = "damaged";
  evidence_ref = "TRX-9";
  refunded_at = 2_500;
  issuance = returning.issuance;
}

request_is_checked : checked_refund attested 3_000 returning ≡ ok request
unfolding checked_refund is_empty trim to_minor
request_is_checked = refl

checked_later : checked_refund attested 3_100 returning ≡ ok request
unfolding checked_refund is_empty trim to_minor
checked_later = refl

abbrev expected : Interaction → SettlementRefund
expected interaction = record {
  id = 20;
  invoice_type = "merchant_invoice";
  invoice_id = 11;
  store_id = 7;
  org_id = 2;
  campaign_id = 3;
  currency = "SAR";
  amount = pos 23_000_000;
  vat_component = pos 3_000_000;
  reason = "damaged";
  evidence_ref = "TRX-9";
  refunded_at = 2_500;
  recorded_by = 5;
  settlement_interaction = interaction;
}

abbrev run_on : ItemState → Result SettlementError (SettlementRefund × Bool) × Db
run_on state = record_refund plain_platform 5 3_000 draws attested returning (paid_db state)

pending_is_reduced :
    run_on ItemState.pending ≡ (ok (expected item_reduced, false), (run_on ItemState.pending).1)
unfolding record_refund and_then ◌>>=◌ is_empty trim to_minor transaction committed refund_tx
    received_minor refunded_minor refunded_vat_minor vat_component_minor from_minor ◌-ℤ◌ ◌+ℤ◌ ◌*ℕ◌
    floor_div count update_many issue_note write_refund audit_guaranteed audited checked_refund post
    record_entry validated append_row holds_key is_lifecycle_marker to_upper trimmed_or_none
    receivable_row flip accrue clawed_minor interact new_refund found_or_new refund_posting
    receivable_posting refund_row
pending_is_reduced = refl

-- After the settlement the merchant owes the refund.
settled_is_owed :
    run_on ItemState.settled
    ≡ (ok (expected receivable_accrued, false), (run_on ItemState.settled).1)
unfolding record_refund and_then ◌>>=◌ is_empty trim to_minor transaction committed refund_tx
    received_minor refunded_minor refunded_vat_minor vat_component_minor from_minor ◌-ℤ◌ ◌+ℤ◌ ◌*ℕ◌
    floor_div count update_many issue_note write_refund audit_guaranteed audited checked_refund post
    record_entry validated append_row holds_key is_lifecycle_marker to_upper trimmed_or_none
    receivable_row flip accrue clawed_minor interact new_refund found_or_new refund_posting
    receivable_posting refund_row
settled_is_owed = refl

abbrev owed_amounts : Db → List ℤ
owed_amounts db = map (λ (r : Receivable). r.amount) db.receivables

abbrev item_amounts : Db → List ℤ
item_amounts db = map (λ (i : Item). i.amount) db.items

settled_rows :
    (owed_amounts (run_on ItemState.settled).1 ≡ pos 23_000_000 ∷ [])
    × (item_amounts (run_on ItemState.settled).1 ≡ pos 115_000_000 ∷ [])
    × (item_amounts (run_on ItemState.pending).1 ≡ pos 92_000_000 ∷ [])
unfolding record_refund and_then ◌>>=◌ is_empty trim to_minor transaction committed refund_tx
    received_minor refunded_minor refunded_vat_minor vat_component_minor from_minor ◌-ℤ◌ ◌+ℤ◌ ◌*ℕ◌
    floor_div count update_many issue_note write_refund audit_guaranteed audited checked_refund post
    record_entry validated append_row holds_key is_lifecycle_marker to_upper trimmed_or_none
    receivable_row flip accrue clawed_minor interact new_refund found_or_new refund_posting
    receivable_posting refund_row
settled_rows = (refl, refl, refl)

-- The refund that completes a total takes what is left of the VAT, as far as its amount goes: 38
-- refunds of three halalas of an invoice of 1.15 round their VAT to nothing, and the last one carries
-- one of the fifteen.
last_refund_falls_short : vat_component_minor (pos 115) (pos 15) (pos 114) (pos 0) (pos 1) ≡ pos 1
unfolding vat_component_minor ◌-ℤ◌ ◌+ℤ◌
last_refund_falls_short = refl

small_refund_has_no_vat : vat_component_minor (pos 115) (pos 15) (pos 3) (pos 0) (pos 3) ≡ pos 0
unfolding vat_component_minor ◌-ℤ◌ ◌+ℤ◌ ◌*ℕ◌ floor_div
small_refund_has_no_vat = refl

paid_db-Covered : Covered (paid_db ItemState.pending)
unfolding refunded_minor received_minor refunded_vat_minor to_minor ◌+ℤ◌
paid_db-Covered = record { collected = λ id. ground arith; taxed = λ id i there. ground arith }

record_refund-Covered_example : Covered (run_on ItemState.pending).1
record_refund-Covered_example =
    record_refund-Covered plain_platform 5 3_000 draws attested returning
      (paid_db ItemState.pending) paid_db-Covered

-- Recorded again by another actor, a moment later.
record_refund_idem_example :
    record_refund plain_platform 6 3_100 draws attested returning (run_on ItemState.pending).1
    ≡ (ok (expected item_reduced, true), (run_on ItemState.pending).1)
record_refund_idem_example =
    record_refund_idem plain_platform 5 3_000 draws attested returning (paid_db ItemState.pending)
      (run_on ItemState.pending).1 request request 6 3_100 draws attested returning
      pending_is_reduced request_is_checked checked_later
      (record { invoice_id = refl; evidence_ref = refl; amount_minor = refl; refunded_at = refl })

record_refund_conserves_example :
    due (run_on ItemState.pending).1 +ℤ minor (pos 23_000_000) ≡ due (paid_db ItemState.pending)
record_refund_conserves_example =
    record_refund_conserves plain_platform 5 3_000 draws attested returning
      (paid_db ItemState.pending) (run_on ItemState.pending).1 (expected item_reduced) false
      (tt, tt) pending_is_reduced
