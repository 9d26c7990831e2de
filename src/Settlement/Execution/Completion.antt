-- ===== src/Settlement/Execution/Completion.antt =====
-- What follows a close in src/settlement/settlement-execution.service.ts: the posting, the statement,
-- the credit notes and the audit, each of which a second run leaves as it is.
use qift_platform.Prelude.{
  ℕ, ◌+◌, Bool, ◌&&◌, Option, none, some, List, [], ◌∷◌, ◌++◌, ◌==◌, find, any, if◌then◌else◌,
}
use qift_platform.Prelude.Outcome.{Result, ok, err}
use qift_platform.Ledger.{
  RecordLedgerInput, ActorType, Direction, Counterparty, Metadata, merchant_remittance_paid,
  ledger_idempotency_key, is_none,
}
use qift_platform.Settlement.Errors.{SettlementError}
use qift_platform.Settlement.Store.{
  Db, Remittance, Allocation, StatementRecord, CreditNote, CreditNoteVersion, AuditAction,
  update_many, count, post,
}
use qift_platform.Settlement.Call.{Call, ◌>>=◌, ◌>>◌, returns, transaction}
use qift_platform.Settlement.Canonical.{Platform, canonical_json, hash_canonical}
use qift_platform.Settlement.CreditNote.{CreditNoteFacts, credit_note_canonical, credit_note_hash}
use qift_platform.Settlement.Statement.{
  FrozenBatchRecord, RemittanceEvidence, ZeroNetClosureFacts, SettlementStatement, statement_json,
  generate_settlement_statement,
}
use qift_platform.Settlement.Binding.{replay_engine_version}
use qift_platform.Settlement.Engine.Assemble.{audit_under}

abbrev pub is_statement_of : ℕ → StatementRecord → Bool
is_statement_of settlement r = r.settlement_id == settlement

-- `findUnique({ where: { settlementId } })`
unfoldable pub stored_statement : ℕ → Db → Option StatementRecord
stored_statement settlement db = find (is_statement_of settlement) db.statements

-- The posting that extinguishes the payable.
unfoldable pub remittance_posting : (actor : ℕ) → FrozenBatchRecord → Remittance → RecordLedgerInput
remittance_posting actor frozen r = record {
  event_type = merchant_remittance_paid;
  reason_code = "MERCHANT_REMITTANCE";
  actor_type = ActorType.user;
  actor_id = some actor;
  amount = r.amount;
  currency = frozen.currency;
  direction = Direction.credit;
  counterparty = some Counterparty.merchant;
  order_id = none;
  payment_id = none;
  store_id = some frozen.store_id;
  metadata =
      Metadata.remittance_paid frozen.settlement_id frozen.settlement_reference r.bank_reference;
  idempotency_key = some (ledger_idempotency_key merchant_remittance_paid r.id);
}

module _ (p : Platform) where
  unfoldable pub remittance_evidence : Remittance → RemittanceEvidence
  remittance_evidence r = record {
    remittance_id = r.id;
    bank_transfer_reference = r.bank_reference;
    executed_at = p.iso r.executed_at;
    amount = r.amount;
  }

  unfoldable pub statement_record :
      FrozenBatchRecord → (now : ℕ) → SettlementStatement → StatementRecord
  statement_record frozen now s =
      let canonical = canonical_json p (statement_json p s) in
      record {
        settlement_id = frozen.settlement_id;
        reference = frozen.settlement_reference;
        store_id = frozen.store_id;
        statement_version = s.statement_version;
        payload = statement_json p s;
        canonical = canonical;
        statement_hash = hash_canonical p canonical;
        issued_at = now;
      }

  -- The create, which is refused where the batch has a statement; the stored one stands.
  unfoldable pub issue : ℕ → StatementRecord → Db → Db
  issue settlement r db =
      if any (is_statement_of settlement) db.statements
      then db
      else record db { statements = db.statements ++ r ∷ [] }

  unfoldable pub issue_generated :
      FrozenBatchRecord
      → (now : ℕ) → Result SettlementError SettlementStatement
      → Call (Option StatementRecord)
  unfolding issue statement_record stored_statement
  issue_generated frozen now (err e) db = (err e, db)
  issue_generated frozen now (ok s) db =
      let issued = issue frozen.settlement_id (statement_record frozen now s) db in
      (ok (stored_statement frozen.settlement_id issued), issued)

  unfoldable pub ensure_statement :
      (now : ℕ) → FrozenBatchRecord → Remittance → Call (Option StatementRecord)
  unfolding remittance_evidence
  ensure_statement now frozen r =
      issue_generated frozen now
        (generate_settlement_statement p frozen (p.iso now) (some (remittance_evidence r)) none)

  unfoldable pub closure_facts : (closed_at : ℕ) → ZeroNetClosureFacts
  closure_facts closed_at = record {
    closed_at = p.iso closed_at;
    issued_under_replay_engine = replay_engine_version;
  }

  unfoldable pub ensure_statement_zero_net :
      (now : ℕ) → FrozenBatchRecord → (closed_at : ℕ) → Call (Option StatementRecord)
  unfolding closure_facts
  ensure_statement_zero_net now frozen closed_at =
      issue_generated frozen now
        (generate_settlement_statement p frozen (p.iso now) none (some (closure_facts closed_at)))

  -- The row that an attachment may write: of this refund, and without a statement.
  abbrev pub unattached : ℕ → CreditNote → Bool
  unattached refund n = n.facts.refund_id == refund && is_none n.facts.statement_settlement_id

  -- The document of a note, with the statement of the batch.
  unfoldable pub attached_facts : ℕ → CreditNote → CreditNoteFacts
  attached_facts settlement n = record n.facts { statement_settlement_id = some settlement }

  unfoldable pub attached_version : (actor settlement : ℕ) → CreditNote → CreditNoteVersion
  attached_version actor settlement n = record {
    credit_note_id = n.id;
    version_number = n.current_version + 1;
    change_reason = "statement_attached";
    canonical = credit_note_canonical p (attached_facts settlement n);
    document_hash = credit_note_hash p (attached_facts settlement n);
    statement_settlement_id = some settlement;
    created_by = actor;
  }

  -- The update of the note that was read, and its next version where the update changed one row.
  unfoldable pub attach : (actor : ℕ) → FrozenBatchRecord → CreditNote → Call (Unit {0})
  unfolding attached_facts attached_version
  attach actor frozen n db =
      let facts = attached_facts frozen.settlement_id n in
      let updated : Db = record db {
        credit_notes =
            update_many (unattached n.facts.refund_id)
              (λ (row : CreditNote). record row {
                facts = record row.facts { statement_settlement_id = some frozen.settlement_id };
                canonical = credit_note_canonical p facts;
                document_hash = credit_note_hash p facts;
                current_version = n.current_version + 1;
              })
              db.credit_notes;
      } in
      let versioned : Db = record updated {
        credit_note_versions =
            updated.credit_note_versions ++ attached_version actor frozen.settlement_id n ∷ [];
      } in
      let audited =
        transaction
          (audit_under AuditAction.credit_note_attached n.facts.refund_id
            AuditAction.credit_note_attached actor frozen.store_id)
          versioned in
      if count (unattached n.facts.refund_id) db.credit_notes == 1
      then audited
      else (ok tt, updated)

  unfoldable pub attach_found :
      (actor : ℕ) → FrozenBatchRecord → Option CreditNote → Call (Unit {0})
  unfolding attach
  attach_found actor frozen none db = (ok tt, db)
  attach_found actor frozen (some n) db =
      let attached = attach actor frozen n db in
      if is_none n.facts.statement_settlement_id then attached else (ok tt, db)

  -- `attachStatementToCreditNotes`
  unfoldable pub attach_statement_to_credit_notes :
      (actor : ℕ) → FrozenBatchRecord → List Allocation → Call (Unit {0})
  unfolding attach_found
  attach_statement_to_credit_notes actor frozen [] = returns tt
  attach_statement_to_credit_notes actor frozen (a ∷ rest) =
      let later = attach_statement_to_credit_notes actor frozen rest in
      (λ db.
        attach_found actor frozen
          (find (λ (n : CreditNote). n.facts.refund_id == a.occurrence_id) db.credit_notes) db)
      >> later

  -- `completeChain`: the statement that stands for the batch.
  unfoldable pub complete_chain :
      (actor now : ℕ)
      → (healed : Bool) → FrozenBatchRecord
      → Remittance
      → Call (Option StatementRecord)
  unfolding remittance_posting ensure_statement attach_statement_to_credit_notes
  complete_chain actor now healed frozen r = do
    transaction (post (remittance_posting actor frozen r))
    statement ← ensure_statement now frozen r
    attach_statement_to_credit_notes actor frozen frozen.recovery_allocation
    transaction (
        audit_under AuditAction.executed frozen.settlement_id
          (if healed then AuditAction.healed else AuditAction.executed) actor frozen.store_id)
    returns statement

  -- `completeChainZeroNet`
  unfoldable pub complete_chain_zero_net :
      (actor now : ℕ)
      → (healed : Bool) → FrozenBatchRecord
      → (closed_at : ℕ) → Call (Option StatementRecord)
  unfolding ensure_statement_zero_net attach_statement_to_credit_notes
  complete_chain_zero_net actor now healed frozen closed_at = do
    statement ← ensure_statement_zero_net now frozen closed_at
    attach_statement_to_credit_notes actor frozen frozen.recovery_allocation
    transaction (
        audit_under AuditAction.zero_net_statement frozen.settlement_id
          (if healed then AuditAction.zero_net_healed else AuditAction.zero_net_statement) actor
          frozen.store_id)
    returns statement
