-- ===== src/Settlement/Execution/Replay.antt =====
-- The issued statement and its replay (src/settlement/settlement-execution.service.ts): the statement
-- is made again from the frozen record and the stored facts, and the two are compared.
use package.text.Mathlib.Text.{◌==◌ as str_eq}
use qift_platform.Prelude.{ℕ, Bool, not, ◌&&◌, Option, none, some, [], ◌∷◌, ◌++◌, find}
use qift_platform.Prelude.Outcome.{Result, ok, throw_if}
use qift_platform.Settlement.Errors.{
  SettlementError, statement_not_issued, statement_integrity_violation,
}
use qift_platform.Settlement.Store.{
  Remittance, StatementRecord, ReplayRecord, AuditAction, Tx, modify,
}
use qift_platform.Settlement.Call.{Call, ◌>>=◌, ◌>>◌, returns, check, transaction}
use qift_platform.Settlement.Canonical.{
  Json, Platform, canonical_json, hash_canonical, get, truthy, string_of,
}
use qift_platform.Settlement.Statement.{
  FrozenBatchRecord, RemittanceEvidence, ZeroNetClosureFacts, SettlementStatement, statement_hash,
  generate_settlement_statement,
}
use qift_platform.Settlement.Binding.{ExecutionPreview, build_execution_preview}
use qift_platform.Settlement.Engine.Plan.{audit_record}
use qift_platform.Settlement.Engine.Lifecycle.{remits}
use qift_platform.Settlement.Engine.Reads.{frozen_of, found_batch}
use qift_platform.Settlement.Execution.Operations.{found_or}
use qift_platform.Settlement.Execution.Completion.{stored_statement, remittance_evidence}

module _ (p : Platform) where
  -- The stored text hashes to the stored hash, and the stored value prints as the stored text.
  unfoldable pub statement_integrity_ok : StatementRecord → Bool
  statement_integrity_ok r =
      str_eq (hash_canonical p r.canonical) r.statement_hash
      && str_eq (canonical_json p r.payload) r.canonical

  -- `statement`, less the signatures, which it only reads.
  unfoldable pub statement : (batch : ℕ) → Call StatementRecord
  unfolding statement_integrity_ok
  statement id = do
    batch ← check (found_batch id)
    r ← check (λ db. found_or (stored_statement batch.id db) statement_not_issued)
    check (λ db. throw_if (not (statement_integrity_ok r)) statement_integrity_violation)
    returns r

  -- The facts of a close that the stored value carries.
  unfoldable pub stored_closure : Option Json → Option ZeroNetClosureFacts
  stored_closure none = none
  stored_closure (some c) = some (record {
    closed_at = string_of p (get "closedAt" c);
    issued_under_replay_engine = string_of p (get "issuedUnderReplayEngine" c);
  })

  unfoldable pub stored_evidence : Option Remittance → Option RemittanceEvidence
  stored_evidence none = none
  stored_evidence (some r) = some (remittance_evidence p r)

  -- The statement, made again from the frozen record and the stored facts.
  unfoldable pub regenerate :
      FrozenBatchRecord
      → StatementRecord
      → Option Remittance
      → Result SettlementError SettlementStatement
  unfolding stored_closure stored_evidence
  regenerate frozen r remittance =
      generate_settlement_statement p frozen (p.iso r.issued_at) (stored_evidence remittance)
        (stored_closure (truthy (get "closure" r.payload)))

  unfoldable pub replay_record :
      (actor now : ℕ)
      → FrozenBatchRecord
      → StatementRecord
      → ExecutionPreview
      → SettlementStatement
      → ReplayRecord
  unfolding statement_integrity_ok
  replay_record actor now frozen r preview again = record {
    settlement_id = frozen.settlement_id;
    reference = frozen.settlement_reference;
    calculation_replay_verified = preview.replay_verified;
    statement_integrity_verified = statement_integrity_ok r;
    statement_identical =
        statement_integrity_ok r && str_eq (statement_hash p again) r.statement_hash;
    ran_by = actor;
    ran_at = now;
  }

  unfoldable pub store_replay : ReplayRecord → Tx (Unit {0})
  store_replay v = modify (λ db. record db { replay_records = db.replay_records ++ v ∷ [] })

  -- `replay`: the verdict, which is recorded and audited.
  unfoldable pub replay : (actor now : ℕ) → (batch : ℕ) → Call ReplayRecord
  unfolding regenerate replay_record store_replay
  replay actor now id = do
    batch ← check (found_batch id)
    r ← check (λ db. found_or (stored_statement batch.id db) statement_not_issued)
    remittance ← check (λ db. ok (find (remits batch.id) db.remittances))
    shown ← check (λ db. build_execution_preview p (frozen_of batch) (p.iso r.issued_at))
    again ← check (λ db. regenerate (frozen_of batch) r remittance)
    let verdict = replay_record actor now (frozen_of batch) r shown again
    transaction (store_replay verdict)
    transaction (audit_record AuditAction.replayed actor batch.store_id)
    returns verdict
