-- ===== src/Settlement/Execution/Operations.antt =====
-- The operations of src/settlement/settlement-execution.service.ts: preview, approve, execute, the
-- close at a net of zero, the issued statement and its replay. `fresh` is the identifier that the
-- database gives to the row that an operation creates.
use Prim.Native.String.{String}
use text.Mathlib.Text.{◌==◌ as str_eq}
use qift_platform.Prelude.{
  ℕ, ◌+◌, ◌*◌, Bool, true, false, not, ◌&&◌, ◌||◌, Option, none, some, [], ◌∷◌, ◌++◌, ◌==◌, ltb,
  find, any, if◌then◌else◌,
}
use qift_platform.Prelude.Int.{ℤ, eqb_ℤ}
use qift_platform.Prelude.Outcome.{Result, ok, err, throw_if}
use qift_platform.Prelude.Text.{trim, is_empty}
use qift_platform.Money.{to_minor}
use qift_platform.Ledger.{is_none, option_eq}
use qift_platform.Settlement.Errors.{
  SettlementError, preview_requires_ready, approval_requires_ready, batch_proposer_unknown,
  approver_cannot_be_proposer, approval_snapshot_stale, already_approved_by_user,
  bank_reference_required, executed_at_invalid, executed_at_out_of_window, remittance_conflict,
  settled_without_remittance,
}
use qift_platform.Settlement.States.{BatchState, batch_eq}
use qift_platform.Settlement.Policy.{
  hour_ms, executed_at_max_age_hours, executed_at_max_skew_hours, required_execution_approval,
}
use qift_platform.Settlement.Calculator.{as_currency_code}
use qift_platform.Settlement.Store.{
  Db, Batch, Remittance, Approval, StatementRecord, AuditAction, Tx,
}
use qift_platform.Settlement.Call.{Call, ◌>>=◌, ◌>>◌, returns, check, transaction}
use qift_platform.Settlement.Canonical.{Platform}
use qift_platform.Settlement.Statement.{FrozenBatchRecord, calculation_hash}
use qift_platform.Settlement.Binding.{ExecutionPreview, build_execution_preview}
use qift_platform.Settlement.Engine.Assemble.{audit_guaranteed}
use qift_platform.Settlement.Engine.Lifecycle.{remits}
use qift_platform.Settlement.Engine.Close.{Evidence, mark_settled}
use qift_platform.Settlement.Engine.Reads.{frozen_of, found_batch}
use qift_platform.Settlement.Execution.{
  Env, unlapsed, assert_gates_open, authorization_basis_minor, close_aggregate, execution_aggregate,
  authorise, payable_net,
}
use qift_platform.Settlement.Execution.Completion.{complete_chain}

abbrev pub is_ready : Batch → Bool
is_ready b = batch_eq b.status BatchState.ready

abbrev pub is_settled : Batch → Bool
is_settled b = batch_eq b.status BatchState.settled

-- A vote of this identity on the batch, still active.
abbrev pub votes_now : (now settlement actor : ℕ) → Approval → Bool
votes_now now settlement actor v =
    v.settlement_id == settlement && (v.approved_by == actor && unlapsed now v.approved_at)

-- `input.note?.trim() || null`
abbrev pub trimmed_note : Option String → Option String
trimmed_note none = none
trimmed_note (some s) = if is_empty (trim s) then none else some (trim s)

-- The movement of a settled batch is the one that the call supplies.
unfoldable pub assert_remittance_identity :
    Remittance
    → (bank_reference : String) → (executed_at : ℕ) → (same_amount : Bool)
    → Result SettlementError (Unit {0})
assert_remittance_identity r bank_reference executed_at same_amount =
    throw_if
      (not (str_eq r.bank_reference bank_reference)
        || (not (r.executed_at == executed_at) || not same_amount))
      remittance_conflict

-- The window of the bank value date.
unfoldable pub assert_window : (now executed_at : ℕ) → Result SettlementError (Unit {0})
assert_window now executed_at =
    throw_if
      (ltb (executed_at + executed_at_max_age_hours * hour_ms) now
        || ltb (now + executed_at_max_skew_hours * hour_ms) executed_at)
      executed_at_out_of_window

-- The comparison with a movement that was recorded before.
unfoldable pub same_movement :
    Batch → Remittance → Evidence → (net : ℤ) → Result SettlementError (Unit {0})
unfolding assert_remittance_identity
same_movement batch r e net = elim (as_currency_code batch.currency) [
  | err x ↦ err x
  | ok code ↦
      assert_remittance_identity r e.bank_reference e.executed_at
        (eqb_ℤ (to_minor code r.amount) net)
]

pub record ExecuteInput : Type 0 where
  pub preview_hash : String
  pub bank_transfer_reference : String
  pub executed_at : Option ℕ

-- The evidence of a bank transfer: a reference that is not blank, and a valid date.
unfoldable pub evidence_of : (actor : ℕ) → ExecuteInput → Result SettlementError Evidence
evidence_of actor input =
    if is_empty (trim input.bank_transfer_reference)
    then err bank_reference_required
    else elim input.executed_at [
      | none ↦ err executed_at_invalid
      | some at ↦ ok (record {
        bank_reference = trim input.bank_transfer_reference;
        executed_at = at;
        executed_by = actor;
      })
    ]

abbrev pub found_or : {A : Type 0} → Option A → SettlementError → Result SettlementError A
found_or none e = err e
found_or (some a) e = ok a

-- The row of a preview and its audit.
unfoldable pub record_preview :
    (actor now fresh : ℕ) → FrozenBatchRecord → ExecutionPreview → Tx (Unit {0})
record_preview actor now fresh frozen shown db =
    audit_guaranteed AuditAction.previewed fresh actor frozen.store_id (record db {
      previews =
          db.previews
          ++ record {
            id = fresh;
            settlement_id = frozen.settlement_id;
            reference = frozen.settlement_reference;
            calculation_hash = shown.calculation_hash;
            replay_verified = shown.replay_verified;
            previewed_by = actor;
            previewed_at = now;
          }
            ∷ [];
    })

-- The unique key of a vote: the batch, the identity and the instant.
abbrev pub same_vote : Approval → Approval → Bool
same_vote vote v =
    v.settlement_id == vote.settlement_id
    && (v.approved_by == vote.approved_by && v.approved_at == vote.approved_at)

-- The row of a vote and its audit; one vote of an identity on a batch at an instant.
unfoldable pub record_vote : (fresh : ℕ) → Approval → (store : ℕ) → Tx (Unit {0})
record_vote fresh vote store db =
    let written =
      audit_guaranteed AuditAction.approved fresh vote.approved_by store
        (record db { approvals = db.approvals ++ vote ∷ [] }) in
    if any (same_vote vote) db.approvals then err already_approved_by_user else written

-- The refusals of a vote: the status, the proposer, the content, an active vote of the same identity.
unfoldable pub may_vote :
    Platform → (now actor : ℕ) → Batch → (hash : String) → Db → Result SettlementError (Unit {0})
may_vote p now actor batch hash db =
    if not (is_ready batch)
    then err approval_requires_ready
    else if is_none batch.assembled_by
    then err batch_proposer_unknown
    else if option_eq batch.assembled_by (some actor)
    then err approver_cannot_be_proposer
    else if not (str_eq hash (calculation_hash p batch.calculation))
    then err approval_snapshot_stale
    else if any (votes_now now batch.id actor) db.approvals
    then err already_approved_by_user
    else ok tt

-- The row of a vote.
unfoldable pub vote_of :
    Platform → (actor now fresh : ℕ) → Batch → (note : Option String) → (basis other : ℤ) → Approval
vote_of p actor now fresh batch note basis other = record {
  id = fresh;
  settlement_id = batch.id;
  reference = batch.reference;
  calculation_hash = calculation_hash p batch.calculation;
  required_level = (required_execution_approval basis other).level;
  approved_by = actor;
  approved_at = now;
  note = trimmed_note note;
}

-- The movement of a batch that is settled.
unfoldable pub settled_remittance : ℕ → Db → Result SettlementError Remittance
settled_remittance id db = found_or (find (remits id) db.remittances) settled_without_remittance

module _ (p : Platform) where
  unfoldable pub preview : (actor now fresh : ℕ) → (batch : ℕ) → Call ExecutionPreview
  unfolding record_preview
  preview actor now fresh id = do
    batch ← check (found_batch id)
    check (λ db. throw_if (not (is_ready batch)) preview_requires_ready)
    shown ← check (λ db. build_execution_preview p (frozen_of batch) (p.iso now))
    transaction (record_preview actor now fresh (frozen_of batch) shown)
    returns shown

  unfoldable pub approve :
      (actor now fresh : ℕ) → (batch : ℕ) → (hash : String) → (note : Option String) → Call Approval
  unfolding may_vote record_vote vote_of
  approve actor now fresh id hash note = do
    batch ← check (found_batch id)
    let frozen = frozen_of batch
    check (may_vote p now actor batch hash)
    basis ← check (λ db. authorization_basis_minor frozen)
    other ← check (close_aggregate p now frozen)
    let vote = vote_of p actor now fresh batch note basis other
    transaction (record_vote fresh vote frozen.store_id)
    returns vote

  -- The lane of a settled batch, which completes an execution that was cut off.
  unfoldable pub heal :
      (actor now : ℕ) → Batch → Evidence → (net : ℤ) → Call (Remittance × Option StatementRecord)
  unfolding settled_remittance assert_remittance_identity complete_chain
  heal actor now batch e net = do
    r ← check (settled_remittance batch.id)
    check (λ db. same_movement batch r e net)
    statement ← complete_chain p actor now true (frozen_of batch) r
    returns (r, statement)

  -- The lane of a ready batch, from its authorisation to its statement.
  unfoldable pub settle_and_complete :
      Env
      → (actor now fresh : ℕ) → Batch
      → (preview_hash : String) → Evidence
      → (net : ℤ) → Call (Remittance × Option StatementRecord)
  unfolding assert_window
  settle_and_complete env actor now fresh batch preview_hash e net = do
    check (λ db. assert_window now e.executed_at)
    _ ← check (
        authorise p env now actor (frozen_of batch) preview_hash
          (execution_aggregate p now e.executed_at))
    settled ← transaction (mark_settled actor batch.id e fresh now)
    check (λ db. if settled.1 then same_movement batch settled.0 e net else ok tt)
    statement ← complete_chain p actor now false (frozen_of batch) settled.0
    returns (settled.0, statement)

  unfoldable pub execute :
      Env
      → (actor now fresh : ℕ) → (batch : ℕ) → ExecuteInput
      → Call (Remittance × Option StatementRecord)
  unfolding evidence_of
  execute env actor now fresh id input = do
    check (λ db. assert_gates_open env)
    e ← check (λ db. evidence_of actor input)
    batch ← check (found_batch id)
    net ← check (λ db. payable_net (frozen_of batch) (is_ready batch || is_settled batch))
    if is_settled batch
        then heal actor now batch e net
        else settle_and_complete env actor now fresh batch input.preview_hash e net
