-- ===== src/Settlement/Execution/ZeroNet.antt =====
-- `closeZeroNet` of src/settlement/settlement-execution.service.ts: a close without a bank transfer.
use Prim.Native.String.{String}
use qift_platform.Prelude.{ℕ, true, false, not, Option, if◌then◌else◌}
use qift_platform.Prelude.Int.{ℤ, pos, eqb_ℤ}
use qift_platform.Prelude.Outcome.{Result, err, throw_if}
use qift_platform.Settlement.Errors.{
  SettlementError, execution_requires_ready, already_remitted, zero_net_close_requires_exact_zero,
  zero_net_close_state_missing,
}
use qift_platform.Settlement.Store.{Batch, StatementRecord, ClosureType}
use qift_platform.Settlement.Call.{Call, ◌>>=◌, ◌>>◌, check, transaction}
use qift_platform.Settlement.Canonical.{Platform}
use qift_platform.Settlement.Engine.Close.{option_closure_eq, mark_settled_zero_net}
use qift_platform.Settlement.Engine.Reads.{frozen_of, found_batch}
use qift_platform.Settlement.Execution.{
  Env, assert_gates_open, frozen_net, close_aggregate, authorise,
}
use qift_platform.Settlement.Execution.Operations.{is_ready, is_settled, found_or}
use qift_platform.Settlement.Execution.Completion.{complete_chain_zero_net}

-- The instant of the close of a batch that is settled without a transfer.
unfoldable pub closed_without_transfer : Batch → Result SettlementError ℕ
closed_without_transfer b =
    if option_closure_eq b.closure_type ClosureType.zero_net_no_transfer
    then found_or b.closed_at already_remitted
    else err already_remitted

-- The refusals of a close that is not a completion: the status, and any net but exactly zero.
unfoldable pub closable : Batch → (net : ℤ) → Result SettlementError (Unit {0})
closable b net =
    if not (is_ready b)
    then err execution_requires_ready
    else throw_if (not (eqb_ℤ net (pos 0))) zero_net_close_requires_exact_zero

module _ (p : Platform) where
  unfoldable pub heal_zero_net : (actor now : ℕ) → Batch → Call (Option StatementRecord)
  unfolding closed_without_transfer
  heal_zero_net actor now batch = do
    closed_at ← check (λ db. closed_without_transfer batch)
    complete_chain_zero_net p actor now true (frozen_of batch) closed_at

  unfoldable pub close_and_complete :
      Env
      → (actor now : ℕ) → Batch
      → (preview_hash : String) → (net : ℤ) → Call (Option StatementRecord)
  unfolding closable
  close_and_complete env actor now batch preview_hash net = do
    check (λ db. closable batch net)
    _ ← check (authorise p env now actor (frozen_of batch) preview_hash (close_aggregate p now))
    _ ← transaction (mark_settled_zero_net actor batch.id now)
    closed ← check (found_batch batch.id)
    closed_at ← check (λ db. found_or closed.closed_at zero_net_close_state_missing)
    complete_chain_zero_net p actor now false (frozen_of batch) closed_at

  unfoldable pub close_zero_net :
      Env → (actor now : ℕ) → (batch : ℕ) → (preview_hash : String) → Call (Option StatementRecord)
  unfolding heal_zero_net close_and_complete
  close_zero_net env actor now id preview_hash = do
    check (λ db. assert_gates_open env)
    batch ← check (found_batch id)
    net ← check (λ db. frozen_net (frozen_of batch))
    if is_settled batch
        then heal_zero_net actor now batch
        else close_and_complete env actor now batch preview_hash net
