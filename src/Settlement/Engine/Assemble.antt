-- ===== src/Settlement/Engine/Assemble.antt =====
-- `assembleBatch` (src/settlement/settlement-engine.service.ts): the transaction that creates a batch,
-- binds its items and stages the receivables that it recovers, and its retry on a taken reference.
pub mod Guards
use Prim.Native.String.{String}
use qift_platform.Prelude.{
  ℕ, ◌+◌, Bool, true, false, not, ◌&&◌, ◌||◌, Option, none, some, List, [], ◌∷◌, ◌++◌, ◌==◌, any,
  length, if◌then◌else◌,
}
use qift_platform.Prelude.Int.{ℤ, pos, eqb_ℤ}
use qift_platform.Prelude.Outcome.{Result, ok, err}
use qift_platform.Ledger.{
  RecordLedgerInput, ActorType, Direction, Metadata, settlement_started, ledger_idempotency_key,
  is_none, FinancialEvent,
}
use qift_platform.Settlement.Errors.{
  SettlementError, items_contended, receivables_contended, unique_violation,
}
use qift_platform.Settlement.States.{ItemState, item_eq, BatchState}
use qift_platform.Settlement.Calculator.{code_text}
use qift_platform.Settlement.Store.{
  Db, Item, Batch, Receivable, Allocation, AuditAction, AuditRow, Tx, ◌>>=◌, ◌>>◌, pure, gets, lift,
  throw_when, modify, update_many, count, post,
}
use qift_platform.Settlement.Engine.Plan.{Plan, is_recoverable, assembly_plan}

-- The row of an item that a batch may claim: still eligible, unbound, and of the amount that was read.
unfoldable pub claims : Item → Item → Bool
claims wanted row =
    row.id == wanted.id
    && (item_eq row.state ItemState.eligible
        && (is_none row.batch_id && eqb_ℤ row.amount wanted.amount))

unfoldable pub bind_item : ℕ → Item → Item
bind_item batch row = record row { state = ItemState.ready; batch_id = some batch }

-- The loop that binds the items, with the number of rows that it changed.
unfoldable pub bind_loop : ℕ → List Item → List Item → ℕ × List Item
bind_loop batch [] rows = (0, rows)
bind_loop batch (i ∷ rest) rows =
    let (n, rows') = bind_loop batch rest (update_many (claims i) (bind_item batch) rows) in
    (count (claims i) rows + n, rows')

-- The row of a receivable that a batch may stage: recoverable, unstaged, and with the recovered
-- amount that the plan was computed against.
unfoldable pub stages : Allocation → Receivable → Bool
unfolding is_recoverable
stages alloc row =
    row.id == alloc.receivable_id
    && (is_recoverable row.state
        && (is_none row.staged_by && eqb_ℤ row.amount_recovered alloc.amount_recovered_at_plan))

unfoldable pub stage_row : ℕ → Receivable → Receivable
stage_row batch row = record row { staged_by = some batch }

-- The loop that stages the receivables; each must be changed exactly once.
unfoldable pub stage_loop :
    ℕ → List Allocation → List Receivable → Result SettlementError (List Receivable)
stage_loop batch [] rows = ok rows
stage_loop batch (a ∷ rest) rows =
    let after = stage_loop batch rest (update_many (stages a) (stage_row batch) rows) in
    if count (stages a) rows == 1 then after else err receivables_contended

-- A zero-amount marker of the life of a batch.
unfoldable pub marker :
    FinancialEvent → (reason : String) → Metadata → (actor : ℕ) → Batch → RecordLedgerInput
marker event reason meta actor batch = record {
  event_type = event;
  reason_code = reason;
  actor_type = ActorType.user;
  actor_id = some actor;
  amount = pos 0;
  currency = batch.currency;
  direction = Direction.debit;
  counterparty = none;
  order_id = none;
  payment_id = none;
  store_id = some batch.store_id;
  metadata = meta;
  idempotency_key = some (ledger_idempotency_key event batch.id);
}

abbrev action_code : AuditAction → ℕ
action_code AuditAction.simulated = 0
action_code AuditAction.assembled = 1
action_code AuditAction.failed = 2
action_code AuditAction.retried = 3
action_code AuditAction.held = 4
action_code AuditAction.superseded = 5
action_code AuditAction.settled = 6
action_code AuditAction.closed_zero_net = 7
action_code AuditAction.previewed = 8
action_code AuditAction.approved = 9
action_code AuditAction.executed = 10
action_code AuditAction.healed = 11
action_code AuditAction.zero_net_statement = 12
action_code AuditAction.zero_net_healed = 13
action_code AuditAction.credit_note_attached = 14
action_code AuditAction.replayed = 15
action_code AuditAction.refund_recorded = 16
action_code AuditAction.credit_note_issued = 17

unfoldable pub has_key : AuditAction → ℕ → AuditRow → Bool
has_key action anchor row = elim row.key [
  | none ↦ false
  | some k ↦ action_code k.0 == action_code action && k.1 == anchor
]

-- `recordGuaranteed`: one row for a key, ever. A key is the kind of act and what it acted on.
unfoldable pub audit_under :
    (kind : AuditAction) → (anchor : ℕ) → AuditAction → (actor store : ℕ) → Tx (Unit {0})
unfolding has_key
audit_under kind anchor action actor store = modify (λ db. record db {
  audit =
      if any (has_key kind anchor) db.audit
      then db.audit
      else db.audit
        ++ record {
          key = some (kind, anchor);
          action = action;
          actor = actor;
          target_store = store;
        }
          ∷ [];
})

unfoldable pub audit_guaranteed : AuditAction → (anchor actor store : ℕ) → Tx (Unit {0})
unfolding audit_under
audit_guaranteed action anchor actor store = audit_under action anchor action actor store

unfoldable pub new_batch : (actor reference fresh : ℕ) → Plan → Batch
new_batch actor reference fresh plan = record {
  id = fresh;
  reference = reference;
  store_id = plan.store_id;
  currency = code_text plan.calculation.currency;
  window_type = "manual";
  status = BatchState.ready;
  gross_amount = plan.calculation.lines.merchant_gross;
  net_amount = plan.calculation.net_amount;
  composition = plan.composition;
  calculation = plan.calculation;
  allocation = plan.recovery.allocation;
  assembled_by = some actor;
  closure_type = none;
  closed_at = none;
  failure_evidence = none;
  superseded_by = none;
}

-- The primary key and the unique reference of a batch.
unfoldable pub is_taken : (reference fresh : ℕ) → List Batch → Bool
is_taken reference fresh = any (λ b. b.reference == reference || b.id == fresh)

-- The writes of the transaction, from the rows that its two loops leave.
unfoldable pub write_claim :
    Batch → List Item → Result SettlementError (List Receivable) → Tx (Unit {0})
write_claim batch items (err e) db = err e
write_claim batch items (ok receivables) db =
    ok (
      tt,
      record db { batches = db.batches ++ batch ∷ []; items = items; receivables = receivables },
    )

-- The creation of the batch, the binding of its items and the staging of its receivables.
unfoldable pub claim : (actor reference fresh : ℕ) → Plan → Tx (Unit {0})
unfolding is_taken
claim actor reference fresh plan db =
    let (bound, items) = bind_loop fresh plan.items db.items in
    let claimed =
      write_claim (new_batch actor reference fresh plan) items
        (stage_loop fresh plan.recovery.allocation db.receivables) db in
    if is_taken reference fresh db.batches
    then err unique_violation
    else if bound == length plan.items
    then claimed
    else err items_contended

-- The transaction of one attempt.
unfoldable pub commit_assembly : (actor reference fresh : ℕ) → Plan → Tx Batch
commit_assembly actor reference fresh plan = do
  let batch = new_batch actor reference fresh plan
  claim actor reference fresh plan
  post (
      marker settlement_started "SETTLEMENT_STARTED"
        (Metadata.batch_started reference (length plan.items) plan.calculation.net_amount) actor
        batch)
  audit_guaranteed AuditAction.assembled fresh actor plan.store_id
  pure batch

abbrev pub is_unique_violation : SettlementError → Bool
is_unique_violation unique_violation = true
is_unique_violation _ = false

-- What an attempt returns, or the next attempt where its reference was taken.
unfoldable pub or_again :
    Bool
    → Result SettlementError (Batch × Db)
    → Result SettlementError (Batch × Db)
    → Result SettlementError (Batch × Db)
or_again last (ok done) next = ok done
or_again last (err e) next = if is_unique_violation e && not last then next else err e

-- `MAX_ASSEMBLE_ATTEMPTS` attempts, each on the reference and the identifier that it was given; only
-- a unique violation makes another one.
unfoldable pub attempts : ℕ → (actor : ℕ) → Plan → List (ℕ × ℕ) → Tx Batch
unfolding or_again
attempts n actor plan [] db = err unique_violation
attempts n actor plan ((reference, fresh) ∷ rest) db =
    let again = attempts (n + 1) actor plan rest db in
    or_again (n == 2) (commit_assembly actor reference fresh plan db) again

unfoldable pub assemble_batch : (actor store : ℕ) → String → List (ℕ × ℕ) → Tx Batch
assemble_batch actor store currency candidates = do
  plan ← (λ db. lift (assembly_plan store currency db) db)
  attempts 0 actor plan candidates
