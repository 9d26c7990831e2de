-- ===== src/Settlement/Engine/Close.antt =====
-- The two terminal lanes of a batch (src/settlement/settlement-engine.service.ts): settled with a
-- remittance, and closed at a net of zero without one. Both consume the recovery allocation.
use Prim.Native.String.{String}
use qift_platform.Prelude.{
  ℕ, Bool, true, false, not, ◌&&◌, Option, none, some, List, [], ◌∷◌, ◌++◌, ◌==◌, find, map,
  contains, length, if◌then◌else◌,
}
use qift_platform.Prelude.Int.{pos, ◌+ℤ◌, leb_ℤ, eqb_ℤ}
use qift_platform.Prelude.Outcome.{ok, err}
use qift_platform.Money.{to_minor}
use qift_platform.Ledger.{
  RecordLedgerInput, ActorType, Direction, Counterparty, Metadata, merchant_receivable_recovered,
  settlement_completed, option_eq,
}
use qift_platform.Settlement.Errors.{
  receivables_contended, closed_zero_net, settled_without_remittance, batch_contended,
  items_contended, already_remitted, zero_net_close_requires_exact_zero,
}
use qift_platform.Settlement.States.{
  ItemState, item_eq, BatchState, batch_eq, ReceivableState, receivable_eq, assert_item_transition,
  assert_batch_transition, assert_receivable_transition,
}
use qift_platform.Settlement.Calculator.{as_currency_code}
use qift_platform.Settlement.Store.{
  Item, Batch, Receivable, Allocation, Remittance, CompositionEntry, ClosureType, AuditAction, Tx,
  ◌>>=◌, ◌>>◌, pure, throw, gets, lift, or_throw, throw_when, modify, update_many, count, post,
}
use qift_platform.Settlement.Engine.Assemble.{marker, audit_guaranteed}
use qift_platform.Settlement.Engine.Lifecycle.{load_batch, remits}

-- The state of a receivable after an offset.
unfoldable pub next_state : Allocation → ReceivableState
next_state a =
    if leb_ℤ a.balance_after (pos 0)
    then ReceivableState.recovered
    else ReceivableState.partially_recovered

-- The row that an offset is consumed from: staged by the batch, in the state that was read, and with
-- the recovered amount that the plan froze.
unfoldable pub consumes : ℕ → Allocation → ReceivableState → Receivable → Bool
consumes batch a read row =
    row.id == a.receivable_id
    && (option_eq row.staged_by (some batch)
        && (receivable_eq row.state read && eqb_ℤ row.amount_recovered a.amount_recovered_at_plan))

unfoldable pub consumed_row : ℕ → (at : ℕ) → Allocation → Receivable → Receivable
unfolding next_state
consumed_row batch at a row =
    let to = next_state a in
    let moved = record row {
      state = to;
      amount_recovered = a.amount_recovered_at_plan +ℤ a.amount;
      staged_by = none;
    } in
    if receivable_eq to ReceivableState.recovered
    then record moved { recovered_at = some at; recovered_by = some batch }
    else moved

-- The posting of one recovery.
abbrev pub recovery_posting : (actor : ℕ) → Batch → Metadata → Allocation → RecordLedgerInput
recovery_posting actor batch meta a = record {
  event_type = merchant_receivable_recovered;
  reason_code = "MERCHANT_RECEIVABLE";
  actor_type = ActorType.user;
  actor_id = some actor;
  amount = a.amount;
  currency = batch.currency;
  direction = Direction.debit;
  counterparty = some Counterparty.merchant;
  order_id = none;
  payment_id = none;
  store_id = some batch.store_id;
  metadata = meta;
  idempotency_key = some (record {
    event = merchant_receivable_recovered;
    anchor = a.receivable_id;
    sub_anchor = some batch.id;
  });
}

-- The row that was read: its move is asserted where the state changes, and the update is checked.
unfoldable pub consume_found : (batch at : ℕ) → Allocation → Receivable → Tx (Unit {0})
unfolding consumes consumed_row next_state
consume_found batch at a row = do
  let to = next_state a
  lift (if receivable_eq row.state to then ok tt else assert_receivable_transition row.state to)
  n ← gets (λ db. count (consumes batch a row.state) db.receivables)
  throw_when (not (n == 1)) receivables_contended
  modify (λ db. record db {
    receivables = update_many (consumes batch a row.state) (consumed_row batch at a) db.receivables;
  })

-- The row of one offset is read and consumed.
unfoldable pub consume_row : (batch at : ℕ) → Allocation → Tx (Unit {0})
unfolding consume_found
consume_row batch at a = do
  row ← (λ db.
      or_throw (find (λ (r : Receivable). r.id == a.receivable_id) db.receivables)
        receivables_contended db)
  consume_found batch at a row

-- `consumeRecoveryAllocation`, with the metadata that its lane posts.
unfoldable pub consume_allocation :
    (actor : ℕ) → Batch → (at : ℕ) → (Allocation → Metadata) → List Allocation → Tx (Unit {0})
consume_allocation actor batch at meta [] = pure tt
consume_allocation actor batch at meta (a ∷ rest) =
    let later = consume_allocation actor batch at meta rest in
    consume_row batch.id at a >> (post (recovery_posting actor batch (meta a) a) >> later)

abbrev pub is_ready_batch : ℕ → Batch → Bool
is_ready_batch id b = b.id == id && batch_eq b.status BatchState.ready

-- The items of the composition that are still ready in the batch.
unfoldable pub is_member : ℕ → List ℕ → Item → Bool
is_member batch ids i =
    contains ids i.id && (option_eq i.batch_id (some batch) && item_eq i.state ItemState.ready)

abbrev pub member_ids : Batch → List ℕ
member_ids b = map (λ (c : CompositionEntry). c.item_id) b.composition

-- The guarded terminal transition of the batch and of its items, which both lanes make.
unfoldable pub settle_rows : Batch → ClosureType → (now : ℕ) → Tx (Unit {0})
unfolding is_member
settle_rows batch closure now = do
  closed ← gets (λ db. count (is_ready_batch batch.id) db.batches)
  throw_when (not (closed == 1)) batch_contended
  lift (assert_item_transition ItemState.ready ItemState.settled)
  settled ← gets (λ db. count (is_member batch.id (member_ids batch)) db.items)
  throw_when (not (settled == length (member_ids batch))) items_contended
  modify (λ db. record db {
    batches =
        update_many (is_ready_batch batch.id)
          (λ b. record b {
            status = BatchState.settled;
            closure_type = some closure;
            closed_at = some now;
          })
          db.batches;
    items =
        update_many (is_member batch.id (member_ids batch))
          (λ i. record i { state = ItemState.settled }) db.items;
  })

pub record Evidence : Type 0 where
  pub bank_reference : String
  pub executed_at : ℕ
  pub executed_by : ℕ

unfoldable pub remittance_of : Batch → Evidence → (fresh now : ℕ) → Remittance
remittance_of batch e fresh now = record {
  id = fresh;
  settlement_id = batch.id;
  reference = batch.reference;
  store_id = batch.store_id;
  currency = batch.currency;
  amount = batch.net_amount;
  bank_reference = e.bank_reference;
  executed_at = e.executed_at;
  executed_by = e.executed_by;
  created_at = now;
}

-- The transaction of `markSettled`.
unfoldable pub settle_tx : (actor : ℕ) → Batch → Evidence → (fresh now : ℕ) → Tx Remittance
settle_tx actor batch e fresh now = do
  settle_rows batch ClosureType.remitted now
  let created = remittance_of batch e fresh now
  modify (λ db. record db { remittances = db.remittances ++ created ∷ [] })
  consume_allocation actor batch e.executed_at
      (λ a. Metadata.recovered_by_cash_draw batch.reference a.receivable_id a.occurrence_id)
      batch.allocation
  post (
      marker settlement_completed "SETTLEMENT_COMPLETED"
        (Metadata.batch_remitted batch.reference fresh e.bank_reference) actor batch)
  audit_guaranteed AuditAction.settled batch.id actor batch.store_id
  pure created

abbrev pub option_closure_eq : Option ClosureType → ClosureType → Bool
option_closure_eq (some ClosureType.remitted) ClosureType.remitted = true
option_closure_eq (some ClosureType.zero_net_no_transfer) ClosureType.zero_net_no_transfer = true
option_closure_eq _ _ = false

-- The recorded movement of a settled batch.
unfoldable pub recorded_remittance : Batch → Tx Remittance
recorded_remittance batch db =
    if option_closure_eq batch.closure_type ClosureType.zero_net_no_transfer
    then err closed_zero_net
    else or_throw (find (remits batch.id) db.remittances) settled_without_remittance db

-- `markSettled`: the remittance, and whether it was there before.
unfoldable pub mark_settled : (actor id : ℕ) → Evidence → (fresh now : ℕ) → Tx (Remittance × Bool)
mark_settled actor id e fresh now = do
  batch ← load_batch id
  let replay : Tx (Remittance × Bool) = (do r ← recorded_remittance batch; pure (r, true))
  let settle : Tx (Remittance × Bool) = (do
    lift (assert_batch_transition batch.status BatchState.settled)
    r ← settle_tx actor batch e fresh now
    pure (r, false))
  if batch_eq batch.status BatchState.settled then replay else settle

-- The transaction of `markSettledZeroNet`.
unfoldable pub zero_net_tx : (actor : ℕ) → Batch → (now : ℕ) → Tx (Unit {0})
zero_net_tx actor batch now = do
  settle_rows batch ClosureType.zero_net_no_transfer now
  consume_allocation actor batch now
      (λ a. Metadata.recovered_transfer_due batch.reference a.receivable_id a.occurrence_id now)
      batch.allocation
  post (
      marker settlement_completed "SETTLEMENT_COMPLETED"
        (Metadata.batch_closed_zero_net batch.reference now) actor batch)
  audit_guaranteed AuditAction.closed_zero_net batch.id actor batch.store_id

-- `markSettledZeroNet`: whether the close was there before.
unfoldable pub mark_settled_zero_net : (actor id now : ℕ) → Tx Bool
mark_settled_zero_net actor id now = do
  batch ← load_batch id
  let replay : Tx Bool =
      (if option_closure_eq batch.closure_type ClosureType.zero_net_no_transfer
        then pure true
        else throw already_remitted)
  let close : Tx Bool = (do
    lift (assert_batch_transition batch.status BatchState.settled)
    code ← lift (as_currency_code batch.currency)
    throw_when (not (eqb_ℤ (to_minor code batch.net_amount) (pos 0)))
        zero_net_close_requires_exact_zero
    zero_net_tx actor batch now
    pure false)
  if batch_eq batch.status BatchState.settled then replay else close
