-- ===== src/Settlement/Engine/Lifecycle.antt =====
-- The lanes of a batch that is not closed (src/settlement/settlement-engine.service.ts): failure,
-- retry, hold, supersession and the link to a successor.
use Prim.Native.String.{String}
use qift_platform.Prelude.{
  ℕ, Bool, false, not, ◌&&◌, Option, none, some, List, [], ◌∷◌, ◌==◌, any, all, filter, find,
  contains, if◌then◌else◌,
}
use qift_platform.Prelude.Outcome.{Result, ok, err}
use qift_platform.Prelude.Text.{trim, is_empty}
use qift_platform.Ledger.{Metadata, option_eq, is_none, settlement_superseded}
use qift_platform.Settlement.Errors.{
  SettlementError, batch_not_found, failure_evidence_required, hold_evidence_required,
  hold_type_and_evidence_required, supersede_refused_remittance_exists, supersede_item_not_in_batch,
  items_contended, successor_cannot_be_self, successor_link_requires_superseded,
}
use qift_platform.Settlement.States.{
  ItemState, item_eq, BatchState, batch_eq, assert_item_transition, assert_batch_transition,
}
use qift_platform.Settlement.Store.{
  Item, Batch, Receivable, Remittance, HoldType, AuditAction, Tx, ◌>>=◌, ◌>>◌, pure, gets, lift,
  or_throw, throw_when, modify, update_many, count, post,
}
use qift_platform.Settlement.Engine.Plan.{audit_record}
use qift_platform.Settlement.Engine.Assemble.{marker, audit_guaranteed}

abbrev pub has_id : ℕ → Batch → Bool
has_id id b = b.id == id

unfoldable pub load_batch : ℕ → Tx Batch
load_batch id db = or_throw (find (has_id id) db.batches) batch_not_found db

-- `settlementBatch.update({ where: { id }, data })`
unfoldable pub update_batch : ℕ → (Batch → Batch) → Tx (Unit {0})
update_batch id f = modify (λ db. record db { batches = update_many (has_id id) f db.batches })

-- A move of a batch to a state, as its own update, with a best-effort audit.
unfoldable pub mark_failed : (actor id : ℕ) → (evidence : String) → Tx Batch
mark_failed actor id evidence = do
  batch ← load_batch id
  lift (assert_batch_transition batch.status BatchState.failed)
  throw_when (is_empty (trim evidence)) failure_evidence_required
  update_batch id
      (λ b. record b { status = BatchState.failed; failure_evidence = some (trim evidence) })
  audit_record AuditAction.failed actor batch.store_id
  load_batch id

unfoldable pub retry : (actor id : ℕ) → Tx Batch
retry actor id = do
  batch ← load_batch id
  lift (assert_batch_transition batch.status BatchState.ready)
  update_batch id (λ b. record b { status = BatchState.ready })
  audit_record AuditAction.retried actor batch.store_id
  load_batch id

unfoldable pub hold_batch : (actor id : ℕ) → (evidence : String) → Tx Batch
hold_batch actor id evidence = do
  batch ← load_batch id
  lift (assert_batch_transition batch.status BatchState.held)
  throw_when (is_empty (trim evidence)) hold_evidence_required
  update_batch id (λ b. record b { status = BatchState.held })
  audit_record AuditAction.held actor batch.store_id
  load_batch id

-- The closed set of causes, and the state to which each sends the items that it affects.
pub data SupersedeCause : Type 0 where
  composition_drift hold_landed dispute_landed withdrawn : SupersedeCause

unfoldable pub supersede_item_disposition : SupersedeCause → ItemState
supersede_item_disposition composition_drift = ItemState.eligible
supersede_item_disposition hold_landed = ItemState.held
supersede_item_disposition dispute_landed = ItemState.disputed
supersede_item_disposition withdrawn = ItemState.eligible

-- A hold has a type of the closed vocabulary, or a text outside of it.
pub record SupersedeHold : Type 0 where
  pub hold_type : Option HoldType
  pub hold_evidence : String

-- Whether a hold is typed and evidenced.
unfoldable pub is_evidenced : Option SupersedeHold → Bool
is_evidenced none = false
is_evidenced (some h) = not (is_none h.hold_type) && not (is_empty (trim h.hold_evidence))

-- The columns of a hold, where the disposition is one.
unfoldable pub with_hold : Option SupersedeHold → Item → Item
with_hold none row = row
with_hold (some h) row = record row {
  hold_type = h.hold_type;
  hold_evidence = some (trim h.hold_evidence);
}

-- The return of one item to circulation.
unfoldable pub released : Bool → ItemState → Option SupersedeHold → Item → Item
unfolding with_hold
released affected disposition hold row =
    let to = if affected then disposition else ItemState.eligible in
    let free = record row { state = to; batch_id = none } in
    if affected && item_eq disposition ItemState.held then with_hold hold free else free

-- The row that the update of an item expects: bound to the batch, in the state that was read.
unfoldable pub still_bound : ℕ → Item → Item → Bool
still_bound batch read row =
    row.id == read.id && (option_eq row.batch_id (some batch) && item_eq row.state read.state)

-- The loop over the items that were read.
unfoldable pub release_loop :
    ℕ
    → (affected : List ℕ) → ItemState
    → Option SupersedeHold
    → List Item
    → List Item
    → Result SettlementError (List Item)
release_loop batch affected disposition hold [] rows = ok rows
release_loop batch affected disposition hold (i ∷ rest) rows =
    let hit = contains affected i.id in
    let after =
      release_loop batch affected disposition hold rest
        (update_many (still_bound batch i) (released hit disposition hold) rows) in
    elim (assert_item_transition i.state (if hit then disposition else ItemState.eligible)) [
      | err e ↦ err e
      | ok _ ↦ if count (still_bound batch i) rows == 1 then after else err items_contended
    ]

abbrev pub bound_to : ℕ → Item → Bool
bound_to batch i = option_eq i.batch_id (some batch)

abbrev pub remits : ℕ → Remittance → Bool
remits batch r = r.settlement_id == batch

abbrev pub staged_by : ℕ → Receivable → Bool
staged_by batch r = option_eq r.staged_by (some batch)

-- The writes of a supersession, from the item rows that its loop leaves.
unfoldable pub write_release : ℕ → Result SettlementError (List Item) → Tx (Unit {0})
write_release batch (err e) db = err e
write_release batch (ok items) db = ok (
  tt,
  record db {
    batches =
        update_many (has_id batch) (λ b. record b { status = BatchState.superseded }) db.batches;
    items = items;
    receivables = update_many (staged_by batch) (λ r. record r { staged_by = none }) db.receivables;
  },
)

-- The writes on the items that were read before the transaction.
unfoldable pub release :
    ℕ → (affected : List ℕ) → ItemState → Option SupersedeHold → List Item → Tx (Unit {0})
release batch affected disposition hold read db =
    write_release batch (release_loop batch affected disposition hold read db.items) db

unfoldable pub supersede :
    (actor id : ℕ) → SupersedeCause → (affected : List ℕ) → Option SupersedeHold → Tx Batch
unfolding supersede_item_disposition
supersede actor id cause affected hold = do
  let disposition = supersede_item_disposition cause
  throw_when (item_eq disposition ItemState.held && not (is_evidenced hold))
      hold_type_and_evidence_required
  batch ← load_batch id
  lift (assert_batch_transition batch.status BatchState.superseded)
  remitted ← gets (λ db. any (remits id) db.remittances)
  throw_when remitted supersede_refused_remittance_exists
  read ← gets (λ db. filter (bound_to id) db.items)
  throw_when (not (all (λ k. any (λ (i : Item). i.id == k) read) affected))
      supersede_item_not_in_batch
  release id affected disposition hold read
  post (
      marker settlement_superseded "SETTLEMENT_SUPERSEDED"
        (Metadata.batch_superseded batch.reference) actor batch)
  audit_guaranteed AuditAction.superseded id actor batch.store_id
  load_batch id

-- The row that a link is written to: superseded, and not linked.
abbrev pub unlinked : ℕ → Batch → Bool
unlinked id b = b.id == id && (batch_eq b.status BatchState.superseded && is_none b.superseded_by)

unfoldable pub link_successor : (superseded successor : ℕ) → Tx Batch
link_successor superseded successor = do
  throw_when (superseded == successor) successor_cannot_be_self
  found ← load_batch successor
  linked ← gets (λ db. count (unlinked superseded) db.batches)
  modify (λ db. record db {
    batches =
        update_many (unlinked superseded) (λ b. record b { superseded_by = some successor })
          db.batches;
  })
  batch ← load_batch superseded
  throw_when (linked == 0 && is_none batch.superseded_by) successor_link_requires_superseded
  pure batch
