-- ===== src/Settlement/States.antt =====
-- src/settlement/settlement-states.ts and src/settlement/settlement-receivable-states.ts: the
-- lifecycle tables of items, batches and merchant receivables, and the assertions over them.
pub mod Runs
use qift_platform.Prelude.{ℕ, Bool, true, false, List, [], ◌∷◌, ◌==◌, any, if◌then◌else◌}
use qift_platform.Prelude.Outcome.{Result, ok, err}
use qift_platform.Settlement.Errors.{
  SettlementError, illegal_item_transition, illegal_batch_transition, illegal_receivable_transition,
}

pub data ItemState : Type 0 where
  pending eligible held ready settled reversed disputed : ItemState

pub data BatchState : Type 0 where
  ready failed held settled superseded : BatchState

pub data ReceivableState : Type 0 where
  open_ partially_recovered recovered written_off disputed : ReceivableState

-- The position of a state in its list, by which two states are compared.
abbrev pub item_code : ItemState → ℕ
item_code ItemState.pending = 0
item_code ItemState.eligible = 1
item_code ItemState.held = 2
item_code ItemState.ready = 3
item_code ItemState.settled = 4
item_code ItemState.reversed = 5
item_code ItemState.disputed = 6

abbrev pub batch_code : BatchState → ℕ
batch_code BatchState.ready = 0
batch_code BatchState.failed = 1
batch_code BatchState.held = 2
batch_code BatchState.settled = 3
batch_code BatchState.superseded = 4

abbrev pub receivable_code : ReceivableState → ℕ
receivable_code ReceivableState.open_ = 0
receivable_code ReceivableState.partially_recovered = 1
receivable_code ReceivableState.recovered = 2
receivable_code ReceivableState.written_off = 3
receivable_code ReceivableState.disputed = 4

abbrev pub item_eq : ItemState → ItemState → Bool
item_eq s t = item_code s == item_code t

abbrev pub batch_eq : BatchState → BatchState → Bool
batch_eq s t = batch_code s == batch_code t

abbrev pub receivable_eq : ReceivableState → ReceivableState → Bool
receivable_eq s t = receivable_code s == receivable_code t

-- `ITEM_TRANSITIONS`
unfoldable pub item_transitions : ItemState → List ItemState
item_transitions ItemState.pending = ItemState.eligible ∷ ItemState.held ∷ ItemState.disputed ∷ []
item_transitions ItemState.eligible = ItemState.ready ∷ ItemState.held ∷ ItemState.disputed ∷ []
item_transitions ItemState.held = ItemState.eligible ∷ ItemState.disputed ∷ []
item_transitions ItemState.ready =
    ItemState.settled ∷ ItemState.eligible ∷ ItemState.held ∷ ItemState.disputed ∷ []
item_transitions ItemState.settled = ItemState.reversed ∷ []
item_transitions ItemState.reversed = []
item_transitions ItemState.disputed = ItemState.eligible ∷ ItemState.held ∷ []

-- `BATCH_TRANSITIONS`
unfoldable pub batch_transitions : BatchState → List BatchState
batch_transitions BatchState.ready =
    BatchState.settled ∷ BatchState.failed ∷ BatchState.superseded ∷ []
batch_transitions BatchState.failed =
    BatchState.ready ∷ BatchState.held ∷ BatchState.superseded ∷ []
batch_transitions BatchState.held = BatchState.ready ∷ BatchState.superseded ∷ []
batch_transitions BatchState.settled = []
batch_transitions BatchState.superseded = []

-- `RECEIVABLE_TRANSITIONS`
unfoldable pub receivable_transitions : ReceivableState → List ReceivableState
receivable_transitions ReceivableState.open_ =
    ReceivableState.partially_recovered ∷ ReceivableState.recovered ∷ ReceivableState.written_off
    ∷ ReceivableState.disputed ∷ []
receivable_transitions ReceivableState.partially_recovered =
    ReceivableState.recovered ∷ ReceivableState.written_off ∷ ReceivableState.disputed ∷ []
receivable_transitions ReceivableState.recovered = []
receivable_transitions ReceivableState.written_off = []
receivable_transitions ReceivableState.disputed =
    ReceivableState.open_ ∷ ReceivableState.partially_recovered ∷ ReceivableState.written_off ∷ []

unfoldable pub assert_item_transition : ItemState → ItemState → Result SettlementError (Unit {0})
unfolding item_transitions
assert_item_transition from to =
    if any (item_eq to) (item_transitions from) then ok tt else err illegal_item_transition

unfoldable pub assert_batch_transition : BatchState → BatchState → Result SettlementError (Unit {0})
unfolding batch_transitions
assert_batch_transition from to =
    if any (batch_eq to) (batch_transitions from) then ok tt else err illegal_batch_transition

unfoldable pub assert_receivable_transition :
    ReceivableState → ReceivableState → Result SettlementError (Unit {0})
unfolding receivable_transitions
assert_receivable_transition from to =
    if any (receivable_eq to) (receivable_transitions from)
    then ok tt
    else err illegal_receivable_transition
