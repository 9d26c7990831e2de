-- ===== src/Settlement/Engine/Reads.antt =====
-- The read seams of src/settlement/settlement-engine.service.ts, through which the execution reads
-- batches and items.
use Prim.Native.String.{String}
use text.Mathlib.Text.{◌==◌ as str_eq}
use qift_platform.Prelude.{
  ℕ, Bool, false, not, ◌&&◌, Option, none, some, List, ◌==◌, ltb, leb, map, filter, find,
}
use qift_platform.Prelude.Int.{ℤ, sum_ℤ}
use qift_platform.Money.{CurrencyCode, to_minor}
use qift_platform.Prelude.Outcome.{Result, ok, err, ◌>>=◌}
use qift_platform.Settlement.Errors.{SettlementError, batch_not_found}
use qift_platform.Settlement.Store.{Db, Item, Batch, ClosureType}
use qift_platform.Settlement.Statement.{FrozenBatchRecord}
use qift_platform.Settlement.Engine.Lifecycle.{has_id, bound_to}
use qift_platform.Settlement.Engine.Close.{option_closure_eq}

-- The frozen part of a batch.
unfoldable pub frozen_of : Batch → FrozenBatchRecord
frozen_of b = record {
  settlement_id = b.id;
  settlement_reference = b.reference;
  store_id = b.store_id;
  currency = b.currency;
  window_type = b.window_type;
  composition = b.composition;
  calculation_snapshot = b.calculation;
  recovery_allocation = b.allocation;
}

abbrev pub within : (from until : ℕ) → Option ℕ → Bool
within from until none = false
within from until (some at) = leb from at && ltb at until

-- Another batch of the store and currency that was closed at a net of zero in the window.
unfoldable pub is_other_close : (own store : ℕ) → String → (from until : ℕ) → Batch → Bool
is_other_close own store currency from until b =
    b.store_id == store
    && (str_eq b.currency currency
        && (not (b.id == own)
            && (option_closure_eq b.closure_type ClosureType.zero_net_no_transfer
                && within from until b.closed_at)))

-- `zeroNetClosedGrossMinor`, in a currency that was read from its text.
unfoldable pub closed_gross_minor :
    CurrencyCode → (own store : ℕ) → String → (from until : ℕ) → List Batch → ℤ
unfolding is_other_close
closed_gross_minor code own store currency from until rows = sum_ℤ (
    map (λ (b : Batch). to_minor code b.gross_amount)
      (filter (is_other_close own store currency from until) rows))

-- `loadBatch`, as a read: the batch, or the error of its absence. Its frozen part, status, proposer
-- and closure are what `frozenRecord` returns.
unfoldable pub found_batch : ℕ → Db → Result SettlementError Batch
found_batch id db = elim (find (has_id id) db.batches) [
  | none ↦ err batch_not_found
  | some b ↦ ok b
]

-- `batchItems`
unfoldable pub batch_items : ℕ → Db → Result SettlementError (List Item)
unfolding found_batch
batch_items id db = found_batch id db >>= λ _. ok (filter (bound_to id) db.items)
