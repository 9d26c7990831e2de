-- ===== src/Settlement/Engine/Payout.antt =====
-- A remittance stands for a batch only if that batch is settled as remitted, and at most once: the
-- invariant under which no batch is paid twice (src/settlement/settlement-engine.service.ts).
pub mod Rows
pub mod Moves
pub mod Frames
pub mod Steps
pub mod Lanes
pub mod Replacement
pub mod ZeroNet
pub mod Assembly
pub mod Searches
pub mod Replay
pub mod Reachable
pub mod Once
use qift_platform.Prelude.{ℕ, ◌≤◌, Bool, true, ◌&&◌, ◌≡◌, ◌==◌, any}
use qift_platform.Settlement.States.{BatchState, batch_eq}
use qift_platform.Settlement.Store.{Db, Batch, ClosureType, count}
use qift_platform.Settlement.Engine.Lifecycle.{has_id, remits}
use qift_platform.Settlement.Engine.Close.{option_closure_eq}

-- A batch that was settled with a remittance.
abbrev pub is_paid : ℕ → Batch → Bool
is_paid id b =
    b.id == id
    && (batch_eq b.status BatchState.settled
        && option_closure_eq b.closure_type ClosureType.remitted)

pub record PaidOnce (db : Db) : Type 0 where
  pub distinct : (k : ℕ) → count (has_id k) db.batches ≤ 1
  pub paid : (k : ℕ) → any (remits k) db.remittances ≡ true → any (is_paid k) db.batches ≡ true
  pub once : (k : ℕ) → count (remits k) db.remittances ≤ 1
