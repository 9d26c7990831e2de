-- ===== src/Settlement/Engine/Payout/Once.antt =====
-- No batch is paid twice: every lane of `SettlementEngineService` keeps the invariant.
use qift_platform.Prelude.{
  ℕ, Bool, true, false, Option, none, some, ◌≡◌, subst, ap, find, Bool-cases, inl, inr,
  if◌then◌else◌,
}
use qift_platform.Prelude.Outcome.{ok}
use qift_platform.Settlement.Errors.{SettlementError, batch_not_found, settled_without_remittance}
use qift_platform.Settlement.States.{BatchState, batch_eq, assert_batch_transition}
use qift_platform.Settlement.Store.{
  Db, Batch, Remittance, ClosureType, Tx, ◌>>=◌, ◌>>◌, pure, lift, or_throw,
}
use qift_platform.Settlement.Store.Update.{Keeps, Keeps->>=, Keeps-or_throw, tx_ok, ok_pair}
use qift_platform.Settlement.Engine.Lifecycle.{has_id, remits, load_batch}
use qift_platform.Settlement.Engine.Close.{
  Evidence, settle_tx, mark_settled, recorded_remittance, option_closure_eq,
}
use qift_platform.Settlement.Engine.Payout.{PaidOnce}
use qift_platform.Settlement.Engine.Payout.Frames.{Keeps-pure}
use qift_platform.Settlement.Engine.Payout.Moves.{keep}
use qift_platform.Settlement.Engine.Payout.Steps.{settle_tx_ok, lift_ok}

pub or_throw_ok :
    {A : Type 0} (o : Option A) (e : SettlementError) (db db' : Db) {a : A}
    → or_throw o e db ≡ ok (a, db')
    → (o ≡ some a) × (db ≡ db')
or_throw_ok none e db db' h = cc
or_throw_ok (some b) e db db' {a} h = (ap some (ok_pair b a db db' h).0, (ok_pair b a db db' h).1)

-- A read of a batch that succeeds.
pub load_batch_ok :
    (id : ℕ) (db db' : Db) {b : Batch}
    → load_batch id db ≡ ok (b, db')
    → (find (has_id id) db.batches ≡ some b) × (db ≡ db')
unfolding load_batch
load_batch_ok id db db' h = or_throw_ok (find (has_id id) db.batches) batch_not_found db db' h

recorded-Keeps : (b : Batch) → Keeps (recorded_remittance b)
unfolding recorded_remittance
recorded-Keeps b db r db' h =
    elim (Bool-cases (option_closure_eq b.closure_type ClosureType.zero_net_no_transfer)) [
      | inl zero_ ↦ let bad = rw zero_ at h in cc
      | inr other ↦
          Keeps-or_throw (find (remits b.id) db.remittances) settled_without_remittance db r db'
            (rw other at h)
    ]

-- The two branches of `markSettled`, on the batch that was read.
unfoldable pub settle_lane :
    (actor : ℕ) → Evidence → (fresh now : ℕ) → Batch → Tx (Remittance × Bool)
settle_lane actor e fresh now batch =
    lift (assert_batch_transition batch.status BatchState.settled)
    >> (settle_tx actor batch e fresh now >>= λ r. pure (r, false))

settle_lane_ok :
    (actor : ℕ) (e : Evidence) (fresh now : ℕ) (batch : Batch) (db db' : Db) {r : Remittance × Bool}
    → settle_lane actor e fresh now batch db ≡ ok (r, db')
    → PaidOnce db
    → PaidOnce db'
unfolding settle_lane
settle_lane_ok actor e fresh now batch db db' {r} h inv =
    let moved = assert_batch_transition batch.status BatchState.settled in
    let (u, d1, first, rest) =
      tx_ok (lift moved) (λ _. settle_tx actor batch e fresh now >>= λ x. pure (x, false)) db h in
    let (x, d2, second, last) =
      tx_ok (settle_tx actor batch e fresh now) (λ x. pure (x, false)) d1 rest in
    let same = lift_ok moved db d1 first in
    subst PaidOnce (ok_pair (x, false) r d2 db' last).1
      (settle_tx_ok actor batch e fresh now d1 d2 second (subst PaidOnce same inv))

-- If `markSettled` returns, whether it settles the batch or replays the recorded remittance, then no
-- batch has two remittances afterwards, and each remittance is of a batch settled as remitted,
-- provided that this held before.
pub mark_settled-PaidOnce :
    (actor id : ℕ) (e : Evidence) (fresh now : ℕ) (db db' : Db) (r : Remittance × Bool)
    → mark_settled actor id e fresh now db ≡ ok (r, db')
    → PaidOnce db
    → PaidOnce db'
unfolding mark_settled settle_lane
mark_settled-PaidOnce actor id e fresh now db db' r h inv =
    let replay : Batch → Tx (Remittance × Bool) =
      λ batch. recorded_remittance batch >>= λ x. pure (x, true) in
    let (batch, d1, first, rest) =
      tx_ok (load_batch id)
        (λ batch.
          if batch_eq batch.status BatchState.settled
          then replay batch
          else settle_lane actor e fresh now batch)
        db h in
    let same = (load_batch_ok id db d1 first).1 in
    let before = subst PaidOnce same inv in
    elim (Bool-cases (batch_eq batch.status BatchState.settled)) [
      | inl settled ↦
          let kept =
            Keeps->>= (recorded_remittance batch) (λ x. pure (x, true)) (recorded-Keeps batch)
              (λ x. Keeps-pure (x, true)) d1 r db' (rw settled at rest) in
          keep d1 db' kept.0 kept.1 before
      | inr open_ ↦ settle_lane_ok actor e fresh now batch d1 db' (rw open_ at rest) before
    ]
