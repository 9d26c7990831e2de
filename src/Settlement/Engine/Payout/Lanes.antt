-- ===== src/Settlement/Engine/Payout/Lanes.antt =====
-- The lanes that close no batch, under the invariant that no batch is paid twice.
use Prim.Native.String.{String}
use qift_platform.Prelude.{
  ℕ, Bool, true, false, some, ◌≡◌, refl, subst, arith, ◌∙◌, ap, any, find, Bool-cases, inl, inr,
  ◌==◌,
}
use qift_platform.Prelude.Outcome.{Result, ok, err}
use qift_platform.Prelude.Text.{is_empty, trim}
use qift_platform.Settlement.Errors.{
  SettlementError, batch_not_found, failure_evidence_required, hold_evidence_required,
}
use qift_platform.Settlement.States.{
  BatchState, batch_eq, assert_batch_transition, batch_transitions,
}
use qift_platform.Settlement.Store.{
  Db, Batch, AuditAction, Tx, ◌>>=◌, ◌>>◌, lift, throw_when, update_many,
}
use qift_platform.Settlement.Store.Update.{
  Keeps, Keeps->>=, Keeps-modify, Keeps-or_throw, tx_ok, ok_pair,
}
use qift_platform.Settlement.Engine.Plan.{audit_record}
use qift_platform.Settlement.Engine.Lifecycle.{
  has_id, load_batch, update_batch, mark_failed, retry, hold_batch,
}
use qift_platform.Settlement.Engine.Payout.{PaidOnce, is_paid}
use qift_platform.Settlement.Engine.Payout.Rows.{none_if_found}
use qift_platform.Settlement.Engine.Payout.Moves.{move_unpaid, is_paid-has_id}
use qift_platform.Settlement.Engine.Payout.Steps.{throw_when_ok, lift_ok}
use qift_platform.Settlement.Engine.Payout.Once.{load_batch_ok}

-- A batch that may still move is not settled.
pub open_if_moved :
    (s to : BatchState) (u : Unit {0})
    → assert_batch_transition s to ≡ ok u
    → batch_eq s BatchState.settled ≡ false
unfolding assert_batch_transition batch_transitions
open_if_moved BatchState.ready to u h = refl
open_if_moved BatchState.failed to u h = refl
open_if_moved BatchState.held to u h = refl
open_if_moved BatchState.settled to u h = cc
open_if_moved BatchState.superseded to u h = refl

pub lift_result :
    {A : Type 0} (r : Result SettlementError A) (db db' : Db) {a : A}
    → lift r db ≡ ok (a, db')
    → r ≡ ok a
lift_result (ok b) db db' {a} h = ap ok (ok_pair b a db db' h).0
lift_result (err e) db db' h = cc

pub unpaid_if_open :
    (k : ℕ) (b : Batch) → batch_eq b.status BatchState.settled ≡ false → is_paid k b ≡ false
unpaid_if_open k b h = ground arith

is_paid-other : (k id : ℕ) (b : Batch) → has_id id b ≡ true → is_paid k b ≡ true → k ≡ id
is_paid-other k id b h p = ground arith

-- The row that a search found is open, so no row of its identifier is paid.
pub unpaid_rows :
    (db : Db) (id : ℕ) (b : Batch)
    → PaidOnce db
    → find (has_id id) db.batches ≡ some b
    → batch_eq b.status BatchState.settled ≡ false
    → (k : ℕ) (x : Batch) → any (is_paid k) db.batches ≡ true
    → has_id id x ≡ true
    → is_paid k x ≡ false
unpaid_rows db id b inv found open_ k x paid here = elim (Bool-cases (is_paid k x)) [
  | inr unpaid ↦ unpaid
  | inl hit ↦
      let none_paid : any (is_paid id) db.batches ≡ false =
        none_if_found (has_id id) (is_paid id) db.batches (is_paid-has_id id) (inv.distinct id)
          found (unpaid_if_open id b open_) in
      let same = is_paid-other k id x here hit in
      let absurd_ : any (is_paid id) db.batches ≡ true =
        subst (λ j. any (is_paid j) db.batches ≡ true) same paid in
      cc
]

-- The update of an open batch, its audit and the read that returns it.
moved_tail : (id : ℕ) → (Batch → Batch) → AuditAction → (actor store : ℕ) → Tx Batch
moved_tail id f action actor store =
    update_batch id f >> (audit_record action actor store >> load_batch id)

pub Keeps-load_batch : (id : ℕ) → Keeps (load_batch id)
unfolding load_batch
Keeps-load_batch id db = Keeps-or_throw (find (has_id id) db.batches) batch_not_found db

Keeps-audit_record :
    (action : AuditAction) (actor store : ℕ) → Keeps (audit_record action actor store)
unfolding audit_record
Keeps-audit_record action actor store = Keeps-modify _ (λ db. (refl, refl))

moved_tail_ok :
    (id : ℕ) (f : Batch → Batch) (action : AuditAction) (actor store : ℕ) (b : Batch) (db db' : Db)
    {r : Batch}
    → ((x : Batch) → (f x).id ≡ x.id)
    → moved_tail id f action actor store db ≡ ok (r, db')
    → find (has_id id) db.batches ≡ some b
    → batch_eq b.status BatchState.settled ≡ false
    → PaidOnce db
    → PaidOnce db'
unfolding moved_tail update_batch
moved_tail_ok id f action actor store b db db' {r} keeps_id h found open_ inv =
    let after : Db = record db { batches = update_many (has_id id) f db.batches } in
    let kept =
      Keeps->>= (audit_record action actor store) (λ _. load_batch id)
        (Keeps-audit_record action actor store) (λ _. Keeps-load_batch id) after r db' h in
    move_unpaid db db' (has_id id) f (λ k x _. ap (λ n. n == k) (keeps_id x))
      (unpaid_rows db id b inv found open_) kept.0 kept.1 inv

-- A lane that reads a batch, asserts its move, checks an evidence and moves it.
lane :
    (id : ℕ)
    → BatchState
    → Bool
    → SettlementError
    → (Batch → Batch)
    → AuditAction
    → (actor : ℕ) → Tx Batch
lane id to missing e f action actor = load_batch id >>= λ batch.
    lift (assert_batch_transition batch.status to)
    >> (throw_when missing e >> moved_tail id f action actor batch.store_id)

lane_ok :
    (id : ℕ) (to : BatchState) (missing : Bool) (e : SettlementError) (f : Batch → Batch)
    (action : AuditAction) (actor : ℕ) (db db' : Db) {r : Batch}
    → ((x : Batch) → (f x).id ≡ x.id)
    → lane id to missing e f action actor db ≡ ok (r, db')
    → PaidOnce db
    → PaidOnce db'
unfolding lane
lane_ok id to missing e f action actor db db' {r} keeps_id h inv =
    let (batch, d1, first, rest1) =
      tx_ok (load_batch id)
        (λ batch.
          lift (assert_batch_transition batch.status to)
          >> (throw_when missing e >> moved_tail id f action actor batch.store_id))
        db h in
    let tail = moved_tail id f action actor batch.store_id in
    let (u, d2, second, rest2) =
      tx_ok (lift (assert_batch_transition batch.status to)) (λ _. throw_when missing e >> tail) d1
        rest1 in
    let (v, d3, third, rest3) = tx_ok (throw_when missing e) (λ _. tail) d2 rest2 in
    let found = load_batch_ok id db d1 first in
    let moved = lift_result (assert_batch_transition batch.status to) d1 d2 second in
    let same : db ≡ d3 =
      found.1
      ∙ (lift_ok (assert_batch_transition batch.status to) d1 d2 second
          ∙ (throw_when_ok missing e d2 d3 third).1) in
    moved_tail_ok id f action actor batch.store_id batch d3 db' keeps_id rest3
      (subst (λ (d : Db). find (has_id id) d.batches ≡ some batch) same found.0)
      (open_if_moved batch.status to u moved) (subst PaidOnce same inv)

-- If marking a batch failed returns, no batch is paid twice afterwards if none was before.
pub mark_failed-PaidOnce :
    (actor id : ℕ) (evidence : String) (db db' : Db) (r : Batch)
    → mark_failed actor id evidence db ≡ ok (r, db')
    → PaidOnce db
    → PaidOnce db'
unfolding mark_failed lane moved_tail
mark_failed-PaidOnce actor id evidence db db' r h inv =
    lane_ok id BatchState.failed (is_empty (trim evidence)) failure_evidence_required
      (λ b. record b { status = BatchState.failed; failure_evidence = some (trim evidence) })
      AuditAction.failed actor db db' (λ x. refl) h inv

pub hold_batch-PaidOnce :
    (actor id : ℕ) (evidence : String) (db db' : Db) (r : Batch)
    → hold_batch actor id evidence db ≡ ok (r, db')
    → PaidOnce db
    → PaidOnce db'
unfolding hold_batch lane moved_tail
hold_batch-PaidOnce actor id evidence db db' r h inv =
    lane_ok id BatchState.held (is_empty (trim evidence)) hold_evidence_required
      (λ b. record b { status = BatchState.held }) AuditAction.held actor db db' (λ x. refl) h inv

pub retry-PaidOnce :
    (actor id : ℕ) (db db' : Db) (r : Batch)
    → retry actor id db ≡ ok (r, db')
    → PaidOnce db
    → PaidOnce db'
unfolding retry lane moved_tail
retry-PaidOnce actor id db db' r h inv =
    lane_ok id BatchState.ready false failure_evidence_required
      (λ b. record b { status = BatchState.ready }) AuditAction.retried actor db db' (λ x. refl) h
      inv
