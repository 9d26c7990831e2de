-- ===== src/Settlement/Engine/Payout/Steps.antt =====
-- The lanes of `SettlementEngineService` under the invariant that no batch is paid twice.
use qift_platform.Prelude.{
  ℕ, Bool, true, false, not, [], ◌∷◌, ◌++◌, ◌≡◌, refl, subst, arith, ◌∙◌, ap, length, Bool-cases,
  inl, inr, ◌==◌,
}
use qift_platform.Prelude.Outcome.{Result, ok, err}
use qift_platform.Ledger.{Metadata, settlement_completed}
use qift_platform.Settlement.Errors.{SettlementError}
use qift_platform.Settlement.States.{ItemState, assert_item_transition}
use qift_platform.Settlement.Store.{
  Db, Batch, Allocation, Remittance, ClosureType, AuditAction, Tx, ◌>>◌, pure, lift, throw_when,
  modify, update_many, count, post,
}
use qift_platform.Settlement.Store.Update.{Keeps, Keeps->>=, Keeps-post, tx_ok, ok_pair}
use qift_platform.Settlement.Engine.Assemble.{marker, audit_guaranteed}
use qift_platform.Settlement.Engine.Close.{
  Evidence, remittance_of, is_ready_batch, settle_rows, consume_allocation, zero_net_tx, settle_tx,
  is_member, member_ids,
}
use qift_platform.Settlement.Engine.Payout.{PaidOnce}
use qift_platform.Settlement.Engine.Payout.Frames.{
  Keeps-consume_allocation, Keeps-audit, Keeps-pure,
}
use qift_platform.Settlement.Engine.Payout.Moves.{
  move_unpaid, closed_row, close_remitted, ready-unpaid,
}

pub throw_when_ok :
    (c : Bool) (e : SettlementError) (db db' : Db) {u : Unit {0}}
    → throw_when c e db ≡ ok (u, db')
    → (c ≡ false) × (db ≡ db')
throw_when_ok true e db db' h = cc
throw_when_ok false e db db' {u} h = (refl, (ok_pair tt u db db' h).1)

pub lift_ok :
    {A : Type 0} (r : Result SettlementError A) (db db' : Db) {a : A}
    → lift r db ≡ ok (a, db')
    → db ≡ db'
lift_ok (ok b) db db' {a} h = (ok_pair b a db db' h).1
lift_ok (err e) db db' h = cc

not_one : (n : ℕ) → not (n == 1) ≡ false → n ≡ 1
not_one n h = ground arith

-- The rows after the terminal transition.
pub settle_rows_ok :
    (batch : Batch) (closure : ClosureType) (now : ℕ) (db db' : Db) {u : Unit {0}}
    → settle_rows batch closure now db ≡ ok (u, db')
    → (count (is_ready_batch batch.id) db.batches ≡ 1)
      × (db'.batches ≡ update_many (is_ready_batch batch.id) (closed_row closure now) db.batches)
      × (db'.remittances ≡ db.remittances)
unfolding settle_rows assert_item_transition
settle_rows_ok batch closure now db db' {u} h =
    let n = count (is_ready_batch batch.id) db.batches in
    let m = count (is_member batch.id (member_ids batch)) db.items in
    let after : Db = record db {
      batches = update_many (is_ready_batch batch.id) (closed_row closure now) db.batches;
      items =
          update_many (is_member batch.id (member_ids batch))
            (λ i. record i { state = ItemState.settled }) db.items;
    } in
    let done : m == length (member_ids batch) ≡ true → n == 1 ≡ true → after ≡ db' =
      λ all_ one. (ok_pair tt u after db' (rw all_ at (rw one at h))).1 in
    elim (Bool-cases (n == 1)) [
      | inr other ↦ let bad = rw other at h in cc
      | inl one ↦ elim (Bool-cases (m == length (member_ids batch))) [
        | inr other ↦ let bad = rw other at (rw one at h) in cc
        | inl all_ ↦
            subst
              (λ (d : Db).
                (n ≡ 1)
                × (d.batches
                    ≡ update_many (is_ready_batch batch.id) (closed_row closure now) db.batches)
                × (d.remittances ≡ db.remittances))
              (done all_ one) (ground (arith, one), refl, refl)
      ]
    ]

-- What a settle leaves to do after the remittance is written.
unfoldable pub after_remittance : (actor : ℕ) → Batch → Evidence → (fresh now : ℕ) → Tx Remittance
after_remittance actor batch e fresh now =
    consume_allocation actor batch e.executed_at
      (λ a. Metadata.recovered_by_cash_draw batch.reference a.receivable_id a.occurrence_id)
      batch.allocation
    >> (post (
          marker settlement_completed "SETTLEMENT_COMPLETED"
            (Metadata.batch_remitted batch.reference fresh e.bank_reference) actor batch)
        >> (audit_guaranteed AuditAction.settled batch.id actor batch.store_id
            >> pure (remittance_of batch e fresh now)))

Keeps-after_remittance :
    (actor : ℕ) (batch : Batch) (e : Evidence) (fresh now : ℕ)
    → Keeps (after_remittance actor batch e fresh now)
unfolding after_remittance
Keeps-after_remittance actor batch e fresh now =
    let created = remittance_of batch e fresh now in
    let consumed =
      consume_allocation actor batch e.executed_at
        (λ a. Metadata.recovered_by_cash_draw batch.reference a.receivable_id a.occurrence_id)
        batch.allocation in
    let entry =
      marker settlement_completed "SETTLEMENT_COMPLETED"
        (Metadata.batch_remitted batch.reference fresh e.bank_reference) actor batch in
    let audited = audit_guaranteed AuditAction.settled batch.id actor batch.store_id in
    Keeps->>= consumed (λ _. post entry >> (audited >> pure created))
      (Keeps-consume_allocation actor batch e.executed_at
        (λ a. Metadata.recovered_by_cash_draw batch.reference a.receivable_id a.occurrence_id)
        batch.allocation)
      (λ _.
        Keeps->>= (post entry) (λ _. audited >> pure created) (Keeps-post entry)
          (λ _.
            Keeps->>= audited (λ _. pure created)
              (Keeps-audit AuditAction.settled batch.id actor batch.store_id)
              (λ _. Keeps-pure created)))

-- The rows that a settle leaves, and the part of it that is left to do on them.
pub settle_tx_rows :
    (actor : ℕ) (batch : Batch) (e : Evidence) (fresh now : ℕ) (db db' : Db) {r : Remittance}
    → settle_tx actor batch e fresh now db ≡ ok (r, db')
    → (count (is_ready_batch batch.id) db.batches ≡ 1)
      × (db'.batches
          ≡ update_many (is_ready_batch batch.id) (closed_row ClosureType.remitted now) db.batches)
      × (db'.remittances ≡ db.remittances ++ remittance_of batch e fresh now ∷ [])
      × (written : Db) × (after_remittance actor batch e fresh now written ≡ ok (r, db'))
unfolding settle_tx after_remittance
settle_tx_rows actor batch e fresh now db db' {r} h =
    let (u, mid, first, rest) =
      tx_ok (settle_rows batch ClosureType.remitted now)
        (λ _.
          modify
            (λ d. record d { remittances = d.remittances ++ remittance_of batch e fresh now ∷ [] })
          >> after_remittance actor batch e fresh now)
        db h in
    let rows = settle_rows_ok batch ClosureType.remitted now db mid first in
    let written : Db = record mid {
      remittances = mid.remittances ++ remittance_of batch e fresh now ∷ [];
    } in
    let kept = Keeps-after_remittance actor batch e fresh now written r db' rest in
    (
      rows.0,
      kept.0 ∙ rows.1,
      kept.1 ∙ ap (λ rs. rs ++ remittance_of batch e fresh now ∷ []) rows.2,
      written,
      rest,
    )

-- The transaction of a settle.
pub settle_tx_ok :
    (actor : ℕ) (batch : Batch) (e : Evidence) (fresh now : ℕ) (db db' : Db) {r : Remittance}
    → settle_tx actor batch e fresh now db ≡ ok (r, db')
    → PaidOnce db
    → PaidOnce db'
settle_tx_ok actor batch e fresh now db db' h inv =
    let rows = settle_tx_rows actor batch e fresh now db db' h in
    close_remitted db db' batch e fresh now rows.0 rows.1 rows.2 inv

-- The transaction of a close without a transfer.
pub zero_net_tx_ok :
    (actor : ℕ) (batch : Batch) (now : ℕ) (db db' : Db) {u : Unit {0}}
    → zero_net_tx actor batch now db ≡ ok (u, db')
    → PaidOnce db
    → PaidOnce db'
unfolding zero_net_tx
zero_net_tx_ok actor batch now db db' {u} h inv =
    let meta : Allocation → Metadata =
      λ a. Metadata.recovered_transfer_due batch.reference a.receivable_id a.occurrence_id now in
    let consumed = consume_allocation actor batch now meta batch.allocation in
    let entry =
      marker settlement_completed "SETTLEMENT_COMPLETED"
        (Metadata.batch_closed_zero_net batch.reference now) actor batch in
    let audited = audit_guaranteed AuditAction.closed_zero_net batch.id actor batch.store_id in
    let (v, mid, first, rest) =
      tx_ok (settle_rows batch ClosureType.zero_net_no_transfer now)
        (λ _. consumed >> (post entry >> audited)) db h in
    let rows = settle_rows_ok batch ClosureType.zero_net_no_transfer now db mid first in
    let kept =
      Keeps->>= consumed (λ _. post entry >> audited)
        (Keeps-consume_allocation actor batch now meta batch.allocation)
        (λ _.
          Keeps->>= (post entry) (λ _. audited) (Keeps-post entry)
            (λ _. Keeps-audit AuditAction.closed_zero_net batch.id actor batch.store_id))
        mid u db' rest in
    move_unpaid db db' (is_ready_batch batch.id) (closed_row ClosureType.zero_net_no_transfer now)
      (λ k b _. refl) (λ k b _ ready. ready-unpaid batch.id k b ready) (kept.0 ∙ rows.1)
      (kept.1 ∙ rows.2) inv
