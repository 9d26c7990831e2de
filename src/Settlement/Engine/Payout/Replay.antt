-- ===== src/Settlement/Engine/Payout/Replay.antt =====
-- A settle that is called again returns the remittance of the first call.
use qift_platform.Prelude.{
  ℕ, Bool, true, false, some, ◌≡◌, refl, subst, arith, ◌∙◌, sym, ap, any, find, Bool-cases, inl,
  inr, if◌then◌else◌,
}
use qift_platform.Prelude.Outcome.{ok}
use qift_platform.Ledger.{Metadata, settlement_completed}
use qift_platform.Settlement.States.{
  BatchState, batch_eq, assert_batch_transition, batch_transitions,
}
use qift_platform.Settlement.Errors.{settled_without_remittance}
use qift_platform.Settlement.Store.{
  Db, Batch, Allocation, Remittance, ClosureType, AuditAction, Tx, ◌>>=◌, ◌>>◌, pure, lift, post,
}
use qift_platform.Settlement.Store.Update.{tx_ok, ok_pair, find_ok}
use qift_platform.Settlement.Engine.Assemble.{marker, audit_guaranteed}
use qift_platform.Settlement.Engine.Lifecycle.{has_id, remits, load_batch}
use qift_platform.Settlement.Engine.Close.{
  Evidence, remittance_of, is_ready_batch, consume_allocation, settle_tx, mark_settled,
  recorded_remittance, option_closure_eq,
}
use qift_platform.Settlement.Engine.Payout.{PaidOnce, is_paid}
use qift_platform.Settlement.Engine.Payout.Rows.{none_if_found}
use qift_platform.Settlement.Engine.Payout.Moves.{closed_row, is_paid-has_id}
use qift_platform.Settlement.Engine.Payout.Searches.{
  find-update_many, find-append_last, last_value, bind_ok,
}
use qift_platform.Settlement.Engine.Payout.Steps.{after_remittance, settle_tx_rows, lift_ok}
use qift_platform.Settlement.Engine.Payout.Once.{settle_lane, load_batch_ok, or_throw_ok}
use qift_platform.Settlement.Engine.Payout.Lanes.{lift_result, unpaid_if_open}

after_value :
    (actor : ℕ) (batch : Batch) (e : Evidence) (fresh now : ℕ) (db db' : Db) (r : Remittance)
    → after_remittance actor batch e fresh now db ≡ ok (r, db')
    → remittance_of batch e fresh now ≡ r
unfolding after_remittance
after_value actor batch e fresh now db db' r h =
    let created = remittance_of batch e fresh now in
    let meta : Allocation → Metadata =
      λ a. Metadata.recovered_by_cash_draw batch.reference a.receivable_id a.occurrence_id in
    let entry =
      marker settlement_completed "SETTLEMENT_COMPLETED"
        (Metadata.batch_remitted batch.reference fresh e.bank_reference) actor batch in
    let audited = audit_guaranteed AuditAction.settled batch.id actor batch.store_id in
    let (u, d1, first, rest1) =
      tx_ok (consume_allocation actor batch e.executed_at meta batch.allocation)
        (λ _. post entry >> (audited >> pure created)) db h in
    let (v, d2, second, rest2) = tx_ok (post entry) (λ _. audited >> pure created) d1 rest1 in
    last_value audited created r d2 db' rest2

loaded :
    (id : ℕ) (db : Db) {b : Batch}
    → find (has_id id) db.batches ≡ some b
    → load_batch id db ≡ ok (b, db)
unfolding load_batch
loaded id db h = rw h refl

recorded :
    (b : Batch) (db : Db) {r : Remittance}
    → option_closure_eq b.closure_type ClosureType.zero_net_no_transfer ≡ false
    → find (remits b.id) db.remittances ≡ some r
    → recorded_remittance b db ≡ ok (r, db)
unfolding recorded_remittance
recorded b db moved h = rw (moved, h) refl

-- The replay of a batch that is settled as remitted.
replay_ok :
    (actor id : ℕ) (e : Evidence) (fresh now : ℕ) (db : Db) (b : Batch) (r : Remittance)
    → find (has_id id) db.batches ≡ some b
    → batch_eq b.status BatchState.settled ≡ true
    → option_closure_eq b.closure_type ClosureType.zero_net_no_transfer ≡ false
    → find (remits b.id) db.remittances ≡ some r
    → mark_settled actor id e fresh now db ≡ ok ((r, true), db)
unfolding mark_settled settle_lane
replay_ok actor id e fresh now db b r found settled moved here =
    let body : Batch → Tx (Remittance × Bool) = λ batch.
      if batch_eq batch.status BatchState.settled
      then (recorded_remittance batch >>= λ x. pure (x, true))
      else settle_lane actor e fresh now batch in
    let replay : (recorded_remittance b >>= λ x. pure (x, true)) db ≡ ok ((r, true), db) =
      bind_ok (recorded_remittance b) (λ x. pure (x, true)) db db (recorded b db moved here) in
    let chosen : body b db ≡ ok ((r, true), db) = rw settled replay in
    bind_ok (load_batch id) body db db (loaded id db found) ∙ chosen

settles_ready :
    (s : BatchState) (u : Unit {0})
    → assert_batch_transition s BatchState.settled ≡ ok u
    → batch_eq s BatchState.ready ≡ true
unfolding assert_batch_transition batch_transitions
settles_ready BatchState.ready u h = refl
settles_ready BatchState.failed u h = cc
settles_ready BatchState.held u h = cc
settles_ready BatchState.settled u h = cc
settles_ready BatchState.superseded u h = cc

-- No remittance stands for an open batch.
unremitted :
    (db : Db) (id : ℕ) (b : Batch)
    → PaidOnce db
    → find (has_id id) db.batches ≡ some b
    → batch_eq b.status BatchState.settled ≡ false
    → any (remits id) db.remittances ≡ false
unremitted db id b inv found open_ = elim (Bool-cases (any (remits id) db.remittances)) [
  | inr none_ ↦ none_
  | inl some_ ↦
      let paid = inv.paid id some_ in
      let unpaid =
        none_if_found (has_id id) (is_paid id) db.batches (is_paid-has_id id) (inv.distinct id)
          found (unpaid_if_open id b open_) in
      cc
]

closed-settled :
    (now : ℕ) (b : Batch)
    → batch_eq (closed_row ClosureType.remitted now b).status BatchState.settled ≡ true
closed-settled now b = refl

created_hit :
    (batch : Batch) (e : Evidence) (fresh now : ℕ)
    → remits batch.id (remittance_of batch e fresh now) ≡ true
unfolding remittance_of
created_hit batch e fresh now = ground arith

settle_lane_again :
    (actor actor' id : ℕ) (e e' : Evidence) (fresh fresh' now now' : ℕ) (batch : Batch)
    (db db' : Db) (r : Remittance) (again : Bool)
    → settle_lane actor e fresh now batch db ≡ ok ((r, again), db')
    → find (has_id id) db.batches ≡ some batch
    → batch_eq batch.status BatchState.settled ≡ false
    → PaidOnce db
    → mark_settled actor' id e' fresh' now' db' ≡ ok ((r, true), db')
unfolding settle_lane
settle_lane_again actor actor' id e e' fresh fresh' now now' batch db db' r again h found open_
      inv =
    let moved = assert_batch_transition batch.status BatchState.settled in
    let (u, d1, first, rest) =
      tx_ok (lift moved) (λ _. settle_tx actor batch e fresh now >>= λ x. pure (x, false)) db h in
    let (x, d2, second, last) =
      tx_ok (settle_tx actor batch e fresh now) (λ x. pure (x, false)) d1 rest in
    let same = lift_ok moved db d1 first in
    let ready = settles_ready batch.status u (lift_result moved db d1 first) in
    let rows = settle_tx_rows actor batch e fresh now d1 d2 second in
    let value = after_value actor batch e fresh now rows.3 d2 x rows.4 in
    let named : batch.id ≡ id = ground (arith, find_ok (has_id id) db.batches found) in
    let none_ : any (remits batch.id) d1.remittances ≡ false =
      subst (λ (d : Db). any (remits batch.id) d.remittances ≡ false) same
        (subst (λ j. any (remits j) db.remittances ≡ false) (sym named)
          (unremitted db id batch inv found open_)) in
    let created = remittance_of batch e fresh now in
    let recorded_ : find (remits batch.id) d2.remittances ≡ some created = rw rows.2 (
      find-append_last (remits batch.id) d1.remittances created none_
        (created_hit batch e fresh now)) in
    let hit : is_ready_batch batch.id batch ≡ true = ground (arith, ready) in
    let closed : find (has_id id) d2.batches ≡ some (closed_row ClosureType.remitted now batch) =
      rw rows.1 (
        find-update_many (has_id id) (is_ready_batch batch.id) (closed_row ClosureType.remitted now)
          d1.batches (λ b _. refl)
          (subst (λ (d : Db). find (has_id id) d.batches ≡ some batch) same found) hit) in
    let replay =
      replay_ok actor' id e' fresh' now' d2 (closed_row ClosureType.remitted now batch) created
        closed refl refl recorded_ in
    let ended = ok_pair (x, false) (r, again) d2 db' last in
    let returned : created ≡ r = value ∙ ap (λ (y : Remittance × Bool). y.0) ended.0 in
    subst (λ (d : Db). mark_settled actor' id e' fresh' now' d ≡ ok ((r, true), d)) ended.1
      (subst (λ y. mark_settled actor' id e' fresh' now' d2 ≡ ok ((y, true), d2)) returned replay)

recorded_ok :
    (b : Batch) (db db' : Db) {r : Remittance}
    → recorded_remittance b db ≡ ok (r, db')
    → (option_closure_eq b.closure_type ClosureType.zero_net_no_transfer ≡ false)
      × (find (remits b.id) db.remittances ≡ some r)
      × (db ≡ db')
unfolding recorded_remittance
recorded_ok b db db' h =
    elim (Bool-cases (option_closure_eq b.closure_type ClosureType.zero_net_no_transfer)) [
      | inl zero_ ↦ let bad = rw zero_ at h in cc
      | inr moved ↦
          let found =
            or_throw_ok (find (remits b.id) db.remittances) settled_without_remittance db db'
              (rw moved at h) in
          (moved, found.0, found.1)
    ]

-- A settle that returned a remittance is idempotent: on the tables that it left, any further call for
-- the same batch, whatever its actor and evidence, returns the same remittance, says that it was
-- there, and changes nothing; given that no batch was paid twice before the first call.
pub mark_settled_idem :
    (actor actor' id : ℕ) (e e' : Evidence) (fresh fresh' now now' : ℕ) (db db' : Db)
    (r : Remittance) (again : Bool)
    → mark_settled actor id e fresh now db ≡ ok ((r, again), db')
    → PaidOnce db
    → mark_settled actor' id e' fresh' now' db' ≡ ok ((r, true), db')
unfolding mark_settled settle_lane
mark_settled_idem actor actor' id e e' fresh fresh' now now' db db' r again h inv =
    let body : Batch → Tx (Remittance × Bool) = λ batch.
      if batch_eq batch.status BatchState.settled
      then (recorded_remittance batch >>= λ x. pure (x, true))
      else settle_lane actor e fresh now batch in
    let (batch, d1, first, rest) = tx_ok (load_batch id) body db h in
    let found = load_batch_ok id db d1 first in
    let here = subst (λ (d : Db). find (has_id id) d.batches ≡ some batch) found.1 found.0 in
    elim (Bool-cases (batch_eq batch.status BatchState.settled)) [
      | inr open_ ↦
          settle_lane_again actor actor' id e e' fresh fresh' now now' batch d1 db' r again
            (rw open_ at rest) here open_ (subst PaidOnce found.1 inv)
      | inl settled ↦
          let (x, d2, second, last) =
            tx_ok (recorded_remittance batch) (λ x. pure (x, true)) d1 (rw settled at rest) in
          let old = recorded_ok batch d1 d2 second in
          let replay = replay_ok actor' id e' fresh' now' d1 batch x here settled old.0 old.1 in
          let ended = ok_pair (x, true) (r, again) d2 db' last in
          subst (λ (d : Db). mark_settled actor' id e' fresh' now' d ≡ ok ((r, true), d))
            (old.2 ∙ ended.1)
            (subst (λ y. mark_settled actor' id e' fresh' now' d1 ≡ ok ((y, true), d1))
              (ap (λ (y : Remittance × Bool). y.0) ended.0) replay)
    ]
