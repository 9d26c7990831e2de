-- ===== src/Settlement/Engine/Payout/Replacement.antt =====
-- Supersession and the link to a successor, under the invariant that no batch is paid twice.
use qift_platform.Prelude.{
  ℕ, true, false, not, ◌&&◌, Option, some, List, ◌≡◌, refl, subst, arith, ◌∙◌, any, all, filter,
  find, ◌==◌,
}
use qift_platform.Prelude.Outcome.{Result, ok, err}
use qift_platform.Ledger.{Metadata, is_none, settlement_superseded}
use qift_platform.Settlement.Errors.{
  SettlementError, hold_type_and_evidence_required, supersede_refused_remittance_exists,
  supersede_item_not_in_batch, successor_cannot_be_self, successor_link_requires_superseded,
}
use qift_platform.Settlement.States.{
  ItemState, item_eq, BatchState, batch_eq, assert_batch_transition,
}
use qift_platform.Settlement.Store.{
  Db, Item, Batch, AuditAction, Tx, ◌>>=◌, ◌>>◌, pure, gets, lift, throw_when, modify, update_many,
  count, post,
}
use qift_platform.Settlement.Store.Update.{Keeps, Keeps->>=, Keeps-throw_when, Keeps-post, tx_ok}
use qift_platform.Settlement.Engine.Assemble.{marker, audit_guaranteed}
use qift_platform.Settlement.Engine.Lifecycle.{
  has_id, remits, bound_to, load_batch, SupersedeCause, SupersedeHold, is_evidenced,
  supersede_item_disposition, release_loop, release, write_release, supersede, unlinked,
  link_successor,
}
use qift_platform.Settlement.Engine.Payout.{PaidOnce, is_paid}
use qift_platform.Settlement.Engine.Payout.Frames.{Keeps-pure, Keeps-audit}
use qift_platform.Settlement.Engine.Payout.Moves.{move_unpaid}
use qift_platform.Settlement.Engine.Payout.Steps.{throw_when_ok, lift_ok}
use qift_platform.Settlement.Engine.Payout.Once.{load_batch_ok}
use qift_platform.Settlement.Engine.Payout.Lanes.{
  open_if_moved, lift_result, unpaid_rows, Keeps-load_batch,
}

-- The batches and the remittances after a release.
release_rows :
    (batch : ℕ) (items : Result SettlementError (List Item)) (db db' : Db) {u : Unit {0}}
    → write_release batch items db ≡ ok (u, db')
    → (db'.batches
        ≡ update_many (has_id batch) (λ b. record b { status = BatchState.superseded }) db.batches)
      × (db'.remittances ≡ db.remittances)
unfolding write_release
release_rows batch (err e) db db' h = cc
release_rows batch (ok items) db db' h = ground arith

superseded_tail : (actor id : ℕ) → Batch → Tx Batch
superseded_tail actor id batch =
    post (
      marker settlement_superseded "SETTLEMENT_SUPERSEDED"
        (Metadata.batch_superseded batch.reference) actor batch)
    >> (audit_guaranteed AuditAction.superseded id actor batch.store_id >> load_batch id)

Keeps-superseded_tail : (actor id : ℕ) (batch : Batch) → Keeps (superseded_tail actor id batch)
unfolding superseded_tail
Keeps-superseded_tail actor id batch =
    let entry =
      marker settlement_superseded "SETTLEMENT_SUPERSEDED"
        (Metadata.batch_superseded batch.reference) actor batch in
    let audited = audit_guaranteed AuditAction.superseded id actor batch.store_id in
    Keeps->>= (post entry) (λ _. audited >> load_batch id) (Keeps-post entry)
      (λ _.
        Keeps->>= audited (λ _. load_batch id)
          (Keeps-audit AuditAction.superseded id actor batch.store_id) (λ _. Keeps-load_batch id))

-- The release of the items that were read, and what follows it.
released_tail :
    (actor id : ℕ) → List ℕ → ItemState → Option SupersedeHold → Batch → List Item → Tx Batch
released_tail actor id affected to hold batch read =
    throw_when (not (all (λ k. any (λ (i : Item). i.id == k) read) affected))
      supersede_item_not_in_batch
    >> (release id affected to hold read >> superseded_tail actor id batch)

released_tail_ok :
    (actor id : ℕ) (affected : List ℕ) (to : ItemState) (hold : Option SupersedeHold)
    (batch : Batch) (read : List Item) (db db' : Db) {r : Batch}
    → released_tail actor id affected to hold batch read db ≡ ok (r, db')
    → find (has_id id) db.batches ≡ some batch
    → batch_eq batch.status BatchState.settled ≡ false
    → PaidOnce db
    → PaidOnce db'
unfolding released_tail release
released_tail_ok actor id affected to hold batch read db db' {r} h found open_ inv =
    let foreign = not (all (λ k. any (λ (i : Item). i.id == k) read) affected) in
    let go = release id affected to hold read in
    let tail = superseded_tail actor id batch in
    let (v, d2, second, rest2) =
      tx_ok (throw_when foreign supersede_item_not_in_batch) (λ _. go >> tail) db h in
    let (w, d3, third, rest3) = tx_ok go (λ _. tail) d2 rest2 in
    let same : db ≡ d2 = (throw_when_ok foreign supersede_item_not_in_batch db d2 second).1 in
    let rows = release_rows id (release_loop id affected to hold read d2.items) d2 d3 third in
    let kept = Keeps-superseded_tail actor id batch d3 r db' rest3 in
    let before = subst PaidOnce same inv in
    move_unpaid d2 db' (has_id id) (λ b. record b { status = BatchState.superseded })
      (λ k x _. refl)
      (unpaid_rows d2 id batch before
        (subst (λ (d : Db). find (has_id id) d.batches ≡ some batch) same found) open_)
      (kept.0 ∙ rows.0) (kept.1 ∙ rows.1) before

-- The supersession of a batch that was read and may move.
replaced : (actor id : ℕ) → List ℕ → ItemState → Option SupersedeHold → Batch → Tx Batch
replaced actor id affected to hold batch =
    gets (λ db. any (remits id) db.remittances) >>= λ remitted.
    throw_when remitted supersede_refused_remittance_exists
    >> (gets (λ db. filter (bound_to id) db.items)
        >>= released_tail actor id affected to hold batch)

replaced_ok :
    (actor id : ℕ) (affected : List ℕ) (to : ItemState) (hold : Option SupersedeHold)
    (batch : Batch) (db db' : Db) {r : Batch}
    → replaced actor id affected to hold batch db ≡ ok (r, db')
    → find (has_id id) db.batches ≡ some batch
    → batch_eq batch.status BatchState.settled ≡ false
    → PaidOnce db
    → PaidOnce db'
unfolding replaced
replaced_ok actor id affected to hold batch db db' {r} h found open_ inv =
    let remitted = any (remits id) db.remittances in
    let (u, d1, first, rest) =
      tx_ok (throw_when remitted supersede_refused_remittance_exists)
        (λ _.
          gets (λ d. filter (bound_to id) d.items)
          >>= released_tail actor id affected to hold batch)
        db h in
    let same = (throw_when_ok remitted supersede_refused_remittance_exists db d1 first).1 in
    released_tail_ok actor id affected to hold batch (filter (bound_to id) d1.items) d1 db' rest
      (subst (λ (d : Db). find (has_id id) d.batches ≡ some batch) same found) open_
      (subst PaidOnce same inv)

-- If superseding a batch returns, no batch is paid twice afterwards if none was before.
pub supersede-PaidOnce :
    (actor id : ℕ) (cause : SupersedeCause) (affected : List ℕ) (hold : Option SupersedeHold)
    (db db' : Db) (r : Batch)
    → supersede actor id cause affected hold db ≡ ok (r, db')
    → PaidOnce db
    → PaidOnce db'
unfolding supersede supersede_item_disposition replaced released_tail superseded_tail
supersede-PaidOnce actor id cause affected hold db db' r h inv =
    let to = supersede_item_disposition cause in
    let untyped = item_eq to ItemState.held && not (is_evidenced hold) in
    let body : Batch → Tx Batch = λ batch.
      lift (assert_batch_transition batch.status BatchState.superseded)
      >> replaced actor id affected to hold batch in
    let (u, d1, first, rest1) =
      tx_ok (throw_when untyped hold_type_and_evidence_required) (λ _. load_batch id >>= body) db
        h in
    let (batch, d2, second, rest2) = tx_ok (load_batch id) body d1 rest1 in
    let (v, d3, third, rest3) =
      tx_ok (lift (assert_batch_transition batch.status BatchState.superseded))
        (λ _. replaced actor id affected to hold batch) d2 rest2 in
    let found = load_batch_ok id d1 d2 second in
    let moved = assert_batch_transition batch.status BatchState.superseded in
    let tail : d1 ≡ d3 = found.1 ∙ lift_ok moved d2 d3 third in
    let same : db ≡ d3 =
      (throw_when_ok untyped hold_type_and_evidence_required db d1 first).1 ∙ tail in
    replaced_ok actor id affected to hold batch d3 db' rest3
      (subst (λ (d : Db). find (has_id id) d.batches ≡ some batch) tail found.0)
      (open_if_moved batch.status BatchState.superseded v (lift_result moved d2 d3 third))
      (subst PaidOnce same inv)

unlinked-open : (id k : ℕ) (b : Batch) → unlinked id b ≡ true → is_paid k b ≡ false
unlinked-open id k b h = ground arith

-- If linking a superseded batch to its successor returns, no batch is paid twice afterwards if none
-- was before.
pub link_successor-PaidOnce :
    (superseded successor : ℕ) (db db' : Db) (r : Batch)
    → link_successor superseded successor db ≡ ok (r, db')
    → PaidOnce db
    → PaidOnce db'
unfolding link_successor
link_successor-PaidOnce superseded successor db db' r h inv =
    let self = superseded == successor in
    let f : Batch → Batch = λ b. record b { superseded_by = some successor } in
    let linked : Db → ℕ = λ d. count (unlinked superseded) d.batches in
    let tail : ℕ → Batch → Tx Batch = λ n batch.
      throw_when (n == 0 && is_none batch.superseded_by) successor_link_requires_superseded
      >> pure batch in
    let write : ℕ → Tx Batch = λ n.
      modify (λ d. record d { batches = update_many (unlinked superseded) f d.batches })
      >> (load_batch superseded >>= tail n) in
    let (u, d1, first, rest1) =
      tx_ok (throw_when self successor_cannot_be_self)
        (λ _. load_batch successor >>= λ _. gets linked >>= write) db h in
    let (b, d2, second, rest2) =
      tx_ok (load_batch successor) (λ _. gets linked >>= write) d1 rest1 in
    let same : db ≡ d2 =
      (throw_when_ok self successor_cannot_be_self db d1 first).1
      ∙ (load_batch_ok successor d1 d2 second).1 in
    let before = subst PaidOnce same inv in
    let after : Db = record d2 { batches = update_many (unlinked superseded) f d2.batches } in
    let kept =
      Keeps->>= (load_batch superseded) (tail (linked d2)) (Keeps-load_batch superseded)
        (λ batch.
          Keeps->>=
            (throw_when (linked d2 == 0 && is_none batch.superseded_by)
              successor_link_requires_superseded)
            (λ _. pure batch)
            (Keeps-throw_when (linked d2 == 0 && is_none batch.superseded_by)
              successor_link_requires_superseded)
            (λ _. Keeps-pure batch))
        after r db' rest2 in
    move_unpaid d2 db' (unlinked superseded) f (λ k x _. refl)
      (λ k x _ here. unlinked-open superseded k x here) kept.0 kept.1 before
