-- ===== src/Settlement/Engine/Payout/Assembly.antt =====
-- The assembly of a batch, under the invariant that no batch is paid twice.
use Prim.Native.String.{String}
use qift_platform.Prelude.{
  ℕ, ◌⊎◌, ◌+◌, ◌≤◌, Bool, false, not, ◌&&◌, List, [], ◌∷◌, ◌++◌, ◌≡◌, refl, subst, arith, ◌∙◌, any,
  any-append, length, Bool-cases, inl, inr, ◌==◌,
}
use qift_platform.Prelude.Outcome.{Result, ok, err}
use qift_platform.Ledger.{Metadata, settlement_started}
use qift_platform.Settlement.Errors.{SettlementError}
use qift_platform.Settlement.Store.{
  Db, Item, Batch, Receivable, AuditAction, Tx, ◌>>◌, pure, lift, count, post,
}
use qift_platform.Settlement.Store.Update.{
  Keeps, Keeps->>=, Keeps-post, tx_ok, count-append, count_zero,
}
use qift_platform.Settlement.Engine.Plan.{Plan, assembly_plan}
use qift_platform.Settlement.Engine.Assemble.{
  marker, audit_guaranteed, new_batch, is_taken, bind_loop, stage_loop, write_claim, claim,
  commit_assembly, is_unique_violation, or_again, attempts, assemble_batch,
}
use qift_platform.Settlement.Engine.Lifecycle.{has_id}
use qift_platform.Settlement.Engine.Payout.{PaidOnce, is_paid}
use qift_platform.Settlement.Engine.Payout.Frames.{Keeps-pure, Keeps-audit}
use qift_platform.Settlement.Engine.Payout.Steps.{lift_ok}

write_claim_rows :
    (batch : Batch) (items : List Item) (staged : Result SettlementError (List Receivable))
    (db db' : Db) {u : Unit {0}}
    → write_claim batch items staged db ≡ ok (u, db')
    → (db'.batches ≡ db.batches ++ batch ∷ []) × (db'.remittances ≡ db.remittances)
unfolding write_claim
write_claim_rows batch items (err e) db db' h = cc
write_claim_rows batch items (ok rs) db db' h = ground arith

-- A claim that succeeds took a free reference and identifier, and appended the batch.
pub claim_rows :
    (actor reference fresh : ℕ) (plan : Plan) (db db' : Db) {u : Unit {0}}
    → claim actor reference fresh plan db ≡ ok (u, db')
    → (is_taken reference fresh db.batches ≡ false)
      × (db'.batches ≡ db.batches ++ new_batch actor reference fresh plan ∷ [])
      × (db'.remittances ≡ db.remittances)
unfolding claim is_taken
claim_rows actor reference fresh plan db db' h =
    let bound = (bind_loop fresh plan.items db.items).0 == length plan.items in
    elim (Bool-cases (is_taken reference fresh db.batches)) [
      | inl taken ↦ let bad = rw taken at h in cc
      | inr free ↦ elim (Bool-cases bound) [
        | inr short ↦ let bad = rw short at (rw free at h) in cc
        | inl all_ ↦
            let rows =
              write_claim_rows (new_batch actor reference fresh plan)
                (bind_loop fresh plan.items db.items).1
                (stage_loop fresh plan.recovery.allocation db.receivables) db db'
                (rw all_ at (rw free at h)) in
            (free, rows.0, rows.1)
      ]
    ]

fresh_id :
    (reference fresh : ℕ) (rows : List Batch)
    → is_taken reference fresh rows ≡ false
    → any (has_id fresh) rows ≡ false
unfolding is_taken
fresh_id reference fresh [] h = refl
fresh_id reference fresh (b ∷ rows) h = ground (arith, fresh_id reference fresh rows)

created_once :
    (k actor reference fresh : ℕ) (plan : Plan) (rows : List Batch)
    → any (has_id fresh) rows ≡ false
    → count (has_id k) rows ≤ 1
    → count (has_id k) rows + count (has_id k) (new_batch actor reference fresh plan ∷ []) ≤ 1
unfolding new_batch count
created_once k actor reference fresh plan rows free h = elim (Bool-cases (fresh == k)) [
  | inl hit ↦
      let same : fresh ≡ k = ground (arith, hit) in
      let zero_ = count_zero (has_id k) rows (subst (λ j. any (has_id j) rows ≡ false) same free) in
      rw (hit, zero_) (omega arith)
  | inr miss ↦ rw miss (omega arith)
]

claim-PaidOnce :
    (actor reference fresh : ℕ) (plan : Plan) (db db' : Db)
    → is_taken reference fresh db.batches ≡ false
    → (db'.batches ≡ db.batches ++ new_batch actor reference fresh plan ∷ [])
    → (db'.remittances ≡ db.remittances)
    → PaidOnce db
    → PaidOnce db'
claim-PaidOnce actor reference fresh plan db db' free eb er inv =
    let created = new_batch actor reference fresh plan ∷ [] in
    record {
      distinct = λ k.
          rw (eb, count-append (has_id k) db.batches created)
            (created_once k actor reference fresh plan db.batches
              (fresh_id reference fresh db.batches free) (inv.distinct k));
      paid =
          λ k h. rw (eb, any-append (is_paid k) db.batches created, inv.paid k (rw er at h)) refl;
      once = λ k. rw er (inv.once k);
    }

commit_tail : (actor reference fresh : ℕ) → Plan → Tx Batch
commit_tail actor reference fresh plan =
    post (
      marker settlement_started "SETTLEMENT_STARTED"
        (Metadata.batch_started reference (length plan.items) plan.calculation.net_amount) actor
        (new_batch actor reference fresh plan))
    >> (audit_guaranteed AuditAction.assembled fresh actor plan.store_id
        >> pure (new_batch actor reference fresh plan))

Keeps-commit_tail :
    (actor reference fresh : ℕ) (plan : Plan) → Keeps (commit_tail actor reference fresh plan)
unfolding commit_tail
Keeps-commit_tail actor reference fresh plan =
    let batch = new_batch actor reference fresh plan in
    let entry =
      marker settlement_started "SETTLEMENT_STARTED"
        (Metadata.batch_started reference (length plan.items) plan.calculation.net_amount) actor
        batch in
    let audited = audit_guaranteed AuditAction.assembled fresh actor plan.store_id in
    Keeps->>= (post entry) (λ _. audited >> pure batch) (Keeps-post entry)
      (λ _.
        Keeps->>= audited (λ _. pure batch)
          (Keeps-audit AuditAction.assembled fresh actor plan.store_id) (λ _. Keeps-pure batch))

commit_assembly-PaidOnce :
    (actor reference fresh : ℕ) (plan : Plan) (db db' : Db) {b : Batch}
    → commit_assembly actor reference fresh plan db ≡ ok (b, db')
    → PaidOnce db
    → PaidOnce db'
unfolding commit_assembly commit_tail
commit_assembly-PaidOnce actor reference fresh plan db db' {b} h inv =
    let (u, d1, first, rest) =
      tx_ok (claim actor reference fresh plan) (λ _. commit_tail actor reference fresh plan) db h in
    let rows = claim_rows actor reference fresh plan db d1 first in
    let kept = Keeps-commit_tail actor reference fresh plan d1 b db' rest in
    claim-PaidOnce actor reference fresh plan db db' rows.0 (kept.0 ∙ rows.1) (kept.1 ∙ rows.2) inv

pub or_again_ok :
    (last : Bool) (r next : Result SettlementError (Batch × Db)) {x : Batch × Db}
    → or_again last r next ≡ ok x
    → (r ≡ ok x) ⊎ (next ≡ ok x)
unfolding or_again
or_again_ok last (ok done) next h = inl h
or_again_ok last (err e) next h = elim (Bool-cases (is_unique_violation e && not last)) [
  | inl again ↦ inr (rw again at h)
  | inr final ↦ let bad = rw final at h in cc
]

attempts-PaidOnce :
    (n actor : ℕ) (plan : Plan) (candidates : List (ℕ × ℕ)) (db db' : Db) {b : Batch}
    → attempts n actor plan candidates db ≡ ok (b, db')
    → PaidOnce db
    → PaidOnce db'
unfolding attempts
attempts-PaidOnce n actor plan [] db db' h inv = cc
attempts-PaidOnce n actor plan ((reference, fresh) ∷ rest) db db' {b} h inv =
    elim (or_again_ok (n == 2) (commit_assembly actor reference fresh plan db)
      (attempts (n + 1) actor plan rest db) h) [
        | inl committed ↦ commit_assembly-PaidOnce actor reference fresh plan db db' committed inv
        | inr later ↦ attempts-PaidOnce (n + 1) actor plan rest db db' later inv
      ]

pub assemble_batch-PaidOnce :
    (actor store : ℕ) (currency : String) (candidates : List (ℕ × ℕ)) (db db' : Db) (b : Batch)
    → assemble_batch actor store currency candidates db ≡ ok (b, db')
    → PaidOnce db
    → PaidOnce db'
unfolding assemble_batch
assemble_batch-PaidOnce actor store currency candidates db db' b h inv =
    let (plan, d1, first, rest) =
      tx_ok (λ d. lift (assembly_plan store currency d) d)
        (λ plan. attempts 0 actor plan candidates) db h in
    attempts-PaidOnce 0 actor plan candidates d1 db' rest
      (subst PaidOnce (lift_ok (assembly_plan store currency db) db d1 first) inv)
