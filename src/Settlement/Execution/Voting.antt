-- ===== src/Settlement/Execution/Voting.antt =====
-- `approve` of src/settlement/settlement-execution.service.ts: who may vote, and how often.
use Prim.Native.String.{String}
use text.Mathlib.Text.{◌==◌ as str_eq}
use qift_platform.Prelude.{
  ℕ, ◌≤◌, true, false, not, Option, none, some, List, [], ◌∷◌, ◌++◌, ◌≡◌, ◌≢◌, refl, sym, ap, subst,
  arith, any, Bool-cases, inl, inr,
}
use qift_platform.Prelude.Outcome.{ok, else_ok, refused_not}
use qift_platform.Ledger.{is_none, option_eq}
use qift_platform.Settlement.Errors.{
  approval_requires_ready, batch_proposer_unknown, approver_cannot_be_proposer,
  approval_snapshot_stale, already_approved_by_user,
}
use qift_platform.Settlement.Store.{Db, Batch, Approval, AuditAction, count}
use qift_platform.Settlement.Store.Update.{ok_pair, count-append, count_zero}
use qift_platform.Settlement.Call.{transaction, call_ok, check_first, transaction_ok}
use qift_platform.Settlement.Canonical.{Platform}
use qift_platform.Settlement.Statement.{calculation_hash}
use qift_platform.Settlement.Binding.Gate.{differ_false}
use qift_platform.Settlement.Engine.Assemble.{audit_under, audit_guaranteed}
use qift_platform.Settlement.Engine.Reads.{frozen_of, found_batch}
use qift_platform.Settlement.Execution.{authorization_basis_minor, close_aggregate}
use qift_platform.Settlement.Execution.Operations.{
  is_ready, votes_now, same_vote, vote_of, may_vote, record_vote, approve,
}

-- What a vote was cast on, and the row that it left.
pub record Voted (p : Platform) (now actor : ℕ) (batch : Batch) (hash : String) (db db' : Db)
    (vote : Approval) : Type 0 where
  pub ready : is_ready batch ≡ true
  pub proposer : ℕ
  pub proposed : batch.assembled_by ≡ some proposer
  pub separate : actor ≢ proposer
  pub content : hash ≡ calculation_hash p batch.calculation
  pub first : any (votes_now now batch.id actor) db.approvals ≡ false
  pub row : db'.approvals ≡ db.approvals ++ vote ∷ []
  pub of_batch : vote.settlement_id ≡ batch.id
  pub of_actor : vote.approved_by ≡ actor
  pub hash_of : vote.calculation_hash ≡ calculation_hash p batch.calculation

proposer_of :
    (actor : ℕ) (o : Option ℕ)
    → is_none o ≡ false
    → option_eq o (some actor) ≡ false
    → (q : ℕ) × (o ≡ some q) × (actor ≢ q)
proposer_of actor none h k = cc
proposer_of actor (some q) h k = (q, refl, λ same. ground arith)

-- The conditions under which a vote may be cast.
record MayVote (p : Platform) (now actor : ℕ) (batch : Batch) (hash : String) (db : Db)
    : Type 0 where
  ready : is_ready batch ≡ true
  known : is_none batch.assembled_by ≡ false
  separate : option_eq batch.assembled_by (some actor) ≡ false
  content : not (str_eq hash (calculation_hash p batch.calculation)) ≡ false
  first : any (votes_now now batch.id actor) db.approvals ≡ false

may_vote_ok :
    (p : Platform) (now actor : ℕ) (batch : Batch) (hash : String) (db : Db)
    → may_vote p now actor batch hash db ≡ ok tt
    → MayVote p now actor batch hash db
unfolding may_vote
may_vote_ok p now actor batch hash db h =
    let (ready, h1) = refused_not (not (is_ready batch)) approval_requires_ready _ h in
    let (known, h2) = refused_not (is_none batch.assembled_by) batch_proposer_unknown _ h1 in
    let (separate, h3) =
      refused_not (option_eq batch.assembled_by (some actor)) approver_cannot_be_proposer _ h2 in
    let (content, h4) =
      refused_not (not (str_eq hash (calculation_hash p batch.calculation))) approval_snapshot_stale
        _ h3 in
    let (first, _) =
      refused_not (any (votes_now now batch.id actor) db.approvals) already_approved_by_user _ h4 in
    record {
      ready = ground arith;
      known = known;
      separate = separate;
      content = content;
      first = first;
    }

record_vote_row :
    (fresh : ℕ) (vote : Approval) (store : ℕ) (db db' : Db)
    → record_vote fresh vote store db ≡ ok (tt, db')
    → db'.approvals ≡ db.approvals ++ vote ∷ []
unfolding record_vote audit_guaranteed audit_under
record_vote_row fresh vote store db db' h =
    let cast : Db = record db { approvals = db.approvals ++ vote ∷ [] } in
    let written =
      else_ok (any (same_vote vote) db.approvals) already_approved_by_user
        (audit_guaranteed AuditAction.approved fresh vote.approved_by store cast) h in
    sym (ap (λ (d : Db). d.approvals) (ok_pair tt tt _ db' written).1)

-- If `approve` returns, the batch was ready, the voter is not its proposer, the vote quotes the hash
-- of the frozen calculation, no active vote of the voter on the batch was recorded, and the tables
-- have one more vote, of this voter on this batch and this calculation.
pub approve-Voted :
    (p : Platform) (actor now fresh id : ℕ) (hash : String) (note : Option String) (db db' : Db)
    (batch : Batch) (vote : Approval)
    → found_batch id db ≡ ok batch
    → approve p actor now fresh id hash note db ≡ (ok vote, db')
    → Voted p now actor batch hash db db' vote
unfolding approve frozen_of vote_of
approve-Voted p actor now fresh id hash note db db' batch vote found h =
    let (row, read, h1) = check_first (found_batch id) _ db h in
    let same : row ≡ batch = cc in
    let (_, lawful, h2) = check_first (may_vote p now actor row hash) _ db h1 in
    let (basis, _, h3) = check_first (λ _. authorization_basis_minor (frozen_of row)) _ db h2 in
    let (other, _, h4) = check_first (close_aggregate p now (frozen_of row)) _ db h3 in
    let cast = vote_of p actor now fresh row note basis other in
    let (_, mid, run, h5) = call_ok (transaction (record_vote fresh cast row.store_id)) _ db h4 in
    let may = may_vote_ok p now actor row hash db lawful in
    let appended =
      record_vote_row fresh cast row.store_id db mid
        (transaction_ok (record_vote fresh cast row.store_id) db mid run) in
    let returned : cast ≡ vote = let voted = ap (λ x. x.0) h5 in cc in
    let (proposer, proposed, separate) =
      proposer_of actor row.assembled_by may.known may.separate in
    let voted : Voted p now actor row hash db mid cast = record {
      ready = may.ready;
      proposer = proposer;
      proposed = proposed;
      separate = separate;
      content = differ_false _ _ may.content;
      first = may.first;
      row = appended;
      of_batch = refl;
      of_actor = refl;
      hash_of = refl;
    } in
    subst (λ b. Voted p now actor b hash db db' vote) same
      (subst (λ v. Voted p now actor row hash db db' v) returned
        (subst (λ d. Voted p now actor row hash db d cast) (ap (λ x. x.1) h5) voted))

-- At this instant, no identity has two active votes on a batch.
abbrev pub OneVote : (now : ℕ) → Db → Type 0
OneVote now db = (settlement k : ℕ) → count (votes_now now settlement k) db.approvals ≤ 1

one_more :
    (now settlement k : ℕ) (rows : List Approval) (vote : Approval)
    → count (votes_now now settlement k) rows ≤ 1
    → any (votes_now now vote.settlement_id vote.approved_by) rows ≡ false
    → count (votes_now now settlement k) (rows ++ vote ∷ []) ≤ 1
unfolding count
one_more now settlement k rows vote h none_ =
    let appended = count-append (votes_now now settlement k) rows (vote ∷ []) in
    elim (Bool-cases (votes_now now settlement k vote)) [
      | inl counts ↦
          let here : vote.settlement_id ≡ settlement = ground arith in
          let mine : vote.approved_by ≡ k = ground arith in
          let absent : any (votes_now now settlement k) rows ≡ false =
            subst (λ a. any (votes_now now settlement a) rows ≡ false) mine
              (subst (λ t. any (votes_now now t vote.approved_by) rows ≡ false) here none_) in
          ground (arith, counts, appended, count_zero (votes_now now settlement k) rows absent)
      | inr other ↦ ground (arith, other, appended)
    ]

-- An approval keeps the rule of one active vote for an identity on a batch.
pub approve-OneVote :
    (p : Platform) (actor now fresh id : ℕ) (hash : String) (note : Option String) (db db' : Db)
    (vote : Approval)
    → approve p actor now fresh id hash note db ≡ (ok vote, db')
    → OneVote now db
    → OneVote now db'
unfolding approve
approve-OneVote p actor now fresh id hash note db db' vote h inv settlement k =
    let (row, read, _) = check_first (found_batch id) _ db h in
    let voted = approve-Voted p actor now fresh id hash note db db' row vote read h in
    subst (λ rows. count (votes_now now settlement k) rows ≤ 1) (sym voted.row)
      (one_more now settlement k db.approvals vote (inv settlement k) (
        subst (λ s. any (votes_now now s vote.approved_by) db.approvals ≡ false)
          (sym voted.of_batch)
          (subst (λ a. any (votes_now now row.id a) db.approvals ≡ false) (sym voted.of_actor)
            voted.first)))
