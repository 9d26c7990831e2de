-- ===== src/Settlement/Execution/Replayed.antt =====
-- The replay (src/settlement/settlement-execution.service.ts) of a statement that a completed
-- execution has issued.
use Prim.Native.String.{String}
use text.Mathlib.Text.{◌==◌ as str_eq}
use text.Mathlib.TextEquality.{eq_iff}
use qift_platform.Prelude.{
  ℕ, Bool, true, false, Option, none, some, List, [], ◌∷◌, ◌++◌, ◌≡◌, refl, sym, ap, subst, ◌∙◌,
  ==_iff, arith, any, find, if◌then◌else◌,
}
use qift_platform.Prelude.Outcome.{ok}
use qift_platform.Settlement.Errors.{statement_not_issued}
use qift_platform.Settlement.Store.{
  v1, Db, Batch, Remittance, StatementRecord, ReplayRecord, AuditAction, post,
}
use qift_platform.Settlement.Call.{
  Call, ◌>>=◌, ◌>>◌, returns, transaction, call_ok, check_run, and_then, committed,
}
use qift_platform.Settlement.Canonical.{Platform, canonical_json, hash_canonical, truthy}
use qift_platform.Settlement.Statement.{
  FrozenBatchRecord, SettlementStatement, statement_of, generate_settlement_statement,
  statement_json, statement_hash, get-statement_json,
}
use qift_platform.Settlement.Binding.{ExecutionPreview, recompute}
use qift_platform.Settlement.Binding.Assembled.{preview_of_recomputed}
use qift_platform.Settlement.Engine.Assemble.{audit_under}
use qift_platform.Settlement.Engine.Lifecycle.{remits}
use qift_platform.Settlement.Engine.Plan.{audit_record}
use qift_platform.Settlement.Engine.Reads.{frozen_of, found_batch}
use qift_platform.Settlement.Execution.Operations.{found_or}
use qift_platform.Settlement.Execution.Completion.{
  is_statement_of, stored_statement, remittance_evidence, statement_record, issue, issue_generated,
  ensure_statement, remittance_posting, attach_statement_to_credit_notes, complete_chain,
}
use qift_platform.Settlement.Execution.Replay.{
  statement_integrity_ok, stored_closure, stored_evidence, regenerate, replay_record, store_replay,
  replay,
}
use qift_platform.Settlement.Execution.Untouched.{
  Same, Same-trans, Untouched, post-Untouched, audit_under-Untouched, attach_statement-Untouched,
}

find-append :
    {A : Type 0} (f : A → Bool) (xs : List A) (x : A)
    → any f xs ≡ false
    → f x ≡ true
    → find f (xs ++ x ∷ []) ≡ some x
find-append f [] x h k = rw k refl
find-append f (y ∷ ys) x h k = ground (arith, find-append f ys x)

-- The statement that an execution issues.
issued_statement : Platform → (now : ℕ) → FrozenBatchRecord → Remittance → SettlementStatement
issued_statement p now frozen r =
    statement_of p frozen (p.iso now) v1 (some (remittance_evidence p r)) none

-- The tables after a completion: the statement is stored, and the rest of a replay's reads is as before.
record Issued (p : Platform) (now : ℕ) (frozen : FrozenBatchRecord) (r : Remittance) (db db' : Db)
    : Type 0 where
  stored :
      stored_statement frozen.settlement_id db'
      ≡ some (statement_record p frozen now (issued_statement p now frozen r))
  batches : db'.batches ≡ db.batches
  remittances : db'.remittances ≡ db.remittances

after :
    {A : Type 0} (m : Call A) (db mid : Db) {a : A} → Untouched m → m db ≡ (ok a, mid) → Same db mid
after m db mid h run = subst (λ (d : Db). Same db d) (ap (λ x. x.1) run) (h db)

issue_first :
    (p : Platform) (now : ℕ) (frozen : FrozenBatchRecord) (r : Remittance) (db db' : Db)
    {s : Option StatementRecord}
    → any (is_statement_of frozen.settlement_id) db.statements ≡ false
    → ensure_statement p now frozen r db ≡ (ok s, db')
    → Issued p now frozen r db db'
unfolding ensure_statement issue_generated generate_settlement_statement issue stored_statement
    statement_record issued_statement
issue_first p now frozen r db db' absent h =
    let rec = statement_record p frozen now (issued_statement p now frozen r) in
    let written : record db { statements = db.statements ++ rec ∷ [] } ≡ db' =
      rw absent at (ap (λ x. x.1) h) in
    subst (Issued p now frozen r db) written (record {
      stored =
          find-append (is_statement_of frozen.settlement_id) db.statements rec absent
            ((==_iff _ _).1 refl);
      batches = refl;
      remittances = refl;
    })

stored_same :
    (settlement : ℕ) (d d' : Db)
    → d'.statements ≡ d.statements
    → stored_statement settlement d' ≡ stored_statement settlement d
unfolding stored_statement
stored_same settlement d d' h = ap (find (is_statement_of settlement)) h

complete_chain-Issued :
    (p : Platform) (actor now : ℕ) (healed : Bool) (frozen : FrozenBatchRecord) (r : Remittance)
    (db db' : Db) {s : Option StatementRecord}
    → any (is_statement_of frozen.settlement_id) db.statements ≡ false
    → complete_chain p actor now healed frozen r db ≡ (ok s, db')
    → Issued p now frozen r db db'
unfolding complete_chain
complete_chain-Issued p actor now healed frozen r db db' absent h =
    let paid = transaction (post (remittance_posting actor frozen r)) in
    let notes = attach_statement_to_credit_notes p actor frozen frozen.recovery_allocation in
    let action = if healed then AuditAction.healed else AuditAction.executed in
    let audit =
      transaction
        (audit_under AuditAction.executed frozen.settlement_id action actor frozen.store_id) in
    let (_, d1, posted, h1) = call_ok paid _ db h in
    let (s, d2, issued, h2) = call_ok (ensure_statement p now frozen r) _ d1 h1 in
    let (_, d3, attached, h3) = call_ok notes _ d2 h2 in
    let (_, d4, audited, h4) = call_ok audit _ d3 h3 in
    let s1 = after paid db d1 (post-Untouched (remittance_posting actor frozen r)) posted in
    let made =
      issue_first p now frozen r d1 d2
        (subst (λ rows. any (is_statement_of frozen.settlement_id) rows ≡ false) (sym s1.statements)
          absent)
        issued in
    let s3 =
      after notes d2 d3 (attach_statement-Untouched p actor frozen frozen.recovery_allocation)
        attached in
    let s4 =
      after audit d3 d4
        (audit_under-Untouched AuditAction.executed frozen.settlement_id action actor
          frozen.store_id)
        audited in
    let s5 = Same-trans s3 s4 in
    subst (Issued p now frozen r db) (ap (λ x. x.1) h4) (record {
      stored = stored_same frozen.settlement_id d2 d4 s5.statements ∙ made.stored;
      batches = s5.batches ∙ (made.batches ∙ s1.batches);
      remittances = s5.remittances ∙ (made.remittances ∙ s1.remittances);
    })

same_text : (s : String) → str_eq s s ≡ true
same_text s = (eq_iff s s).1 refl

found_same : (id : ℕ) (d d' : Db) → d'.batches ≡ d.batches → found_batch id d' ≡ found_batch id d
unfolding found_batch
found_same id d d' h = rw h refl

-- The statement is made again from what is stored, and its record is sound.
regenerate_same :
    (p : Platform) (now : ℕ) (frozen : FrozenBatchRecord) (r : Remittance)
    → regenerate p frozen (statement_record p frozen now (issued_statement p now frozen r)) (some r)
      ≡ ok (issued_statement p now frozen r)
unfolding regenerate statement_record stored_evidence generate_settlement_statement stored_closure
    truthy issued_statement
regenerate_same p now frozen r =
    rw (get-statement_json p (issued_statement p now frozen r) refl) refl

integrity :
    (p : Platform) (now : ℕ) (frozen : FrozenBatchRecord) (s : SettlementStatement)
    → statement_integrity_ok p (statement_record p frozen now s) ≡ true
unfolding statement_integrity_ok statement_record
integrity p now frozen s =
    rw
      (
        same_text (hash_canonical p (canonical_json p (statement_json p s))),
        same_text (canonical_json p (statement_json p s)),
      )
      refl

same_hash :
    (p : Platform) (now : ℕ) (frozen : FrozenBatchRecord) (s : SettlementStatement)
    → str_eq (statement_hash p s) (statement_record p frozen now s).statement_hash ≡ true
unfolding statement_hash statement_record
same_hash p now frozen s = same_text _

identical :
    (p : Platform) (ran_by ran_at now : ℕ) (frozen : FrozenBatchRecord) (shown : ExecutionPreview)
    (s : SettlementStatement)
    → (replay_record p ran_by ran_at frozen
        (statement_record p frozen now s)
        shown
        s).statement_identical
      ≡ true
unfolding replay_record
identical p ran_by ran_at now frozen shown s =
    rw (integrity p now frozen s) (same_hash p now frozen s)

abbrev replayed_tables : ReplayRecord → (ran_by store : ℕ) → Db → Db
replayed_tables v ran_by store db = record db {
  replay_records = db.replay_records ++ v ∷ [];
  audit =
      db.audit
      ++ record { key = none; action = AuditAction.replayed; actor = ran_by; target_store = store }
        ∷ [];
}

recorded :
    (p : Platform) (v : ReplayRecord) (ran_by store : ℕ) (db : Db)
    → (transaction (store_replay p v)
          >> (transaction (audit_record AuditAction.replayed ran_by store) >> returns v))
        db
      ≡ (ok v, replayed_tables v ran_by store db)
unfolding ◌>>=◌ and_then transaction committed store_replay audit_record
recorded p v ran_by store db = refl

-- After a completion, for a batch that had no statement, whose frozen record recomputes and whose
-- recorded movement is the remittance, a replay returns, and its verdict is that the calculation
-- reproduced itself, that the stored statement is sound, and that the statement made again is identical.
pub complete_chain-replay :
    (p : Platform) (actor now ran_by ran_at id : ℕ) (healed : Bool) (batch : Batch) (r : Remittance)
    (db db' : Db) (s : Option StatementRecord)
    → found_batch id db ≡ ok batch
    → find (remits batch.id) db.remittances ≡ some r
    → any (is_statement_of batch.id) db.statements ≡ false
    → recompute (frozen_of batch) ≡ ok batch.calculation
    → complete_chain p actor now healed (frozen_of batch) r db ≡ (ok s, db')
    → (verdict : ReplayRecord) × (after_replay : Db) × (replay p ran_by ran_at id db'
        ≡ (ok verdict, after_replay))
      × (verdict.calculation_replay_verified ≡ true)
      × (verdict.statement_integrity_verified ≡ true)
      × (verdict.statement_identical ≡ true)
unfolding replay replay_record statement_record frozen_of
complete_chain-replay p actor now ran_by ran_at id healed batch r db db' s found moved absent
      recomputed run =
    let frozen = frozen_of batch in
    let issued = complete_chain-Issued p actor now healed frozen r db db' absent run in
    let st = issued_statement p now frozen r in
    let rec = statement_record p frozen now st in
    let (shown, built, verified) = preview_of_recomputed p frozen (p.iso now) recomputed in
    let verdict = replay_record p ran_by ran_at frozen rec shown st in
    (
      verdict,
      replayed_tables verdict ran_by batch.store_id db',
      check_run (found_batch id) _ db' (found_same id db db' issued.batches ∙ found)
          ∙ (check_run _ _ db' (ap (λ o. found_or o statement_not_issued) issued.stored)
              ∙ (check_run _ _ db' (ap ok (ap (find (remits batch.id)) issued.remittances ∙ moved))
                  ∙ (check_run _ _ db' built
                      ∙ (check_run _ _ db' (regenerate_same p now frozen r)
                          ∙ recorded p verdict ran_by batch.store_id db')))),
      verified,
      integrity p now frozen st,
      identical p ran_by ran_at now frozen shown st,
    )
