-- ===== src/Settlement/Execution/Untouched.antt =====
-- What the completion of src/settlement/settlement-execution.service.ts leaves as it is.
use qift_platform.Prelude.{
  ℕ, Option, none, some, List, [], ◌∷◌, ◌≡◌, refl, ◌∙◌, if_both, ◌==◌, find,
}
use qift_platform.Prelude.Outcome.{Result, ok, err}
use qift_platform.Ledger.{Ledger, LedgerError, RecordLedgerInput, record_entry, is_none}
use qift_platform.Settlement.Errors.{SettlementError, ledger_refused}
use qift_platform.Settlement.Store.{Db, Allocation, CreditNote, AuditAction, post, count}
use qift_platform.Settlement.Call.{Call, ◌>>=◌, and_then, committed, transaction}
use qift_platform.Settlement.Canonical.{Platform}
use qift_platform.Settlement.Statement.{FrozenBatchRecord}
use qift_platform.Settlement.Engine.Assemble.{audit_under}
use qift_platform.Settlement.Execution.Completion.{
  unattached, attach, attach_found, attach_statement_to_credit_notes,
}

-- The batches, remittances and statements of the two are the same.
pub record Same (db db' : Db) : Type 0 where
  pub batches : db'.batches ≡ db.batches
  pub remittances : db'.remittances ≡ db.remittances
  pub statements : db'.statements ≡ db.statements

pub Same-refl : (db : Db) → Same db db
Same-refl db = record { batches = refl; remittances = refl; statements = refl }

pub Same-trans : {a b c : Db} → Same a b → Same b c → Same a c
Same-trans s t = record {
  batches = t.batches ∙ s.batches;
  remittances = t.remittances ∙ s.remittances;
  statements = t.statements ∙ s.statements;
}

-- A method that touches none of the three, whether it returns or throws.
abbrev pub Untouched : {A : Type 0} → Call A → Type 0
Untouched m = (db : Db) → Same db (m db).1

and_then-Untouched :
    {A B : Type 0} (r : Result SettlementError A) (next : A → Call B) (db : Db)
    → ((a : A) → Untouched (next a))
    → Same db (and_then r next db).1
unfolding and_then
and_then-Untouched (ok a) next db h = h a db
and_then-Untouched (err e) next db h = Same-refl db

pub Untouched->>= :
    {A B : Type 0} (m : Call A) (next : A → Call B)
    → Untouched m
    → ((a : A) → Untouched (next a))
    → Untouched (m >>= next)
unfolding ◌>>=◌
Untouched->>= m next h k db = Same-trans (h db) (and_then-Untouched (m db).0 next (m db).1 k)

posted-Same :
    (r : Result LedgerError Ledger) (db : Db)
    → Same db
        (committed
          (elim r [
            | ok ledger ↦ ok (tt, record db { ledger = ledger })
            | err e ↦ err (ledger_refused e)
          ])
          db).1
unfolding committed
posted-Same (ok ledger) db = record { batches = refl; remittances = refl; statements = refl }
posted-Same (err e) db = Same-refl db

pub post-Untouched : (input : RecordLedgerInput) → Untouched (transaction (post input))
unfolding transaction post
post-Untouched input db = posted-Same (record_entry input db.ledger) db

pub audit_under-Untouched :
    (kind : AuditAction) (anchor : ℕ) (action : AuditAction) (actor store : ℕ)
    → Untouched (transaction (audit_under kind anchor action actor store))
unfolding transaction committed audit_under
audit_under-Untouched kind anchor action actor store db = record {
  batches = refl;
  remittances = refl;
  statements = refl;
}

attach-Untouched :
    (p : Platform) (actor : ℕ) (frozen : FrozenBatchRecord) (n : CreditNote)
    → Untouched (attach p actor frozen n)
unfolding attach transaction committed audit_under
attach-Untouched p actor frozen n db =
    if_both (λ (x : Result SettlementError (Unit {0}) × Db). Same db x.1)
      (count (unattached p n.facts.refund_id) db.credit_notes == 1)
      (record { batches = refl; remittances = refl; statements = refl })
      (record { batches = refl; remittances = refl; statements = refl })

attach_found-Untouched :
    (p : Platform) (actor : ℕ) (frozen : FrozenBatchRecord) (n : Option CreditNote)
    → Untouched (attach_found p actor frozen n)
unfolding attach_found
attach_found-Untouched p actor frozen none db = Same-refl db
attach_found-Untouched p actor frozen (some n) db =
    if_both (λ (x : Result SettlementError (Unit {0}) × Db). Same db x.1)
      (is_none n.facts.statement_settlement_id) (attach-Untouched p actor frozen n db)
      (Same-refl db)

pub attach_statement-Untouched :
    (p : Platform) (actor : ℕ) (frozen : FrozenBatchRecord) (rows : List Allocation)
    → Untouched (attach_statement_to_credit_notes p actor frozen rows)
unfolding attach_statement_to_credit_notes
attach_statement-Untouched p actor frozen [] = λ db. Same-refl db
attach_statement-Untouched p actor frozen (a ∷ rest) =
    Untouched->>=
      (λ db.
        attach_found p actor frozen
          (find (λ (n : CreditNote). n.facts.refund_id == a.occurrence_id) db.credit_notes) db)
      (λ _. attach_statement_to_credit_notes p actor frozen rest)
      (λ db. attach_found-Untouched p actor frozen _ db)
      (λ _. attach_statement-Untouched p actor frozen rest)
