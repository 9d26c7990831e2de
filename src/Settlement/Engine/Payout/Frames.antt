-- ===== src/Settlement/Engine/Payout/Frames.antt =====
-- The transactions of the lanes that touch neither batches nor remittances.
use qift_platform.Prelude.{ℕ, not, List, [], ◌∷◌, refl, arith, find, ◌==◌, if◌then◌else◌}
use qift_platform.Prelude.Outcome.{Result, ok}
use qift_platform.Ledger.{Metadata}
use qift_platform.Settlement.Errors.{SettlementError, receivables_contended}
use qift_platform.Settlement.States.{receivable_eq, assert_receivable_transition}
use qift_platform.Settlement.Store.{
  Batch, Allocation, AuditAction, Tx, ◌>>=◌, ◌>>◌, pure, gets, lift, or_throw, throw_when, modify,
  update_many, count, post, Receivable,
}
use qift_platform.Settlement.Store.Update.{
  Keeps, Keeps->>=, Keeps-post, Keeps-modify, Keeps-lift, Keeps-gets, Keeps-or_throw,
  Keeps-throw_when,
}
use qift_platform.Settlement.Engine.Assemble.{audit_guaranteed, audit_under}
use qift_platform.Settlement.Engine.Close.{
  consume_found, consume_row, consume_allocation, recovery_posting, next_state, consumes,
  consumed_row,
}

Keeps-consume_found :
    (batch at : ℕ) (a : Allocation) (row : Receivable) → Keeps (consume_found batch at a row)
unfolding consume_found
Keeps-consume_found batch at a row =
    let move = modify (λ db. record db {
      receivables =
          update_many (consumes batch a row.state) (consumed_row batch at a) db.receivables;
    }) in
    let moved : Result SettlementError (Unit {0}) =
      if receivable_eq row.state (next_state a)
      then ok tt
      else assert_receivable_transition row.state (next_state a) in
    let counted = gets (λ db. count (consumes batch a row.state) db.receivables) in
    let checked : ℕ → Tx (Unit {0}) =
      λ n. throw_when (not (n == 1)) receivables_contended >> move in
    Keeps->>= (lift moved) (λ _. counted >>= checked) (Keeps-lift moved)
      (λ _.
        Keeps->>= counted checked
          (Keeps-gets (λ db. count (consumes batch a row.state) db.receivables))
          (λ n.
            Keeps->>= (throw_when (not (n == 1)) receivables_contended) (λ _. move)
              (Keeps-throw_when (not (n == 1)) receivables_contended)
              (λ _.
                Keeps-modify
                  (λ db. record db {
                    receivables =
                        update_many (consumes batch a row.state) (consumed_row batch at a)
                          db.receivables;
                  })
                  (λ db. (refl, refl)))))

Keeps-consume_row : (batch at : ℕ) (a : Allocation) → Keeps (consume_row batch at a)
unfolding consume_row consume_found
Keeps-consume_row batch at a =
    Keeps->>=
      (λ d.
        or_throw (find (λ (r : Receivable). r.id == a.receivable_id) d.receivables)
          receivables_contended d)
      (consume_found batch at a)
      (λ d.
        Keeps-or_throw (find (λ (r : Receivable). r.id == a.receivable_id) d.receivables)
          receivables_contended d)
      (Keeps-consume_found batch at a)

pub Keeps-pure : {A : Type 0} (a : A) → Keeps (pure a)
Keeps-pure a db b db' h = ground arith

pub Keeps-consume_allocation :
    (actor : ℕ) (batch : Batch) (at : ℕ) (meta : Allocation → Metadata) (as_ : List Allocation)
    → Keeps (consume_allocation actor batch at meta as_)
unfolding consume_allocation
Keeps-consume_allocation actor batch at meta [] = Keeps-pure tt
Keeps-consume_allocation actor batch at meta (a ∷ rest) =
    Keeps->>= (consume_row batch.id at a)
      (λ _.
        post (recovery_posting actor batch (meta a) a)
        >> consume_allocation actor batch at meta rest)
      (Keeps-consume_row batch.id at a)
      (λ _.
        Keeps->>= (post (recovery_posting actor batch (meta a) a))
          (λ _. consume_allocation actor batch at meta rest)
          (Keeps-post (recovery_posting actor batch (meta a) a))
          (λ _. Keeps-consume_allocation actor batch at meta rest))

pub Keeps-audit :
    (action : AuditAction) (anchor actor store : ℕ)
    → Keeps (audit_guaranteed action anchor actor store)
unfolding audit_guaranteed audit_under
Keeps-audit action anchor actor store = Keeps-modify _ (λ db. (refl, refl))
