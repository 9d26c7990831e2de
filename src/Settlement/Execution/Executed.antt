-- ===== src/Settlement/Execution/Executed.antt =====
-- `execute` and `closeZeroNet` (src/settlement/settlement-execution.service.ts), when they succeed.
use Prim.Native.String.{String}
use qift_platform.Prelude.{
  ℕ, ◌+◌, ◌*◌, ◌≤◌, Bool, true, false, not, Option, List, Bool-cases, inl, inr, ◌≡◌, sym, ap, subst,
  ◌∙◌, arith, if◌then◌else◌, ltb, ◌||◌,
}
use qift_platform.Prelude.Int.{ℤ, pos, eqb_ℤ, ltb_ℤ}
use qift_platform.Prelude.Outcome.{Result, ok, step_ok, guard_ok, else_ok}
use qift_platform.Settlement.Errors.{
  SettlementError, execution_requires_ready, use_zero_net_close, requires_positive_net,
  zero_net_close_requires_exact_zero, executed_at_out_of_window,
}
use qift_platform.Settlement.Policy.{hour_ms, executed_at_max_age_hours, executed_at_max_skew_hours}
use qift_platform.Settlement.Store.{Db, Batch, Remittance, StatementRecord}
use qift_platform.Settlement.Call.{Call, transaction, call_ok, check_first, transaction_ok}
use qift_platform.Settlement.Canonical.{Platform}
use qift_platform.Settlement.Statement.{FrozenBatchRecord}
use qift_platform.Settlement.Binding.{ExecutionApproval}
use qift_platform.Settlement.Engine.Reads.{frozen_of, found_batch}
use qift_platform.Settlement.Engine.Close.{Evidence, mark_settled, mark_settled_zero_net}
use qift_platform.Settlement.Execution.{
  Env, gates_open, assert_gates_open, payable_net, frozen_net, execution_aggregate, close_aggregate,
  authorise,
}
use qift_platform.Settlement.Execution.Operations.{
  ExecuteInput, is_ready, is_settled, evidence_of, assert_window, heal, settle_and_complete,
  execute,
}
use qift_platform.Settlement.Execution.ZeroNet.{
  closable, heal_zero_net, close_and_complete, close_zero_net,
}
use qift_platform.Settlement.Execution.Authority.{Authorised, and_done, authorise-Authorised}

-- The transfer of a ready batch: its evidence, its authority, and the transaction that settled it.
pub record Executed (p : Platform) (env : Env) (actor now fresh : ℕ) (batch : Batch)
    (input : ExecuteInput) (db : Db) : Type 0 where
  pub gates : gates_open env ≡ true
  pub ready : is_ready batch ≡ true
  pub evidence : Evidence
  pub evidence_is : evidence_of actor input ≡ ok evidence
  pub net : ℤ
  pub net_is : frozen_net (frozen_of batch) ≡ ok net
  pub positive : ltb_ℤ (pos 0) net ≡ true
  pub not_old : now ≤ evidence.executed_at + executed_at_max_age_hours * hour_ms
  pub not_ahead : evidence.executed_at ≤ now + executed_at_max_skew_hours * hour_ms
  pub approvals : List ExecutionApproval
  pub authority :
      Authorised p env now actor
        (frozen_of batch)
        input.preview_hash
        (execution_aggregate p now evidence.executed_at)
        db
        approvals
  pub remittance : Remittance
  pub replayed : Bool
  pub settled_db : Db
  pub settled :
      mark_settled actor batch.id evidence fresh now db ≡ ok ((remittance, replayed), settled_db)

gates_of : (env : Env) → assert_gates_open env ≡ ok tt → gates_open env ≡ true
unfolding assert_gates_open
gates_of env h = elim (Bool-cases (gates_open env)) [
  | inl open_ ↦ open_
  | inr shut ↦ let bad = rw shut at h in cc
]

above_zero : (n : ℤ) → eqb_ℤ n (pos 0) ≡ false → ltb_ℤ n (pos 0) ≡ false → ltb_ℤ (pos 0) n ≡ true
above_zero n h k = ground arith

payable_net_ok :
    (frozen : FrozenBatchRecord) (lawful : Bool) (net : ℤ)
    → payable_net frozen lawful ≡ ok net
    → (lawful ≡ true) × (frozen_net frozen ≡ ok net) × (ltb_ℤ (pos 0) net ≡ true)
unfolding payable_net
payable_net_ok frozen lawful net h =
    let (status, h1) = guard_ok (not lawful) execution_requires_ready _ h in
    let (n, net_is, h2) = step_ok (frozen_net frozen) _ h1 in
    let (nonzero, h3) = guard_ok (eqb_ℤ n (pos 0)) use_zero_net_close _ h2 in
    let (nonneg, h4) = guard_ok (ltb_ℤ n (pos 0)) requires_positive_net _ h3 in
    let same : n ≡ net = cc in
    (
      ground arith,
      net_is ∙ ap ok same,
      subst (λ m. ltb_ℤ (pos 0) m ≡ true) same (above_zero n nonzero nonneg),
    )

other_lane :
    {A : Type 0} (c : Bool) (x y : Call A) {out : Result SettlementError A × Db}
    → c ≡ false
    → (db : Db) → (if c then x else y) db ≡ out
    → y db ≡ out
other_lane true x y h db k = cc
other_lane false x y h db k = k

lane-Executed :
    (p : Platform) (env : Env) (actor now fresh : ℕ) (batch : Batch) (input : ExecuteInput)
    (e : Evidence) (net : ℤ) (db db' : Db) (out : Remittance × Option StatementRecord)
    → gates_open env ≡ true
    → is_ready batch ≡ true
    → evidence_of actor input ≡ ok e
    → frozen_net (frozen_of batch) ≡ ok net
    → ltb_ℤ (pos 0) net ≡ true
    → settle_and_complete p env actor now fresh batch input.preview_hash e net db ≡ (ok out, db')
    → Executed p env actor now fresh batch input db
unfolding settle_and_complete assert_window
lane-Executed p env actor now fresh batch input e net db db' out gates ready evidence net_is
      positive h =
    let (_, window, h1) = check_first (λ _. assert_window now e.executed_at) _ db h in
    let aggregate = execution_aggregate p now e.executed_at in
    let (approvals, authority, h2) =
      check_first (authorise p env now actor (frozen_of batch) input.preview_hash aggregate) _ db
        h1 in
    let (settled, mid, moved, _) =
      call_ok (transaction (mark_settled actor batch.id e fresh now)) _ db h2 in
    let (in_window, _) =
      guard_ok
        (ltb (e.executed_at + executed_at_max_age_hours * hour_ms) now
          || ltb (now + executed_at_max_skew_hours * hour_ms) e.executed_at)
        executed_at_out_of_window (ok tt) (and_done _ window) in
    record {
      gates = gates;
      ready = ready;
      evidence = e;
      evidence_is = evidence;
      net = net;
      net_is = net_is;
      positive = positive;
      not_old = ground arith;
      not_ahead = ground arith;
      approvals = approvals;
      authority =
          authorise-Authorised p env now actor (frozen_of batch) input.preview_hash aggregate db
            approvals authority;
      remittance = settled.0;
      replayed = settled.1;
      settled_db = mid;
      settled = transaction_ok (mark_settled actor batch.id e fresh now) db mid moved;
    }

-- If `execute` returns for a batch that was not settled, then the gates were attested, the batch was
-- ready, its net was positive, the bank value date lay in its window, and the act had its authority:
-- the preview reproduced the frozen calculation and was reviewed within 72 hours, the approvals are
-- recorded, unlapsed, of distinct identities, none the executor's, as many as the band of the day's
-- aggregate asks for, with a senior one where it asks for that, and every item was still ready in the
-- batch; and the transaction that settles the batch committed on those tables.
pub execute-Executed :
    (p : Platform) (env : Env) (actor now fresh id : ℕ) (input : ExecuteInput) (db db' : Db)
    (batch : Batch) (out : Remittance × Option StatementRecord)
    → found_batch id db ≡ ok batch
    → is_settled batch ≡ false
    → execute p env actor now fresh id input db ≡ (ok out, db')
    → Executed p env actor now fresh batch input db
unfolding execute
execute-Executed p env actor now fresh id input db db' batch out found open_ h =
    let (_, gates, h1) = check_first (λ _. assert_gates_open env) _ db h in
    let (e, evidence, h2) = check_first (λ _. evidence_of actor input) _ db h1 in
    let (row, read, h3) = check_first (found_batch id) _ db h2 in
    let (net, payable, h4) =
      check_first (λ _. payable_net (frozen_of row) (is_ready row || is_settled row)) _ db h3 in
    let same : row ≡ batch = cc in
    let unsettled : is_settled row ≡ false = subst (λ b. is_settled b ≡ false) (sym same) open_ in
    let (lawful, net_is, positive) = payable_net_ok (frozen_of row) _ net payable in
    let lane =
      other_lane (is_settled row) (heal p actor now row e net)
        (settle_and_complete p env actor now fresh row input.preview_hash e net) unsettled db h4 in
    subst (λ b. Executed p env actor now fresh b input db) same
      (lane-Executed p env actor now fresh row input e net db db' out (gates_of env gates)
        (ground (arith, lawful, unsettled)) evidence net_is positive lane)

-- The close of a ready batch without a transfer: its authority, and the transaction that closed it.
pub record Closed (p : Platform) (env : Env) (actor now : ℕ) (batch : Batch) (preview_hash : String)
    (db : Db) : Type 0 where
  pub gates : gates_open env ≡ true
  pub ready : is_ready batch ≡ true
  pub zero : (net : ℤ) × (frozen_net (frozen_of batch) ≡ ok net) × (eqb_ℤ net (pos 0) ≡ true)
  pub approvals : List ExecutionApproval
  pub authority :
      Authorised p env now actor (frozen_of batch) preview_hash (close_aggregate p now) db approvals
  pub replayed : Bool
  pub closed_db : Db
  pub closed : mark_settled_zero_net actor batch.id now db ≡ ok (replayed, closed_db)

lane-Closed :
    (p : Platform) (env : Env) (actor now : ℕ) (batch : Batch) (preview_hash : String) (net : ℤ)
    (db db' : Db) (out : Option StatementRecord)
    → gates_open env ≡ true
    → frozen_net (frozen_of batch) ≡ ok net
    → close_and_complete p env actor now batch preview_hash net db ≡ (ok out, db')
    → Closed p env actor now batch preview_hash db
unfolding close_and_complete closable
lane-Closed p env actor now batch preview_hash net db db' out gates net_is h =
    let (_, lawful, h1) = check_first (λ _. closable batch net) _ db h in
    let ready = else_ok (not (is_ready batch)) execution_requires_ready _ lawful in
    let (approvals, authority, h2) =
      check_first (authorise p env now actor (frozen_of batch) preview_hash (close_aggregate p now))
        _ db h1 in
    let (replayed, mid, moved, _) =
      call_ok (transaction (mark_settled_zero_net actor batch.id now)) _ db h2 in
    let (zero, _) =
      guard_ok (not (eqb_ℤ net (pos 0))) zero_net_close_requires_exact_zero (ok tt)
        (and_done _ ready) in
    record {
      gates = gates;
      ready = ground arith;
      zero = (net, net_is, ground arith);
      approvals = approvals;
      authority =
          authorise-Authorised p env now actor (frozen_of batch) preview_hash
            (close_aggregate p now) db approvals authority;
      replayed = replayed;
      closed_db = mid;
      closed = transaction_ok (mark_settled_zero_net actor batch.id now) db mid moved;
    }

-- If `closeZeroNet` returns for a batch that was not settled, then the gates were attested, the batch
-- was ready, its net was exactly zero, the act had the same authority as a transfer, at the level of
-- the gross that it extinguishes, and the transaction that closes the batch committed on those tables.
pub close_zero_net-Closed :
    (p : Platform) (env : Env) (actor now id : ℕ) (preview_hash : String) (db db' : Db)
    (batch : Batch) (out : Option StatementRecord)
    → found_batch id db ≡ ok batch
    → is_settled batch ≡ false
    → close_zero_net p env actor now id preview_hash db ≡ (ok out, db')
    → Closed p env actor now batch preview_hash db
unfolding close_zero_net
close_zero_net-Closed p env actor now id preview_hash db db' batch out found open_ h =
    let (_, gates, h1) = check_first (λ _. assert_gates_open env) _ db h in
    let (row, read, h2) = check_first (found_batch id) _ db h1 in
    let (net, net_is, h3) = check_first (λ _. frozen_net (frozen_of row)) _ db h2 in
    let same : row ≡ batch = cc in
    let unsettled : is_settled row ≡ false = subst (λ b. is_settled b ≡ false) (sym same) open_ in
    let lane =
      other_lane (is_settled row) (heal_zero_net p actor now row)
        (close_and_complete p env actor now row preview_hash net) unsettled db h3 in
    subst (λ b. Closed p env actor now b preview_hash db) same
      (lane-Closed p env actor now row preview_hash net db db' out (gates_of env gates) net_is lane)
