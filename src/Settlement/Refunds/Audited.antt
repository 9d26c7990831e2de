-- ===== src/Settlement/Refunds/Audited.antt =====
-- The audits of a refund call that returned (src/settlement/settlement-refunds.service.ts), and what it
-- returned.
use qift_platform.Prelude.{
  ℕ, Bool, true, false, not, ◌&&◌, some, [], ◌∷◌, ◌++◌, ◌≡◌, refl, sym, ap, ◌∙◌, any, ◌==◌,
  if◌then◌else◌, Bool-cases, inl, inr,
}
use qift_platform.Prelude.Int.{eqb_ℤ}
use qift_platform.Prelude.Outcome.{Result, ok}
use qift_platform.Settlement.Errors.{SettlementError}
use qift_platform.Settlement.Store.{Db, AuditAction, SettlementRefund}
use qift_platform.Settlement.Canonical.{Platform}
use qift_platform.Settlement.Call.{transaction, committed, and_then, ◌>>=◌}
use qift_platform.Settlement.Engine.Assemble.{audit_guaranteed, has_key}
use qift_platform.Settlement.Refunds.Input.{RefundRequest, minor}
use qift_platform.Settlement.Refunds.{existing, created, Draws}
use qift_platform.Settlement.Refunds.Record.{audit_recorded, audited}

-- The tables after the audit of a recorded refund.
abbrev pub after_audit : (action : AuditAction) → (by_ : ℕ) → SettlementRefund → Db → Db
after_audit action by_ refund db = record db {
  audit =
      if any (has_key action refund.id) db.audit
      then db.audit
      else db.audit
        ++ record {
          key = some (action, refund.id);
          action = action;
          actor = by_;
          target_store = refund.store_id;
        }
          ∷ [];
}

pub audit_recorded_run :
    (by_ : ℕ) (replayed : Bool) (refund : SettlementRefund) (db : Db)
    → audit_recorded by_ replayed refund db
      ≡ (ok (refund, replayed), after_audit AuditAction.refund_recorded by_ refund db)
unfolding audit_recorded transaction committed audit_guaranteed ◌>>=◌ and_then
audit_recorded_run by_ replayed refund db = refl

returned_row :
    {a b : SettlementRefund} {c d : Bool}
    → ◌≡◌ {A = Result SettlementError (SettlementRefund × Bool)} (ok (a, c)) (ok (b, d))
    → a ≡ b
returned_row h = cc

returned_flag :
    {a b : SettlementRefund} {c d : Bool}
    → ◌≡◌ {A = Result SettlementError (SettlementRefund × Bool)} (ok (a, c)) (ok (b, d))
    → c ≡ d
returned_flag h = cc

module _ (p : Platform) (actor now : ℕ) (draws : Draws) where
  pub existing_audited :
      (r : RefundRequest) (old refund : SettlementRefund) (mid db' : Db) {replayed : Bool}
      → audited p actor now draws r (existing old) mid ≡ (ok (refund, replayed), db')
      → (not (eqb_ℤ (minor old.amount) r.amount_minor && old.refunded_at == r.refunded_at) ≡ false)
        × (old ≡ refund)
        × (after_audit AuditAction.refund_recorded actor old mid ≡ db')
        × (true ≡ replayed)
  unfolding audited
  existing_audited r old refund mid db' {replayed} h =
      elim (Bool-cases
        (not (eqb_ℤ (minor old.amount) r.amount_minor && old.refunded_at == r.refunded_at))) [
          | inl other ↦ let bad = rw other at h in absurd (cc (ap (λ x. x.0) bad))
          | inr agrees ↦
              let run = sym (audit_recorded_run actor true old mid) ∙ (rw agrees at h) in
              (
                agrees,
                returned_row (ap (λ x. x.0) run),
                ap (λ x. x.1) run,
                returned_flag (ap (λ x. x.0) run),
              )
        ]

  pub created_audited :
      (r : RefundRequest) (row refund : SettlementRefund) (mid db' : Db) {replayed : Bool}
      → audited p actor now draws r (created row) mid ≡ (ok (refund, replayed), db')
      → (row ≡ refund)
        × (after_audit AuditAction.refund_recorded actor row
              (after_audit AuditAction.credit_note_issued actor row mid)
            ≡ db')
        × (false ≡ replayed)
  unfolding audited transaction committed audit_guaranteed ◌>>=◌ and_then
  created_audited r row refund mid db' {replayed} h =
      let run =
        sym (
          audit_recorded_run actor false row
            (after_audit AuditAction.credit_note_issued actor row mid))
        ∙ h in
      (returned_row (ap (λ x. x.0) run), ap (λ x. x.1) run, returned_flag (ap (λ x. x.0) run))
