-- ===== src/Settlement/Refunds/Again.antt =====
-- A request whose movement is recorded already (src/settlement/settlement-refunds.service.ts).
use Prim.Native.String.{String}
use text.Mathlib.Text.{◌==◌ as str_eq}
use qift_platform.Prelude.{
  ℕ, true, false, not, ◌&&◌, Option, some, ◌≡◌, refl, sym, ap, ◌∙◌, subst, find, any, ◌==◌, ==_iff,
  any-append, Bool-cases, inl, inr,
}
use qift_platform.Prelude.Int.{eqb_ℤ}
use qift_platform.Prelude.Outcome.{ok, err}
use qift_platform.Settlement.Errors.{invoice_not_found, refund_currency_unsupported}
use qift_platform.Settlement.Store.{
  or_throw, throw_when, gets, Tx, Db, AuditAction, MerchantInvoice, SettlementRefund,
}
use qift_platform.Settlement.Canonical.{Platform}
use qift_platform.Settlement.Call.{transaction, committed, and_then, ◌>>=◌}
use qift_platform.Settlement.Engine.Assemble.{has_key}
use qift_platform.Settlement.Refunds.Input.{RefundRequest, minor}
use qift_platform.Settlement.Refunds.{
  Recorded, existing, Draws, has_invoice_id, refund_tx, found_or_new,
}
use qift_platform.Settlement.Refunds.Amounts.{has_evidence}
use qift_platform.Settlement.Refunds.Record.{audited}
use qift_platform.Settlement.Refunds.Audited.{after_audit, audit_recorded_run}

abbrev then_tx : {A B : Type 0} → Tx A → (A → Tx B) → Tx B
then_tx m f db = elim (m db) [ ok (a, db') ↦ f a db' | err e ↦ err e ]

tx_run :
    {A B : Type 0} (m : Tx A) (f : A → Tx B) (db : Db) {a : A} {mid : Db}
    → m db ≡ ok (a, mid)
    → then_tx m f db ≡ f a mid
tx_run m f db e = rw (e, then_tx) refl

-- The audit's row is there.
abbrev pub Keyed : SettlementRefund → Db → Type 0
Keyed refund db = any (has_key AuditAction.refund_recorded refund.id) db.audit ≡ true

-- An audit that is recorded is not recorded again.
audited_once :
    (by_ : ℕ) (refund : SettlementRefund) (db : Db)
    → Keyed refund db
    → after_audit AuditAction.refund_recorded by_ refund db ≡ db
audited_once by_ refund db h = rw h refl

pub after_audit-Keyed :
    (by_ : ℕ) (refund : SettlementRefund) (db : Db)
    → Keyed refund (after_audit AuditAction.refund_recorded by_ refund db)
unfolding has_key
after_audit-Keyed by_ refund db =
    elim (Bool-cases (any (has_key AuditAction.refund_recorded refund.id) db.audit)) [
      | inl old ↦ rw old old
      | inr new ↦ rw new (
          rw (any-append (has_key AuditAction.refund_recorded refund.id) db.audit _, new)
            (rw ((==_iff refund.id refund.id).1 refl) refl))
    ]

-- The movement of a request is recorded as `refund`, and audited.
pub record Known (r : RefundRequest) (refund : SettlementRefund) (db : Db) : Type 0 where
  pub invoice : MerchantInvoice
  pub found : find (has_invoice_id r.invoice_id) db.invoices ≡ some invoice
  pub riyals : not (str_eq invoice.currency "SAR") ≡ false
  pub there : find (has_evidence invoice.id r.evidence_ref) db.refunds ≡ some refund
  pub agrees :
      not (eqb_ℤ (minor refund.amount) r.amount_minor && refund.refunded_at == r.refunded_at)
      ≡ false

-- Two requests of one movement.
pub record SameMovement (r again : RefundRequest) : Type 0 where
  pub invoice_id : again.invoice_id ≡ r.invoice_id
  pub evidence_ref : again.evidence_ref ≡ r.evidence_ref
  pub amount_minor : again.amount_minor ≡ r.amount_minor
  pub refunded_at : again.refunded_at ≡ r.refunded_at

module _ (p : Platform) (actor now : ℕ) (draws : Draws) where
  -- The transaction from the invoice on.
  abbrev checked_currency : RefundRequest → MerchantInvoice → Tx Recorded
  checked_currency r invoice =
      then_tx (throw_when (not (str_eq invoice.currency "SAR")) refund_currency_unsupported) (λ _.
        then_tx (gets (λ d. find (has_evidence invoice.id r.evidence_ref) d.refunds))
          (λ old. found_or_new p actor now draws r invoice old))

  again_found :
      (r again : RefundRequest) (refund : SettlementRefund) (db : Db) (invoice : MerchantInvoice)
      → find (has_evidence invoice.id r.evidence_ref) db.refunds ≡ some refund
      → not (str_eq invoice.currency "SAR") ≡ false
      → again.evidence_ref ≡ r.evidence_ref
      → checked_currency again invoice db ≡ ok (existing refund, db)
  unfolding found_or_new
  again_found r again refund db invoice there riyals same = rw riyals (
      ap (λ (o : Option SettlementRefund). found_or_new p actor now draws again invoice o db)
        (subst (λ (t : String). find (has_evidence invoice.id t) db.refunds ≡ some refund)
          (sym same) (there)))

  again_tx :
      (r again : RefundRequest) (refund : SettlementRefund) (db : Db)
      → SameMovement r again
      → Known r refund db
      → refund_tx p actor now draws again db ≡ ok (existing refund, db)
  unfolding refund_tx
  again_tx r again refund db same k =
      let found =
        subst (λ (n : ℕ). find (has_invoice_id n) db.invoices ≡ some k.invoice)
          (sym same.invoice_id) (k.found) in
      tx_run (λ d. or_throw (find (has_invoice_id again.invoice_id) d.invoices) invoice_not_found d)
        (checked_currency again) db
        (ap (λ (o : Option MerchantInvoice). or_throw o invoice_not_found db) found)
      ∙ again_found r again refund db k.invoice k.there k.riyals same.evidence_ref

  again_audit :
      (r again : RefundRequest) (refund : SettlementRefund) (db : Db)
      → SameMovement r again
      → Known r refund db
      → Keyed refund db
      → audited p actor now draws again (existing refund) db ≡ (ok (refund, true), db)
  unfolding audited
  again_audit r again refund db same k keyed =
      rw (same.amount_minor, same.refunded_at)
        (rw (k.agrees) (
          audit_recorded_run actor true refund db
          ∙ ap (λ (d : Db). (ok (refund, true), d)) (audited_once actor refund db keyed)))

  pub again_call :
      (r again : RefundRequest) (refund : SettlementRefund) (db : Db)
      → SameMovement r again
      → Known r refund db
      → Keyed refund db
      → (transaction (refund_tx p actor now draws again) >>= audited p actor now draws again) db
        ≡ (ok (refund, true), db)
  unfolding transaction committed ◌>>=◌ and_then
  again_call r again refund db same k keyed =
      rw (again_tx r again refund db same k) (again_audit r again refund db same k keyed)

pub moved :
    (r : RefundRequest) (old refund : SettlementRefund) (db db' : Db)
    → old ≡ refund
    → db ≡ db'
    → Known r old db
    → Keyed old db
    → Known r refund db' × Keyed refund db'
moved r old refund db db' is_refund same known keyed = (
  subst (λ (x : SettlementRefund). Known r x db') is_refund
      (subst (λ (d : Db). Known r old d) same (known)),
  subst (λ (x : SettlementRefund). Keyed x db') is_refund
      (subst (λ (d : Db). Keyed old d) same (keyed)),
)
