-- ===== src/Settlement/Refunds/Replay.antt =====
-- A refund that is recorded again (src/settlement/settlement-refunds.service.ts).
use text.Mathlib.TextEquality.{eq_iff}
use qift_platform.Prelude.{
  ℕ, ◌+◌, Bool, true, false, not, ◌&&◌, none, some, List, [], ◌∷◌, ◌++◌, ◌≡◌, refl, sym, ap, ◌∙◌,
  subst, find, ◌==◌, ==_iff, Bool-cases, inl, inr,
}
use qift_platform.Prelude.Int.{ℤ, pos_part, neg_part, eqb_ℤ}
use qift_platform.Prelude.Outcome.{ok}
use qift_platform.Money.{CurrencyCode}
use qift_platform.Money.Rounding.{to_minor-from_minor}
use qift_platform.Settlement.Store.{
  Db, AuditAction, MerchantInvoice, PaymentReceipt, SettlementRefund, Interaction,
}
use qift_platform.Settlement.Canonical.{Platform}
use qift_platform.Settlement.Call.{transaction, ◌>>=◌, call_ok, check_run, transaction_ok}
use qift_platform.Settlement.Execution.{Env}
use qift_platform.Settlement.Refunds.Input.{RecordRefundInput, RefundRequest, minor, checked_refund}
use qift_platform.Settlement.Refunds.{Recorded, Draws, has_invoice_id, refund_tx, vat_of}
use qift_platform.Settlement.Refunds.Amounts.{has_evidence}
use qift_platform.Settlement.Refunds.Rows.{refund_row}
use qift_platform.Settlement.Refunds.Record.{audited, record_refund}
use qift_platform.Settlement.Refunds.Audited.{after_audit, existing_audited, created_audited}
use qift_platform.Settlement.Refunds.Ended.{Ended, refund_tx-Ended}
use qift_platform.Settlement.Refunds.Again.{
  Keyed, after_audit-Keyed, Known, again_call, moved, SameMovement,
}

module _ {A : Type 0} where
  find-append_last :
      (p : A → Bool) (xs : List A) (x : A)
      → find p xs ≡ none
      → p x ≡ true
      → find p (xs ++ x ∷ []) ≡ some x
  find-append_last p [] x h k = rw k refl
  find-append_last p (y ∷ xs) x h k = elim (Bool-cases (p y)) [
    | inl hit ↦ let bad = rw hit at h in absurd (cc)
    | inr miss ↦ rw miss (find-append_last p xs x (rw miss at h) k)
  ]

module _ (actor fresh : ℕ) (r : RefundRequest) (invoice : MerchantInvoice) (vat : ℤ)
    (interaction : Interaction) where
  row_is_movement :
      has_evidence invoice.id r.evidence_ref (refund_row actor fresh r invoice vat interaction)
      ≡ true
  unfolding refund_row
  row_is_movement =
      rw ((==_iff invoice.id invoice.id).1 refl, (eq_iff r.evidence_ref r.evidence_ref).1 refl) refl

  row_agrees :
      not (
        eqb_ℤ (minor (refund_row actor fresh r invoice vat interaction).amount) r.amount_minor
        && (refund_row actor fresh r invoice vat interaction).refunded_at == r.refunded_at)
      ≡ false
  unfolding refund_row
  row_agrees =
      rw
        (
          to_minor-from_minor CurrencyCode.sar r.amount_minor,
          (==_iff r.refunded_at r.refunded_at).1 refl,
        )
        (rw
          ((==_iff (pos_part r.amount_minor + neg_part r.amount_minor)
              (pos_part r.amount_minor + neg_part r.amount_minor)).1
            refl)
          refl)

-- What a first call that returned leaves.
module _ (p : Platform) (actor now : ℕ) (draws : Draws) where
  made_Known :
      (r : RefundRequest) (refund : SettlementRefund) (made : Recorded) (db mid db' : Db)
      {replayed : Bool}
      → Ended p actor now draws r db mid made
      → audited p actor now draws r made mid ≡ (ok (refund, replayed), db')
      → Known r refund db' × Keyed refund db'
  made_Known r refund made db mid db' {replayed} e h = elim e.how [
    | inl (old, there, is_old, same) ↦
        let (agrees, is_refund, after, _) =
          existing_audited p actor now draws r old refund mid db' (
            subst
              (λ (m : Recorded). audited p actor now draws r m mid ≡ (ok (refund, replayed), db'))
              is_old (h)) in
        moved r old refund (after_audit AuditAction.refund_recorded actor old mid) db' is_refund
          after
          (record {
            invoice = e.invoice;
            found =
                subst (λ (d : Db). find (has_invoice_id r.invoice_id) d.invoices ≡ some e.invoice)
                  (sym same) (e.found);
            riyals = e.riyals;
            there =
                subst
                  (λ (d : Db). find (has_evidence e.invoice.id r.evidence_ref) d.refunds ≡ some old)
                  (sym same) (there);
            agrees = agrees;
          })
          (after_audit-Keyed actor old mid)
    | inr (absent, w) ↦
        let row =
          refund_row actor draws.refund_id r e.invoice
            (vat_of p actor now draws r e.invoice db.refunds) w.interaction in
        let (is_refund, after, _) = created_audited p actor now draws r row refund mid db' (
          subst (λ (m : Recorded). audited p actor now draws r m mid ≡ (ok (refund, replayed), db'))
            (w.is_created) (h)) in
        let noted = after_audit AuditAction.credit_note_issued actor row mid in
        moved r row refund (after_audit AuditAction.refund_recorded actor row noted) db' is_refund
          after
          (record {
            invoice = e.invoice;
            found =
                subst
                  (λ (l : List MerchantInvoice).
                    find (has_invoice_id r.invoice_id) l ≡ some e.invoice)
                  (sym (
                    ap
                      (λ (t : List SettlementRefund × List PaymentReceipt × List MerchantInvoice).
                        t.2)
                      w.view))
                  (e.found);
            riyals = e.riyals;
            there =
                subst
                  (λ (l : List SettlementRefund).
                    find (has_evidence e.invoice.id r.evidence_ref) l ≡ some row)
                  (sym (
                    ap
                      (λ (t : List SettlementRefund × List PaymentReceipt × List MerchantInvoice).
                        t.0)
                      w.view))
                  (find-append_last (has_evidence e.invoice.id r.evidence_ref) db.refunds row absent
                    (row_is_movement actor draws.refund_id r e.invoice _ w.interaction));
            agrees = row_agrees actor draws.refund_id r e.invoice _ w.interaction;
          })
          (after_audit-Keyed actor row noted)
  ]

-- A refund call that returned, recorded again by anyone with the same invoice, evidence, amount and value
-- date, returns the same refund as a replay and changes no table, if the second request passes the checks
-- of its input at its own time, of which one is that the value date still lies in the window.
pub record_refund_idem :
    (p : Platform) (actor now : ℕ) (draws : Draws) (env : Env) (input : RecordRefundInput)
    (db db' : Db) {refund : SettlementRefund} {replayed : Bool} (r again : RefundRequest)
    (actor' now' : ℕ) (draws' : Draws) (env' : Env) (input' : RecordRefundInput)
    → record_refund p actor now draws env input db ≡ (ok (refund, replayed), db')
    → checked_refund env now input ≡ ok r
    → checked_refund env' now' input' ≡ ok again
    → SameMovement r again
    → record_refund p actor' now' draws' env' input' db' ≡ (ok (refund, true), db')
unfolding record_refund
record_refund_idem p actor now draws env input db db' {refund} {replayed} r again actor' now' draws'
      env' input' first checked checked' same =
    let rest =
      sym (
        check_run (λ d. checked_refund env now input)
          (λ r. transaction (refund_tx p actor now draws r) >>= audited p actor now draws r) db
          checked)
      ∙ first in
    let (made, mid, moved_, audits) =
      call_ok (transaction (refund_tx p actor now draws r)) (audited p actor now draws r) db rest in
    let e =
      refund_tx-Ended p actor now draws r db mid
        (transaction_ok (refund_tx p actor now draws r) db mid moved_) in
    let (known, keyed) = made_Known p actor now draws r refund made db mid db' e audits in
    check_run (λ d. checked_refund env' now' input')
      (λ r. transaction (refund_tx p actor' now' draws' r) >>= audited p actor' now' draws' r) db'
      checked'
    ∙ again_call p actor' now' draws' r again refund db' same known keyed
