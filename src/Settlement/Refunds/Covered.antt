-- ===== src/Settlement/Refunds/Covered.antt =====
-- What is collected bounds what is refunded, and the VAT of an invoice what its credit notes reverse
-- (src/settlement/settlement-refunds.service.ts).
use qift_platform.Prelude.{
  ℕ, Bool, true, false, not, ◌&&◌, some, List, [], ◌∷◌, ◌++◌, ◌≡◌, refl, sym, subst, find, ◌==◌,
  ==_iff, if◌then◌else◌, if_both, inl, inr, arith,
}
use qift_platform.Prelude.Int.{ℤ, pos, ◌+ℤ◌, ◌≤ℤ◌, ltb_ℤ, eqb_ℤ, max_ℤ, +ℤ_parts}
use qift_platform.Prelude.Outcome.{ok}
use qift_platform.Settlement.Store.{
  Db, AuditAction, MerchantInvoice, PaymentReceipt, SettlementRefund,
}
use qift_platform.Settlement.Store.Update.{find_ok}
use qift_platform.Settlement.Canonical.{Platform}
use qift_platform.Settlement.Refunds.Input.{RecordRefundInput, checked_refund, RefundRequest, minor}
use qift_platform.Settlement.Refunds.{
  Recorded, existing, created, Draws, refund_tx, vat_of, has_invoice_id,
}
use qift_platform.Settlement.Refunds.Amounts.{refunded_minor, received_minor, refunded_vat_minor}
use qift_platform.Settlement.Refunds.Rows.{refund_row}
use qift_platform.Settlement.Call.{
  check, transaction, returns, ◌>>=◌, Stable, Stable->>=, Stable-transaction,
}
use qift_platform.Settlement.Engine.Assemble.{audit_guaranteed}
use qift_platform.Settlement.Execution.{Env}
use qift_platform.Settlement.Refunds.Record.{audit_recorded, audited, record_refund}
use qift_platform.Settlement.Refunds.Sums.{audit-Preserves}
use qift_platform.Settlement.Refunds.Written.{Written}
use qift_platform.Settlement.Refunds.Ended.{refund_tx-Ended}
use qift_platform.Settlement.Refunds.Shares.{add_capped, vat_capped, refunded_after, vat_after}

-- The refunds of each invoice within its receipts, and their VAT within the VAT that it froze.
pub record CoveredRows (refunds : List SettlementRefund) (receipts : List PaymentReceipt)
    (invoices : List MerchantInvoice) : Type 0 where
  pub collected : (id : ℕ) → refunded_minor id refunds ≤ℤ received_minor id receipts
  pub taxed :
      (id : ℕ) (invoice : MerchantInvoice)
      → find (has_invoice_id id) invoices ≡ some invoice
      → refunded_vat_minor id refunds ≤ℤ max_ℤ (pos 0) (minor invoice.vat_amount)

abbrev pub Covered : Db → Type 0
Covered db = CoveredRows db.refunds db.receipts db.invoices

not-ltb : (a b : ℤ) → ltb_ℤ a b ≡ false → b ≤ℤ a
not-ltb a b h = ground arith

bound_if :
    (b : Bool) (x y z : ℤ) → (b ≡ true → x +ℤ y ≤ℤ z) → x ≤ℤ z → x +ℤ (if b then y else pos 0) ≤ℤ z
bound_if true x y z added kept = added refl
bound_if false x y z added kept = omega (arith, +ℤ_parts x (pos 0))

same_invoice :
    (id k : ℕ) (invoices : List MerchantInvoice) (i j : MerchantInvoice)
    → find (has_invoice_id k) invoices ≡ some i
    → (i.id == id) ≡ true
    → find (has_invoice_id id) invoices ≡ some j
    → i ≡ j
same_invoice id k invoices i j found same found' =
    let key = (==_iff i.id k).0 (find_ok (has_invoice_id k) invoices found) in
    let here = (==_iff i.id id).0 same in cc

module _ (p : Platform) (actor now : ℕ) (draws : Draws) where
  taxed_here :
      (r : RefundRequest) (invoice : MerchantInvoice) (db : Db)
      → find (has_invoice_id r.invoice_id) db.invoices ≡ some invoice
      → Covered db
      → (id : ℕ) (i : MerchantInvoice) → (invoice.id == id) ≡ true
      → find (has_invoice_id id) db.invoices ≡ some i
      → refunded_vat_minor id db.refunds +ℤ vat_of p actor now draws r invoice db.refunds
        ≤ℤ max_ℤ (pos 0) (minor i.vat_amount)
  taxed_here r invoice db found c id i same there =
      let one = same_invoice id r.invoice_id db.invoices invoice i found same there in
      let own =
        (==_iff invoice.id r.invoice_id).0
          (find_ok (has_invoice_id r.invoice_id) db.invoices found) in
      let prior = refunded_vat_minor invoice.id db.refunds in
      let key = (==_iff invoice.id id).0 same in
      let bound =
        add_capped prior (vat_of p actor now draws r invoice db.refunds) (minor invoice.vat_amount)
          (vat_capped (minor invoice.total_amount) (minor invoice.vat_amount)
            (refunded_minor invoice.id db.refunds) prior r.amount_minor)
          (c.taxed invoice.id invoice (
            subst (λ (k : ℕ). find (has_invoice_id k) db.invoices ≡ some invoice) (sym own)
              (found))) in
      subst
        (λ (k : ℕ).
          refunded_vat_minor k db.refunds +ℤ vat_of p actor now draws r invoice db.refunds
          ≤ℤ max_ℤ (pos 0) (minor i.vat_amount))
        key
        (subst
          (λ (j : MerchantInvoice).
            prior +ℤ vat_of p actor now draws r invoice db.refunds
            ≤ℤ max_ℤ (pos 0) (minor j.vat_amount))
          one (bound))

  Written-Covered :
      (r : RefundRequest) (invoice : MerchantInvoice) (db db' : Db) {made : Recorded}
      → find (has_invoice_id r.invoice_id) db.invoices ≡ some invoice
      → Written p actor now draws r invoice db db' made
      → Covered db
      → Covered db'
  Written-Covered r invoice db db' found w c =
      let vat = vat_of p actor now draws r invoice db.refunds in
      let after = db.refunds ++ refund_row actor draws.refund_id r invoice vat w.interaction ∷ [] in
      subst
        (λ (t : List SettlementRefund × List PaymentReceipt × List MerchantInvoice).
          CoveredRows t.0 t.1 t.2)
        (sym w.view)
        (record {
          collected = λ id.
              subst (λ (x : ℤ). x ≤ℤ received_minor id db.receipts)
                (sym
                  (refunded_after actor draws.refund_id r invoice vat w.interaction db.refunds id))
                (bound_if (invoice.id == id) (refunded_minor id db.refunds) r.amount_minor
                  (received_minor id db.receipts)
                  (λ same.
                    subst
                      (λ (k : ℕ).
                        refunded_minor k db.refunds +ℤ r.amount_minor
                        ≤ℤ received_minor k db.receipts)
                      ((==_iff invoice.id id).0 same)
                      (not-ltb (received_minor invoice.id db.receipts)
                        (refunded_minor invoice.id db.refunds +ℤ r.amount_minor) w.within))
                  (c.collected id));
          taxed = λ id i there.
              subst (λ (x : ℤ). x ≤ℤ max_ℤ (pos 0) (minor i.vat_amount))
                (sym (vat_after actor draws.refund_id r invoice vat w.interaction db.refunds id))
                (bound_if (invoice.id == id) (refunded_vat_minor id db.refunds) vat
                  (max_ℤ (pos 0) (minor i.vat_amount))
                  (λ same. taxed_here r invoice db found c id i same there) (c.taxed id i there));
        })

  refund_tx-Covered :
      (r : RefundRequest) (db : Db) (made : Recorded) (db' : Db)
      → refund_tx p actor now draws r db ≡ ok (made, db')
      → Covered db
      → Covered db'
  refund_tx-Covered r db made db' h c =
      let e = refund_tx-Ended p actor now draws r db db' h in
      elim e.how [
        | inl (_, _, _, same) ↦ subst Covered (sym same) (c)
        | inr (_, w) ↦ Written-Covered r e.invoice db db' e.found w c
      ]

  audit-Covered :
      (action : AuditAction) (anchor by_ store : ℕ) (db : Db) (u : Unit {0}) (db' : Db)
      → audit_guaranteed action anchor by_ store db ≡ ok (u, db')
      → Covered db
      → Covered db'
  unfolding audit_guaranteed
  audit-Covered action anchor by_ store db u db' h c =
      subst
        (λ (t : List SettlementRefund × List PaymentReceipt × List MerchantInvoice).
          CoveredRows t.0 t.1 t.2)
        (sym (audit-Preserves action anchor by_ store db u db' h)) (c)

  audit_recorded-Stable :
      (by_ : ℕ) (replayed : Bool) (refund : SettlementRefund)
      → Stable Covered (audit_recorded by_ replayed refund)
  unfolding audit_recorded
  audit_recorded-Stable by_ replayed refund =
      Stable->>= Covered
        (transaction (audit_guaranteed AuditAction.refund_recorded refund.id by_ refund.store_id))
        (λ _. returns (refund, replayed))
        (Stable-transaction Covered
          (audit_guaranteed AuditAction.refund_recorded refund.id by_ refund.store_id)
          (audit-Covered AuditAction.refund_recorded refund.id by_ refund.store_id))
        (λ _ db c. c)

  audited-Stable :
      (r : RefundRequest) (made : Recorded) → Stable Covered (audited p actor now draws r made)
  unfolding audited
  audited-Stable r (existing refund) =
      if_both (Stable Covered)
        (not (eqb_ℤ (minor refund.amount) r.amount_minor && refund.refunded_at == r.refunded_at))
        (λ db c. c) (audit_recorded-Stable actor true refund)
  audited-Stable r (created refund) =
      Stable->>= Covered
        (transaction
          (audit_guaranteed AuditAction.credit_note_issued refund.id actor refund.store_id))
        (λ _. audit_recorded actor false refund)
        (Stable-transaction Covered
          (audit_guaranteed AuditAction.credit_note_issued refund.id actor refund.store_id)
          (audit-Covered AuditAction.credit_note_issued refund.id actor refund.store_id))
        (λ _. audit_recorded-Stable actor false refund)

  -- Whatever a refund call returns, a refusal included, it leaves the refunds of every merchant invoice
  -- within what was collected on it, and the VAT that they reverse within the VAT that it froze, if
  -- they were before.
  pub record_refund-Covered :
      (env : Env) (input : RecordRefundInput) (db : Db)
      → Covered db
      → Covered (record_refund p actor now draws env input db).1
  unfolding record_refund
  record_refund-Covered env input =
      Stable->>= Covered (check (λ db. checked_refund env now input))
        (λ r. transaction (refund_tx p actor now draws r) >>= audited p actor now draws r)
        (λ db c. c)
        (λ r.
          Stable->>= Covered (transaction (refund_tx p actor now draws r))
            (audited p actor now draws r)
            (Stable-transaction Covered (refund_tx p actor now draws r) (refund_tx-Covered r))
            (audited-Stable r))
