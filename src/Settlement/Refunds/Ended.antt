-- ===== src/Settlement/Refunds/Ended.antt =====
-- How the transaction of a refund in src/settlement/settlement-refunds.service.ts ended.
use text.Mathlib.Text.{◌==◌ as str_eq}
use qift_platform.Prelude.{
  ℕ, false, not, Option, none, some, ◌⊎◌, ◌≡◌, refl, sym, subst, find, Bool-cases, inl, inr,
}
use qift_platform.Prelude.Outcome.{ok}
use qift_platform.Settlement.Errors.{invoice_not_found, refund_currency_unsupported}
use qift_platform.Settlement.Store.{
  Db, MerchantInvoice, SettlementRefund, ◌>>=◌, ◌>>◌, or_throw, throw_when, gets,
}
use qift_platform.Settlement.Store.Update.{tx_ok, ok_pair}
use qift_platform.Settlement.Canonical.{Platform}
use qift_platform.Settlement.Refunds.Input.{RefundRequest}
use qift_platform.Settlement.Refunds.{
  Recorded, existing, Draws, found_or_new, refund_tx, has_invoice_id,
}
use qift_platform.Settlement.Refunds.Amounts.{has_evidence}
use qift_platform.Settlement.Refunds.Written.{
  Written, new_refund-Written, or_throw_tables, or_throw_value,
}

module _ (p : Platform) (actor now : ℕ) (draws : Draws) where
  -- How a transaction ended: the movement was there already, or its row was written.
  pub record Ended (r : RefundRequest) (db db' : Db) (made : Recorded) : Type 0 where
    pub invoice : MerchantInvoice
    pub found : find (has_invoice_id r.invoice_id) db.invoices ≡ some invoice
    pub riyals : not (str_eq invoice.currency "SAR") ≡ false
    pub how :
        ((refund : SettlementRefund) × (find (has_evidence invoice.id r.evidence_ref) db.refunds
            ≡ some refund)
          × (made ≡ existing refund)
          × (db' ≡ db))
        ⊎ ((find (has_evidence invoice.id r.evidence_ref) db.refunds ≡ none)
            × Written p actor now draws r invoice db db' made)

  found_or_new_cases :
      (r : RefundRequest) (invoice : MerchantInvoice) (old : Option SettlementRefund) (db db' : Db)
      {made : Recorded}
      → found_or_new p actor now draws r invoice old db ≡ ok (made, db')
      → ((refund : SettlementRefund) × (old ≡ some refund) × (made ≡ existing refund) × (db' ≡ db))
        ⊎ ((old ≡ none) × Written p actor now draws r invoice db db' made)
  unfolding found_or_new
  found_or_new_cases r invoice (some refund) db db' {made} h =
      let (value, same) = ok_pair (existing refund) made db db' h in
      inl (refund, refl, sym value, sym same)
  found_or_new_cases r invoice none db db' h =
      inr (refl, new_refund-Written p actor now draws r invoice db db' h)

  ended :
      (r : RefundRequest) (invoice : MerchantInvoice) (db db' : Db) {made : Recorded}
      → find (has_invoice_id r.invoice_id) db.invoices ≡ some invoice
      → (throw_when (not (str_eq invoice.currency "SAR")) refund_currency_unsupported
            >> (gets (λ d. find (has_evidence invoice.id r.evidence_ref) d.refunds) >>= λ old.
                found_or_new p actor now draws r invoice old))
          db
        ≡ ok (made, db')
      → Ended r db db' made
  ended r invoice db db' found h = elim (Bool-cases (not (str_eq invoice.currency "SAR"))) [
    | inl other ↦ let bad = rw other at h in absurd (cc)
    | inr riyals ↦ record {
      invoice = invoice;
      found = found;
      riyals = riyals;
      how =
          found_or_new_cases r invoice (find (has_evidence invoice.id r.evidence_ref) db.refunds) db
            db' (rw riyals at h);
    }
  ]

  pub refund_tx-Ended :
      (r : RefundRequest) (db db' : Db) {made : Recorded}
      → refund_tx p actor now draws r db ≡ ok (made, db')
      → Ended r db db' made
  unfolding refund_tx
  refund_tx-Ended r db db' {made} h =
      let (invoice, mid, there, rest) =
        tx_ok (λ d. or_throw (find (has_invoice_id r.invoice_id) d.invoices) invoice_not_found d)
          (λ invoice.
            throw_when (not (str_eq invoice.currency "SAR")) refund_currency_unsupported
            >> (gets (λ d. find (has_evidence invoice.id r.evidence_ref) d.refunds) >>= λ old.
                found_or_new p actor now draws r invoice old))
          db h in
      let same =
        or_throw_tables (find (has_invoice_id r.invoice_id) db.invoices) invoice_not_found db mid
          there in
      let found =
        or_throw_value (find (has_invoice_id r.invoice_id) db.invoices) invoice_not_found db mid
          there in
      ended r invoice db db' found (
        subst
          (λ (d : Db).
            (throw_when (not (str_eq invoice.currency "SAR")) refund_currency_unsupported
                >> (gets (λ d. find (has_evidence invoice.id r.evidence_ref) d.refunds) >>= λ old.
                    found_or_new p actor now draws r invoice old))
              d
            ≡ ok (made, db'))
          (sym same) (rest))
