-- ===== src/Settlement/Refunds/Conserved.antt =====
-- A refund takes its amount once from what the merchants are due
-- (src/settlement/settlement-refunds.service.ts).
use qift_platform.Prelude.{
  ℕ, Bool, List, [], ◌∷◌, ◌++◌, ◌≡◌, refl, sym, ap, ap₂, ◌∙◌, subst, if◌then◌else◌, inl, inr,
}
use qift_platform.Prelude.Int.{ℤ, pos, ◌+ℤ◌, ◌-ℤ◌, int_laws}
use qift_platform.Prelude.Outcome.{ok}
use qift_platform.Settlement.Store.{
  Db, Item, Receivable, MerchantInvoice, SettlementRefund, Interaction, item_reduced,
  receivable_accrued, ◌>>◌, pure, post,
}
use qift_platform.Settlement.Store.Update.{tx_ok, ok_pair}
use qift_platform.Settlement.Store.Views.{Preserves-post}
use qift_platform.Settlement.Canonical.{Platform}
use qift_platform.Settlement.Call.{◌>>=◌, transaction, call_ok, check_first, transaction_ok}
use qift_platform.Settlement.Execution.{Env}
use qift_platform.Settlement.Refunds.Input.{RecordRefundInput, RefundRequest, minor, checked_refund}
use qift_platform.Settlement.Refunds.Interactions.{is_occurrence, accrue}
use qift_platform.Settlement.Refunds.Rows.{refund_row, refund_posting}
use qift_platform.Settlement.Refunds.Note.{issue_note}
use qift_platform.Settlement.Refunds.{Draws, Recorded, created, write_refund, refund_tx, vat_of}
use qift_platform.Settlement.Refunds.Record.{record_refund, audited}
use qift_platform.Settlement.Refunds.Written.{Written}
use qift_platform.Settlement.Refunds.Ended.{Ended, refund_tx-Ended}
use qift_platform.Settlement.Refunds.Audited.{existing_audited, created_audited}
use qift_platform.Settlement.Refunds.Due.{
  due, DistinctIds, add_zero_ℤ, owed_sum, amount_sum, item_part, owed_part, due_view,
}
use qift_platform.Settlement.Refunds.Taken.{interact-taken}
use qift_platform.Settlement.Refunds.Owed.{accrue-owed, issue_note-due}
use qift_platform.Settlement.Refunds.Shares.{row_amount}

-- The parts of an amount make it up.
one_part : (i : Interaction) (a : ℤ) → item_part i a +ℤ owed_part i a ≡ a
one_part item_reduced a = omega int_laws
one_part receivable_accrued a = omega int_laws

settle_parts :
    (left owed taken accrued : ℤ)
    → left -ℤ (owed +ℤ accrued) +ℤ (taken +ℤ accrued) ≡ left +ℤ taken -ℤ owed
settle_parts left owed taken accrued = omega int_laws

module _ (p : Platform) (actor now : ℕ) (draws : Draws) where
  write_refund-owed :
      (r : RefundRequest) (invoice : MerchantInvoice) (before : List SettlementRefund) (item : Item)
      (refund : SettlementRefund) (db db' : Db) {made : Recorded}
      → minor refund.amount ≡ r.amount_minor
      → write_refund p actor now draws r invoice before item refund db ≡ ok (made, db')
      → (amount_sum db'.items ≡ amount_sum db.items)
        × (owed_sum db'.receivables
            ≡ owed_sum db.receivables +ℤ owed_part refund.settlement_interaction r.amount_minor)
  unfolding write_refund
  write_refund-owed r invoice before item refund db db' {made} same h =
      let d0 : Db = record db { refunds = db.refunds ++ refund ∷ [] } in
      let note = issue_note p actor now draws.note_id draws.references r.issuance invoice refund in
      let posting = post (refund_posting actor refund) in
      let owed =
        accrue actor draws.receivable_id item before r.amount_minor refund
          refund.settlement_interaction in
      let (n1, d1, noted, h1) = tx_ok note (λ _. posting >> (owed >> pure (created refund))) d0 h in
      let (n2, d2, posted_, h2) = tx_ok posting (λ _. owed >> pure (created refund)) d1 h1 in
      let (n3, d3, owed_, h3) = tx_ok owed (λ _. pure (created refund)) d2 h2 in
      let last = (ok_pair (created refund) made d3 db' h3).1 in
      let kept =
        Preserves-post due_view (λ _ _. refl) (refund_posting actor refund) d1 n2 d2 posted_
        ∙ issue_note-due p actor now draws.note_id draws.references r.issuance invoice refund d0 n1
            d1 noted in
      let (items_, sums) =
        accrue-owed actor draws.receivable_id item before r.amount_minor refund
          refund.settlement_interaction d2 d3 same owed_ in
      (
        ap (λ (d : Db). amount_sum d.items) (sym last)
            ∙ items_
            ∙ ap (λ (t : ℤ × List Receivable). t.0) kept,
        ap (λ (d : Db). owed_sum d.receivables) (sym last)
            ∙ sums
            ∙ ap
                (λ (t : ℤ × List Receivable).
                  owed_sum t.1 +ℤ owed_part refund.settlement_interaction r.amount_minor)
                kept,
      )

  Written-due :
      (r : RefundRequest) (invoice : MerchantInvoice) (db db' : Db) {made : Recorded}
      → DistinctIds db.items
      → Written p actor now draws r invoice db db' made
      → due db' +ℤ r.amount_minor ≡ due db
  unfolding refund_row
  Written-due r invoice db db' distinct w =
      let vat = vat_of p actor now draws r invoice db.refunds in
      let row = refund_row actor draws.refund_id r invoice vat w.interaction in
      let (taken, same) =
        interact-taken w.item.state (is_occurrence invoice.id) w.item r.amount_minor db
          w.settled_mid w.interaction distinct w.there w.interacted in
      let (items_, sums) =
        write_refund-owed r invoice db.refunds w.item row w.settled_mid db'
          (row_amount actor draws.refund_id r invoice vat w.interaction) w.wrote in
      let taken_ = item_part w.interaction r.amount_minor in
      let owed_ = owed_part w.interaction r.amount_minor in
      let left = amount_sum w.settled_mid.items in
      let before = owed_sum db.receivables in
      ap₂ (λ (x y : ℤ). x -ℤ y +ℤ r.amount_minor) items_
        (sums ∙ ap (λ (l : List Receivable). owed_sum l +ℤ owed_) same)
      ∙ ap (λ (z : ℤ). left -ℤ (before +ℤ owed_) +ℤ z) (sym (one_part w.interaction r.amount_minor))
      ∙ settle_parts left before taken_ owed_
      ∙ ap (λ (z : ℤ). z -ℤ before) taken

  Ended-due :
      (r : RefundRequest) (made : Recorded) (db mid db' : Db) (refund : SettlementRefund)
      (replayed : Bool)
      → DistinctIds db.items
      → Ended p actor now draws r db mid made
      → audited p actor now draws r made mid ≡ (ok (refund, replayed), db')
      → due db' +ℤ (if replayed then pos 0 else minor refund.amount) ≡ due db
  Ended-due r made db mid db' refund replayed distinct e h = elim e.how [
    | inl (old, there, is_old, same) ↦
        let (agrees, is_refund, after, flag) =
          existing_audited p actor now draws r old refund mid db' (
            subst
              (λ (m : Recorded). audited p actor now draws r m mid ≡ (ok (refund, replayed), db'))
              is_old (h)) in
        subst (λ (b : Bool). due db' +ℤ (if b then pos 0 else minor refund.amount) ≡ due db) flag
          (ap (λ (d : Db). due d +ℤ pos 0) (sym after)
            ∙ ap (λ (d : Db). due d +ℤ pos 0) same
            ∙ add_zero_ℤ (due db))
    | inr (absent, w) ↦
        let vat = vat_of p actor now draws r e.invoice db.refunds in
        let row = refund_row actor draws.refund_id r e.invoice vat w.interaction in
        let (is_refund, after, flag) = created_audited p actor now draws r row refund mid db' (
          subst (λ (m : Recorded). audited p actor now draws r m mid ≡ (ok (refund, replayed), db'))
            w.is_created (h)) in
        subst (λ (b : Bool). due db' +ℤ (if b then pos 0 else minor refund.amount) ≡ due db) flag
          (ap (λ (d : Db). due d +ℤ minor refund.amount) (sym after)
            ∙ ap (λ (x : SettlementRefund). due mid +ℤ minor x.amount) (sym is_refund)
            ∙ ap (λ (z : ℤ). due mid +ℤ z)
                (row_amount actor draws.refund_id r e.invoice vat w.interaction)
            ∙ Written-due r e.invoice db mid distinct w)
  ]

  -- A refund call that returned took the amount of the refund from what the merchants are due, which is
  -- the sum of the items less the receivables, if it recorded a movement, and nothing if it found the
  -- movement recorded; the item rows are told apart by their identifiers.
  pub record_refund_conserves :
      (env : Env) (input : RecordRefundInput) (db db' : Db) (refund : SettlementRefund)
      (replayed : Bool)
      → DistinctIds db.items
      → record_refund p actor now draws env input db ≡ (ok (refund, replayed), db')
      → due db' +ℤ (if replayed then pos 0 else minor refund.amount) ≡ due db
  unfolding record_refund
  record_refund_conserves env input db db' refund replayed distinct h =
      let (r, checked, rest) =
        check_first (λ d. checked_refund env now input)
          (λ r. transaction (refund_tx p actor now draws r) >>= audited p actor now draws r) db h in
      let (made, mid, moved, audits) =
        call_ok (transaction (refund_tx p actor now draws r)) (audited p actor now draws r) db
          rest in
      let e =
        refund_tx-Ended p actor now draws r db mid
          (transaction_ok (refund_tx p actor now draws r) db mid moved) in
      Ended-due r made db mid db' refund replayed distinct e audits
