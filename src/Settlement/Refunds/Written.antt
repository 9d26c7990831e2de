-- ===== src/Settlement/Refunds/Written.antt =====
-- What the transaction of a refund in src/settlement/settlement-refunds.service.ts did when it committed.
use text.Mathlib.Text.{◌==◌ as str_eq}
use qift_platform.Prelude.{
  ℕ, false, not, Option, none, some, List, [], ◌∷◌, ◌++◌, ◌≡◌, refl, sym, ap, ◌∙◌, subst, find,
  Bool-cases, inl, inr,
}
use qift_platform.Prelude.Int.{◌+ℤ◌, ltb_ℤ}
use qift_platform.Prelude.Outcome.{ok}
use qift_platform.Settlement.Errors.{SettlementError, settlement_item_missing}
use qift_platform.Settlement.Store.{
  Db, Item, MerchantInvoice, PaymentReceipt, SettlementRefund, Interaction, Tx, ◌>>=◌, ◌>>◌, pure,
  post, or_throw,
}
use qift_platform.Settlement.Store.Update.{tx_ok, ok_pair}
use qift_platform.Settlement.Store.Views.{Preserves, Preserves->>=, Preserves-pure, Preserves-post}
use qift_platform.Settlement.Canonical.{Platform}
use qift_platform.Settlement.Refunds.Input.{RefundRequest}
use qift_platform.Settlement.Refunds.{Recorded, created, Draws, write_refund, new_refund, vat_of}
use qift_platform.Settlement.Refunds.Amounts.{refunded_minor, received_minor}
use qift_platform.Settlement.Refunds.Interactions.{is_occurrence, interact, accrue}
use qift_platform.Settlement.Refunds.Rows.{refund_row, refund_posting}
use qift_platform.Settlement.Refunds.Note.{issue_note}
use qift_platform.Settlement.Refunds.Sums.{
  sums_view, interact-Preserves, accrue-Preserves, issue_note-Preserves,
}

pub or_throw_tables :
    {A : Type 0} (o : Option A) (e : SettlementError) (db db' : Db) {a : A}
    → or_throw o e db ≡ ok (a, db')
    → db ≡ db'
or_throw_tables none e db db' h = cc
or_throw_tables (some b) e db db' {a} h = (ok_pair b a db db' h).1

pub or_throw_value :
    {A : Type 0} (o : Option A) (e : SettlementError) (db db' : Db) {a : A}
    → or_throw o e db ≡ ok (a, db')
    → o ≡ some a
or_throw_value none e db db' h = cc
or_throw_value (some b) e db db' {a} h = ap some (ok_pair b a db db' h).0

module _ (p : Platform) (actor now : ℕ) (draws : Draws) where
  -- What follows the row of a refund.
  abbrev pub after_row :
      RefundRequest
      → MerchantInvoice
      → List SettlementRefund
      → Item
      → SettlementRefund
      → Tx Recorded
  after_row r invoice before item refund =
      issue_note p actor now draws.note_id draws.references r.issuance invoice refund
      >> (post (refund_posting actor refund)
          >> (accrue actor draws.receivable_id item before r.amount_minor refund
                refund.settlement_interaction
              >> pure (created refund)))

  after_row-Preserves :
      (r : RefundRequest) (invoice : MerchantInvoice) (before : List SettlementRefund) (item : Item)
      (refund : SettlementRefund)
      → Preserves sums_view (after_row r invoice before item refund)
  after_row-Preserves r invoice before item refund =
      let note = issue_note p actor now draws.note_id draws.references r.issuance invoice refund in
      let posting = post (refund_posting actor refund) in
      let owed =
        accrue actor draws.receivable_id item before r.amount_minor refund
          refund.settlement_interaction in
      Preserves->>= sums_view note (λ _. posting >> (owed >> pure (created refund)))
        (issue_note-Preserves p actor now draws.note_id draws.references r.issuance invoice refund)
        (λ _.
          Preserves->>= sums_view posting (λ _. owed >> pure (created refund))
            (Preserves-post sums_view (λ _ _. refl) (refund_posting actor refund))
            (λ _.
              Preserves->>= sums_view owed (λ _. pure (created refund))
                (accrue-Preserves actor draws.receivable_id item before r.amount_minor refund
                  refund.settlement_interaction)
                (λ _. Preserves-pure sums_view (created refund))))

  after_row_value :
      (r : RefundRequest) (invoice : MerchantInvoice) (before : List SettlementRefund) (item : Item)
      (refund : SettlementRefund) (db db' : Db) {made : Recorded}
      → after_row r invoice before item refund db ≡ ok (made, db')
      → created refund ≡ made
  after_row_value r invoice before item refund db db' {made} h =
      let note = issue_note p actor now draws.note_id draws.references r.issuance invoice refund in
      let posting = post (refund_posting actor refund) in
      let owed =
        accrue actor draws.receivable_id item before r.amount_minor refund
          refund.settlement_interaction in
      let (_, d1, _, h1) = tx_ok note (λ _. posting >> (owed >> pure (created refund))) db h in
      let (_, d2, _, h2) = tx_ok posting (λ _. owed >> pure (created refund)) d1 h1 in
      let (_, d3, _, h3) = tx_ok owed (λ _. pure (created refund)) d2 h2 in
      (ok_pair (created refund) made d3 db' h3).0

  -- A refund that was written: its row is the last one, and it was within what was collected.
  pub record Written (r : RefundRequest) (invoice : MerchantInvoice) (db db' : Db) (made : Recorded)
      : Type 0 where
    pub interaction : Interaction
    pub is_created :
        made
        ≡ created (
            refund_row actor draws.refund_id r invoice
              (vat_of p actor now draws r invoice db.refunds)
              interaction)
    pub within :
        ltb_ℤ
          (received_minor invoice.id db.receipts)
          (refunded_minor invoice.id db.refunds +ℤ r.amount_minor)
        ≡ false
    pub item : Item
    pub there : find (is_occurrence invoice.id) db.items ≡ some item
    pub settled_mid : Db
    pub interacted : interact item.state item r.amount_minor db ≡ ok (interaction, settled_mid)
    pub wrote :
        write_refund p actor now draws r invoice db.refunds item
          (refund_row actor draws.refund_id r invoice
            (vat_of p actor now draws r invoice db.refunds)
            interaction)
          settled_mid
        ≡ ok (made, db')
    pub view : sums_view db' ≡ (
      db.refunds
          ++ refund_row actor draws.refund_id r invoice
              (vat_of p actor now draws r invoice db.refunds)
              interaction
            ∷ [],
      db.receipts,
      db.invoices,
    )

  row_done :
      (r : RefundRequest) (invoice : MerchantInvoice) (item : Item) (db db' : Db) {made : Recorded}
      → ltb_ℤ
          (received_minor invoice.id db.receipts)
          (refunded_minor invoice.id db.refunds +ℤ r.amount_minor)
        ≡ false
      → find (is_occurrence invoice.id) db.items ≡ some item
      → (interact item.state item r.amount_minor >>= λ interaction.
            write_refund p actor now draws r invoice db.refunds item (
              refund_row actor draws.refund_id r invoice
                (vat_of p actor now draws r invoice db.refunds)
                interaction))
          db
        ≡ ok (made, db')
      → Written r invoice db db' made
  unfolding write_refund
  row_done r invoice item db db' {made} fits there h =
      let vat = vat_of p actor now draws r invoice db.refunds in
      let (interaction, mid, done, rest) =
        tx_ok (interact item.state item r.amount_minor)
          (λ interaction.
            write_refund p actor now draws r invoice db.refunds item
              (refund_row actor draws.refund_id r invoice vat interaction))
          db h in
      let row = refund_row actor draws.refund_id r invoice vat interaction in
      let kept = interact-Preserves item.state item r.amount_minor db interaction mid done in
      let appended = record mid { refunds = mid.refunds ++ row ∷ [] } in
      record {
        interaction = interaction;
        is_created = sym (after_row_value r invoice db.refunds item row appended db' rest);
        within = fits;
        item = item;
        there = there;
        settled_mid = mid;
        interacted = done;
        wrote = rest;
        view =
            after_row-Preserves r invoice db.refunds item row appended made db' rest
            ∙ ap
                (λ (t : List SettlementRefund × List PaymentReceipt × List MerchantInvoice).
                  (t.0 ++ row ∷ [], t.1, t.2))
                kept;
      }

  pub new_refund-Written :
      (r : RefundRequest) (invoice : MerchantInvoice) (db db' : Db) {made : Recorded}
      → new_refund p actor now draws r invoice db ≡ ok (made, db')
      → Written r invoice db db' made
  unfolding new_refund write_refund
  new_refund-Written r invoice db db' {made} h =
      let exceeds =
        ltb_ℤ (received_minor invoice.id db.receipts)
          (refunded_minor invoice.id db.refunds +ℤ r.amount_minor) in
      elim (Bool-cases (not (str_eq invoice.status "paid"))) [
        | inl unpaid ↦ let bad = rw unpaid at h in absurd (cc)
        | inr paid ↦ elim (Bool-cases exceeds) [
          | inl over ↦ let bad = rw (paid, over) at h in absurd (cc)
          | inr fits ↦
              let (item, mid, there, rest) =
                tx_ok
                  (λ d.
                    or_throw (find (is_occurrence invoice.id) d.items) settlement_item_missing d)
                  (λ item. interact item.state item r.amount_minor >>= λ interaction.
                    write_refund p actor now draws r invoice db.refunds item (
                      refund_row actor draws.refund_id r invoice
                        (vat_of p actor now draws r invoice db.refunds) interaction))
                  db (rw (paid, fits) at h) in
              let same =
                or_throw_tables (find (is_occurrence invoice.id) db.items) settlement_item_missing
                  db mid there in
              row_done r invoice item db db' fits
                (or_throw_value (find (is_occurrence invoice.id) db.items) settlement_item_missing
                  db mid there)
                (subst
                  (λ (d : Db).
                    (interact item.state item r.amount_minor >>= λ interaction.
                    write_refund p actor now draws r invoice db.refunds item (
                      refund_row actor draws.refund_id r invoice
                        (vat_of p actor now draws r invoice db.refunds) interaction))
                      d
                    ≡ ok (made, db'))
                  (sym same) (rest))
        ]
      ]
