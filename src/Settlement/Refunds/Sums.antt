-- ===== src/Settlement/Refunds/Sums.antt =====
-- The sums over the refunds of an invoice, and what a refund of src/settlement/settlement-refunds.service.ts
-- leaves of the tables that they are taken over.
use Prim.Native.String.{String}
use qift_platform.Prelude.{
  ℕ, Bool, ◌&&◌, List, [], ◌∷◌, ◌++◌, ◌≡◌, refl, filter, map, if◌then◌else◌, Bool-cases, inl, inr,
  arith,
}
use qift_platform.Prelude.Int.{ℤ, pos, ◌+ℤ◌, leb_ℤ, sum_ℤ, int_laws}
use qift_platform.Settlement.Errors.{item_bound_supersede_first, item_disputed}
use qift_platform.Settlement.States.{ItemState, item_eq}
use qift_platform.Settlement.Store.{
  Db, AuditAction, Item, SettlementRefund, PaymentReceipt, MerchantInvoice, Interaction,
  item_reduced, receivable_accrued, post,
}
use qift_platform.Settlement.Store.Views.{
  Preserves, Preserves->>=, Preserves-pure, Preserves-throw, Preserves-if, Preserves-post,
}
use qift_platform.Settlement.Engine.Assemble.{audit_guaranteed}
use qift_platform.Settlement.Canonical.{Platform}
use qift_platform.Settlement.Refunds.Input.{minor}
use qift_platform.Settlement.Refunds.Interactions.{
  shrink, interact, flip, flip_if, accrue, clawed_minor,
}
use qift_platform.Settlement.Refunds.Rows.{receivable_row, receivable_posting}
use qift_platform.Settlement.Refunds.Note.{IssuanceInput, issue_note}

-- What one more row adds to a sum over the rows that match.
module _ (p : SettlementRefund → Bool) (f : SettlementRefund → ℤ) where
  abbrev pub share : SettlementRefund → ℤ
  share r = if p r then f r else pos 0

  pub sum-append_row :
      (rows : List SettlementRefund) (r : SettlementRefund)
      → sum_ℤ (map f (filter p (rows ++ r ∷ []))) ≡ sum_ℤ (map f (filter p rows)) +ℤ share r
  sum-append_row [] r = elim (Bool-cases (p r)) [
    | inl hit ↦ rw (hit) (omega int_laws)
    | inr miss ↦ rw (miss) (omega int_laws)
  ]
  sum-append_row (x ∷ rows) r = elim (Bool-cases (p x)) [
    | inl hit ↦ rw (hit, sum-append_row rows r) (omega int_laws)
    | inr miss ↦ rw (miss) (sum-append_row rows r)
  ]

-- The tables that the sums are over.
abbrev pub sums_view : Db → List SettlementRefund × List PaymentReceipt × List MerchantInvoice
sums_view db = (db.refunds, db.receipts, db.invoices)

shrink-Preserves : (item : Item) (amount : ℤ) → Preserves sums_view (shrink item amount)
unfolding shrink
shrink-Preserves item amount db a db' h = ground arith

pub interact-Preserves :
    (state : ItemState) (item : Item) (amount : ℤ)
    → Preserves sums_view (interact state item amount)
unfolding interact
interact-Preserves ItemState.ready item amount =
    Preserves-throw sums_view item_bound_supersede_first
interact-Preserves ItemState.disputed item amount = Preserves-throw sums_view item_disputed
interact-Preserves ItemState.settled item amount = Preserves-pure sums_view receivable_accrued
interact-Preserves ItemState.reversed item amount = Preserves-pure sums_view receivable_accrued
interact-Preserves ItemState.pending item amount = shrink-Preserves item amount
interact-Preserves ItemState.eligible item amount = shrink-Preserves item amount
interact-Preserves ItemState.held item amount = shrink-Preserves item amount

flip-Preserves : (item : Item) → Preserves sums_view (flip item)
unfolding flip
flip-Preserves item db a db' h = ground arith

pub accrue-Preserves :
    (actor fresh : ℕ) (item : Item) (before : List SettlementRefund) (amount : ℤ)
    (refund : SettlementRefund) (interaction : Interaction)
    → Preserves sums_view (accrue actor fresh item before amount refund interaction)
unfolding accrue
accrue-Preserves actor fresh item before amount refund item_reduced db a db' h =
    Preserves-pure sums_view tt db a db' h
accrue-Preserves actor fresh item before amount refund receivable_accrued db a db' h =
    let owed = record db { receivables = db.receivables ++ receivable_row fresh refund ∷ [] } in
    let full =
      item_eq item.state ItemState.settled
      && leb_ℤ (minor item.amount) (clawed_minor refund.invoice_id before amount) in
    Preserves->>= sums_view (post (receivable_posting actor refund)) (λ _. flip_if full item)
      (Preserves-post sums_view (λ _ _. refl) (receivable_posting actor refund))
      (λ _. Preserves-if sums_view full (flip-Preserves item) (Preserves-pure sums_view tt)) owed a
      db' h

pub issue_note-Preserves :
    (p : Platform) (actor now fresh : ℕ) (candidates : List String) (input : IssuanceInput)
    (invoice : MerchantInvoice) (refund : SettlementRefund)
    → Preserves sums_view (issue_note p actor now fresh candidates input invoice refund)
unfolding issue_note
issue_note-Preserves p actor now fresh candidates input invoice refund db a db' h = ground arith

pub audit-Preserves :
    (action : AuditAction) (anchor actor store : ℕ)
    → Preserves sums_view (audit_guaranteed action anchor actor store)
unfolding audit_guaranteed
audit-Preserves action anchor actor store db u db' h = ground arith
