-- ===== src/Settlement/Refunds/Owed.antt =====
-- What a refund makes a receivable of the merchant
-- (src/settlement/settlement-refunds.service.ts).
use Prim.Native.String.{String}
use qift_platform.Prelude.{
  ℕ, Bool, true, false, not, ◌&&◌, List, [], ◌∷◌, ◌++◌, ◌≡◌, refl, sym, ap, ◌∙◌, ◌==◌, Bool-cases,
  inl, inr, arith,
}
use qift_platform.Prelude.Int.{ℤ, pos, ◌+ℤ◌, leb_ℤ, +ℤ_assoc, int_laws}
use qift_platform.Prelude.Outcome.{ok}
use qift_platform.Settlement.States.{ItemState, item_eq, assert_item_transition}
use qift_platform.Settlement.Store.{
  Db, MerchantInvoice, Item, Receivable, SettlementRefund, Interaction, item_reduced,
  receivable_accrued, update_many, count, Tx, ◌>>=◌, ◌>>◌, gets, throw_when, modify, lift, post,
}
use qift_platform.Settlement.Store.Update.{ok_pair, tx_ok}
use qift_platform.Settlement.Errors.{settlement_items_contended}
use qift_platform.Settlement.Store.Views.{Preserves, Preserves->>=, Preserves-lift, Preserves-post}
use qift_platform.Settlement.Canonical.{Platform}
use qift_platform.Settlement.Refunds.Note.{IssuanceInput, issue_note}
use qift_platform.Settlement.Refunds.Input.{minor}
use qift_platform.Settlement.Refunds.Interactions.{
  is_settled_item, flip, flip_if, accrue, clawed_minor,
}
use qift_platform.Settlement.Refunds.Rows.{receivable_row, receivable_posting}
use qift_platform.Settlement.Refunds.Due.{add_zero_ℤ, owed_sum, amount_sum, owed_part, due_view}

+ℤ_comm : (a b : ℤ) → a +ℤ b ≡ b +ℤ a
+ℤ_comm a b = omega int_laws

-- An update that leaves the amounts leaves their sum.
sum-update_many_same :
    (p : Item → Bool) (f : Item → Item) (rows : List Item)
    → ((x : Item) → minor (f x).amount ≡ minor x.amount)
    → amount_sum (update_many p f rows) ≡ amount_sum rows
unfolding update_many
sum-update_many_same p f [] h = refl
sum-update_many_same p f (x ∷ rows) h = elim (Bool-cases (p x)) [
  | inl hit ↦ rw (hit, h x, sum-update_many_same p f rows h) refl
  | inr miss ↦ rw (miss, sum-update_many_same p f rows h) refl
]

abbrev flip_rows : Item → Tx (Unit {0})
flip_rows item = gets (λ db. count (is_settled_item item) db.items) >>= λ flipped.
    throw_when (not (flipped == 1)) settlement_items_contended
    >> modify (λ db. record db {
      items =
          update_many (is_settled_item item)
            (λ (row : Item). record row { state = ItemState.reversed }) db.items;
    })

flip_rows-Preserves : (item : Item) → Preserves due_view (flip_rows item)
flip_rows-Preserves item db u db' h =
    elim (Bool-cases (not (count (is_settled_item item) db.items == 1))) [
      | inl contended ↦ let bad = rw contended at h in absurd (cc)
      | inr one ↦
          ap due_view (sym (ok_pair tt u _ db' (rw one at h)).1)
          ∙ ap (λ (z : ℤ). (z, db.receivables))
              (sum-update_many_same (is_settled_item item)
                (λ (row : Item). record row { state = ItemState.reversed }) db.items (λ _. refl))
    ]

flip_if-Preserves : (full : Bool) (item : Item) → Preserves due_view (flip_if full item)
unfolding flip
flip_if-Preserves true item db u db' h =
    let asserted = assert_item_transition ItemState.settled ItemState.reversed in
    let (v, mid, lifted, rest) = tx_ok (lift asserted) (λ _. flip_rows item) db h in
    flip_rows-Preserves item mid u db' rest ∙ Preserves-lift due_view asserted db v mid lifted
flip_if-Preserves false item db u db' h = ap due_view (sym (ok_pair tt u db db' h).1)

owed-append :
    (rows : List Receivable) (r : Receivable)
    → owed_sum (rows ++ r ∷ []) ≡ owed_sum rows +ℤ minor r.amount
owed-append [] r = +ℤ_comm (minor r.amount) (pos 0)
owed-append (x ∷ rows) r =
    ap (λ (z : ℤ). minor x.amount +ℤ z) (owed-append rows r)
    ∙ sym (+ℤ_assoc (minor x.amount) (owed_sum rows) (minor r.amount))

row_owes :
    (fresh : ℕ) (refund : SettlementRefund)
    → minor (receivable_row fresh refund).amount ≡ minor refund.amount
unfolding receivable_row
row_owes fresh refund = refl

-- A receivable of the amount, or nothing.
pub accrue-owed :
    (actor fresh : ℕ) (item : Item) (before : List SettlementRefund) (amount : ℤ)
    (refund : SettlementRefund) (i : Interaction) (db db' : Db) {u : Unit {0}}
    → minor refund.amount ≡ amount
    → accrue actor fresh item before amount refund i db ≡ ok (u, db')
    → (amount_sum db'.items ≡ amount_sum db.items)
      × (owed_sum db'.receivables ≡ owed_sum db.receivables +ℤ owed_part i amount)
unfolding accrue
accrue-owed actor fresh item before amount refund item_reduced db db' {u} same h =
    let moved = (ok_pair tt u db db' h).1 in
    (
      ap (λ (d : Db). amount_sum d.items) (sym moved),
      ap (λ (d : Db). owed_sum d.receivables) (sym moved)
          ∙ sym (add_zero_ℤ (owed_sum db.receivables)),
    )
accrue-owed actor fresh item before amount refund receivable_accrued db db' {u} same h =
    let full =
      item_eq item.state ItemState.settled
      && leb_ℤ (minor item.amount) (clawed_minor refund.invoice_id before amount) in
    let owed = record db { receivables = db.receivables ++ receivable_row fresh refund ∷ [] } in
    let kept =
      Preserves->>= due_view (post (receivable_posting actor refund)) (λ _. flip_if full item)
        (Preserves-post due_view (λ _ _. refl) (receivable_posting actor refund))
        (λ _. flip_if-Preserves full item) owed u db' h in
    (
      ap (λ (t : ℤ × List Receivable). t.0) kept,
      ap (λ (t : ℤ × List Receivable). owed_sum t.1) kept
          ∙ owed-append db.receivables (receivable_row fresh refund)
          ∙ ap (λ (z : ℤ). owed_sum db.receivables +ℤ z) (row_owes fresh refund ∙ same),
    )

pub issue_note-due :
    (p : Platform) (actor now fresh : ℕ) (candidates : List String) (input : IssuanceInput)
    (invoice : MerchantInvoice) (refund : SettlementRefund)
    → Preserves due_view (issue_note p actor now fresh candidates input invoice refund)
unfolding issue_note
issue_note-due p actor now fresh candidates input invoice refund db a db' h = ground arith
