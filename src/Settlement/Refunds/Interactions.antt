-- ===== src/Settlement/Refunds/Interactions.antt =====
-- What a refund does to the settlement of its occurrence: the item shrinks, or the merchant owes a
-- receivable (src/settlement/settlement-refunds.service.ts).
use text.Mathlib.Text.{◌==◌ as str_eq}
use qift_platform.Prelude.{
  ℕ, ◌==◌, Bool, true, false, not, ◌&&◌, none, List, [], ◌∷◌, ◌++◌, filter, map, if◌then◌else◌,
}
use qift_platform.Prelude.Int.{ℤ, pos, ◌+ℤ◌, ◌-ℤ◌, sum_ℤ, ltb_ℤ, leb_ℤ}
use qift_platform.Money.{CurrencyCode, from_minor}
use qift_platform.Ledger.{option_eq}
use qift_platform.Settlement.Errors.{
  item_bound_supersede_first, item_disputed, refund_exceeds_item, settlement_items_contended,
}
use qift_platform.Settlement.States.{ItemState, item_eq, assert_item_transition}
use qift_platform.Settlement.Store.{
  Item, Interaction, item_reduced, receivable_accrued, SettlementRefund, Tx, ◌>>=◌, ◌>>◌, pure,
  throw, gets, lift, throw_when, modify, update_many, count, post,
}
use qift_platform.Settlement.Refunds.Input.{minor}
use qift_platform.Settlement.Refunds.Amounts.{refund_of}
use qift_platform.Settlement.Refunds.Rows.{receivable_posting, receivable_row}

abbrev pub is_occurrence : ℕ → Item → Bool
is_occurrence invoice i = str_eq i.occurrence_type "merchant_invoice" && i.occurrence_id == invoice

-- The row that may shrink: the item, in the state that was read, and in no batch.
abbrev pub may_shrink : Item → Item → Bool
may_shrink item row =
    row.id == item.id && (item_eq row.state item.state && option_eq row.batch_id none)

unfoldable pub shrink : Item → (amount_minor : ℤ) → Tx Interaction
shrink item amount_minor = do
  let left = from_minor CurrencyCode.sar (minor item.amount -ℤ amount_minor)
  throw_when (ltb_ℤ left (pos 0)) refund_exceeds_item
  shrunk ← gets (λ db. count (may_shrink item) db.items)
  throw_when (not (shrunk == 1)) settlement_items_contended
  modify (λ db. record db {
    items = update_many (may_shrink item) (λ (row : Item). record row { amount = left }) db.items;
  })
  pure item_reduced

-- The interaction, by the state of the item.
unfoldable pub interact : ItemState → Item → (amount_minor : ℤ) → Tx Interaction
unfolding shrink
interact ItemState.ready item amount = throw item_bound_supersede_first
interact ItemState.disputed item amount = throw item_disputed
interact ItemState.settled item amount = pure receivable_accrued
interact ItemState.reversed item amount = pure receivable_accrued
interact ItemState.pending item amount = shrink item amount
interact ItemState.eligible item amount = shrink item amount
interact ItemState.held item amount = shrink item amount

abbrev pub is_clawback : SettlementRefund → Bool
is_clawback r = elim r.settlement_interaction [ receivable_accrued ↦ true | item_reduced ↦ false ]

-- `clawedMinor`, over the refunds that were read before this one.
unfoldable pub clawed_minor : ℕ → List SettlementRefund → (amount_minor : ℤ) → ℤ
clawed_minor invoice rows amount_minor =
    sum_ℤ (
      map (λ (r : SettlementRefund). minor r.amount)
        (filter is_clawback (filter (refund_of invoice) rows)))
    +ℤ amount_minor

abbrev pub is_settled_item : Item → Item → Bool
is_settled_item item row = row.id == item.id && item_eq row.state ItemState.settled

-- A settled item that is clawed back in full is reversed.
unfoldable pub flip : Item → Tx (Unit {0})
flip item = do
  lift (assert_item_transition ItemState.settled ItemState.reversed)
  flipped ← gets (λ db. count (is_settled_item item) db.items)
  throw_when (not (flipped == 1)) settlement_items_contended
  modify (λ db. record db {
    items =
        update_many (is_settled_item item)
          (λ (row : Item). record row { state = ItemState.reversed }) db.items;
  })

abbrev pub flip_if : Bool → Item → Tx (Unit {0})
flip_if full item = if full then flip item else pure tt

-- The receivable of a clawback, its posting, and the reversal of the item.
unfoldable pub accrue :
    (actor fresh : ℕ)
    → Item
    → List SettlementRefund
    → (amount_minor : ℤ) → SettlementRefund
    → Interaction
    → Tx (Unit {0})
unfolding receivable_row receivable_posting flip
accrue actor fresh item before amount_minor refund item_reduced = pure tt
accrue actor fresh item before amount_minor refund receivable_accrued = do
  let clawed = clawed_minor refund.invoice_id before amount_minor
  modify (λ db. record db { receivables = db.receivables ++ receivable_row fresh refund ∷ [] })
  post (receivable_posting actor refund)
  flip_if (item_eq item.state ItemState.settled && leb_ℤ (minor item.amount) clawed) item
