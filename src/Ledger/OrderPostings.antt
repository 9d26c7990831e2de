-- ===== src/Ledger/OrderPostings.antt =====
-- The postings of a paid order (src/financial/order-ledger.ts).
use qift_platform.Prelude.{
  ℕ, Bool, true, false, not, ◌&&◌, Option, none, some, List, [], ◌∷◌, ◌++◌, ◌≡◌, ◌≢◌, inl, inr,
  Bool-cases, refl, arith, All, All-append, ap, ap₂, ◌∙◌, if◌then◌else◌,
}
use qift_platform.Prelude.Int.{ℤ, pos, ltb_ℤ, ◌≤ℤ◌, ◌+ℤ◌, int_laws}
use qift_platform.Prelude.Outcome.{ok}
use qift_platform.Money.{CurrencyCode, to_minor}
use qift_platform.Ledger.{
  Ledger, RecordLedgerInput, PaidOrder, FinancialEvent, order_paid, build_order_ledger_entries,
  push_if, fee_posting, payable_posting, delivery_posting, paid_posting, is_none, record_all,
}
use qift_platform.Ledger.Idempotence.{Keyed, record_all_idem}

Keyed-push_if : (c : Bool) (e : RecordLedgerInput) → Keyed e → All Keyed (push_if c e)
Keyed-push_if true e k = (k, tt)
Keyed-push_if false e k = tt

pub build_order-Keyed :
    (order : PaidOrder) (payment : Option ℕ) → All Keyed (build_order_ledger_entries order payment)
unfolding build_order_ledger_entries
build_order-Keyed order payment =
    let fee = fee_posting order payment in
    let payable = payable_posting order payment in
    let delivery = delivery_posting order payment in
    let charged = ltb_ℤ (pos 0) order.service_fee in
    let linked = not (is_none order.store_id) && ltb_ℤ (pos 0) order.product_price in
    let delivered = ltb_ℤ (pos 0) order.delivery_fee in
    (
      (_, refl),
      All-append Keyed (push_if charged fee) (push_if linked payable ++ push_if delivered delivery)
          (Keyed-push_if charged fee (_, refl))
          (All-append Keyed (push_if linked payable) (push_if delivered delivery)
            (Keyed-push_if linked payable (_, refl)) (Keyed-push_if delivered delivery (_, refl))),
    )

-- Posting the entries of a paid order again, as a retried capture does, changes nothing.
pub build_order_ledger_entries_replay :
    (order : PaidOrder) (payment : Option ℕ) (l l' : Ledger)
    → record_all (build_order_ledger_entries order payment) l ≡ ok l'
    → record_all (build_order_ledger_entries order payment) l' ≡ ok l'
build_order_ledger_entries_replay order payment l l' h =
    record_all_idem (build_order_ledger_entries order payment) l l'
      (build_order-Keyed order payment) h

-- The minor units that the entries of one event or of every other event carry.
pub minor_of : (FinancialEvent → Bool) → List RecordLedgerInput → ℤ
minor_of p [] = pos 0
minor_of p (e ∷ rest) =
    let others = minor_of p rest in
    if p e.event_type then to_minor CurrencyCode.sar e.amount +ℤ others else others

abbrev pub is_captured : FinancialEvent → Bool
is_captured order_paid = true
is_captured _ = false

-- A posting that is left out for its amount would have carried no minor units.
zero_minor : (a : ℤ) → pos 0 ≤ℤ a → ltb_ℤ (pos 0) a ≡ false → to_minor CurrencyCode.sar a ≡ pos 0
unfolding to_minor
zero_minor a h z = ground arith

minor_of-append :
    (p : FinancialEvent → Bool) (xs ys : List RecordLedgerInput)
    → minor_of p (xs ++ ys) ≡ minor_of p xs +ℤ minor_of p ys
unfolding minor_of
minor_of-append p [] ys = omega int_laws
minor_of-append p (x ∷ xs) ys = elim (Bool-cases (p x.event_type)) [
  | inl yes_ ↦ rw (yes_, minor_of-append p xs ys) (omega int_laws)
  | inr no_ ↦ rw (no_, minor_of-append p xs ys) refl
]

add-zero_ℤ : (a : ℤ) → a +ℤ pos 0 ≡ a
add-zero_ℤ a = omega int_laws

minor_of-push_if :
    (p : FinancialEvent → Bool) (c : Bool) (e : RecordLedgerInput)
    → c ≡ true
    → pos 0 ≤ℤ e.amount
    → minor_of p (push_if (c && ltb_ℤ (pos 0) e.amount) e)
      ≡ (if p e.event_type then to_minor CurrencyCode.sar e.amount else pos 0)
unfolding minor_of
minor_of-push_if p c e h nonneg = elim (Bool-cases (ltb_ℤ (pos 0) e.amount)) [
  | inl positive ↦
      rw (h, positive)
        (ap (λ (x : ℤ). if p e.event_type then x else pos 0)
          (add-zero_ℤ (to_minor CurrencyCode.sar e.amount)))
  | inr zero ↦ rw (h, zero, zero_minor e.amount nonneg zero) (ground arith)
]

store_linked : (o : Option ℕ) → o ≢ none → not (is_none o) ≡ true
store_linked none h = absurd (h refl)
store_linked (some x) h = refl

-- The minor units of an entry that a choice of events takes.
abbrev taken : (FinancialEvent → Bool) → RecordLedgerInput → ℤ
taken p e = if p e.event_type then to_minor CurrencyCode.sar e.amount else pos 0

entries_minor :
    (p : FinancialEvent → Bool) (order : PaidOrder) (payment : Option ℕ)
    → order.store_id ≢ none
    → pos 0 ≤ℤ order.product_price
    → pos 0 ≤ℤ order.service_fee
    → pos 0 ≤ℤ order.delivery_fee
    → minor_of p (build_order_ledger_entries order payment)
      ≡ minor_of p (paid_posting order payment ∷ [])
        +ℤ (taken p (fee_posting order payment)
            +ℤ (taken p (payable_posting order payment)
                +ℤ taken p (delivery_posting order payment)))
unfolding build_order_ledger_entries
entries_minor p order payment store price fee delivery =
    minor_of-append p (paid_posting order payment ∷ []) _
    ∙ ap (λ (x : ℤ). minor_of p (paid_posting order payment ∷ []) +ℤ x)
        (minor_of-append p (push_if (ltb_ℤ (pos 0) order.service_fee) (fee_posting order payment)) _
          ∙ ap₂ (λ (x y : ℤ). x +ℤ y) (minor_of-push_if p true (fee_posting order payment) refl fee)
              (minor_of-append p
                  (push_if (not (is_none order.store_id) && ltb_ℤ (pos 0) order.product_price)
                    (payable_posting order payment))
                  _
                ∙ ap₂ (λ (x y : ℤ). x +ℤ y)
                    (minor_of-push_if p (not (is_none order.store_id))
                      (payable_posting order payment) (store_linked order.store_id store) price)
                    (minor_of-push_if p true (delivery_posting order payment) refl delivery)))

-- The cash captured is allocated in full: for an order of a store, with no negative amount and with
-- the total that the fee engine computes, the entry of the captured total equals, to the minor unit,
-- the sum of the service fee, merchant payable and delivery entries.
pub build_order_ledger_entries_allocate :
    (order : PaidOrder) (payment : Option ℕ)
    → let minor = to_minor CurrencyCode.sar in
      order.store_id ≢ none
      → pos 0 ≤ℤ order.product_price
      → pos 0 ≤ℤ order.service_fee
      → pos 0 ≤ℤ order.delivery_fee
      → minor order.total_amount
        ≡ minor order.product_price +ℤ (minor order.delivery_fee +ℤ minor order.service_fee)
      → let entries = build_order_ledger_entries order payment in
        minor_of is_captured entries ≡ minor_of (λ e. not (is_captured e)) entries
unfolding build_order_ledger_entries minor_of
build_order_ledger_entries_allocate order payment store p s d total =
    rw
      (
        entries_minor is_captured order payment store p s d,
        entries_minor (λ e. not (is_captured e)) order payment store p s d,
        total,
      )
      (omega int_laws)
