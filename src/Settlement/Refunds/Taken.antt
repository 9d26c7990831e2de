-- ===== src/Settlement/Refunds/Taken.antt =====
-- What a refund takes from its item (src/settlement/settlement-refunds.service.ts).
use qift_platform.Prelude.{
  ℕ, zero, suc, Bool, true, false, not, ◌&&◌, some, List, [], ◌∷◌, ◌≡◌, refl, sym, ap, ap₂, ◌∙◌,
  subst, find, All, ◌==◌, ==_iff, Bool-cases, inl, inr, arith,
}
use qift_platform.Prelude.Int.{ℤ, pos, ◌+ℤ◌, ◌-ℤ◌, ltb_ℤ, +ℤ_assoc, int_laws}
use qift_platform.Prelude.Outcome.{Result, ok}
use qift_platform.Money.{CurrencyCode, from_minor}
use qift_platform.Money.Rounding.{to_minor-from_minor}
use qift_platform.Settlement.States.{ItemState}
use qift_platform.Settlement.Store.{
  Db, Item, Interaction, item_reduced, receivable_accrued, update_many, count,
}
use qift_platform.Settlement.Store.Update.{ok_pair}
use qift_platform.Settlement.Errors.{SettlementError}
use qift_platform.Settlement.Refunds.Input.{minor}
use qift_platform.Settlement.Refunds.Interactions.{may_shrink, shrink, interact}
use qift_platform.Settlement.Refunds.Due.{DistinctIds, add_zero_ℤ, amount_sum, item_part}

-- A sum of one number, as often as counted.
repeated : ℕ → ℤ → ℤ
repeated zero a = pos 0
repeated (suc n) a = a +ℤ repeated n a

interchange_ℤ : (a b c d : ℤ) → a +ℤ b +ℤ (c +ℤ d) ≡ a +ℤ c +ℤ (b +ℤ d)
interchange_ℤ a b c d = omega int_laws

taken_row :
    (after a before sum rest total : ℤ)
    → after +ℤ a ≡ before
    → sum +ℤ rest ≡ total
    → after +ℤ sum +ℤ (a +ℤ rest) ≡ before +ℤ total
taken_row after a before sum rest total h k =
    interchange_ℤ after sum a rest ∙ ap₂ (λ (x y : ℤ). x +ℤ y) h k

kept_row : (x sum rest total : ℤ) → sum +ℤ rest ≡ total → x +ℤ sum +ℤ rest ≡ x +ℤ total
kept_row x sum rest total h = +ℤ_assoc x sum rest ∙ ap (λ (y : ℤ). x +ℤ y) h

-- An update that takes the same amount from every row that it changes.
sum-update_many :
    (p : Item → Bool) (f : Item → Item) (a : ℤ) (rows : List Item)
    → All (λ (x : Item). p x ≡ true → minor (f x).amount +ℤ a ≡ minor x.amount) rows
    → amount_sum (update_many p f rows) +ℤ repeated (count p rows) a ≡ amount_sum rows
unfolding update_many count repeated
sum-update_many p f a [] h = omega int_laws
sum-update_many p f a (x ∷ rows) h = elim (Bool-cases (p x)) [
  | inl hit ↦ rw hit (
      taken_row (minor (f x).amount) a (minor x.amount) (amount_sum (update_many p f rows))
        (repeated (count p rows) a) (amount_sum rows) (h.0 hit) (sum-update_many p f a rows h.1))
  | inr miss ↦ rw miss (
      kept_row (minor x.amount) (amount_sum (update_many p f rows)) (repeated (count p rows) a)
        (amount_sum rows) (sum-update_many p f a rows h.1))
]

ne_false : (a b : ℕ) → a ≡ b → (a == b) ≡ false → ⊥
ne_false a b h k = ground arith

first_found : {a b : Item} → some a ≡ some b → a ≡ b
first_found h = cc

none_other :
    (x : Item) (rows : List Item)
    → All (λ (y : Item). (y.id == x.id) ≡ false) rows
    → All (λ (y : Item). (y.id == x.id) ≡ true → y ≡ x) rows
none_other x [] h = tt
none_other x (y ∷ rows) h = ((λ same. let other = h.0 in absurd (cc)), none_other x rows h.1)

not_twice :
    (x item : Item) (rows : List Item) (q : Item → Bool)
    → All (λ (y : Item). (y.id == x.id) ≡ false) rows
    → find q rows ≡ some item
    → (x.id == item.id) ≡ true
    → ⊥
not_twice x item [] q d h same = cc
not_twice x item (y ∷ rows) q d h same = elim (Bool-cases (q y)) [
  | inl hit ↦
      let here = first_found (rw hit at h) in
      let other = d.0 in
      let one = (==_iff x.id item.id).0 same in
      ne_false y.id x.id (ap (λ (i : Item). i.id) here ∙ sym one) other
  | inr miss ↦ not_twice x item rows q d.1 (rw miss at h) same
]

-- The row with the identifier of an item is that item.
only_row :
    (q : Item → Bool) (rows : List Item) (item : Item)
    → DistinctIds rows
    → find q rows ≡ some item
    → All (λ (x : Item). (x.id == item.id) ≡ true → x ≡ item) rows
only_row q [] item d h = cc
only_row q (x ∷ rows) item d h = elim (Bool-cases (q x)) [
  | inl hit ↦
      let here = first_found (rw hit at h) in
      (
        (λ _. here),
        subst (λ (i : Item). All (λ (y : Item). (y.id == i.id) ≡ true → y ≡ i) rows) here
            (none_other x rows d.0),
      )
  | inr miss ↦
      let later = rw miss at h in
      ((λ same. absurd (not_twice x item rows q d.0 later same)), only_row q rows item d.1 later)
]

two_not_one : (n : ℕ) → not (suc (suc n) == 1) ≡ false → ⊥
two_not_one n h = ground arith

sub_add_ℤ : (a b : ℤ) → a -ℤ b +ℤ b ≡ a
sub_add_ℤ a b = omega int_laws

first_holds : (a b : Bool) → (a && b) ≡ true → a ≡ true
first_holds a b h = ground arith

once_ℤ : (n : ℕ) (a : ℤ) → not (n == 1) ≡ false → repeated n a ≡ a
unfolding repeated
once_ℤ zero a h = cc
once_ℤ (suc zero) a h = omega int_laws
once_ℤ (suc (suc n)) a h = absurd (two_not_one n h)

shrunk_rows :
    (item : Item) (amount : ℤ) (rows : List Item)
    → All (λ (x : Item). (x.id == item.id) ≡ true → x ≡ item) rows
    → All
        (λ (x : Item).
          may_shrink item x ≡ true
          → minor (from_minor CurrencyCode.sar (minor item.amount -ℤ amount)) +ℤ amount
            ≡ minor x.amount)
        rows
shrunk_rows item amount [] h = tt
shrunk_rows item amount (x ∷ rows) h = (
  (λ hit.
      ap (λ (z : ℤ). z +ℤ amount)
        (to_minor-from_minor CurrencyCode.sar (minor item.amount -ℤ amount))
      ∙ sub_add_ℤ (minor item.amount) amount
      ∙ ap (λ (i : Item). minor i.amount) (sym (h.0 (first_holds _ _ hit)))),
  shrunk_rows item amount rows h.1,
)

shrink-taken :
    (q : Item → Bool) (item : Item) (amount : ℤ) (db mid : Db) (i : Interaction)
    → DistinctIds db.items
    → find q db.items ≡ some item
    → shrink item amount db ≡ ok (i, mid)
    → (amount_sum mid.items +ℤ item_part i amount ≡ amount_sum db.items)
      × (mid.receivables ≡ db.receivables)
unfolding shrink
shrink-taken q item amount db mid i d found h =
    let left = from_minor CurrencyCode.sar (minor item.amount -ℤ amount) in
    elim (Bool-cases (ltb_ℤ left (pos 0))) [
      | inl below ↦ let bad = rw below at h in absurd (cc)
      | inr enough ↦ elim (Bool-cases (not (count (may_shrink item) db.items == 1))) [
        | inl contended ↦ let bad = rw (enough, contended) at h in absurd (cc)
        | inr one ↦
            let (reduced, same) = ok_pair item_reduced i _ mid (rw (enough, one) at h) in
            let f = λ (row : Item). record row { amount = left } in
            let taken =
              sum-update_many (may_shrink item) f amount db.items
                (shrunk_rows item amount db.items (only_row q db.items item d found)) in
            (
              subst
                  (λ (x : Interaction).
                    amount_sum mid.items +ℤ item_part x amount ≡ amount_sum db.items)
                  reduced
                  (subst (λ (m : Db). amount_sum m.items +ℤ amount ≡ amount_sum db.items) same
                    (subst
                      (λ (n : ℤ).
                        amount_sum (update_many (may_shrink item) f db.items) +ℤ n
                        ≡ amount_sum db.items)
                      (once_ℤ (count (may_shrink item) db.items) amount one) (taken))),
              subst (λ (m : Db). m.receivables ≡ db.receivables) same (refl),
            )
      ]
    ]

untouched :
    (amount : ℤ) (db mid : Db) (i : Interaction)
    → ◌≡◌ {A = Result SettlementError (Interaction × Db)}
        (ok (receivable_accrued, db))
        (ok (i, mid))
    → (amount_sum mid.items +ℤ item_part i amount ≡ amount_sum db.items)
      × (mid.receivables ≡ db.receivables)
untouched amount db mid i h =
    let (accrued, same) = ok_pair receivable_accrued i db mid h in
    (
      subst (λ (x : Interaction). amount_sum mid.items +ℤ item_part x amount ≡ amount_sum db.items)
          accrued
          (subst (λ (m : Db). amount_sum m.items +ℤ pos 0 ≡ amount_sum db.items) same
            (add_zero_ℤ (amount_sum db.items))),
      subst (λ (m : Db). m.receivables ≡ db.receivables) same (refl),
    )

pub interact-taken :
    (state : ItemState) (q : Item → Bool) (item : Item) (amount : ℤ) (db mid : Db) (i : Interaction)
    → DistinctIds db.items
    → find q db.items ≡ some item
    → interact state item amount db ≡ ok (i, mid)
    → (amount_sum mid.items +ℤ item_part i amount ≡ amount_sum db.items)
      × (mid.receivables ≡ db.receivables)
unfolding interact
interact-taken ItemState.ready q item amount db mid i d found h = absurd (cc)
interact-taken ItemState.disputed q item amount db mid i d found h = absurd (cc)
interact-taken ItemState.settled q item amount db mid i d found h = untouched amount db mid i h
interact-taken ItemState.reversed q item amount db mid i d found h = untouched amount db mid i h
interact-taken ItemState.pending q item amount db mid i d found h =
    shrink-taken q item amount db mid i d found h
interact-taken ItemState.eligible q item amount db mid i d found h =
    shrink-taken q item amount db mid i d found h
interact-taken ItemState.held q item amount db mid i d found h =
    shrink-taken q item amount db mid i d found h
