-- ===== src/Settlement/Refunds/Due.antt =====
-- What a refund takes from what a merchant is due (src/settlement/settlement-refunds.service.ts).
use qift_platform.Prelude.{false, List, [], ◌∷◌, ◌≡◌, map, All, ◌==◌}
use qift_platform.Prelude.Int.{ℤ, pos, ◌+ℤ◌, ◌-ℤ◌, sum_ℤ, int_laws}
use qift_platform.Settlement.Store.{
  Db, Item, Receivable, Interaction, item_reduced, receivable_accrued,
}
use qift_platform.Settlement.Refunds.Input.{minor}

-- The primary key of the items.
abbrev pub DistinctIds : List Item → Type 0
DistinctIds [] = Unit
DistinctIds (x ∷ xs) = All (λ (y : Item). (y.id == x.id) ≡ false) xs × DistinctIds xs

pub add_zero_ℤ : (a : ℤ) → a +ℤ pos 0 ≡ a
add_zero_ℤ a = omega int_laws

abbrev pub owed_sum : List Receivable → ℤ
owed_sum rows = sum_ℤ (map (λ (r : Receivable). minor r.amount) rows)

abbrev pub amount_sum : List Item → ℤ
amount_sum rows = sum_ℤ (map (λ (i : Item). minor i.amount) rows)

-- What the merchants are due by their items, less what they owe, in minor units.
abbrev pub due : Db → ℤ
due db = amount_sum db.items -ℤ owed_sum db.receivables

-- What a refund of an amount takes from an item, and what it makes a receivable.
abbrev pub item_part : Interaction → ℤ → ℤ
item_part item_reduced a = a
item_part receivable_accrued a = pos 0

abbrev pub owed_part : Interaction → ℤ → ℤ
owed_part item_reduced a = pos 0
owed_part receivable_accrued a = a

-- The sums of the items and of the receivables.
abbrev pub due_view : Db → ℤ × List Receivable
due_view db = (amount_sum db.items, db.receivables)
