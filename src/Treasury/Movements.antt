-- ===== src/Treasury/Movements.antt =====
-- The movements of src/treasury/treasury-snapshot.ts: their order, their classes and their sums.
use Prim.Native.String.{String}
use package.text.Mathlib.Text.{◌==◌ as str_eq}
use qift_platform.Prelude.{Bool, Option, none, some, List, [], ◌∷◌, ◌++◌, if◌then◌else◌}
use qift_platform.Prelude.Int.{ℤ, pos, ◌+ℤ◌, ◌-ℤ◌}
use qift_platform.Settlement.Canonical.{str_lt}

pub data Flow : Type 0 where
  inward outward : Flow

pub record TreasuryMovement : Type 0 where
  pub ledger_id : String
  pub event_type : String
  pub direction : Flow
  pub amount_minor : ℤ
  pub value_date : Option String
  pub non_cash : Bool

-- The date by which a movement is ordered.
abbrev pub date_or_last : TreasuryMovement → String
date_or_last m = elim m.value_date [ none ↦ "9999-12-31T23:59:59.999Z" | some d ↦ d ]

-- `byDeterministicOrder(a, b) < 0`
unfoldable pub comes_before : TreasuryMovement → TreasuryMovement → Bool
comes_before a b =
    if str_eq (date_or_last a) (date_or_last b)
    then str_lt a.ledger_id b.ledger_id
    else str_lt (date_or_last a) (date_or_last b)

unfoldable pub insert_movement : TreasuryMovement → List TreasuryMovement → List TreasuryMovement
unfolding comes_before
insert_movement m [] = m ∷ []
insert_movement m (n ∷ rest) =
    let later = insert_movement m rest in if comes_before n m then n ∷ later else m ∷ n ∷ rest

unfoldable pub sort_movements : List TreasuryMovement → List TreasuryMovement
unfolding insert_movement
sort_movements [] = []
sort_movements (m ∷ rest) = insert_movement m (sort_movements rest)

pub record Split : Type 0 where
  pub included : List TreasuryMovement
  pub timing : List TreasuryMovement
  pub unresolved : List TreasuryMovement

-- A movement at the end of its class.
unfoldable pub classify : (as_of : String) → Option String → TreasuryMovement → Split → Split
classify as_of none m s = record s { unresolved = s.unresolved ++ m ∷ [] }
classify as_of (some date) m s =
    if str_lt as_of date
    then record s { timing = s.timing ++ m ∷ [] }
    else record s { included = s.included ++ m ∷ [] }

unfoldable pub split_loop : (as_of : String) → List TreasuryMovement → Split → Split
unfolding classify
split_loop as_of [] s = s
split_loop as_of (m ∷ rest) s = split_loop as_of rest (classify as_of m.value_date m s)

unfoldable pub split_by_as_of : List TreasuryMovement → (as_of : String) → Split
unfolding sort_movements split_loop
split_by_as_of movements as_of =
    split_loop as_of (sort_movements movements)
      (record { included = []; timing = []; unresolved = [] })

unfoldable pub signed : TreasuryMovement → ℤ
signed m = elim m.direction [ inward ↦ m.amount_minor | outward ↦ pos 0 -ℤ m.amount_minor ]

unfoldable pub signed_sum : ℤ → List TreasuryMovement → ℤ
unfolding signed
signed_sum total [] = total
signed_sum total (m ∷ rest) = signed_sum (total +ℤ signed m) rest

abbrev pub is_completed : TreasuryMovement → Bool
is_completed m = str_eq m.event_type "treasury.internal_transfer.completed"

-- What closures without a transfer took out of the obligations.
unfoldable pub due_minor : ℤ → List TreasuryMovement → ℤ
due_minor total [] = total
due_minor total (m ∷ rest) =
    due_minor
      (total +ℤ elim m.direction [ inward ↦ pos 0 -ℤ m.amount_minor | outward ↦ m.amount_minor ])
      rest

unfoldable pub amounts : ℤ → List TreasuryMovement → ℤ
amounts total [] = total
amounts total (m ∷ rest) = amounts (total +ℤ m.amount_minor) rest
