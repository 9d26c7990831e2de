-- ===== src/Treasury/Cut.antt =====
-- What the movements of src/treasury/treasury-snapshot.ts come to up to a cut, read off the inputs as
-- they are, in any order.
use Prim.Native.String.{String}
use package.text.Mathlib.Text.{◌==◌ as str_eq}
use qift_platform.Prelude.{
  Bool, true, false, not, ◌&&◌, ◌||◌, Option, none, some, List, [], ◌∷◌, ◌≡◌, ◌↔◌, refl, sym, ap,
  ◌∙◌, map, filter, any, if◌then◌else◌, Bool-cases, inl, inr, arith,
}
use qift_platform.Prelude.Int.{ℤ, pos, ◌+ℤ◌, ◌-ℤ◌, sum_ℤ, int_laws, zero-add_ℤ}
use qift_platform.Settlement.Canonical.{str_lt}
use qift_platform.Treasury.Movements.{
  TreasuryMovement, inward, outward, comes_before, insert_movement, sort_movements,
}

-- A value date that is there and not after the cut.
abbrev pub date_up_to : String → Option String → Bool
date_up_to as_of none = false
date_up_to as_of (some date) = not (str_lt as_of date)

abbrev pub up_to : String → TreasuryMovement → Bool
up_to as_of m = date_up_to as_of m.value_date

abbrev pub no_date : Option String → Bool
no_date none = true
no_date (some date) = false

abbrev pub undated : TreasuryMovement → Bool
undated m = no_date m.value_date

-- What a movement adds to its leg, and what it takes out of it.
abbrev pub net_flow : TreasuryMovement → ℤ
net_flow m = elim m.direction [ inward ↦ m.amount_minor | outward ↦ pos 0 -ℤ m.amount_minor ]

abbrev pub outflow : TreasuryMovement → ℤ
outflow m = elim m.direction [ inward ↦ pos 0 -ℤ m.amount_minor | outward ↦ m.amount_minor ]

abbrev pub completes_transfer : TreasuryMovement → Bool
completes_transfer m = str_eq m.event_type "treasury.internal_transfer.completed"

-- The sum of `v` over the movements that match.
abbrev pub total : (TreasuryMovement → Bool) → (TreasuryMovement → ℤ) → List TreasuryMovement → ℤ
total p v ms = sum_ℤ (map v (filter p ms))

swap_ℤ : (a b c : ℤ) → a +ℤ (b +ℤ c) ≡ b +ℤ (a +ℤ c)
swap_ℤ a b c = omega int_laws

module _ (p : TreasuryMovement → Bool) (v : TreasuryMovement → ℤ) where
  abbrev weight : TreasuryMovement → ℤ
  weight m = if p m then v m else pos 0

  total_lem :
      (m : TreasuryMovement) (ms : List TreasuryMovement)
      → total p v (m ∷ ms) ≡ weight m +ℤ total p v ms
  total_lem m ms = elim (Bool-cases (p m)) [
    | inl hit ↦ rw hit refl
    | inr miss ↦ rw miss (sym (zero-add_ℤ (total p v ms)))
  ]

  total-insert_movement :
      (m : TreasuryMovement) (ms : List TreasuryMovement)
      → total p v (insert_movement m ms) ≡ weight m +ℤ total p v ms
  unfolding insert_movement
  total-insert_movement m [] = total_lem m []
  total-insert_movement m (n ∷ ms) = elim (Bool-cases (comes_before n m)) [
    | inl later ↦ rw later (
        total_lem n (insert_movement m ms)
        ∙ ap (λ (z : ℤ). weight n +ℤ z) (total-insert_movement m ms)
        ∙ swap_ℤ (weight n) (weight m) (total p v ms)
        ∙ ap (λ (z : ℤ). weight m +ℤ z) (sym (total_lem n ms)))
    | inr here ↦ rw here (total_lem m (n ∷ ms))
  ]

  -- The order of the movements does not matter to a sum.
  pub total-sort_movements :
      (ms : List TreasuryMovement) → total p v (sort_movements ms) ≡ total p v ms
  unfolding sort_movements
  total-sort_movements [] = refl
  total-sort_movements (m ∷ ms) =
      total-insert_movement m (sort_movements ms)
      ∙ ap (λ (z : ℤ). weight m +ℤ z) (total-sort_movements ms)
      ∙ sym (total_lem m ms)

module _ (p : TreasuryMovement → Bool) where
  any-insert_movement :
      (m : TreasuryMovement) (ms : List TreasuryMovement)
      → any p (insert_movement m ms) ≡ (p m || any p ms)
  unfolding insert_movement
  any-insert_movement m [] = refl
  any-insert_movement m (n ∷ ms) = ground (arith, any-insert_movement m ms)

  pub any-sort_movements : (ms : List TreasuryMovement) → any p (sort_movements ms) ≡ any p ms
  unfolding sort_movements
  any-sort_movements [] = refl
  any-sort_movements (m ∷ ms) =
      any-insert_movement m (sort_movements ms)
      ∙ ap (λ (b : Bool). p m || b) (any-sort_movements ms)

  pub filter_nil_iff : (ms : List TreasuryMovement) → (filter p ms ≡ []) ↔ (any p ms ≡ false)
  filter_nil_iff [] = (λ h. refl, λ h. refl)
  filter_nil_iff (m ∷ ms) = elim (Bool-cases (p m)) [
    | inl hit ↦ rw hit ((λ h. absurd (cc)), λ h. absurd (cc))
    | inr miss ↦ rw miss (filter_nil_iff ms)
  ]

  filter-filter :
      (q : TreasuryMovement → Bool) (ms : List TreasuryMovement)
      → filter q (filter p ms) ≡ filter (λ m. p m && q m) ms
  filter-filter q [] = refl
  filter-filter q (m ∷ ms) = elim (Bool-cases (p m)) [
    | inl hit ↦ rw hit (ap (λ rest. if q m then m ∷ rest else rest) (filter-filter q ms))
    | inr miss ↦ rw miss (filter-filter q ms)
  ]

  pub total-filter :
      (q : TreasuryMovement → Bool) (v : TreasuryMovement → ℤ) (ms : List TreasuryMovement)
      → total q v (filter p ms) ≡ total (λ m. p m && q m) v ms
  total-filter q v ms = ap (λ kept. sum_ℤ (map v kept)) (filter-filter q ms)
