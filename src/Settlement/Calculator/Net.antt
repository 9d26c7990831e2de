-- ===== src/Settlement/Calculator/Net.antt =====
-- What the calculator computes, and what it refuses (src/settlement/settlement-calculator.ts).
use qift_platform.Prelude.{
  ℕ, true, false, List, [], ◌∷◌, ◌≡◌, ◌≢◌, refl, map, length, All, ap, ◌∙◌, subst, arith,
  if◌then◌else◌, Bool-cases, inl, inr,
}
use qift_platform.Prelude.Int.{ℤ, pos, ◌+ℤ◌, ◌-ℤ◌, sum_ℤ, int_laws, +ℤ_assoc, zero-add_ℤ}
use qift_platform.Prelude.Outcome.{Result, ok, ◌>>=◌, ◌>>◌, throw_if, step_ok}
use qift_platform.Money.{CurrencyCode, to_minor}
use qift_platform.Money.Rounding.{to_minor-from_minor}
use qift_platform.Settlement.Errors.{SettlementError, currencies_never_sum}
use qift_platform.Settlement.Calculator.{
  SettlementItemInput, SettlementAdjustments, SettlementCalculation, SettlementLines,
  as_currency_code, currency_eq, gross_loop, minor_or_zero, net_minor, calculation_of,
  calculate_settlement,
}

-- Every item is in one supported currency.
abbrev pub Uniform : CurrencyCode → List SettlementItemInput → Type 0
Uniform c items = All (λ i. as_currency_code i.currency ≡ ok c) items

-- The sum of the items' minor units.
abbrev pub gross_minor : CurrencyCode → List SettlementItemInput → ℤ
gross_minor c items = sum_ℤ (map (λ i. to_minor c i.amount) items)

pub currency_eq_sound : (a b : CurrencyCode) → currency_eq a b ≡ true → a ≡ b
currency_eq_sound a b h = ground arith

currency_eq_self : (a : CurrencyCode) → currency_eq a a ≡ true
currency_eq_self a = ground arith

pub gross_loop_ok :
    (c : CurrencyCode) (t : ℤ) (items : List SettlementItemInput)
    → Uniform c items
    → gross_loop c t items ≡ ok (t +ℤ gross_minor c items)
unfolding gross_loop
gross_loop_ok c t [] u = ap (λ (x : ℤ). ok x) (omega int_laws)
gross_loop_ok c t (i ∷ rest) u =
    rw (u.0, currency_eq_self c)
      (gross_loop_ok c (t +ℤ to_minor c i.amount) rest u.1
        ∙ ap (λ (x : ℤ). ok x) (+ℤ_assoc t (to_minor c i.amount) (gross_minor c rest)))

checked_same :
    {A : Type 0} {a : A} (x c : CurrencyCode) (next : Result SettlementError A)
    → (throw_if (if currency_eq x c then false else true) currencies_never_sum >> next) ≡ ok a
    → (x ≡ c) × (next ≡ ok a)
checked_same x c next h = elim (Bool-cases (currency_eq x c)) [
  | inl same ↦ (currency_eq_sound x c same, rw same at h)
  | inr other ↦ absurd (ground (arith, other))
]

gross_loop-Uniform :
    (c : CurrencyCode) (t g : ℤ) (items : List SettlementItemInput)
    → gross_loop c t items ≡ ok g
    → Uniform c items
unfolding gross_loop
gross_loop-Uniform c t g [] h = tt
gross_loop-Uniform c t g (i ∷ rest) h =
    let (code, known, later) =
      step_ok (as_currency_code i.currency)
        (λ code.
          throw_if (if currency_eq code c then false else true) currencies_never_sum
          >> gross_loop c (t +ℤ to_minor c i.amount) rest)
        h in
    let (same, others) = checked_same code c (gross_loop c (t +ℤ to_minor c i.amount) rest) later in
    (rw (← same) known, gross_loop-Uniform c (t +ℤ to_minor c i.amount) g rest others)

-- The signed sum over the lines of a result, in minor units.
abbrev pub signed_lines : CurrencyCode → SettlementLines → ℤ
signed_lines c l =
    let m = to_minor c in
    m l.merchant_gross
    +ℤ m l.marketplace_adjustments
    -ℤ m l.refunds
    -ℤ m l.chargebacks
    -ℤ m l.reserve_held
    +ℤ m l.reserve_released
    +ℤ m l.manual_adjustments
    -ℤ m l.receivable_recovery

signed_lines_lem :
    (c : CurrencyCode) (gross : ℤ) (adj : SettlementAdjustments) (n : ℕ)
    → to_minor c (calculation_of c gross adj n).net_amount
      ≡ signed_lines c (calculation_of c gross adj n).lines
unfolding calculation_of net_minor
signed_lines_lem c gross adj n = simp to_minor-from_minor

-- A nonempty composition in one supported currency has a calculation: its net is, to the minor unit,
-- the signed sum of its lines, its gross line is the sum of the items' minor units, the recovery line
-- is the rounded recovery, the fee and tax lines are zero, and it counts the items.
pub calculate_settlement_net :
    (c : CurrencyCode) (items : List SettlementItemInput) (adj : SettlementAdjustments)
    → items ≢ []
    → Uniform c items
    → (calc : SettlementCalculation) × (calculate_settlement items adj ≡ ok calc)
      × (calc.currency ≡ c)
      × (to_minor c calc.net_amount ≡ signed_lines c calc.lines)
      × (to_minor c calc.lines.merchant_gross ≡ gross_minor c items)
      × (to_minor c calc.lines.receivable_recovery ≡ minor_or_zero c adj.receivable_recovery)
      × (calc.lines.qift_fees ≡ pos 0)
      × (calc.lines.taxes ≡ pos 0)
      × (calc.item_count ≡ length items)
unfolding calculate_settlement
calculate_settlement_net c [] adj ne u = absurd (ne refl)
calculate_settlement_net c (i ∷ rest) adj ne u =
    let g = gross_minor c (i ∷ rest) in
    (
      calculation_of c g adj (length (i ∷ rest)),
      rw (u.0, gross_loop_ok c (pos 0) (i ∷ rest) u, zero-add_ℤ g),
      unfold calculation_of in refl,
      signed_lines_lem c g adj (length (i ∷ rest)),
      unfold calculation_of in (to_minor-from_minor c g),
      unfold calculation_of in (to_minor-from_minor c (minor_or_zero c adj.receivable_recovery)),
      unfold calculation_of in refl,
      unfold calculation_of in refl,
      unfold calculation_of in refl,
    )

calculation_currency :
    (c : CurrencyCode) (g : ℤ) (adj : SettlementAdjustments) (n : ℕ) (calc : SettlementCalculation)
    → ◌≡◌ {A = Result SettlementError SettlementCalculation}
        (ok (calculation_of c g adj n))
        (ok calc)
    → c ≡ calc.currency
unfolding calculation_of
calculation_currency c g adj n calc h = ground arith

-- A calculation is only ever returned for a nonempty composition whose items all carry the supported
-- currency that it names: amounts in different currencies never sum.
pub calculate_settlement-Uniform :
    (items : List SettlementItemInput) (adj : SettlementAdjustments) (calc : SettlementCalculation)
    → calculate_settlement items adj ≡ ok calc
    → (items ≢ []) × Uniform calc.currency items
unfolding calculate_settlement
calculate_settlement-Uniform [] adj calc h = absurd (cc)
calculate_settlement-Uniform (i ∷ rest) adj calc h =
    let (c, known, later) =
      step_ok (as_currency_code i.currency)
        (λ c.
          gross_loop c (pos 0) (i ∷ rest) >>= λ g. ok (calculation_of c g adj (length (i ∷ rest))))
        h in
    let (g, looped, done) =
      step_ok (gross_loop c (pos 0) (i ∷ rest))
        (λ g. ok (calculation_of c g adj (length (i ∷ rest)))) later in
    (
      (λ e. cc),
      subst (λ x. Uniform x (i ∷ rest)) (calculation_currency c g adj (length (i ∷ rest)) calc done)
          (gross_loop-Uniform c (pos 0) g (i ∷ rest) looped),
    )
