-- ===== src/Treasury/Agreement.antt =====
-- The status of a snapshot and the agreement of its legs (src/treasury/treasury-snapshot.ts).
use qift_platform.Prelude.{
  true, false, Option, none, some, List, [], ◌∷◌, ◌++◌, ◌≡◌, ◌↔◌, refl, sym, ap, ◌∙◌, subst, arith,
  Bool-cases, inl, inr,
}
use qift_platform.Prelude.Int.{ℤ, pos, ◌+ℤ◌, ◌-ℤ◌, ◌≤ℤ◌, eqb_ℤ, ltb_ℤ, int_laws}
use qift_platform.Treasury.{
  TreasuryAttestation, TreasuryDifference, matched, Legs, unresolved_differences, bank_difference,
  obligation_difference, negative_difference, differences_of, status_of, legs_of,
}
use qift_platform.Treasury.Movements.{TreasuryMovement, Split}

-- The legs of a snapshot agree.
pub record LegsAgree (attestation : Option TreasuryAttestation) (legs : Legs) (cash owed : Split)
    : Type 0 where
  pub attested : TreasuryAttestation
  pub attested_is : attestation ≡ some attested
  pub bank : attested.balance_minor ≡ legs.ledger_cash
  pub books : legs.ledger_cash ≡ legs.obligations +ℤ legs.outstanding
  pub not_negative : pos 0 ≤ℤ attested.balance_minor
  pub cash_resolved : cash.unresolved ≡ []
  pub obligations_resolved : owed.unresolved ≡ []

append_nil_both : {A : Type 0} (xs ys : List A) → xs ++ ys ≡ [] → (xs ≡ []) × (ys ≡ [])
append_nil_both [] ys h = (refl, h)
append_nil_both (x ∷ xs) ys h = cc

status_matched :
    (ds : List TreasuryDifference) (attestation : Option TreasuryAttestation)
    → status_of ds attestation ≡ matched
    → (ds ≡ []) × ((a : TreasuryAttestation) × (attestation ≡ some a))
unfolding status_of
status_matched (d ∷ ds) attestation h = cc
status_matched [] none h = cc
status_matched [] (some a) h = (refl, (a, refl))

none_unresolved : (ms : List TreasuryMovement) → unresolved_differences [] ms ≡ [] → ms ≡ []
unfolding unresolved_differences
none_unresolved [] h = refl
none_unresolved (m ∷ ms) h = cc

no_bank_difference : (delta : ℤ) → bank_difference (some delta) ≡ [] → eqb_ℤ delta (pos 0) ≡ true
unfolding bank_difference
no_bank_difference delta h = elim (Bool-cases (eqb_ℤ delta (pos 0))) [
  | inl zero_ ↦ zero_
  | inr other ↦ let bad = rw other at h in cc
]

no_obligation_difference :
    (delta : ℤ) → obligation_difference delta ≡ [] → eqb_ℤ delta (pos 0) ≡ true
unfolding obligation_difference
no_obligation_difference delta h = elim (Bool-cases (eqb_ℤ delta (pos 0))) [
  | inl zero_ ↦ zero_
  | inr other ↦ let bad = rw other at h in cc
]

no_negative_difference :
    (a : TreasuryAttestation)
    → negative_difference (some a) ≡ []
    → ltb_ℤ a.balance_minor (pos 0) ≡ false
unfolding negative_difference
no_negative_difference a h = elim (Bool-cases (ltb_ℤ a.balance_minor (pos 0))) [
  | inl below ↦ let bad = rw below at h in cc
  | inr above ↦ above
]

equal_of_zero : (a b : ℤ) → eqb_ℤ (a -ℤ b) (pos 0) ≡ true → a ≡ b
equal_of_zero a b h = grind int_laws

zero_of_equal : (a b : ℤ) → a ≡ b → eqb_ℤ (a -ℤ b) (pos 0) ≡ true
zero_of_equal a b h = grind int_laws

module _ (a : TreasuryAttestation) (legs : Legs) (unresolved : List TreasuryMovement) (delta : ℤ)
    (bank : legs.bank_vs_cash ≡ some delta) where
  no_differences :
      differences_of (some a) legs unresolved ≡ []
      → (eqb_ℤ delta (pos 0) ≡ true)
        × (eqb_ℤ legs.cash_vs_obligations (pos 0) ≡ true)
        × (unresolved ≡ [])
        × (ltb_ℤ a.balance_minor (pos 0) ≡ false)
  unfolding differences_of
  no_differences h =
      let (on_bank, after_bank) = append_nil_both (bank_difference legs.bank_vs_cash) _ h in
      let (on_cash, after_cash) = append_nil_both _ _ after_bank in
      let (on_rows, on_sign) = append_nil_both _ _ after_cash in
      (
        no_bank_difference delta (rw bank at on_bank),
        no_obligation_difference legs.cash_vs_obligations on_cash,
        none_unresolved unresolved on_rows,
        no_negative_difference a on_sign,
      )

  differences_vanish :
      eqb_ℤ delta (pos 0) ≡ true
      → eqb_ℤ legs.cash_vs_obligations (pos 0) ≡ true
      → unresolved ≡ []
      → ltb_ℤ a.balance_minor (pos 0) ≡ false
      → differences_of (some a) legs unresolved ≡ []
  unfolding differences_of bank_difference obligation_difference unresolved_differences
      negative_difference
  differences_vanish on_bank on_cash on_rows on_sign =
      rw (bank, on_rows) (simp (on_bank, on_cash, on_sign))

sum_of_zero : (a b c : ℤ) → eqb_ℤ (a -ℤ b -ℤ c) (pos 0) ≡ true → a ≡ b +ℤ c
sum_of_zero a b c h = grind int_laws

zero_of_sum : (a b c : ℤ) → a ≡ b +ℤ c → eqb_ℤ (a -ℤ b -ℤ c) (pos 0) ≡ true
zero_of_sum a b c h = grind int_laws

not_below : (a : ℤ) → ltb_ℤ a (pos 0) ≡ false → pos 0 ≤ℤ a
not_below a h = ground arith

at_least : (a : ℤ) → pos 0 ≤ℤ a → ltb_ℤ a (pos 0) ≡ false
at_least a h = ground arith

-- The test of the status on the legs of an attested run.
module _ (a : TreasuryAttestation) (cash owed : Split) where
  abbrev attested_legs : Legs
  attested_legs = legs_of (some a) cash.included owed.included

  abbrev found : List TreasuryDifference
  found = differences_of (some a) attested_legs (cash.unresolved ++ owed.unresolved)

  agree :
      found ≡ []
      → (a.balance_minor ≡ attested_legs.ledger_cash)
        × (attested_legs.ledger_cash ≡ attested_legs.obligations +ℤ attested_legs.outstanding)
        × (pos 0 ≤ℤ a.balance_minor)
        × (cash.unresolved ≡ [])
        × (owed.unresolved ≡ [])
  unfolding legs_of
  agree h =
      let (bank, books, rows, sign) =
        no_differences a attested_legs (cash.unresolved ++ owed.unresolved) _ refl h in
      let (cash_rows, owed_rows) = append_nil_both cash.unresolved owed.unresolved rows in
      (equal_of_zero _ _ bank, sum_of_zero _ _ _ books, not_below _ sign, cash_rows, owed_rows)

  agreed :
      a.balance_minor ≡ attested_legs.ledger_cash
      → attested_legs.ledger_cash ≡ attested_legs.obligations +ℤ attested_legs.outstanding
      → pos 0 ≤ℤ a.balance_minor
      → cash.unresolved ≡ []
      → owed.unresolved ≡ []
      → found ≡ []
  unfolding legs_of
  agreed bank books sign cash_rows owed_rows =
      differences_vanish a attested_legs (cash.unresolved ++ owed.unresolved) _ refl
        (zero_of_equal _ _ bank) (zero_of_sum _ _ _ books) (rw (cash_rows, owed_rows) refl)
        (at_least _ sign)

some_of : {a b : TreasuryAttestation} → some a ≡ some b → a ≡ b
some_of h = cc

pub status_iff :
    (attestation : Option TreasuryAttestation) (cash owed : Split)
    → (status_of
          (differences_of attestation
            (legs_of attestation cash.included owed.included)
            (cash.unresolved ++ owed.unresolved))
          attestation
        ≡ matched)
      ↔ LegsAgree attestation (legs_of attestation cash.included owed.included) cash owed
unfolding status_of
status_iff none cash owed =
    ((λ h. absurd (cc ((status_matched _ none h).1.1))), λ r. absurd (cc (r.attested_is)))
status_iff (some a) cash owed = (
  λ h.
      let (bank, books, sign, cash_rows, owed_rows) =
        agree a cash owed (status_matched _ (some a) h).0 in
      record {
        attested = a;
        attested_is = refl;
        bank = bank;
        books = books;
        not_negative = sign;
        cash_resolved = cash_rows;
        obligations_resolved = owed_rows;
      },
  λ r.
      let same = some_of r.attested_is in
      rw
        (agreed a cash owed (ap (λ (t : TreasuryAttestation). t.balance_minor) same ∙ r.bank)
          r.books
          (subst (λ (t : TreasuryAttestation). pos 0 ≤ℤ t.balance_minor) (sym same)
            (r.not_negative))
          r.cash_resolved r.obligations_resolved)
        refl,
)
