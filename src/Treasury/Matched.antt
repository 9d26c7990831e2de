-- ===== src/Treasury/Matched.antt =====
-- When a reconciliation of src/treasury/treasury-snapshot.ts is matched.
use qift_platform.Prelude.{false, some, ◌≡◌, ◌↔◌, sym, ap₂, ◌∙◌, ◌&&◌, any, filter}
use qift_platform.Prelude.Int.{ℤ, pos, ◌+ℤ◌, ◌-ℤ◌, ◌≤ℤ◌}
use qift_platform.Treasury.{
  TreasuryAttestation, TreasuryInputs, matched, legs_of, build_treasury_snapshot,
}
use qift_platform.Treasury.Movements.{
  TreasuryMovement, split_by_as_of, Split, due_minor, amounts, is_completed,
}
use qift_platform.Treasury.Cut.{up_to, undated, net_flow, outflow, completes_transfer, total}
use qift_platform.Treasury.Classes.{
  unresolved_iff, signed_sum-included, due_minor-included, amounts-included,
}
use qift_platform.Treasury.Agreement.{LegsAgree, status_iff}

-- Up to the cut, the attested bank balance, the cash and the obligations of the inputs agree, where the
-- internal transfers still outstanding are what the closures without cash made due less what the
-- completed transfers paid; and every movement has a date.
pub record Reconciled (inputs : TreasuryInputs) : Type 0 where
  pub attested : TreasuryAttestation
  pub attested_is : inputs.attestation ≡ some attested
  pub not_negative : pos 0 ≤ℤ attested.balance_minor
  pub bank : attested.balance_minor ≡ total (up_to inputs.as_of_date) net_flow inputs.cash_movements
  pub books :
      total (up_to inputs.as_of_date) net_flow inputs.cash_movements
      ≡ total (up_to inputs.as_of_date) net_flow inputs.obligation_movements
        +ℤ (total (λ m. up_to inputs.as_of_date m && m.non_cash) outflow inputs.obligation_movements
            -ℤ total
                (λ m. up_to inputs.as_of_date m && completes_transfer m)
                (λ (m : TreasuryMovement). m.amount_minor)
                inputs.cash_movements)
  pub cash_dated : any undated inputs.cash_movements ≡ false
  pub obligations_dated : any undated inputs.obligation_movements ≡ false

-- The legs of a snapshot, in terms of its inputs.
module _ (inputs : TreasuryInputs) where
  abbrev cash_split : Split
  cash_split = split_by_as_of inputs.cash_movements inputs.as_of_date

  abbrev owed_split : Split
  owed_split = split_by_as_of inputs.obligation_movements inputs.as_of_date

  abbrev SnapshotAgrees : Type 0
  SnapshotAgrees =
      LegsAgree inputs.attestation
        (legs_of inputs.attestation cash_split.included owed_split.included) cash_split owed_split

  outstanding_is :
      due_minor (pos 0) (filter (λ (m : TreasuryMovement). m.non_cash) owed_split.included)
        -ℤ amounts (pos 0) (filter is_completed cash_split.included)
      ≡ total (λ m. up_to inputs.as_of_date m && m.non_cash) outflow inputs.obligation_movements
        -ℤ total
            (λ m. up_to inputs.as_of_date m && completes_transfer m)
            (λ (m : TreasuryMovement). m.amount_minor)
            inputs.cash_movements
  outstanding_is =
      ap₂ (λ (x y : ℤ). x -ℤ y) (due_minor-included inputs.obligation_movements inputs.as_of_date)
        (amounts-included inputs.cash_movements inputs.as_of_date)

  reconciled : SnapshotAgrees → Reconciled inputs
  unfolding legs_of
  reconciled r =
      let cash = signed_sum-included inputs.cash_movements inputs.as_of_date in
      let owed = signed_sum-included inputs.obligation_movements inputs.as_of_date in
      record {
        attested = r.attested;
        attested_is = r.attested_is;
        not_negative = r.not_negative;
        bank = r.bank ∙ cash;
        books = sym cash ∙ r.books ∙ ap₂ (λ (x y : ℤ). x +ℤ y) owed outstanding_is;
        cash_dated = (unresolved_iff inputs.cash_movements inputs.as_of_date).0 r.cash_resolved;
        obligations_dated =
            (unresolved_iff inputs.obligation_movements inputs.as_of_date).0 r.obligations_resolved;
      }

  legs_reconciled : Reconciled inputs → SnapshotAgrees
  unfolding legs_of
  legs_reconciled r =
      let cash = signed_sum-included inputs.cash_movements inputs.as_of_date in
      let owed = signed_sum-included inputs.obligation_movements inputs.as_of_date in
      record {
        attested = r.attested;
        attested_is = r.attested_is;
        not_negative = r.not_negative;
        bank = r.bank ∙ sym cash;
        books = cash ∙ r.books ∙ sym (ap₂ (λ (x y : ℤ). x +ℤ y) owed outstanding_is);
        cash_resolved = (unresolved_iff inputs.cash_movements inputs.as_of_date).1 r.cash_dated;
        obligations_resolved =
            (unresolved_iff inputs.obligation_movements inputs.as_of_date).1 r.obligations_dated;
      }

-- The status of a treasury run is `matched` exactly when a bank balance is attested, is not negative and
-- equals the cash movements dated up to the cut; these equal the obligation movements dated up to the
-- cut, with the internal transfers outstanding at it, those due by closures without cash less those
-- completed in cash; and no movement of either leg lacks its date.
pub build_treasury_snapshot_iff :
    (inputs : TreasuryInputs)
    → ((build_treasury_snapshot inputs).status ≡ matched) ↔ Reconciled inputs
unfolding build_treasury_snapshot
build_treasury_snapshot_iff inputs =
    let (to, back) = status_iff inputs.attestation (cash_split inputs) (owed_split inputs) in
    ((λ h. reconciled inputs (to h)), λ r. back (legs_reconciled inputs r))
