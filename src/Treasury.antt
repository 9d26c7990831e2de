-- ===== src/Treasury.antt =====
-- src/treasury/treasury-snapshot.ts: the reconciliation of the attested bank balance with the ledger's
-- cash and with its obligations, in minor units. The texts
-- of differences and alerts are left out, and the canonical snapshot.
mod Tests
pub mod Movements
pub mod Cut
pub mod Classes
pub mod Agreement
pub mod Matched
use Prim.Native.String.{String}
use package.text.Mathlib.Text.{◌==◌ as str_eq}
use qift_platform.Prelude.{
  ℕ, Bool, true, false, not, ◌||◌, Option, none, some, List, [], ◌∷◌, ◌++◌, leb, any, filter, map,
  if◌then◌else◌,
}
use qift_platform.Prelude.Int.{ℤ, pos, ◌+ℤ◌, ◌-ℤ◌, eqb_ℤ, ltb_ℤ}
use qift_platform.Settlement.Canonical.{str_lt}
use qift_platform.Treasury.Movements.{
  Flow, TreasuryMovement, date_or_last, comes_before, insert_movement, sort_movements, Split,
  classify, split_loop, split_by_as_of, signed, signed_sum, is_completed, due_minor, amounts,
  inward, outward,
}

pub record TreasuryAttestation : Type 0 where
  pub balance_minor : ℤ
  pub as_of_date : String

pub record PendingInternalTransfer : Type 0 where
  pub settlement_id : String
  pub outstanding_minor : ℤ
  pub age_days : ℕ

pub record TreasuryInputs : Type 0 where
  pub as_of_date : String
  pub attestation : Option TreasuryAttestation
  pub pending : List PendingInternalTransfer
  pub cash_movements : List TreasuryMovement
  pub obligation_movements : List TreasuryMovement

pub data DifferenceKind : Type 0 where
  bank_vs_ledger_cash cash_vs_obligations unresolved_evidence negative_bank_balance : DifferenceKind

pub record TreasuryDifference : Type 0 where
  pub kind : DifferenceKind
  pub delta_minor : ℤ
  pub ledger_id : Option String

pub data RunStatus : Type 0 where
  pending matched mismatched : RunStatus

pub data AlertKind : Type 0 where
  reconciliation_zero_violated mismatched_run unresolved_evidence_alert : AlertKind
  internal_transfer_pending_aging : String → AlertKind

abbrev pub internal_transfer_aging_alert_days : ℕ
internal_transfer_aging_alert_days = 3

-- The three legs and what separates them.
pub record Legs : Type 0 where
  pub ledger_cash : ℤ
  pub obligations : ℤ
  pub outstanding : ℤ
  pub cash_vs_obligations : ℤ
  pub bank_vs_cash : Option ℤ

unfoldable pub legs_of :
    Option TreasuryAttestation → (cash obligations : List TreasuryMovement) → Legs
unfolding signed_sum due_minor amounts
legs_of attestation cash obligations =
    let ledger_cash = signed_sum (pos 0) cash in
    let owed = signed_sum (pos 0) obligations in
    let due = due_minor (pos 0) (filter (λ (m : TreasuryMovement). m.non_cash) obligations) in
    let outstanding = due -ℤ amounts (pos 0) (filter is_completed cash) in
    record {
      ledger_cash = ledger_cash;
      obligations = owed;
      outstanding = outstanding;
      cash_vs_obligations = ledger_cash -ℤ owed -ℤ outstanding;
      bank_vs_cash = elim attestation [
        | none ↦ none
        | some a ↦ some (a.balance_minor -ℤ ledger_cash)
      ];
    }

-- One exception for a ledger row, however often it stands in the legs.
unfoldable pub unresolved_differences :
    (seen : List String) → List TreasuryMovement → List TreasuryDifference
unfolding signed
unresolved_differences seen [] = []
unresolved_differences seen (m ∷ rest) =
    let old = any (str_eq m.ledger_id) seen in
    let more = unresolved_differences (if old then seen else m.ledger_id ∷ seen) rest in
    if old
    then more
    else record { kind = unresolved_evidence; delta_minor = signed m; ledger_id = some m.ledger_id }
      ∷ more

unfoldable pub bank_difference : Option ℤ → List TreasuryDifference
bank_difference none = []
bank_difference (some delta) =
    if eqb_ℤ delta (pos 0)
    then []
    else record { kind = bank_vs_ledger_cash; delta_minor = delta; ledger_id = none } ∷ []

unfoldable pub obligation_difference : ℤ → List TreasuryDifference
obligation_difference delta =
    if eqb_ℤ delta (pos 0)
    then []
    else record { kind = cash_vs_obligations; delta_minor = delta; ledger_id = none } ∷ []

unfoldable pub negative_difference : Option TreasuryAttestation → List TreasuryDifference
negative_difference none = []
negative_difference (some a) =
    if ltb_ℤ a.balance_minor (pos 0)
    then record { kind = negative_bank_balance; delta_minor = a.balance_minor; ledger_id = none }
      ∷ []
    else []

unfoldable pub differences_of :
    Option TreasuryAttestation
    → Legs
    → (unresolved : List TreasuryMovement) → List TreasuryDifference
unfolding bank_difference obligation_difference unresolved_differences negative_difference
differences_of attestation legs unresolved =
    bank_difference legs.bank_vs_cash
    ++ (obligation_difference legs.cash_vs_obligations
        ++ (unresolved_differences [] unresolved ++ negative_difference attestation))

unfoldable pub status_of : List TreasuryDifference → Option TreasuryAttestation → RunStatus
status_of (d ∷ rest) attestation = mismatched
status_of [] none = pending
status_of [] (some a) = matched

abbrev pub is_unresolved : TreasuryDifference → Bool
is_unresolved d = elim d.kind [ unresolved_evidence ↦ true | _ ↦ false ]

unfoldable pub insert_transfer :
    PendingInternalTransfer → List PendingInternalTransfer → List PendingInternalTransfer
insert_transfer t [] = t ∷ []
insert_transfer t (u ∷ rest) =
    let later = insert_transfer t rest in
    if str_lt u.settlement_id t.settlement_id then u ∷ later else t ∷ u ∷ rest

unfoldable pub sort_transfers : List PendingInternalTransfer → List PendingInternalTransfer
unfolding insert_transfer
sort_transfers [] = []
sort_transfers (t ∷ rest) = insert_transfer t (sort_transfers rest)

unfoldable pub aging_alerts : List PendingInternalTransfer → List AlertKind
aging_alerts [] = []
aging_alerts (t ∷ rest) =
    let others = aging_alerts rest in
    if leb internal_transfer_aging_alert_days t.age_days
    then internal_transfer_pending_aging t.settlement_id ∷ others
    else others

unfoldable pub is_violated : Legs → Bool
is_violated legs =
    elim legs.bank_vs_cash [ none ↦ false | some delta ↦ not (eqb_ℤ delta (pos 0)) ]
    || not (eqb_ℤ legs.cash_vs_obligations (pos 0))

unfoldable pub alerts_of :
    Legs → List TreasuryDifference → RunStatus → List PendingInternalTransfer → List AlertKind
unfolding is_violated aging_alerts sort_transfers
alerts_of legs differences status pending_transfers =
    (if is_violated legs then reconciliation_zero_violated ∷ [] else [])
    ++ ((elim status [ mismatched ↦ mismatched_run ∷ [] | _ ↦ [] ])
        ++ ((if any is_unresolved differences then unresolved_evidence_alert ∷ [] else [])
            ++ aging_alerts (sort_transfers pending_transfers)))

pub record TreasurySnapshot : Type 0 where
  pub legs : Legs
  pub cash : Split
  pub obligations : Split
  pub differences : List TreasuryDifference
  pub status : RunStatus
  pub alerts : List AlertKind

unfoldable pub build_treasury_snapshot : TreasuryInputs → TreasurySnapshot
unfolding split_by_as_of legs_of differences_of status_of alerts_of
build_treasury_snapshot inputs =
    let cash = split_by_as_of inputs.cash_movements inputs.as_of_date in
    let obligations = split_by_as_of inputs.obligation_movements inputs.as_of_date in
    let legs = legs_of inputs.attestation cash.included obligations.included in
    let differences =
      differences_of inputs.attestation legs (cash.unresolved ++ obligations.unresolved) in
    let status = status_of differences inputs.attestation in
    record {
      legs = legs;
      cash = cash;
      obligations = obligations;
      differences = differences;
      status = status;
      alerts = alerts_of legs differences status inputs.pending;
    }
