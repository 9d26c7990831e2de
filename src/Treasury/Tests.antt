-- ===== src/Treasury/Tests.antt =====
-- Runs of the treasury snapshot on small inputs.
use Prim.Native.String.{String}
use qift_platform.Prelude.{true, false, none, some, [], ◌∷◌, ◌≡◌, ◌↔◌, refl}
use qift_platform.Prelude.Int.{pos, ◌+ℤ◌, ◌-ℤ◌}
use qift_platform.Settlement.Canonical.{str_lt}
use qift_platform.Treasury.{TreasuryInputs, RunStatus, AlertKind, build_treasury_snapshot}
use qift_platform.Treasury.Movements.{Flow, TreasuryMovement}
use qift_platform.Treasury.Matched.{Reconciled, build_treasury_snapshot_iff}

abbrev movement : String → String → Flow → TreasuryMovement
movement id event direction = record {
  ledger_id = id;
  event_type = event;
  direction = direction;
  amount_minor = pos 700;
  value_date = some "2026-03-01";
  non_cash = false;
}

abbrev balanced : TreasuryInputs
balanced = record {
  as_of_date = "2026-03-02";
  attestation = some (record { balance_minor = pos 700; as_of_date = "2026-03-02" });
  pending = record { settlement_id = "s1"; outstanding_minor = pos 5; age_days = 4 } ∷ [];
  cash_movements = movement "a" "receipt.recorded" Flow.inward ∷ [];
  obligation_movements = movement "a" "payable.accrued" Flow.inward ∷ [];
}

-- The same run with a transfer out of the bank that has no evidence row.
abbrev unexplained : TreasuryInputs
unexplained = record balanced {
  cash_movements =
      record (movement "b" "remittance.sent" Flow.outward) { value_date = none }
      ∷ balanced.cash_movements;
}

abbrev verdict : TreasuryInputs → RunStatus
verdict inputs = (build_treasury_snapshot inputs).status

balanced_is_matched : verdict balanced ≡ RunStatus.matched
unfolding build_treasury_snapshot ◌-ℤ◌ ◌+ℤ◌ str_lt
balanced_is_matched = refl

balanced_ages :
    (build_treasury_snapshot balanced).alerts ≡ AlertKind.internal_transfer_pending_aging "s1" ∷ []
unfolding build_treasury_snapshot ◌-ℤ◌ ◌+ℤ◌ str_lt
balanced_ages = refl

unexplained_is_mismatched : verdict unexplained ≡ RunStatus.mismatched
unfolding build_treasury_snapshot ◌-ℤ◌ ◌+ℤ◌ str_lt
unexplained_is_mismatched = refl

-- A closure without cash made 100 due, of which 40 were transferred; a receipt after the cut is left out.
abbrev sweeping : TreasuryInputs
sweeping = record balanced {
  attestation = some (record { balance_minor = pos 660; as_of_date = "2026-03-02" });
  cash_movements =
      record (movement "c" "receipt.recorded" Flow.inward) { value_date = some "2026-03-09" }
      ∷ (record (movement "d" "treasury.internal_transfer.completed" Flow.outward) {
        amount_minor = pos 40;
      }
          ∷ balanced.cash_movements);
  obligation_movements =
      record (movement "e" "settlement.closed_zero_net" Flow.outward) {
        amount_minor = pos 100;
        non_cash = true;
      }
      ∷ balanced.obligation_movements;
}

sweeping_is_matched : verdict sweeping ≡ RunStatus.matched
unfolding build_treasury_snapshot ◌-ℤ◌ ◌+ℤ◌ str_lt
sweeping_is_matched = refl

build_treasury_snapshot_iff_example : (verdict sweeping ≡ RunStatus.matched) ↔ Reconciled sweeping
build_treasury_snapshot_iff_example = build_treasury_snapshot_iff sweeping
