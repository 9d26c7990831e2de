-- ===== src/Settlement/Statement.antt =====
-- src/settlement/settlement-statement.ts: the statement of a batch, from its frozen record and the
-- recorded facts of its close.
use Prim.Native.String.{String}
use qift_platform.Prelude.{ℕ, Option, none, some, List, [], ◌∷◌, ◌≡◌, ap, map}
use qift_platform.Prelude.Int.{ℤ}
use qift_platform.Prelude.Outcome.{Result, ok, err}
use qift_platform.Settlement.Errors.{SettlementError, closure_and_remittance_exclusive}
use qift_platform.Settlement.Calculator.{SettlementLines, SettlementCalculation, code_text}
use qift_platform.Settlement.Store.{
  References, CompositionEntry, Allocation, StatementVersion, v1, v2,
}
use qift_platform.Settlement.Canonical.{
  Json, null, number, text, array, object, Items, nil, cons, Fields, end, field, missing, Platform,
  canonical_json, hash_canonical, count_json, text_or_null, get, get_field,
}

pub record FrozenBatchRecord : Type 0 where
  pub settlement_id : ℕ
  pub settlement_reference : ℕ
  pub store_id : ℕ
  pub currency : String
  pub window_type : String
  pub composition : List CompositionEntry
  pub calculation_snapshot : SettlementCalculation
  pub recovery_allocation : List Allocation

pub record RemittanceEvidence : Type 0 where
  pub remittance_id : ℕ
  pub bank_transfer_reference : String
  pub executed_at : String
  pub amount : ℤ

pub record ZeroNetClosureFacts : Type 0 where
  pub closed_at : String
  pub issued_under_replay_engine : String

abbrev pub zero_net_no_transfer_text : String
zero_net_no_transfer_text =
    "No bank transfer occurred. The frozen net of this settlement batch is exactly zero; this Settlement Statement is the sole and complete instrument of closure (Settlement Constitution §26). No remittance exists for this batch and none is due."

pub record CoveredOccurrence : Type 0 where
  pub occurrence_type : String
  pub occurrence_id : ℕ
  pub amount : ℤ
  pub currency : String
  pub references : References

pub record OpeningPosition : Type 0 where
  pub merchant_gross : ℤ
  pub receivable_recovery : ℤ
  pub net : ℤ

pub record ClosureBlock : Type 0 where
  pub no_transfer_statement : String
  pub facts : ZeroNetClosureFacts
  pub opening_position : OpeningPosition

pub record SettlementStatement : Type 0 where
  pub statement_version : StatementVersion
  pub settlement_reference : ℕ
  pub settlement_id : ℕ
  pub store_id : ℕ
  pub currency : String
  pub window_type : String
  pub issued_at : String
  pub covered_occurrences : List CoveredOccurrence
  pub lines : SettlementLines
  pub net_amount : ℤ
  pub item_count : ℕ
  pub remittance : Option RemittanceEvidence
  pub calculation_hash : String
  pub closure : Option ClosureBlock

-- The keys of the ten lines.
lines_json : SettlementLines → Json
lines_json l = object (
    field "merchantGross" (number l.merchant_gross) (
      field "marketplaceAdjustments" (number l.marketplace_adjustments) (
        field "qiftFees" (number l.qift_fees) (
          field "taxes" (number l.taxes) (
            field "refunds" (number l.refunds) (
              field "chargebacks" (number l.chargebacks) (
                field "reserveHeld" (number l.reserve_held) (
                  field "reserveReleased" (number l.reserve_released) (
                    field "manualAdjustments" (number l.manual_adjustments)
                      (field "receivableRecovery" (number l.receivable_recovery) end))))))))))

-- The calculation as the JSON value that its column keeps.
unfoldable pub calculation_json : SettlementCalculation → Json
unfolding lines_json
calculation_json c = object (
    field "currency" (text (code_text c.currency)) (
      field "lines" (lines_json c.lines) (
        field "netAmount" (number c.net_amount) (field "itemCount" (count_json c.item_count) end))))

references_json : References → Fields
references_json [] = end
references_json ((k, v) ∷ rest) = field k (text_or_null v) (references_json rest)

unfoldable pub covered : CompositionEntry → CoveredOccurrence
covered c = record {
  occurrence_type = c.occurrence_type;
  occurrence_id = c.occurrence_id;
  amount = c.amount;
  currency = c.currency;
  references = c.references;
}

module _ (p : Platform) where
  unfoldable pub calculation_hash : SettlementCalculation → String
  unfolding calculation_json hash_canonical
  calculation_hash snapshot = hash_canonical p (canonical_json p (calculation_json snapshot))

  covered_json : List CoveredOccurrence → Items
  unfolding references_json
  covered_json [] = nil
  covered_json (c ∷ rest) =
      cons
        (object (
          field "occurrenceType" (text c.occurrence_type) (
            field "occurrenceId" (text (p.id_text c.occurrence_id)) (
              field "amount" (number c.amount) (
                field "currency" (text c.currency)
                  (field "references" (object (references_json c.references)) end))))))
        (covered_json rest)

  remittance_json : Option RemittanceEvidence → Json
  remittance_json none = null
  remittance_json (some r) = object (
      field "remittanceId" (text (p.id_text r.remittance_id)) (
        field "bankTransferReference" (text r.bank_transfer_reference)
          (field "executedAt" (text r.executed_at) (field "amount" (number r.amount) end))))

  -- The last key of a statement; a statement without a closure has no such key.
  closure_json : Option ClosureBlock → Fields
  closure_json none = missing "closure" end
  closure_json (some c) =
      field "closure"
        (object (
          field "closureType" (text "ZERO_NET_NO_TRANSFER") (
            field "noTransferStatement" (text c.no_transfer_statement) (
              field "closedAt" (text c.facts.closed_at) (
                field "issuedUnderReplayEngine" (text c.facts.issued_under_replay_engine) (
                  field "openingPosition"
                    (object (
                      field "merchantGross" (number c.opening_position.merchant_gross) (
                        field "receivableRecovery" (number c.opening_position.receivable_recovery)
                          (field "net" (number c.opening_position.net) end))))
                    end))))))
        end

  version_text : StatementVersion → String
  version_text v1 = "v1"
  version_text v2 = "v2"

  -- The statement as the JSON value that its column keeps.
  unfoldable pub statement_json : SettlementStatement → Json
  unfolding lines_json covered_json remittance_json closure_json version_text
  statement_json s = object (
      field "statementVersion" (text (version_text s.statement_version)) (
        field "settlementReference" (text (p.id_text s.settlement_reference)) (
          field "settlementId" (text (p.id_text s.settlement_id)) (
            field "storeId" (text (p.id_text s.store_id)) (
              field "currency" (text s.currency) (
                field "windowType" (text s.window_type) (
                  field "issuedAt" (text s.issued_at) (
                    field "coveredOccurrences" (array (covered_json s.covered_occurrences)) (
                      field "lines" (lines_json s.lines) (
                        field "netAmount" (number s.net_amount) (
                          field "itemCount" (count_json s.item_count) (
                            field "remittance" (remittance_json s.remittance) (
                              field "calculationHash" (text s.calculation_hash)
                                (closure_json s.closure))))))))))))))

  unfoldable pub statement_hash : SettlementStatement → String
  unfolding hash_canonical
  statement_hash statement = hash_canonical p (canonical_json p (statement_json statement))

  -- The statement of a frozen record: the first version, or the second where it has a closure.
  unfoldable pub statement_of :
      FrozenBatchRecord
      → (issued_at : String) → StatementVersion
      → Option RemittanceEvidence
      → Option ClosureBlock
      → SettlementStatement
  unfolding covered
  statement_of frozen issued_at version remittance closure = record {
    statement_version = version;
    settlement_reference = frozen.settlement_reference;
    settlement_id = frozen.settlement_id;
    store_id = frozen.store_id;
    currency = frozen.currency;
    window_type = frozen.window_type;
    issued_at = issued_at;
    covered_occurrences = map covered frozen.composition;
    lines = frozen.calculation_snapshot.lines;
    net_amount = frozen.calculation_snapshot.net_amount;
    item_count = frozen.calculation_snapshot.item_count;
    remittance = remittance;
    calculation_hash = calculation_hash frozen.calculation_snapshot;
    closure = closure;
  }

  unfoldable pub closure_block : FrozenBatchRecord → ZeroNetClosureFacts → ClosureBlock
  closure_block frozen facts = record {
    no_transfer_statement = zero_net_no_transfer_text;
    facts = facts;
    opening_position = record {
      merchant_gross = frozen.calculation_snapshot.lines.merchant_gross;
      receivable_recovery = frozen.calculation_snapshot.lines.receivable_recovery;
      net = frozen.calculation_snapshot.net_amount;
    };
  }

  unfoldable pub generate_settlement_statement :
      FrozenBatchRecord
      → (issued_at : String) → Option RemittanceEvidence
      → Option ZeroNetClosureFacts
      → Result SettlementError SettlementStatement
  unfolding statement_of closure_block
  generate_settlement_statement frozen issued_at (some r) (some facts) =
      err closure_and_remittance_exclusive
  generate_settlement_statement frozen issued_at none (some facts) =
      ok (statement_of frozen issued_at v2 none (some (closure_block frozen facts)))
  generate_settlement_statement frozen issued_at remittance none =
      ok (statement_of frozen issued_at v1 remittance none)

  -- A statement without a closure has no such key.
  pub get-statement_json :
      (s : SettlementStatement) → s.closure ≡ none → get "closure" (statement_json s) ≡ none
  unfolding statement_json closure_json get get_field
  get-statement_json s h = ap (λ c. get "closure" (object (closure_json c))) h
