-- ===== src/Settlement/Execution/Tests.antt =====
-- A ready batch that is approved and executed, and one that is closed at a net of zero.
use Prim.Native.String.{String}
use package.text.Mathlib.TextEquality.{eq_iff}
use qift_platform.Prelude.{true, Option, none, some, [], ◌∷◌, ◌≡◌, ◌≢◌, ◌↔◌, refl, arith}
use qift_platform.Prelude.Int.{pos, ◌+ℤ◌, ◌-ℤ◌}
use qift_platform.Prelude.Outcome.{Result, ok}
use qift_platform.Money.{CurrencyCode, to_minor, from_minor}
use qift_platform.Settlement.Errors.{SettlementError}
use qift_platform.Settlement.States.{
  ReceivableState, assert_item_transition, assert_batch_transition, assert_receivable_transition,
}
use qift_platform.Settlement.Calculator.{
  calculation_of, recovery_only, as_currency_code, gross_loop, net_minor, calculate_settlement,
}
use qift_platform.Settlement.Store.{
  v1, ReplayRecord, Db, Batch, Receivable, Allocation, Approval, StatementRecord, Remittance, count,
  update_many, post,
}
use qift_platform.Settlement.Canonical.{
  null, text, object, array, nil, cons, Fields, field, missing, end, str_lt, insert_entry,
  sort_entries, join_comma, object_text, canonical_json, entries,
}
use qift_platform.Settlement.Execution.{
  assert_gates_open, day_aggregate_minor, authorization_basis_minor, insert_vote, set_vote,
  execution_approval, execution_aggregate, close_aggregate, authorise, payable_net,
}
use qift_platform.Settlement.Execution.Operations.{approve, execute, heal, settle_and_complete}
use qift_platform.Settlement.Execution.ZeroNet.{close_zero_net}
use qift_platform.Settlement.Execution.Voting.{OneVote, Voted, approve-Voted, approve-OneVote}
use qift_platform.Settlement.Execution.Replayed.{complete_chain-replay}
use qift_platform.Settlement.Binding.Gate.{Bound, assert_execution_binding_iff}
use qift_platform.Settlement.Canonical.Reordering.{
  canonical_json-Reordered, ReorderedFields, same_json, in_array, in_object, no_items, each_item,
  same_fields, each_field, trans_fields, forget_missing, swap_fields,
}
use qift_platform.Settlement.Execution.Executed.{
  Executed, Closed, execute-Executed, close_zero_net-Closed,
}
use qift_platform.Settlement.Call.{◌>>=◌, transaction}
use qift_platform.Settlement.Execution.Completion.{
  issue_generated, complete_chain, complete_chain_zero_net,
}
use qift_platform.Settlement.Statement.{
  calculation_hash, statement_of, generate_settlement_statement,
}
use qift_platform.Settlement.Binding.{
  entry_input, recovered_total, recompute, preview_of, build_execution_preview,
  assert_execution_binding,
}
use qift_platform.Settlement.Engine.Reads.{frozen_of, closed_gross_minor, found_batch, batch_items}
use qift_platform.Settlement.Engine.Close.{
  consume_row, consume_allocation, settle_rows, remittance_of, settle_tx, mark_settled, zero_net_tx,
  mark_settled_zero_net,
}
use qift_platform.Settlement.Engine.Assemble.{marker, audit_guaranteed}
use qift_platform.Settlement.Engine.Lifecycle.{load_batch}
use qift_platform.Settlement.Policy.{required_execution_approval}
use qift_platform.Ledger.{validated, record_entry, append_row}
use qift_platform.Prelude.Text.{trim, to_upper}
use qift_platform.Settlement.Execution.Replay.{replay}
use qift_platform.Settlement.Execution.Fixtures.{
  simple_platform, open_env, batch_with, paying_batch, vote, tables, paying_db, value_or,
  paying_input, no_remittance,
}

abbrev executing : Result SettlementError (Remittance × Option StatementRecord) × Db
executing = execute simple_platform open_env 6 3_000 40 9 paying_input paying_db

execute_run : executing ≡ (ok (value_or (no_remittance, none) executing), executing.1)
unfolding ◌>>=◌ transaction assert_gates_open day_aggregate_minor authorization_basis_minor
    insert_vote set_vote execution_approval execution_aggregate authorise payable_net heal
    settle_and_complete execute issue_generated calculation_hash generate_settlement_statement
    str_lt insert_entry sort_entries join_comma object_text entries build_execution_preview
    assert_execution_binding frozen_of closed_gross_minor batch_items consume_allocation settle_rows
    remittance_of settle_tx mark_settled marker audit_guaranteed load_batch as_currency_code
    gross_loop net_minor calculation_of calculate_settlement required_execution_approval count post
    assert_item_transition assert_batch_transition validated record_entry append_row to_minor
    from_minor ◌-ℤ◌ trim to_upper
execute_run = refl

paying_found : found_batch 9 paying_db ≡ ok paying_batch
unfolding found_batch
paying_found = refl

execute-Executed_example :
    Executed simple_platform open_env 6 3_000 40 paying_batch paying_input paying_db
execute-Executed_example =
    execute-Executed simple_platform open_env 6 3_000 40 9 paying_input paying_db executing.1
      paying_batch (value_or (no_remittance, none) executing) paying_found refl execute_run

-- A receivable that takes the whole gross.
abbrev consuming : Allocation
consuming = record {
  receivable_id = 3;
  occurrence_id = 12;
  amount = pos 100_000_000;
  amount_recovered_at_plan = pos 0;
  balance_after = pos 0;
}

abbrev owed_row : Receivable
owed_row = record {
  id = 3;
  store_id = 7;
  currency = "SAR";
  occurrence_id = 12;
  amount = pos 100_000_000;
  amount_recovered = pos 0;
  state = ReceivableState.open_;
  staged_by = some 9;
  recovered_at = none;
  recovered_by = none;
}

abbrev zero_batch : Batch
zero_batch =
    batch_with (calculation_of CurrencyCode.sar (pos 10_000) (recovery_only (pos 100_000_000)) 1)
      (consuming ∷ [])

abbrev zero_db : Db
zero_db = tables zero_batch (owed_row ∷ []) (vote ∷ [])

abbrev closing : Result SettlementError (Option StatementRecord) × Db
closing = close_zero_net simple_platform open_env 6 3_000 9 "h" zero_db

close_run : closing ≡ (ok (value_or none closing), closing.1)
unfolding ◌>>=◌ transaction assert_gates_open day_aggregate_minor authorization_basis_minor
    insert_vote set_vote execution_approval close_aggregate authorise payable_net issue_generated
    complete_chain_zero_net calculation_hash generate_settlement_statement str_lt insert_entry
    sort_entries join_comma object_text entries build_execution_preview assert_execution_binding
    frozen_of closed_gross_minor batch_items consume_row consume_allocation settle_rows zero_net_tx
    mark_settled_zero_net marker audit_guaranteed load_batch as_currency_code gross_loop net_minor
    calculation_of calculate_settlement required_execution_approval update_many count post
    assert_item_transition assert_batch_transition assert_receivable_transition validated
    record_entry append_row to_minor from_minor ◌-ℤ◌ trim to_upper close_zero_net
close_run = refl

zero_found : found_batch 9 zero_db ≡ ok zero_batch
unfolding found_batch
zero_found = refl

close_zero_net-Closed_example : Closed simple_platform open_env 6 3_000 zero_batch "h" zero_db
close_zero_net-Closed_example =
    close_zero_net-Closed simple_platform open_env 6 3_000 9 "h" zero_db closing.1 zero_batch
      (value_or none closing) zero_found refl close_run

-- Before the vote.
abbrev unvoted_db : Db
unvoted_db = tables paying_batch [] []

abbrev approving : Result SettlementError Approval × Db
approving = approve simple_platform 8 2_000 2 9 "h" none unvoted_db

approve_run : approving ≡ (ok vote, approving.1)
unfolding ◌>>=◌ transaction day_aggregate_minor authorization_basis_minor close_aggregate approve
    calculation_hash frozen_of closed_gross_minor found_batch audit_guaranteed as_currency_code
    net_minor calculation_of required_execution_approval to_minor from_minor ◌-ℤ◌ to_upper
approve_run = refl

unvoted_found : found_batch 9 unvoted_db ≡ ok paying_batch
unfolding found_batch
unvoted_found = refl

approve-Voted_example : Voted simple_platform 2_000 8 paying_batch "h" unvoted_db approving.1 vote
approve-Voted_example =
    approve-Voted simple_platform 8 2_000 2 9 "h" none unvoted_db approving.1 paying_batch vote
      unvoted_found approve_run

unvoted-OneVote : OneVote 2_000 unvoted_db
unfolding count
unvoted-OneVote settlement k = omega arith

approve-OneVote_example : OneVote 2_000 approving.1
approve-OneVote_example =
    approve-OneVote simple_platform 8 2_000 2 9 "h" none unvoted_db approving.1 vote approve_run
      unvoted-OneVote

-- A recorded transfer whose completion was cut off.
abbrev paid_remittance : Remittance
paid_remittance = record {
  id = 40;
  settlement_id = 9;
  reference = 100;
  store_id = 7;
  currency = "SAR";
  amount = pos 100_000_000;
  bank_reference = "TRX-1";
  executed_at = 2_500;
  executed_by = 6;
  created_at = 3_000;
}

abbrev paid_db : Db
paid_db = record paying_db { remittances = paid_remittance ∷ [] }

abbrev completing : Result SettlementError (Option StatementRecord) × Db
completing =
    complete_chain simple_platform 6 3_000 true (frozen_of paying_batch) paid_remittance paid_db

complete_run : completing ≡ (ok (value_or none completing), completing.1)
unfolding ◌>>=◌ transaction heal issue_generated generate_settlement_statement frozen_of
    audit_guaranteed post validated record_entry append_row trim
complete_run = refl

paid_found : found_batch 9 paid_db ≡ ok paying_batch
unfolding found_batch
paid_found = refl

paid_recomputed : recompute (frozen_of paying_batch) ≡ ok paying_batch.calculation
unfolding recompute entry_input recovered_total frozen_of calculate_settlement gross_loop
    as_currency_code to_upper calculation_of net_minor to_minor from_minor ◌+ℤ◌ ◌-ℤ◌
paid_recomputed = refl

complete_chain-replay_example :
    (verdict : ReplayRecord) × (after_replay : Db) × (replay simple_platform 4 9_000 9 completing.1
      ≡ (ok verdict, after_replay))
    × (verdict.calculation_replay_verified ≡ true)
    × (verdict.statement_integrity_verified ≡ true)
    × (verdict.statement_identical ≡ true)
complete_chain-replay_example =
    complete_chain-replay simple_platform 6 3_000 4 9_000 9 true paying_batch paid_remittance
      paid_db completing.1 (value_or none completing) paid_found refl refl paid_recomputed
      complete_run

assert_execution_binding_iff_example :
    (assert_execution_binding simple_platform
        (frozen_of paying_batch)
        (preview_of simple_platform
          (frozen_of paying_batch)
          "t"
          paying_batch.calculation
          (statement_of simple_platform (frozen_of paying_batch) "t" v1 none none))
        (execution_approval simple_platform vote ∷ [])
        6
      ≡ ok tt)
    ↔ Bound simple_platform
        (frozen_of paying_batch)
        (preview_of simple_platform
          (frozen_of paying_batch)
          "t"
          paying_batch.calculation
          (statement_of simple_platform (frozen_of paying_batch) "t" v1 none none))
        (execution_approval simple_platform vote ∷ [])
        6
assert_execution_binding_iff_example =
    assert_execution_binding_iff simple_platform (frozen_of paying_batch)
      (preview_of simple_platform (frozen_of paying_batch) "t" paying_batch.calculation
        (statement_of simple_platform (frozen_of paying_batch) "t" v1 none none))
      (execution_approval simple_platform vote ∷ []) 6

b_is_not_a : ◌≢◌ {A = String} "b" "a"
b_is_not_a h = let same = (eq_iff "b" "a").1 h in cc

abbrev built_first : Fields
built_first = field "b" null (missing "c" (field "a" (text "x") end))

abbrev built_last : Fields
built_last = field "a" (text "x") (field "b" null end)

built_alike : ReorderedFields built_first built_last
built_alike =
    trans_fields (each_field "b" (same_json null) (forget_missing "c" (field "a" (text "x") end)))
      (swap_fields "b" "a" null (text "x") end (λ h. b_is_not_a h))

-- A list of objects, in an object, that were built in two orders, once with an undefined key.
canonical_json-Reordered_example :
    canonical_json simple_platform (object (field "k" (array (cons (object built_first) nil)) end))
    ≡ canonical_json simple_platform (object (field "k" (array (cons (object built_last) nil)) end))
canonical_json-Reordered_example =
    canonical_json-Reordered simple_platform
      (object (field "k" (array (cons (object built_first) nil)) end))
      (object (field "k" (array (cons (object built_last) nil)) end))
      (in_object
        (each_field "k" (in_array (each_item (in_object built_alike) no_items)) (same_fields end)))
