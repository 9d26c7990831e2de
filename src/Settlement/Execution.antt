-- ===== src/Settlement/Execution.antt =====
-- src/settlement/settlement-execution.service.ts: what an execution is checked against. A check reads
-- the tables and changes none; `now` is the reading of the injected clock of one call.
mod Tests
mod Fixtures
pub mod Completion
pub mod Operations
pub mod ZeroNet
pub mod Replay
pub mod Votes
pub mod Untouched
pub mod Replayed
pub mod Voting
pub mod Authority
pub mod Executed
use Prim.Native.String.{String}
use text.Mathlib.Text.{◌==◌ as str_eq}
use qift_platform.Prelude.{
  ℕ, ◌+◌, ◌*◌, ◌/◌, Bool, true, false, not, ◌&&◌, ◌||◌, Option, none, some, List, [], ◌∷◌, ◌==◌,
  ltb, leb, map, filter, find, any, contains, length, if◌then◌else◌,
}
use qift_platform.Prelude.Int.{ℤ, pos, ◌+ℤ◌, sum_ℤ, eqb_ℤ, ltb_ℤ, max_ℤ}
use qift_platform.Prelude.Outcome.{Result, ok, err, ◌>>=◌, ◌>>◌, throw_if}
use qift_platform.Money.{CurrencyCode, to_minor}
use qift_platform.Settlement.Errors.{
  SettlementError, gates_not_attested, preview_hash_mismatch, preview_act_required,
  approval_required, approval_expired, insufficient_approvals, senior_approval_required,
  batch_drifted, execution_requires_ready, use_zero_net_close, requires_positive_net,
}
use qift_platform.Settlement.States.{ItemState, item_eq}
use qift_platform.Settlement.Policy.{
  hour_ms, approval_ttl_hours, ExecutionApprovalRequirement, required_execution_approval,
}
use qift_platform.Settlement.Calculator.{as_currency_code}
use qift_platform.Settlement.Store.{
  Db, Item, Batch, Remittance, CompositionEntry, PreviewAct, Approval,
}
use qift_platform.Settlement.Canonical.{Platform}
use qift_platform.Settlement.Statement.{FrozenBatchRecord}
use qift_platform.Settlement.Binding.{
  ExecutionPreview, ExecutionApproval, build_execution_preview, assert_execution_binding,
}
use qift_platform.Settlement.Engine.Reads.{closed_gross_minor, batch_items}

-- The two variables of the process, the second as the identifiers that it lists.
pub record Env : Type 0 where
  pub gates_attested : Option String
  pub senior_approvers : List ℕ

abbrev pub day_ms : ℕ
day_ms = 24 * hour_ms

abbrev pub ttl_ms : ℕ
ttl_ms = approval_ttl_hours * hour_ms

-- `now - at <= ttlMs`
abbrev pub unlapsed : (now at : ℕ) → Bool
unlapsed now at = leb now (at + ttl_ms)

unfoldable pub gates_open : Env → Bool
gates_open env = elim env.gates_attested [ none ↦ false | some v ↦ str_eq v "true" ]

unfoldable pub assert_gates_open : Env → Result SettlementError (Unit {0})
unfolding gates_open
assert_gates_open env = throw_if (not (gates_open env)) gates_not_attested

pub data DayBasis : Type 0 where
  by_executed_at by_created_at : DayBasis

abbrev pub basis_of : DayBasis → Remittance → ℕ
basis_of by_executed_at r = r.executed_at
basis_of by_created_at r = r.created_at

-- Another remittance of the store and currency, on the day from `start`.
unfoldable pub is_other_remittance :
    (own store : ℕ) → String → DayBasis → (start : ℕ) → Remittance → Bool
is_other_remittance own store currency basis start r =
    r.store_id == store
    && (str_eq r.currency currency
        && (not (r.settlement_id == own)
            && (leb start (basis_of basis r) && ltb (basis_of basis r) (start + day_ms))))

unfoldable pub day_start : ℕ → ℕ
day_start at = at / day_ms * day_ms

unfoldable pub day_aggregate_minor :
    (own store : ℕ) → String → (at : ℕ) → DayBasis → Db → Result SettlementError ℤ
unfolding is_other_remittance
day_aggregate_minor own store currency at basis db = do
  let start = day_start at
  code ← as_currency_code currency
  ok (
      sum_ℤ (
        map (λ (r : Remittance). to_minor code r.amount)
          (filter (is_other_remittance own store currency basis start) db.remittances))
      +ℤ closed_gross_minor code own store currency start (start + day_ms) db.batches)

-- The net, or the gross where the net is zero.
unfoldable pub authorization_basis_minor : FrozenBatchRecord → Result SettlementError ℤ
authorization_basis_minor frozen = do
  code ← as_currency_code frozen.currency
  let net = to_minor code frozen.calculation_snapshot.net_amount
  ok (
      if eqb_ℤ net (pos 0)
      then to_minor code frozen.calculation_snapshot.lines.merchant_gross
      else net)

-- `findMany({ where: { settlementId }, orderBy: [approvedAt, id] })`, by a stable insertion.
unfoldable pub insert_vote : Approval → List Approval → List Approval
insert_vote v [] = v ∷ []
insert_vote v (w ∷ rest) =
    let later = insert_vote v rest in
    if ltb w.approved_at v.approved_at then w ∷ later else v ∷ w ∷ rest

unfoldable pub votes_on : ℕ → List Approval → List Approval
votes_on settlement [] = []
votes_on settlement (v ∷ rest) =
    let later = votes_on settlement rest in
    if v.settlement_id == settlement then insert_vote v later else later

-- `latestByApprover.set(r.approvedBy, r)`: in the place of the earlier value of that key, or last.
unfoldable pub set_vote : Approval → List Approval → List Approval
set_vote v [] = v ∷ []
set_vote v (w ∷ rest) =
    let later = set_vote v rest in if w.approved_by == v.approved_by then v ∷ rest else w ∷ later

unfoldable pub latest_by_approver : List Approval → List Approval → List Approval
latest_by_approver seen [] = seen
latest_by_approver seen (v ∷ rest) = latest_by_approver (set_vote v seen) rest

-- The latest vote of each approver, where it has not lapsed.
unfoldable pub active_votes : (now settlement : ℕ) → List Approval → List Approval
unfolding latest_by_approver votes_on
active_votes now settlement rows =
    filter (λ (v : Approval). unlapsed now v.approved_at)
      (latest_by_approver [] (votes_on settlement rows))

-- An unlapsed act of preview of this calculation.
unfoldable pub is_preview_act : (now settlement : ℕ) → String → PreviewAct → Bool
is_preview_act now settlement hash a =
    a.settlement_id == settlement && (str_eq a.calculation_hash hash && unlapsed now a.previewed_at)

abbrev pub is_approval_required : SettlementError → Bool
is_approval_required approval_required = true
is_approval_required _ = false

-- The binding's verdict that there is no approval says that all have lapsed, where any was recorded.
unfoldable pub expired_if_any :
    Bool → Result SettlementError (Unit {0}) → Result SettlementError (Unit {0})
expired_if_any recorded (ok done) = ok done
expired_if_any recorded (err e) =
    if is_approval_required e && recorded then err approval_expired else err e

abbrev pub has_votes : List Approval → Bool
has_votes [] = false
has_votes (v ∷ rest) = true

-- The count of the approvals and the seat of a senior approver.
unfoldable pub assert_level :
    Env → List ExecutionApproval → ExecutionApprovalRequirement → Result SettlementError (Unit {0})
assert_level env approvals requirement = do
  throw_if (ltb (length approvals) requirement.approvals_needed) insufficient_approvals
  throw_if
      (requirement.senior_required
        && not (
            any (λ (a : ExecutionApproval). contains env.senior_approvers a.approved_by) approvals))
      senior_approval_required

-- Whether the item of an entry is among the items of the batch, and ready.
unfoldable pub still_ready : List Item → CompositionEntry → Bool
still_ready items c = elim (find (λ (i : Item). i.id == c.item_id) items) [
  | none ↦ false
  | some i ↦ item_eq i.state ItemState.ready
]

unfoldable pub assert_no_drift :
    List Item → List CompositionEntry → Result SettlementError (Unit {0})
unfolding still_ready
assert_no_drift items [] = ok tt
assert_no_drift items (c ∷ rest) =
    let later = assert_no_drift items rest in
    throw_if (not (still_ready items c)) batch_drifted >> later

module _ (p : Platform) where
  unfoldable pub execution_approval : Approval → ExecutionApproval
  execution_approval v = record {
    settlement_id = v.settlement_id;
    settlement_reference = v.reference;
    calculation_hash = v.calculation_hash;
    approved_by = v.approved_by;
    level = v.required_level;
    approved_at = p.iso v.approved_at;
  }

  -- The binding gate, which `execute` and `closeZeroNet` share: the approvals that it lets through.
  unfoldable pub bound_approvals :
      (now actor : ℕ)
      → FrozenBatchRecord
      → (preview_hash : String) → Db
      → Result SettlementError (List ExecutionApproval)
  unfolding is_preview_act active_votes votes_on expired_if_any
  bound_approvals now actor frozen preview_hash db = do
    preview ← build_execution_preview p frozen (p.iso now)
    throw_if (not (str_eq preview_hash preview.calculation_hash)) preview_hash_mismatch
    throw_if
        (not (any (is_preview_act now frozen.settlement_id preview.calculation_hash) db.previews))
        preview_act_required
    let approvals = map execution_approval (active_votes now frozen.settlement_id db.approvals)
    expired_if_any (has_votes (votes_on frozen.settlement_id db.approvals))
        (assert_execution_binding p frozen preview approvals actor)
    ok approvals

  -- The other money of the store on the days of an execution: the value day or the recording day,
  -- whichever has more; and of a close, the recording day.
  unfoldable pub execution_aggregate :
      (now executed_at : ℕ) → FrozenBatchRecord → Db → Result SettlementError ℤ
  execution_aggregate now executed_at frozen db = do
    value_day ←
        day_aggregate_minor frozen.settlement_id frozen.store_id frozen.currency executed_at
          by_executed_at db
    recording_day ←
        day_aggregate_minor frozen.settlement_id frozen.store_id frozen.currency now by_created_at
          db
    ok (max_ℤ value_day recording_day)

  unfoldable pub close_aggregate : (now : ℕ) → FrozenBatchRecord → Db → Result SettlementError ℤ
  close_aggregate now frozen db =
      day_aggregate_minor frozen.settlement_id frozen.store_id frozen.currency now by_created_at db

  -- The gate, the level and the drift check, in the order of both operations.
  unfoldable pub authorise :
      Env
      → (now actor : ℕ) → FrozenBatchRecord
      → (preview_hash : String) → (FrozenBatchRecord → Db → Result SettlementError ℤ)
      → Db
      → Result SettlementError (List ExecutionApproval)
  unfolding bound_approvals assert_level assert_no_drift
  authorise env now actor frozen preview_hash aggregate db = do
    approvals ← bound_approvals now actor frozen preview_hash db
    other ← aggregate frozen db
    basis ← authorization_basis_minor frozen
    assert_level env approvals (required_execution_approval basis other)
    items ← batch_items frozen.settlement_id db
    assert_no_drift items frozen.composition
    ok approvals

-- `toMinor(frozen.calculationSnapshot.netAmount, asCurrencyCode(frozen.currency))`
unfoldable pub frozen_net : FrozenBatchRecord → Result SettlementError ℤ
frozen_net frozen = do
  code ← as_currency_code frozen.currency
  ok (to_minor code frozen.calculation_snapshot.net_amount)

-- The refusals of an execution before its lanes: the status, a net of zero, a negative net.
unfoldable pub payable_net : FrozenBatchRecord → (open_ : Bool) → Result SettlementError ℤ
unfolding frozen_net
payable_net frozen open_ = do
  throw_if (not open_) execution_requires_ready
  net ← frozen_net frozen
  throw_if (eqb_ℤ net (pos 0)) use_zero_net_close
  throw_if (ltb_ℤ net (pos 0)) requires_positive_net
  ok net
