-- ===== src/Settlement/Engine/Payout/ZeroNet.antt =====
-- The close without a transfer, under the invariant that no batch is paid twice.
use qift_platform.Prelude.{
  ℕ, Bool, true, false, not, ◌≡◌, subst, ◌∙◌, Bool-cases, inl, inr, if◌then◌else◌,
}
use qift_platform.Prelude.Int.{pos, eqb_ℤ}
use qift_platform.Prelude.Outcome.{ok}
use qift_platform.Money.{CurrencyCode, to_minor}
use qift_platform.Settlement.Errors.{already_remitted, zero_net_close_requires_exact_zero}
use qift_platform.Settlement.States.{BatchState, batch_eq, assert_batch_transition}
use qift_platform.Settlement.Calculator.{as_currency_code}
use qift_platform.Settlement.Store.{
  Db, Batch, ClosureType, Tx, ◌>>=◌, ◌>>◌, pure, throw, lift, throw_when,
}
use qift_platform.Settlement.Store.Update.{tx_ok, ok_pair}
use qift_platform.Settlement.Engine.Lifecycle.{load_batch}
use qift_platform.Settlement.Engine.Close.{zero_net_tx, mark_settled_zero_net, option_closure_eq}
use qift_platform.Settlement.Engine.Payout.{PaidOnce}
use qift_platform.Settlement.Engine.Payout.Frames.{Keeps-pure}
use qift_platform.Settlement.Engine.Payout.Moves.{keep}
use qift_platform.Settlement.Engine.Payout.Steps.{throw_when_ok, lift_ok, zero_net_tx_ok}
use qift_platform.Settlement.Engine.Payout.Once.{load_batch_ok}

-- If closing a batch at a net of zero returns, no batch is paid twice afterwards if none was before.
pub mark_settled_zero_net-PaidOnce :
    (actor id now : ℕ) (db db' : Db) (again : Bool)
    → mark_settled_zero_net actor id now db ≡ ok (again, db')
    → PaidOnce db
    → PaidOnce db'
unfolding mark_settled_zero_net
mark_settled_zero_net-PaidOnce actor id now db db' again h inv =
    let replay : Batch → Tx Bool = λ batch.
      if option_closure_eq batch.closure_type ClosureType.zero_net_no_transfer
      then pure true
      else throw already_remitted in
    let checked : Batch → CurrencyCode → Tx Bool = λ batch code.
      throw_when (not (eqb_ℤ (to_minor code batch.net_amount) (pos 0)))
        zero_net_close_requires_exact_zero
      >> (zero_net_tx actor batch now >> pure false) in
    let close : Batch → Tx Bool = λ batch.
      lift (assert_batch_transition batch.status BatchState.settled)
      >> (lift (as_currency_code batch.currency) >>= checked batch) in
    let (batch, d1, first, rest) =
      tx_ok (load_batch id)
        (λ batch. if batch_eq batch.status BatchState.settled then replay batch else close batch) db
        h in
    let before = subst PaidOnce (load_batch_ok id db d1 first).1 inv in
    elim (Bool-cases (batch_eq batch.status BatchState.settled)) [
      | inl settled ↦
          elim (Bool-cases
            (option_closure_eq batch.closure_type ClosureType.zero_net_no_transfer)) [
              | inl zero_ ↦
                  let kept = Keeps-pure true d1 again db' (rw zero_ at (rw settled at rest)) in
                  keep d1 db' kept.0 kept.1 before
              | inr other ↦ let bad = rw other at (rw settled at rest) in cc
            ]
      | inr open_ ↦
          let moved = assert_batch_transition batch.status BatchState.settled in
          let (u, d2, second, rest2) =
            tx_ok (lift moved) (λ _. lift (as_currency_code batch.currency) >>= checked batch) d1
              (rw open_ at rest) in
          let (code, d3, third, rest3) =
            tx_ok (lift (as_currency_code batch.currency)) (checked batch) d2 rest2 in
          let nonzero = not (eqb_ℤ (to_minor code batch.net_amount) (pos 0)) in
          let (v, d4, fourth, rest4) =
            tx_ok (throw_when nonzero zero_net_close_requires_exact_zero)
              (λ _. zero_net_tx actor batch now >> pure false) d3 rest3 in
          let (w, d5, fifth, last) =
            tx_ok (zero_net_tx actor batch now) (λ _. pure false) d4 rest4 in
          let same : d1 ≡ d4 =
            lift_ok moved d1 d2 second
            ∙ (lift_ok (as_currency_code batch.currency) d2 d3 third
                ∙ (throw_when_ok nonzero zero_net_close_requires_exact_zero d3 d4 fourth).1) in
          subst PaidOnce (ok_pair false again d5 db' last).1
            (zero_net_tx_ok actor batch now d4 d5 fifth (subst PaidOnce same before))
    ]
