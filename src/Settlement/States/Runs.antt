-- ===== src/Settlement/States/Runs.antt =====
-- Histories of asserted transitions (src/settlement/settlement-states.ts and
-- src/settlement/settlement-receivable-states.ts).
use qift_platform.Prelude.{true, List, [], ◌∷◌, ◌≡◌, ◌≢◌, ◌⊎◌, inl, inr, refl, arith, any}
use qift_platform.Prelude.Outcome.{Result, ok, err, ◌>>◌}
use qift_platform.Settlement.Errors.{SettlementError}
use qift_platform.Settlement.States.{
  ItemState, BatchState, ReceivableState, item_eq, assert_item_transition, assert_batch_transition,
  assert_receivable_transition,
}

-- A history of moves, each of them asserted: the state at its end, or the first refusal.
module _ {S : Type 0} (assert : S → S → Result SettlementError (Unit {0})) where
  unfoldable pub run : S → List S → Result SettlementError S
  run s [] = ok s
  run s (t ∷ path) = let rest = run t path in assert s t >> rest

-- No history leaves a settled or a superseded batch: the only one that is accepted is empty.
pub batch_terminal :
    (s t : BatchState) (path : List BatchState)
    → (s ≡ BatchState.settled) ⊎ (s ≡ BatchState.superseded)
    → run assert_batch_transition s path ≡ ok t
    → (path ≡ []) × (t ≡ s)
unfolding run assert_batch_transition
batch_terminal s t [] h e = ground arith
batch_terminal s t (u ∷ path) h e = ground arith

-- No history leaves a recovered or a written-off receivable.
pub receivable_terminal :
    (s t : ReceivableState) (path : List ReceivableState)
    → (s ≡ ReceivableState.recovered) ⊎ (s ≡ ReceivableState.written_off)
    → run assert_receivable_transition s path ≡ ok t
    → (path ≡ []) × (t ≡ s)
unfolding run assert_receivable_transition
receivable_terminal s t [] h e = ground arith
receivable_terminal s t (u ∷ path) h e = ground arith

-- A move that a history makes was asserted, and the rest of the history follows it.
move_ok :
    {A : Type 0} {a : A} (m : Result SettlementError (Unit {0})) (rest : Result SettlementError A)
    → (m >> rest) ≡ ok a
    → (m ≡ ok tt) × (rest ≡ ok a)
move_ok (ok _) rest h = (refl, h)
move_ok (err e) rest h = cc

item_cases : (t : ItemState) → (t ≡ ItemState.settled) ⊎ (t ≢ ItemState.settled)
item_cases ItemState.settled = inl refl
item_cases _ = inr (λ h. cc)

into_settled :
    (s : ItemState) → assert_item_transition s ItemState.settled ≡ ok tt → s ≡ ItemState.ready
unfolding assert_item_transition
into_settled s h = ground arith

from_settled :
    (t : ItemState) → assert_item_transition ItemState.settled t ≡ ok tt → t ≡ ItemState.reversed
unfolding assert_item_transition
from_settled t h = ground arith

from_reversed : (t : ItemState) → ¬ (assert_item_transition ItemState.reversed t ≡ ok tt)
unfolding assert_item_transition
from_reversed t h = cc

-- An item that a history brings to the settled state, from any other, was ready at its start or
-- after one of its moves.
pub item_settles_from_ready :
    (s : ItemState) (path : List ItemState)
    → run assert_item_transition s path ≡ ok ItemState.settled
    → s ≢ ItemState.settled
    → any (item_eq ItemState.ready) (s ∷ path) ≡ true
unfolding run
item_settles_from_ready s [] e ne = absurd (ne (cc))
item_settles_from_ready s (t ∷ path) e ne = elim (item_cases t) [
  | inl settled ↦ rw (into_settled s (rw settled at ((move_ok (assert_item_transition s t) _ e).0)))
  | inr other ↦
      ground
        (arith, item_settles_from_ready t path (move_ok (assert_item_transition s t) _ e).1 other)
]

after_reversed :
    (t : ItemState) (path : List ItemState)
    → run assert_item_transition ItemState.reversed path ≡ ok t
    → t ≡ ItemState.reversed
unfolding run
after_reversed t [] e = cc
after_reversed t (u ∷ path) e =
    absurd (from_reversed u (move_ok (assert_item_transition ItemState.reversed u) _ e).0)

-- A settled item is never in any state but settled and reversed again.
item_after_settled :
    (t : ItemState) (path : List ItemState)
    → run assert_item_transition ItemState.settled path ≡ ok t
    → (t ≡ ItemState.settled) ⊎ (t ≡ ItemState.reversed)
unfolding run
item_after_settled t [] e = inl (cc)
item_after_settled t (u ∷ path) e =
    let (first, rest) = move_ok (assert_item_transition ItemState.settled u) _ e in
    inr (after_reversed t path (rw (from_settled u first) at rest))
