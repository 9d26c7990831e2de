-- ===== src/Settlement/Execution/Votes.antt =====
-- The votes that src/settlement/settlement-execution.service.ts counts: each of them is recorded for
-- the batch and has not lapsed, and no identity has two.
use qift_platform.Prelude.{
  ℕ, ◌≤◌, Bool, true, false, ◌&&◌, List, [], ◌∷◌, ◌==◌, ◌≡◌, refl, arith, All, any, filter, map,
  ltb, Bool-cases, inl, inr, ==_iff, if_both,
}
use qift_platform.Settlement.Store.{Approval, count}
use qift_platform.Settlement.Canonical.{Platform}
use qift_platform.Settlement.Binding.{ExecutionApproval}
use qift_platform.Settlement.Execution.{
  unlapsed, insert_vote, votes_on, set_vote, latest_by_approver, active_votes, execution_approval,
}

module _ {A : Type 0} where
  weaken : (P Q : A → Type 0) (xs : List A) → ((x : A) → P x → Q x) → All P xs → All Q xs
  weaken P Q [] f h = tt
  weaken P Q (x ∷ xs) f h = (f x h.0, weaken P Q xs f h.1)

  All-filter :
      (P : A → Type 0) (f : A → Bool) (xs : List A)
      → All P xs
      → All (λ x. P x × (f x ≡ true)) (filter f xs)
  All-filter P f [] h = tt
  All-filter P f (x ∷ xs) h = elim (Bool-cases (f x)) [
    | inl kept ↦ rw kept ((h.0, kept), All-filter P f xs h.1)
    | inr dropped ↦ rw dropped (All-filter P f xs h.1)
  ]

  count-filter : (p f : A → Bool) (xs : List A) → count p (filter f xs) ≤ count p xs
  unfolding count
  count-filter p f [] = omega arith
  count-filter p f (x ∷ xs) = ground (arith, count-filter p f xs)

  -- A row answers every test that it passes.
  Answered : List A → A → Type 0
  Answered xs x = (f : A → Bool) → f x ≡ true → any f xs ≡ true

  answers : (xs : List A) → All (Answered xs) xs
  unfolding Answered
  answers [] = tt
  answers (x ∷ xs) = (
    λ f h. rw h refl,
    weaken (Answered xs) (Answered (x ∷ xs)) xs (λ y h f k. ground (arith, h f k)) (answers xs),
  )

module _ {A B : Type 0} where
  All-map : (Q : B → Type 0) (g : A → B) (xs : List A) → All (λ x. Q (g x)) xs → All Q (map g xs)
  All-map Q g [] h = tt
  All-map Q g (x ∷ xs) h = (h.0, All-map Q g xs h.1)

  count-map :
      (q : B → Bool) (g : A → B) (xs : List A) → count q (map g xs) ≡ count (λ x. q (g x)) xs
  unfolding count
  count-map q g [] = refl
  count-map q g (x ∷ xs) = rw (count-map q g xs) refl

insert_vote-All :
    (P : Approval → Type 0) (v : Approval) (rows : List Approval)
    → P v
    → All P rows
    → All P (insert_vote v rows)
unfolding insert_vote
insert_vote-All P v [] h k = (h, tt)
insert_vote-All P v (w ∷ rest) h k =
    if_both (All P) (ltb w.approved_at v.approved_at) (k.0, insert_vote-All P v rest h k.1) (h, k)

votes_on-All :
    (P : Approval → Type 0) (settlement : ℕ) (rows : List Approval)
    → All P rows
    → All (λ v. P v × (v.settlement_id ≡ settlement)) (votes_on settlement rows)
unfolding votes_on
votes_on-All P settlement [] h = tt
votes_on-All P settlement (v ∷ rest) h = elim (Bool-cases (v.settlement_id == settlement)) [
  | inl own ↦ rw own (
      insert_vote-All (λ v. P v × (v.settlement_id ≡ settlement)) v _
        (h.0, (==_iff v.settlement_id settlement).0 own) (votes_on-All P settlement rest h.1))
  | inr other ↦ rw other (votes_on-All P settlement rest h.1)
]

set_vote-All :
    (P : Approval → Type 0) (v : Approval) (rows : List Approval)
    → P v
    → All P rows
    → All P (set_vote v rows)
unfolding set_vote
set_vote-All P v [] h k = (h, tt)
set_vote-All P v (w ∷ rest) h k =
    if_both (All P) (w.approved_by == v.approved_by) (h, k.1) (k.0, set_vote-All P v rest h k.1)

latest_by_approver-All :
    (P : Approval → Type 0) (seen rows : List Approval)
    → All P seen
    → All P rows
    → All P (latest_by_approver seen rows)
unfolding latest_by_approver
latest_by_approver-All P seen [] h k = h
latest_by_approver-All P seen (v ∷ rest) h k =
    latest_by_approver-All P (set_vote v seen) rest (set_vote-All P v seen k.0 h) k.1

abbrev by : ℕ → Approval → Bool
by k v = v.approved_by == k

set_vote_other :
    (k : ℕ) (v : Approval) (seen : List Approval)
    → (v.approved_by == k) ≡ false
    → count (by k) (set_vote v seen) ≡ count (by k) seen
unfolding count set_vote
set_vote_other k v [] h = rw h refl
set_vote_other k v (w ∷ rest) h = ground (arith, set_vote_other k v rest h)

set_vote_once :
    (k : ℕ) (v : Approval) (seen : List Approval)
    → count (by k) seen ≤ 1
    → count (by k) (set_vote v seen) ≤ 1
unfolding count set_vote
set_vote_once k v [] h = ground arith
set_vote_once k v (w ∷ rest) h = ground (arith, set_vote_other k v rest, set_vote_once k v rest)

le_trans : {a b c : ℕ} → a ≤ b → b ≤ c → a ≤ c
le_trans h k = omega arith

latest_once :
    (k : ℕ) (seen rows : List Approval)
    → count (by k) seen ≤ 1
    → count (by k) (latest_by_approver seen rows) ≤ 1
unfolding latest_by_approver
latest_once k seen [] h = h
latest_once k seen (v ∷ rest) h = latest_once k (set_vote v seen) rest (set_vote_once k v seen h)

-- The approvals of an execution, from the votes that were recorded.
pub counted_once :
    (p : Platform) (now settlement k : ℕ) (rows : List Approval)
    → count
        (λ (a : ExecutionApproval). a.approved_by == k)
        (map (execution_approval p) (active_votes now settlement rows))
      ≤ 1
unfolding active_votes count execution_approval
counted_once p now settlement k rows =
    rw
      (count-map (λ (a : ExecutionApproval). a.approved_by == k) (execution_approval p)
        (active_votes now settlement rows))
      (le_trans
        (count-filter (by k) (λ (v : Approval). unlapsed now v.approved_at)
          (latest_by_approver [] (votes_on settlement rows)))
        (latest_once k [] (votes_on settlement rows) (omega arith)))

-- A recorded vote on the batch, of this identity, that has not lapsed.
abbrev pub is_active_vote : (now settlement approver : ℕ) → Approval → Bool
is_active_vote now settlement approver v =
    v.settlement_id == settlement && (v.approved_by == approver && unlapsed now v.approved_at)

pub counted-All :
    (p : Platform) (now settlement : ℕ) (rows : List Approval)
    → All
        (λ (a : ExecutionApproval). any (is_active_vote now settlement a.approved_by) rows ≡ true)
        (map (execution_approval p) (active_votes now settlement rows))
unfolding active_votes execution_approval Answered
counted-All p now settlement rows =
    let latest = latest_by_approver [] (votes_on settlement rows) in
    let Kept : Approval → Type 0 = λ v. Answered rows v × (v.settlement_id ≡ settlement) in
    All-map
      (λ (a : ExecutionApproval). any (is_active_vote now settlement a.approved_by) rows ≡ true)
      (execution_approval p) (active_votes now settlement rows)
      (weaken (λ v. Kept v × (unlapsed now v.approved_at ≡ true))
        (λ v. any (is_active_vote now settlement v.approved_by) rows ≡ true)
        (active_votes now settlement rows)
        (λ v h. h.0.0 (is_active_vote now settlement v.approved_by) (ground (arith, h.0.1, h.1)))
        (All-filter Kept (λ (v : Approval). unlapsed now v.approved_at) latest
          (latest_by_approver-All Kept [] (votes_on settlement rows) tt
            (votes_on-All (Answered rows) settlement rows (answers rows)))))
