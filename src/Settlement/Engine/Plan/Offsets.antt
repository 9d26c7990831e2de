-- ===== src/Settlement/Engine/Plan/Offsets.antt =====
-- The recovery plan of a batch: its offsets stay within the balances and within the gross.
use qift_platform.Prelude.{false, List, [], ◌∷◌, ◌≡◌, refl, arith, map, All, Bool-cases, inl, inr}
use qift_platform.Prelude.Int.{ℤ, pos, ◌+ℤ◌, ◌-ℤ◌, ◌≤ℤ◌, ◌<ℤ◌, leb_ℤ, min_ℤ, max_ℤ, sum_ℤ, int_laws}
use qift_platform.Money.{CurrencyCode, to_minor, from_minor}
use qift_platform.Money.Rounding.{to_minor-from_minor}
use qift_platform.Settlement.Store.{Receivable, Allocation}
use qift_platform.Settlement.Engine.Plan.{Recovery, balance_minor, plan_loop}

-- An offset that recovers something and overdraws nothing.
pub record Sound (c : CurrencyCode) (a : Allocation) : Type 0 where
  pub recovers : pos 0 <ℤ to_minor c a.amount
  pub covered : pos 0 ≤ℤ to_minor c a.balance_after

-- An offset drawn on a receivable: with what was recovered before, it is at most the amount that the
-- merchant owes, and the balance that it records is what is left of that.
pub record DrawnOn (c : CurrencyCode) (row : Receivable) (a : Allocation) : Type 0 where
  pub receivable : a.receivable_id ≡ row.id
  pub occurrence : a.occurrence_id ≡ row.occurrence_id
  pub recovered : to_minor c a.amount_recovered_at_plan ≡ to_minor c row.amount_recovered
  pub not_overdrawn :
      to_minor c row.amount_recovered +ℤ to_minor c a.amount ≤ℤ to_minor c row.amount
  pub left :
      to_minor c a.balance_after
      ≡ to_minor c row.amount -ℤ to_minor c row.amount_recovered -ℤ to_minor c a.amount

-- Offsets drawn on the receivables in their order, on each at most once.
pub data Drawn (c : CurrencyCode) : List Receivable → List Allocation → Type 0 where
  none_drawn : (rows : List Receivable) → Drawn c rows []
  passed_over :
      (row : Receivable) {rows : List Receivable} {allocation : List Allocation}
      → Drawn c rows allocation
      → Drawn c (row ∷ rows) allocation
  drawn_on :
      (row : Receivable) (a : Allocation) {rows : List Receivable} {allocation : List Allocation}
      → DrawnOn c row a
      → Drawn c rows allocation
      → Drawn c (row ∷ rows) (a ∷ allocation)

pub record Within (c : CurrencyCode) (budget : ℤ) (rows : List Receivable) (r : Recovery)
    : Type 0 where
  pub nonnegative : pos 0 ≤ℤ r.total_minor
  pub capped : r.total_minor ≤ℤ max_ℤ budget (pos 0)
  pub summed : sum_ℤ (map (λ (a : Allocation). to_minor c a.amount) r.allocation) ≡ r.total_minor
  pub sound : All (Sound c) r.allocation
  pub drawn : Drawn c rows r.allocation

take_pos : (b g : ℤ) → leb_ℤ g (pos 0) ≡ false → leb_ℤ b (pos 0) ≡ false → pos 0 <ℤ min_ℤ b g
take_pos b g hg hb = ground arith

take_le : (b g : ℤ) → (min_ℤ b g ≤ℤ g) × (min_ℤ b g ≤ℤ b)
take_le b g = ground arith

positive : (g : ℤ) → leb_ℤ g (pos 0) ≡ false → pos 0 <ℤ g
positive g h = ground arith

max_positive : (g : ℤ) → pos 0 ≤ℤ g → max_ℤ g (pos 0) ≡ g
max_positive g h = ground arith

difference_nonneg : (t g : ℤ) → t ≤ℤ g → pos 0 ≤ℤ g -ℤ t
difference_nonneg t g h = omega (int_laws, h)

rest_nonneg : (b g : ℤ) → pos 0 ≤ℤ b -ℤ min_ℤ b g
rest_nonneg b g = difference_nonneg (min_ℤ b g) b (take_le b g).1

sum_nonneg : (t u : ℤ) → pos 0 <ℤ t → pos 0 ≤ℤ u → pos 0 ≤ℤ t +ℤ u
sum_nonneg t u ht hu = omega (int_laws, ht, hu)

sum_capped : (t u g : ℤ) → u ≤ℤ g -ℤ t → t +ℤ u ≤ℤ g
sum_capped t u g h = omega (int_laws, h)

offset_nonnegative :
    (b g u : ℤ)
    → leb_ℤ g (pos 0) ≡ false
    → leb_ℤ b (pos 0) ≡ false
    → pos 0 ≤ℤ u
    → pos 0 ≤ℤ min_ℤ b g +ℤ u
offset_nonnegative b g u hg hb hu = sum_nonneg (min_ℤ b g) u (take_pos b g hg hb) hu

offset_capped :
    (b g u : ℤ)
    → leb_ℤ g (pos 0) ≡ false
    → leb_ℤ b (pos 0) ≡ false
    → u ≤ℤ max_ℤ (g -ℤ min_ℤ b g) (pos 0)
    → min_ℤ b g +ℤ u ≤ℤ max_ℤ g (pos 0)
offset_capped b g u hg hb hu =
    let left = difference_nonneg (min_ℤ b g) g (take_le b g).0 in
    let up : pos 0 ≤ℤ g = omega (arith, positive g hg) in
    rw (max_positive g up)
      (sum_capped (min_ℤ b g) u g (rw (max_positive (g -ℤ min_ℤ b g) left) at hu))

overdrawn_not : (amount before take : ℤ) → take ≤ℤ amount -ℤ before → before +ℤ take ≤ℤ amount
overdrawn_not amount before take h = omega (int_laws, h)

-- The offset of a row that takes no more than its balance.
row_drawn :
    (c : CurrencyCode) (row : Receivable) (take : ℤ)
    → take ≤ℤ to_minor c row.amount -ℤ to_minor c row.amount_recovered
    → DrawnOn c row (record {
      receivable_id = row.id;
      occurrence_id = row.occurrence_id;
      amount = from_minor c take;
      amount_recovered_at_plan = from_minor c (to_minor c row.amount_recovered);
      balance_after =
          from_minor c (to_minor c row.amount -ℤ to_minor c row.amount_recovered -ℤ take);
    })
row_drawn c row take h = record {
  receivable = refl;
  occurrence = refl;
  recovered = to_minor-from_minor c (to_minor c row.amount_recovered);
  not_overdrawn =
      rw (to_minor-from_minor c take)
        (overdrawn_not (to_minor c row.amount) (to_minor c row.amount_recovered) take h);
  left =
      rw (to_minor-from_minor c take)
        (to_minor-from_minor c (to_minor c row.amount -ℤ to_minor c row.amount_recovered -ℤ take));
}

-- Whatever the receivables, the total of a recovery plan is at least zero and at most its budget (or
-- zero, where the budget is negative), it is the sum of its offsets, and each offset is positive and
-- leaves a balance of at least zero. The offsets are drawn on the receivables in their order, on each
-- at most once; with what was recovered of its receivable before, an offset is at most the amount of
-- the receivable, and the balance that it records is the rest.
pub plan_loop-Within :
    (c : CurrencyCode) (budget : ℤ) (rows : List Receivable)
    → Within c budget rows (plan_loop c budget rows)
unfolding plan_loop balance_minor
plan_loop-Within c budget [] = record {
  nonnegative = omega arith;
  capped = ground arith;
  summed = refl;
  sound = tt;
  drawn = none_drawn [];
}
plan_loop-Within c budget (r ∷ rest) = elim (Bool-cases (leb_ℤ budget (pos 0))) [
  | inl spent ↦ rw spent (record {
    nonnegative = omega arith;
    capped = ground arith;
    summed = refl;
    sound = tt;
    drawn = none_drawn (r ∷ rest);
  })
  | inr left ↦ elim (Bool-cases (leb_ℤ (balance_minor c r) (pos 0))) [
    | inl paid ↦
        let ih = plan_loop-Within c budget rest in
        rw (left, paid)
          (record {
            nonnegative = ih.nonnegative;
            capped = ih.capped;
            summed = ih.summed;
            sound = ih.sound;
            drawn = passed_over r ih.drawn;
          })
    | inr open_ ↦
        let take = min_ℤ (balance_minor c r) budget in
        let after = plan_loop c (budget -ℤ take) rest in
        let ih = plan_loop-Within c (budget -ℤ take) rest in
        rw (left, open_)
          (record {
            nonnegative =
                offset_nonnegative (balance_minor c r) budget after.total_minor left open_
                  ih.nonnegative;
            capped =
                offset_capped (balance_minor c r) budget after.total_minor left open_ ih.capped;
            summed = rw (to_minor-from_minor c take, ih.summed) refl;
            sound = (
              record {
                recovers =
                    rw (to_minor-from_minor c take)
                      (take_pos (balance_minor c r) budget left open_);
                covered =
                    rw (to_minor-from_minor c (balance_minor c r -ℤ take))
                      (rest_nonneg (balance_minor c r) budget);
              },
              ih.sound,
            );
            drawn =
                drawn_on r _ (row_drawn c r take (take_le (balance_minor c r) budget).1) ih.drawn;
          })
  ]
]
