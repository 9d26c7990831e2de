-- ===== src/Treasury/Classes.antt =====
-- The classes of a split and the sums of a snapshot (src/treasury/treasury-snapshot.ts), in terms of
-- the movements that came in.
use Prim.Native.String.{String}
use mathlib.Core.List.{append-nil, append_assoc}
use qift_platform.Prelude.{
  Bool, false, ◌&&◌, Option, none, some, List, [], ◌∷◌, ◌++◌, ◌≡◌, ◌↔◌, refl, sym, ap, ◌∙◌, map,
  filter, any, if◌then◌else◌, Bool-cases, inl, inr,
}
use qift_platform.Prelude.Int.{ℤ, pos, ◌+ℤ◌, sum_ℤ, int_laws, +ℤ_assoc, zero-add_ℤ}
use qift_platform.Settlement.Canonical.{str_lt}
use qift_platform.Treasury.Movements.{
  TreasuryMovement, sort_movements, Split, classify, split_loop, split_by_as_of, signed, signed_sum,
  is_completed, due_minor, amounts,
}
use qift_platform.Treasury.Cut.{
  date_up_to, up_to, no_date, undated, net_flow, outflow, completes_transfer, total,
  total-sort_movements, any-sort_movements, filter_nil_iff, total-filter,
}

-- A movement goes to the end of its class.
classify_classes :
    (as_of : String) (date : Option String) (m : TreasuryMovement) (s : Split)
    → ((classify as_of date m s).included
        ≡ s.included ++ (if date_up_to as_of date then m ∷ [] else []))
      × ((classify as_of date m s).unresolved
          ≡ s.unresolved ++ (if no_date date then m ∷ [] else []))
unfolding classify
classify_classes as_of none m s = (sym (append-nil s.included), refl)
classify_classes as_of (some date) m s = elim (Bool-cases (str_lt as_of date)) [
  | inl late ↦ rw late (sym (append-nil s.included), sym (append-nil s.unresolved))
  | inr early ↦ rw early (refl, sym (append-nil s.unresolved))
]

one_more :
    (p : TreasuryMovement → Bool) (xs ys : List TreasuryMovement) (m : TreasuryMovement)
    → ys ≡ xs ++ (if p m then m ∷ [] else [])
    → (rest : List TreasuryMovement) → ys ++ filter p rest ≡ xs ++ filter p (m ∷ rest)
one_more p xs ys m h rest = elim (Bool-cases (p m)) [
  | inl hit ↦
      rw hit
        (ap (λ zs. zs ++ filter p rest) (rw hit at h) ∙ append_assoc xs (m ∷ []) (filter p rest))
  | inr miss ↦ rw miss (ap (λ zs. zs ++ filter p rest) (rw miss at h ∙ append-nil xs))
]

split_loop_classes :
    (as_of : String) (ms : List TreasuryMovement) (s : Split)
    → ((split_loop as_of ms s).included ≡ s.included ++ filter (up_to as_of) ms)
      × ((split_loop as_of ms s).unresolved ≡ s.unresolved ++ filter undated ms)
unfolding split_loop
split_loop_classes as_of [] s = (sym (append-nil s.included), sym (append-nil s.unresolved))
split_loop_classes as_of (m ∷ ms) s =
    let next = classify as_of m.value_date m s in
    let (dated, open_) = classify_classes as_of m.value_date m s in
    let (included, unresolved) = split_loop_classes as_of ms next in
    (
      included ∙ one_more (up_to as_of) s.included next.included m dated ms,
      unresolved ∙ one_more undated s.unresolved next.unresolved m open_ ms,
    )

-- The movements that a split includes are those up to the cut, and those that it finds unresolved are
-- those with no date.
module _ (ms : List TreasuryMovement) (as_of : String) where
  pub included_total :
      (q : TreasuryMovement → Bool) (v : TreasuryMovement → ℤ)
      → total q v (split_by_as_of ms as_of).included ≡ total (λ m. up_to as_of m && q m) v ms
  unfolding split_by_as_of
  included_total q v =
      ap (total q v) (split_loop_classes as_of (sort_movements ms) _).0
      ∙ total-filter (up_to as_of) q v (sort_movements ms)
      ∙ total-sort_movements (λ m. up_to as_of m && q m) v ms

  pub included_sum :
      (v : TreasuryMovement → ℤ)
      → sum_ℤ (map v (split_by_as_of ms as_of).included) ≡ total (up_to as_of) v ms
  unfolding split_by_as_of
  included_sum v =
      ap (λ kept. sum_ℤ (map v kept)) (split_loop_classes as_of (sort_movements ms) _).0
      ∙ total-sort_movements (up_to as_of) v ms

  pub unresolved_iff : ((split_by_as_of ms as_of).unresolved ≡ []) ↔ (any undated ms ≡ false)
  unfolding split_by_as_of
  unresolved_iff =
      let same =
        (split_loop_classes as_of (sort_movements ms)
          (record { included = []; timing = []; unresolved = [] })).1 in
      let (to, back) = filter_nil_iff undated (sort_movements ms) in
      (
        λ h. sym (any-sort_movements undated ms) ∙ to (sym same ∙ h),
        λ h. same ∙ back (any-sort_movements undated ms ∙ h),
      )

-- The accumulating sums of the snapshot.
end_ℤ : (t : ℤ) → t ≡ t +ℤ pos 0
end_ℤ t = omega int_laws

signed_sum_lem :
    (t : ℤ) (ms : List TreasuryMovement) → signed_sum t ms ≡ t +ℤ sum_ℤ (map net_flow ms)
unfolding signed_sum signed
signed_sum_lem t [] = end_ℤ t
signed_sum_lem t (m ∷ ms) =
    signed_sum_lem (t +ℤ net_flow m) ms ∙ +ℤ_assoc t (net_flow m) (sum_ℤ (map net_flow ms))

due_minor_lem : (t : ℤ) (ms : List TreasuryMovement) → due_minor t ms ≡ t +ℤ sum_ℤ (map outflow ms)
unfolding due_minor
due_minor_lem t [] = end_ℤ t
due_minor_lem t (m ∷ ms) =
    due_minor_lem (t +ℤ outflow m) ms ∙ +ℤ_assoc t (outflow m) (sum_ℤ (map outflow ms))

amounts_lem :
    (t : ℤ) (ms : List TreasuryMovement)
    → amounts t ms ≡ t +ℤ sum_ℤ (map (λ (m : TreasuryMovement). m.amount_minor) ms)
unfolding amounts
amounts_lem t [] = end_ℤ t
amounts_lem t (m ∷ ms) =
    amounts_lem (t +ℤ m.amount_minor) ms
    ∙ +ℤ_assoc t m.amount_minor (sum_ℤ (map (λ (n : TreasuryMovement). n.amount_minor) ms))

module _ (ms : List TreasuryMovement) (as_of : String) where
  abbrev included : List TreasuryMovement
  included = (split_by_as_of ms as_of).included

  pub signed_sum-included : signed_sum (pos 0) included ≡ total (up_to as_of) net_flow ms
  signed_sum-included =
      signed_sum_lem (pos 0) included ∙ zero-add_ℤ _ ∙ included_sum ms as_of net_flow

  pub due_minor-included :
      due_minor (pos 0) (filter (λ (m : TreasuryMovement). m.non_cash) included)
      ≡ total (λ m. up_to as_of m && m.non_cash) outflow ms
  due_minor-included =
      due_minor_lem (pos 0) (filter (λ (m : TreasuryMovement). m.non_cash) included)
      ∙ zero-add_ℤ _
      ∙ included_total ms as_of (λ (m : TreasuryMovement). m.non_cash) outflow

  pub amounts-included :
      amounts (pos 0) (filter is_completed included)
      ≡ total
          (λ m. up_to as_of m && completes_transfer m)
          (λ (m : TreasuryMovement). m.amount_minor)
          ms
  amounts-included =
      amounts_lem (pos 0) (filter is_completed included)
      ∙ zero-add_ℤ _
      ∙ included_total ms as_of completes_transfer (λ (m : TreasuryMovement). m.amount_minor)
