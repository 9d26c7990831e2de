-- ===== src/Settlement/Engine/Payout/Moves.antt =====
-- The moves of the tables that the lanes make, and the invariant under each.
use qift_platform.Prelude.{
  ℕ, ◌+◌, ◌≤◌, Bool, true, false, some, List, [], ◌∷◌, ◌++◌, ◌≡◌, refl, subst, arith, any,
  any-append, Bool-cases, inl, inr, ◌==◌, ◌||◌, if◌then◌else◌,
}
use qift_platform.Settlement.States.{BatchState}
use qift_platform.Settlement.Store.{Db, Batch, Remittance, ClosureType, update_many, count}
use qift_platform.Settlement.Store.Update.{count-update_many, count-append, count_zero}
use qift_platform.Settlement.Engine.Lifecycle.{has_id, remits}
use qift_platform.Settlement.Engine.Close.{Evidence, remittance_of, is_ready_batch}
use qift_platform.Settlement.Engine.Payout.{PaidOnce, is_paid}
use qift_platform.Settlement.Engine.Payout.Rows.{any-update_other, any-update_hit, none_if_counted}

pub keep :
    (db db' : Db)
    → (db'.batches ≡ db.batches)
    → (db'.remittances ≡ db.remittances)
    → PaidOnce db
    → PaidOnce db'
keep db db' eb er inv = record {
  distinct = λ k. rw eb (inv.distinct k);
  paid = λ k h. rw eb (inv.paid k (rw er at h));
  once = λ k. rw er (inv.once k);
}

-- The row of a batch that is not paid is changed, and not its identifier.
pub move_unpaid :
    (db db' : Db) (q : Batch → Bool) (f : Batch → Batch)
    → ((k : ℕ) (b : Batch) → q b ≡ true → has_id k (f b) ≡ has_id k b)
    → ((k : ℕ) (b : Batch) → any (is_paid k) db.batches ≡ true → q b ≡ true → is_paid k b ≡ false)
    → (db'.batches ≡ update_many q f db.batches)
    → (db'.remittances ≡ db.remittances)
    → PaidOnce db
    → PaidOnce db'
move_unpaid db db' q f same unpaid eb er inv = record {
  distinct = λ k. rw (eb, count-update_many (has_id k) q f db.batches (same k)) (inv.distinct k);
  paid = λ k h.
      let before = inv.paid k (rw er at h) in
      rw eb (any-update_other (is_paid k) q f db.batches (λ b. unpaid k b before) before);
  once = λ k. rw er (inv.once k);
}

pub is_paid-has_id : (k : ℕ) (b : Batch) → is_paid k b ≡ true → has_id k b ≡ true
is_paid-has_id k b h = ground arith

ready-has_id : (k : ℕ) (b : Batch) → is_ready_batch k b ≡ true → has_id k b ≡ true
ready-has_id k b h = ground arith

pub ready-unpaid : (k j : ℕ) (b : Batch) → is_ready_batch k b ≡ true → is_paid j b ≡ false
ready-unpaid k j b h = ground arith

abbrev pub closed_row : ClosureType → ℕ → Batch → Batch
closed_row closure now b = record b {
  status = BatchState.settled;
  closure_type = some closure;
  closed_at = some now;
}

closed-paid :
    (id now : ℕ) (b : Batch)
    → is_ready_batch id b ≡ true
    → is_paid id (closed_row ClosureType.remitted now b) ≡ true
closed-paid id now b h = ground arith

created-remits :
    (k : ℕ) (batch : Batch) (e : Evidence) (fresh now : ℕ)
    → any (remits k) (remittance_of batch e fresh now ∷ []) ≡ (batch.id == k)
unfolding remittance_of
created-remits k batch e fresh now = ground arith

created_count :
    (k : ℕ) (batch : Batch) (e : Evidence) (fresh now : ℕ)
    → count (remits k) (remittance_of batch e fresh now ∷ []) ≡ (if batch.id == k then 1 else 0)
unfolding remittance_of count
created_count k batch e fresh now = refl

paid_after :
    (batch : Batch) (k now : ℕ) (rows : List Batch) (rem : List Remittance)
    → count (is_ready_batch batch.id) rows ≡ 1
    → (any (remits k) rem ≡ true → any (is_paid k) rows ≡ true)
    → (any (remits k) rem || (batch.id == k)) ≡ true
    → any
        (is_paid k)
        (update_many (is_ready_batch batch.id) (closed_row ClosureType.remitted now) rows)
      ≡ true
paid_after batch k now rows rem one old h = elim (Bool-cases (batch.id == k)) [
  | inl hit ↦
      let same : batch.id ≡ k = ground (arith, hit) in
      subst
        (λ j.
          any (is_paid j)
            (update_many (is_ready_batch batch.id) (closed_row ClosureType.remitted now) rows)
          ≡ true)
        same
        (any-update_hit (is_paid batch.id) (is_ready_batch batch.id)
          (closed_row ClosureType.remitted now) rows (closed-paid batch.id now) (omega arith))
  | inr miss ↦
      let before : any (remits k) rem ≡ true = ground (arith, miss) in
      any-update_other (is_paid k) (is_ready_batch batch.id) (closed_row ClosureType.remitted now)
        rows (ready-unpaid batch.id k) (old before)
]

once_after :
    (k id : ℕ) (rem : List Remittance)
    → count (remits k) rem ≤ 1
    → ((id == k) ≡ true → count (remits k) rem ≡ 0)
    → count (remits k) rem + (if id == k then 1 else 0) ≤ 1
once_after k id rem h absent = elim (Bool-cases (id == k)) [
  | inl hit ↦ rw (hit, absent hit) (omega arith)
  | inr miss ↦ rw miss (omega arith)
]

none_before :
    (db : Db) (id k : ℕ)
    → PaidOnce db
    → any (is_paid id) db.batches ≡ false
    → (id == k) ≡ true
    → count (remits k) db.remittances ≡ 0
none_before db id k inv unpaid hit =
    let same : id ≡ k = ground (arith, hit) in
    let unpaid_k = subst (λ j. any (is_paid j) db.batches ≡ false) same unpaid in
    count_zero (remits k) db.remittances (elim (Bool-cases (any (remits k) db.remittances)) [
      | inl some_ ↦ let p = inv.paid k some_ in cc
      | inr none_ ↦ none_
    ])

pub close_remitted :
    (db db' : Db) (batch : Batch) (e : Evidence) (fresh now : ℕ)
    → count (is_ready_batch batch.id) db.batches ≡ 1
    → (db'.batches
        ≡ update_many (is_ready_batch batch.id) (closed_row ClosureType.remitted now) db.batches)
    → (db'.remittances ≡ db.remittances ++ remittance_of batch e fresh now ∷ [])
    → PaidOnce db
    → PaidOnce db'
close_remitted db db' batch e fresh now one eb er inv =
    let q = is_ready_batch batch.id in
    let f = closed_row ClosureType.remitted now in
    let unpaid : any (is_paid batch.id) db.batches ≡ false =
      none_if_counted (has_id batch.id) q (is_paid batch.id) db.batches (is_paid-has_id batch.id)
        (ready-has_id batch.id) (ready-unpaid batch.id batch.id) (inv.distinct batch.id) one in
    record {
      distinct =
          λ k. rw (eb, count-update_many (has_id k) q f db.batches (λ b _. refl)) (inv.distinct k);
      paid = λ k h. rw eb (
          paid_after batch k now db.batches db.remittances one (inv.paid k) (
            rw
              (
                er,
                any-append (remits k) db.remittances (remittance_of batch e fresh now ∷ []),
                created-remits k batch e fresh now,
              )
              at h));
      once = λ k.
          rw
            (
              er,
              count-append (remits k) db.remittances (remittance_of batch e fresh now ∷ []),
              created_count k batch e fresh now,
            )
            (once_after k batch.id db.remittances (inv.once k)
              (none_before db batch.id k inv unpaid));
    }
