-- ===== src/Settlement/Engine/Assemble/Guards.antt =====
-- The guard on the binding of items: what holds of each item of a plan whose batch was created.
use qift_platform.Prelude.{
  ℕ, ◌≤◌, Bool, true, false, List, [], ◌∷◌, ◌≡◌, refl, arith, length, All, Bool-cases, inl, inr,
  ◌==◌,
}
use qift_platform.Prelude.Outcome.{ok}
use qift_platform.Settlement.Store.{Db, Item, update_many, count}
use qift_platform.Settlement.Store.Update.{count-update_many, count-update_many_le, count_mono}
use qift_platform.Settlement.Engine.Plan.{Plan}
use qift_platform.Settlement.Engine.Assemble.{claims, bind_item, bind_loop, claim, is_taken}

abbrev pub has_item_id : ℕ → Item → Bool
has_item_id k i = i.id == k

claims-has_item_id : (i row : Item) → claims i row ≡ true → has_item_id i.id row ≡ true
unfolding claims
claims-has_item_id i row h = ground arith

bound_unclaimed : (batch : ℕ) (j row : Item) → claims j (bind_item batch row) ≡ false
unfolding claims bind_item
bound_unclaimed batch j row = ground arith

same_id :
    (batch k : ℕ) (i row : Item)
    → claims i row ≡ true
    → has_item_id k (bind_item batch row) ≡ has_item_id k row
unfolding bind_item
same_id batch k i row h = refl

-- The binding of one item keeps the identifiers distinct.
distinct_bound :
    (batch : ℕ) (i : Item) (rows : List Item)
    → ((k : ℕ) → count (has_item_id k) rows ≤ 1)
    → (k : ℕ) → count (has_item_id k) (update_many (claims i) (bind_item batch) rows) ≤ 1
distinct_bound batch i rows h k =
    rw
      (count-update_many (has_item_id k) (claims i) (bind_item batch) rows
        (λ row. same_id batch k i row))
      (h k)

bind_loop_le :
    (batch : ℕ) (items rows : List Item)
    → ((k : ℕ) → count (has_item_id k) rows ≤ 1)
    → (bind_loop batch items rows).0 ≤ length items
unfolding bind_loop
bind_loop_le batch [] rows h = omega arith
bind_loop_le batch (i ∷ rest) rows h =
    let rows' = update_many (claims i) (bind_item batch) rows in
    let once = count_mono (claims i) (has_item_id i.id) rows (claims-has_item_id i) in
    omega (arith, once, h i.id, bind_loop_le batch rest rows' (distinct_bound batch i rows h))

-- What was claimable after an item was bound was claimable before.
All-claimed_before :
    (batch : ℕ) (i : Item) (items rows : List Item)
    → ((k : ℕ) → count (has_item_id k) rows ≤ 1)
    → All (λ j. count (claims j) (update_many (claims i) (bind_item batch) rows) ≡ 1) items
    → All (λ j. count (claims j) rows ≡ 1) items
All-claimed_before batch i [] rows h a = a
All-claimed_before batch i (j ∷ rest) rows h (first, others) =
    let less =
      count-update_many_le (claims j) (claims i) (bind_item batch) rows
        (λ row _. bound_unclaimed batch j row) in
    let once = count_mono (claims j) (has_item_id j.id) rows (claims-has_item_id j) in
    (omega (arith, less, once, h j.id, first), All-claimed_before batch i rest rows h others)

bind_loop-All :
    (batch : ℕ) (items rows : List Item)
    → ((k : ℕ) → count (has_item_id k) rows ≤ 1)
    → (bind_loop batch items rows).0 ≡ length items
    → All (λ i. count (claims i) rows ≡ 1) items
unfolding bind_loop
bind_loop-All batch [] rows h e = tt
bind_loop-All batch (i ∷ rest) rows h e =
    let rows' = update_many (claims i) (bind_item batch) rows in
    let once = count_mono (claims i) (has_item_id i.id) rows (claims-has_item_id i) in
    let ids = distinct_bound batch i rows h in
    let le = bind_loop_le batch rest rows' ids in
    let others = bind_loop-All batch rest rows' ids (omega (arith, once, h i.id, le, e)) in
    (omega (arith, once, h i.id, le, e), All-claimed_before batch i rest rows h others)

-- If the transaction of an assembly gets past its guards, on tables whose item identifiers are
-- distinct, then for each item of the plan exactly one row was still eligible, unbound and of the
-- amount that was read: an item that another batch took in between refuses the whole assembly.
pub claim_guard :
    (actor reference fresh : ℕ) (plan : Plan) (db db' : Db)
    → ((k : ℕ) → count (has_item_id k) db.items ≤ 1)
    → claim actor reference fresh plan db ≡ ok (tt, db')
    → All (λ i. count (claims i) db.items ≡ 1) plan.items
unfolding claim is_taken
claim_guard actor reference fresh plan db db' distinct h =
    let bound = (bind_loop fresh plan.items db.items).0 in
    bind_loop-All fresh plan.items db.items distinct
      (elim (Bool-cases (is_taken reference fresh db.batches)) [
        | inl taken ↦ let bad = rw taken at h in cc
        | inr free ↦ elim (Bool-cases (bound == length plan.items)) [
          | inr short ↦ let bad = rw short at (rw free at h) in cc
          | inl all_ ↦ ground (arith, all_)
        ]
      ])
