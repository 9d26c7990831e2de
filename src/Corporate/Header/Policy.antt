-- ===== src/Corporate/Header/Policy.antt =====
-- The privacy gate of src/corporate/roster-csv.ts: no column of an accepted header may be an address.
use qift_platform.Prelude.{
  ℕ, ◌+◌, true, false, Option, none, some, List, [], ◌∷◌, ◌++◌, ◌≡◌, refl, ◌||◌, arith, sym, ◌∙◌,
  subst, All, Bool-cases, inl, inr,
}
use qift_platform.Prelude.Outcome.{ok, refused_not}
use qift_platform.Corporate.Text.{Text, units}
use qift_platform.Corporate.Header.{
  RosterField, HeaderPlan, Unicode, empty_plan, is_empty_text, includes, normalize_header,
  is_forbidden, alias_of, map_column, plan_column, plan_columns, decide, unusable, headers_unusable,
  plan_headers, seen, trim,
}

append_not_nil : {A : Type 0} (xs : List A) (x : A) → xs ++ x ∷ [] ≡ [] → ⊥
append_not_nil [] x h = cc
append_not_nil (y ∷ ys) x h = cc

empty-forbidden :
    (u : Unicode) (norm : Text) → is_empty_text norm ≡ true → is_forbidden u norm ≡ false
unfolding is_forbidden includes units
empty-forbidden u [] h = refl
empty-forbidden u (c ∷ t) h = cc

map_column-forbidden :
    (u : Unicode) (idx : ℕ) (raw : Text) (o : Option RosterField) (plan : HeaderPlan)
    → (map_column u idx raw o plan).forbidden ≡ plan.forbidden
unfolding map_column
map_column-forbidden u idx raw none plan = refl
map_column-forbidden u idx raw (some field) plan = elim (Bool-cases (seen field plan.mapping)) [
  | inl dup ↦ rw dup refl
  | inr first ↦ rw first refl
]

plan_column-forbidden :
    (u : Unicode) (idx : ℕ) (raw : Text) (plan : HeaderPlan)
    → (plan_column u idx raw plan).forbidden ≡ []
    → (plan.forbidden ≡ []) × (is_forbidden u (normalize_header u raw) ≡ false)
unfolding plan_column
plan_column-forbidden u idx raw plan h =
    let norm = normalize_header u raw in
    elim (Bool-cases (is_empty_text norm)) [
      | inl blank ↦ (rw blank at h, empty-forbidden u norm blank)
      | inr named ↦ elim (Bool-cases (is_forbidden u norm)) [
        | inl bad ↦ absurd (append_not_nil plan.forbidden (trim raw) (rw (named, bad) at h))
        | inr fine ↦ (
          sym (map_column-forbidden u idx raw (alias_of u norm) plan) ∙ (rw (named, fine) at h),
          fine,
        )
      ]
    ]

plan_columns-forbidden :
    (u : Unicode) (idx : ℕ) (columns : List Text) (plan : HeaderPlan)
    → (plan_columns u idx columns plan).forbidden ≡ []
    → (plan.forbidden ≡ []) × All (λ raw. is_forbidden u (normalize_header u raw) ≡ false) columns
unfolding plan_columns
plan_columns-forbidden u idx [] plan h = (h, tt)
plan_columns-forbidden u idx (raw ∷ rest) plan h =
    let (first, later) = plan_columns-forbidden u (idx + 1) rest (plan_column u idx raw plan) h in
    let (before, fine) = plan_column-forbidden u idx raw plan first in (before, (fine, later))

decide_ok :
    (u : Unicode) (forbidden : List Text) (made plan : HeaderPlan)
    → decide u forbidden made ≡ ok plan
    → (forbidden ≡ [])
      × (seen RosterField.full_name plan.mapping ≡ true)
      × ((seen RosterField.email plan.mapping || seen RosterField.phone plan.mapping) ≡ true)
unfolding decide
decide_ok u (column ∷ columns) made plan h = cc
decide_ok u [] made plan h =
    let (usable, done) = refused_not (unusable made) headers_unusable (ok made) h in
    let same : made ≡ plan = cc in
    subst
      (λ (q : HeaderPlan).
        (◌≡◌ {A = List Text} [] [])
        × (seen RosterField.full_name q.mapping ≡ true)
        × ((seen RosterField.email q.mapping || seen RosterField.phone q.mapping) ≡ true))
      same (refl, ground arith, ground arith)

-- A header that is accepted has no column whose normalised name holds a forbidden fragment, and maps
-- the full name and the email or the phone.
pub plan_headers-Private :
    (u : Unicode) (header : List Text) (plan : HeaderPlan)
    → plan_headers u header ≡ ok plan
    → All (λ raw. is_forbidden u (normalize_header u raw) ≡ false) header
      × (seen RosterField.full_name plan.mapping ≡ true)
      × ((seen RosterField.email plan.mapping || seen RosterField.phone plan.mapping) ≡ true)
unfolding plan_headers
plan_headers-Private u header plan h =
    let made = plan_columns u 0 header empty_plan in
    let (none_, named, channel) = decide_ok u made.forbidden made plan h in
    ((plan_columns-forbidden u 0 header empty_plan none_).1, named, channel)
