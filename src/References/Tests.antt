-- ===== src/References/Tests.antt =====
-- Runs of the reference grammar on small inputs, and the theorems at them.
use qift_platform.Prelude.{ℕ, ◌%◌, ◌<◌, Bool, none, some, [], ◌∷◌, ◌≡◌, refl, leb, arith}
use qift_platform.Prelude.Outcome.{ok, err}
use qift_platform.Corporate.Text.{Text, units}
use qift_platform.References.{
  qb, qc, digits, padded, series_year_invalid, max_allocation_attempts, normalize_reference,
  allocate_reference,
}
use qift_platform.References.Spelling.{IsUpper, ascii_upper, Spells, done, same, put_in, left_out}
use qift_platform.References.RoundTrip.{Canonical, sequential_form, normalize_reference-Spells}
use qift_platform.References.Form.{normalize_reference-Canonical}
use qift_platform.References.Allocation.{Allocated, allocate_reference-Allocated}

-- An upper case that leaves what is not ASCII.
abbrev upper : ℕ → Text
upper c = ascii_upper c ∷ []

upper-IsUpper : IsUpper upper
upper-IsUpper c h = refl

typed_by_hand : normalize_reference upper (units "qb 7xkm 3npq") ≡ ok (some (units "QB-7XKM-3NPQ"))
unfolding normalize_reference
typed_by_hand = refl

short_value : normalize_reference upper (units "qc 2026/7") ≡ ok (some (units "QC-2026-00007"))
unfolding normalize_reference
short_value = refl

ambiguous_symbol : normalize_reference upper (units "QB-7XKM-3NPO") ≡ ok none
unfolding normalize_reference
ambiguous_symbol = refl

-- The years from 2000 to 2019 fit the shape and are refused by an error.
early_year : normalize_reference upper (units "QC-2005-00001") ≡ err (series_year_invalid 2005)
unfolding normalize_reference
early_year = refl

-- QC-2026-00007, and as it may be typed.
abbrev stored : Text
stored = units "QC-2026-00007"

stored-Canonical : Canonical stored
unfolding units digits padded
stored-Canonical =
    sequential_form qc 2026 7 refl (omega arith) (omega arith) (omega arith) (omega arith) refl

typed : Text
typed = b'q' ∷ b'c' ∷ b'2' ∷ b'0' ∷ b'2' ∷ b'6' ∷ b' ' ∷ b'0' ∷ b'0' ∷ b'0' ∷ b'0' ∷ b'7' ∷ []

typed-Spells : Spells typed stored
unfolding units typed
typed-Spells = same 113 81 (omega arith) (omega arith) refl (
    same 99 67 (omega arith) (omega arith) refl (
      left_out 45 (omega arith) refl (
        same 50 50 (omega arith) (omega arith) refl (
          same 48 48 (omega arith) (omega arith) refl (
            same 50 50 (omega arith) (omega arith) refl (
              same 54 54 (omega arith) (omega arith) refl (
                put_in 32 (omega arith) refl (
                  left_out 45 (omega arith) refl (
                    same 48 48 (omega arith) (omega arith) refl (
                      same 48 48 (omega arith) (omega arith) refl (
                        same 48 48 (omega arith) (omega arith) refl (
                          same 48 48 (omega arith) (omega arith) refl
                            (same 55 55 (omega arith) (omega arith) refl (done))))))))))))))

normalize_reference-Spells_example : normalize_reference upper typed ≡ ok (some stored)
normalize_reference-Spells_example =
    normalize_reference-Spells upper upper-IsUpper stored-Canonical typed-Spells

stored_is_normal : normalize_reference upper stored ≡ ok (some stored)
unfolding normalize_reference
stored_is_normal = refl

normalize_reference-Canonical_example : Canonical stored
normalize_reference-Canonical_example = normalize_reference-Canonical upper stored stored_is_normal

abbrev draws : ℕ → ℕ
draws i = i % 31

draws_in_range : (i : ℕ) → draws i < 31
draws_in_range i = omega arith

-- The first two candidates are taken.
abbrev first_two_taken : ℕ → Text → Bool
first_two_taken attempt candidate = leb attempt 1

allocate_reference-Allocated_example :
    Allocated draws draws_in_range first_two_taken qb refl 0 max_allocation_attempts
      (allocate_reference draws first_two_taken qb)
allocate_reference-Allocated_example =
    allocate_reference-Allocated draws draws_in_range first_two_taken qb refl
