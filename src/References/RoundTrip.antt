-- ===== src/References/RoundTrip.antt =====
-- The canonical references of src/references/reference.ts, and that the normaliser finds them.
use qift_platform.Prelude.{
  ℕ, suc, ◌+◌, ◌-◌, ◌*◌, ◌/◌, ◌%◌, ◌<◌, ◌≤◌, true, false, some, [], ◌∷◌, ◌++◌, ◌≡◌, refl, ap, leb,
  ltb, all, length, arith,
}
use qift_platform.Prelude.Outcome.{ok}
use qift_platform.Corporate.Text.{Text}
use qift_platform.References.{
  ReferencePrefix, qp, qb, qg, qf, qc, qs, qn, qd, is_random, is_sequential, prefix_text, dashed,
  in_alphabet, is_decimal, is_alnum, digits, padded, number_from, random_body, sequential_body,
  normalize_random, normalize_sequential, normalize_compact, normalize_reference, compact,
  format_sequential_reference,
}
use qift_platform.References.Digits.{
  number_from-padded, padded_are_digits, padded_size, year_digits, digits_are_digits,
}
use qift_platform.References.Spelling.{
  IsUpper, Spells, symbols_are_alnum, digits_are_alnum, compact_dash, compact_alnum,
  compact-append_alnum, compact-Spells, normalize_reference-compact,
}

-- The two forms of a reference as it is stored.
pub data Canonical (r : Text) : Type 0 where
  random_form :
      (p : ReferencePrefix) (a b c d e f g h : ℕ)
      → is_random p ≡ true
      → all in_alphabet (a ∷ b ∷ c ∷ d ∷ []) ≡ true
      → all in_alphabet (e ∷ f ∷ g ∷ h ∷ []) ≡ true
      → r ≡ dashed p (a ∷ b ∷ c ∷ d ∷ []) (e ∷ f ∷ g ∷ h ∷ [])
      → Canonical r
  sequential_form :
      (p : ReferencePrefix) (year value : ℕ)
      → is_sequential p ≡ true
      → 2020 ≤ year
      → year ≤ 2099
      → 1 ≤ value
      → value < 10000000
      → r ≡ dashed p (digits (suc year) year) (padded value)
      → Canonical r

prefix_is_alnum : (p : ReferencePrefix) → all is_alnum (prefix_text p) ≡ true
prefix_is_alnum qp = refl
prefix_is_alnum qb = refl
prefix_is_alnum qg = refl
prefix_is_alnum qf = refl
prefix_is_alnum qc = refl
prefix_is_alnum qs = refl
prefix_is_alnum qn = refl
prefix_is_alnum qd = refl

-- The compact form of what stands between the dashes.
compact-dashed :
    (upper : ℕ → Text)
    → IsUpper upper
    → (p : ReferencePrefix) (a b : Text) → all is_alnum a ≡ true
    → all is_alnum b ≡ true
    → compact upper (dashed p a b) ≡ prefix_text p ++ (a ++ b)
compact-dashed upper on_ascii p a b in_a in_b =
    rw
      (
        compact-append_alnum upper on_ascii (prefix_text p) (b'-' ∷ (a ++ (b'-' ∷ b)))
            (prefix_is_alnum p),
        compact_dash upper on_ascii (a ++ (b'-' ∷ b)),
        compact-append_alnum upper on_ascii a (b'-' ∷ b) in_a,
        compact_dash upper on_ascii b,
        compact_alnum upper on_ascii b in_b,
      )
      refl

random_normal :
    (p : ReferencePrefix) (body : Text)
    → is_random p ≡ true
    → normalize_compact (prefix_text p ++ body) ≡ normalize_random p (random_body body)
unfolding normalize_compact
random_normal qp body h = refl
random_normal qb body h = refl
random_normal qg body h = refl
random_normal qf body h = refl
random_normal qs body h = refl
random_normal qn body h = refl
random_normal qc body h = cc
random_normal qd body h = cc

sequential_normal :
    (p : ReferencePrefix) (body : Text)
    → is_sequential p ≡ true
    → normalize_compact (prefix_text p ++ body) ≡ normalize_sequential p (sequential_body body)
unfolding normalize_compact
sequential_normal qc body h = refl
sequential_normal qd body h = refl
sequential_normal qp body h = cc
sequential_normal qb body h = cc
sequential_normal qg body h = cc
sequential_normal qf body h = cc
sequential_normal qs body h = cc
sequential_normal qn body h = cc

all_of_parts :
    (a b c d : ℕ) (t : Text)
    → all in_alphabet (a ∷ b ∷ c ∷ d ∷ []) ≡ true
    → all in_alphabet t ≡ true
    → all in_alphabet (a ∷ b ∷ c ∷ d ∷ t) ≡ true
all_of_parts a b c d t front back = ground arith

random_body_symbols :
    (a b c d e f g h : ℕ)
    → all in_alphabet (a ∷ b ∷ c ∷ d ∷ []) ≡ true
    → all in_alphabet (e ∷ f ∷ g ∷ h ∷ []) ≡ true
    → random_body (a ∷ b ∷ c ∷ d ∷ e ∷ f ∷ g ∷ h ∷ [])
      ≡ some (a ∷ b ∷ c ∷ d ∷ [], e ∷ f ∷ g ∷ h ∷ [])
unfolding random_body
random_body_symbols a b c d e f g h front back =
    rw (all_of_parts a b c d (e ∷ f ∷ g ∷ h ∷ []) front back) refl

sequential_body_digits :
    (tens units_ : ℕ) (value : Text)
    → tens < 10
    → units_ < 10
    → 1 ≤ length value
    → length value ≤ 7
    → all is_decimal value ≡ true
    → sequential_body (b'2' ∷ b'0' ∷ (b'0' + tens) ∷ (b'0' + units_) ∷ value)
      ≡ some (2000 + tens * 10 + units_, number_from 0 value)
unfolding sequential_body number_from
sequential_body_digits tens units_ value h k low high shown =
    let tens_shown : is_decimal (b'0' + tens) ≡ true = ground arith in
    let units_shown : is_decimal (b'0' + units_) ≡ true = ground arith in
    let some_ : leb 1 (length value) ≡ true = ground arith in
    let few : leb (length value) 7 ≡ true = ground arith in
    rw (tens_shown, units_shown, some_, few, shown)
      (ap (λ (n : ℕ). some (n, number_from 0 value)) (omega arith))

year_body :
    (year value : ℕ)
    → 2020 ≤ year
    → year ≤ 2099
    → 1 ≤ length (padded value)
    → length (padded value) ≤ 7
    → sequential_body (digits (suc year) year ++ padded value) ≡ some (year, value)
year_body year value low high some_ short =
    let enough : suc year ≡ suc (suc (suc (suc (year - 3)))) = omega arith in
    let body =
      sequential_body_digits (year / 10 % 10) (year % 10) (padded value) (omega arith) (omega arith)
        some_ short (padded_are_digits value) in
    let century : 2000 + year / 10 % 10 * 10 + year % 10 ≡ year = omega arith in
    let first_digits = rw (← enough) at (year_digits (year - 3) year low (omega arith)) in
    rw first_digits (rw (century, number_from-padded value) at body)

sequential_found :
    (p : ReferencePrefix) (year value : ℕ)
    → 2020 ≤ year
    → year ≤ 2099
    → 1 ≤ value
    → is_sequential p ≡ true
    → normalize_sequential p (some (year, value))
      ≡ ok (some (dashed p (digits (suc year) year) (padded value)))
unfolding normalize_sequential format_sequential_reference
sequential_found p year value low high least kind =
    let positive : ltb value 1 ≡ false = ground arith in
    let from_2020 : ltb year 2020 ≡ false = ground arith in
    let to_2099 : ltb 2099 year ≡ false = ground arith in
    rw (positive, kind, from_2020, to_2099) refl

-- A canonical reference is its own normal form.
normal_of_itself :
    (upper : ℕ → Text)
    → IsUpper upper
    → {r : Text} → Canonical r
    → normalize_compact (compact upper r) ≡ ok (some r)
unfolding normalize_random
normal_of_itself upper on_ascii (random_form p a b c d e f g h kind front back shown) =
    rw
      (
        shown,
        compact-dashed upper on_ascii p (a ∷ b ∷ c ∷ d ∷ []) (e ∷ f ∷ g ∷ h ∷ [])
            (symbols_are_alnum (a ∷ b ∷ c ∷ d ∷ []) front)
            (symbols_are_alnum (e ∷ f ∷ g ∷ h ∷ []) back),
        random_normal p (a ∷ b ∷ c ∷ d ∷ e ∷ f ∷ g ∷ h ∷ []) kind,
        random_body_symbols a b c d e f g h front back,
      )
      refl
normal_of_itself upper on_ascii (sequential_form p year value kind low high least most shown) =
    let (some_, short) = padded_size value most in
    rw
      (
        shown,
        compact-dashed upper on_ascii p (digits (suc year) year) (padded value)
            (digits_are_alnum (digits (suc year) year) (digits_are_digits (suc year) year))
            (digits_are_alnum (padded value) (padded_are_digits value)),
        sequential_normal p (digits (suc year) year ++ padded value) kind,
        year_body year value low high some_ short,
      )
      (sequential_found p year value low high least kind)

-- For an upper case that is ECMAScript's on ASCII, every spelling of a canonical reference, in either
-- case and with dashes, spaces or other punctuation put in or left out, is normalised to it.
pub normalize_reference-Spells :
    (upper : ℕ → Text) (on_ascii : IsUpper upper) {s r : Text}
    → Canonical r
    → Spells s r
    → normalize_reference upper s ≡ ok (some r)
normalize_reference-Spells upper on_ascii {s} {r} canonical spelled =
    rw (normalize_reference-compact upper s, compact-Spells upper on_ascii spelled)
      (normal_of_itself upper on_ascii canonical)
