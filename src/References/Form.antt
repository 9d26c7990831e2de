-- ===== src/References/Form.antt =====
-- What the normaliser of src/references/reference.ts returns is a canonical reference.
use qift_platform.Prelude.{
  ℕ, zero, suc, ◌+◌, ◌-◌, ◌*◌, ◌<◌, ◌≤◌, Bool, true, ◌&&◌, ◌||◌, Option, none, some, [], ◌∷◌, ◌≡◌,
  refl, leb, ltb, ◌==◌, all, length, Bool-cases, inl, inr, arith,
}
use qift_platform.Prelude.Outcome.{Result, ok}
use qift_platform.Corporate.Text.{Text}
use qift_platform.References.{
  ReferencePrefix, qp, qb, qg, qf, qc, qs, qn, qd, ReferenceError, sequential, prefix_kind,
  is_random, is_sequential, in_alphabet, is_decimal, number_from, random_body, sequential_body,
  split_prefix, normalize_random, normalize_sequential, normalize_compact, normalize_reference,
  format_sequential_reference,
}
use qift_platform.References.Spelling.{normalize_reference-compact}
use qift_platform.References.RoundTrip.{Canonical, random_form, sequential_form}

all_parts :
    (a b c d : ℕ) (t : Text)
    → all in_alphabet (a ∷ b ∷ c ∷ d ∷ t) ≡ true
    → (all in_alphabet (a ∷ b ∷ c ∷ d ∷ []) ≡ true) × (all in_alphabet t ≡ true)
all_parts a b c d t h = (ground arith, ground arith)

abbrev Normal : Type 0
Normal = Result ReferenceError (Option Text)

abbrev shown_as : Text → Normal
shown_as t = ok (some t)

returned : {x y : Text} → shown_as x ≡ shown_as y → y ≡ x
returned h = cc

random_found :
    (p : ReferencePrefix) (body : Text) {r : Text}
    → is_random p ≡ true
    → normalize_random p (random_body body) ≡ shown_as r
    → Canonical r
unfolding normalize_random random_body
random_found p [] kind h = absurd (cc)
random_found p (_ ∷ []) kind h = absurd (cc)
random_found p (_ ∷ _ ∷ []) kind h = absurd (cc)
random_found p (_ ∷ _ ∷ _ ∷ []) kind h = absurd (cc)
random_found p (_ ∷ _ ∷ _ ∷ _ ∷ []) kind h = absurd (cc)
random_found p (_ ∷ _ ∷ _ ∷ _ ∷ _ ∷ []) kind h = absurd (cc)
random_found p (_ ∷ _ ∷ _ ∷ _ ∷ _ ∷ _ ∷ []) kind h = absurd (cc)
random_found p (_ ∷ _ ∷ _ ∷ _ ∷ _ ∷ _ ∷ _ ∷ []) kind h = absurd (cc)
random_found p (_ ∷ _ ∷ _ ∷ _ ∷ _ ∷ _ ∷ _ ∷ _ ∷ _ ∷ _) kind h = absurd (cc)
random_found p (a ∷ b ∷ c ∷ d ∷ e ∷ f ∷ g ∷ k ∷ []) kind h =
    elim (Bool-cases (all in_alphabet (a ∷ b ∷ c ∷ d ∷ e ∷ f ∷ g ∷ k ∷ []))) [
      | inl inside ↦
          let (front, back) = all_parts a b c d (e ∷ f ∷ g ∷ k ∷ []) inside in
          random_form p a b c d e f g k kind front back (returned (rw inside at h))
      | inr outside ↦ let other = rw outside at h in absurd (cc)
    ]

-- A bound for a number with `k` digits more than one below `m`.
grow : ℕ → ℕ → ℕ
grow zero m = m
grow (suc k) m = grow k (m * 10)

le-grow : (k m : ℕ) → m ≤ grow k m
unfolding grow
le-grow zero m = omega arith
le-grow (suc k) m = omega (arith, le-grow k (m * 10))

number_from-lt-grow :
    (k m acc : ℕ) (t : Text)
    → length t ≤ k
    → all is_decimal t ≡ true
    → acc < m
    → number_from acc t < grow k m
unfolding number_from grow
number_from-lt-grow zero m acc [] short shown h = h
number_from-lt-grow zero m acc (c ∷ t) short shown h = absurd (omega arith)
number_from-lt-grow (suc k) m acc [] short shown h = omega (arith, le-grow k (m * 10))
number_from-lt-grow (suc k) m acc (c ∷ t) short shown h =
    let digit : is_decimal c ≡ true = ground arith in
    let rest : all is_decimal t ≡ true = ground arith in
    number_from-lt-grow k (m * 10) (acc * 10 + (c - b'0')) t (omega arith) rest (ground arith)

seven_digits : (t : Text) → length t ≤ 7 → all is_decimal t ≡ true → number_from 0 t < 10000000
unfolding grow
seven_digits t short shown = number_from-lt-grow 7 1 0 t short shown (omega arith)

sequential_found :
    (p : ReferencePrefix) (year value : ℕ) {r : Text}
    → is_sequential p ≡ true
    → value < 10000000
    → normalize_sequential p (some (year, value)) ≡ shown_as r
    → Canonical r
unfolding normalize_sequential format_sequential_reference
sequential_found p year value kind most h = elim (Bool-cases (ltb value 1)) [
  | inl zero_ ↦ let other = rw zero_ at h in absurd (cc)
  | inr positive ↦ elim (Bool-cases (ltb year 2020 || ltb 2099 year)) [
    | inl outside ↦ let other = rw (positive, kind, outside) at h in absurd (cc)
    | inr inside ↦
        sequential_form p year value kind (ground arith) (ground arith) (ground arith) most
          (returned (rw (positive, kind, inside) at h))
  ]
]

abbrev is_body : (a b c d : ℕ) (value : Text) → Bool
is_body a b c d value =
    a == b'2'
    && (b == b'0'
        && (is_decimal c
            && (is_decimal d
                && (leb 1 (length value) && (leb (length value) 7 && all is_decimal value)))))

body_found :
    (p : ReferencePrefix) (body : Text) {r : Text}
    → is_sequential p ≡ true
    → normalize_sequential p (sequential_body body) ≡ shown_as r
    → Canonical r
unfolding sequential_body normalize_sequential
body_found p [] kind h = absurd (cc)
body_found p (_ ∷ []) kind h = absurd (cc)
body_found p (_ ∷ _ ∷ []) kind h = absurd (cc)
body_found p (_ ∷ _ ∷ _ ∷ []) kind h = absurd (cc)
body_found p (a ∷ b ∷ c ∷ d ∷ value) kind h = elim (Bool-cases (is_body a b c d value)) [
  | inl shaped ↦
      let short : length value ≤ 7 = ground arith in
      let shown : all is_decimal value ≡ true = ground arith in
      sequential_found p (number_from 0 (a ∷ b ∷ c ∷ d ∷ [])) (number_from 0 value) kind
        (seven_digits value short shown) (rw shaped at h)
  | inr other ↦ let refused = rw other at h in absurd (cc)
]

-- The case of each prefix.
by_kind :
    (p : ReferencePrefix) (body : Text) {r : Text}
    → elim (prefix_kind p) [
      | sequential ↦ normalize_sequential p (sequential_body body)
      | _ ↦ normalize_random p (random_body body)
    ]
      ≡ shown_as r
    → Canonical r
by_kind qp body h = random_found qp body refl h
by_kind qb body h = random_found qb body refl h
by_kind qg body h = random_found qg body refl h
by_kind qf body h = random_found qf body refl h
by_kind qc body h = body_found qc body refl h
by_kind qs body h = random_found qs body refl h
by_kind qn body h = random_found qn body refl h
by_kind qd body h = body_found qd body refl h

from_prefix :
    (found : Option (ReferencePrefix × Text)) {r : Text}
    → elim found [
      | none ↦ ok none
      | some (p, body) ↦ elim (prefix_kind p) [
        | sequential ↦ normalize_sequential p (sequential_body body)
        | _ ↦ normalize_random p (random_body body)
      ]
    ]
      ≡ shown_as r
    → Canonical r
from_prefix none h = absurd (cc)
from_prefix (some (p, body)) h = by_kind p body h

compact_found : (t : Text) {r : Text} → normalize_compact t ≡ shown_as r → Canonical r
unfolding normalize_compact
compact_found t h = from_prefix (split_prefix t) h

-- The two forms are the only results: whatever the input and the upper case, a normalised reference is
-- a random one, with eight symbols of the alphabet in two groups, or a sequential one, with a year from
-- 2020 to 2099 and a value of at most seven digits.
pub normalize_reference-Canonical :
    (upper : ℕ → Text) (s : Text) {r : Text}
    → normalize_reference upper s ≡ ok (some r)
    → Canonical r
normalize_reference-Canonical upper s h =
    compact_found _ (rw (normalize_reference-compact upper s) at h)
