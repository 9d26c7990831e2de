-- ===== src/References/Allocation.antt =====
-- The bounded retry of `allocateReference` in src/references/reference.ts.
use qift_platform.Prelude.{
  ℕ, zero, suc, ◌+◌, ◌*◌, ◌<◌, ◌≤◌, Bool, true, false, [], ◌∷◌, ◌≡◌, refl, any, all, length, ◌==◌,
  ==_iff, Bool-cases, inl, inr, arith,
}
use qift_platform.Prelude.Outcome.{Result, ok, err}
use qift_platform.Corporate.Text.{Text, units}
use qift_platform.References.{
  ReferencePrefix, ReferenceError, allocation_exhausted, is_random, dashed, reference_alphabet,
  in_alphabet, symbol_at, random_group, generate_reference, try_draws, allocate_reference,
  max_allocation_attempts,
}
use qift_platform.References.RoundTrip.{Canonical, random_form}

symbol_found :
    (t : Text) (i : ℕ)
    → i < length t
    → (c : ℕ) × (symbol_at t i ≡ c ∷ []) × (any (λ k. k == c) t ≡ true)
unfolding symbol_at
symbol_found [] i h = absurd (omega arith)
symbol_found (c ∷ t) zero h = (c, refl, ground arith)
symbol_found (d ∷ t) (suc i) h =
    let (c, at_, inside) = symbol_found t i (omega arith) in (c, at_, ground arith)

alphabet_size : length reference_alphabet ≡ 31
unfolding reference_alphabet units
alphabet_size = refl

module _ (draws : ℕ → ℕ) (in_range : (i : ℕ) → draws i < 31) where
  drawn :
      (i : ℕ) → (c : ℕ) × (symbol_at reference_alphabet (draws i) ≡ c ∷ []) × (in_alphabet c ≡ true)
  drawn i = symbol_found reference_alphabet (draws i) (rw alphabet_size (in_range i))

  group_found :
      (i : ℕ)
      → (a : ℕ) × (b : ℕ) × (c : ℕ) × (d : ℕ) × (random_group draws i ≡ a ∷ b ∷ c ∷ d ∷ [])
        × (all in_alphabet (a ∷ b ∷ c ∷ d ∷ []) ≡ true)
  unfolding random_group
  group_found i =
      let (a, at_a, in_a) = drawn i in
      let (b, at_b, in_b) = drawn (i + 1) in
      let (c, at_c, in_c) = drawn (i + 2) in
      let (d, at_d, in_d) = drawn (i + 3) in
      (a, b, c, d, rw (at_a, at_b, at_c, at_d) refl, ground arith)

  -- The candidate of an attempt.
  abbrev pub candidate : ReferencePrefix → ℕ → Text
  candidate p k = dashed p (random_group draws (8 * k)) (random_group draws (8 * k + 4))

  candidate-Canonical :
      (p : ReferencePrefix) (k : ℕ) → is_random p ≡ true → Canonical (candidate p k)
  candidate-Canonical p k kind =
      let (a, b, c, d, front, in_front) = group_found (8 * k) in
      let (e, f, g, h, back, in_back) = group_found (8 * k + 4) in
      random_form p a b c d e f g h kind in_front in_back (rw (front, back) refl)

  module _ (is_taken : ℕ → Text → Bool) (p : ReferencePrefix) (kind : is_random p ≡ true) where
    -- How an allocation of `left` attempts from attempt `first` on ends: with the first candidate that
    -- is free, or refused after all were taken.
    pub data Allocated (first left : ℕ) : Result ReferenceError Text → Type 0 where
      found :
          (k : ℕ)
          → first ≤ k
          → k < first + left
          → ((j : ℕ) → first ≤ j → j < k → is_taken j (candidate p j) ≡ true)
          → is_taken k (candidate p k) ≡ false
          → Canonical (candidate p k)
          → Allocated first left (ok (candidate p k))
      exhausted :
          ((j : ℕ) → first ≤ j → j < first + left → is_taken j (candidate p j) ≡ true)
          → Allocated first left (err (allocation_exhausted p))

    generated : (k : ℕ) → generate_reference draws (8 * k) p ≡ ok (candidate p k)
    unfolding generate_reference
    generated k = rw kind refl

    from_first :
        (first end : ℕ)
        → is_taken first (candidate p first) ≡ true
        → ((j : ℕ) → first + 1 ≤ j → j < end → is_taken j (candidate p j) ≡ true)
        → (j : ℕ) → first ≤ j
        → j < end
        → is_taken j (candidate p j) ≡ true
    from_first first end taken after j low high = elim (Bool-cases (j == first)) [
      | inl same ↦ rw ((==_iff j first).0 same) taken
      | inr other ↦ after j (ground arith) high
    ]

    one_more :
        (first left : ℕ) {r : Result ReferenceError Text}
        → is_taken first (candidate p first) ≡ true
        → Allocated (first + 1) left r
        → Allocated first (suc left) r
    one_more first left taken (found k low high before free canonical) =
        found k (omega arith) (omega arith) (from_first first k taken before) free canonical
    one_more first left taken (exhausted before) =
        exhausted
          (λ j low high. from_first first (first + 1 + left) taken before j low (omega arith))

    try_draws-Allocated :
        (left first : ℕ) → Allocated first left (try_draws draws is_taken p left first)
    unfolding try_draws
    try_draws-Allocated zero first = exhausted (λ j low high. absurd (omega arith))
    try_draws-Allocated (suc left) first = elim (Bool-cases (is_taken first (candidate p first))) [
      | inl taken ↦
          rw (generated first, taken)
            (one_more first left taken (try_draws-Allocated left (first + 1)))
      | inr free ↦
          rw (generated first, free)
            (found first (omega arith) (omega arith) (λ j low high. absurd (omega arith)) free
              (candidate-Canonical p first kind))
    ]

    -- For draws within the alphabet and a prefix of the random kind, an allocation ends after at most
    -- five attempts: with the first candidate that was not taken when it was asked for, which is a
    -- canonical reference, or with the exhaustion error if all five were taken.
    pub allocate_reference-Allocated :
        Allocated 0 max_allocation_attempts (allocate_reference draws is_taken p)
    unfolding allocate_reference
    allocate_reference-Allocated = try_draws-Allocated max_allocation_attempts 0
