-- ===== src/Settlement/Engine/Payout/Rows.antt =====
-- Rows of a table under `updateMany`, for tests that a row of one identifier satisfies.
use qift_platform.Prelude.{
  ◌≤◌, Bool, true, false, some, List, [], ◌∷◌, ◌≡◌, refl, arith, any, find, Bool-cases, inl, inr,
}
use qift_platform.Settlement.Store.{update_many, count}
use qift_platform.Settlement.Store.Update.{count_mono}

module _ {A : Type 0} where
  none_of_zero :
      (p r : A → Bool) (xs : List A)
      → ((x : A) → r x ≡ true → p x ≡ true)
      → count p xs ≡ 0
      → any r xs ≡ false
  unfolding count
  none_of_zero p r [] rp h = refl
  none_of_zero p r (x ∷ xs) rp h = ground (arith, rp x, none_of_zero p r xs rp)

  -- A change of rows that fail a test leaves a row that satisfies it.
  pub any-update_other :
      (p q : A → Bool) (f : A → A) (xs : List A)
      → ((x : A) → q x ≡ true → p x ≡ false)
      → any p xs ≡ true
      → any p (update_many q f xs) ≡ true
  unfolding update_many
  any-update_other p q f [] d h = h
  any-update_other p q f (x ∷ xs) d h = ground (arith, d x, any-update_other p q f xs d)

  -- The one row of an identifier is the row that a search finds.
  pub none_if_found :
      (p r : A → Bool) (xs : List A) {b : A}
      → ((x : A) → r x ≡ true → p x ≡ true)
      → count p xs ≤ 1
      → find p xs ≡ some b
      → r b ≡ false
      → any r xs ≡ false
  unfolding count
  none_if_found p r [] rp d h e = refl
  none_if_found p r (x ∷ xs) {b} rp d h e = elim (Bool-cases (p x)) [
    | inl hit ↦
        let same : x ≡ b = ground (arith, hit) in
        let rest : count p xs ≡ 0 = ground (arith, hit) in
        let head : r x ≡ false = rw same e in rw head (none_of_zero p r xs rp rest)
    | inr miss ↦
        let head : r x ≡ false = ground (arith, rp x, miss) in
        rw head (none_if_found p r xs rp (rw miss at d) (rw miss at h) e)
  ]

  -- If the one row of an identifier satisfies a test, no row satisfies what it excludes.
  pub none_if_counted :
      (p q r : A → Bool) (xs : List A)
      → ((x : A) → r x ≡ true → p x ≡ true)
      → ((x : A) → q x ≡ true → p x ≡ true)
      → ((x : A) → q x ≡ true → r x ≡ false)
      → count p xs ≤ 1
      → count q xs ≡ 1
      → any r xs ≡ false
  unfolding count
  none_if_counted p q r [] rp qp qr d h = refl
  none_if_counted p q r (x ∷ xs) rp qp qr d h = elim (Bool-cases (q x)) [
    | inl hit ↦
        let here = qp x hit in
        let rest : count p xs ≡ 0 = ground (arith, here) in
        rw (qr x hit) (none_of_zero p r xs rp rest)
    | inr miss ↦
        let tail : count q xs ≡ 1 = rw miss at h in
        let one : 1 ≤ count p xs = omega (arith, count_mono q p xs qp) in
        let head : r x ≡ false = ground (arith, rp x) in
        rw head (none_if_counted p q r xs rp qp qr (ground arith) tail)
  ]

  -- The row that an update changes satisfies what the update makes true.
  pub any-update_hit :
      (p q : A → Bool) (f : A → A) (xs : List A)
      → ((x : A) → q x ≡ true → p (f x) ≡ true)
      → 1 ≤ count q xs
      → any p (update_many q f xs) ≡ true
  unfolding update_many count
  any-update_hit p q f [] d h = absurd (omega arith)
  any-update_hit p q f (x ∷ xs) d h = ground (arith, d x, any-update_hit p q f xs d)
