-- ===== src/Prelude/Outcome.antt =====
-- A computation that returns a value or throws.
use mathlib.Core.Path.{◌≡◌, refl}
use mathlib.Core.Bool.{Bool, true, false}
use qift_platform.Prelude.Tests.{if◌then◌else◌}

pub data Result {ℓ κ} (E : Type ℓ) (A : Type κ) : Type (ℓ ⊔ κ) where
  ok : A → Result E A
  err : E → Result E A

-- `if (c) throw e`
abbrev pub throw_if : {E : Type 0} → Bool → E → Result E (Unit {0})
throw_if c e = if c then err e else ok tt

-- What follows a value that was returned; a thrown error ends the computation.
module _ {E : Type 0} where
  infixl 5 ◌>>=◌ ◌>>◌
  abbrev pub ◌>>=◌ : {A B : Type 0} → Result E A → (A → Result E B) → Result E B
  err thrown >>= next = err thrown
  ok value >>= next = next value

  abbrev pub ◌>>◌ : {B : Type 0} → Result E (Unit {0}) → Result E B → Result E B
  check >> next = check >>= λ done. next

  -- If the whole returned, so did its first part and, from its value, the rest.
  pub step_ok :
      {A B : Type 0} (first : Result E A) (next : A → Result E B) {b : B}
      → (first >>= next) ≡ ok b
      → (value : A) × (first ≡ ok value) × (next value ≡ ok b)
  step_ok (err thrown) next h = cc
  step_ok (ok value) next h = (value, refl, h)

  -- What follows a guard is reached exactly when its condition is false.
  pub guard_ok :
      {B : Type 0} (c : Bool) (e : E) (rest : Result E B) {b : B}
      → (throw_if c e >> rest) ≡ ok b
      → (c ≡ false) × (rest ≡ ok b)
  guard_ok true e rest h = cc
  guard_ok false e rest h = (refl, h)

  pub guard_pass :
      {B : Type 0} (c : Bool) (e : E) (rest : Result E B) {b : B}
      → c ≡ false
      → rest ≡ ok b
      → (throw_if c e >> rest) ≡ ok b
  guard_pass c e rest {b} h k = rw h k

  pub elim_ok :
      {A B : Type 0} (r : Result E A) (next : A → Result E B) {b : B}
      → (elim r [ err e ↦ err e | ok a ↦ next a ]) ≡ ok b
      → (a : A) × (r ≡ ok a) × (next a ≡ ok b)
  elim_ok (err e) next h = cc
  elim_ok (ok a) next h = (a, refl, h)

  pub else_ok :
      {B : Type 0} (c : Bool) (e : E) (r : Result E B) {b : B}
      → (if c then err e else r) ≡ ok b
      → r ≡ ok b
  else_ok true e r h = cc
  else_ok false e r h = h

  -- A value that comes after a refusal shows that its condition is false.
  pub refused_not :
      {B : Type 0} (c : Bool) (e : E) (r : Result E B) {b : B}
      → (if c then err e else r) ≡ ok b
      → (c ≡ false) × (r ≡ ok b)
  refused_not true e r h = cc
  refused_not false e r h = (refl, h)
