-- ===== src/Settlement/Engine/Payout/Searches.antt =====
-- Searches in a table after a write, and chains whose first part is known.
use qift_platform.Prelude.{
  Bool, true, false, some, List, [], ◌∷◌, ◌++◌, ◌≡◌, refl, arith, ◌∙◌, ap, any, find, Bool-cases,
  inl, inr,
}
use qift_platform.Prelude.Outcome.{Result, ok, err}
use qift_platform.Settlement.Errors.{SettlementError}
use qift_platform.Settlement.Store.{Db, Tx, ◌>>=◌, ◌>>◌, pure, update_many}
use qift_platform.Settlement.Store.Update.{tx_ok, ok_pair}

module _ {A : Type 0} where
  -- A search finds the row that it found, as an update left it.
  pub find-update_many :
      (p q : A → Bool) (f : A → A) (xs : List A) {b : A}
      → ((x : A) → q x ≡ true → p (f x) ≡ p x)
      → find p xs ≡ some b
      → q b ≡ true
      → find p (update_many q f xs) ≡ some (f b)
  unfolding update_many
  find-update_many p q f [] same h hit = cc
  find-update_many p q f (x ∷ xs) {b} same h hit = elim (Bool-cases (p x)) [
    | inl found ↦
        let here : x ≡ b = ground (arith, found) in
        let changes : q x ≡ true = rw here hit in
        let stays : p (f x) ≡ true = same x changes ∙ found in
        rw (changes, stays) (ap (λ y. some (f y)) here)
    | inr miss ↦
        let rest = find-update_many p q f xs same (rw miss at h) hit in
        elim (Bool-cases (q x)) [
          | inl changes ↦
              let gone : p (f x) ≡ false = same x changes ∙ miss in rw (changes, gone) rest
          | inr keeps_ ↦ rw (keeps_, miss) rest
        ]
  ]

  -- A row that is appended is found where no other matches.
  pub find-append_last :
      (p : A → Bool) (xs : List A) (y : A)
      → any p xs ≡ false
      → p y ≡ true
      → find p (xs ++ y ∷ []) ≡ some y
  find-append_last p [] y none_ hit = rw hit refl
  find-append_last p (x ∷ xs) y none_ hit = ground (arith, find-append_last p xs y)

-- A chain that ends in a value returns it.
pub last_value :
    {A : Type 0} (m : Tx (Unit {0})) (a b : A) (db db' : Db)
    → (m >> pure a) db ≡ ok (b, db')
    → a ≡ b
last_value m a b db db' h =
    let (u, mid, first, rest) = tx_ok m (λ _. pure a) db h in (ok_pair a b mid db' rest).0

-- A chain goes on from what its first part returns.
pub bind_ok :
    {A B : Type 0} (m : Tx A) (f : A → Tx B) (db mid : Db) {a : A}
    → m db ≡ ok (a, mid)
    → (m >>= f) db ≡ f a mid
bind_ok {A} {B} m f db mid h =
    ap
      (λ (x : Result SettlementError (A × Db)).
        let out : Result SettlementError (B × Db) = elim x [ ok (a, d) ↦ f a d | err e ↦ err e ] in
        out)
      h
