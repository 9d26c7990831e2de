-- ===== src/Settlement/Store/Update.antt =====
-- Rows under `updateMany`, and transactions that leave a table as it is.
use qift_platform.Prelude.{
  ◌+◌, ◌≤◌, Bool, true, false, Option, none, some, List, [], ◌∷◌, ◌++◌, ◌≡◌, refl, subst, ◌∙◌,
  arith, any, find, Bool-cases, inl, inr,
}
use qift_platform.Prelude.Outcome.{Result, ok, err}
use qift_platform.Ledger.{RecordLedgerInput, Ledger, LedgerError, record_entry}
use qift_platform.Settlement.Errors.{SettlementError, ledger_refused}
use qift_platform.Settlement.Store.{
  Db, Tx, ◌>>=◌, gets, lift, throw_when, or_throw, modify, update_many, count, post,
}

result_ok :
    {A B : Type 0} (r : Result SettlementError (A × Db)) (f : A → Tx B) {b : B} {db' : Db}
    → (elim r [ ok (a, db1) ↦ f a db1 | err e ↦ err e ]) ≡ ok (b, db')
    → (a : A) × (mid : Db) × (r ≡ ok (a, mid)) × (f a mid ≡ ok (b, db'))
result_ok (ok (a, mid)) f h = (a, mid, refl, h)
result_ok (err e) f h = cc

-- Inversion of a transaction that committed.
pub tx_ok :
    {A B : Type 0} (m : Tx A) (f : A → Tx B) (db : Db) {b : B} {db' : Db}
    → (m >>= f) db ≡ ok (b, db')
    → (a : A) × (mid : Db) × (m db ≡ ok (a, mid)) × (f a mid ≡ ok (b, db'))
tx_ok m f db h = result_ok (m db) f h

module _ {A : Type 0} where
  -- Fewer rows match a narrower test.
  pub count_mono :
      (p q : A → Bool) (xs : List A) → ((x : A) → p x ≡ true → q x ≡ true) → count p xs ≤ count q xs
  unfolding count
  count_mono p q [] h = omega arith
  count_mono p q (x ∷ xs) h = ground (arith, h x, count_mono p q xs h)

  -- An update that changes no answer of a test changes no count of it.
  pub count-update_many :
      (p q : A → Bool) (f : A → A) (xs : List A)
      → ((x : A) → q x ≡ true → p (f x) ≡ p x)
      → count p (update_many q f xs) ≡ count p xs
  unfolding count update_many
  count-update_many p q f [] h = refl
  count-update_many p q f (x ∷ xs) h = ground (arith, h x, count-update_many p q f xs h)

  -- An update after which a test fails on the rows that it changed leaves no more rows to the test.
  pub count-update_many_le :
      (p q : A → Bool) (f : A → A) (xs : List A)
      → ((x : A) → q x ≡ true → p (f x) ≡ false)
      → count p (update_many q f xs) ≤ count p xs
  unfolding count update_many
  count-update_many_le p q f [] h = omega arith
  count-update_many_le p q f (x ∷ xs) h = ground (arith, h x, count-update_many_le p q f xs h)

  pub count-append : (p : A → Bool) (xs ys : List A) → count p (xs ++ ys) ≡ count p xs + count p ys
  unfolding count
  count-append p [] ys = omega arith
  count-append p (x ∷ xs) ys = ground (arith, count-append p xs ys)

  pub count_pos : (p : A → Bool) (xs : List A) → any p xs ≡ true → 1 ≤ count p xs
  unfolding count
  count_pos p [] h = cc
  count_pos p (x ∷ xs) h = ground (arith, count_pos p xs)

  pub any_of_count : (p : A → Bool) (xs : List A) → 1 ≤ count p xs → any p xs ≡ true
  unfolding count
  any_of_count p [] h = absurd (omega arith)
  any_of_count p (x ∷ xs) h = ground (arith, any_of_count p xs)

  pub count_zero : (p : A → Bool) (xs : List A) → any p xs ≡ false → count p xs ≡ 0
  unfolding count
  count_zero p [] h = refl
  count_zero p (x ∷ xs) h = ground (arith, count_zero p xs)

  pub find_ok : (p : A → Bool) (xs : List A) {a : A} → find p xs ≡ some a → p a ≡ true
  find_ok p [] h = cc
  find_ok p (x ∷ xs) {a} h = elim (Bool-cases (p x)) [
    | inl hit ↦ ground (arith, hit)
    | inr miss ↦ find_ok p xs (rw miss at h)
  ]

-- A transaction that leaves the batches and the remittances as they are.
abbrev pub Keeps : {A : Type 0} → Tx A → Type 0
Keeps {A} m =
    (db : Db) (a : A) (db' : Db)
    → m db ≡ ok (a, db')
    → (db'.batches ≡ db.batches) × (db'.remittances ≡ db.remittances)

pub Keeps->>= :
    {A B : Type 0} (m : Tx A) (f : A → Tx B) → Keeps m → ((a : A) → Keeps (f a)) → Keeps (m >>= f)
Keeps->>= m f km kf db b db' h =
    let (a, mid, first, rest) = tx_ok m f db h in
    let k1 = km db a mid first in let k2 = kf a mid b db' rest in (k2.0 ∙ k1.0, k2.1 ∙ k1.1)

pub Keeps-gets : {A : Type 0} (f : Db → A) → Keeps (gets f)
Keeps-gets f db a db' h = ground arith

pub Keeps-throw_when : (c : Bool) (e : SettlementError) → Keeps (throw_when c e)
Keeps-throw_when true e db a db' h = cc
Keeps-throw_when false e db a db' h = ground arith

pub Keeps-lift : {A : Type 0} (r : Result SettlementError A) → Keeps (lift r)
Keeps-lift (ok a) db b db' h = ground arith
Keeps-lift (err e) db b db' h = cc

pub Keeps-or_throw : {A : Type 0} (o : Option A) (e : SettlementError) → Keeps (or_throw o e)
Keeps-or_throw none e db b db' h = cc
Keeps-or_throw (some a) e db b db' h = ground arith

pub ok_pair :
    {A : Type 0} (a b : A) (d d' : Db)
    → ◌≡◌ {A = Result SettlementError (A × Db)} (ok (a, d)) (ok (b, d'))
    → (a ≡ b) × (d ≡ d')
ok_pair a b d d' h = (cc, cc)

unfoldable pub posted : (r : Result LedgerError Ledger) → Tx (Unit {0})
posted (ok ledger) db = ok (tt, record db { ledger = ledger })
posted (err e) db = err (ledger_refused e)

Keeps-posted : (r : Result LedgerError Ledger) → Keeps (posted r)
unfolding posted
Keeps-posted (ok ledger) db a db' h =
    subst (λ (d : Db). (d.batches ≡ db.batches) × (d.remittances ≡ db.remittances))
      (ok_pair tt a (record db { ledger = ledger }) db' h).1 (refl, refl)
Keeps-posted (err e) db a db' h = cc

pub post-posted :
    (input : RecordLedgerInput) (db : Db) → post input db ≡ posted (record_entry input db.ledger) db
unfolding post posted
post-posted input db =
    elim (record_entry input db.ledger)
      as (λ r.
        (elim r [
          | ok ledger ↦ ok (tt, record db { ledger = ledger })
          | err e ↦ err (ledger_refused e)
        ])
        ≡ posted r db) [ ok ledger ↦ refl | err e ↦ refl ]

pub Keeps-post : (input : RecordLedgerInput) → Keeps (post input)
Keeps-post input db a db' h =
    Keeps-posted (record_entry input db.ledger) db a db' (rw (post-posted input db) at h)

-- A change of the tables that touches neither.
pub Keeps-modify :
    (f : Db → Db)
    → ((db : Db) → ((f db).batches ≡ db.batches) × ((f db).remittances ≡ db.remittances))
    → Keeps (modify f)
Keeps-modify f k db a db' h =
    subst (λ (d : Db). (d.batches ≡ db.batches) × (d.remittances ≡ db.remittances))
      (ok_pair tt a (f db) db' h).1 (k db)
