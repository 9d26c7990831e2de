-- ===== src/Settlement/Call.antt =====
-- A method of a service that makes several transactions: what one of them committed stays when a
-- later step throws.
use qift_platform.Prelude.{◌≡◌, refl, sym, ap, ap₂, subst}
use qift_platform.Prelude.Outcome.{Result, ok, err}
use qift_platform.Settlement.Errors.{SettlementError}
use qift_platform.Settlement.Store.{Db, Tx}

abbrev pub Call : Type 0 → Type 0
Call A = Db → Result SettlementError A × Db

module _ {A B : Type 0} where
  -- The rest of a method, where the first part returned a value.
  unfoldable pub and_then : Result SettlementError A → (A → Call B) → Call B
  and_then (ok a) next db = next a db
  and_then (err e) next db = (err e, db)

  infixl 5 ◌>>=◌
  unfoldable pub ◌>>=◌ : Call A → (A → Call B) → Call B
  unfolding and_then
  ◌>>=◌ m next db = and_then (m db).0 next (m db).1

infixl 5 ◌>>◌
abbrev pub ◌>>◌ : {B : Type 0} → Call (Unit {0}) → Call B → Call B
m >> k = m >>= λ _. k

module _ {A : Type 0} where
  abbrev pub returns : A → Call A
  returns a db = (ok a, db)

  -- A read, or a check, on the tables as they are.
  abbrev pub check : (Db → Result SettlementError A) → Call A
  check f db = (f db, db)

  -- `prisma.$transaction`: committed, or rolled back.
  unfoldable pub committed : Result SettlementError (A × Db) → Db → Result SettlementError A × Db
  committed (ok (a, db')) db = (ok a, db')
  committed (err e) db = (err e, db)

  unfoldable pub transaction : Tx A → Call A
  unfolding committed
  transaction m db = committed (m db) db

and_then_ok :
    {A B : Type 0} (r : Result SettlementError A) (next : A → Call B) (db : Db) {b : B} {db' : Db}
    → and_then r next db ≡ (ok b, db')
    → (a : A) × (r ≡ ok a) × (next a db ≡ (ok b, db'))
unfolding and_then
and_then_ok (ok a) next db h = (a, refl, h)
and_then_ok (err e) next db h = cc

-- If a method returned, so did its first part, and its rest from there.
pub call_ok :
    {A B : Type 0} (m : Call A) (next : A → Call B) (db : Db) {b : B} {db' : Db}
    → (m >>= next) db ≡ (ok b, db')
    → (a : A) × (mid : Db) × (m db ≡ (ok a, mid)) × (next a mid ≡ (ok b, db'))
unfolding ◌>>=◌
call_ok m next db h =
    let (a, first, rest) = and_then_ok (m db).0 next (m db).1 h in
    (a, (m db).1, ap (λ r. (r, (m db).1)) first, rest)

pair_ok :
    {A : Type 0} (r : Result SettlementError A) (db db' : Db) {a : A}
    → ◌≡◌ {A = Result SettlementError A × Db} (r, db) (ok a, db')
    → (r ≡ ok a) × (db ≡ db')
pair_ok r db db' h = (ap (λ x. x.0) h, ap (λ x. x.1) h)

-- A check that returned leaves the tables as they were.
pub check_ok :
    {A : Type 0} (f : Db → Result SettlementError A) (db db' : Db) {a : A}
    → check f db ≡ (ok a, db')
    → (f db ≡ ok a) × (db ≡ db')
check_ok f db db' h = pair_ok (f db) db db' h

committed_ok :
    {A : Type 0} (r : Result SettlementError (A × Db)) (db db' : Db) {a : A}
    → committed r db ≡ (ok a, db')
    → r ≡ ok (a, db')
unfolding committed
committed_ok (ok (b, mid)) db db' h =
    let (first, same) = pair_ok (ok b) mid db' h in
    let value : b ≡ _ = cc in ap₂ (λ x d. ok (x, d)) value same
committed_ok (err e) db db' h = cc

pub transaction_ok :
    {A : Type 0} (m : Tx A) (db db' : Db) {a : A}
    → transaction m db ≡ (ok a, db')
    → m db ≡ ok (a, db')
unfolding transaction
transaction_ok m db db' h = committed_ok (m db) db db' h

-- A check first, and the rest on the same tables.
pub check_first :
    {A B : Type 0} (f : Db → Result SettlementError A) (next : A → Call B) (db : Db) {b : B}
    {db' : Db}
    → (check f >>= next) db ≡ (ok b, db')
    → (a : A) × (f db ≡ ok a) × (next a db ≡ (ok b, db'))
check_first f next db {b} {db'} h =
    let (a, mid, first, rest) = call_ok (check f) next db h in
    let (made, same) = check_ok f db mid first in
    (a, made, subst (λ d. next a d ≡ (ok b, db')) (sym same) rest)

-- The rest of a method, after a check that passes.
pub check_run :
    {A B : Type 0} (f : Db → Result SettlementError A) (next : A → Call B) (db : Db) {a : A}
    → f db ≡ ok a
    → (check f >>= next) db ≡ next a db
unfolding ◌>>=◌ and_then
check_run f next db h = ap (λ r. and_then r next db) h

-- What a method keeps of the tables, whether it returns or throws.
module _ (P : Db → Type 0) where
  abbrev pub Stable : {A : Type 0} → Call A → Type 0
  Stable m = (db : Db) → P db → P (m db).1

  and_then-Stable :
      {A B : Type 0} (r : Result SettlementError A) (next : A → Call B)
      → ((a : A) → Stable (next a))
      → Stable (and_then r next)
  unfolding and_then
  and_then-Stable (ok a) next keeps = keeps a
  and_then-Stable (err e) next keeps = λ db h. h

  pub Stable->>= :
      {A B : Type 0} (m : Call A) (next : A → Call B)
      → Stable m
      → ((a : A) → Stable (next a))
      → Stable (m >>= next)
  unfolding ◌>>=◌
  Stable->>= m next first rest db h = and_then-Stable (m db).0 next rest (m db).1 (first db h)

  committed-kept :
      {A : Type 0} (r : Result SettlementError (A × Db)) (db : Db)
      → ((a : A) (db' : Db) → r ≡ ok (a, db') → P db')
      → P db
      → P (committed r db).1
  unfolding committed
  committed-kept (ok (a, db')) db keeps h = keeps a db' refl
  committed-kept (err e) db keeps h = h

  pub Stable-transaction :
      {A : Type 0} (m : Tx A)
      → ((db : Db) (a : A) (db' : Db) → m db ≡ ok (a, db') → P db → P db')
      → Stable (transaction m)
  unfolding transaction
  Stable-transaction m keeps db h = committed-kept (m db) db (λ a db' e. keeps db a db' e h) h
