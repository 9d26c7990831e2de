-- ===== src/Ledger/Idempotence.antt =====
-- The single write path is idempotent under its deterministic keys
-- (src/financial/financial-ledger.service.ts).
use qift_platform.Prelude.{
  true, some, List, [], ◌∷◌, ◌++◌, ◌≡◌, refl, arith, All, any, any-append, ◌∙◌,
}
use qift_platform.Prelude.Outcome.{ok, step_ok}
use qift_platform.Ledger.{
  Ledger, LedgerKey, RecordLedgerInput, key_eq, validated, holds_key, append_row, key_taken,
  record_entry, record_all,
}

key_eq_self : (k : LedgerKey) → key_eq k k ≡ true
key_eq_self k = ground arith

-- The row that is written has the key of what was posted.
pub validated_key :
    (input row : RecordLedgerInput)
    → validated input ≡ ok row
    → row.idempotency_key ≡ input.idempotency_key
unfolding validated
validated_key input row h = ground arith

abbrev pub HasKey : LedgerKey → Ledger → Type 0
HasKey k ledger = any (holds_key k) ledger ≡ true

HasKey-append : (k : LedgerKey) (l m : Ledger) → HasKey k l → HasKey k (l ++ m)
HasKey-append k l m h = rw (any-append (holds_key k) l m, h) refl

HasKey-snoc :
    (k : LedgerKey) (row : RecordLedgerInput) (l : Ledger)
    → row.idempotency_key ≡ some k
    → HasKey k (l ++ row ∷ [])
unfolding holds_key
HasKey-snoc k row l h = rw (any-append (holds_key k) l (row ∷ [])) (ground (arith, key_eq_self k))

-- A written key is there, and no write removes one.
append_row-HasKey :
    (k : LedgerKey) (row : RecordLedgerInput) (l m : Ledger)
    → row.idempotency_key ≡ some k
    → append_row row l ≡ ok m
    → HasKey k m
unfolding append_row key_taken
append_row-HasKey k row l m e h = ground (arith, HasKey-snoc k row l e)

append_row_keeps :
    (k : LedgerKey) (row : RecordLedgerInput) (l m : Ledger)
    → append_row row l ≡ ok m
    → HasKey k l
    → HasKey k m
unfolding append_row
append_row_keeps k row l m e h = ground (arith, HasKey-append k l (row ∷ []) h)

append_row_present :
    (k : LedgerKey) (row : RecordLedgerInput) (l : Ledger)
    → row.idempotency_key ≡ some k
    → HasKey k l
    → append_row row l ≡ ok l
unfolding append_row key_taken
append_row_present k row l e h = ground arith

-- What a list of postings asks for: each carries a key that the ledger has.
abbrev Present : Ledger → RecordLedgerInput → Type 0
Present l e = (k : LedgerKey) × (e.idempotency_key ≡ some k) × HasKey k l

abbrev pub Keyed : RecordLedgerInput → Type 0
Keyed e = (k : LedgerKey) × (e.idempotency_key ≡ some k)

-- Appending a posting that has its key leaves it there.
record_entry_keeps :
    (e : RecordLedgerInput) (l m : Ledger) (k : LedgerKey)
    → record_entry e l ≡ ok m
    → HasKey k l
    → HasKey k m
unfolding record_entry
record_entry_keeps e l m k h p =
    let (row, _, appended) = step_ok (validated e) (λ row. append_row row l) h in
    append_row_keeps k row l m appended p

record_entry-HasKey :
    (e : RecordLedgerInput) (l m : Ledger) (k : LedgerKey)
    → e.idempotency_key ≡ some k
    → record_entry e l ≡ ok m
    → HasKey k m
unfolding record_entry
record_entry-HasKey e l m k p h =
    let (row, checked, appended) = step_ok (validated e) (λ row. append_row row l) h in
    append_row-HasKey k row l m (validated_key e row checked ∙ p) appended

record_all_keeps :
    (es : List RecordLedgerInput) (l m : Ledger) (k : LedgerKey)
    → record_all es l ≡ ok m
    → HasKey k l
    → HasKey k m
unfolding record_all
record_all_keeps [] l m k h p = ground arith
record_all_keeps (e ∷ es) l m k h p =
    let (l', first, rest) = step_ok (record_entry e l) (record_all es) h in
    record_all_keeps es l' m k rest (record_entry_keeps e l l' k first p)

-- A posting whose key is there and that passed the validations once leaves the ledger as it is.
record_entry_again :
    (e : RecordLedgerInput) (l l' m : Ledger) (k : LedgerKey)
    → e.idempotency_key ≡ some k
    → record_entry e l ≡ ok l'
    → HasKey k m
    → record_entry e m ≡ ok m
unfolding record_entry
record_entry_again e l l' m k p h there =
    let (row, checked, _) = step_ok (validated e) (λ row. append_row row l) h in
    rw checked (append_row_present k row m (validated_key e row checked ∙ p) there)

-- Posting a list of keyed entries a second time, on the ledger that the first time left or on any
-- later one that still has their keys, succeeds and changes nothing.
record_all_again :
    (es : List RecordLedgerInput) (l l' m : Ledger)
    → All Keyed es
    → record_all es l ≡ ok l'
    → ((k : LedgerKey) → HasKey k l' → HasKey k m)
    → record_all es m ≡ ok m
unfolding record_all
record_all_again [] l l' m ks h grows = refl
record_all_again (e ∷ es) l l' m ((k, p), ks) h grows =
    let (l1, first, rest) = step_ok (record_entry e l) (record_all es) h in
    rw
      (record_entry_again e l l1 m k p first
        (grows k (record_all_keeps es l1 l' k rest (record_entry-HasKey e l l1 k p first))))
      (record_all_again es l1 l' m ks rest grows)

-- Posting a list of entries that all carry keys is idempotent: posted a second time, on the ledger
-- that the first time left, it succeeds and leaves that ledger as it is.
pub record_all_idem :
    (es : List RecordLedgerInput) (l l' : Ledger)
    → All Keyed es
    → record_all es l ≡ ok l'
    → record_all es l' ≡ ok l'
record_all_idem es l l' ks h = record_all_again es l l' l' ks h (λ k there. there)
