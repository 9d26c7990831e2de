-- ===== src/Settlement/Store/Views.antt =====
-- Transactions that leave a part of the tables as it is, for any such part.
use qift_platform.Prelude.{Bool, true, false, Option, none, some, ◌≡◌, sym, ap, ◌∙◌, if◌then◌else◌}
use qift_platform.Prelude.Outcome.{Result, ok, err}
use qift_platform.Ledger.{RecordLedgerInput, Ledger, LedgerError, record_entry}
use qift_platform.Settlement.Errors.{SettlementError}
use qift_platform.Settlement.Store.{
  Db, Tx, ◌>>=◌, gets, lift, throw_when, or_throw, modify, pure, throw, post,
}
use qift_platform.Settlement.Store.Update.{tx_ok, ok_pair, posted, post-posted}

module _ {T : Type 0} (view : Db → T) where
  abbrev pub Preserves : {A : Type 0} → Tx A → Type 0
  Preserves {A} m = (db : Db) (a : A) (db' : Db) → m db ≡ ok (a, db') → view db' ≡ view db

  pub Preserves->>= :
      {A B : Type 0} (m : Tx A) (f : A → Tx B)
      → Preserves m
      → ((a : A) → Preserves (f a))
      → Preserves (m >>= f)
  Preserves->>= m f km kf db b db' h =
      let (a, mid, first, rest) = tx_ok m f db h in kf a mid b db' rest ∙ km db a mid first

  pub Preserves-pure : {A : Type 0} (a : A) → Preserves (pure a)
  Preserves-pure a db b db' h = ap view (sym (ok_pair a b db db' h).1)

  pub Preserves-throw : {A : Type 0} (e : SettlementError) → Preserves (throw {A = A} e)
  Preserves-throw e db b db' h = cc

  pub Preserves-gets : {A : Type 0} (f : Db → A) → Preserves (gets f)
  Preserves-gets f db b db' h = ap view (sym (ok_pair (f db) b db db' h).1)

  pub Preserves-throw_when : (c : Bool) (e : SettlementError) → Preserves (throw_when c e)
  Preserves-throw_when true e db b db' h = cc
  Preserves-throw_when false e db b db' h = ap view (sym (ok_pair tt b db db' h).1)

  pub Preserves-lift : {A : Type 0} (r : Result SettlementError A) → Preserves (lift r)
  Preserves-lift (ok a) db b db' h = ap view (sym (ok_pair a b db db' h).1)
  Preserves-lift (err e) db b db' h = cc

  or_throw_same : {A : Type 0} (o : Option A) (e : SettlementError) → Preserves (or_throw o e)
  or_throw_same none e db b db' h = cc
  or_throw_same (some a) e db b db' h = ap view (sym (ok_pair a b db db' h).1)

  pub Preserves-or_throw :
      {A : Type 0} (f : Db → Option A) (e : SettlementError)
      → Preserves (λ db. or_throw (f db) e db)
  Preserves-or_throw f e db b db' h = or_throw_same (f db) e db b db' h

  pub Preserves-if :
      {A : Type 0} (c : Bool) {m n : Tx A}
      → Preserves m
      → Preserves n
      → Preserves (if c then m else n)
  Preserves-if true km kn = km
  Preserves-if false km kn = kn

  pub Preserves-modify : (f : Db → Db) → ((db : Db) → view (f db) ≡ view db) → Preserves (modify f)
  Preserves-modify f k db b db' h = ap view (sym (ok_pair tt b (f db) db' h).1) ∙ k db

  module _
      (blind : (db : Db) (ledger : Ledger) → view (record db { ledger = ledger }) ≡ view db) where
    Preserves-posted : (r : Result LedgerError Ledger) → Preserves (posted r)
    unfolding posted
    Preserves-posted (ok ledger) db b db' h =
        ap view (sym (ok_pair tt b (record db { ledger = ledger }) db' h).1) ∙ blind db ledger
    Preserves-posted (err e) db b db' h = cc

    pub Preserves-post : (input : RecordLedgerInput) → Preserves (post input)
    Preserves-post input db b db' h =
        Preserves-posted (record_entry input db.ledger) db b db' (rw (post-posted input db) at h)
