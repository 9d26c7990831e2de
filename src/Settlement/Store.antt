-- ===== src/Settlement/Store.antt =====
-- The tables that the settlement services read and write (prisma/schema.prisma), and transactions
-- over them. A table is the list of its rows in the order of `createdAt` and `id`; identifiers are
-- natural numbers, compared for equality only, and instants are milliseconds.
pub mod Rows
pub mod Update
pub mod Views
use qift_platform.Prelude.{ℕ, suc, Bool, Option, none, some, List, [], ◌∷◌, if◌then◌else◌}
use qift_platform.Prelude.Outcome.{Result, ok, err}
use qift_platform.Ledger.{Ledger, RecordLedgerInput, record_entry}
use qift_platform.Settlement.Errors.{SettlementError, ledger_refused}
pub use qift_platform.Settlement.Store.Rows.{
  ClosureType, HoldType, References, CompositionEntry, Allocation, Item, Batch, Receivable,
  Remittance, PreviewAct, Approval, StatementVersion, StatementRecord, CreditNote,
  CreditNoteVersion, ReplayRecord, MerchantInvoice, PaymentReceipt, Interaction, SettlementRefund,
  GiftCampaign, AuditAction, AuditRow, remitted, zero_net_no_transfer, risk_review,
  verification_pending, dispute_adjacent, regulatory, manual, v1, v2, item_reduced,
  receivable_accrued, simulated, assembled, failed, retried, held, superseded, settled,
  closed_zero_net, previewed, approved, executed, healed, zero_net_statement, zero_net_healed,
  credit_note_attached, replayed, refund_recorded, credit_note_issued,
}

pub record Db : Type 0 where
  pub items : List Item
  pub batches : List Batch
  pub receivables : List Receivable
  pub remittances : List Remittance
  pub previews : List PreviewAct
  pub approvals : List Approval
  pub statements : List StatementRecord
  pub credit_notes : List CreditNote
  pub credit_note_versions : List CreditNoteVersion
  pub replay_records : List ReplayRecord
  pub invoices : List MerchantInvoice
  pub receipts : List PaymentReceipt
  pub refunds : List SettlementRefund
  pub campaigns : List GiftCampaign
  pub ledger : Ledger
  pub audit : List AuditRow

-- A computation that reads and writes the tables. If it throws, the transaction rolls back: no
-- tables come back.
abbrev pub Tx : Type 0 → Type 0
Tx A = Db → Result SettlementError (A × Db)

infixl 5 ◌>>=◌ ◌>>◌
abbrev pub ◌>>=◌ : {A B : Type 0} → Tx A → (A → Tx B) → Tx B
◌>>=◌ m f db = elim (m db) [ ok (a, db') ↦ f a db' | err e ↦ err e ]

abbrev pub ◌>>◌ : {B : Type 0} → Tx (Unit {0}) → Tx B → Tx B
m >> k = m >>= λ _. k

module _ {A : Type 0} where
  abbrev pub pure : A → Tx A
  pure a db = ok (a, db)

  abbrev pub throw : SettlementError → Tx A
  throw e db = err e

  abbrev pub gets : (Db → A) → Tx A
  gets f db = ok (f db, db)

  -- A computation that touches no table.
  abbrev pub lift : Result SettlementError A → Tx A
  lift r db = elim r [ ok a ↦ ok (a, db) | err e ↦ err e ]

  -- `if (!found) throw e`
  abbrev pub or_throw : Option A → SettlementError → Tx A
  or_throw none e db = err e
  or_throw (some a) e db = ok (a, db)

abbrev pub throw_when : Bool → SettlementError → Tx (Unit {0})
throw_when c e db = if c then err e else ok (tt, db)

abbrev pub modify : (Db → Db) → Tx (Unit {0})
modify f db = ok (tt, f db)

-- `updateMany({ where, data })`: the rows that match, changed.
module _ {A : Type 0} where
  unfoldable pub update_many : (A → Bool) → (A → A) → List A → List A
  update_many p f [] = []
  update_many p f (x ∷ xs) = (if p x then f x else x) ∷ update_many p f xs

  -- The `count` that `updateMany` returns.
  unfoldable pub count : (A → Bool) → List A → ℕ
  count p [] = 0
  count p (x ∷ xs) = if p x then suc (count p xs) else count p xs

-- A posting on the ledger, in the transaction.
unfoldable pub post : RecordLedgerInput → Tx (Unit {0})
post input db = elim (record_entry input db.ledger) [
  | ok ledger ↦ ok (tt, record db { ledger = ledger })
  | err e ↦ err (ledger_refused e)
]
