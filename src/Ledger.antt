-- ===== src/Ledger.antt =====
-- src/financial/financial-events.ts, src/financial/financial-ledger.service.ts and
-- src/financial/order-ledger.ts: the append-only ledger, its deterministic keys, and the postings of
-- a paid order. Identifiers are natural numbers, compared for equality only; a key is the pair of its
-- event and its anchor, whose printed form `event:anchor` joins the two.
pub mod Idempotence
pub mod OrderPostings
mod Tests
use Prim.Native.String.{String}
use text.Mathlib.Text.{◌==◌ as str_eq}
use qift_platform.Prelude.{
  ℕ, Bool, true, false, not, ◌&&◌, ◌||◌, Option, none, some, List, [], ◌∷◌, ◌++◌, ◌==◌, any, find,
  if◌then◌else◌,
}
use qift_platform.Prelude.Int.{ℤ, pos, leb_ℤ, ltb_ℤ, eqb_ℤ}
use qift_platform.Prelude.Outcome.{Result, ok, err, ◌>>=◌, ◌>>◌, throw_if}
use qift_platform.Prelude.Text.{trim, is_empty, to_upper}

pub data FinancialEvent : Type 0 where
  order_paid qift_service_fee_accrued merchant_payable_accrued delivery_fee_accrued : FinancialEvent
  corporate_invoice_issued merchant_invoice_issued : FinancialEvent
  invoice_payment_received qift_revenue_recognized merchant_remittance_paid : FinancialEvent
  settlement_started settlement_completed settlement_superseded : FinancialEvent
  refund_requested refund_approved refund_paid : FinancialEvent
  merchant_receivable_accrued merchant_receivable_recovered chargeback_created : FinancialEvent
  internal_transfer_completed : FinancialEvent

abbrev pub event_code : FinancialEvent → ℕ
event_code order_paid = 0
event_code qift_service_fee_accrued = 1
event_code merchant_payable_accrued = 2
event_code delivery_fee_accrued = 3
event_code corporate_invoice_issued = 4
event_code merchant_invoice_issued = 5
event_code invoice_payment_received = 6
event_code qift_revenue_recognized = 7
event_code merchant_remittance_paid = 8
event_code settlement_started = 9
event_code settlement_completed = 10
event_code settlement_superseded = 11
event_code refund_requested = 12
event_code refund_approved = 13
event_code refund_paid = 14
event_code merchant_receivable_accrued = 15
event_code merchant_receivable_recovered = 16
event_code chargeback_created = 17
event_code internal_transfer_completed = 18

-- `ledgerIdempotencyKey(event, anchor)`; an anchor is one identifier, or two joined by a colon.
pub record LedgerKey : Type 0 where
  pub event : FinancialEvent
  pub anchor : ℕ
  pub sub_anchor : Option ℕ

abbrev pub ledger_idempotency_key : FinancialEvent → ℕ → LedgerKey
ledger_idempotency_key e a = record { event = e; anchor = a; sub_anchor = none }

abbrev pub option_eq : Option ℕ → Option ℕ → Bool
option_eq none none = true
option_eq (some a) (some b) = a == b
option_eq _ _ = false

abbrev pub key_eq : LedgerKey → LedgerKey → Bool
key_eq j k =
    event_code j.event == event_code k.event
    && (j.anchor == k.anchor && option_eq j.sub_anchor k.sub_anchor)

pub data Direction : Type 0 where
  credit debit : Direction

pub data ActorType : Type 0 where
  system admin user psp : ActorType

pub data Counterparty : Type 0 where
  merchant qift sender company : Counterparty

-- What a posting of the settlement subsystem records beside its amount.
pub data Metadata : Type 0 where
  no_metadata : Metadata
  order_context : String → String → Metadata
  batch_started : (reference item_count : ℕ) (net_amount : ℤ) → Metadata
  batch_remitted : (reference remittance_id : ℕ) (bank_reference : String) → Metadata
  batch_closed_zero_net : (reference closed_at : ℕ) → Metadata
  batch_superseded : (reference : ℕ) → Metadata
  recovered_by_cash_draw : (reference receivable_id refund_id : ℕ) → Metadata
  recovered_transfer_due : (reference receivable_id refund_id closed_at : ℕ) → Metadata
  refund_of_goods : (invoice_id : ℕ) (evidence account : String) (vat_component : ℤ) → Metadata
  receivable_of_refund : (refund_id invoice_id : ℕ) → Metadata
  remittance_paid : (settlement_id reference : ℕ) (bank_reference : String) → Metadata

pub record RecordLedgerInput : Type 0 where
  pub event_type : FinancialEvent
  pub reason_code : String
  pub actor_type : ActorType
  pub actor_id : Option ℕ
  pub amount : ℤ
  pub currency : String
  pub direction : Direction
  pub counterparty : Option Counterparty
  pub order_id : Option ℕ
  pub payment_id : Option ℕ
  pub store_id : Option ℕ
  pub metadata : Metadata
  pub idempotency_key : Option LedgerKey

abbrev pub Ledger : Type 0
Ledger = List RecordLedgerInput

pub data LedgerError : Type 0 where
  marker_key_required amount_not_positive currency_required reason_required order_reason_taken :
      LedgerError

-- `SETTLEMENT_LIFECYCLE_MARKERS.has(eventType)`
abbrev pub is_lifecycle_event : FinancialEvent → Bool
is_lifecycle_event settlement_started = true
is_lifecycle_event settlement_completed = true
is_lifecycle_event settlement_superseded = true
is_lifecycle_event _ = false

unfoldable pub is_lifecycle_marker : RecordLedgerInput → Bool
is_lifecycle_marker input = is_lifecycle_event input.event_type && eqb_ℤ input.amount (pos 0)

abbrev pub is_none {ℓ} : {A : Type ℓ} → Option A → Bool
is_none none = true
is_none (some _) = false

-- The validations of `record`, in their order, and the row that is written.
unfoldable pub validated : RecordLedgerInput → Result LedgerError RecordLedgerInput
unfolding is_lifecycle_marker
validated input = do
  let marker = is_lifecycle_marker input
  throw_if (marker && is_none input.idempotency_key) marker_key_required
  throw_if (not marker && leb_ℤ input.amount (pos 0)) amount_not_positive
  throw_if (is_empty (trim input.currency)) currency_required
  throw_if (is_empty (trim input.reason_code)) reason_required
  ok (record input {
    currency = to_upper (trim input.currency);
    reason_code = trim input.reason_code;
  })

-- Whether a row carries a key.
unfoldable pub holds_key : LedgerKey → RecordLedgerInput → Bool
holds_key k row = elim row.idempotency_key [ none ↦ false | some j ↦ key_eq k j ]

unfoldable pub find_by_idempotency_key : LedgerKey → Ledger → Option RecordLedgerInput
find_by_idempotency_key k ledger = find (holds_key k) ledger

-- Whether a row has the key of this one.
unfoldable pub key_taken : RecordLedgerInput → Ledger → Bool
unfolding holds_key
key_taken row ledger = elim row.idempotency_key [ none ↦ false | some k ↦ any (holds_key k) ledger ]

-- Whether a row has the order and the reason of this one, the older unique key; rows of no order never
-- collide.
unfoldable pub reason_taken : RecordLedgerInput → Ledger → Bool
reason_taken row ledger = elim row.order_id [
  | none ↦ false
  | some order ↦
      any
        (λ (r : RecordLedgerInput).
          option_eq r.order_id (some order) && str_eq r.reason_code row.reason_code)
        ledger
]

-- The insert under the two unique keys: the row that has the posting's own key stands; any other
-- collision is an error; else the new row is appended.
unfoldable pub append_row : RecordLedgerInput → Ledger → Result LedgerError Ledger
unfolding key_taken reason_taken
append_row row ledger =
    if key_taken row ledger
    then ok ledger
    else if reason_taken row ledger
    then err order_reason_taken
    else ok (ledger ++ row ∷ [])

unfoldable pub record_entry : RecordLedgerInput → Ledger → Result LedgerError Ledger
record_entry input ledger = do row ← validated input; append_row row ledger

unfoldable pub record_all : List RecordLedgerInput → Ledger → Result LedgerError Ledger
record_all [] ledger = ok ledger
record_all (e ∷ rest) ledger = record_entry e ledger >>= record_all rest

pub record PaidOrder : Type 0 where
  pub id : ℕ
  pub user_id : ℕ
  pub store_id : Option ℕ
  pub product_price : ℤ
  pub service_fee : ℤ
  pub delivery_fee : ℤ
  pub total_amount : ℤ
  pub currency : String
  pub payment_provider : String

-- The fields that the four postings of an order share.
order_posting :
    PaidOrder
    → Option ℕ
    → FinancialEvent
    → String
    → ℤ
    → Direction
    → Counterparty
    → RecordLedgerInput
order_posting order payment event reason amount direction counterparty = record {
  event_type = event;
  reason_code = reason;
  actor_type = ActorType.system;
  actor_id = none;
  amount = amount;
  currency = order.currency;
  direction = direction;
  counterparty = some counterparty;
  order_id = some order.id;
  payment_id = payment;
  store_id = order.store_id;
  metadata = order_context "fee-v1" order.payment_provider;
  idempotency_key = some (ledger_idempotency_key event order.id);
}

paid_posting : PaidOrder → Option ℕ → RecordLedgerInput
unfolding order_posting
paid_posting order payment =
    let posting =
      order_posting order payment order_paid "ORDER_PAID" order.total_amount credit sender in
    record posting { actor_type = ActorType.user; actor_id = some order.user_id }

fee_posting : PaidOrder → Option ℕ → RecordLedgerInput
unfolding order_posting
fee_posting order payment =
    order_posting order payment qift_service_fee_accrued "QIFT_SERVICE_FEE" order.service_fee credit
      qift

payable_posting : PaidOrder → Option ℕ → RecordLedgerInput
unfolding order_posting
payable_posting order payment =
    order_posting order payment merchant_payable_accrued "MERCHANT_PAYABLE" order.product_price
      debit merchant

delivery_posting : PaidOrder → Option ℕ → RecordLedgerInput
unfolding order_posting
delivery_posting order payment =
    order_posting order payment delivery_fee_accrued "DELIVERY_FEE" order.delivery_fee debit
      merchant

-- `if (c) entries.push(e)`
abbrev pub push_if {ℓ} : {A : Type ℓ} → Bool → A → List A
push_if c e = if c then e ∷ [] else []

unfoldable pub build_order_ledger_entries : PaidOrder → Option ℕ → List RecordLedgerInput
unfolding paid_posting fee_posting payable_posting delivery_posting
build_order_ledger_entries order payment =
    paid_posting order payment
    ∷ (push_if (ltb_ℤ (pos 0) order.service_fee) (fee_posting order payment)
        ++ (push_if (not (is_none order.store_id) && ltb_ℤ (pos 0) order.product_price)
              (payable_posting order payment)
            ++ push_if (ltb_ℤ (pos 0) order.delivery_fee) (delivery_posting order payment)))
