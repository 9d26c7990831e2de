-- ===== src/Settlement/Store/Rows.antt =====
-- The rows of the tables of the settlement services (prisma/schema.prisma).
use Prim.Native.String.{String}
use qift_platform.Prelude.{ℕ, Bool, Option, List}
use qift_platform.Prelude.Int.{ℤ}
use qift_platform.Settlement.States.{ItemState, BatchState, ReceivableState}
use qift_platform.Settlement.Calculator.{SettlementCalculation}
use qift_platform.Settlement.Canonical.{Json}
use qift_platform.Settlement.CreditNote.{CreditNoteFacts}

pub data ClosureType : Type 0 where
  remitted zero_net_no_transfer : ClosureType

-- The typed holds of SC §6.1.
pub data HoldType : Type 0 where
  risk_review verification_pending dispute_adjacent regulatory manual : HoldType

abbrev pub References : Type 0
References = List (String × Option String)

-- One entry of a frozen composition.
pub record CompositionEntry : Type 0 where
  pub item_id : ℕ
  pub occurrence_type : String
  pub occurrence_id : ℕ
  pub amount : ℤ
  pub currency : String
  pub references : References

-- One offset of a frozen recovery allocation.
pub record Allocation : Type 0 where
  pub receivable_id : ℕ
  pub occurrence_id : ℕ
  pub amount : ℤ
  pub amount_recovered_at_plan : ℤ
  pub balance_after : ℤ

pub record Item : Type 0 where
  pub id : ℕ
  pub store_id : ℕ
  pub occurrence_type : String
  pub occurrence_id : ℕ
  pub amount : ℤ
  pub currency : String
  pub state : ItemState
  pub batch_id : Option ℕ
  pub hold_type : Option HoldType
  pub hold_evidence : Option String

pub record Batch : Type 0 where
  pub id : ℕ
  pub reference : ℕ
  pub store_id : ℕ
  pub currency : String
  pub window_type : String
  pub status : BatchState
  pub gross_amount : ℤ
  pub net_amount : ℤ
  pub composition : List CompositionEntry
  pub calculation : SettlementCalculation
  pub allocation : List Allocation
  pub assembled_by : Option ℕ
  pub closure_type : Option ClosureType
  pub closed_at : Option ℕ
  pub failure_evidence : Option String
  pub superseded_by : Option ℕ

pub record Receivable : Type 0 where
  pub id : ℕ
  pub store_id : ℕ
  pub currency : String
  pub occurrence_id : ℕ
  pub amount : ℤ
  pub amount_recovered : ℤ
  pub state : ReceivableState
  pub staged_by : Option ℕ
  pub recovered_at : Option ℕ
  pub recovered_by : Option ℕ

pub record Remittance : Type 0 where
  pub id : ℕ
  pub settlement_id : ℕ
  pub reference : ℕ
  pub store_id : ℕ
  pub currency : String
  pub amount : ℤ
  pub bank_reference : String
  pub executed_at : ℕ
  pub executed_by : ℕ
  pub created_at : ℕ

-- An act of preview and a vote, each bound to the hash of one calculation.
pub record PreviewAct : Type 0 where
  pub id : ℕ
  pub settlement_id : ℕ
  pub reference : ℕ
  pub calculation_hash : String
  pub replay_verified : Bool
  pub previewed_by : ℕ
  pub previewed_at : ℕ

pub record Approval : Type 0 where
  pub id : ℕ
  pub settlement_id : ℕ
  pub reference : ℕ
  pub calculation_hash : String
  pub required_level : ℕ
  pub approved_by : ℕ
  pub approved_at : ℕ
  pub note : Option String

pub data StatementVersion : Type 0 where
  v1 v2 : StatementVersion

-- An issued statement: the value that its column keeps, the text of it and the hash of that text.
pub record StatementRecord : Type 0 where
  pub settlement_id : ℕ
  pub reference : ℕ
  pub store_id : ℕ
  pub statement_version : StatementVersion
  pub payload : Json
  pub canonical : String
  pub statement_hash : String
  pub issued_at : ℕ

-- A credit note: the facts of its document, with the text and the hash of the current version.
pub record CreditNote : Type 0 where
  pub id : ℕ
  pub facts : CreditNoteFacts
  pub canonical : String
  pub document_hash : String
  pub current_version : ℕ

pub record CreditNoteVersion : Type 0 where
  pub credit_note_id : ℕ
  pub version_number : ℕ
  pub change_reason : String
  pub canonical : String
  pub document_hash : String
  pub statement_settlement_id : Option ℕ
  pub created_by : ℕ

-- The verdict of one replay.
pub record ReplayRecord : Type 0 where
  pub settlement_id : ℕ
  pub reference : ℕ
  pub calculation_replay_verified : Bool
  pub statement_integrity_verified : Bool
  pub statement_identical : Bool
  pub ran_by : ℕ
  pub ran_at : ℕ

pub record MerchantInvoice : Type 0 where
  pub id : ℕ
  pub merchant_invoice_number : Option String
  pub campaign_id : ℕ
  pub store_id : ℕ
  pub org_id : ℕ
  pub currency : String
  pub status : String
  pub total_amount : ℤ
  pub vat_amount : ℤ

pub record PaymentReceipt : Type 0 where
  pub invoice_type : String
  pub invoice_id : ℕ
  pub amount : ℤ

-- What a refund did to the settlement of the refunded occurrence.
pub data Interaction : Type 0 where
  item_reduced receivable_accrued : Interaction

pub record SettlementRefund : Type 0 where
  pub id : ℕ
  pub invoice_type : String
  pub invoice_id : ℕ
  pub store_id : ℕ
  pub org_id : ℕ
  pub campaign_id : ℕ
  pub currency : String
  pub amount : ℤ
  pub vat_component : ℤ
  pub reason : String
  pub evidence_ref : String
  pub refunded_at : ℕ
  pub recorded_by : ℕ
  pub settlement_interaction : Interaction

pub record GiftCampaign : Type 0 where
  pub id : ℕ
  pub reference_number : Option String

-- The audit of an act: who did what to which store, under the key of the act where it is guaranteed.
pub data AuditAction : Type 0 where
  simulated assembled failed retried held superseded settled closed_zero_net : AuditAction
  previewed approved executed healed : AuditAction
  zero_net_statement zero_net_healed credit_note_attached replayed : AuditAction
  refund_recorded credit_note_issued : AuditAction

pub record AuditRow : Type 0 where
  pub key : Option (AuditAction × ℕ)
  pub action : AuditAction
  pub actor : ℕ
  pub target_store : ℕ
