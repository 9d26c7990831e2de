-- ===== src/Settlement/Refunds/Note.antt =====
-- The credit note that src/settlement/settlement-refunds.service.ts issues with the refund of a merchant
-- invoice: its number is the merchant's, and its reference is drawn here.
use Prim.Native.String.{String}
use text.Mathlib.Text.{◌==◌ as str_eq}
use qift_platform.Prelude.{
  ℕ, zero, suc, Bool, not, ◌||◌, Option, none, some, List, [], ◌∷◌, ◌++◌, any, if◌then◌else◌,
}
use qift_platform.Prelude.Text.{trim, is_empty}
use qift_platform.Prelude.Outcome.{Result, ok, err}
use qift_platform.Ledger.{is_none}
use qift_platform.Settlement.Errors.{
  SettlementError, credit_note_series_separation, credit_note_source_unknown,
  on_behalf_requires_legal_number, on_behalf_requires_authorization_evidence,
  reference_allocation_exhausted,
}
use qift_platform.Settlement.Store.{
  CreditNote, CreditNoteVersion, MerchantInvoice, SettlementRefund, Tx, ◌>>=◌, ◌>>◌, lift, modify,
  or_throw,
}
use qift_platform.Settlement.Canonical.{Platform}
use qift_platform.Settlement.CreditNote.{CreditNoteFacts, credit_note_canonical, credit_note_hash}

pub record IssuanceInput : Type 0 where
  pub merchant_credit_note_number : Option String
  pub issuance_source : Option String
  pub on_behalf_authorization_ref : Option String

-- `text?.trim() || null`
unfoldable pub trimmed_or_none : Option String → Option String
trimmed_or_none none = none
trimmed_or_none (some t) = if is_empty (trim t) then none else some (trim t)

abbrev pub source_of : IssuanceInput → String
source_of input = elim input.issuance_source [ none ↦ "MERCHANT" | some s ↦ s ]

-- `MERCHANT_NUMBER_SOURCES`
abbrev pub is_number_source : String → Bool
is_number_source s =
    str_eq s "MERCHANT" || (str_eq s "ACCOUNTING_CONNECTOR" || str_eq s "QIFT_ON_BEHALF")

-- The rules of the legal number: the merchant's document is never numbered in Qift's own series.
unfoldable pub assert_issuance : IssuanceInput → Result SettlementError (Unit {0})
unfolding trimmed_or_none
assert_issuance input =
    if str_eq (source_of input) "QIFT"
    then err credit_note_series_separation
    else if not (is_number_source (source_of input))
    then err credit_note_source_unknown
    else if not (str_eq (source_of input) "QIFT_ON_BEHALF")
    then ok tt
    else if is_none (trimmed_or_none input.merchant_credit_note_number)
    then err on_behalf_requires_legal_number
    else if is_none (trimmed_or_none input.on_behalf_authorization_ref)
    then err on_behalf_requires_authorization_evidence
    else ok tt

abbrev pub holds_reference : String → CreditNote → Bool
holds_reference candidate n = str_eq n.facts.reference_number candidate

-- The first candidate that no credit note has, of as many as are tried.
unfoldable pub first_free : (left : ℕ) → List String → List CreditNote → Option String
first_free zero candidates notes = none
first_free (suc left) [] notes = none
first_free (suc left) (candidate ∷ rest) notes =
    let again = first_free left rest notes in
    if any (holds_reference candidate) notes then again else some candidate

-- `mintQn`, with the five attempts of an allocation.
unfoldable pub mint_qn : List String → Tx String
unfolding first_free
mint_qn candidates db =
    or_throw (first_free 5 candidates db.credit_notes) reference_allocation_exhausted db

unfoldable pub goods_facts :
    (actor now : ℕ)
    → IssuanceInput
    → MerchantInvoice
    → SettlementRefund
    → (reference : String) → CreditNoteFacts
unfolding trimmed_or_none
goods_facts actor now input invoice refund reference = record {
  reference_number = reference;
  refund_id = refund.id;
  note_type = "merchant_goods";
  invoice_type = "merchant_invoice";
  invoice_id = invoice.id;
  merchant_invoice_number = invoice.merchant_invoice_number;
  merchant_credit_note_number = trimmed_or_none input.merchant_credit_note_number;
  qift_credit_note_number = none;
  issuer_type = "MERCHANT";
  issuance_source = source_of input;
  on_behalf_authorization_ref = trimmed_or_none input.on_behalf_authorization_ref;
  credit_note_uuid = none;
  original_invoice_number = invoice.merchant_invoice_number;
  net_component = none;
  reason_code = none;
  tax_rule_version = none;
  buyer_snapshot = none;
  issuer_snapshot = none;
  store_id = some invoice.store_id;
  org_id = invoice.org_id;
  campaign_id = invoice.campaign_id;
  currency = "SAR";
  amount = refund.amount;
  vat_component = refund.vat_component;
  reason = refund.reason;
  issued_at = now;
  issued_by = actor;
  statement_settlement_id = none;
}

module _ (p : Platform) where
  unfoldable pub note_of : (fresh : ℕ) → CreditNoteFacts → CreditNote
  note_of fresh facts = record {
    id = fresh;
    facts = facts;
    canonical = credit_note_canonical p facts;
    document_hash = credit_note_hash p facts;
    current_version = 1;
  }

  unfoldable pub first_version : (actor fresh : ℕ) → CreditNoteFacts → CreditNoteVersion
  first_version actor fresh facts = record {
    credit_note_id = fresh;
    version_number = 1;
    change_reason = "issued";
    canonical = credit_note_canonical p facts;
    document_hash = credit_note_hash p facts;
    statement_settlement_id = none;
    created_by = actor;
  }

  -- The note of a refund and its first version.
  unfoldable pub issue_note :
      (actor now fresh : ℕ)
      → (candidates : List String) → IssuanceInput
      → MerchantInvoice
      → SettlementRefund
      → Tx (Unit {0})
  unfolding note_of first_version mint_qn assert_issuance goods_facts
  issue_note actor now fresh candidates input invoice refund = do
    lift (assert_issuance input)
    reference ← mint_qn candidates
    let facts = goods_facts actor now input invoice refund reference
    modify (λ db. record db {
      credit_notes = db.credit_notes ++ note_of fresh facts ∷ [];
      credit_note_versions = db.credit_note_versions ++ first_version actor fresh facts ∷ [];
    })
