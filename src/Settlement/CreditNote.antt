-- ===== src/Settlement/CreditNote.antt =====
-- src/settlement/settlement-credit-note.ts: the canonical document of a credit note and its hash.
use Prim.Native.String.{String}
use qift_platform.Prelude.{ℕ, Option, none, some}
use qift_platform.Prelude.Int.{ℤ}
use qift_platform.Settlement.Canonical.{
  Json, null, number, text, object, Fields, end, field, Platform, canonical_json, hash_canonical,
  text_or_null, number_or_null,
}

-- The facts are the columns of the credit note. An absent snapshot is null.
pub record CreditNoteFacts : Type 0 where
  pub reference_number : String
  pub refund_id : ℕ
  pub note_type : String
  pub invoice_type : String
  pub invoice_id : ℕ
  pub merchant_invoice_number : Option String
  pub merchant_credit_note_number : Option String
  pub qift_credit_note_number : Option String
  pub issuer_type : String
  pub issuance_source : String
  pub on_behalf_authorization_ref : Option String
  pub credit_note_uuid : Option String
  pub original_invoice_number : Option String
  pub net_component : Option ℤ
  pub reason_code : Option String
  pub tax_rule_version : Option String
  pub buyer_snapshot : Option Json
  pub issuer_snapshot : Option Json
  pub store_id : Option ℕ
  pub org_id : ℕ
  pub campaign_id : ℕ
  pub currency : String
  pub amount : ℤ
  pub vat_component : ℤ
  pub reason : String
  pub issued_at : ℕ
  pub issued_by : ℕ
  pub statement_settlement_id : Option ℕ

or_null : Option Json → Json
or_null none = null
or_null (some snapshot) = snapshot

module _ (p : Platform) where
  id_or_null : Option ℕ → Json
  id_or_null none = null
  id_or_null (some n) = text (p.id_text n)

  party_fields : CreditNoteFacts → Fields
  unfolding or_null id_or_null
  party_fields f = field "storeId" (id_or_null f.store_id) (
      field "orgId" (text (p.id_text f.org_id)) (
        field "campaignId" (text (p.id_text f.campaign_id)) (
          field "currency" (text f.currency) (
            field "amount" (number f.amount) (
              field "vatComponent" (number f.vat_component) (
                field "reason" (text f.reason) (
                  field "issuedAt" (text (p.iso f.issued_at)) (
                    field "issuedBy" (text (p.id_text f.issued_by)) (
                      field "statementSettlementId" (id_or_null f.statement_settlement_id)
                        end)))))))))

  money_fields : CreditNoteFacts → Fields
  unfolding party_fields or_null
  money_fields f = field "netComponent" (number_or_null f.net_component) (
      field "reasonCode" (text_or_null f.reason_code) (
        field "taxRuleVersion" (text_or_null f.tax_rule_version) (
          field "buyerSnapshot" (or_null f.buyer_snapshot)
            (field "issuerSnapshot" (or_null f.issuer_snapshot) (party_fields f)))))

  -- `buildCreditNoteDocument`
  unfoldable pub build_credit_note_document : CreditNoteFacts → Json
  unfolding money_fields
  build_credit_note_document f = object (
      field "documentVersion" (text "v3") (
        field "referenceNumber" (text f.reference_number) (
          field "refundId" (text (p.id_text f.refund_id)) (
            field "noteType" (text f.note_type) (
              field "invoice"
                (object (
                  field "invoiceType" (text f.invoice_type) (
                    field "invoiceId" (text (p.id_text f.invoice_id)) (
                      field "merchantInvoiceNumber" (text_or_null f.merchant_invoice_number) (
                        field "originalInvoiceNumber" (text_or_null f.original_invoice_number)
                          end)))))
                (field "issuerType" (text f.issuer_type) (
                  field "issuanceSource" (text f.issuance_source) (
                    field "onBehalfAuthorizationRef" (text_or_null f.on_behalf_authorization_ref) (
                      field "creditNoteUuid" (text_or_null f.credit_note_uuid) (
                        field "merchantCreditNoteNumber"
                          (text_or_null f.merchant_credit_note_number)
                          (field "qiftCreditNoteNumber" (text_or_null f.qift_credit_note_number)
                            (money_fields f))))))))))))

  unfoldable pub credit_note_canonical : CreditNoteFacts → String
  unfolding build_credit_note_document
  credit_note_canonical facts = canonical_json p (build_credit_note_document facts)

  unfoldable pub credit_note_hash : CreditNoteFacts → String
  unfolding hash_canonical
  credit_note_hash facts = hash_canonical p (credit_note_canonical facts)
