-- ===== src/Billing/Invoices/Send.antt =====
-- `send` and `findById` of invoice.service.ts.
use truckmaster.Base.{
  ℕ, ◌+◌, ◌*◌, String, Bool, not, ◌&&◌, ◌||◌, none, some, List, [], ◌∷◌, ◌==◌, any, if◌then◌else◌,
}
use truckmaster.Base.Int.{pos, leb_ℤ}
use truckmaster.Store.Statuses.{
  InvoiceStatus, PaymentTerms, DocumentCode, EntityType, Role, ◌is◌, is_one_of, invoice_status_enum,
  role_enum,
}
use truckmaster.Store.Rows.{Invoice, InvoiceLineItem, Customer}
use truckmaster.Store.Transaction.{
  Store, Action, Job, pure, throw, gets, throw_if, record_audit, enqueue, fresh_id,
  with_tenant_transaction, ◌>>=◌, ◌>>◌, invalid_transition, business_rule, permission,
}
use truckmaster.Store.Audit
use truckmaster.Store.Queries.{require, find_invoice, find_customer, find_document_type}
use truckmaster.Sourcing.RateConfirmation.{generated_document, create_document}
use truckmaster.Billing.Invoices.Balance.{update_invoice}

abbrev pub payment_terms_days : PaymentTerms → ℕ
payment_terms_days PaymentTerms.due_on_receipt = 0
payment_terms_days PaymentTerms.net_15 = 15
payment_terms_days PaymentTerms.net_30 = 30
payment_terms_days PaymentTerms.net_45 = 45
payment_terms_days PaymentTerms.net_60 = 60

-- `dueDate.setDate(dueDate.getDate() + days)`, on a clock with no change of its offset.
abbrev pub due_date_from : ℕ → PaymentTerms → ℕ
due_date_from now terms = now + payment_terms_days terms * 86_400_000

abbrev pub has_line_items : ℕ → Store → Bool
has_line_items id s = any (λ (i : InvoiceLineItem). i.invoice_id == id) s.billing.line_items

pub record Sent : Type 0 where
  pub invoice : Invoice
  pub document_id : ℕ

unfoldable pub mark_sent : ℕ → ℕ → ℕ → String → ℕ → Action Sent
mark_sent now org id recipient actor = with_tenant_transaction do
  existing ← require (find_invoice org id)
  throw_if (not (existing.status is InvoiceStatus.draft)) invalid_transition
  itemised ← gets (has_line_items existing.id)
  throw_if (not itemised || leb_ℤ existing.total (pos 0)) business_rule
  customer ← require (find_customer org existing.customer_id)
  let due_date = due_date_from now customer.payment_terms
  type ← require (find_document_type org DocumentCode.invoice)
  document_id ← fresh_id
  create_document (
      generated_document now document_id type.id org EntityType.invoice existing.id
        DocumentCode.invoice actor)
  updated ←
      update_invoice id (λ i. record i {
        status = InvoiceStatus.sent;
        sent_at = some now;
        due_date = some due_date;
      })
  record_audit org id (Audit.invoice_sent recipient due_date) (some actor)
  pure (record { invoice = updated; document_id = document_id })

unfoldable pub send : ℕ → ℕ → ℕ → String → ℕ → Action Invoice
send now org id recipient actor = do
  sent ← mark_sent now org id recipient actor
  enqueue (Job.generate_invoice sent.document_id id)
  enqueue (Job.send_email recipient id)
  pure sent.invoice

abbrev pub financial_view_roles : List Role
financial_view_roles = Role.admin ∷ Role.accounting ∷ Role.operations_manager ∷ []

abbrev pub has_role_in : List Role → List Role → Bool
has_role_in acting roles = any (λ r. is_one_of r roles) acting

-- The account owner's deal, or with no owner the creator's.
unfoldable pub is_own_deal : Customer → ℕ → Bool
is_own_deal c user = elim c.account_owner_user_id [
  | none ↦ c.created_by_user_id == user
  | some owner ↦ owner == user
]

unfoldable pub find_by_id : ℕ → ℕ → ℕ → List Role → Action Invoice
find_by_id org id user roles = do
  invoice ← require (find_invoice org id)
  customer ← require (λ s. s.master.customers invoice.customer_id)
  if has_role_in roles financial_view_roles
        || (is_one_of Role.sales_booking roles && is_own_deal customer user)
      then pure invoice
      else throw permission
