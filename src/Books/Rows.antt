-- ===== src/Books/Rows.antt =====
-- A change of the accepted rows, followed by the posting of its amount.

use recurring_service_platfo.Session.{Db, Action, ◌>>◌, pure, after}
use recurring_service_platfo.Base.Int.{ℤ, pos, ◌+ℤ◌, ◌-ℤ◌, neg, int_laws}
use recurring_service_platfo.Session.Frames.{Keeps, Keeps-bind, Keeps-pure}
use recurring_service_platfo.Base.{
  if◌then◌else◌, ok, ℕ, ◌≡◌, sym, ap, ◌∙◌, Bool, true, false, Option, arith,
}
use recurring_service_platfo.Core.Date.{Date}
use recurring_service_platfo.Core.Text.{Text}
use recurring_service_platfo.Session.Tables.{record_tenant_event}
use recurring_service_platfo.Models.{
  TenantContext, EntryKind, charge, payment, from_service_record, from_payment, LedgerEntry, Entity,
  AuditAction, AuditSource,
}
use recurring_service_platfo.Billing.Ledger.{post_entry}
use recurring_service_platfo.Billing.Ledger.Posting.{post_entry-KeepsRows}
use recurring_service_platfo.Books.{share, accepted_value, received_value, Balanced}
use recurring_service_platfo.Books.Postings.{
  IsPosting, generated-ledger, collected-ledger, service-IsPosted, service-generated,
  service-collected, payment-IsPosted, payment-generated, payment-collected,
}

module _ (ctx : TenantContext) (customer : ℕ) (kind : EntryKind) (amount : ℤ) (on : Date) (id : ℕ)
    (db₀ db db' : Db) (o : Option LedgerEntry) (b : Balanced db₀)
    (same_ledger : db.ledger ≡ db₀.ledger) where
  pub Balanced-service :
      IsPosting charge kind
      → db.payments ≡ db₀.payments
      → ((t c : ℕ)
          → accepted_value t c db.records
            ≡ share t c ctx.tenant_id customer amount +ℤ accepted_value t c db₀.records)
      → post_entry ctx customer kind amount on from_service_record id db ≡ ok (o, db')
      → Balanced db'
  Balanced-service k same_payments change done =
      let rows =
        post_entry-KeepsRows ctx customer kind amount on from_service_record id db db' o done in
      record {
        posted =
            service-IsPosted ctx customer kind amount on id db db' o k done
              (rw same_ledger b.posted);
        generated = λ t c.
            service-generated ctx customer kind amount on id db db' o k done t c
            ∙ ap (λ s. share t c ctx.tenant_id customer amount +ℤ s)
                (generated-ledger t c db₀ db same_ledger ∙ b.generated t c)
            ∙ sym (change t c)
            ∙ ap (accepted_value t c) (sym rows.same_records);
        collected = λ t c.
            service-collected ctx customer kind amount on id db db' o k done t c
            ∙ collected-ledger t c db₀ db same_ledger
            ∙ b.collected t c
            ∙ ap (received_value t c) (sym (rows.same_payments ∙ same_payments));
      }

  pub Balanced-payment :
      IsPosting payment kind
      → db.records ≡ db₀.records
      → ((t c : ℕ)
          → received_value t c db.payments
            ≡ share t c ctx.tenant_id customer (neg amount) +ℤ received_value t c db₀.payments)
      → post_entry ctx customer kind amount on from_payment id db ≡ ok (o, db')
      → Balanced db'
  Balanced-payment k same_records change done =
      let rows = post_entry-KeepsRows ctx customer kind amount on from_payment id db db' o done in
      record {
        posted =
            payment-IsPosted ctx customer kind amount on id db db' o k done
              (rw same_ledger b.posted);
        generated = λ t c.
            payment-generated ctx customer kind amount on id db db' o k done t c
            ∙ generated-ledger t c db₀ db same_ledger
            ∙ b.generated t c
            ∙ ap (accepted_value t c) (sym (rows.same_records ∙ same_records));
        collected = λ t c.
            payment-collected ctx customer kind amount on id db db' o k done t c
            ∙ ap (λ s. share t c ctx.tenant_id customer (neg amount) +ℤ s)
                (collected-ledger t c db₀ db same_ledger ∙ b.collected t c)
            ∙ sym (change t c)
            ∙ ap (received_value t c) (sym rows.same_payments);
      }

pub record_tenant_event-Keeps :
    (ctx : TenantContext) (action : AuditAction) (id : ℕ) (before after : Option Entity)
    (reason : Option Text) (operation_id : ℕ) (source : AuditSource)
    → Keeps (record_tenant_event ctx action id before after reason operation_id source)
unfolding record_tenant_event
record_tenant_event-Keeps ctx action id before after reason operation_id source db db' a h =
    ground arith

-- The end of every command: the commission hook, the audit event, the result.
pub settle-Keeps :
    {A : Type 0} (hook : Action A) (ctx : TenantContext) (action : AuditAction) (id : ℕ)
    (before after : Option Entity) (reason : Option Text) (operation_id : ℕ) (source : AuditSource)
    (e : Entity)
    → Keeps hook
    → Keeps (
        hook
        >> (record_tenant_event ctx action id before after reason operation_id source >> pure e))
settle-Keeps hook ctx action id before after reason operation_id source e k =
    Keeps-bind hook _ k (λ a.
      Keeps-bind _ _
        (record_tenant_event-Keeps ctx action id before after reason operation_id source)
        (λ u. Keeps-pure e))

-- A share that is taken out.
pub share-out :
    (b : Bool) (s x : ℤ)
    → s -ℤ (if b then x else pos 0) +ℤ pos 0 ≡ (if b then neg x else pos 0) +ℤ s
share-out true s x = omega int_laws
share-out false s x = omega int_laws
