-- ===== src/Books/Postings.antt =====
-- What one posting adds to the figures of each customer.
use recurring_service_platfo.Session.{Db}
use recurring_service_platfo.Session.Frames.{KeepsBooks}
use recurring_service_platfo.Base.{
  All, ok, ℕ, ◌≡◌, sym, ap, ◌∙◌, ◌⊎◌, inl, inr, Option, none, some, ◌∷◌, arith,
}
use recurring_service_platfo.Base.Int.{ℤ, pos, ◌+ℤ◌, neg, zero-+ℤ, neg-zero}
use recurring_service_platfo.Base.Sums.{sum_by}
use recurring_service_platfo.Core.Date.{Date}
use recurring_service_platfo.Models.{
  TenantContext, EntryKind, charge, payment, adjustment, from_service_record, from_payment,
  LedgerEntry,
}
use recurring_service_platfo.Billing.Ledger.{entry_of, post_entry}
use recurring_service_platfo.Billing.Ledger.Posting.{post_entry-ledger}
use recurring_service_platfo.Billing.Reporting.{business_generated_minor, collected_minor}
use recurring_service_platfo.Billing.Reporting.Figures.{
  IsPosted, generated_part, collected_part, business_generated_lem, collected_lem,
}
use recurring_service_platfo.Books.{share, accepted_value, received_value, Balanced}

abbrev pub IsPosting : EntryKind → EntryKind → Type 0
IsPosting own kind = (kind ≡ own) ⊎ (kind ≡ adjustment)

share-zero : (t c holder owner : ℕ) → share t c holder owner (pos 0) ≡ pos 0
share-zero t c holder owner = ground arith

generated-entry :
    (t c : ℕ) (ctx : TenantContext) (customer : ℕ) (kind : EntryKind) (amount : ℤ) (on : Date)
    (id cycle : ℕ)
    → IsPosting charge kind
    → generated_part t
        (some c)
        none
        (entry_of ctx customer kind amount on from_service_record id cycle)
      ≡ share t c ctx.tenant_id customer amount
generated-entry t c ctx customer kind amount on id cycle k = ground arith

collected-entry :
    (t c : ℕ) (ctx : TenantContext) (customer : ℕ) (kind : EntryKind) (amount : ℤ) (on : Date)
    (id cycle : ℕ)
    → IsPosting charge kind
    → collected_part t
        (some c)
        none
        (entry_of ctx customer kind amount on from_service_record id cycle)
      ≡ pos 0
collected-entry t c ctx customer kind amount on id cycle k = ground arith

generated-payment :
    (t c : ℕ) (ctx : TenantContext) (customer : ℕ) (kind : EntryKind) (amount : ℤ) (on : Date)
    (id cycle : ℕ)
    → IsPosting payment kind
    → generated_part t (some c) none (entry_of ctx customer kind amount on from_payment id cycle)
      ≡ pos 0
generated-payment t c ctx customer kind amount on id cycle k = ground arith

collected-payment :
    (t c : ℕ) (ctx : TenantContext) (customer : ℕ) (kind : EntryKind) (amount : ℤ) (on : Date)
    (id cycle : ℕ)
    → IsPosting payment kind
    → collected_part t (some c) none (entry_of ctx customer kind amount on from_payment id cycle)
      ≡ share t c ctx.tenant_id customer (neg amount)
collected-payment t c ctx customer kind amount on id cycle k = ground arith

-- The figures read nothing but the ledger.
pub generated-ledger :
    (t c : ℕ) (db db' : Db)
    → db'.ledger ≡ db.ledger
    → business_generated_minor t (some c) none db' ≡ business_generated_minor t (some c) none db
unfolding business_generated_minor
generated-ledger t c db db' e = rw e

pub collected-ledger :
    (t c : ℕ) (db db' : Db)
    → db'.ledger ≡ db.ledger
    → collected_minor t (some c) none db' ≡ collected_minor t (some c) none db
unfolding collected_minor
collected-ledger t c db db' e = rw e

pub Balanced-KeepsBooks : {db db' : Db} → Balanced db → KeepsBooks db db' → Balanced db'
Balanced-KeepsBooks {db} {db'} b k = record {
  posted = rw k.same_ledger b.posted;
  generated = λ t c.
      generated-ledger t c db db' k.same_ledger
      ∙ b.generated t c
      ∙ ap (accepted_value t c) (sym k.same_records);
  collected = λ t c.
      collected-ledger t c db db' k.same_ledger
      ∙ b.collected t c
      ∙ ap (received_value t c) (sym k.same_payments);
}

generated-cons :
    (t c : ℕ) (db db' : Db) (e : LedgerEntry)
    → db'.ledger ≡ e ∷ db.ledger
    → business_generated_minor t (some c) none db'
      ≡ generated_part t (some c) none e +ℤ business_generated_minor t (some c) none db
generated-cons t c db db' e h =
    business_generated_lem t (some c) none db'
    ∙ ap (sum_by (generated_part t (some c) none)) h
    ∙ ap (λ s. generated_part t (some c) none e +ℤ s)
        (sym (business_generated_lem t (some c) none db))

collected-cons :
    (t c : ℕ) (db db' : Db) (e : LedgerEntry)
    → db'.ledger ≡ e ∷ db.ledger
    → collected_minor t (some c) none db'
      ≡ collected_part t (some c) none e +ℤ collected_minor t (some c) none db
collected-cons t c db db' e h =
    collected_lem t (some c) none db'
    ∙ ap (sum_by (collected_part t (some c) none)) h
    ∙ ap (λ s. collected_part t (some c) none e +ℤ s) (sym (collected_lem t (some c) none db))

module _ (ctx : TenantContext) (customer : ℕ) (kind : EntryKind) (amount : ℤ) (on : Date) (id : ℕ)
    (db db' : Db) (o : Option LedgerEntry) where
  module _ (k : IsPosting charge kind)
      (done : post_entry ctx customer kind amount on from_service_record id db ≡ ok (o, db')) where
    pub service-IsPosted : All IsPosted db.ledger → All IsPosted db'.ledger
    service-IsPosted h =
        elim (post_entry-ledger ctx customer kind amount on from_service_record id db db' o done) [
          | inl (z, e) ↦ rw e h
          | inr (cycle, e) ↦ rw e (ground arith, h)
        ]

    pub service-generated :
        (t c : ℕ)
        → business_generated_minor t (some c) none db'
          ≡ share t c ctx.tenant_id customer amount +ℤ business_generated_minor t (some c) none db
    service-generated t c =
        elim (post_entry-ledger ctx customer kind amount on from_service_record id db db' o done) [
          | inl (z, e) ↦
              rw
                (
                  z,
                  share-zero t c ctx.tenant_id customer,
                  zero-+ℤ (business_generated_minor t (some c) none db),
                )
                (generated-ledger t c db db' e)
          | inr (cycle, e) ↦
              generated-cons t c db db' _ e
              ∙ ap (λ s. s +ℤ business_generated_minor t (some c) none db)
                  (generated-entry t c ctx customer kind amount on id cycle k)
        ]

    pub service-collected :
        (t c : ℕ) → collected_minor t (some c) none db' ≡ collected_minor t (some c) none db
    service-collected t c =
        elim (post_entry-ledger ctx customer kind amount on from_service_record id db db' o done) [
          | inl (z, e) ↦ collected-ledger t c db db' e
          | inr (cycle, e) ↦
              collected-cons t c db db' _ e
              ∙ ap (λ s. s +ℤ collected_minor t (some c) none db)
                  (collected-entry t c ctx customer kind amount on id cycle k)
              ∙ zero-+ℤ _
        ]

  module _ (k : IsPosting payment kind)
      (done : post_entry ctx customer kind amount on from_payment id db ≡ ok (o, db')) where
    pub payment-IsPosted : All IsPosted db.ledger → All IsPosted db'.ledger
    payment-IsPosted h =
        elim (post_entry-ledger ctx customer kind amount on from_payment id db db' o done) [
          | inl (z, e) ↦ rw e h
          | inr (cycle, e) ↦ rw e (ground arith, h)
        ]

    pub payment-generated :
        (t c : ℕ)
        → business_generated_minor t (some c) none db' ≡ business_generated_minor t (some c) none db
    payment-generated t c =
        elim (post_entry-ledger ctx customer kind amount on from_payment id db db' o done) [
          | inl (z, e) ↦ generated-ledger t c db db' e
          | inr (cycle, e) ↦
              generated-cons t c db db' _ e
              ∙ ap (λ s. s +ℤ business_generated_minor t (some c) none db)
                  (generated-payment t c ctx customer kind amount on id cycle k)
              ∙ zero-+ℤ _
        ]

    pub payment-collected :
        (t c : ℕ)
        → collected_minor t (some c) none db'
          ≡ share t c ctx.tenant_id customer (neg amount) +ℤ collected_minor t (some c) none db
    payment-collected t c =
        elim (post_entry-ledger ctx customer kind amount on from_payment id db db' o done) [
          | inl (z, e) ↦
              rw
                (
                  z,
                  neg-zero,
                  share-zero t c ctx.tenant_id customer,
                  zero-+ℤ (collected_minor t (some c) none db),
                )
                (collected-ledger t c db db' e)
          | inr (cycle, e) ↦
              collected-cons t c db db' _ e
              ∙ ap (λ s. s +ℤ collected_minor t (some c) none db)
                  (collected-payment t c ctx customer kind amount on id cycle k)
        ]
