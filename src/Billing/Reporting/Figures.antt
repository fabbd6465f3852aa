-- ===== src/Billing/Reporting/Figures.antt =====
-- The figures of one ledger: how they relate, and what one entry adds to each.
use recurring_service_platfo.Session.{Db}
use recurring_service_platfo.Base.{
  if◌then◌else◌, All, ℕ, ◌≡◌, refl, sym, ap, ◌∙◌, true, ◌&&◌, ◌||◌, Option, List, [], ◌∷◌, arith,
}
use recurring_service_platfo.Base.Int.{
  ℤ, pos, ◌+ℤ◌, ◌-ℤ◌, neg, int_laws, +ℤ-zero, zero-+ℤ, neg-zero, neg-neg, -ℤ-zero, zero--ℤ-neg,
}
use recurring_service_platfo.Base.Sums.{sum_by, sum_where, sum_by-add, sum_by-neg}
use recurring_service_platfo.Models.{
  LedgerEntry, is_charge, is_payment_entry, is_adjustment, is_service_origin, is_payment_origin,
}
use recurring_service_platfo.Billing.Reporting.{
  in_scope, business_generated_minor, collected_minor, outstanding_total_minor,
}

-- An entry of the four kinds that the commands post: no opening balance, and an adjustment comes
-- from a service record or a payment.
abbrev pub IsPosted : LedgerEntry → Type 0
IsPosted e =
    (is_charge e
      || (is_payment_entry e || (is_adjustment e && (is_service_origin e || is_payment_origin e))))
    ≡ true

abbrev pub generated_part : ℕ → Option ℕ → Option ℕ → LedgerEntry → ℤ
generated_part tenant customer cycle e =
    if in_scope tenant customer cycle e && (is_charge e || (is_adjustment e && is_service_origin e))
    then e.amount_minor
    else pos 0

abbrev pub collected_part : ℕ → Option ℕ → Option ℕ → LedgerEntry → ℤ
collected_part tenant customer cycle e =
    if in_scope tenant customer cycle e
      && (is_payment_entry e || (is_adjustment e && is_payment_origin e))
    then neg e.amount_minor
    else pos 0

module _ (tenant : ℕ) (customer cycle : Option ℕ) where
  generated_parts :
      (e : LedgerEntry)
      → generated_part tenant customer cycle e
        ≡ (if in_scope tenant customer cycle e && is_charge e then e.amount_minor else pos 0)
          +ℤ (if in_scope tenant customer cycle e && (is_adjustment e && is_service_origin e)
              then e.amount_minor
              else pos 0)
  generated_parts e =
      ground (arith, +ℤ-zero e.amount_minor, zero-+ℤ e.amount_minor, +ℤ-zero (pos 0))

  -- Business generated, one entry at a time.
  pub business_generated_lem :
      (db : Db)
      → business_generated_minor tenant customer cycle db
        ≡ sum_by (generated_part tenant customer cycle) db.ledger
  unfolding business_generated_minor
  business_generated_lem db = sym (sum_by-add _ _ _ db.ledger generated_parts)

  collected_parts :
      (e : LedgerEntry)
      → neg (collected_part tenant customer cycle e)
        ≡ (if in_scope tenant customer cycle e && is_payment_entry e then e.amount_minor else pos 0)
          +ℤ (if in_scope tenant customer cycle e && (is_adjustment e && is_payment_origin e)
              then e.amount_minor
              else pos 0)
  collected_parts e = ground (
    arith,
    +ℤ-zero e.amount_minor,
    zero-+ℤ e.amount_minor,
    +ℤ-zero (pos 0),
    neg-neg e.amount_minor,
    neg-zero,
  )

  -- Collections, one entry at a time.
  pub collected_lem :
      (db : Db)
      → collected_minor tenant customer cycle db
        ≡ sum_by (collected_part tenant customer cycle) db.ledger
  unfolding collected_minor
  collected_lem db =
      ap neg (sym (sum_by-add _ _ _ db.ledger collected_parts))
      ∙ ap neg (sum_by-neg (collected_part tenant customer cycle) _ db.ledger (λ e. refl))
      ∙ neg-neg _

  posted_parts :
      (e : LedgerEntry)
      → IsPosted e
      → (if in_scope tenant customer cycle e then e.amount_minor else pos 0)
        ≡ generated_part tenant customer cycle e -ℤ collected_part tenant customer cycle e
  posted_parts e h =
      ground (arith, -ℤ-zero e.amount_minor, zero--ℤ-neg e.amount_minor, -ℤ-zero (pos 0))

  outstanding_parts :
      (l : List LedgerEntry)
      → All IsPosted l
      → sum_where (in_scope tenant customer cycle) (λ e. e.amount_minor) l
        ≡ sum_by (generated_part tenant customer cycle) l
          -ℤ sum_by (collected_part tenant customer cycle) l
  outstanding_parts [] h = omega int_laws
  outstanding_parts (e ∷ l) h = rw (posted_parts e h.0, outstanding_parts l h.1) (omega int_laws)

  -- Over a ledger of posted entries and in every scope of customer and cycle, outstanding is
  -- business generated less collections
  pub outstanding-eq-generated-collected :
      (db : Db)
      → All IsPosted db.ledger
      → outstanding_total_minor tenant customer cycle db
        ≡ business_generated_minor tenant customer cycle db
          -ℤ collected_minor tenant customer cycle db
  unfolding outstanding_total_minor
  outstanding-eq-generated-collected db h =
      rw (business_generated_lem db, collected_lem db) (outstanding_parts db.ledger h)
