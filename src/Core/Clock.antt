-- ===== src/Core/Clock.antt =====
-- backend/app/core/clock.py: the rule for an explicitly requested date. The tenant's business date
-- itself comes from the zone database; the commands take it with their context.
use recurring_service_platfo.Base.{
  if◌then◌else◌, validation_failed, value_error, Result, ok, err, reraise, ◌≡◌, false, Option, none,
  some, arith,
}
use recurring_service_platfo.Core.Date.{Date, date_ltb}

unfoldable pub validate_business_date : Date → Date → Result Date
validate_business_date requested today =
    if date_ltb today requested then err value_error else ok requested

abbrev pub validate_service_date : Date → Date → Result Date
validate_service_date requested today = validate_business_date requested today

-- The server owns "today"; an explicit date is validated.
unfoldable pub resolve_date : Date → Option Date → Result Date
unfolding validate_business_date
resolve_date today none = ok today
resolve_date today (some requested) =
    reraise validation_failed (validate_business_date requested today)

pub resolve_date-le :
    (today : Date) (requested : Option Date) (d : Date)
    → resolve_date today requested ≡ ok d
    → date_ltb today d ≡ false
unfolding resolve_date
resolve_date-le today none d h = ground arith
resolve_date-le today (some r) d h = ground arith
