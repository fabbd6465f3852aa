-- ===== src/Tests/Customers.antt =====
-- Customers and aliases at concrete inputs.
use recurring_service_platfo.Session.{Db, new_id, next_row_version, after}
use recurring_service_platfo.Session.Tables.{record_tenant_event}
use recurring_service_platfo.Base.{
  leb, if◌then◌else◌, All, conflict, Result, ok, err, ℕ, ◌+◌, ◌≡◌, refl, true, false, ◌&&◌, ◌||◌,
  none, some, List, [], ◌∷◌, ◌++◌, map, arith,
}
use recurring_service_platfo.Core.Text.{codes, is_space, lstrip, rstrip, strip}
use recurring_service_platfo.Models.{TenantContext, Entity}
use recurring_service_platfo.Search.Phone.{take}
use recurring_service_platfo.Search.Names.{Unicode, join_words, normalize_text}
use recurring_service_platfo.Customers.Fields.{
  UpdateCustomerInput, digits_match, is_e164, updated_customer,
}
use recurring_service_platfo.Customers.Commands.{get_customer, settle_update, update_customer}
use recurring_service_platfo.Customers.Updates.{update_customer-stale, update_customer-KeyMatches}
use recurring_service_platfo.Customers.Following.{KeyMatches}
use recurring_service_platfo.Customers.Aliases.{
  validated, alias_row, touch_customer, add_alias, update_alias, deactivate_alias,
}
use recurring_service_platfo.Customers.Aliases.Bounds.{AliasesBounded}
use recurring_service_platfo.Customers.Aliases.Changes.{
  AliasCommand, add, respell, retire, run_alias_commands, run_alias_commands-AliasesBounded,
}
use recurring_service_platfo.Tests.Sample.{ctx, blank_db, no_entity, value_or}

-- The Unicode database on ASCII texts.
abbrev ascii : Unicode
ascii = record {
  nfkd = λ t. t;
  nfkc_folded = map (λ c. if leb b'A' c && leb c b'Z' then c + 32 else c);
  is_combining = λ c. false;
  is_alnum =
      λ c. (leb b'0' c && leb c b'9') || ((leb b'a' c && leb c b'z') || (leb b'A' c && leb c b'Z'));
  is_decimal = λ c. leb b'0' c && leb c b'9';
}

key_of_name : normalize_text ascii (codes "  Ayesha-Bibi, K. ") ≡ codes "ayesha bibi k"
unfolding normalize_text take join_words is_space
key_of_name = refl

good_phone : is_e164 ascii.is_decimal (codes "+923001234567") ≡ true
unfolding is_e164 digits_match
good_phone = refl

short_phone : is_e164 ascii.is_decimal (codes "+923001") ≡ false
unfolding is_e164 digits_match
short_phone = refl

-- `$` matches before a newline that ends the text.
newline_phone : is_e164 ascii.is_decimal (codes "+923001234567" ++ 10 ∷ []) ≡ true
unfolding is_e164 digits_match
newline_phone = refl

abbrev keep_all : UpdateCustomerInput
keep_all = record {
  name = none;
  phone_e164 = none;
  whatsapp_e164 = none;
  address = none;
  area = none;
  default_quantity = none;
  unit_price_minor = none;
  status = none;
  expected_row_version = some 1;
}

abbrev rename : UpdateCustomerInput
rename = record keep_all { name = some (codes " Ayesha Khan ") }

abbrev renamed : Result (Entity × Db)
renamed = update_customer ascii ctx 5 rename 950 blank_db

renamed_run : renamed ≡ ok (value_or no_entity renamed, after blank_db renamed)
unfolding update_customer get_customer updated_customer settle_update next_row_version
    record_tenant_event normalize_text take join_words is_space strip rstrip lstrip
renamed_run = refl

update_customer-stale_example :
    update_customer ascii ctx 5 keep_all 951 (after blank_db renamed) ≡ err conflict
update_customer-stale_example =
    update_customer-stale ascii ctx 5 rename keep_all 950 951 blank_db (after blank_db renamed)
      (value_or no_entity renamed) 1 renamed_run refl (omega arith)

key_matches : All (KeyMatches ascii) blank_db.customers
unfolding normalize_text take join_words is_space
key_matches = (refl, tt)

update_customer-KeyMatches_example : All (KeyMatches ascii) (after blank_db renamed).customers
update_customer-KeyMatches_example =
    update_customer-KeyMatches ascii ctx 5 rename 950 blank_db (after blank_db renamed)
      (value_or no_entity renamed) key_matches renamed_run

abbrev nicknames : List (TenantContext × ℕ × ℕ × AliasCommand)
nicknames =
    (ctx, 5, 960, add (some (codes "Ashi")))
    ∷ (ctx, 5, 961, add (some (codes "ashi")))
    ∷ (ctx, 5, 962, respell 10 (some (codes "Ayesha bibi")))
    ∷ (ctx, 5, 963, retire 10 none)
    ∷ []

-- The second is refused, since it has the key of the first.
one_alias :
    map (λ a. a.alias) (run_alias_commands ascii nicknames blank_db).aliases
    ≡ codes "Ayesha bibi" ∷ []
unfolding run_alias_commands add_alias update_alias deactivate_alias alias_row touch_customer
    get_customer validated next_row_version new_id record_tenant_event normalize_text take
    join_words is_space strip rstrip lstrip
one_alias = refl

no_aliases : AliasesBounded blank_db
no_aliases t c = omega arith

run_alias_commands-AliasesBounded_example :
    AliasesBounded (run_alias_commands ascii nicknames blank_db)
run_alias_commands-AliasesBounded_example =
    run_alias_commands-AliasesBounded ascii nicknames blank_db no_aliases
