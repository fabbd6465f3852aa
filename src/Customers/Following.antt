-- ===== src/Customers/Following.antt =====
-- What a request to update a customer leaves alone.

use mathlib.Core.Path.{subst}
use recurring_service_platfo.Session.{after}
use recurring_service_platfo.Base.{
  Bool-cases, get_or, validation_failed, ok, err, >>=-eq-ok, ◌≡◌, refl, sym, ap, ◌∙◌, inl, inr,
  true, false, Option, none, some,
}
use recurring_service_platfo.Core.Text.{Text, strip, is_empty}
use recurring_service_platfo.Core.Money.{PyValue, int_value, decimal_of_quantity}
use recurring_service_platfo.Models.{Customer}
use recurring_service_platfo.Search.Names.{Unicode, normalize_text}
use recurring_service_platfo.Customers.Fields.{
  StatusInput, active_input, inactive_input, unknown_status, UpdateCustomerInput, validate_phone,
  validate_quantity, validate_price, set_name, set_phone, set_whatsapp, set_quantity, set_price,
  set_status, updated_customer,
}

-- The comparison key is that of the name.
abbrev pub KeyMatches : Unicode → Customer → Type 0
KeyMatches u c = c.normalized_name ≡ normalize_text u c.name

-- What every field of a request leaves alone.
pub record Follows (u : Unicode) (before after : Customer) : Type 0 where
  pub same_id : after.id ≡ before.id
  pub same_tenant : after.tenant_id ≡ before.tenant_id
  pub key : KeyMatches u before → KeyMatches u after

pub Follows-trans : (u : Unicode) (a b c : Customer) → Follows u a b → Follows u b c → Follows u a c
Follows-trans u a b c h k = record {
  same_id = k.same_id ∙ h.same_id;
  same_tenant = k.same_tenant ∙ h.same_tenant;
  key = λ m. k.key (h.key m);
}

ok-injective : {A : Type 0} (x y : A) → ok x ≡ ok y → x ≡ y
ok-injective x y h = cc

Follows-to :
    (u : Unicode) (c after after' : Customer)
    → Follows u c after
    → ok after ≡ ok after'
    → Follows u c after'
Follows-to u c after after' f h = subst (Follows u c) (ok-injective after after' h) f

-- A change that keeps the name, its key and the keys of the row.
pub plain :
    (u : Unicode) (c after : Customer)
    → after.id ≡ c.id
    → after.tenant_id ≡ c.tenant_id
    → after.name ≡ c.name
    → after.normalized_name ≡ c.normalized_name
    → Follows u c after
plain u c after ei et en ek = record {
  same_id = ei;
  same_tenant = et;
  key = λ m. ek ∙ m ∙ ap (normalize_text u) (sym en);
}

not_ok : {after : Customer} → err validation_failed ≡ ok after → ⊥
not_ok h = cc

module _ (u : Unicode) (c after : Customer) where
  set_name-Follows : (name : Option Text) → set_name u name c ≡ ok after → Follows u c after
  set_name-Follows none h = Follows-to u c c after (plain u c c refl refl refl refl) h
  set_name-Follows (some name) h = elim (Bool-cases (is_empty (strip name))) [
    | inl blank ↦ absurd (not_ok (rw blank at h))
    | inr kept ↦
        Follows-to u c
          (record c { name = strip name; normalized_name = normalize_text u (strip name) }) after
          (record { same_id = refl; same_tenant = refl; key = λ m. refl }) (rw kept at h)
  ]

  set_phone-Follows :
      (phone : Option (Option Text)) → set_phone u phone c ≡ ok after → Follows u c after
  set_phone-Follows none h = Follows-to u c c after (plain u c c refl refl refl refl) h
  set_phone-Follows (some phone) h =
      let (p, e, h₁) = >>=-eq-ok (validate_phone u phone) _ h in
      Follows-to u c (record c { phone_e164 = p }) after
        (plain u c (record c { phone_e164 = p }) refl refl refl refl) h₁

  set_whatsapp-Follows :
      (phone : Option (Option Text)) → set_whatsapp u phone c ≡ ok after → Follows u c after
  set_whatsapp-Follows none h = Follows-to u c c after (plain u c c refl refl refl refl) h
  set_whatsapp-Follows (some phone) h =
      let (p, e, h₁) = >>=-eq-ok (validate_phone u phone) _ h in
      Follows-to u c (record c { whatsapp_e164 = p }) after
        (plain u c (record c { whatsapp_e164 = p }) refl refl refl refl) h₁

  set_quantity-Follows :
      (value : Option PyValue) → set_quantity value c ≡ ok after → Follows u c after
  set_quantity-Follows none h = Follows-to u c c after (plain u c c refl refl refl refl) h
  set_quantity-Follows (some value) h =
      let (q, e, h₁) = >>=-eq-ok (validate_quantity value) _ h in
      let (p, e₂, h₂) = >>=-eq-ok (validate_price (int_value c.unit_price_minor)) _ h₁ in
      Follows-to u c (record c { default_quantity = q }) after
        (plain u c (record c { default_quantity = q }) refl refl refl refl) h₂

  set_price-Follows : (value : Option PyValue) → set_price value c ≡ ok after → Follows u c after
  set_price-Follows none h = Follows-to u c c after (plain u c c refl refl refl refl) h
  set_price-Follows (some value) h =
      let (q, e, h₁) = >>=-eq-ok (validate_quantity (decimal_of_quantity c.default_quantity)) _ h in
      let (p, e₂, h₂) = >>=-eq-ok (validate_price value) _ h₁ in
      Follows-to u c (record c { unit_price_minor = p }) after
        (plain u c (record c { unit_price_minor = p }) refl refl refl refl) h₂

  set_status-Follows :
      (status : Option StatusInput) → set_status status c ≡ ok after → Follows u c after
  set_status-Follows none h = Follows-to u c c after (plain u c c refl refl refl refl) h
  set_status-Follows (some active_input) h =
      Follows-to u c (record c { is_active = true }) after
        (plain u c (record c { is_active = true }) refl refl refl refl) h
  set_status-Follows (some inactive_input) h =
      Follows-to u c (record c { is_active = false }) after
        (plain u c (record c { is_active = false }) refl refl refl refl) h
  set_status-Follows (some unknown_status) h = cc

pub updated-Follows :
    (u : Unicode) (input : UpdateCustomerInput) (c after : Customer)
    → updated_customer u input c ≡ ok after
    → Follows u c after
unfolding updated_customer
updated-Follows u input c after h =
    let (c₁, e₁, h₁) = >>=-eq-ok (set_name u input.name c) _ h in
    let (c₂, e₂, h₂) = >>=-eq-ok (set_phone u input.phone_e164 c₁) _ h₁ in
    let (c₃, e₃, h₃) = >>=-eq-ok (set_whatsapp u input.whatsapp_e164 c₂) _ h₂ in
    let placed = record c₃ {
      address = get_or input.address c₃.address;
      area = get_or input.area c₃.area;
    } in
    let (c₄, e₄, h₄) = >>=-eq-ok (set_quantity input.default_quantity placed) _ h₃ in
    let (c₅, e₅, h₅) = >>=-eq-ok (set_price input.unit_price_minor c₄) _ h₄ in
    Follows-trans u c c₁ after (set_name-Follows u c c₁ input.name e₁) (
      Follows-trans u c₁ c₂ after (set_phone-Follows u c₁ c₂ input.phone_e164 e₂) (
        Follows-trans u c₂ c₃ after (set_whatsapp-Follows u c₂ c₃ input.whatsapp_e164 e₃) (
          Follows-trans u c₃ placed after (plain u c₃ placed refl refl refl refl) (
            Follows-trans u placed c₄ after
              (set_quantity-Follows u placed c₄ input.default_quantity e₄)
              (Follows-trans u c₄ c₅ after (set_price-Follows u c₄ c₅ input.unit_price_minor e₅)
                (set_status-Follows u c₅ after input.status h₅))))))
