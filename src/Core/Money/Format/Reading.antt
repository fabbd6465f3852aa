-- ===== src/Core/Money/Format/Reading.antt =====
-- backend/app/core/money.py: what `format_minor` writes says the amount.
use recurring_service_platfo.Core.Money.Format.Digits.{
  is_digit, read_digits, read_digits-append, read_digits-number_text,
}
use recurring_service_platfo.Base.{
  ltb, ◌==◌, if◌then◌else◌, ltb→lt, Bool-cases, length, All, ok, ℕ, zero, suc, ◌+◌, ◌-◌, ◌*◌, ◌/◌,
  ◌%◌, ◌^◌, ◌≤◌, ◌<◌, ◌≡◌, refl, sym, ap, ◌∙◌, inl, inr, Bool, true, false, ◌||◌, Option, none,
  some, [], ◌∷◌, ◌++◌, arith,
}
use recurring_service_platfo.Base.Int.{ℤ, pos, negsuc, magnitude, neg}
use recurring_service_platfo.Core.Text.{Text}
use recurring_service_platfo.Core.Money.Format.{
  decimal_from, decimal, padded, grouped_from, grouped, fraction_of, number_text, sign_text,
  format_minor,
}
use mathlib.Core.Option
use mathlib.Core.Path.{subst}

-- A character of the whole part: a digit, or a comma between groups.
abbrev is_whole : ℕ → Bool
is_whole c = is_digit c || c == b','

-- Exactly `k` digits after the point.
unfoldable pub read_fraction : ℕ → ℕ → Text → Option ℕ
read_fraction zero acc [] = some acc
read_fraction zero acc (c ∷ cs) = none
read_fraction (suc k) acc [] = none
read_fraction (suc k) acc (c ∷ cs) =
    let rest = read_fraction k (acc * 10 + (c - b'0')) cs in if is_digit c then rest else none

-- An amount without decimals has no point, and any other has one.
abbrev read_point : ℕ → ℕ → Text → Option ℕ
read_point zero acc cs = none
read_point (suc k) acc cs = read_fraction (suc k) acc cs

abbrev read_end : ℕ → ℕ → Option ℕ
read_end zero acc = some acc
read_end (suc k) acc = none

unfoldable pub read_whole : ℕ → ℕ → Text → Option ℕ
read_whole k acc [] = read_end k acc
read_whole k acc (c ∷ cs) =
    let digit = read_whole k (acc * 10 + (c - b'0')) cs in
    let comma = read_whole k acc cs in
    if is_digit c
    then digit
    else if c == b','
    then comma
    else if c == b'.'
    then read_point k acc cs
    else none

-- What a person reads, for a currency of `k` decimals: a minus sign or none, the whole part, and
-- `k` digits after a point.
unfoldable pub read_amount : ℕ → Text → Option ℤ
read_amount k [] = none
read_amount k (c ∷ cs) =
    if c == b'-'
    then Option.map (λ n. neg (pos n)) (read_whole k 0 cs)
    else Option.map pos (read_whole k 0 (c ∷ cs))

read_whole-digits :
    (k acc : ℕ) (s t : Text)
    → All (λ c. is_whole c ≡ true) s
    → read_whole k acc (s ++ t) ≡ read_whole k (read_digits acc s) t
unfolding read_whole read_digits
read_whole-digits k acc [] t h = refl
read_whole-digits k acc (c ∷ s) t h = elim (Bool-cases (is_digit c)) [
  | inl e ↦ rw e (read_whole-digits k (acc * 10 + (c - b'0')) s t h.1)
  | inr e ↦
      let comma : (c == b',') ≡ true = ground (arith, h.0) in
      rw (e, comma) (read_whole-digits k acc s t h.1)
]

read_fraction-digits :
    (acc : ℕ) (s : Text)
    → All (λ c. is_digit c ≡ true) s
    → read_fraction (length s) acc s ≡ some (read_digits acc s)
unfolding read_fraction read_digits
read_fraction-digits acc [] h = refl
read_fraction-digits acc (c ∷ s) h = rw (h.0) (read_fraction-digits (acc * 10 + (c - b'0')) s h.1)

All-append : (P : ℕ → Type 0) (s t : Text) → All P s → All P t → All P (s ++ t)
All-append P [] t h k = k
All-append P (c ∷ s) t h k = (h.0, All-append P s t h.1 k)

All-weaken : (P Q : ℕ → Type 0) (s : Text) → ((c : ℕ) → P c → Q c) → All P s → All Q s
All-weaken P Q [] f h = tt
All-weaken P Q (c ∷ s) f h = (f c h.0, All-weaken P Q s f h.1)

digit_of : (d : ℕ) → d < 10 → is_digit (b'0' + d) ≡ true
digit_of d h = ground arith

padded-digits : (k n : ℕ) → All (λ c. is_digit c ≡ true) (padded k n)
unfolding padded
padded-digits zero n = tt
padded-digits (suc k) n =
    All-append (λ c. is_digit c ≡ true) (padded k (n / 10)) _ (padded-digits k (n / 10))
      (digit_of (n % 10) (omega arith), tt)

length-snoc : (s : Text) (c : ℕ) → length (s ++ c ∷ []) ≡ suc (length s)
length-snoc [] c = refl
length-snoc (d ∷ s) c = ap suc (length-snoc s c)

length-padded : (k n : ℕ) → length (padded k n) ≡ k
unfolding padded
length-padded zero n = refl
length-padded (suc k) n =
    length-snoc (padded k (n / 10)) (b'0' + n % 10) ∙ ap suc (length-padded k (n / 10))

decimal_from-digits : (fuel n : ℕ) → All (λ c. is_digit c ≡ true) (decimal_from fuel n)
unfolding decimal_from
decimal_from-digits zero n = tt
decimal_from-digits (suc fuel) n = elim (Bool-cases (ltb n 10)) [
  | inl e ↦ rw e (digit_of n (ltb→lt n 10 e), tt)
  | inr e ↦ rw e (
      All-append (λ c. is_digit c ≡ true) (decimal_from fuel (n / 10)) _
        (decimal_from-digits fuel (n / 10)) (digit_of (n % 10) (omega arith), tt))
]

digit-whole : (c : ℕ) → is_digit c ≡ true → is_whole c ≡ true
digit-whole c h = rw h refl

grouped_from-whole : (fuel n : ℕ) → All (λ c. is_whole c ≡ true) (grouped_from fuel n)
unfolding grouped_from decimal
grouped_from-whole zero n = tt
grouped_from-whole (suc fuel) n = elim (Bool-cases (ltb n 1000)) [
  | inl e ↦ rw e (
      All-weaken (λ c. is_digit c ≡ true) (λ c. is_whole c ≡ true) (decimal_from (suc n) n)
        digit-whole (decimal_from-digits (suc n) n))
  | inr e ↦ rw e (
      All-append (λ c. is_whole c ≡ true) (grouped_from fuel (n / 1000)) _
        (grouped_from-whole fuel (n / 1000))
        (
          refl,
          All-weaken (λ c. is_digit c ≡ true) (λ c. is_whole c ≡ true) (padded 3 (n % 1000))
              digit-whole (padded-digits 3 (n % 1000)),
        ))
]

read_whole-fraction :
    (k acc n : ℕ) → read_whole k acc (fraction_of k n) ≡ some (read_digits acc (fraction_of k n))
unfolding read_whole read_digits
read_whole-fraction zero acc n = refl
read_whole-fraction (suc k) acc n =
    subst (λ m. read_fraction m acc (padded (suc k) n) ≡ some (read_digits acc (padded (suc k) n)))
      (length-padded (suc k) n)
      (read_fraction-digits acc (padded (suc k) n) (padded-digits (suc k) n))

read_whole-number_text : (k n : ℕ) → read_whole k 0 (number_text k n) ≡ some n
unfolding number_text grouped
read_whole-number_text k n =
    let whole = grouped_from (suc (n / 10 ^ k)) (n / 10 ^ k) in
    read_whole-digits k 0 whole (fraction_of k (n % 10 ^ k))
      (grouped_from-whole (suc (n / 10 ^ k)) (n / 10 ^ k))
    ∙ read_whole-fraction k (read_digits 0 whole) (n % 10 ^ k)
    ∙ ap some (
        sym (read_digits-append 0 whole (fraction_of k (n % 10 ^ k))) ∙ read_digits-number_text k n)

abbrev StartsWithDigit : Text → Type 0
StartsWithDigit [] = ⊥
StartsWithDigit (c ∷ _) = b'0' ≤ c

append-StartsWithDigit : (s t : Text) → StartsWithDigit s → StartsWithDigit (s ++ t)
append-StartsWithDigit [] t h = absurd h
append-StartsWithDigit (c ∷ s) t h = h

decimal_from-StartsWithDigit : (fuel n : ℕ) → n < fuel → StartsWithDigit (decimal_from fuel n)
unfolding decimal_from
decimal_from-StartsWithDigit zero n h = absurd (omega arith)
decimal_from-StartsWithDigit (suc fuel) n h = elim (Bool-cases (ltb n 10)) [
  | inl e ↦ rw e (omega arith)
  | inr e ↦ rw e (
      append-StartsWithDigit (decimal_from fuel (n / 10)) ((b'0' + n % 10) ∷ [])
        (decimal_from-StartsWithDigit fuel (n / 10) (ground arith)))
]

grouped_from-StartsWithDigit : (fuel n : ℕ) → n < fuel → StartsWithDigit (grouped_from fuel n)
unfolding grouped_from decimal
grouped_from-StartsWithDigit zero n h = absurd (omega arith)
grouped_from-StartsWithDigit (suc fuel) n h = elim (Bool-cases (ltb n 1000)) [
  | inl e ↦ rw e (decimal_from-StartsWithDigit (suc n) n (omega arith))
  | inr e ↦ rw e (
      append-StartsWithDigit (grouped_from fuel (n / 1000)) (b',' ∷ padded 3 (n % 1000))
        (grouped_from-StartsWithDigit fuel (n / 1000) (ground arith)))
]

number_text-StartsWithDigit : (k n : ℕ) → StartsWithDigit (number_text k n)
unfolding number_text grouped
number_text-StartsWithDigit k n =
    append-StartsWithDigit (grouped (n / 10 ^ k)) (fraction_of k (n % 10 ^ k))
      (grouped_from-StartsWithDigit (suc (n / 10 ^ k)) (n / 10 ^ k) (omega arith))

read_amount-unsigned :
    (k : ℕ) (t : Text) → StartsWithDigit t → read_amount k t ≡ Option.map pos (read_whole k 0 t)
unfolding read_amount
read_amount-unsigned k [] h = absurd h
read_amount-unsigned k (c ∷ cs) h =
    let unsigned : (c == b'-') ≡ false = ground (arith, h) in rw unsigned refl

sign_text-pos : (n : ℕ) → sign_text (pos n) ≡ []
sign_text-pos n = ground arith

sign_text-negsuc : (n : ℕ) → sign_text (negsuc n) ≡ b'-' ∷ []
sign_text-negsuc n = ground arith

neg-suc : (n : ℕ) → neg (pos (suc n)) ≡ negsuc n
unfolding neg
neg-suc n = ground arith

read_amount-number :
    (a : ℤ) (k : ℕ) → read_amount k (sign_text a ++ number_text k (magnitude a)) ≡ some a
unfolding read_amount
read_amount-number (pos n) k =
    ap (λ sign. read_amount k (sign ++ number_text k n)) (sign_text-pos n)
    ∙ read_amount-unsigned k (number_text k n) (number_text-StartsWithDigit k n)
    ∙ ap (Option.map pos) (read_whole-number_text k n)
read_amount-number (negsuc n) k =
    ap (λ sign. read_amount k (sign ++ number_text k (suc n))) (sign_text-negsuc n)
    ∙ ap (Option.map (λ m. neg (pos m))) (read_whole-number_text k (suc n))
    ∙ ap some (neg-suc n)

-- For an amount of up to 28 digits, the text that a customer reads is the currency, a space and a
-- number: a minus sign or none, digits with commas, and a point with exactly as many digits as
-- the currency has decimals, or no point when it has none; read that way, the number gives back
-- the amount in minor units
pub format_minor-read :
    (amount : ℤ) (currency : Text) (exponent : ℕ) (t : Text)
    → magnitude amount < 10 ^ 28
    → format_minor amount currency exponent ≡ ok t
    → (number : Text) × (t ≡ currency ++ b' ' ∷ number)
      × (read_amount exponent number ≡ some amount)
unfolding format_minor
format_minor-read amount currency exponent t exact h = (
  sign_text amount ++ number_text exponent (magnitude amount),
  ground arith,
  read_amount-number amount exponent,
)
