-- ===== src/Core/Money/Format/Digits.antt =====
-- backend/app/core/money.py: the number that the digits of an amount spell.
use recurring_service_platfo.Base.{
  ltb, leb, if◌then◌else◌, ltb→lt, Bool-cases, ℕ, zero, suc, ◌+◌, ◌-◌, ◌*◌, ◌/◌, ◌%◌, ◌^◌, ◌<◌, ◌≡◌,
  refl, sym, ap, ◌∙◌, inl, inr, Bool, ◌&&◌, [], ◌∷◌, ◌++◌, arith,
}
use recurring_service_platfo.Core.Text.{Text}
use recurring_service_platfo.Core.Money.Format.{
  decimal_from, decimal, padded, grouped_from, grouped, fraction_of, number_text,
}
use native.Mathlib.Nat.{pow-suc, mod-lt, div-add-mod'}

-- The number that the digits of a text spell, whatever stands between them.
abbrev pub is_digit : ℕ → Bool
is_digit c = leb b'0' c && leb c b'9'

unfoldable pub read_digits : ℕ → Text → ℕ
read_digits acc [] = acc
read_digits acc (c ∷ cs) = read_digits (if is_digit c then acc * 10 + (c - b'0') else acc) cs

pub read_digits-append :
    (acc : ℕ) (s t : Text) → read_digits acc (s ++ t) ≡ read_digits (read_digits acc s) t
unfolding read_digits
read_digits-append acc [] t = refl
read_digits-append acc (c ∷ s) t =
    read_digits-append (if is_digit c then acc * 10 + (c - b'0') else acc) s t

read_digit : (acc d : ℕ) → d < 10 → read_digits acc ((b'0' + d) ∷ []) ≡ acc * 10 + d
unfolding read_digits
read_digit acc d h = ground arith

-- One more digit of a number that is written to `k + 1` places.
shift_digit : (acc p n : ℕ) → (acc * p + n / 10) * 10 + n % 10 ≡ acc * (p * 10) + n
shift_digit acc p n = grind arith

pub read_digits-padded :
    (acc k n : ℕ) → n < 10 ^ k → read_digits acc (padded k n) ≡ acc * 10 ^ k + n
unfolding padded read_digits
read_digits-padded acc zero n h = omega arith
read_digits-padded acc (suc k) n h =
    let e : 10 ^ suc k ≡ 10 ^ k * 10 = pow-suc 10 k in
    let small : n / 10 < 10 ^ k = omega (arith, e) in
    read_digits-append acc (padded k (n / 10)) ((b'0' + n % 10) ∷ [])
    ∙ ap (λ a. read_digits a ((b'0' + n % 10) ∷ [])) (read_digits-padded acc k (n / 10) small)
    ∙ read_digit (acc * 10 ^ k + n / 10) (n % 10) (omega arith)
    ∙ shift_digit acc (10 ^ k) n
    ∙ ap (λ p. acc * p + n) (sym e)

read_digits-decimal_from : (fuel n : ℕ) → n < fuel → read_digits 0 (decimal_from fuel n) ≡ n
unfolding decimal_from
read_digits-decimal_from zero n h = absurd (omega arith)
read_digits-decimal_from (suc fuel) n h = elim (Bool-cases (ltb n 10)) [
  | inl e ↦ rw e (read_digit 0 n (ltb→lt n 10 e) ∙ (omega arith))
  | inr e ↦ rw e (
      read_digits-append 0 (decimal_from fuel (n / 10)) ((b'0' + n % 10) ∷ [])
      ∙ ap (λ a. read_digits a ((b'0' + n % 10) ∷ []))
          (read_digits-decimal_from fuel (n / 10) (ground arith))
      ∙ read_digit (n / 10) (n % 10) (omega arith)
      ∙ omega arith)
]

read_digits-grouped_from : (fuel n : ℕ) → n < fuel → read_digits 0 (grouped_from fuel n) ≡ n
unfolding grouped_from decimal read_digits
read_digits-grouped_from zero n h = absurd (omega arith)
read_digits-grouped_from (suc fuel) n h = elim (Bool-cases (ltb n 1000)) [
  | inl e ↦ rw e (read_digits-decimal_from (suc n) n (omega arith))
  | inr e ↦ rw e (
      read_digits-append 0 (grouped_from fuel (n / 1000)) (b',' ∷ padded 3 (n % 1000))
      ∙ ap (λ a. read_digits a (b',' ∷ padded 3 (n % 1000)))
          (read_digits-grouped_from fuel (n / 1000) (ground arith))
      ∙ read_digits-padded (n / 1000) 3 (n % 1000) (omega arith)
      ∙ omega arith)
]

read_digits-fraction :
    (acc k n : ℕ) → n < 10 ^ k → read_digits acc (fraction_of k n) ≡ acc * 10 ^ k + n
unfolding read_digits
read_digits-fraction acc zero n h = omega arith
read_digits-fraction acc (suc k) n h = read_digits-padded acc (suc k) n h

pow-pos : (k : ℕ) → 0 < 10 ^ k
pow-pos zero = omega arith
pow-pos (suc k) = let e : 10 ^ suc k ≡ 10 ^ k * 10 = pow-suc 10 k in omega (arith, pow-pos k)

pub read_digits-number_text : (k n : ℕ) → read_digits 0 (number_text k n) ≡ n
unfolding number_text grouped
read_digits-number_text k n =
    read_digits-append 0 (grouped (n / 10 ^ k)) (fraction_of k (n % 10 ^ k))
    ∙ ap (λ a. read_digits a (fraction_of k (n % 10 ^ k)))
        (read_digits-grouped_from (suc (n / 10 ^ k)) (n / 10 ^ k) (omega arith))
    ∙ read_digits-fraction (n / 10 ^ k) k (n % 10 ^ k) (mod-lt n (pow-pos k))
    ∙ div-add-mod' n (10 ^ k)
