-- ===== src/Search/Phone/Suffix.antt =====
-- What a phone suffix is made of.
use recurring_service_platfo.Base.{
  ltb, ltb→lt, Bool-cases, Option-cases, length, All, ℕ, zero, suc, ◌-◌, ◌≤◌, ◌<◌, ◌≡◌, refl, inl,
  inr, Bool, true, Option, none, some, [], ◌∷◌, arith,
}
use recurring_service_platfo.Core.Text.{Text}
use recurring_service_platfo.Search.Phone.{
  max_query_length, take, drop, digits_of, normalize_phone, suffix_of, phone_suffix,
  looks_like_phone,
}

abbrev pub IsAsciiDigit : ℕ → Type 0
IsAsciiDigit c = (b'0' ≤ c) × (c ≤ b'9')

digits_of-All :
    (digit : ℕ → Option ℕ) (t : Text)
    → ((c d : ℕ) → digit c ≡ some d → d ≤ 9)
    → All IsAsciiDigit (digits_of digit t)
unfolding digits_of
digits_of-All digit [] k = tt
digits_of-All digit (c ∷ cs) k = elim (Option-cases (digit c)) [
  | inl e ↦ rw (e, digits_of) (digits_of-All digit cs k)
  | inr (d, e) ↦
      let bound = k c d e in
      rw (e, digits_of) ((omega arith, omega arith), digits_of-All digit cs k)
]

drop-All : (P : ℕ → Type 0) (n : ℕ) (t : Text) → All P t → All P (drop n t)
unfolding drop
drop-All P zero t h = h
drop-All P (suc n) [] h = tt
drop-All P (suc n) (c ∷ cs) h = drop-All P n cs h.1

length-drop : (n : ℕ) (t : Text) → length (drop n t) ≡ length t - n
unfolding drop
length-drop zero t = omega arith
length-drop (suc n) [] = omega arith
length-drop (suc n) (c ∷ cs) = let h = length-drop n cs in omega arith

normalize_phone-All :
    (digit : ℕ → Option ℕ) (value : Option Text)
    → ((c d : ℕ) → digit c ≡ some d → d ≤ 9)
    → All IsAsciiDigit (normalize_phone digit value)
unfolding normalize_phone
normalize_phone-All digit none k = tt
normalize_phone-All digit (some value) k = digits_of-All digit (take max_query_length value) k

suffix_of-IsAsciiDigit :
    (t : Text)
    → All IsAsciiDigit t
    → (All IsAsciiDigit (suffix_of t))
      × (length t < 7 → suffix_of t ≡ [])
      × (7 ≤ length t
          → (suffix_of t ≡ drop (length t - 9) t)
            × (7 ≤ length (suffix_of t))
            × (length (suffix_of t) ≤ 9))
suffix_of-IsAsciiDigit t h = elim (Bool-cases (ltb (length t) 7)) [
  | inl short ↦
      let lt = ltb→lt (length t) 7 short in
      rw (short, suffix_of) (tt, λ _. refl, λ k. absurd (omega arith))
  | inr long ↦
      let size = length-drop (length t - 9) t in
      let le : 7 ≤ length t = ground arith in
      rw (long, suffix_of)
        (
          drop-All IsAsciiDigit (length t - 9) t h,
          λ k. absurd (omega arith),
          λ k. (refl, omega arith, omega arith),
        )
]

looks_like_phone-length :
    (digit : ℕ → Option ℕ) (is_alpha : ℕ → Bool) (value : Option Text)
    → looks_like_phone digit is_alpha value ≡ true
    → 7 ≤ length (normalize_phone digit value)
unfolding looks_like_phone
looks_like_phone-length digit is_alpha none h = cc
looks_like_phone-length digit is_alpha (some value) h = ground arith

-- Where the Unicode database gives a digit a value of at most 9, the suffix of a typed number is
-- ASCII digits only; it is empty when the number has fewer than seven digits and else its last
-- seven to nine digits, and a text that looks like a phone number has a suffix of at least seven
pub phone_suffix-IsAsciiDigit :
    (digit : ℕ → Option ℕ) (is_alpha : ℕ → Bool) (value : Option Text)
    → ((c d : ℕ) → digit c ≡ some d → d ≤ 9)
    → All IsAsciiDigit (phone_suffix digit value)
      × (length (normalize_phone digit value) < 7 → phone_suffix digit value ≡ [])
      × (7 ≤ length (normalize_phone digit value)
          → (phone_suffix digit value
              ≡ drop (length (normalize_phone digit value) - 9) (normalize_phone digit value))
            × (7 ≤ length (phone_suffix digit value))
            × (length (phone_suffix digit value) ≤ 9))
      × (looks_like_phone digit is_alpha value ≡ true → 7 ≤ length (phone_suffix digit value))
unfolding phone_suffix
phone_suffix-IsAsciiDigit digit is_alpha value k =
    let (ascii, short, long) =
      suffix_of-IsAsciiDigit (normalize_phone digit value) (normalize_phone-All digit value k) in
    (ascii, short, long, λ h. (long (looks_like_phone-length digit is_alpha value h)).1)
