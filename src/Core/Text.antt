-- ===== src/Core/Text.antt =====
-- Text as its code points, with the parts of Python's `str` that the commands use.
use Prim.Native.Char.{code}
use Prim.Native.String.{String}
use recurring_service_platfo.Base.{
  leb, ◌==◌, if◌then◌else◌, Bool-cases, validation_failed, Result, ok, err, ℕ, ◌≡◌, refl, ◌≢◌, inl,
  inr, Bool, true, false, ◌&&◌, ◌||◌, Option, none, some, List, [], ◌∷◌, arith,
}

abbrev pub Text : Type 0
Text = List ℕ

-- A literal of the source.
abbrev pub codes : String → Text
codes String.[] = []
codes (String.◌∷◌ c s) = code c ∷ codes s

-- `str.isspace` on one code point.
unfoldable pub is_space : ℕ → Bool
is_space c =
    (leb 9 c && leb c 13)
    || (leb 28 c && leb c 32)
    || c == 133
    || c == 160
    || c == 5760
    || (leb 8192 c && leb c 8202)
    || c == 8232
    || c == 8233
    || c == 8239
    || c == 8287
    || c == 12288

unfoldable pub lstrip : Text → Text
lstrip [] = []
lstrip (c ∷ cs) = if is_space c then lstrip cs else c ∷ cs

-- Blank tail dropped: a code point is kept when it, or something behind it, is not blank.
unfoldable pub rstrip : Text → Text
rstrip [] = []
rstrip (c ∷ cs) = elim (rstrip cs) [ [] ↦ if is_space c then [] else c ∷ [] | d ∷ ds ↦ c ∷ d ∷ ds ]

unfoldable pub strip : Text → Text
strip t = rstrip (lstrip t)

abbrev pub is_empty : Text → Bool
is_empty [] = true
is_empty (_ ∷ _) = false

-- `==` of two texts.
abbrev pub text_eqb : Text → Text → Bool
text_eqb [] [] = true
text_eqb (a ∷ s) (b ∷ t) = a == b && text_eqb s t
text_eqb _ _ = false

-- `reason is None or not reason.strip()`, and the stripped reason (AUD-6).
unfoldable pub require_reason : Option Text → Result Text
require_reason none = err validation_failed
require_reason (some reason) =
    if is_empty (strip reason) then err validation_failed else ok (strip reason)

lstrip_idem : (t : Text) → lstrip (lstrip t) ≡ lstrip t
unfolding lstrip
lstrip_idem [] = refl
lstrip_idem (c ∷ cs) = elim (Bool-cases (is_space c)) [
  | inl e ↦ rw (e, lstrip) (lstrip_idem cs)
  | inr e ↦ rw (e, lstrip) (rw (e, lstrip))
]

-- A reason that is accepted for a correction or a void is not empty once blanks at both ends are
-- dropped
pub require_reason-ne : (r : Option Text) (t : Text) → require_reason r ≡ ok t → t ≢ []
unfolding require_reason
require_reason-ne none t h = cc
require_reason-ne (some r) t h = ground arith
