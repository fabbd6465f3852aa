-- ===== src/Search/Names.antt =====
-- backend/app/search/normalize.py: the comparison key of a name. The Unicode database and the
-- normal forms of `unicodedata` are arguments.
use recurring_service_platfo.Base.{if◌then◌else◌, filter, ℕ, Bool, true, false, not, [], ◌∷◌, map}
use recurring_service_platfo.Core.Text.{Text, is_space}
use recurring_service_platfo.Search.Phone.{max_query_length, take}

-- What Python's `str` and `unicodedata` say of texts and code points; `nfkc_folded` is NFKC and
-- then `casefold`, and `is_decimal` is the class `\d` of `re`.
pub record Unicode : Type 0 where
  pub nfkd : Text → Text
  pub nfkc_folded : Text → Text
  pub is_combining : ℕ → Bool
  pub is_alnum : ℕ → Bool
  pub is_decimal : ℕ → Bool

-- `ch if ch.isalnum() else " "`.
abbrev pub spaced : (ℕ → Bool) → ℕ → ℕ
spaced is_alnum c = if is_alnum c then c else b' '

-- `" ".join(text.split())`, from the blanks of a text on: `pending` says that a word came before.
unfoldable pub join_words : Bool → Bool → Text → Text
join_words started pending [] = []
join_words started pending (c ∷ cs) =
    let skipped = join_words started started cs in
    let kept = c ∷ join_words true false cs in
    if is_space c then skipped else if pending then b' ' ∷ kept else kept

unfoldable pub normalize_text : Unicode → Text → Text
normalize_text u [] = []
normalize_text u (c ∷ cs) = join_words false false (
    map (spaced u.is_alnum) (
      u.nfkc_folded
        (filter (λ c. not (u.is_combining c)) (u.nfkd (take max_query_length (c ∷ cs))))))
