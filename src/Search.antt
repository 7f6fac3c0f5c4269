-- ===== src/Search.antt =====
-- What the routes read from the address bar: the ids of web/src/lib/route-params.ts, the sort tokens of
-- web/src/lib/table-search.ts and the dates of web/src/routes/_authenticated/checkins.index.tsx. Zod's
-- checks of the other parameters are not modelled.
pub mod Laws
pub mod Sorts
use woodgate.Common.{
  ltb, leb, ◌==◌, if◌then◌else◌, is_empty, any, all, Text, codes, text_eq, ℕ, ◌+◌, ◌-◌, ◌*◌, Bool,
  true, false, not, ◌&&◌, ◌||◌, Option, none, some, List, [], ◌∷◌, ◌++◌,
}
use woodgate.Common.Number.{max_safe}

abbrev pub is_digit : ℕ → Bool
is_digit c = leb b'0' c && leb c b'9'

-- `/^[1-9]\d*$/`
abbrev pub is_id_text : Text → Bool
is_id_text [] = false
is_id_text (c ∷ s) = leb b'1' c && leb c b'9' && all is_digit s

-- `Number(id)` of a text of digits, before rounding; rounding keeps what is not safe unsafe.
abbrev pub digits_value : ℕ → Text → ℕ
digits_value n [] = n
digits_value n (c ∷ s) = digits_value (n * 10 + (c - b'0')) s

-- `idParams.parse`, with `false` as `none`.
unfoldable pub parse_id : Text → Option ℕ
parse_id id =
    if is_id_text id && leb (digits_value 0 id) max_safe then some (digits_value 0 id) else none

-- `[key, key.asc, key.desc]` for each key.
unfoldable pub sort_tokens : List Text → List Text
sort_tokens [] = []
sort_tokens (key ∷ keys) = key ∷ (key ++ codes ".asc") ∷ (key ++ codes ".desc") ∷ sort_tokens keys

-- `sortTokens.has(value)`
abbrev pub has_token : List Text → Text → Bool
has_token tokens value = any (λ token. text_eq token value) tokens

-- Whether the default sort is one that `createTableSearchSchema` accepts; it throws otherwise.
unfoldable pub is_default_sort : List Text → Option Text → Bool
unfolding sort_tokens
is_default_sort keys none = true
is_default_sort keys (some sort) = has_token (sort_tokens keys) sort

-- A string that is truthy.
abbrev pub is_given : Option Text → Bool
is_given none = false
is_given (some t) = not (is_empty t)

-- `a > b` on strings: by their first different character, and a longer text after its prefixes.
abbrev pub is_after : Text → Text → Bool
is_after [] b = false
is_after (c ∷ a) [] = true
is_after (c ∷ a) (d ∷ b) = ltb d c || ((c == d) && is_after a b)

abbrev pub option_is_after : Option Text → Option Text → Bool
option_is_after (some a) (some b) = is_after a b
option_is_after _ _ = false

-- The dates of the check-in list's search parameters.
pub record DateSearch : Type 0 where
  pub from : Option Text
  pub to : Option Text

-- The schema's `transform`.
unfoldable pub ordered_dates : DateSearch → DateSearch
ordered_dates search =
    if is_given search.to && not (is_given search.from)
    then record search { to = none }
    else if is_given search.from && is_given search.to && option_is_after search.from search.to
    then record { from = search.to; to = search.from }
    else search
