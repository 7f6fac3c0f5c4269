-- ===== src/Search/Laws.antt =====
-- What the pages may rely on of their address.
use woodgate.Common.{
  Bool-cases, Text, ℕ, ◌+◌, ◌-◌, ◌*◌, ◌≤◌, ◌≡◌, refl, inl, inr, true, false, Option, none, some, [],
  ◌∷◌, arith,
}
use woodgate.Common.Number.{max_safe}
use woodgate.Search.{
  is_id_text, digits_value, parse_id, is_given, is_after, option_is_after, DateSearch,
  ordered_dates,
}

digits_value-le : (n : ℕ) (s : Text) → n ≤ digits_value n s
digits_value-le n [] = omega arith
digits_value-le n (c ∷ s) =
    let step : n ≤ n * 10 + (c - b'0') = omega arith in
    let rest = digits_value-le (n * 10 + (c - b'0')) s in omega arith

is_id_text-positive : (id : Text) → is_id_text id ≡ true → 1 ≤ digits_value 0 id
is_id_text-positive [] h = cc
is_id_text-positive (c ∷ s) h =
    let first_digit : 1 ≤ 0 * 10 + (c - b'0') = ground arith in
    let rest = digits_value-le (0 * 10 + (c - b'0')) s in omega arith

-- The id that `idParams` reads from a path is a safe integer of at least 1.
pub parse_id-bounds : (id : Text) (n : ℕ) → parse_id id ≡ some n → (1 ≤ n) × (n ≤ max_safe)
unfolding parse_id
parse_id-bounds id n h = ground (arith, is_id_text-positive id)

is_after-asym : (a b : Text) → is_after a b ≡ true → is_after b a ≡ false
is_after-asym [] b h = cc
is_after-asym (c ∷ a) [] h = refl
is_after-asym (c ∷ a) (d ∷ b) h = elim (Bool-cases (is_after a b)) [
  | inl after ↦ let reversed = is_after-asym a b after in ground arith
  | inr early ↦ ground arith
]

option_is_after-asym :
    (a b : Option Text) → option_is_after a b ≡ true → option_is_after b a ≡ false
option_is_after-asym none b h = cc
option_is_after-asym (some a) none h = refl
option_is_after-asym (some a) (some b) h = is_after-asym a b h

-- Whatever dates stand in the address, the check-in list gets an end only together with a beginning,
-- and no beginning after its end.
pub ordered_dates_lem :
    (search : DateSearch)
    → (is_given (ordered_dates search).to ≡ true)
    → (is_given (ordered_dates search).from ≡ true)
      × (option_is_after (ordered_dates search).from (ordered_dates search).to ≡ false)
unfolding ordered_dates
ordered_dates_lem search h = ground (arith, option_is_after-asym search.from search.to)
