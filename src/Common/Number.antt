-- ===== src/Common/Number.antt =====
-- The `number` type as far as the source looks into it: an integer, or any other value by its
-- decimal text. An integer past 2 ^ 53 - 1 is kept exact where the program would round it; every
-- function that reads one asks `Number.isSafeInteger` first, and rounding keeps the answer.
use Prim.Native.Nat.{ℕ, zero, suc, ◌+◌, ◌-◌, ◌/◌, ◌%◌, ◌^◌, ◌≤◌}
use mathlib.Core.Path.{◌≡◌}
use mathlib.Core.Bool.{Bool, true, false}
use mathlib.Core.List.{[], ◌∷◌, ◌++◌}
use woodgate.Common.Tests.{leb, ltb, if◌then◌else◌}
use woodgate.Common.Texts.{Text}

-- `negsuc n` is -(n + 1).
pub data ℤ : Type 0 where
  pos : ℕ → ℤ
  negsuc : ℕ → ℤ

pub data Number : Type 0 where
  whole : ℤ → Number
  -- NaN, an infinity or a fraction, as `String` prints it; a fraction so near an integer that adding
  -- 1 or -1 to it rounds to one, as 1 - 2 ^ -53, is not among the values.
  other : Text → Number

-- A literal of the source.
abbrev pub num : ℕ → Number
num n = whole (pos n)

-- `Number.MAX_SAFE_INTEGER`
abbrev pub max_safe : ℕ
max_safe = 2 ^ 53 - 1

abbrev pub is_safe_integer : Number → Bool
is_safe_integer (whole (pos n)) = leb n max_safe
is_safe_integer (whole (negsuc n)) = ltb n max_safe
is_safe_integer (other t) = false

-- `value > 0` and `value <= bound`, asked of integers only.
abbrev pub is_positive : Number → Bool
is_positive (whole (pos n)) = ltb 0 n
is_positive _ = false

abbrev pub is_at_most : ℕ → Number → Bool
is_at_most bound (whole (pos n)) = leb n bound
is_at_most bound (whole (negsuc n)) = true
is_at_most bound (other t) = false

-- `value + 1` and `value - 1`
abbrev pub plus_one : Number → Number
plus_one (whole (pos n)) = whole (pos (n + 1))
plus_one (whole (negsuc zero)) = whole (pos 0)
plus_one (whole (negsuc (suc n))) = whole (negsuc n)
plus_one (other t) = other t

abbrev pub minus_one : Number → Number
minus_one (whole (pos zero)) = whole (negsuc 0)
minus_one (whole (pos (suc n))) = whole (pos n)
minus_one (whole (negsuc n)) = whole (negsuc (suc n))
minus_one (other t) = other t

-- A page number or a page size: a safe integer above 0.
pub record IsCounting (v : Number) : Type 0 where
  pub value : ℕ
  pub is_value : v ≡ num value
  pub at_least : 1 ≤ value
  pub at_most : value ≤ max_safe

pub num_injective : (a b : ℕ) → num a ≡ num b → a ≡ b
num_injective a b h = cc

-- Decimal digits, least significant last; `fuel` bounds their number.
decimal_from : ℕ → ℕ → Text
decimal_from zero n = []
decimal_from (suc fuel) n =
    let rest = decimal_from fuel (n / 10) ++ (48 + n % 10) ∷ [] in
    if ltb n 10 then (48 + n) ∷ [] else rest

-- `String(n)` for a natural number below 1e21.
unfoldable pub decimal : ℕ → Text
unfolding decimal_from
decimal n = decimal_from (suc n) n

-- `String(value)` for a number.
unfoldable pub number_text : Number → Text
unfolding decimal
number_text (whole (pos n)) = decimal n
number_text (whole (negsuc n)) = b'-' ∷ decimal (suc n)
number_text (other t) = t
