-- ===== src/Common/Texts.antt =====
-- Texts of the source: sequences of UTF-16 code units, with the string methods that it calls.
use Prim.Native.Nat.{ℕ}
use Prim.Native.Char.{code}
use Prim.Native.String.{String}
use mathlib.Core.Path.{◌≡◌, refl}
use mathlib.Core.Logic.{◌↔◌, inl, inr}
use mathlib.Core.Bool.{Bool, true, false, not, ◌&&◌, ◌||◌}
use mathlib.Core.List.{List, [], ◌∷◌, ◌++◌}
use native.Mathlib.Omega.{arith}
use woodgate.Common.Tests.{◌==◌, leb, if◌then◌else◌, ==_iff, ==_refl, Bool-cases}
use woodgate.Common.Lists.{is_empty}

abbrev pub Text : Type 0
Text = List ℕ

-- A literal of the source; each of its characters is one code unit.
abbrev pub codes : String → Text
codes String.[] = []
codes (String.◌∷◌ c s) = code c ∷ codes s

-- `===` on strings.
abbrev pub text_eq : Text → Text → Bool
text_eq [] [] = true
text_eq [] (d ∷ t) = false
text_eq (c ∷ s) [] = false
text_eq (c ∷ s) (d ∷ t) = (c == d) && text_eq s t

pub text_eq_refl : (s : Text) → text_eq s s ≡ true
text_eq_refl [] = refl
text_eq_refl (c ∷ s) = ground (arith, ==_refl c, text_eq_refl s)

pub text_eq_sound : (s t : Text) → text_eq s t ≡ true → s ≡ t
text_eq_sound [] [] h = refl
text_eq_sound [] (d ∷ t) h = cc
text_eq_sound (c ∷ s) [] h = cc
text_eq_sound (c ∷ s) (d ∷ t) h = ground (arith, ==_iff c d, text_eq_sound s t)

pub text_eq_iff : (s t : Text) → (text_eq s t ≡ true) ↔ (s ≡ t)
text_eq_iff s t = (text_eq_sound s t, λ e. rw e (text_eq_refl t))

-- The code units that `trim` removes: white space and line terminators.
unfoldable pub is_space : ℕ → Bool
is_space c =
    (leb 9 c && leb c 13)
    || c == 32
    || c == 160
    || c == 0x1680
    || (leb 0x2000 c && leb c 0x200a)
    || c == 0x2028
    || c == 0x2029
    || c == 0x202f
    || c == 0x205f
    || c == 0x3000
    || c == 0xfeff

unfoldable pub trim_start : Text → Text
trim_start [] = []
trim_start (c ∷ s) = if is_space c then trim_start s else c ∷ s

-- A unit is dropped if it and all behind it are white space.
unfoldable pub trim_end : Text → Text
trim_end [] = []
trim_end (c ∷ s) = let r = trim_end s in if is_empty r && is_space c then [] else c ∷ r

unfoldable pub trim : Text → Text
unfolding trim_start trim_end is_space
trim s = trim_end (trim_start s)

-- A text that starts with no white space.
abbrev pub IsFlush : Text → Type 0
IsFlush [] = Unit
IsFlush (c ∷ s) = is_space c ≡ false

pub trim_start-IsFlush : (s : Text) → IsFlush (trim_start s)
unfolding trim_start
trim_start-IsFlush [] = tt
trim_start-IsFlush (c ∷ s) = elim (Bool-cases (is_space c)) [
  | inl e ↦ rw e (trim_start-IsFlush s)
  | inr e ↦ rw e e
]

pub trim_start_of_IsFlush : (s : Text) → IsFlush s → trim_start s ≡ s
unfolding trim_start
trim_start_of_IsFlush [] h = refl
trim_start_of_IsFlush (c ∷ s) h = rw h

pub trim_end-IsFlush : (s : Text) → IsFlush s → IsFlush (trim_end s)
unfolding trim_end
trim_end-IsFlush [] h = tt
trim_end-IsFlush (c ∷ s) h = ground arith

trim_end_idem : (s : Text) → trim_end (trim_end s) ≡ trim_end s
unfolding trim_end
trim_end_idem [] = refl
trim_end_idem (c ∷ s) = ground (arith, trim_end_idem s)

pub trim-IsFlush : (s : Text) → IsFlush (trim s)
unfolding trim
trim-IsFlush s = trim_end-IsFlush (trim_start s) (trim_start-IsFlush s)

pub trim_idem : (s : Text) → trim (trim s) ≡ trim s
unfolding trim
trim_idem s =
    rw (trim_start_of_IsFlush (trim_end (trim_start s)) (trim-IsFlush s))
      (trim_end_idem (trim_start s))

-- `s.startsWith(t)`
abbrev pub starts_with : Text → Text → Bool
starts_with s [] = true
starts_with [] (d ∷ t) = false
starts_with (c ∷ s) (d ∷ t) = (c == d) && starts_with s t

-- No text starts with both.
abbrev pub diverges : Text → Text → Bool
diverges [] t = false
diverges (c ∷ s) [] = false
diverges (c ∷ s) (d ∷ t) = not (c == d) || diverges s t

pub diverges_lem :
    (p s t : Text) → diverges s t ≡ true → starts_with p s ≡ true → starts_with p t ≡ false
diverges_lem p [] t h a = cc
diverges_lem p (c ∷ s) [] h a = cc
diverges_lem [] (c ∷ s) (d ∷ t) h a = refl
diverges_lem (e ∷ p) (c ∷ s) (d ∷ t) h a = ground (arith, diverges_lem p s t)

pub starts_with_trans :
    (p s t : Text) → starts_with p s ≡ true → starts_with s t ≡ true → starts_with p t ≡ true
starts_with_trans p s [] a b = refl
starts_with_trans p [] (d ∷ t) a b = cc
starts_with_trans [] (c ∷ s) (d ∷ t) a b = cc
starts_with_trans (e ∷ p) (c ∷ s) (d ∷ t) a b = ground (arith, starts_with_trans p s t)

pub starts_with-append : (s t : Text) → starts_with (s ++ t) s ≡ true
starts_with-append [] t = refl
starts_with-append (c ∷ s) t = ground (arith, ==_refl c, starts_with-append s t)
