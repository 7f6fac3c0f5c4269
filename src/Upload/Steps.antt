-- ===== src/Upload/Steps.antt =====
-- What the effects of an attempt show and call, and that `and_then` keeps it.
use woodgate.Common.{
  Bool-cases, keep, Text, ◌≡◌, refl, ap, ◌∙◌, inl, inr, Bool, true, false, Option, some, List, [],
  ◌∷◌, ◌++◌, append_assoc,
}
use woodgate.Common.Result.{Result, ok, err}
use woodgate.Upload.{
  UploadProgress, Toast, Failure, Effect, progress, add_toast, update_toast, Attempt, and_then,
  success_toast,
}

-- The toast and the progress bar.
pub record Page : Type 0 where
  pub toast : Option Toast
  pub bar : Option UploadProgress

abbrev pub shown : Page → Effect → Page
shown p (progress b) = record p { bar = b }
shown p (add_toast t) = record p { toast = some t }
shown p (update_toast t) = record p { toast = some t }
shown p _ = p

abbrev pub shown_all : Page → List Effect → Page
shown_all p [] = p
shown_all p (e ∷ es) = shown_all (shown p e) es

pub shown_all-append :
    (p : Page) (es fs : List Effect) → shown_all p (es ++ fs) ≡ shown_all (shown_all p es) fs
shown_all-append p [] fs = refl
shown_all-append p (e ∷ es) fs = shown_all-append (shown p e) es fs

abbrev pub is_call : Effect → Bool
is_call (progress b) = false
is_call (add_toast t) = false
is_call (update_toast t) = false
is_call _ = true

-- The calls among the effects.
abbrev pub calls_of : List Effect → List Effect
calls_of = keep is_call

pub calls_of-append : (es fs : List Effect) → calls_of (es ++ fs) ≡ calls_of es ++ calls_of fs
calls_of-append [] fs = refl
calls_of-append (e ∷ es) fs = elim (Bool-cases (is_call e)) [
  | inl called ↦ rw called (ap (λ r. e ∷ r) (calls_of-append es fs))
  | inr quiet ↦ rw quiet (calls_of-append es fs)
]

module _ {R : Type 0} where
  -- An attempt that succeeds has told so.
  pub record Tells (success_text : Text) (a : Attempt R) : Type 0 where
    pub told :
        (p : Page) (r : R)
        → a.result ≡ ok r
        → (shown_all p a.effects).toast ≡ some (success_toast success_text)

  pub and_then-Tells :
      {A : Type 0} (t : Text) (es : List Effect) (result : Result Failure A) (rest : A → Attempt R)
      → ((a : A) → Tells t (rest a))
      → Tells t (and_then es result rest)
  unfolding and_then
  and_then-Tells t es (err e) rest h = record { told = λ p r same. cc }
  and_then-Tells t es (ok a) rest h = record {
    told = λ p r same.
        ap (λ q. Page.toast q) (shown_all-append p es (Attempt.effects (rest a)))
        ∙ (h a).told (shown_all p es) r same;
  }

  -- The calls of an attempt are the first of these, and all of them if it succeeds.
  pub record Follows (expected : List Effect) (a : Attempt R) : Type 0 where
    pub left : List Effect
    pub split : calls_of a.effects ++ left ≡ expected
    pub done : (r : R) → a.result ≡ ok r → left ≡ []

  pub and_then-Follows :
      {A : Type 0} (expected es : List Effect) (result : Result Failure A) (rest : A → Attempt R)
      → ((a : A) → Follows expected (rest a))
      → Follows (calls_of es ++ expected) (and_then es result rest)
  unfolding and_then
  and_then-Follows expected es (err e) rest h = record {
    left = expected;
    split = refl;
    done = λ r same. cc;
  }
  and_then-Follows expected es (ok a) rest h = record {
    left = (h a).left;
    split =
        ap (λ c. c ++ (h a).left) (calls_of-append es (Attempt.effects (rest a)))
        ∙ append_assoc (calls_of es) (calls_of (Attempt.effects (rest a))) (h a).left
        ∙ ap (λ c. calls_of es ++ c) (h a).split;
    done = (h a).done;
  }
