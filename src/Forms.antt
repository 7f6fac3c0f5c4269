-- ===== src/Forms.antt =====
-- web/src/features: what the forms do when they are submitted. The form library keeps the values and
-- calls `onSubmit` with them once they are valid; a submission is modelled as what it does, in order.
pub mod Role
pub mod Login
pub mod Fields
pub mod User
pub mod Checkin
pub mod Location
use woodgate.Common.{◌&&◌, Text, ℕ, Bool, true, false, Option, none, some, List, [], ◌∷◌, ◌≡◌, refl}
use woodgate.Common.Result.{Result, ok, err}
use woodgate.Upload.{Failure, error, thrown}
use woodgate.ExitGuard.{Guard, has_unsaved_changes}

-- `reset` is `formApi.reset(value)`, which makes these values the form's default ones.
pub data SubmitEffect {ℓ} (V : Type ℓ) : Type ℓ where
  set_error : Option Text → SubmitEffect V
  reset : V → SubmitEffect V
  on_success : ℕ → SubmitEffect V

-- `cause instanceof Error ? cause : new Error(message)`, by its message.
abbrev pub cause_message : Text → Failure → Text
cause_message message (error own) = own
cause_message message thrown = message

module _ {ℓ} {V : Type ℓ} where
  -- The submission of a form with an error box: of these values, where the page's `onSubmit` saves
  -- them under an id or fails.
  unfoldable pub submit : (message : Text) → V → Result Failure ℕ → List (SubmitEffect V)
  submit message value (ok id) = set_error none ∷ reset value ∷ on_success id ∷ []
  submit message value (err e) = set_error none ∷ set_error (some (cause_message message e)) ∷ []

  -- A form without an error box lets the failure through.
  unfoldable pub submit_through : V → Result Failure ℕ → List (SubmitEffect V)
  submit_through value (ok id) = reset value ∷ on_success id ∷ []
  submit_through value (err e) = []

  -- The error box after a submission.
  abbrev pub shown_error : Option Text → List (SubmitEffect V) → Option Text
  shown_error e [] = e
  shown_error e (set_error e' ∷ effects) = shown_error e' effects
  shown_error e (reset value ∷ effects) = shown_error e effects
  shown_error e (on_success id ∷ effects) = shown_error e effects

  -- The ids with which the page was told of a success.
  abbrev pub successes : List (SubmitEffect V) → List ℕ
  successes [] = []
  successes (on_success id ∷ effects) = id ∷ successes effects
  successes (set_error e ∷ effects) = successes effects
  successes (reset value ∷ effects) = successes effects

and_false : (b : Bool) → (b && false) ≡ false
and_false true = refl
and_false false = refl

-- The exit guard of the page after a submission; `is_default_after value` is the form's
-- `isDefaultValue` behind `reset(value)`.
module _ {ℓ} {V : Type ℓ} (is_default_after : V → Bool) where
  abbrev pub guard_after : Guard → List (SubmitEffect V) → Guard
  guard_after g [] = g
  guard_after g (set_error e ∷ effects) = guard_after g effects
  guard_after g (reset value ∷ effects) =
      guard_after (record g { is_default_value = is_default_after value }) effects
  guard_after g (on_success id ∷ effects) = guard_after g effects

  -- A submission through a form with an error box: if the save succeeds, the page hears of its id,
  -- the box is empty and, where a reset form is at its default values, nothing is unsaved.
  pub submit-saved :
      (message : Text) (value : V) (id : ℕ) (g : Guard) (e : Option Text)
      → is_default_after value ≡ true
      → (successes (submit message value (ok id)) ≡ id ∷ [])
        × (shown_error e (submit message value (ok id)) ≡ none)
        × (has_unsaved_changes (guard_after g (submit message value (ok id))) ≡ false)
  unfolding submit has_unsaved_changes
  submit-saved message value id g e default = (refl, refl, rw default (and_false g.enabled))

  -- If the save fails, the page hears of no success, the box shows the failure and the exit guard is
  -- as it was.
  pub submit-failed :
      (message : Text) (value : V) (failure : Failure) (g : Guard) (e : Option Text)
      → (successes (submit message value (err failure)) ≡ [])
        × (shown_error e (submit message value (err failure))
            ≡ some (cause_message message failure))
        × (guard_after g (submit message value (err failure)) ≡ g)
  unfolding submit
  submit-failed message value failure g e = (refl, refl, refl)

-- An error of a field: a text, an object by its `message` where that is a text, or anything else.
pub data FieldError : Type 0 where
  text : Text → FieldError
  object : (message : Option Text) → FieldError
  other : FieldError

-- web/src/lib/form-validation.ts
unfoldable pub first_error_message : List FieldError → Option Text
first_error_message [] = none
first_error_message (text t ∷ errors) = some t
first_error_message (object (some message) ∷ errors) = some message
first_error_message (_ ∷ errors) = first_error_message errors
