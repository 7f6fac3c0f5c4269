-- ===== src/Forms/Login.antt =====
-- web/src/features/authn/login.tsx: the body of a login and what the page shows next to its form.
use woodgate.Common.{
  Text, trim, Bool, true, false, ◌||◌, if◌then◌else◌, Option, none, some, is_some, or_else, ◌≡◌,
  refl, [],
}
use woodgate.Search.{is_given}

pub record Credentials : Type 0 where
  pub email : Text
  pub password : Text

abbrev pub no_credentials : Credentials
no_credentials = record { email = []; password = [] }

-- The body that `onSubmit` sends.
unfoldable pub login_body : Credentials → Credentials
login_body value = record { email = trim value.email; password = value.password }

-- The error under the button, by `sso_error` of the address and the message of the login that
-- failed.
unfoldable pub login_error : (sso_error message : Option Text) → Option Text
login_error sso_error message =
    if is_given sso_error || is_some message then or_else sso_error message else none

-- `ssoEnabled`, by the session that is loaded.
unfoldable pub offers_sso : (sso_enabled : Option Bool) → Bool
offers_sso none = false
offers_sso (some enabled) = enabled

-- Where the address has no error, the page shows the login's; a given error of the address is shown
-- whatever becomes of the login.
login_error-shown :
    (sso_error message : Option Text)
    → (is_some sso_error ≡ false → login_error sso_error message ≡ message)
      × (is_given sso_error ≡ true → login_error sso_error message ≡ sso_error)
unfolding login_error
login_error-shown none none = (λ _. refl, λ given. cc)
login_error-shown none (some m) = (λ _. refl, λ given. cc)
login_error-shown (some t) message = (λ absent. cc, λ given. rw given refl)
