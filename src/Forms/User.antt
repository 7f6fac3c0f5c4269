-- ===== src/Forms/User.antt =====
-- web/src/features/directory/users/fields.tsx and features/account/page.tsx.
use woodgate.Common.{
  leb, if◌then◌else◌, Bool-cases, Text, codes, text_eq, trim, is_empty, length, ℕ, ◌≤◌, ◌≡◌, inl,
  inr, Bool, true, false, not, ◌&&◌, ◌||◌, Option, none, some, List, [], arith,
}

pub record UserCreate : Type 0 where
  pub email : Text
  pub name : Text
  pub password : Text
  pub role_ids : List ℕ

-- The create form's `onSubmit`; the form's values have the same fields.
unfoldable pub user_create : UserCreate → UserCreate
user_create value = record value { email = trim value.email; name = trim value.name }

-- What the forms read of a user: `source` is "local" or names the directory that it comes from.
pub record User : Type 0 where
  pub name : Text
  pub source : Text
  pub roles : List ℕ  -- by their ids

pub record UserValues : Type 0 where
  pub name : Text
  pub password : Text
  pub role_ids : List ℕ

unfoldable pub user_from_detail : User → UserValues
user_from_detail user = record { name = user.name; password = []; role_ids = user.roles }

-- The schema's test on the password.
unfoldable pub is_valid_password : Text → Bool
is_valid_password value = is_empty (trim value) || leb 12 (length value)

unfoldable pub is_local : User → Bool
is_local user = text_eq user.source (codes "local")

pub record UserMutation : Type 0 where
  pub name : Text
  pub password : Option Text
  pub role_ids : List ℕ

unfoldable pub user_mutation : User → UserValues → UserMutation
user_mutation user value = record {
  name = if is_local user then trim value.name else user.name;
  password =
      if is_local user && not (is_empty (trim value.password)) then some value.password else none;
  role_ids = value.role_ids;
}

-- The values that the form is reset to behind a save.
unfoldable pub user_baseline : UserValues → UserValues
user_baseline value = record value { password = [] }

-- The account page's `onSubmit`.
pub record AccountMutation : Type 0 where
  pub name : Text
  pub password : Option Text

unfoldable pub account_mutation : (name password : Text) → AccountMutation
account_mutation name password = record {
  name = trim name;
  password = if not (is_empty (trim password)) then some password else none;
}

-- Whatever the edit form of a user who comes from a directory holds, a save changes neither the name
-- nor the password, only the direct roles.
pub user_mutation-synced :
    (user : User) (value : UserValues)
    → is_local user ≡ false
    → user_mutation user value
      ≡ record { name = user.name; password = none; role_ids = value.role_ids }
unfolding user_mutation
user_mutation-synced user value synced = rw synced

-- A password as it is sent: none, or one of at least 12 characters that are not all white space.
abbrev pub IsSent : Option Text → Type 0
IsSent none = Unit
IsSent (some password) = (12 ≤ length password) × (is_empty (trim password) ≡ false)

password-IsSent :
    (b : Bool) (password : Text)
    → is_valid_password password ≡ true
    → IsSent (if b && not (is_empty (trim password)) then some password else none)
unfolding is_valid_password
password-IsSent false password valid = tt
password-IsSent true password valid = elim (Bool-cases (is_empty (trim password))) [
  | inl blank ↦ rw blank tt
  | inr filled ↦ rw filled (ground arith, filled)
]

-- From values that the schema lets through, neither the edit form of a user nor the account page
-- sends a password that is blank or shorter than 12 characters.
pub passwords-IsSent :
    (user : User) (value : UserValues)
    → is_valid_password value.password ≡ true
    → IsSent (user_mutation user value).password
      × IsSent (account_mutation value.name value.password).password
unfolding user_mutation account_mutation
passwords-IsSent user value valid = (
  password-IsSent (is_local user) value.password valid,
  password-IsSent true value.password valid,
)
