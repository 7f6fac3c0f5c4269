-- ===== src/Forms/Fields/Revealed.antt =====
-- Whether a form that its schema refuses shows an error.
use woodgate.Common.{
  ltb, all, any, keep, is_empty, is_some, trim, Text, codes, text_eq, ℕ, ◌≡◌, refl, sym, Bool, true,
  false, not, ◌&&◌, ◌||◌, Option, none, some, List, [], ◌∷◌, ◌++◌, arith,
}
use woodgate.Forms.Role.{RoleValues}
use woodgate.Forms.Login.{Credentials}
use woodgate.Forms.User.{UserCreate, UserValues, is_valid_password}
use woodgate.Forms.Checkin.{CheckinValues}
use woodgate.Forms.Location.{LocationValues, StationValues}
use woodgate.Forms.Fields.{
  FormField, reveals, field_if, is_blank, refused_if, choice_refused, role_fields, location_fields,
  station_fields, checkin_fields, user_create_fields, user_fields, account_fields, login_fields,
  role_refused, location_refused, station_refused, account_refused, user_refused,
  user_create_refused, login_refused, checkin_refused,
}

-- Every field that is refused shows its error.
abbrev pub Revealed : List FormField → List Text → Type 0
Revealed fields refused = all (reveals fields) refused ≡ true

all-append :
    (p : Text → Bool) (xs ys : List Text)
    → all p xs ≡ true
    → all p ys ≡ true
    → all p (xs ++ ys) ≡ true
all-append p [] ys h k = k
all-append p (x ∷ xs) ys h k = ground (arith, all-append p xs ys)

-- A field that shows its error may be refused.
all-refused_if :
    (p : Text → Bool) (b : Bool) (name : Text)
    → (b ≡ true → p name ≡ true)
    → all p (refused_if b name) ≡ true
all-refused_if p true name h = rw (h refl) refl
all-refused_if p false name h = refl

abbrev pub HasPositiveId : Option ℕ → Type 0
HasPositiveId none = Unit
HasPositiveId (some id) = ltb 0 id ≡ true

all-choice :
    (p : Text → Bool) (name : Text) (choice : Option ℕ)
    → p name ≡ true
    → HasPositiveId choice
    → all p (choice_refused name choice) ≡ true
all-choice p name none h positive = rw h refl
all-choice p name (some id) h positive = rw positive refl

role-Revealed :
    (initial : Bool) (value : RoleValues)
    → (initial ≡ true → is_blank value.key ≡ false)
    → Revealed (role_fields initial) (role_refused value)
unfolding role_fields role_refused
role-Revealed true value kept =
    rw (kept refl) (all-refused_if _ (is_blank value.name) _ (λ _. refl))
role-Revealed false value kept =
    all-append _ (refused_if (is_blank value.key) (codes "key")) _
      (all-refused_if _ (is_blank value.key) _ (λ _. refl))
      (all-refused_if _ (is_blank value.name) _ (λ _. refl))

password-Revealed :
    (fields : List FormField) (password : Text)
    → (is_valid_password password ≡ false → reveals fields (codes "password") ≡ true)
    → Revealed fields (account_refused password)
unfolding account_refused
password-Revealed fields password shown =
    all-refused_if (reveals fields) (not (is_valid_password password)) (codes "password")
      (λ refused. shown (ground arith))

-- A password field that is there, or that was never filled in.
password_field :
    (is_local : Bool) (password : Text)
    → (is_local ≡ false → password ≡ [])
    → is_valid_password password ≡ false
    → any
        (λ f. FormField.validated f && text_eq (FormField.name f) (codes "password"))
        (field_if is_local (record { name = codes "password"; validated = true }))
      ≡ true
unfolding is_valid_password trim
password_field true password kept refused = refl
password_field false password kept refused = sym (rw (kept refl) at refused)

-- What the form of a station does not show.
hidden_location :
    (blank : Bool) (choice : Option ℕ)
    → keep
        (λ name. not (reveals station_fields name))
        (refused_if blank (codes "name") ++ choice_refused (codes "location") choice)
      ≡ choice_refused (codes "location") choice
unfolding station_fields
hidden_location true none = refl
hidden_location false none = refl
hidden_location true (some id) = ground arith
hidden_location false (some id) = ground arith

module _ (is_email is_iso_date is_iso_time : Text → Bool) (File : Type 0) where
  -- A form with its values; the last form, that of a station, is not among them.
  pub data Filled : Type 0 where
    role : (initial : Bool) → RoleValues → Filled
    location : LocationValues File → Filled
    checkin : (initial : Bool) → CheckinValues → Filled
    new_user : UserCreate → Filled
    user : (is_local : Bool) → UserValues → Filled
    account : (is_local : Bool) (password : Text) → Filled
    login : Credentials → Filled

  abbrev pub fields_of : Filled → List FormField
  fields_of (role initial value) = role_fields initial
  fields_of (location value) = location_fields
  fields_of (checkin initial value) = checkin_fields initial
  fields_of (new_user value) = user_create_fields
  fields_of (user is_local value) = user_fields is_local
  fields_of (account is_local password) = account_fields is_local
  fields_of (login value) = login_fields

  abbrev pub refused_of : Filled → List Text
  refused_of (role initial value) = role_refused value
  refused_of (location value) = location_refused value
  refused_of (checkin initial value) =
      checkin_refused is_email is_iso_date is_iso_time initial value
  refused_of (new_user value) = user_create_refused is_email is_iso_date is_iso_time value
  refused_of (user is_local value) = user_refused value
  refused_of (account is_local password) = account_refused password
  refused_of (login value) = login_refused is_email is_iso_date is_iso_time value

  -- What the fields that a form does not show still hold, and that the ids of the server's records
  -- are positive.
  abbrev pub IsReached : Filled → Type 0
  IsReached (role initial value) = initial ≡ true → is_blank value.key ≡ false
  IsReached (checkin initial value) =
      HasPositiveId value.location
      × HasPositiveId value.person
      × (initial ≡ false → (is_empty value.occurred_date && is_empty value.occurred_time) ≡ true)
  IsReached (user is_local value) = is_local ≡ false → value.password ≡ []
  IsReached (account is_local password) = is_local ≡ false → password ≡ []
  IsReached form = Unit

  -- The date and the time of a check-in.
  abbrev times_refused : (initial : Bool) → CheckinValues → List Text
  times_refused initial value =
      refused_if (not (is_iso_date value.occurred_date || is_empty value.occurred_date))
        (codes "occurredDate")
      ++ (refused_if (not (is_iso_time value.occurred_time || is_empty value.occurred_time))
            (codes "occurredTime")
          ++ (refused_if (initial && is_empty value.occurred_date) (codes "occurredDate")
              ++ refused_if (initial && is_empty value.occurred_time) (codes "occurredTime")))

  times-Revealed :
      (initial : Bool) (value : CheckinValues)
      → (initial ≡ false → (is_empty value.occurred_date && is_empty value.occurred_time) ≡ true)
      → Revealed (checkin_fields initial) (times_refused initial value)
  unfolding checkin_fields
  times-Revealed true value kept = ground arith
  times-Revealed false value kept = ground (arith, kept refl)

  checkin-Revealed :
      (initial : Bool) (value : CheckinValues)
      → HasPositiveId value.location
      → HasPositiveId value.person
      → (initial ≡ false → (is_empty value.occurred_date && is_empty value.occurred_time) ≡ true)
      → Revealed
          (checkin_fields initial)
          (checkin_refused is_email is_iso_date is_iso_time initial value)
  unfolding checkin_fields checkin_refused
  checkin-Revealed initial value at who kept =
      let p = reveals (checkin_fields initial) in
      all-append p (choice_refused (codes "location") value.location) _
        (all-choice p (codes "location") value.location refl at)
        (all-append p (choice_refused (codes "person") value.person) _
          (all-choice p (codes "person") value.person refl who)
          (all-append p (refused_if (not (is_some value.direction)) (codes "direction")) _
            (all-refused_if p (not (is_some value.direction)) (codes "direction") (λ _. refl))
            (times-Revealed initial value kept)))

  form-Revealed : (form : Filled) → IsReached form → Revealed (fields_of form) (refused_of form)
  unfolding location_fields location_refused user_create_fields user_create_refused user_fields
      user_refused account_fields account_refused login_fields login_refused trim
  form-Revealed (role initial value) kept = role-Revealed initial value kept
  form-Revealed (location value) reached =
      all-refused_if (reveals location_fields) (is_blank value.name) (codes "name") (λ _. refl)
  form-Revealed (checkin initial value) (at, who, kept) = checkin-Revealed initial value at who kept
  form-Revealed (new_user value) reached = ground arith
  form-Revealed (user is_local value) kept =
      password-Revealed (user_fields is_local) value.password
        (password_field is_local value.password kept)
  form-Revealed (account is_local password) kept =
      password-Revealed (account_fields is_local) password (password_field is_local password kept)
  form-Revealed (login value) reached = ground arith

  -- Whatever is typed into the forms of a role, a location, a check-in, a new user, a user, the
  -- account and the login: every field that the schema refuses is on the form and shows its error. The
  -- form of a station shows the error of its name, but none for a location that is missing.
  pub refused-Revealed :
      (form : Filled) (station : StationValues)
      → IsReached form
      → Revealed (fields_of form) (refused_of form)
        × (keep (λ name. not (reveals station_fields name)) (station_refused station)
            ≡ choice_refused (codes "location") station.location)
  unfolding station_fields station_refused
  refused-Revealed form station reached =
      (form-Revealed form reached, hidden_location (is_blank station.name) station.location)
