-- ===== src/Forms/Fields/Accepted.antt =====
-- What the forms send of values that their schemas let through.
use woodgate.Common.{
  ltb, is_empty, is_some, length, trim, trim_idem, Text, codes, ℕ, ◌≤◌, ◌≡◌, refl, Bool, true,
  false, not, ◌&&◌, ◌||◌, Option, none, some, List, [], ◌∷◌, ◌++◌, arith, some_or,
}
use woodgate.Common.Result.{Result}
use woodgate.Upload.{Failure}
use woodgate.Forms.{submit}
use woodgate.Forms.Role.{AuthzRole, RoleValues, role_mutation}
use woodgate.Forms.Login.{Credentials, login_body}
use woodgate.Forms.User.{
  User, UserCreate, UserValues, user_create, user_mutation, account_mutation, is_valid_password,
  IsSent, passwords-IsSent,
}
use woodgate.Forms.Checkin.{
  Checkin, CheckinCreate, CheckinValues, Direction, has_picker, is_complete, submit_checkin,
  save_checkin,
}
use woodgate.Forms.Checkin.Times.{submit_checkin_complete}
use woodgate.Forms.Location.{LocationValues, location_mutation, StationValues, station_mutation}
use woodgate.Forms.Fields.{
  is_blank, refused_if, choice_refused, role_refused, location_refused, station_refused,
  checkin_refused, account_refused, user_refused, user_create_refused, login_refused,
}

-- A text without white space around it, and not empty.
abbrev pub IsProper : Text → Type 0
IsProper t = (is_empty t ≡ false) × (trim t ≡ t)

trim-IsProper : (t : Text) → is_blank t ≡ false → IsProper (trim t)
trim-IsProper t filled = (filled, trim_idem t)

abbrev pub IsProperOr : Option Text → Type 0
IsProperOr none = Unit
IsProperOr (some t) = IsProper t

nothing_in : {A : Type 0} (xs ys : List A) → xs ++ ys ≡ [] → (xs ≡ []) × (ys ≡ [])
nothing_in [] ys h = (refl, h)
nothing_in (x ∷ xs) ys h = cc

not_refused : (b : Bool) (name : Text) → refused_if b name ≡ [] → b ≡ false
not_refused false name h = refl
not_refused true name h = cc

is_chosen :
    (name : Text) (choice : Option ℕ) → choice_refused name choice ≡ [] → has_picker choice ≡ true
is_chosen name none h = cc
is_chosen name (some id) h = ground (arith, not_refused (not (ltb 0 id)) (name ++ codes ".id") h)

role-IsProper :
    (initial : Option AuthzRole) (value : RoleValues)
    → role_refused value ≡ []
    → IsProper (role_mutation initial value).name × IsProperOr (role_mutation initial value).key
unfolding role_refused role_mutation
role-IsProper initial value accepted =
    let (key, name) = nothing_in (refused_if (is_blank value.key) (codes "key")) _ accepted in
    let proper = trim-IsProper value.name (not_refused (is_blank value.name) (codes "name") name) in
    elim initial as (λ r. IsProper (trim value.name) × IsProperOr (role_mutation r value).key) [
      | none ↦
          (proper, trim-IsProper value.key (not_refused (is_blank value.key) (codes "key") key))
      | some role ↦ (proper, tt)
    ]

chosen_id : (choice : Option ℕ) → has_picker choice ≡ true → ltb 0 (some_or choice 0) ≡ true
chosen_id none h = cc
chosen_id (some id) h = h

station-IsProper :
    (value : StationValues)
    → station_refused value ≡ []
    → IsProper (station_mutation value).name × (ltb 0 (station_mutation value).location_id ≡ true)
unfolding station_refused station_mutation
station-IsProper value accepted =
    let (name, at) = nothing_in (refused_if (is_blank value.name) (codes "name")) _ accepted in
    (
      trim-IsProper value.name (not_refused (is_blank value.name) (codes "name") name),
      chosen_id value.location (is_chosen (codes "location") value.location at),
    )

account_refused-is_valid_password :
    (password : Text) → account_refused password ≡ [] → is_valid_password password ≡ true
unfolding account_refused
account_refused-is_valid_password password accepted =
    ground (arith, not_refused (not (is_valid_password password)) (codes "password") accepted)

user_refused-is_valid_password :
    (user : UserValues) → user_refused user ≡ [] → is_valid_password user.password ≡ true
unfolding user_refused
user_refused-is_valid_password user accepted =
    ground (arith, not_refused (not (is_valid_password user.password)) (codes "password") accepted)

module _ (is_email is_iso_date is_iso_time : Text → Bool) where
  checkin_refused-is_complete :
      (initial : Bool) (value : CheckinValues)
      → checkin_refused is_email is_iso_date is_iso_time initial value ≡ []
      → is_complete initial value ≡ true
  unfolding checkin_refused is_complete
  checkin_refused-is_complete initial value accepted =
      let (at, rest) = nothing_in (choice_refused (codes "location") value.location) _ accepted in
      let (who, rest) = nothing_in (choice_refused (codes "person") value.person) _ rest in
      let (way, rest) =
        nothing_in (refused_if (not (is_some value.direction)) (codes "direction")) _ rest in
      let (is_date, rest) =
        nothing_in
          (refused_if (not (is_iso_date value.occurred_date || is_empty value.occurred_date))
            (codes "occurredDate"))
          _ rest in
      let (is_time, rest) =
        nothing_in
          (refused_if (not (is_iso_time value.occurred_time || is_empty value.occurred_time))
            (codes "occurredTime"))
          _ rest in
      let (date, time) =
        nothing_in (refused_if (initial && is_empty value.occurred_date) (codes "occurredDate")) _
          rest in
      ground (
        arith,
        is_chosen (codes "location") value.location at,
        is_chosen (codes "person") value.person who,
        not_refused (not (is_some value.direction)) (codes "direction") way,
        not_refused (initial && is_empty value.occurred_date) (codes "occurredDate") date,
        not_refused (initial && is_empty value.occurred_time) (codes "occurredTime") time,
      )

  user_create-IsProper :
      (value : UserCreate)
      → user_create_refused is_email is_iso_date is_iso_time value ≡ []
      → (is_email (user_create value).email ≡ true) × (12 ≤ length (user_create value).password)
  unfolding user_create_refused user_create
  user_create-IsProper value accepted =
      let (email, password) =
        nothing_in (refused_if (not (is_email (trim value.email))) (codes "email")) _ accepted in
      (
        ground (arith, not_refused (not (is_email (trim value.email))) (codes "email") email),
        ground (arith, not_refused (ltb (length value.password) 12) (codes "password") password),
      )

  login-IsProper :
      (value : Credentials)
      → login_refused is_email is_iso_date is_iso_time value ≡ []
      → (is_email (login_body value).email ≡ true) × (is_blank (login_body value).password ≡ false)
  unfolding login_refused login_body
  login-IsProper value accepted =
      let (email, password) =
        nothing_in (refused_if (not (is_email (trim value.email))) (codes "email")) _ accepted in
      (
        ground (arith, not_refused (not (is_email (trim value.email))) (codes "email") email),
        not_refused (is_blank value.password) (codes "password") password,
      )

  location-IsProper :
      {File : Type 0} (value : LocationValues File) (background logo : Option ℕ)
      → location_refused value ≡ []
      → IsProper (location_mutation value background logo).name
  unfolding location_refused location_mutation
  location-IsProper value background logo accepted =
      trim-IsProper value.name (not_refused (is_blank value.name) (codes "name") accepted)

  module _ (format : Text → Text) (to_iso : Text → Result Failure Text)
      (on_submit : CheckinCreate → Option Text → Result Failure ℕ) where
    -- The submission of a check-in is a save of a location, a person and a direction.
    abbrev pub IsSaved : Option Checkin → CheckinValues → Type 0
    IsSaved loaded value =
        (location : ℕ) × (person : ℕ) × (direction : Direction) × (value.location ≡ some location)
        × (value.person ≡ some person)
        × (value.direction ≡ some direction)
        × (submit_checkin format to_iso on_submit loaded value
            ≡ submit (codes "Unable to save check-in.") value
                (save_checkin format to_iso on_submit loaded value location person direction))

    -- Of values in which the schemas refuse nothing: a role, a location and a station are sent with a
    -- name that is not empty and has no white space around it, a new role with such a key, and a
    -- station with a positive location id, never the 0 that stands for none; a new user and a login are
    -- sent with an address that is one, a new user with a password of 12 characters or more, a login
    -- with one that is not blank; a user and the account are sent without a password or with one that
    -- is not blank and has 12 characters; and the submission of a check-in is not dropped.
    pub accepted-IsProper :
        {File : Type 0} (loaded_role : Option AuthzRole) (role : RoleValues)
        (location : LocationValues File) (background logo : Option ℕ) (station : StationValues)
        (new_user : UserCreate) (credentials : Credentials) (loaded_user : User) (user : UserValues)
        (name password : Text) (loaded_checkin : Option Checkin) (checkin : CheckinValues)
        → role_refused role ≡ []
        → location_refused location ≡ []
        → station_refused station ≡ []
        → user_create_refused is_email is_iso_date is_iso_time new_user ≡ []
        → login_refused is_email is_iso_date is_iso_time credentials ≡ []
        → user_refused user ≡ []
        → account_refused password ≡ []
        → checkin_refused is_email is_iso_date is_iso_time (is_some loaded_checkin) checkin ≡ []
        → (IsProper (role_mutation loaded_role role).name
            × IsProperOr (role_mutation loaded_role role).key)
          × IsProper (location_mutation location background logo).name
          × (IsProper (station_mutation station).name
              × (ltb 0 (station_mutation station).location_id ≡ true))
          × ((is_email (user_create new_user).email ≡ true)
              × (12 ≤ length (user_create new_user).password))
          × ((is_email (login_body credentials).email ≡ true)
              × (is_blank (login_body credentials).password ≡ false))
          × (IsSent (user_mutation loaded_user user).password
              × IsSent (account_mutation name password).password)
          × IsSaved loaded_checkin checkin
    accepted-IsProper loaded_role role location background logo station new_user credentials
          loaded_user user name password loaded_checkin checkin role_fits location_fits station_fits
          new_fits login_fits user_fits account_fits checkin_fits =
        (
          role-IsProper loaded_role role role_fits,
          location-IsProper location background logo location_fits,
          station-IsProper station station_fits,
          user_create-IsProper new_user new_fits,
          login-IsProper credentials login_fits,
          (
            (passwords-IsSent loaded_user user (user_refused-is_valid_password user user_fits)).0,
            (passwords-IsSent loaded_user (record user { name = name; password = password })
                (account_refused-is_valid_password password account_fits)).1,
          ),
          submit_checkin_complete format to_iso on_submit loaded_checkin checkin
              (checkin_refused-is_complete (is_some loaded_checkin) checkin checkin_fits),
        )
