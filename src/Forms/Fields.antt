-- ===== src/Forms/Fields.antt =====
-- The fields of the forms of web/src/features, and what their schemas refuse. A field that stands in
-- web/src/components/validated-form-field.tsx shows its error. `is_email`, `is_iso_date` and
-- `is_iso_time` are the formats of zod.
pub mod Revealed
pub mod Accepted
use woodgate.Common.{
  ltb, if◌then◌else◌, any, is_empty, is_some, length, trim, Text, codes, text_eq, ℕ, Bool, true,
  false, not, ◌&&◌, ◌||◌, Option, none, some, List, [], ◌∷◌, ◌++◌,
}
use woodgate.Forms.Role.{RoleValues}
use woodgate.Forms.Login.{Credentials}
use woodgate.Forms.User.{UserCreate, UserValues, is_valid_password}
use woodgate.Forms.Checkin.{CheckinValues}
use woodgate.Forms.Location.{LocationValues, StationValues}

pub record FormField : Type 0 where
  pub name : Text
  pub validated : Bool

abbrev pub validated_field : Text → FormField
validated_field name = record { name = name; validated = true }

abbrev pub plain_field : Text → FormField
plain_field name = record { name = name; validated = false }

abbrev pub field_if : Bool → FormField → List FormField
field_if b field = if b then field ∷ [] else []

-- A form shows the error of this field.
abbrev pub reveals : List FormField → Text → Bool
reveals fields name = any (λ f. FormField.validated f && text_eq (FormField.name f) name) fields

-- An error box with its message, as `ValidatedFormField` shows them; the message is the first one.
pub record FieldChrome : Type 0 where
  pub invalid : Bool
  pub message : Option Text

unfoldable pub field_chrome : Option Text → FieldChrome
field_chrome none = record { invalid = false; message = none }
field_chrome (some t) =
    if is_empty t
    then record { invalid = false; message = none }
    else record { invalid = true; message = some t }

unfoldable pub role_fields : (initial : Bool) → List FormField
role_fields initial =
    field_if (not initial) (validated_field (codes "key"))
    ++ validated_field (codes "name")
      ∷ validated_field (codes "description")
      ∷ plain_field (codes "permissions")
      ∷ []

unfoldable pub location_fields : List FormField
location_fields =
    validated_field (codes "name")
    ∷ plain_field (codes "description")
    ∷ plain_field (codes "enabled")
    ∷ plain_field (codes "notes")
    ∷ plain_field (codes "photo")
    ∷ plain_field (codes "background")
    ∷ plain_field (codes "logo")
    ∷ plain_field (codes "groups")
    ∷ []

unfoldable pub station_fields : List FormField
station_fields =
    validated_field (codes "name")
    ∷ plain_field (codes "location")
    ∷ plain_field (codes "enabled")
    ∷ []

unfoldable pub checkin_fields : (initial : Bool) → List FormField
checkin_fields initial =
    validated_field (codes "location")
    ∷ validated_field (codes "person")
    ∷ validated_field (codes "direction")
    ∷ (field_if initial (validated_field (codes "occurredDate"))
        ++ field_if initial (validated_field (codes "occurredTime"))
        ++ validated_field (codes "notes") ∷ [])

unfoldable pub user_create_fields : List FormField
user_create_fields =
    validated_field (codes "email")
    ∷ validated_field (codes "name")
    ∷ plain_field (codes "role_ids")
    ∷ validated_field (codes "password")
    ∷ []

unfoldable pub user_fields : (is_local : Bool) → List FormField
user_fields is_local =
    validated_field (codes "name")
    ∷ plain_field (codes "role_ids")
    ∷ field_if is_local (validated_field (codes "password"))

unfoldable pub account_fields : (is_local : Bool) → List FormField
account_fields is_local =
    validated_field (codes "name") ∷ field_if is_local (validated_field (codes "password"))

unfoldable pub login_fields : List FormField
login_fields = validated_field (codes "email") ∷ validated_field (codes "password") ∷ []

-- The paths of what a schema refuses.
abbrev pub refused_if : Bool → Text → List Text
refused_if b name = if b then name ∷ [] else []

abbrev pub is_blank : Text → Bool
is_blank t = is_empty (trim t)

-- A choice that is required: an object with a positive id.
abbrev pub choice_refused : Text → Option ℕ → List Text
choice_refused name none = name ∷ []
choice_refused name (some id) = refused_if (not (ltb 0 id)) (name ++ codes ".id")

unfoldable pub role_refused : RoleValues → List Text
role_refused value =
    refused_if (is_blank value.key) (codes "key") ++ refused_if (is_blank value.name) (codes "name")

unfoldable pub location_refused : {File : Type 0} → LocationValues File → List Text
location_refused value = refused_if (is_blank value.name) (codes "name")

unfoldable pub station_refused : StationValues → List Text
station_refused value =
    refused_if (is_blank value.name) (codes "name")
    ++ choice_refused (codes "location") value.location

unfoldable pub account_refused : (password : Text) → List Text
unfolding is_valid_password
account_refused password = refused_if (not (is_valid_password password)) (codes "password")

unfoldable pub user_refused : UserValues → List Text
unfolding is_valid_password
user_refused value = refused_if (not (is_valid_password value.password)) (codes "password")

module _ (is_email is_iso_date is_iso_time : Text → Bool) where
  unfoldable pub user_create_refused : UserCreate → List Text
  user_create_refused value =
      refused_if (not (is_email (trim value.email))) (codes "email")
      ++ refused_if (ltb (length value.password) 12) (codes "password")

  unfoldable pub login_refused : Credentials → List Text
  login_refused value =
      refused_if (not (is_email (trim value.email))) (codes "email")
      ++ refused_if (is_blank value.password) (codes "password")

  -- All that the schema can refuse; with several issues zod may leave out the last two.
  unfoldable pub checkin_refused : (initial : Bool) → CheckinValues → List Text
  checkin_refused initial value =
      choice_refused (codes "location") value.location
      ++ (choice_refused (codes "person") value.person
          ++ (refused_if (not (is_some value.direction)) (codes "direction")
              ++ (refused_if (not (is_iso_date value.occurred_date || is_empty value.occurred_date))
                    (codes "occurredDate")
                  ++ (refused_if
                        (not (is_iso_time value.occurred_time || is_empty value.occurred_time))
                        (codes "occurredTime")
                      ++ (refused_if (initial && is_empty value.occurred_date)
                            (codes "occurredDate")
                          ++ refused_if (initial && is_empty value.occurred_time)
                              (codes "occurredTime"))))))
