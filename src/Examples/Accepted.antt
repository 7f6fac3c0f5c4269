-- ===== src/Examples/Accepted.antt =====
-- Values of every form that the schemas let through.
use woodgate.Common.{
  codes, Text, ℕ, ◌≡◌, refl, Bool, true, false, Option, none, some, [], ltb, length, ◌≤◌, trim,
}
use woodgate.Common.Result.{Result, ok}
use woodgate.Upload.{Failure}
use woodgate.Forms.Role.{RoleValues, role_mutation}
use woodgate.Forms.Login.{Credentials, login_body}
use woodgate.Forms.User.{
  User, UserCreate, UserValues, IsSent, user_create, user_mutation, account_mutation,
}
use woodgate.Forms.Checkin.{CheckinCreate, CheckinValues, check_in}
use woodgate.Forms.Location.{
  nothing, LocationValues, location_mutation, StationValues, station_mutation,
}
use woodgate.Forms.Fields.{
  role_refused, location_refused, station_refused, checkin_refused, account_refused, user_refused,
  user_create_refused, login_refused, is_blank,
}
use woodgate.Forms.Fields.Accepted.{IsProper, IsProperOr, IsSaved, accepted-IsProper}

abbrev porter : RoleValues
porter = record {
  key = codes "porter";
  name = codes " Porter ";
  description = [];
  permissions = [];
}

abbrev hall : LocationValues Text
hall = record {
  name = codes "Hall ";
  description = [];
  enabled = true;
  notes = false;
  photo = false;
  background = nothing;
  logo = nothing;
  groups = [];
}

abbrev gate : StationValues
gate = record { name = codes "Gate"; location = some 4; enabled = true }

abbrev newcomer : UserCreate
newcomer = record {
  email = codes " ann@example.org";
  name = [];
  password = codes "a long password";
  role_ids = [];
}

abbrev credentials : Credentials
credentials = record { email = codes "ann@example.org"; password = codes "secret" }

abbrev ann : User
ann = record { name = codes "Ann"; source = codes "local"; roles = [] }

abbrev ann_values : UserValues
ann_values = record { name = codes "Ann"; password = codes "another password"; role_ids = [] }

abbrev arrival : CheckinValues
arrival = record {
  location = some 4;
  person = some 2;
  direction = some check_in;
  notes = [];
  occurred_date = [];
  occurred_time = [];
}

abbrev any_text : Text → Bool
any_text t = true

abbrev now : Text → Result Failure Text
now t = ok t

abbrev seventh : CheckinCreate → Option Text → Result Failure ℕ
seventh body time = ok 7

role_fits : role_refused porter ≡ []
unfolding role_refused trim
role_fits = refl

location_fits : location_refused hall ≡ []
unfolding location_refused trim
location_fits = refl

station_fits : station_refused gate ≡ []
unfolding station_refused trim
station_fits = refl

new_fits : user_create_refused any_text any_text any_text newcomer ≡ []
unfolding user_create_refused
new_fits = refl

login_fits : login_refused any_text any_text any_text credentials ≡ []
unfolding login_refused trim
login_fits = refl

user_fits : user_refused ann_values ≡ []
unfolding user_refused trim
user_fits = refl

account_fits : account_refused [] ≡ []
unfolding account_refused trim
account_fits = refl

checkin_fits : checkin_refused any_text any_text any_text false arrival ≡ []
unfolding checkin_refused
checkin_fits = refl

accepted-IsProper_example :
    (IsProper (role_mutation none porter).name × IsProperOr (role_mutation none porter).key)
    × IsProper (location_mutation hall (some 1) none).name
    × (IsProper (station_mutation gate).name × (ltb 0 (station_mutation gate).location_id ≡ true))
    × ((any_text (user_create newcomer).email ≡ true)
        × (12 ≤ length (user_create newcomer).password))
    × ((any_text (login_body credentials).email ≡ true)
        × (is_blank (login_body credentials).password ≡ false))
    × (IsSent (user_mutation ann ann_values).password
        × IsSent (account_mutation (codes "Ann") []).password)
    × IsSaved any_text any_text any_text (λ t. t) now seventh none arrival
accepted-IsProper_example =
    accepted-IsProper any_text any_text any_text (λ t. t) now seventh none porter hall (some 1) none
      gate newcomer credentials ann ann_values (codes "Ann") [] none arrival role_fits location_fits
      station_fits new_fits login_fits user_fits account_fits checkin_fits
