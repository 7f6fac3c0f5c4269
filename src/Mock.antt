-- ===== src/Mock.antt =====
-- mock/src/index.ts: the worker that stands in for the server while the companion app is developed.
-- A request holds what the handler reads of it; `to_number` is the conversion `Number(text)`, and
-- every statement holds for any such function.
pub mod Checkins
pub mod Access
use woodgate.Common.{
  starts_with, leb, ◌==◌, if◌then◌else◌, some_or, length, is_empty, any, Text, codes, text_eq, trim,
  ℕ, ◌+◌, ◌-◌, ◌/◌, String, Bool, true, false, not, ◌&&◌, ◌||◌, Option, none, some, List, [], ◌∷◌,
  ◌++◌, map,
}
use woodgate.Common.Number.{Number, whole, pos, num, is_safe_integer}

abbrev pub station_key : Text
station_key = codes "testing123"

abbrev pub station_subprotocol : Text
station_subprotocol = codes "woodgate-station.v1"

pub record Location : Type 0 where
  pub location_id : ℕ
  pub name : String
  pub enabled : Bool
  pub notes : Bool
  pub photo : Bool
  pub background_object_id : Option ℕ
  pub logo_object_id : Option ℕ

pub record Configuration : Type 0 where
  pub station_id : ℕ
  pub station_name : String
  pub location : Location

abbrev pub configuration : Configuration
configuration = record {
  station_id = 1;
  station_name = "Development Station";
  location = record {
    location_id = 1;
    name = "Testing Room";
    enabled = true;
    notes = true;
    photo = true;
    background_object_id = none;
    logo_object_id = none;
  };
}

pub record Person : Type 0 where
  pub person_id : ℕ
  pub name : String
  pub email : String

abbrev pub people : List Person
people =
    record { person_id = 1; name = "Alex Example"; email = "alex@example.invalid" }
    ∷ record { person_id = 2; name = "Sam Sample"; email = "sam@example.invalid" }
    ∷ record { person_id = 3; name = "Taylor Test"; email = "taylor@example.invalid" }
    ∷ []

-- An entry of a `FormData`.
pub data FormValue : Type 0 where
  text : Text → FormValue
  file : (size : ℕ) (type : Text) → FormValue

abbrev pub Form : Type 0
Form = List (Text × FormValue)

pub record MockRequest : Type 0 where
  pub method : Text
  pub pathname : Text
  pub authorization : Option Text
  pub content_type : Option Text
  pub upgrade : Option Text
  pub protocols : Option Text
  pub form : Option Form  -- `none` if `formData()` throws

-- The JSON that a response carries, or the accepted protocol of an upgraded connection.
pub data MockResponse : Type 0 where
  service : (key : Text) → MockResponse
  configured : Configuration → MockResponse
  listed : List Person → ℕ → MockResponse
  created : (id : ℕ) (person_id : Number) (location_id : ℕ) (direction : Text) → MockResponse
  switched : (protocol : Text) → MockResponse
  problem : (status : ℕ) (detail code : String) → MockResponse

abbrev pub status : MockResponse → ℕ
status (switched protocol) = 101
status (problem s detail code) = s
status _ = 200

-- `form.get(name)`: the first entry.
abbrev pub form_get : Form → Text → Option FormValue
form_get [] name = none
form_get ((key, value) ∷ form) name = if text_eq key name then some value else form_get form name

abbrev pub text_value : Option FormValue → Option Text
text_value (some (text t)) = some t
text_value _ = none

unfoldable pub string_field : Form → Text → Option Text
string_field form name = text_value (form_get form name)

abbrev pub option_starts_with : Option Text → Text → Bool
option_starts_with none t = false
option_starts_with (some s) t = starts_with s t

abbrev pub is_image : Option FormValue → Bool
is_image (some (file size type)) =
    not (size == 0) && (text_eq type (codes "image/jpeg") || text_eq type (codes "image/png"))
is_image _ = false

abbrev pub is_direction : Option Text → Bool
is_direction none = false
is_direction (some t) = text_eq t (codes "check_in") || text_eq t (codes "check_out")

-- `notes` is truthy after trimming.
abbrev pub has_notes : Option Text → Bool
has_notes none = false
has_notes (some t) = not (is_empty (trim t))

-- `person.id === number`
abbrev pub number_is : ℕ → Number → Bool
number_is i (whole (pos n)) = i == n
number_is i _ = false

abbrev pub is_person : Option Number → Bool
is_person none = false
is_person (some n) = any (λ person. number_is (Person.person_id person) n) people

-- `toLowerCase()` on a header token, which is ASCII.
abbrev pub to_lower : Text → Text
to_lower s = map (λ c. if leb b'A' c && leb c b'Z' then c + 32 else c) s

abbrev pub push_first : ℕ → List Text → List Text
push_first c [] = (c ∷ []) ∷ []
push_first c (t ∷ ts) = (c ∷ t) ∷ ts

-- `split(",")`
abbrev pub split_comma : Text → List Text
split_comma [] = [] ∷ []
split_comma (c ∷ s) = if c == b',' then [] ∷ split_comma s else push_first c (split_comma s)

abbrev pub is_websocket : Option Text → Bool
is_websocket none = false
is_websocket (some t) = text_eq (to_lower t) (codes "websocket")

abbrev pub has_protocol : Option Text → Bool
has_protocol none = false
has_protocol (some t) = any (λ p. text_eq p station_subprotocol) (map trim (split_comma t))

-- The text messages of the open connection are ignored, and any other closes it: no state is kept.
unfoldable pub connect : MockRequest → MockResponse
connect request =
    if not (is_websocket request.upgrade)
    then problem 426 "Expected a WebSocket connection." "upgrade_required"
    else if not (has_protocol request.protocols)
    then problem 400 "The Station WebSocket protocol is required." "invalid_protocol"
    else switched station_subprotocol

module _ (to_number : Text → Number) where
  abbrev pub safe_number : Option Text → Option Number
  safe_number none = none
  safe_number (some t) = if is_safe_integer (to_number t) then some (to_number t) else none

  unfoldable pub number_field : Form → Text → Option Number
  unfolding string_field
  number_field form name = safe_number (string_field form name)

  -- `createCheckin` behind the parsing of the form.
  unfoldable pub checkin_of_form : Form → MockResponse
  checkin_of_form form =
      let person_id = number_field form (codes "person_id") in
      let direction = string_field form (codes "direction") in
      let notes = string_field form (codes "notes") in
      if not (is_person person_id)
      then problem 400 "Choose a valid person." "invalid_person"
      else if not (is_direction direction)
      then problem 400 "Choose check in or check out." "invalid_direction"
      else if not configuration.location.notes && has_notes notes
      then problem 400 "Notes are disabled for this location." "notes_disabled"
      else if not (is_image (form_get form (codes "photo")))
      then problem 400 "Add a PNG or JPEG photo to continue." "photo_required"
      else created 1 (some_or person_id (num 0)) configuration.location.location_id
          (some_or direction [])

  unfoldable pub create_checkin : MockRequest → MockResponse
  create_checkin request =
      if not (option_starts_with request.content_type (codes "multipart/form-data;"))
      then problem 415 "Expected a multipart form." "unsupported_media_type"
      else elim request.form [
        | none ↦ problem 400 "The check-in form is invalid." "invalid_form"
        | some form ↦ checkin_of_form form
      ]

  abbrev pub is_get : MockRequest → String → Bool
  is_get request path =
      text_eq request.method (codes "GET") && text_eq request.pathname (codes path)

  abbrev pub is_authorized : MockRequest → Bool
  is_authorized request = elim request.authorization [
    | none ↦ false
    | some t ↦ text_eq t (codes "Bearer " ++ station_key)
  ]

  unfoldable pub fetch : MockRequest → MockResponse
  fetch request =
      if is_get request "/"
      then service station_key
      else if not (starts_with request.pathname (codes "/api/station/v1/"))
      then problem 404 "Not found." "not_found"
      else if not (is_authorized request)
      then problem 401 "The Station key is invalid." "unauthorized"
      else if is_get request "/api/station/v1/configuration"
      then configured configuration
      else if is_get request "/api/station/v1/people"
      then listed people (length people)
      else if text_eq request.method (codes "POST")
          && text_eq request.pathname (codes "/api/station/v1/checkins")
      then create_checkin request
      else if is_get request "/api/station/v1/connect"
      then connect request
      else problem 404 "Not found." "not_found"
