-- ===== src/Examples/Images.antt =====
-- A form with the two images of a location.
use woodgate.Common.{codes, leb, ltb, Text, ◌≡◌, true, false, none, some, List, [], ◌∷◌, ℕ}
use woodgate.Common.Result.{Result, ok, err}
use woodgate.Upload.{Failure, thrown}
use woodgate.Views.{Query}
use woodgate.Forms.Location.{LocationValues, location_values}
use woodgate.Forms.Location.Picker.{StoredObject, Libraries, ImageAct, chooses, opens, clicks}

abbrev listed : List StoredObject → Query (List StoredObject)
listed objects = record {
  loaded = some objects;
  error = none;
  is_loading = false;
  is_loading_error = false;
  is_placeholder_data = false;
}

abbrev hall_image : StoredObject
hall_image = record { id = 3; filename = codes "hall.png"; content_url = some (codes "/3") }

abbrev no_address : StoredObject
no_address = record { id = 5; filename = codes "old.png"; content_url = none }

abbrev crest : StoredObject
crest = record { id = 12; filename = codes "crest.png"; content_url = some (codes "/12") }

abbrev shelves : Libraries
shelves = record {
  backgrounds = listed (no_address ∷ hall_image ∷ []);
  logos = listed (crest ∷ []);
}

abbrev IsSmall : ℕ → Type 0
IsSmall id = leb id 9 ≡ true

abbrev IsLarge : ℕ → Type 0
IsLarge id = ltb 9 id ≡ true

-- An upload of a background makes the object 4.
abbrev makes_four : Text → Result Failure ℕ
makes_four file = ok 4

abbrev refuses : Text → Result Failure ℕ
refuses file = err thrown

abbrev picks_hall : List (Libraries × ImageAct Text)
picks_hall =
    (shelves, chooses (some (codes "new.png")))
    ∷ (shelves, opens true)
    ∷ (shelves, clicks 0)
    ∷ (shelves, clicks 1)
    ∷ []

abbrev picks_crest : List (Libraries × ImageAct Text)
picks_crest = (shelves, opens true) ∷ (shelves, clicks 0) ∷ []

abbrev blank : LocationValues Text
blank = location_values Text none
