-- ===== src/Examples/Tables.antt =====
-- Concrete tables: search parameters, sortings, filters and pages.
use woodgate.Common.{
  if◌then◌else◌, codes, is_space, ◌≡◌, refl, true, false, none, some, List, [], ◌∷◌, arith, str_eq,
  all, length,
}
use woodgate.Common.Number.{num, plus_one}
use woodgate.Paging.Params.{num-IsCounting, num-IsPageSize}
use woodgate.DataTable.Sorting.{SortingItem, serialize_sorting_state, parse_sorting_state}
use woodgate.DataTable.Sorting.RoundTrip.{IsSortable, parse-serialize}
use woodgate.DataTable.Query.{
  Scalar, scalar, undefined, array, SearchState, FilterKey, ColumnFilter, set, apply,
}
use woodgate.DataTable.Query.Paging.{Event, paginate, IsInRange, handle_all, handle_all-IsInRange}
use woodgate.DataTable.Faceted.{selected_values}
use woodgate.DataTable.Faceted.Trigger.{
  FacetOption, has, option_values, told, trigger_badges, trigger_badges-told,
}

abbrev by_name : SortingItem
by_name = record { id = codes "name"; desc = true }

by_name-IsSortable : IsSortable by_name.id
unfolding is_space
by_name-IsSortable = record { filled = refl; plain = refl; flush = refl }

parse-serialize_example :
    parse_sorting_state (some (serialize_sorting_state (by_name ∷ by_name ∷ []))) ≡ by_name ∷ []
parse-serialize_example = parse-serialize by_name (by_name ∷ []) by_name-IsSortable

abbrev seen : SearchState
seen = record {
  q = some (codes "room");
  page = num 9;
  per_page = num 25;
  sort = none;
  facets = λ key. if str_eq key "status" then scalar (Scalar.text (codes "open")) else undefined;
}

seen-IsInRange : IsInRange seen
seen-IsInRange = record {
  page = num-IsCounting 9 (omega arith) (omega arith);
  per_page = num-IsPageSize 25 (omega arith) (omega arith);
}

abbrev keys : List FilterKey
keys = record { id = "status"; multiple = false } ∷ record { id = "location"; multiple = true } ∷ []

abbrev chosen : List ColumnFilter
chosen =
    record {
      id = "location";
      value = array (Scalar.number (num 4) ∷ Scalar.text [] ∷ Scalar.number (num 5) ∷ []);
    }
    ∷ []

abbrev events : List Event
events =
    paginate (set (record { page_index = num 0; page_size = num 5000 }))
    ∷ paginate (apply (λ p. record p { page_index = plus_one p.page_index }))
    ∷ []

handle_all-IsInRange_example : IsInRange (handle_all keys seen events)
handle_all-IsInRange_example = handle_all-IsInRange keys seen events seen-IsInRange

abbrev sources : List FacetOption
sources =
    record { label = codes "Local"; value = codes "local"; count = none }
    ∷ record { label = codes "Entra"; value = codes "entra"; count = some 3 }
    ∷ []

chosen_there :
    all (has (option_values sources)) (selected_values (codes "entra" ∷ codes "entra" ∷ [])) ≡ true
unfolding selected_values
chosen_there = refl

-- A choice that is given twice is told of once.
trigger_badges-told_example :
    told (trigger_badges sources (codes "entra" ∷ codes "entra" ∷ []))
    ≡ length (selected_values (codes "entra" ∷ codes "entra" ∷ []))
trigger_badges-told_example =
    trigger_badges-told sources (codes "entra" ∷ codes "entra" ∷ []) (refl, (refl, tt)) chosen_there
