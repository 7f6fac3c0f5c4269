-- ===== src/Queries.antt =====
-- The cached queries of the app and what its mutations do to them: the parts of @tanstack/react-query
-- calls that web/src/features/*/queries.ts and web/src/lib/query-invalidation.ts write. A hook is the
-- options that it hands to the library; an `onSuccess` is the list of calls that it makes, in order,
-- where those of one `Promise.all` stand in the order of its array.
pub mod Resources
pub mod ResourceChanges
pub mod Directory
pub mod Client
pub mod App
pub mod Mutations
pub mod Changes
pub mod Freshness
use woodgate.Common.{Text, ℕ, String, Bool, true, false, not, Option, none, some, List, ◌∷◌, map}
use woodgate.Paging.{BaseQuery}

-- A field of a query's parameters beside the shared ones; an absent one is `none`.
pub data Param : Type 0 where
  number : Option ℕ → Param
  boolean : Option Bool → Param
  text : Option Text → Param
  texts : Option (List Text) → Param

pub record QueryParams : Type 0 where
  pub base : BaseQuery
  pub extra : List (String × Param)

-- A query key is an array of words, ids and parameter objects.
pub data KeyPart : Type 0 where
  word : String → KeyPart
  id : ℕ → KeyPart
  params : QueryParams → KeyPart

abbrev pub QueryKey : Type 0
QueryKey = List KeyPart

-- The functions of the generated API client that queries call.
pub data Endpoint : Type 0 where
  list_locations get_location list_location_groups list_location_backgrounds : Endpoint
  list_location_logos list_station_locations list_stations get_station : Endpoint
  list_checkins get_checkin list_checkin_departments list_checkin_locations : Endpoint
  list_checkin_available_locations list_checkin_people get_checkin_user : Endpoint
  list_authz_resources list_authz_roles get_authz_role : Endpoint
  list_users get_user list_user_roles list_groups get_group : Endpoint
  get_account get_session get_directory_sync : Endpoint

-- What a query asks of the server. The abort signal and the constant serializer options of an
-- endpoint are left out.
pub data Request : Type 0 where
  plain : Endpoint → Request
  by_id : Endpoint → ℕ → Request
  listing : Endpoint → QueryParams → Request

-- The options of `useQuery`. Intervals are milliseconds; `none` is the client's default.
pub record QueryOptions : Type 0 where
  pub key : QueryKey
  pub request : Request
  pub keep_previous : Bool
  pub enabled : Bool
  pub refetch_interval : Option ℕ
  pub stale_time : Option ℕ

abbrev pub query_options : QueryKey → Request → QueryOptions
query_options key request = record {
  key = key;
  request = request;
  keep_previous = false;
  enabled = true;
  refetch_interval = none;
  stale_time = none;
}

-- `placeholderData: keepPreviousData`
abbrev pub keeping_previous : QueryOptions → QueryOptions
keeping_previous o = record o { keep_previous = true }

-- The filters of `invalidateQueries`; `predicate` is `none` where the call gives none.
pub record InvalidateFilters : Type 0 where
  pub query_key : QueryKey
  pub predicate : Option (QueryKey → Bool)
  pub refetch_none : Bool

-- What an `onSuccess` calls. Data is passed through unread.
pub data Call : Type 0 where
  set_query_data : QueryKey → Call
  invalidate : InvalidateFilters → Call
  clear : Call
  fetch_query : QueryKey → Call
  renew_session : Call
  toast : String → Call
  navigate : Call

abbrev pub invalidate_key : QueryKey → Call
invalidate_key key = invalidate (record { query_key = key; predicate = none; refetch_none = false })

-- query-invalidation.ts. `partial_match_key` is the library's.
module _ (partial_match_key : QueryKey → QueryKey → Bool) where
  abbrev pub invalidate_except : QueryKey → QueryKey → Call
  invalidate_except deleted key = invalidate (record {
    query_key = key;
    predicate = some (λ query_key. not (partial_match_key query_key deleted));
    refetch_none = false;
  })

  unfoldable pub invalidate_after_delete : QueryKey → List QueryKey → List Call
  invalidate_after_delete deleted stale =
      invalidate (record { query_key = deleted; predicate = none; refetch_none = true })
      ∷ map (invalidate_except deleted) stale
