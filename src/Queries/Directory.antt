-- ===== src/Queries/Directory.antt =====
-- The queries of web/src/features/directory, account and authn, and what their mutations do to the
-- cache when they succeed.
use woodgate.Common.{
  if◌then◌else◌, some_or, Text, ℕ, Bool, true, false, not, Option, none, some, List, [], ◌∷◌, ◌++◌,
}
use woodgate.Paging.{BaseListParams, base_list_params}
use woodgate.Queries.{
  number, text, texts, QueryParams, word, id, params, QueryKey, list_users, get_user,
  list_user_roles, list_groups, get_group, get_account, get_session, get_directory_sync, plain,
  by_id, listing, QueryOptions, query_options, keeping_previous, Call, set_query_data,
  invalidate_key, clear, fetch_query, renew_session, toast, navigate, invalidate_after_delete,
}

-- `userKeys` and `groupKeys`
abbrev pub users_key : QueryKey
users_key = word "users" ∷ []

abbrev pub groups_key : QueryKey
groups_key = word "groups" ∷ []

abbrev pub user_detail_key : ℕ → QueryKey
user_detail_key n = word "users" ∷ word "detail" ∷ id n ∷ []

abbrev pub group_detail_key : ℕ → QueryKey
group_detail_key n = word "groups" ∷ word "detail" ∷ id n ∷ []

abbrev pub session_key : QueryKey
session_key = word "auth" ∷ word "session" ∷ []

abbrev pub account_key : QueryKey
account_key = word "account" ∷ []

abbrev pub directory_sync_key : QueryKey
directory_sync_key = word "directory" ∷ word "sync" ∷ []

pub record UserListParams : Type 0 where
  pub base : BaseListParams
  pub values : Option (List Text)
  pub role : Option (List Text)
  pub source : Option Text
  pub group_id : Option ℕ

pub record GroupListParams : Type 0 where
  pub base : BaseListParams
  pub values : Option (List Text)

-- `values && values.length > 0 ? values : undefined`
abbrev pub some_values : Option (List Text) → Option (List Text)
some_values none = none
some_values (some []) = none
some_values (some (v ∷ vs)) = some (v ∷ vs)

-- `baseUserQueryParams`, and `userQueryParams` around it.
abbrev pub base_user_query_params : BaseListParams → Option (List Text) → QueryParams
base_user_query_params p values = record {
  base = base_list_params p none;
  extra = ("values", texts (some_values values)) ∷ [];
}

unfoldable pub user_query_params : UserListParams → QueryParams
user_query_params p =
    let shared = base_user_query_params p.base p.values in
    record shared {
      extra =
          shared.extra
          ++ ("role", texts p.role)
            ∷ ("source", text p.source)
            ∷ ("group_id", number p.group_id)
            ∷ [];
    }

unfoldable pub group_query_params : GroupListParams → QueryParams
group_query_params p = record {
  base = base_list_params p.base none;
  extra = ("values", texts (some_values p.values)) ∷ [];
}

unfoldable pub use_users : UserListParams → QueryOptions
use_users p =
    let query = user_query_params p in
    keeping_previous
      (query_options (word "users" ∷ word "list" ∷ params query ∷ []) (listing list_users query))

unfoldable pub use_user_roles : QueryOptions
use_user_roles = query_options (word "users" ∷ word "roles" ∷ []) (plain list_user_roles)

unfoldable pub user_query_options : ℕ → QueryOptions
user_query_options n = query_options (user_detail_key n) (by_id get_user n)

-- The option `enabled`, absent or given.
unfoldable pub use_groups : GroupListParams → Option Bool → QueryOptions
use_groups p enabled =
    let query = group_query_params p in
    record (keeping_previous (
      query_options (word "groups" ∷ word "list" ∷ params query ∷ [])
        (listing list_groups query))) { enabled = some_or enabled true }

unfoldable pub group_query_options : ℕ → QueryOptions
group_query_options n = query_options (group_detail_key n) (by_id get_group n)

unfoldable pub account_query_options : QueryOptions
account_query_options = query_options account_key (plain get_account)

unfoldable pub session_query_options : QueryOptions
session_query_options = query_options session_key (plain get_session)

-- The status of the directory sync, as far as the interval reads it.
pub data SyncActivity : Type 0 where
  idle queued running : SyncActivity

pub record SyncStatus : Type 0 where
  pub enabled : Bool
  pub activity : SyncActivity

-- `refetchInterval` of `useDirectorySync`, with `false` as `none`.
unfoldable pub sync_refetch_interval : Option SyncStatus → Option ℕ
sync_refetch_interval none = none
sync_refetch_interval (some status) =
    if not status.enabled then none else elim status.activity [ idle ↦ some 30000 | _ ↦ some 2000 ]

-- At the status that the cache holds.
unfoldable pub use_directory_sync : Option SyncStatus → QueryOptions
unfolding sync_refetch_interval
use_directory_sync status = record (query_options directory_sync_key (plain get_directory_sync)) {
  refetch_interval = sync_refetch_interval status;
}

abbrev is_running : SyncActivity → Bool
is_running running = true
is_running _ = false

unfoldable pub trigger_directory_sync_success : SyncStatus → List Call
trigger_directory_sync_success status =
    set_query_data directory_sync_key
    ∷ toast (
        if is_running status.activity then "Directory Sync Is Running" else "Directory Sync Queued")
    ∷ []

unfoldable pub create_user_success : List Call
create_user_success = toast "User Created" ∷ invalidate_key users_key ∷ []

unfoldable pub update_user_success : ℕ → List Call
update_user_success n =
    toast "User Saved"
    ∷ set_query_data (user_detail_key n)
    ∷ invalidate_key users_key
    ∷ invalidate_key groups_key
    ∷ invalidate_key session_key
    ∷ invalidate_key account_key
    ∷ []

unfoldable pub delete_user_success : (QueryKey → QueryKey → Bool) → ℕ → List Call
unfolding invalidate_after_delete
delete_user_success partial_match_key n =
    invalidate_after_delete partial_match_key (user_detail_key n) (users_key ∷ groups_key ∷ [])

unfoldable pub update_group_success : ℕ → List Call
update_group_success n =
    set_query_data (group_detail_key n)
    ∷ invalidate_key groups_key
    ∷ invalidate_key users_key
    ∷ invalidate_key session_key
    ∷ invalidate_key account_key
    ∷ toast "Group Saved"
    ∷ []

-- The session's data is written through a function, which leaves an absent session absent; the id is
-- that of the user in the account which the server returns.
unfoldable pub update_account_success : ℕ → List Call
update_account_success n =
    set_query_data account_key
    ∷ set_query_data (user_detail_key n)
    ∷ set_query_data session_key
    ∷ invalidate_key users_key
    ∷ []

-- `useRotateAPIKey` and `useRevokeAPIKey`
unfoldable pub change_api_key_success : List Call
change_api_key_success = set_query_data account_key ∷ []

unfoldable pub logout_success : List Call
logout_success = renew_session ∷ clear ∷ navigate ∷ []

unfoldable pub login_success : List Call
login_success = renew_session ∷ invalidate_key session_key ∷ fetch_query account_key ∷ navigate ∷ []
