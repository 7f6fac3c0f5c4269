-- ===== src/Queries/Mutations.antt =====
-- The mutation hooks of web/src/features: the request that each sends, how it tells a failure, and
-- what it does when it succeeds. A request's body is the form's, unread, and the pairing that comes
-- with a station's new key is handed on as it is.
pub mod Effects
use woodgate.Common.{Text, codes, ℕ, Bool, true, false, not, Option, none, some, List}
use woodgate.Queries.{QueryKey, Call}
use woodgate.Queries.ResourceChanges
use woodgate.Queries.Directory

-- The functions of the generated API client that mutations call.
pub data Action : Type 0 where
  create_location update_location delete_location create_checkin update_checkin : Action
  create_station update_station delete_station rotate_station_key : Action
  create_authz_role update_authz_role delete_authz_role : Action
  create_user update_user delete_user update_group : Action
  update_account rotate_account_api_key revoke_account_api_key : Action
  trigger_directory_sync create_session delete_session : Action

-- The options of `useMutation`: the request, with the id in its path; `meta.inlineError`; the title of
-- the toast of an `onError`, if there is one; and the calls of `onSuccess`.
pub record Mutation : Type 0 where
  pub action : Action
  pub record_id : Option ℕ
  pub inline_error : Bool
  pub error_title : Option Text
  pub success : List Call

abbrev plain_mutation : Action → Option ℕ → List Call → Mutation
plain_mutation action record_id success = record {
  action = action;
  record_id = record_id;
  inline_error = false;
  error_title = none;
  success = success;
}

module _ (m : QueryKey → QueryKey → Bool) where
  unfoldable pub use_create_location : Mutation
  unfolding ResourceChanges.create_location_success
  use_create_location = plain_mutation create_location none ResourceChanges.create_location_success

  unfoldable pub use_update_location : ℕ → Mutation
  unfolding ResourceChanges.update_location_success
  use_update_location n =
      plain_mutation update_location (some n) (ResourceChanges.update_location_success n)

  unfoldable pub use_delete_location : ℕ → Mutation
  unfolding ResourceChanges.delete_location_success
  use_delete_location n =
      plain_mutation delete_location (some n) (ResourceChanges.delete_location_success m n)

  -- `n` is the id of the check-in that the server returns.
  unfoldable pub use_create_checkin : ℕ → Mutation
  unfolding ResourceChanges.create_checkin_success
  use_create_checkin n =
      plain_mutation create_checkin none (ResourceChanges.create_checkin_success n)

  unfoldable pub use_update_checkin : ℕ → Mutation
  unfolding ResourceChanges.update_checkin_success
  use_update_checkin n =
      plain_mutation update_checkin (some n) (ResourceChanges.update_checkin_success n)

  unfoldable pub use_create_station : Mutation
  unfolding ResourceChanges.create_station_success
  use_create_station = plain_mutation create_station none ResourceChanges.create_station_success

  unfoldable pub use_update_station : ℕ → Mutation
  unfolding ResourceChanges.update_station_success
  use_update_station n =
      plain_mutation update_station (some n) (ResourceChanges.update_station_success n)

  unfoldable pub use_delete_station : ℕ → Mutation
  unfolding ResourceChanges.delete_station_success
  use_delete_station n =
      plain_mutation delete_station (some n) (ResourceChanges.delete_station_success m n)

  unfoldable pub use_rotate_station_key : ℕ → Mutation
  unfolding ResourceChanges.rotate_station_key_success
  use_rotate_station_key n =
      plain_mutation rotate_station_key (some n) (ResourceChanges.rotate_station_key_success n)

  unfoldable pub use_create_authz_role : Mutation
  unfolding ResourceChanges.create_authz_role_success
  use_create_authz_role =
      plain_mutation create_authz_role none ResourceChanges.create_authz_role_success

  unfoldable pub use_update_authz_role : ℕ → Mutation
  unfolding ResourceChanges.update_authz_role_success
  use_update_authz_role n =
      plain_mutation update_authz_role (some n) (ResourceChanges.update_authz_role_success n)

  unfoldable pub use_delete_authz_role : ℕ → Mutation
  unfolding ResourceChanges.delete_authz_role_success
  use_delete_authz_role n =
      plain_mutation delete_authz_role (some n) (ResourceChanges.delete_authz_role_success m n)

  unfoldable pub use_create_user : Mutation
  unfolding Directory.create_user_success
  use_create_user = plain_mutation create_user none Directory.create_user_success

  unfoldable pub use_update_user : ℕ → Mutation
  unfolding Directory.update_user_success
  use_update_user n = plain_mutation update_user (some n) (Directory.update_user_success n)

  unfoldable pub use_delete_user : ℕ → Mutation
  unfolding Directory.delete_user_success
  use_delete_user n = plain_mutation delete_user (some n) (Directory.delete_user_success m n)

  unfoldable pub use_update_group : ℕ → Mutation
  unfolding Directory.update_group_success
  use_update_group n = plain_mutation update_group (some n) (Directory.update_group_success n)

  unfoldable pub use_rotate_api_key : Mutation
  unfolding Directory.change_api_key_success
  use_rotate_api_key = plain_mutation rotate_account_api_key none Directory.change_api_key_success

  unfoldable pub use_revoke_api_key : Mutation
  unfolding Directory.change_api_key_success
  use_revoke_api_key = plain_mutation revoke_account_api_key none Directory.change_api_key_success

  unfoldable pub use_logout : Mutation
  unfolding Directory.logout_success
  use_logout = plain_mutation delete_session none Directory.logout_success

  -- `n` is the id of the user in the account that the server returns.
  unfoldable pub use_update_account : ℕ → Mutation
  unfolding Directory.update_account_success
  use_update_account n = plain_mutation update_account none (Directory.update_account_success n)

  unfoldable pub use_login : Mutation
  unfolding Directory.login_success
  use_login = record (plain_mutation create_session none Directory.login_success) {
    inline_error = true;
  }

  -- At the status that the server returns.
  unfoldable pub use_trigger_directory_sync : Directory.SyncStatus → Mutation
  unfolding Directory.trigger_directory_sync_success
  use_trigger_directory_sync status =
      record (plain_mutation trigger_directory_sync none
        (Directory.trigger_directory_sync_success status)) {
          error_title = some (codes "Directory sync could not be queued");
        }
