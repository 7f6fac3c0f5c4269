-- ===== src/Queries/Mutations/Effects.antt =====
-- What any mutation of the app tells and touches.
use woodgate.Common.{
  ◌==◌, if◌then◌else◌, is_some, length, all, Text, ℕ, ◌≡◌, refl, Bool, true, false, Option, none,
  some, List, [], ◌∷◌, ◌++◌, arith,
}
use woodgate.Api.{Thrown, mutation_toast}
use woodgate.Queries.{QueryKey, KeyPart, id, Call, set_query_data, invalidate, fetch_query}
use woodgate.Queries.Directory.{SyncStatus}
use woodgate.Queries.Mutations
use woodgate.Queries.Mutations.{Mutation}

pub data AppMutation : Type 0 where
  create_location create_station create_authz_role create_user rotate_api_key : AppMutation
  revoke_api_key logout login : AppMutation
  update_location delete_location create_checkin update_checkin update_station : ℕ → AppMutation
  delete_station rotate_station_key update_authz_role delete_authz_role update_user :
      ℕ → AppMutation
  delete_user update_group update_account : ℕ → AppMutation
  trigger_directory_sync : SyncStatus → AppMutation

unfoldable pub mutation : (QueryKey → QueryKey → Bool) → AppMutation → Mutation
mutation m create_location = Mutations.use_create_location m
mutation m create_station = Mutations.use_create_station m
mutation m create_authz_role = Mutations.use_create_authz_role m
mutation m create_user = Mutations.use_create_user m
mutation m rotate_api_key = Mutations.use_rotate_api_key m
mutation m revoke_api_key = Mutations.use_revoke_api_key m
mutation m logout = Mutations.use_logout m
mutation m login = Mutations.use_login m
mutation m (update_location n) = Mutations.use_update_location m n
mutation m (delete_location n) = Mutations.use_delete_location m n
mutation m (create_checkin n) = Mutations.use_create_checkin m n
mutation m (update_checkin n) = Mutations.use_update_checkin m n
mutation m (update_station n) = Mutations.use_update_station m n
mutation m (delete_station n) = Mutations.use_delete_station m n
mutation m (rotate_station_key n) = Mutations.use_rotate_station_key m n
mutation m (update_authz_role n) = Mutations.use_update_authz_role m n
mutation m (delete_authz_role n) = Mutations.use_delete_authz_role m n
mutation m (update_user n) = Mutations.use_update_user m n
mutation m (delete_user n) = Mutations.use_delete_user m n
mutation m (update_group n) = Mutations.use_update_group m n
mutation m (update_account n) = Mutations.use_update_account m n
mutation m (trigger_directory_sync status) = Mutations.use_trigger_directory_sync m status

-- All hooks at once, for proofs that compute a mutation.
all_mutations : Unit {0}
unfolding mutation Mutations.use_create_location Mutations.use_create_station
    Mutations.use_create_authz_role Mutations.use_create_user Mutations.use_rotate_api_key
    Mutations.use_revoke_api_key Mutations.use_logout Mutations.use_login
    Mutations.use_update_location Mutations.use_delete_location Mutations.use_create_checkin
    Mutations.use_update_checkin Mutations.use_update_station Mutations.use_delete_station
    Mutations.use_rotate_station_key Mutations.use_update_authz_role Mutations.use_delete_authz_role
    Mutations.use_update_user Mutations.use_delete_user Mutations.use_update_group
    Mutations.use_update_account Mutations.use_trigger_directory_sync
all_mutations = tt

abbrev as_list : Option Text → List Text
as_list none = []
as_list (some t) = t ∷ []

-- The titles of the toasts for a failed mutation: its own `onError`, and that of the mutation cache.
abbrev pub failure_toasts : Mutation → Thrown → List Text
failure_toasts m e =
    as_list m.error_title ++ as_list (mutation_toast m.inline_error (is_some m.error_title) e)

abbrev pub is_login : AppMutation → Bool
is_login login = true
is_login _ = false

-- When a mutation of the app fails, its own `onError` and that of the mutation cache show exactly one
-- toast between them, but for a login none.
pub failure_toasts-length :
    (m : QueryKey → QueryKey → Bool) (mutated : AppMutation) (e : Thrown)
    → length (failure_toasts (mutation m mutated) e) ≡ (if is_login mutated then 0 else 1)
unfolding all_mutations mutation_toast
failure_toasts-length m login e = refl
failure_toasts-length m _ e = refl

abbrev is_about_part : ℕ → KeyPart → Bool
is_about_part n (id k) = k == n
is_about_part n _ = true

-- No id but this one stands in the key.
abbrev pub is_about : ℕ → QueryKey → Bool
is_about n = all (is_about_part n)

-- The keys that a call names.
abbrev pub touched : List Call → List QueryKey
touched [] = []
touched (set_query_data key ∷ calls) = key ∷ touched calls
touched (invalidate f ∷ calls) = f.query_key ∷ touched calls
touched (fetch_query key ∷ calls) = key ∷ touched calls
touched (_ ∷ calls) = touched calls

-- When the request of a mutation names a record, no key that `onSuccess` writes, invalidates or fetches
-- has the id of another one.
pub mutation-is_about :
    (m : QueryKey → QueryKey → Bool) (mutated : AppMutation) (n : ℕ)
    → (mutation m mutated).record_id ≡ some n
    → all (is_about n) (touched (mutation m mutated).success) ≡ true
unfolding all_mutations
mutation-is_about m login n e = cc
mutation-is_about m _ n e = ground arith
