-- ===== src/Views.antt =====
-- What a page shows of its query: web/src/components/query-error.tsx and query-gate.tsx. The fields of
-- `Query` are what the pages read of a result of TanStack Query.
pub mod Pages
pub mod Lists
pub mod Kept
pub mod Failures
use woodgate.Common.{Text, is_empty, if◌then◌else◌, Bool, true, Option, none, some}

pub record Failure : Type 0 where
  pub message : Option Text

-- `loaded` is `query.data`.
pub record Query {ℓ} (T : Type ℓ) : Type ℓ where
  pub loaded : Option T
  pub error : Option Failure
  pub is_loading : Bool
  pub is_loading_error : Bool
  pub is_placeholder_data : Bool

pub record Alert : Type 0 where
  pub title : Text
  pub description : Option Text
  pub retry : Bool

-- A message that is truthy.
abbrev pub shown_message : Option Text → Option Text
shown_message none = none
shown_message (some t) = if is_empty t then none else some t

-- `QueryError`; `can_retry` says whether `onRetry` is given.
unfoldable pub query_error : (title : Text) → Option Failure → (can_retry : Bool) → Option Alert
query_error title none can_retry = none
query_error title (some error) can_retry =
    some (record { title = title; description = shown_message error.message; retry = can_retry })

pub data Gate : Type 0 where
  error_page : Option Alert → Gate
  placeholder : Gate

unfoldable pub query_gate : (title : Text) → Option Failure → (can_retry : Bool) → Gate
unfolding query_error
query_gate title none can_retry = placeholder
query_gate title (some error) can_retry = error_page (query_error title (some error) can_retry)

-- What stands on the screen: the gate, or the page of what was loaded.
pub data Screen {ℓ} (T : Type ℓ) : Type ℓ where
  gate : Gate → Screen T
  page : T → Screen T

-- `if (!query.data) return <QueryGate … />`
unfoldable pub unless_loaded {ℓ} : {T : Type ℓ} → (title : Text) → Query T → Screen T
unfolding query_gate
unless_loaded title query = elim query.loaded [
  | none ↦ gate (query_gate title query.error true)
  | some x ↦ page x
]
