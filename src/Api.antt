-- ===== src/Api.antt =====
-- web/src/lib/api.ts, lib/resource-loader.ts and query-client.ts: how a response becomes a value or a
-- thrown error, what the message says, and what the queries and routes do with the error.
pub mod Errors
use woodgate.Common.{
  ltb, leb, ◌==◌, if◌then◌else◌, some_or, is_empty, keep, Text, codes, ℕ, ◌+◌, Bool, false, not,
  ◌&&◌, ◌||◌, Option, none, some, List, [], ◌∷◌, ◌++◌, map,
}
use woodgate.Common.Number.{decimal}
use woodgate.Common.Result.{Result, ok, err}

pub record ErrorDetail : Type 0 where
  pub location : Option Text
  pub message : Option Text

pub record ErrorModel : Type 0 where
  pub title : Option Text
  pub detail : Option Text
  pub errors : Option (List ErrorDetail)  -- absent and null are both `none`

-- What the generated client resolves with in `error`.
pub data ResponseError : Type 0 where
  raised : (message : Text) → ResponseError  -- an `Error`, as on a network failure
  body : ErrorModel → ResponseError

pub record ApiResult {ℓ} (T : Type ℓ) : Type ℓ where
  pub value : T
  pub error : Option ResponseError
  pub status : Option ℕ  -- of the response, if there is one

-- What is thrown: an error of the platform, or an `ApiError`.
pub data Thrown : Type 0 where
  platform_error : (message : Text) → Thrown
  api_error : (status : ℕ) (message : Text) (body : Option ErrorModel) → Thrown

-- `response.ok`
abbrev pub is_ok_status : ℕ → Bool
is_ok_status status = leb 200 status && leb status 299

-- A truthy string.
abbrev pub filled : Option Text → Option Text
filled none = none
filled (some []) = none
filled (some (c ∷ s)) = some (c ∷ s)

abbrev pub detail_line : ErrorDetail → Text
detail_line e = elim (filled e.location) [
  | some location ↦ location ++ codes ": " ++ some_or e.message []
  | none ↦ some_or e.message []
]

-- `join("; ")`
abbrev pub join : List Text → Text
join [] = []
join (t ∷ []) = t
join (t ∷ u ∷ ts) = t ++ codes "; " ++ join (u ∷ ts)

abbrev pub details_text : List ErrorDetail → Text
details_text errors = join (keep (λ t. not (is_empty t)) (map detail_line errors))

abbrev pub body_errors : Option ErrorModel → List ErrorDetail
body_errors none = []
body_errors (some b) = some_or b.errors []

abbrev pub body_detail : Option ErrorModel → Option Text
body_detail none = none
body_detail (some b) = filled b.detail

abbrev pub body_title : Option ErrorModel → Option Text
body_title none = none
body_title (some b) = filled b.title

unfoldable pub describe_error : Option ErrorModel → ℕ → Text
describe_error b status = some_or (filled (some (details_text (body_errors b)))) (
    some_or (body_detail b)
      (some_or (body_title b) (codes "request failed (" ++ decimal status ++ codes ")")))

abbrev pub ok_response : Option ℕ → Bool
ok_response none = false
ok_response (some status) = is_ok_status status

-- `unwrap` over the fields of the result.
unwrap_parts {ℓ} : {T : Type ℓ} → T → Option ResponseError → Option ℕ → Result Thrown T
unfolding describe_error
unwrap_parts value (some (raised message)) response = err (platform_error message)
unwrap_parts value (some (body b)) response =
    let status = some_or response 0 in
    err (api_error status (describe_error (some b) status) (some b))
unwrap_parts value none response =
    let status = some_or response 0 in
    if ok_response response
    then ok value
    else err (api_error status (describe_error none status) none)

unfoldable pub unwrap {ℓ} : {T : Type ℓ} → ApiResult T → Result Thrown T
unfolding unwrap_parts
unwrap result = unwrap_parts result.value result.error result.status

-- query-client.ts: whether a failed query is tried again.
unfoldable pub retry : ℕ → Thrown → Bool
retry failure_count (api_error status message b) =
    not (leb 400 status && ltb status 500) && ltb failure_count 2
retry failure_count (platform_error message) = ltb failure_count 2

-- query-client.ts: the toast of a failed mutation, unless its error is shown elsewhere.
unfoldable pub mutation_toast : (inline_error own_handler : Bool) → Thrown → Option Text
mutation_toast inline_error own_handler error =
    if inline_error || own_handler
    then none
    else some (elim error [ platform_error message ↦ message | api_error _ message _ ↦ message ])

-- resource-loader.ts: how the loader of a route ends.
pub data Loaded {ℓ} (T : Type ℓ) : Type ℓ where
  loaded : T → Loaded T
  not_found : Loaded T
  failed : Thrown → Loaded T

unfoldable pub load_resource {ℓ} : {T : Type ℓ} → Result Thrown T → Loaded T
load_resource (ok value) = loaded value
load_resource (err (platform_error message)) = failed (platform_error message)
load_resource (err (api_error status message b)) =
    if status == 404 then not_found else failed (api_error status message b)
