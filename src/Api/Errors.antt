-- ===== src/Api/Errors.antt =====
-- What a caller learns from a response.
use woodgate.Common.{
  ◌==◌, if◌then◌else◌, Bool-cases, some_or, is_empty, Text, ℕ, ◌≤◌, ◌<◌, ◌≡◌, refl, ◌↔◌, inl, inr,
  true, false, Option, none, some, [], ◌∷◌, arith,
}
use woodgate.Common.Result.{ok, err}
use woodgate.Api.{
  ErrorModel, ResponseError, raised, body, ApiResult, api_error, filled, describe_error,
  details_text, body_errors, body_detail, body_title, ok_response, unwrap_parts, unwrap, retry,
  load_resource, not_found, failed,
}

filled-is_empty : (o : Option Text) {t : Text} → filled o ≡ some t → is_empty t ≡ false
filled-is_empty none e = cc
filled-is_empty (some []) e = cc
filled-is_empty (some (c ∷ s)) e = ground arith

filled_or :
    (o : Option Text) (rest : Text)
    → is_empty rest ≡ false
    → is_empty (some_or (filled o) rest) ≡ false
filled_or none rest h = h
filled_or (some []) rest h = h
filled_or (some (c ∷ s)) rest h = refl

filled_body_detail :
    (b : Option ErrorModel) (rest : Text)
    → is_empty rest ≡ false
    → is_empty (some_or (body_detail b) rest) ≡ false
filled_body_detail none rest h = h
filled_body_detail (some b) rest h = filled_or b.detail rest h

filled_body_title :
    (b : Option ErrorModel) (rest : Text)
    → is_empty rest ≡ false
    → is_empty (some_or (body_title b) rest) ≡ false
filled_body_title none rest h = h
filled_body_title (some b) rest h = filled_or b.title rest h

-- Whatever the body of a failed response holds, or if it has none, the message is not empty.
pub describe_error-filled :
    (b : Option ErrorModel) (status : ℕ) → is_empty (describe_error b status) ≡ false
unfolding describe_error
describe_error-filled b status =
    filled_or (some (details_text (body_errors b))) _
      (filled_body_detail b _ (filled_body_title b _ refl))

abbrev pub IsOkStatus : Option ℕ → Type 0
IsOkStatus response = (status : ℕ) × (response ≡ some status) × (200 ≤ status) × (status ≤ 299)

ok_response-IsOkStatus : (response : Option ℕ) → ok_response response ≡ true → IsOkStatus response
ok_response-IsOkStatus none h = cc
ok_response-IsOkStatus (some status) h = (status, refl, ground arith, ground arith)

unwrap_parts-ok :
    {T : Type 0} (value : T) (error : Option ResponseError) (response : Option ℕ) (v : T)
    → unwrap_parts value error response ≡ ok v
    → (error ≡ none) × (value ≡ v) × IsOkStatus response
unfolding unwrap_parts
unwrap_parts-ok value (some (raised message)) response v h = cc
unwrap_parts-ok value (some (body b)) response v h = cc
unwrap_parts-ok value none response v h = elim (Bool-cases (ok_response response)) [
  | inl good ↦ (refl, (let e = (rw good at h) in cc), ok_response-IsOkStatus response good)
  | inr bad ↦ let e = (rw bad at h) in cc
]

-- `unwrap` returns a value exactly for a response with a 2xx status and no error beside it, and then
-- it is the value of the response.
pub unwrap-ok_iff :
    {T : Type 0} (result : ApiResult T) (v : T)
    → (unwrap result ≡ ok v)
      ↔ ((result.error ≡ none) × (result.value ≡ v) × IsOkStatus result.status)
unfolding unwrap
unwrap-ok_iff result v = (
  unwrap_parts-ok result.value result.error result.status v,
  λ (no_error, same, (status, answered, low, high)). rw (no_error, answered, same) (ground arith),
)

-- A 4xx response with an error body: the error is thrown with the status and the body of the
-- response, the route of a 404 becomes a not-found page and any other fails with that error, and
-- the query is not tried again, whatever the number of failures before.
pub load-unwrap_body :
    {T : Type 0} (result : ApiResult T) (b : ErrorModel) (status failures : ℕ)
    → result.error ≡ some (body b)
    → result.status ≡ some status
    → 400 ≤ status
    → status < 500
    → let thrown = api_error status (describe_error (some b) status) (some b) in
      (unwrap result ≡ err thrown)
      × (load_resource (unwrap result) ≡ (if status == 404 then not_found else failed thrown))
      × (retry failures thrown ≡ false)
unfolding unwrap load_resource retry
load-unwrap_body result b status failures e s low high = (rw (e, s), rw (e, s), ground arith)
