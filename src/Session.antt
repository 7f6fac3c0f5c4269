-- ===== src/Session.antt =====
-- web/src/lib/session.ts: the fetch wrapper that notices an expired session, as a state machine over
-- the requests in flight, and features/authn/session-expiry.ts, the redirect that follows.
pub mod Invariant
pub mod Expiry
pub mod Refinement
pub mod App
use woodgate.Common.{
  leb, ◌==◌, if◌then◌else◌, some_or, Text, codes, text_eq, ℕ, zero, suc, ◌+◌, ◌-◌, ◌/◌, Bool, true,
  false, not, ◌&&◌, Option, none, some, List, [], ◌∷◌, map,
}

-- One call of the wrapper. `pathname` is the path of the parsed URL, a result of the platform.
pub record FetchCall : Type 0 where
  pub pathname : Text
  pub init_method : Option Text
  pub request_method : Option Text  -- the method of an `input` that is a `Request`

pub record Pending : Type 0 where
  pub generation : ℕ
  pub is_login : Bool

-- The closure's variables, and the generations at which `onExpired` was called, latest first.
pub record Transport : Type 0 where
  pub generation : ℕ
  pub has_handler : Bool
  pub expired : List ℕ

-- The requests that wait for their response, with the transport that they share.
pub record Sessions : Type 0 where
  pub transport : Transport
  pub pending : List Pending

unfoldable pub fresh : Sessions
fresh = record {
  transport = record { generation = 0; has_handler = false; expired = [] };
  pending = [];
}

-- `toUpperCase()` on a method name, which is ASCII.
abbrev pub to_upper : Text → Text
to_upper s = map (λ c. if leb b'a' c && leb c b'z' then c - 32 else c) s

abbrev pub call_method : FetchCall → Text
call_method call = some_or call.init_method (some_or call.request_method (codes "GET"))

unfoldable pub is_login_call : FetchCall → Bool
is_login_call call =
    text_eq call.pathname (codes "/api/session")
    && text_eq (to_upper (call_method call)) (codes "POST")

-- `fetch` up to its `await`.
unfoldable pub begin : Transport → FetchCall → Pending
unfolding is_login_call
begin transport call = record { generation = transport.generation; is_login = is_login_call call }

-- `fetch` behind its `await`, for a response with this status.
unfoldable pub settle : Transport → Pending → ℕ → Transport
settle transport request status =
    if not request.is_login && status == 401 && request.generation == transport.generation
    then record transport {
      generation = transport.generation + 1;
      expired =
          if transport.has_handler
          then transport.generation ∷ transport.expired
          else transport.expired;
    }
    else transport

unfoldable pub renew : Transport → Transport
renew transport = record transport { generation = transport.generation + 1 }

unfoldable pub on_expired : Transport → Transport
on_expired transport = record transport { has_handler = true }

-- What can happen next: the program calls the transport, or the k-th waiting request is answered.
pub data Event : Type 0 where
  renewed : Event
  handler_set : Event
  requested : FetchCall → Event
  answered : (k status : ℕ) → Event

abbrev pub nth {ℓ} : {A : Type ℓ} → List A → ℕ → Option A
nth [] k = none
nth (p ∷ ps) zero = some p
nth (p ∷ ps) (suc k) = nth ps k

abbrev pub remove {ℓ} : {A : Type ℓ} → List A → ℕ → List A
remove [] k = []
remove (p ∷ ps) zero = ps
remove (p ∷ ps) (suc k) = p ∷ remove ps k

-- The response to a waiting request; without one, nothing happens.
answer : Sessions → (k status : ℕ) → Option Pending → Sessions
answer s k status none = s
answer s k status (some request) = record s {
  transport = settle s.transport request status;
  pending = remove s.pending k;
}

unfoldable pub step : Sessions → Event → Sessions
unfolding begin settle renew on_expired answer
step s renewed = record s { transport = renew s.transport }
step s handler_set = record s { transport = on_expired s.transport }
step s (requested call) = record s { pending = begin s.transport call ∷ s.pending }
step s (answered k status) = answer s k status (nth s.pending k)

unfoldable pub run : Sessions → List Event → Sessions
run s [] = s
run s (event ∷ events) = run (step s event) events
