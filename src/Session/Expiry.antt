-- ===== src/Session/Expiry.antt =====
-- features/authn/session-expiry.ts: `expireSession`, with its module variable `redirecting`.
use woodgate.Common.{
  ◌==◌, if◌then◌else◌, Text, codes, text_eq, ℕ, ◌+◌, ◌-◌, ◌≡◌, Bool, true, false, ◌||◌, List, [],
  ◌∷◌, arith,
}

-- `cleared` counts the calls of `queryClient.clear`, `in_flight` the navigations that have not ended.
pub record Redirects : Type 0 where
  pub redirecting : Bool
  pub cleared : ℕ
  pub in_flight : ℕ

pub data RedirectEvent : Type 0 where
  expire : (path : Text) → RedirectEvent
  arrived : RedirectEvent  -- a navigation ends, well or badly: its `finally`

unfoldable pub expire_session : Text → Redirects → Redirects
expire_session path r =
    if text_eq path (codes "/login") || r.redirecting
    then r
    else record { redirecting = true; cleared = r.cleared + 1; in_flight = r.in_flight + 1 }

unfoldable pub navigation_done : Redirects → Redirects
navigation_done r =
    if r.in_flight == 0 then r else record r { redirecting = false; in_flight = r.in_flight - 1 }

unfoldable pub react : Redirects → RedirectEvent → Redirects
unfolding expire_session navigation_done
react r (expire path) = expire_session path r
react r arrived = navigation_done r

unfoldable pub react_all : Redirects → List RedirectEvent → Redirects
react_all r [] = r
react_all r (event ∷ events) = react_all (react r event) events

unfoldable pub settled : Redirects
settled = record { redirecting = false; cleared = 0; in_flight = 0 }

pub record IsSingle (r : Redirects) : Type 0 where
  pub free : r.redirecting ≡ false → r.in_flight ≡ 0
  pub busy : r.redirecting ≡ true → r.in_flight ≡ 1

react-IsSingle : (r : Redirects) (event : RedirectEvent) → IsSingle r → IsSingle (react r event)
unfolding react
react-IsSingle r (expire path) h = ground arith
react-IsSingle r arrived h = ground arith

-- Where the flag says whether a redirect to the login page is under way and there is at most one,
-- this stays so however many requests report an expired session, and wherever the user is.
pub react_all-IsSingle :
    (r : Redirects) (events : List RedirectEvent) → IsSingle r → IsSingle (react_all r events)
unfolding react_all
react_all-IsSingle r [] h = h
react_all-IsSingle r (event ∷ events) h =
    react_all-IsSingle (react r event) events (react-IsSingle r event h)
