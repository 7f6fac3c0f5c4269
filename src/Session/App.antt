-- ===== src/Session/App.antt =====
-- web/src/App.tsx and useLogout of web/src/features/authn/queries.ts: the handler that joins the
-- session transport to the redirect to the login page, and the logout.
use woodgate.Common.{
  ltb, if◌then◌else◌, Bool-cases, Option-cases, length, Text, ℕ, suc, ◌+◌, ◌-◌, ◌≤◌, ◌≡◌, refl, inl,
  inr, false, not, ◌&&◌, List, [], ◌∷◌, arith,
}
use woodgate.Session.{
  Pending, Transport, Sessions, fresh, settle, renew, on_expired, begin, Event, renewed,
  handler_set, requested, answered, nth, step,
}
use woodgate.Session.Expiry.{Redirects, expire_session, navigation_done, settled}

-- `pathname` is that of `router.state.location`; `logouts` are the logouts that have succeeded, each of
-- which cleared the cache, and `leaving` those whose navigation to the login page has not ended.
pub record AppState : Type 0 where
  pub sessions : Sessions
  pub redirects : Redirects
  pub pathname : Text
  pub logouts : ℕ
  pub leaving : ℕ

pub data AppEvent : Type 0 where
  session : Event → AppEvent
  arrived : AppEvent
  moved : Text → AppEvent
  logged_out : AppEvent
  logout_arrived : AppEvent

abbrev pub reports : Sessions → ℕ
reports s = length s.transport.expired

-- A step of the transport, with the handler of the program where it is called.
unfoldable pub app_step : AppState → AppEvent → AppState
app_step s (session event) = record s {
  sessions = step s.sessions event;
  redirects =
      if ltb (reports s.sessions) (reports (step s.sessions event))
      then expire_session s.pathname s.redirects
      else s.redirects;
}
app_step s arrived = record s { redirects = navigation_done s.redirects }
app_step s (moved pathname) = record s { pathname = pathname }
app_step s logged_out = record s {
  sessions = step s.sessions renewed;
  logouts = suc s.logouts;
  leaving = suc s.leaving;
}
app_step s logout_arrived = record s { leaving = s.leaving - 1 }

unfoldable pub app_run : AppState → List AppEvent → AppState
app_run s [] = s
app_run s (event ∷ events) = app_run (app_step s event) events

unfoldable pub started : Text → AppState
started pathname = record {
  sessions = fresh;
  redirects = settled;
  pathname = pathname;
  logouts = 0;
  leaving = 0;
}

-- The calls of `queryClient.clear`.
abbrev pub clears : AppState → ℕ
clears s = s.redirects.cleared + s.logouts

-- The sessions that have ended: each one starts the next generation.
abbrev pub ended : AppState → ℕ
ended s = s.sessions.transport.generation

-- Redirects behind n reports: the cache was cleared at most n times, a navigation under way has
-- cleared it, and there is one exactly while the flag is set.
abbrev IsCounted : ℕ → Redirects → Type 0
IsCounted n r =
    (r.cleared ≤ n)
    × (r.in_flight ≤ r.cleared)
    × (r.in_flight ≤ 1)
    × ((not r.redirecting && ltb 0 r.in_flight) ≡ false)

settle-grows_reports :
    (t : Transport) (request : Pending) (status : ℕ)
    → length t.expired ≤ length (settle t request status).expired
unfolding settle
settle-grows_reports t request status = ground arith

step-reports : (s : Sessions) (event : Event) → reports s ≤ reports (step s event)
unfolding step renew on_expired begin
step-reports s renewed = omega arith
step-reports s handler_set = omega arith
step-reports s (requested call) = omega arith
step-reports s (answered k status) = elim (Option-cases (nth s.pending k)) [
  | inl missing ↦ rw missing (omega arith)
  | inr (request, found) ↦ rw found (settle-grows_reports s.transport request status)
]

expire-IsCounted :
    (n m : ℕ) (path : Text) (r : Redirects)
    → suc n ≤ m
    → IsCounted n r
    → IsCounted m (expire_session path r)
unfolding expire_session
expire-IsCounted n m path r less (few, under, single, free) =
    (ground arith, ground arith, ground arith, ground arith)

done-IsCounted : (n : ℕ) (r : Redirects) → IsCounted n r → IsCounted n (navigation_done r)
unfolding navigation_done
done-IsCounted n r (few, under, single, free) =
    (ground arith, ground arith, ground arith, ground arith)

-- A step that reports a session ends it.
step-room :
    (s : Sessions) (event : Event) (n : ℕ)
    → reports s + n ≤ s.transport.generation
    → reports (step s event) + n ≤ (step s event).transport.generation
unfolding step renew on_expired begin settle
step-room s renewed n h = omega arith
step-room s handler_set n h = omega arith
step-room s (requested call) n h = omega arith
step-room s (answered k status) n h = elim (Option-cases (nth s.pending k)) [
  | inl missing ↦ rw missing h
  | inr (request, found) ↦ rw found (ground arith)
]

step-IsCounted :
    (s : AppState) (event : AppEvent)
    → IsCounted (reports s.sessions) s.redirects
    → IsCounted (reports (app_step s event).sessions) (app_step s event).redirects
unfolding app_step
step-IsCounted s (session event) h =
    elim (Bool-cases (ltb (reports s.sessions) (reports (step s.sessions event)))) [
      | inl reported ↦ rw reported (expire-IsCounted _ _ s.pathname s.redirects (ground arith) h)
      | inr quiet ↦
          let (few, under, single, free) = h in
          let grows = step-reports s.sessions event in rw quiet (omega arith, under, single, free)
    ]
step-IsCounted s arrived h = done-IsCounted _ s.redirects h
step-IsCounted s (moved pathname) h = h
step-IsCounted s logged_out h =
    let (few, under, single, free) = h in
    let grows = step-reports s.sessions renewed in (omega arith, under, single, free)
step-IsCounted s logout_arrived h = h

app_step-room :
    (s : AppState) (event : AppEvent)
    → reports s.sessions + s.logouts ≤ ended s
    → reports (app_step s event).sessions + (app_step s event).logouts ≤ ended (app_step s event)
unfolding app_step step renew
app_step-room s (session event) h = step-room s.sessions event s.logouts h
app_step-room s arrived h = h
app_step-room s (moved pathname) h = h
app_step-room s logged_out h = omega arith
app_step-room s logout_arrived h = h

run-IsCounted :
    (s : AppState) (events : List AppEvent)
    → IsCounted (reports s.sessions) s.redirects
    → reports s.sessions + s.logouts ≤ ended s
    → IsCounted (reports (app_run s events).sessions) (app_run s events).redirects
      × (reports (app_run s events).sessions + (app_run s events).logouts
          ≤ ended (app_run s events))
unfolding app_run
run-IsCounted s [] h room = (h, room)
run-IsCounted s (event ∷ events) h room =
    run-IsCounted (app_step s event) events (step-IsCounted s event h) (app_step-room s event room)

started-IsCounted :
    (pathname : Text) → IsCounted (reports (started pathname).sessions) (started pathname).redirects
unfolding started fresh settled
started-IsCounted pathname = (omega arith, omega arith, omega arith, refl)

started-room :
    (pathname : Text)
    → reports (started pathname).sessions + (started pathname).logouts ≤ ended (started pathname)
unfolding started fresh
started-room pathname = omega arith

-- Whatever requests are made, however they are answered, wherever the user is and however often they
-- log out: the cache is cleared at most once for each session that has ended, by a logout, a login or
-- a 401, and by the handler at most once for each one that was reported as expired; and at most one
-- redirect of an expired session to the login page is under way, beside the navigations of logouts.
pub app_run-cleared :
    (pathname : Text) (events : List AppEvent)
    → (clears (app_run (started pathname) events) ≤ ended (app_run (started pathname) events))
      × ((app_run (started pathname) events).redirects.cleared
          ≤ reports (app_run (started pathname) events).sessions)
      × ((app_run (started pathname) events).redirects.in_flight ≤ 1)
app_run-cleared pathname events =
    let ((few, under, single, free), room) =
      run-IsCounted (started pathname) events (started-IsCounted pathname)
        (started-room pathname) in
    (omega arith, few, single)
