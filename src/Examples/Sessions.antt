-- ===== src/Examples/Sessions.antt =====
-- Concrete runs of the session transport.
use woodgate.Common.{codes, ◌≡◌, refl, sym, ap, true, false, none, some, List, [], ◌∷◌}
use woodgate.Session.{
  FetchCall, Pending, Transport, Sessions, fresh, is_login_call, begin, settle, renew, on_expired,
  Event, renewed, handler_set, requested, answered, nth, step, run,
}
use woodgate.Session.Invariant.{answers, renewed_quiet, unauthorized_once}
use woodgate.Session.App.{
  AppEvent, session, moved, arrived as landed, app_run, started, reports, clears, ended, logged_out,
  logout_arrived, app_run-cleared,
}
use woodgate.Common.{◌≤◌}
use woodgate.Session.Refinement.{view, run_promised, fresh_promise, run-refines}

abbrev read_account : FetchCall
read_account = record {
  pathname = codes "/api/account";
  init_method = none;
  request_method = some (codes "GET");
}

-- Two requests of one session, of which one is answered 401, and then one of the next session.
abbrev events : List Event
events =
    handler_set
    ∷ requested read_account
    ∷ requested read_account
    ∷ answered 0 401
    ∷ requested read_account
    ∷ []

renewed_quiet_example :
    (run (step (run fresh events) renewed) (answers ((1, 401) ∷ (0, 401) ∷ []))).transport
    ≡ renew (run fresh events).transport
renewed_quiet_example = renewed_quiet events ((1, 401) ∷ (0, 401) ∷ [])

abbrev current : Pending
current = record { generation = 1; is_login = false }

abbrev handled : Transport
handled = record { generation = 1; has_handler = true; expired = 0 ∷ [] }

events-run : run fresh events ≡ record {
  transport = handled;
  pending = current ∷ record { generation = 0; is_login = false } ∷ [];
}
unfolding run step begin settle renew on_expired is_login_call fresh
events-run = refl

unauthorized_once_example :
    (run (run fresh events) (answers ((0, 401) ∷ (0, 401) ∷ []))).transport.expired
    ≡ (run fresh events).transport.generation ∷ (run fresh events).transport.expired
unauthorized_once_example =
    unauthorized_once events 0 current ((0, 401) ∷ [])
      (ap (λ s. nth (Sessions.pending s) 0) events-run) refl
      (sym (ap (λ s. s.transport.generation) events-run))
      (ap (λ s. s.transport.has_handler) events-run)

run-refines_example : view (run fresh events) ≡ run_promised fresh_promise events
run-refines_example = run-refines events

abbrev app_events : List AppEvent
app_events =
    session handler_set
    ∷ session (requested read_account)
    ∷ session (answered 0 401)
    ∷ moved (codes "/login")
    ∷ landed
    ∷ session (requested read_account)
    ∷ logged_out
    ∷ logout_arrived
    ∷ []

app_run-cleared_example :
    (clears (app_run (started (codes "/account")) app_events)
      ≤ ended (app_run (started (codes "/account")) app_events))
    × ((app_run (started (codes "/account")) app_events).redirects.cleared
        ≤ reports (app_run (started (codes "/account")) app_events).sessions)
    × ((app_run (started (codes "/account")) app_events).redirects.in_flight ≤ 1)
app_run-cleared_example = app_run-cleared (codes "/account") app_events
