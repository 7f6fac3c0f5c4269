-- ===== src/SearchInput/Settles.antt =====
-- The query of a search field catches up with its text.
use woodgate.Common.{
  ◌==◌, ==_refl, Bool-cases, Text, text_eq_refl, trim, is_empty, ℕ, ◌≡◌, refl, ◌⊎◌, inl, inr, true,
  false, List, [], ◌∷◌,
}
use woodgate.Debounce.Single.{
  IsQuiet, IsArmed, IsSingle, cancel-IsQuiet, debounce-IsArmed, elapse_quiet, elapse_armed,
  elapse_other,
}
use woodgate.SearchInput.{Query, query_of, update_input, query_elapsed, is_pending}

-- Either the query is the trimmed text and nothing waits, or the trimmed text waits.
abbrev pub IsFed : Query → Type 0
IsFed s = (IsQuiet s.timers × (s.q ≡ trim s.input_value)) ⊎ IsArmed s.timers (trim s.input_value)

IsFed-IsSingle : (s : Query) → IsFed s → IsSingle s.timers
IsFed-IsSingle s (inl (quiet, same)) = inl quiet
IsFed-IsSingle s (inr armed) = inr (trim s.input_value, armed)

empty_text : (s : Text) → is_empty s ≡ true → [] ≡ s
empty_text [] h = refl
empty_text (c ∷ s) h = cc

pub query_of-IsFed : (initial : Text) → IsFed (query_of initial)
unfolding query_of
query_of-IsFed initial = inl (refl, refl)

pub update_input-IsFed : (s : Query) (next : Text) → IsFed s → IsFed (update_input s next)
unfolding update_input
update_input-IsFed s next fed = elim (Bool-cases (is_empty (trim next))) [
  | inl blank ↦ rw blank (inl (cancel-IsQuiet s.timers (IsFed-IsSingle s fed), empty_text _ blank))
  | inr filled ↦ rw filled (inr (debounce-IsArmed s.timers (trim next) (IsFed-IsSingle s fed)))
]

pub query_elapsed-IsFed : (s : Query) (id : ℕ) → IsFed s → IsFed (query_elapsed s id)
unfolding query_elapsed
query_elapsed-IsFed s id (inl (quiet, same)) =
    rw (elapse_quiet s.timers id quiet) (inl (quiet, same))
query_elapsed-IsFed s id (inr armed) = elim (Bool-cases (s.timers.debounce_timer == id)) [
  | inl due ↦ rw (elapse_armed s.timers id _ armed due) (inl (refl, refl))
  | inr other ↦ rw (elapse_other s.timers id _ armed other) (inr armed)
]

pub data QueryEvent : Type 0 where
  typed : Text → QueryEvent
  elapsed : ℕ → QueryEvent

unfoldable pub query_step : Query → QueryEvent → Query
query_step s (typed next) = update_input s next
query_step s (elapsed id) = query_elapsed s id

unfoldable pub query_run : Query → List QueryEvent → Query
query_run s [] = s
query_run s (event ∷ events) = query_run (query_step s event) events

query_step-IsFed : (s : Query) (event : QueryEvent) → IsFed s → IsFed (query_step s event)
unfolding query_step
query_step-IsFed s (typed next) fed = update_input-IsFed s next fed
query_step-IsFed s (elapsed id) fed = query_elapsed-IsFed s id fed

query_run-IsFed : (s : Query) (events : List QueryEvent) → IsFed s → IsFed (query_run s events)
unfolding query_run
query_run-IsFed s [] fed = fed
query_run-IsFed s (event ∷ events) fed =
    query_run-IsFed (query_step s event) events (query_step-IsFed s event fed)

-- A timer waits, and once it elapses the query is the trimmed text and the search is not pending.
pub record Settles (s : Query) : Type 0 where
  pub waits : s.timers.waiting ≡ (s.timers.debounce_timer, trim s.input_value) ∷ []
  pub catches_up : (query_elapsed s s.timers.debounce_timer).q ≡ trim s.input_value
  pub is_over : is_pending (query_elapsed s s.timers.debounce_timer) ≡ false

armed-Settles : (s : Query) → IsArmed s.timers (trim s.input_value) → Settles s
unfolding query_elapsed is_pending
armed-Settles s armed =
    let due = elapse_armed s.timers s.timers.debounce_timer _ armed (==_refl _) in
    record {
      waits = armed;
      catches_up = rw due;
      is_over = rw (due, text_eq_refl (trim s.input_value));
    }

caught_up : (s : Query) → s.q ≡ trim s.input_value → is_pending s ≡ false
unfolding is_pending
caught_up s same = rw (same, text_eq_refl (trim s.input_value))

pending-Settles : (s : Query) → IsFed s → is_pending s ≡ true → Settles s
pending-Settles s (inl (quiet, same)) pending = let over = caught_up s same in cc
pending-Settles s (inr armed) pending = armed-Settles s armed

-- However the field was typed into before, a search that is pending does not stay so: exactly one
-- timer waits, with the trimmed text, and when it elapses the query is that text and nothing is
-- pending.
pub query_run-Settles :
    (initial : Text) (events : List QueryEvent)
    → is_pending (query_run (query_of initial) events) ≡ true
    → Settles (query_run (query_of initial) events)
query_run-Settles initial events pending =
    pending-Settles _ (query_run-IsFed (query_of initial) events (query_of-IsFed initial)) pending
