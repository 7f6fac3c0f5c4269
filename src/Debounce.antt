-- ===== src/Debounce.antt =====
-- web/src/hooks/use-debounced-callback.ts: the callback behind a timer. `A` is the type of its
-- argument. The window hands out the ids of its timers in order, from 1; `clearTimeout` of an id
-- without a timer does nothing.
pub mod Single
use woodgate.Common.{◌==◌, if◌then◌else◌, ℕ, suc, Option, none, some, List, [], ◌∷◌}

pub record Timers {ℓ} (A : Type ℓ) : Type ℓ where
  pub debounce_timer : ℕ  -- `debounceTimerRef`
  pub next_id : ℕ
  pub waiting : List (ℕ × A)

module _ {ℓ} {A : Type ℓ} where
  abbrev pub no_timers : Timers A
  no_timers = record { debounce_timer = 0; next_id = 1; waiting = [] }

  abbrev pub without : ℕ → List (ℕ × A) → List (ℕ × A)
  without id [] = []
  without id ((other, arg) ∷ rest) =
      if other == id then without id rest else (other, arg) ∷ without id rest

  abbrev pub argument : ℕ → List (ℕ × A) → Option A
  argument id [] = none
  argument id ((other, arg) ∷ rest) = if other == id then some arg else argument id rest

  unfoldable pub cancel : Timers A → Timers A
  cancel t = record t { waiting = without t.debounce_timer t.waiting }

  -- `setValue`: the old timer is cleared, a new one waits.
  unfoldable pub debounce : Timers A → A → Timers A
  unfolding cancel
  debounce t arg = record {
    debounce_timer = t.next_id;
    next_id = suc t.next_id;
    waiting = (t.next_id, arg) ∷ without t.debounce_timer t.waiting;
  }

  -- A timer elapses: it is gone, and the callback is called if it was there.
  unfoldable pub elapse : Timers A → ℕ → Timers A × Option A
  elapse t id = (record t { waiting = without id t.waiting }, argument id t.waiting)
