-- ===== src/Session/Invariant.antt =====
-- What holds of the transport under every interleaving of calls and responses.
use woodgate.Common.{
  ◌==◌, if◌then◌else◌, Bool-cases, Option-cases, all, All, ℕ, zero, suc, ◌+◌, ◌≤◌, ◌<◌, ◌≡◌, refl,
  ap, ◌∙◌, inl, inr, true, false, not, ◌&&◌, none, some, List, [], ◌∷◌, arith,
}
use mathlib.Core.Path.{subst}
use woodgate.Session.{
  Pending, Transport, Sessions, fresh, settle, renew, Event, renewed, handler_set, requested,
  answered, nth, remove, step, run,
}

-- The generations that expired, latest first: all of them are over, and no two are the same.
abbrev pub Descends : ℕ → List ℕ → Type 0
Descends bound [] = Unit
Descends bound (g ∷ gs) = (g < bound) × Descends g gs

pub record IsSound (s : Sessions) : Type 0 where
  pub expired : Descends s.transport.generation s.transport.expired
  pub pending : All (λ p. Pending.generation p ≤ s.transport.generation) s.pending

Descends-le : (a b : ℕ) (gs : List ℕ) → a ≤ b → Descends a gs → Descends b gs
Descends-le a b [] h d = tt
Descends-le a b (g ∷ gs) h (lt, d) = (omega arith, d)

logged-Descends :
    (t : Transport)
    → Descends t.generation t.expired
    → Descends (t.generation + 1) (if t.has_handler then t.generation ∷ t.expired else t.expired)
logged-Descends t d = elim (Bool-cases t.has_handler) [
  | inl heard ↦ rw heard (omega arith, d)
  | inr unheard ↦ rw unheard (Descends-le t.generation (t.generation + 1) t.expired (omega arith) d)
]

settle-Descends :
    (t : Transport) (request : Pending) (status : ℕ)
    → Descends t.generation t.expired
    → Descends (settle t request status).generation (settle t request status).expired
unfolding settle
settle-Descends t request status d =
    elim (Bool-cases
      (not request.is_login && status == 401 && request.generation == t.generation)) [
        | inl fires ↦ rw fires (logged-Descends t d)
        | inr quiet ↦ rw quiet d
      ]

settle-grows :
    (t : Transport) (request : Pending) (status : ℕ)
    → t.generation ≤ (settle t request status).generation
unfolding settle
settle-grows t request status = ground arith

module _ {ℓ} (P : Pending → Type ℓ) where
  pub All-nth : (ps : List Pending) (k : ℕ) {p : Pending} → All P ps → nth ps k ≡ some p → P p
  All-nth [] k h e = cc
  All-nth (q ∷ ps) zero (x, h) e = let same : q ≡ _ = ground arith in subst P same x
  All-nth (q ∷ ps) (suc k) (x, h) e = All-nth ps k h e

  pub All-remove : (ps : List Pending) (k : ℕ) → All P ps → All P (remove ps k)
  All-remove [] k h = tt
  All-remove (q ∷ ps) zero (x, h) = h
  All-remove (q ∷ ps) (suc k) (x, h) = (x, All-remove ps k h)

older :
    (a b : ℕ) (ps : List Pending)
    → a ≤ b
    → All (λ p. Pending.generation p ≤ a) ps
    → All (λ p. Pending.generation p ≤ b) ps
older a b [] h all = tt
older a b (p ∷ ps) h (x, all) = (omega arith, older a b ps h all)

pub older_strictly :
    (a b : ℕ) (ps : List Pending)
    → a < b
    → All (λ p. Pending.generation p ≤ a) ps
    → All (λ p. Pending.generation p < b) ps
older_strictly a b [] h all = tt
older_strictly a b (p ∷ ps) h (x, all) = (omega arith, older_strictly a b ps h all)

pub step-IsSound : (s : Sessions) (event : Event) → IsSound s → IsSound (step s event)
unfolding step
step-IsSound s renewed h = record {
  expired = Descends-le s.transport.generation _ s.transport.expired (omega arith) h.expired;
  pending = older s.transport.generation _ s.pending (omega arith) h.pending;
}
step-IsSound s handler_set h = record { expired = h.expired; pending = h.pending }
step-IsSound s (requested call) h = record {
  expired = h.expired;
  pending = (omega arith, h.pending);
}
step-IsSound s (answered k status) h = elim (Option-cases (nth s.pending k)) [
  | inl missing ↦ rw missing h
  | inr (request, found) ↦ rw found (record {
    expired = settle-Descends s.transport request status h.expired;
    pending =
        older s.transport.generation _ (remove s.pending k)
          (settle-grows s.transport request status) (All-remove _ s.pending k h.pending);
  })
]

run-IsSound : (s : Sessions) (events : List Event) → IsSound s → IsSound (run s events)
unfolding run
run-IsSound s [] h = h
run-IsSound s (event ∷ events) h = run-IsSound (step s event) events (step-IsSound s event h)

pub fresh-IsSound : IsSound fresh
unfolding fresh
fresh-IsSound = record { expired = tt; pending = tt }

-- Whatever requests are made and in whatever order the responses come, no session generation is
-- reported as expired twice, and only generations that are over have been reported.
pub run-Descends :
    (events : List Event)
    → Descends (run fresh events).transport.generation (run fresh events).transport.expired
run-Descends events = (run-IsSound fresh events fresh-IsSound).expired

abbrev pub answers : List (ℕ × ℕ) → List Event
answers [] = []
answers ((k, status) ∷ rest) = answered k status ∷ answers rest

settle_stale :
    (t : Transport) (request : Pending) (status : ℕ)
    → request.generation < t.generation
    → settle t request status ≡ t
unfolding settle
settle_stale t request status old = ground arith

-- The state behind the response to a waiting request.
abbrev answered_state : Sessions → ℕ → ℕ → Pending → Sessions
answered_state s k status request = record s {
  transport = settle s.transport request status;
  pending = remove s.pending k;
}

pub step-missing :
    (s : Sessions) (k status : ℕ) → nth s.pending k ≡ none → step s (answered k status) ≡ s
unfolding step
step-missing s k status missing = rw missing

pub step-found :
    (s : Sessions) (k status : ℕ) {request : Pending}
    → nth s.pending k ≡ some request
    → step s (answered k status) ≡ answered_state s k status request
unfolding step
step-found s k status found = rw found

stale_answers :
    (s : Sessions) (given : List (ℕ × ℕ))
    → All (λ p. Pending.generation p < s.transport.generation) s.pending
    → (run s (answers given)).transport ≡ s.transport
unfolding run
stale_answers s [] old = refl
stale_answers s ((k, status) ∷ given) old = elim (Option-cases (nth s.pending k)) [
  | inl missing ↦
      ap (λ s'. Sessions.transport (run s' (answers given))) (step-missing s k status missing)
      ∙ stale_answers s given old
  | inr (request, found) ↦
      let same = settle_stale s.transport request status (All-nth _ s.pending k old found) in
      ap (λ s'. Sessions.transport (run s' (answers given)))
        (step-found s k status found
          ∙ ap (λ t. record { transport = t; pending = remove s.pending k }) same)
      ∙ stale_answers (record s { pending = remove s.pending k }) given
          (All-remove _ s.pending k old)
]

-- After `renew`, none of the responses to requests that were waiting by then, whatever they say
-- and in whatever order they come, changes the transport.
pub renewed_quiet :
    (events : List Event) (given : List (ℕ × ℕ))
    → (run (step (run fresh events) renewed) (answers given)).transport
      ≡ renew (run fresh events).transport
unfolding step
renewed_quiet events given =
    stale_answers _ given
      (older_strictly _ _ _ (omega arith) (run-IsSound fresh events fresh-IsSound).pending)

settle_current :
    (t : Transport) (request : Pending)
    → request.is_login ≡ false
    → request.generation ≡ t.generation
    → t.has_handler ≡ true
    → settle t request 401
      ≡ record t { generation = t.generation + 1; expired = t.generation ∷ t.expired }
unfolding settle
settle_current t request anonymous current handled = ground arith

unauthorized_of_IsSound :
    (s : Sessions) (k : ℕ) (request : Pending) (given : List (ℕ × ℕ))
    → IsSound s
    → nth s.pending k ≡ some request
    → request.is_login ≡ false
    → request.generation ≡ s.transport.generation
    → s.transport.has_handler ≡ true
    → (run s (answers ((k, 401) ∷ given))).transport.expired
      ≡ s.transport.generation ∷ s.transport.expired
unfolding run
unauthorized_of_IsSound s k request given h found anonymous current handled =
    let fired = settle_current s.transport request anonymous current handled in
    ap (λ s'. Transport.expired (Sessions.transport (run s' (answers given))))
      (step-found s k 401 found
        ∙ ap (λ t. record { transport = t; pending = remove s.pending k }) fired)
    ∙ ap (λ t. Transport.expired t)
        (stale_answers _ given (
          older_strictly s.transport.generation _ (remove s.pending k) (omega arith)
            (All-remove _ s.pending k h.pending)))

-- When a handler is set and a waiting request of the current session, other than a login, is
-- answered 401, the session expires exactly once: the handler is called, and no later response to
-- any waiting request calls it again.
pub unauthorized_once :
    (events : List Event) (k : ℕ) (request : Pending) (given : List (ℕ × ℕ))
    → nth (run fresh events).pending k ≡ some request
    → request.is_login ≡ false
    → request.generation ≡ (run fresh events).transport.generation
    → (run fresh events).transport.has_handler ≡ true
    → (run (run fresh events) (answers ((k, 401) ∷ given))).transport.expired
      ≡ (run fresh events).transport.generation ∷ (run fresh events).transport.expired
unauthorized_once events k request given found anonymous current handled =
    unauthorized_of_IsSound (run fresh events) k request given
      (run-IsSound fresh events fresh-IsSound) found anonymous current handled
