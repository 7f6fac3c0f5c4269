-- ===== src/Session/Refinement.antt =====
-- The transport seen without its generation numbers: a request is of the current session or not,
-- and the expirations are counted.
use woodgate.Common.{
  ◌==◌, ==_refl, if◌then◌else◌, Bool-cases, Option-cases, length, All, ℕ, zero, suc, ◌+◌, ◌<◌, ◌≡◌,
  refl, ap, ◌∙◌, inl, inr, Bool, true, false, not, ◌&&◌, Option, none, some, List, [], ◌∷◌, map,
  arith,
}
use woodgate.Session.{
  Pending, Sessions, is_login_call, begin, fresh, settle, renew, on_expired, Event, renewed,
  handler_set, requested, answered, nth, remove, step, run,
}
use woodgate.Session.Invariant.{IsSound, older_strictly, All-remove, step-IsSound, fresh-IsSound}

-- A waiting request, and whether it was sent in the session that is still the current one.
pub record Asked : Type 0 where
  pub is_current : Bool
  pub is_login : Bool

pub record Promise : Type 0 where
  pub waiting : List Asked
  pub has_handler : Bool
  pub reports : ℕ

unfoldable pub fresh_promise : Promise
fresh_promise = record { waiting = []; has_handler = false; reports = 0 }

-- The session ends: no request that waits is of the session that follows.
abbrev pub outdate : List Asked → List Asked
outdate [] = []
outdate (a ∷ rest) = record { is_current = false; is_login = a.is_login } ∷ outdate rest

-- The response to a request: a 401 ends the current session unless the request is a login or was
-- sent in an earlier one, and the handler, if there is one, hears of it.
abbrev promised_answer : Promise → (k status : ℕ) → Option Asked → Promise
promised_answer p k status none = p
promised_answer p k status (some asked) =
    if not asked.is_login && status == 401 && asked.is_current
    then record {
      waiting = outdate (remove p.waiting k);
      has_handler = p.has_handler;
      reports = if p.has_handler then suc p.reports else p.reports;
    }
    else record p { waiting = remove p.waiting k }

unfoldable pub promised : Promise → Event → Promise
promised p renewed = record p { waiting = outdate p.waiting }
promised p handler_set = record p { has_handler = true }
promised p (requested call) = record p {
  waiting = record { is_current = true; is_login = is_login_call call } ∷ p.waiting;
}
promised p (answered k status) = promised_answer p k status (nth p.waiting k)

unfoldable pub run_promised : Promise → List Event → Promise
run_promised p [] = p
run_promised p (event ∷ events) = run_promised (promised p event) events

abbrev asked : ℕ → Pending → Asked
asked generation p = record { is_current = p.generation == generation; is_login = p.is_login }

unfoldable pub view : Sessions → Promise
view s = record {
  waiting = map (asked s.transport.generation) s.pending;
  has_handler = s.transport.has_handler;
  reports = length s.transport.expired;
}

nth-map :
    {A : Type 0} {B : Type 0} (f : A → B) (xs : List A) (k : ℕ) {x : A}
    → nth xs k ≡ some x
    → nth (map f xs) k ≡ some (f x)
nth-map f [] k h = cc
nth-map f (y ∷ xs) zero h = cc
nth-map f (y ∷ xs) (suc k) h = nth-map f xs k h

nth-map-none :
    {A : Type 0} {B : Type 0} (f : A → B) (xs : List A) (k : ℕ)
    → nth xs k ≡ none
    → nth (map f xs) k ≡ none
nth-map-none f [] k h = refl
nth-map-none f (y ∷ xs) zero h = cc
nth-map-none f (y ∷ xs) (suc k) h = nth-map-none f xs k h

remove-map :
    {A : Type 0} {B : Type 0} (f : A → B) (xs : List A) (k : ℕ)
    → map f (remove xs k) ≡ remove (map f xs) k
remove-map f [] k = refl
remove-map f (y ∷ xs) zero = refl
remove-map f (y ∷ xs) (suc k) = ap (λ r. f y ∷ r) (remove-map f xs k)

not_equal : (a b : ℕ) → a < b → (a == b) ≡ false
not_equal a b h = ground arith

outdate-map :
    (a b : ℕ) (ps : List Pending)
    → All (λ p. Pending.generation p < b) ps
    → map (asked b) ps ≡ outdate (map (asked a) ps)
outdate-map a b [] h = refl
outdate-map a b (p ∷ ps) (old, h) =
    rw (not_equal p.generation b old)
      (ap (λ r. record { is_current = false; is_login = p.is_login } ∷ r) (outdate-map a b ps h))

expired_view :
    (s : Sessions) (k : ℕ)
    → IsSound s
    → map (asked (s.transport.generation + 1)) (remove s.pending k)
      ≡ outdate (remove (map (asked s.transport.generation) s.pending) k)
expired_view s k h =
    outdate-map s.transport.generation (s.transport.generation + 1) (remove s.pending k)
      (older_strictly s.transport.generation _ _ (omega arith) (All-remove _ s.pending k h.pending))
    ∙ ap outdate (remove-map (asked s.transport.generation) s.pending k)

abbrev with_waiting : Bool → ℕ → List Asked → Promise
with_waiting heard count w = record { waiting = w; has_handler = heard; reports = count }

answered_view :
    (s : Sessions) (k status : ℕ) (request : Pending)
    → IsSound s
    → view
        (record s { transport = settle s.transport request status; pending = remove s.pending k })
      ≡ promised_answer (view s) k status (some (asked s.transport.generation request))
unfolding view settle
answered_view s k status request h =
    elim (Bool-cases
      (not request.is_login && status == 401 && request.generation == s.transport.generation)) [
        | inl fires ↦ elim (Bool-cases s.transport.has_handler) [
          | inl heard ↦ rw (fires, heard) (ap (with_waiting true _) (expired_view s k h))
          | inr unheard ↦ rw (fires, unheard) (ap (with_waiting false _) (expired_view s k h))
        ]
        | inr quiet ↦ rw quiet (ap (with_waiting _ _) (remove-map _ s.pending k))
      ]

view-step :
    (s : Sessions) (event : Event) → IsSound s → view (step s event) ≡ promised (view s) event
unfolding view promised step renew on_expired begin
view-step s renewed h = ap (with_waiting _ _) (
    outdate-map s.transport.generation _ s.pending
      (older_strictly s.transport.generation _ s.pending (omega arith) h.pending))
view-step s handler_set h = refl
view-step s (requested call) h = rw (==_refl s.transport.generation)
view-step s (answered k status) h = elim (Option-cases (nth s.pending k)) [
  | inl missing ↦ rw (missing, nth-map-none (asked s.transport.generation) s.pending k missing)
  | inr (request, found) ↦
      rw (found, nth-map (asked s.transport.generation) s.pending k found)
        (answered_view s k status request h)
]

view-run :
    (s : Sessions) (events : List Event)
    → IsSound s
    → view (run s events) ≡ run_promised (view s) events
unfolding run run_promised
view-run s [] h = refl
view-run s (event ∷ events) h =
    view-run (step s event) events (step-IsSound s event h)
    ∙ ap (λ p. run_promised p events) (view-step s event h)

view-fresh : view fresh ≡ fresh_promise
unfolding view fresh fresh_promise
view-fresh = refl

-- The transport implements its promise: whatever requests are made and in whatever order their
-- responses come, which waiting requests are of the current session, whether a handler is set and
-- how often it was called are what the machine without generation numbers says they are.
pub run-refines :
    (events : List Event) → view (run fresh events) ≡ run_promised fresh_promise events
run-refines events =
    view-run fresh events fresh-IsSound ∙ ap (λ p. run_promised p events) view-fresh
