-- ===== src/ExitGuard/Safety.antt =====
-- What the exit guard keeps from happening, whatever the page and its user do.
use woodgate.Common.{
  ltb, Bool-cases, Text, text_eq, ◌≡◌, refl, ◌∙◌, inl, inr, ◌<◌, Bool, true, false, not, ◌&&◌, List,
  [], ◌∷◌, arith, and_left, and_right, all,
}
use woodgate.ExitGuard.{
  Call, reset, Guard, mounted, has_unsaved_changes, should_block_navigation,
  should_block_before_unload, run_without_prompt, callback_settled, request_discard, dialog_open,
  on_open_change, on_confirm, GuardEvent, edited, enabled_set, ran, settled, cancel_pressed,
  open_changed, confirmed, guard_step, guard_run,
}

-- Exits are allowed only while a callback runs.
abbrev IsGuarded : Guard → Type 0
IsGuarded g = g.allow_exit ≡ true → 0 < g.running

guard_step-IsGuarded :
    (g : Guard) (event : GuardEvent) → IsGuarded g → IsGuarded (guard_step g event)
unfolding guard_step run_without_prompt callback_settled request_discard on_open_change on_confirm
    has_unsaved_changes dialog_open
guard_step-IsGuarded g (edited d) h = h
guard_step-IsGuarded g (enabled_set e) h = h
guard_step-IsGuarded g ran h = λ e. omega arith
guard_step-IsGuarded g settled h = ground arith
guard_step-IsGuarded g cancel_pressed h = ground arith
guard_step-IsGuarded g (open_changed blocked true) h = h
guard_step-IsGuarded g (open_changed blocked false) h = h
guard_step-IsGuarded g (confirmed true) h = ground arith
guard_step-IsGuarded g (confirmed false) h = ground arith

guard_run-IsGuarded :
    (g : Guard) (events : List GuardEvent) → IsGuarded g → IsGuarded (guard_run g events)
unfolding guard_run
guard_run-IsGuarded g [] h = h
guard_run-IsGuarded g (event ∷ events) h =
    guard_run-IsGuarded (guard_step g event) events (guard_step-IsGuarded g event h)

mounted-IsGuarded : (enabled : Bool) → IsGuarded (mounted enabled)
unfolding mounted
mounted-IsGuarded enabled = λ e. cc

closed_exit : (g : Guard) → IsGuarded g → g.running ≡ 0 → g.allow_exit ≡ false
closed_exit g h idle = ground arith

and_true : (b : Bool) → (b && true) ≡ b
and_true true = refl
and_true false = refl

closed_blocks :
    (g : Guard) (current next : Text)
    → g.allow_exit ≡ false
    → (should_block_navigation g current next
        ≡ (not (text_eq current next) && has_unsaved_changes g))
      × (should_block_before_unload g ≡ has_unsaved_changes g)
unfolding should_block_navigation should_block_before_unload
closed_blocks g current next closed = rw closed (
  and_true (not (text_eq current next) && has_unsaved_changes g),
  and_true (has_unsaved_changes g),
)

-- Whatever happened on the page before, once no callback of `runWithoutPrompt` is unfinished, the
-- guard blocks exactly the unload, and the navigations to another pathname, of a form that is
-- enabled and does not have its default values.
pub idle_blocks :
    (enabled : Bool) (events : List GuardEvent) (current next : Text)
    → (guard_run (mounted enabled) events).running ≡ 0
    → (should_block_navigation (guard_run (mounted enabled) events) current next ≡ (
        not (text_eq current next)
        && ((guard_run (mounted enabled) events).enabled
            && not (guard_run (mounted enabled) events).is_default_value)))
      × (should_block_before_unload (guard_run (mounted enabled) events) ≡ (
          (guard_run (mounted enabled) events).enabled
          && not (guard_run (mounted enabled) events).is_default_value))
unfolding has_unsaved_changes
idle_blocks enabled events current next idle =
    let after = guard_run (mounted enabled) events in
    closed_blocks after current next (
      closed_exit after (guard_run-IsGuarded (mounted enabled) events (mounted-IsGuarded enabled))
        idle)

-- An event by which neither the user confirms, nor the page runs a callback of its own, nor the
-- form loses its changes or the guard is switched off.
abbrev pub is_quiet : GuardEvent → Bool
is_quiet (edited is_default_value) = not is_default_value
is_quiet (enabled_set enabled) = enabled
is_quiet ran = false
is_quiet settled = true
is_quiet cancel_pressed = true
is_quiet (open_changed blocked is_open) = true
is_quiet (confirmed blocked) = false

-- The calls other than the blocker's `reset`, which cancels a navigation.
abbrev pub exits : List Call → List Call
exits [] = []
exits (reset ∷ calls) = exits calls
exits (call ∷ calls) = call ∷ exits calls

abbrev Holds : Guard → List Call → Type 0
Holds g left = (has_unsaved_changes g ≡ true) × (g.allow_exit ≡ false) × (exits g.calls ≡ left)

quiet-Holds :
    (g : Guard) (event : GuardEvent) (left : List Call)
    → is_quiet event ≡ true
    → Holds g left
    → Holds (guard_step g event) left
unfolding guard_step run_without_prompt callback_settled request_discard on_open_change on_confirm
    has_unsaved_changes dialog_open
quiet-Holds g (edited d) left q (unsaved, closed, same) = (ground arith, closed, same)
quiet-Holds g (enabled_set e) left q (unsaved, closed, same) = (ground arith, closed, same)
quiet-Holds g ran left q h = cc
quiet-Holds g settled left q (unsaved, closed, same) = elim (Bool-cases (ltb 0 g.running)) [
  | inl busy ↦ rw busy (unsaved, refl, same)
  | inr idle ↦ rw idle (unsaved, closed, same)
]
quiet-Holds g cancel_pressed left q (unsaved, closed, same) = rw unsaved (unsaved, closed, same)
quiet-Holds g (open_changed blocked true) left q h = h
quiet-Holds g (open_changed true false) left q h = h
quiet-Holds g (open_changed false false) left q h = h
quiet-Holds g (confirmed b) left q h = cc

quiet_run-Holds :
    (g : Guard) (events : List GuardEvent) (left : List Call)
    → all is_quiet events ≡ true
    → Holds g left
    → Holds (guard_run g events) left
unfolding guard_run
quiet_run-Holds g [] left q h = h
quiet_run-Holds g (event ∷ events) left q h =
    quiet_run-Holds (guard_step g event) events left (and_right (is_quiet event) _ q)
      (quiet-Holds g event left (and_left _ (all is_quiet events) q) h)

-- A form with changes, with no exit allowed yet, is not left without asking: as long as the user
-- does not confirm, the page runs no callback of its own, the form keeps its changes and the guard
-- stays enabled, neither `onDiscard` nor the blocker's `proceed` nor a callback is called, and
-- every navigation to another pathname and every unload is blocked.
pub quiet_stays :
    (g : Guard) (events : List GuardEvent) (current next : Text)
    → has_unsaved_changes g ≡ true
    → g.allow_exit ≡ false
    → all is_quiet events ≡ true
    → text_eq current next ≡ false
    → (exits (guard_run g events).calls ≡ exits g.calls)
      × (should_block_navigation (guard_run g events) current next ≡ true)
      × (should_block_before_unload (guard_run g events) ≡ true)
quiet_stays g events current next unsaved closed quiet differ =
    let (changed, shut, same) =
      quiet_run-Holds g events (exits g.calls) quiet (unsaved, closed, refl) in
    let (navigation, unload) = closed_blocks (guard_run g events) current next shut in
    (same, navigation ∙ rw (differ, changed), unload ∙ changed)
