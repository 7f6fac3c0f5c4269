-- ===== src/ExitGuard.antt =====
-- web/src/hooks/use-page-form-exit-guard.tsx: the guard that keeps a page with unsaved changes from
-- being left. Its state is the hook's two variables with what it reads of the form; the router's
-- blocker is outside, so an event that reads its status carries it.
pub mod Safety
use woodgate.Common.{
  ltb, if◌then◌else◌, Text, text_eq, ℕ, suc, ◌-◌, Bool, true, false, not, ◌&&◌, ◌||◌, List, [], ◌∷◌,
}

-- What the guard calls: the page's `onDiscard`, a callback that the page hands to
-- `runWithoutPrompt`, and the blocker's `proceed` and `reset`.
pub data Call : Type 0 where
  on_discard : Call
  callback : Call
  proceed : Call
  reset : Call

-- `allow_exit` is the reference of that name, `running` counts the callbacks of
-- `runWithoutPrompt` that have not settled, `calls` are the calls made so far, latest first.
pub record Guard : Type 0 where
  pub enabled : Bool
  pub is_default_value : Bool
  pub discard_requested : Bool
  pub allow_exit : Bool
  pub running : ℕ
  pub calls : List Call

unfoldable pub mounted : Bool → Guard
mounted enabled = record {
  enabled = enabled;
  is_default_value = true;
  discard_requested = false;
  allow_exit = false;
  running = 0;
  calls = [];
}

unfoldable pub has_unsaved_changes : Guard → Bool
has_unsaved_changes g = g.enabled && not g.is_default_value

-- `shouldBlockNavigation`, from one pathname to the next.
unfoldable pub should_block_navigation : Guard → (current next : Text) → Bool
unfolding has_unsaved_changes
should_block_navigation g current next =
    not (text_eq current next) && has_unsaved_changes g && not g.allow_exit

unfoldable pub should_block_before_unload : Guard → Bool
unfolding has_unsaved_changes
should_block_before_unload g = has_unsaved_changes g && not g.allow_exit

-- `runWithoutPrompt` up to its `await`.
unfoldable pub run_without_prompt : Guard → Call → Guard
run_without_prompt g call = record g {
  allow_exit = true;
  running = suc g.running;
  calls = call ∷ g.calls;
}

-- One of the callbacks returns or throws: the `finally` of `runWithoutPrompt`.
unfoldable pub callback_settled : Guard → Guard
callback_settled g =
    if ltb 0 g.running then record g { allow_exit = false; running = g.running - 1 } else g

unfoldable pub request_discard : Guard → Guard
unfolding has_unsaved_changes run_without_prompt
request_discard g =
    if has_unsaved_changes g
    then record g { discard_requested = true }
    else run_without_prompt g on_discard

-- The dialog's `open`.
unfoldable pub dialog_open : Guard → Bool → Bool
dialog_open g blocked = g.discard_requested || blocked

-- The dialog's `onOpenChange`. The blocker has a `reset` while it blocks.
unfoldable pub on_open_change : Guard → (blocked is_open : Bool) → Guard
on_open_change g blocked true = g
on_open_change g blocked false = record g {
  discard_requested = false;
  calls = if blocked then reset ∷ g.calls else g.calls;
}

-- The dialog's `onConfirm`.
unfoldable pub on_confirm : Guard → (blocked : Bool) → Guard
unfolding run_without_prompt
on_confirm g true = run_without_prompt g proceed
on_confirm g false = run_without_prompt (record g { discard_requested = false }) on_discard

pub data GuardEvent : Type 0 where
  edited : (is_default_value : Bool) → GuardEvent
  enabled_set : (enabled : Bool) → GuardEvent
  ran : GuardEvent
  settled : GuardEvent
  cancel_pressed : GuardEvent
  open_changed : (blocked is_open : Bool) → GuardEvent
  confirmed : (blocked : Bool) → GuardEvent

unfoldable pub guard_step : Guard → GuardEvent → Guard
unfolding dialog_open run_without_prompt callback_settled request_discard on_open_change on_confirm
guard_step g (edited is_default_value) = record g { is_default_value = is_default_value }
guard_step g (enabled_set enabled) = record g { enabled = enabled }
guard_step g ran = run_without_prompt g callback
guard_step g settled = callback_settled g
guard_step g cancel_pressed = request_discard g
guard_step g (open_changed blocked is_open) = on_open_change g blocked is_open
guard_step g (confirmed blocked) = if dialog_open g blocked then on_confirm g blocked else g

unfoldable pub guard_run : Guard → List GuardEvent → Guard
unfolding guard_step
guard_run g [] = g
guard_run g (event ∷ events) = guard_run (guard_step g event) events
