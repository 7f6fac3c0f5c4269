-- ===== src/Examples/Guards.antt =====
-- Concrete runs of the exit guard.
use woodgate.Common.{codes, text_eq, ◌≡◌, refl, true, false, not, ◌&&◌, Text, List, [], ◌∷◌}
use woodgate.ExitGuard.{
  Guard, mounted, has_unsaved_changes, should_block_navigation, should_block_before_unload,
  run_without_prompt, callback_settled, GuardEvent, edited, ran, settled, cancel_pressed,
  open_changed, guard_step, guard_run,
}
use woodgate.ExitGuard.Safety.{idle_blocks, quiet_stays, exits}

-- The form is saved, by a callback that settles, and edited again.
abbrev saved_and_edited : List GuardEvent
saved_and_edited = edited false ∷ ran ∷ edited true ∷ settled ∷ edited false ∷ []

saved_and_edited-idle : (guard_run (mounted true) saved_and_edited).running ≡ 0
unfolding guard_run guard_step mounted run_without_prompt callback_settled
saved_and_edited-idle = refl

abbrev here : Text
here = codes "/roles/new"

abbrev there : Text
there = codes "/roles"

idle_blocks_example :
    (should_block_navigation (guard_run (mounted true) saved_and_edited) here there ≡ (
      not (text_eq here there)
      && ((guard_run (mounted true) saved_and_edited).enabled
          && not (guard_run (mounted true) saved_and_edited).is_default_value)))
    × (should_block_before_unload (guard_run (mounted true) saved_and_edited) ≡ (
        (guard_run (mounted true) saved_and_edited).enabled
        && not (guard_run (mounted true) saved_and_edited).is_default_value))
idle_blocks_example = idle_blocks true saved_and_edited here there saved_and_edited-idle

abbrev dirty : Guard
dirty = record {
  enabled = true;
  is_default_value = false;
  discard_requested = false;
  allow_exit = false;
  running = 0;
  calls = [];
}

dirty-unsaved : has_unsaved_changes dirty ≡ true
unfolding has_unsaved_changes
dirty-unsaved = refl

-- The user asks to leave, and thinks better of it.
abbrev hesitation : List GuardEvent
hesitation = cancel_pressed ∷ open_changed true false ∷ edited false ∷ []

quiet_stays_example :
    (exits (guard_run dirty hesitation).calls ≡ exits [])
    × (should_block_navigation (guard_run dirty hesitation) here there ≡ true)
    × (should_block_before_unload (guard_run dirty hesitation) ≡ true)
quiet_stays_example = quiet_stays dirty hesitation here there dirty-unsaved refl refl refl
