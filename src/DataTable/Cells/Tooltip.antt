-- ===== src/DataTable/Cells/Tooltip.antt =====
-- What the tooltip of a cell shows.
use woodgate.Common.{
  is_empty, trim, trim_idem, Bool-cases, Text, ◌≡◌, inl, inr, Bool, true, false, Option, none, some,
  List, [], ◌∷◌,
}
use woodgate.DataTable.Cells.{
  Content, CellTooltip, closed_tooltip, has_overflow, shown_text, handle_open_change, TooltipEvent,
  tooltip_run,
}

-- The tooltip is closed, or its text is not empty and has no space around it.
pub record IsFilled (s : CellTooltip) : Type 0 where
  pub filled : s.is_open ≡ true → is_empty s.tooltip_text ≡ false
  pub trimmed : s.is_open ≡ true → trim s.tooltip_text ≡ s.tooltip_text

shown_text-IsFilled : (s : CellTooltip) (t : Text) → IsFilled s → IsFilled (shown_text s (trim t))
shown_text-IsFilled s t h = elim (Bool-cases (is_empty (trim t))) [
  | inl nothing ↦ rw nothing h
  | inr given ↦ rw given (record { filled = λ _. given; trimmed = λ _. trim_idem t })
]

handle-IsFilled :
    (content : Option Content) (s : CellTooltip) (next_open : Bool)
    → IsFilled s
    → IsFilled (handle_open_change content s next_open)
unfolding handle_open_change
handle-IsFilled content s false h = record { filled = λ e. cc; trimmed = λ e. cc }
handle-IsFilled none s true h = h
handle-IsFilled (some content) s true h = elim (Bool-cases (has_overflow content)) [
  | inl wide ↦ rw wide (shown_text-IsFilled s content.inner_text h)
  | inr fits ↦ rw fits h
]

run-IsFilled :
    (s : CellTooltip) (events : List TooltipEvent) → IsFilled s → IsFilled (tooltip_run s events)
unfolding tooltip_run
run-IsFilled s [] h = h
run-IsFilled s (event ∷ events) h =
    run-IsFilled (handle_open_change event.content s event.next_open) events
      (handle-IsFilled event.content s event.next_open h)

-- Whatever a cell holds whenever its tooltip is asked to open, a tooltip that is open has a text that
-- is not empty and has no space around it.
pub tooltip_run-IsFilled :
    (events : List TooltipEvent) → IsFilled (tooltip_run closed_tooltip events)
tooltip_run-IsFilled events =
    run-IsFilled closed_tooltip events (record { filled = λ e. cc; trimmed = λ e. cc })
