-- ===== src/Examples/Fields.antt =====
-- Concrete runs of the search fields.
use woodgate.Common.{
  codes, ◌≡◌, refl, true, false, List, [], ◌∷◌, trim, trim_start, trim_end, is_space,
}
use woodgate.Debounce.{cancel, debounce, elapse}
use woodgate.SearchInput.{query_of, update_input, query_elapsed, is_pending}
use woodgate.SearchInput.Settles.{
  query_step, query_run, QueryEvent, typed, elapsed as passed, Settles, query_run-Settles,
}
use woodgate.SearchInput.Table.{
  FieldEvent, changed, field_of, field_run, field_step, field_elapsed, search_pending, on_change,
  render, written_value, elapsed as ended,
}
use woodgate.SearchInput.Table.Arrives.{Arrives, field_run-Arrives}

abbrev typing : List QueryEvent
typing = typed (codes "a") ∷ typed (codes "ab ") ∷ passed 1 ∷ []

typing-pending : is_pending (query_run (query_of []) typing) ≡ true
unfolding is_pending query_run query_step query_of update_input query_elapsed cancel debounce elapse
    trim trim_start trim_end is_space
typing-pending = refl

query_run-Settles_example : Settles (query_run (query_of []) typing)
query_run-Settles_example = query_run-Settles [] typing typing-pending

abbrev writing : List FieldEvent
writing = changed (codes "a") ∷ ended 1 ∷ changed (codes "ab ") ∷ []

name-trimmed : trim (codes "x") ≡ codes "x"
unfolding trim trim_start trim_end is_space
name-trimmed = refl

writing-pending : search_pending (field_run (field_of (codes "x")) writing) false ≡ true
unfolding search_pending render written_value field_run field_step field_of on_change field_elapsed
    cancel debounce elapse trim trim_start trim_end is_space
writing-pending = refl

field_run-Arrives_example : Arrives (field_run (field_of (codes "x")) writing)
field_run-Arrives_example = field_run-Arrives (codes "x") writing name-trimmed writing-pending
