-- ===== src/SearchInput/Table/Arrives.antt =====
-- What is typed into a table's search field arrives at its owner.
use woodgate.Common.{
  ◌==◌, ==_refl, Bool-cases, Text, text_eq, text_eq_refl, text_eq_sound, trim, trim_idem, is_empty,
  some_or, ℕ, ◌≡◌, refl, sym, ap, ◌∙◌, ◌⊎◌, inl, inr, true, false, none, List, [], ◌∷◌,
}
use woodgate.Debounce.{elapse}
use woodgate.Debounce.Single.{
  IsQuiet, IsArmed, IsSingle, debounce-IsArmed, elapse_quiet, elapse_armed, elapse_other,
}
use woodgate.SearchInput.Table.{
  SearchField, field_of, render, search_pending, on_change, written_value, store, field_elapsed,
  FieldEvent, changed, elapsed, field_step, field_run,
}

empty_text : (s : Text) → is_empty s ≡ true → [] ≡ s
empty_text [] h = refl
empty_text (c ∷ s) h = cc

written-trim : (next : Text) → some_or (written_value next) [] ≡ trim next
unfolding written_value
written-trim next = elim (Bool-cases (is_empty (trim next))) [
  | inl blank ↦ rw blank (empty_text _ blank)
  | inr filled ↦ rw filled
]

-- The value is what was rendered last, and either it is the trimmed draft and nothing waits, or the
-- draft waits.
pub record IsFollowing (s : SearchField) : Type 0 where
  pub rendered : s.previous_value ≡ s.value
  pub followed : (IsQuiet s.timers × (s.value ≡ trim s.draft)) ⊎ IsArmed s.timers s.draft

single : (s : SearchField) → IsFollowing s → IsSingle s.timers
single s h = elim h.followed [ inl (quiet, same) ↦ inl quiet | inr armed ↦ inr (s.draft, armed) ]

render-IsFollowing :
    (s : SearchField)
    → IsQuiet s.timers
    → IsFollowing (render s (trim s.draft)) × ((render s (trim s.draft)).value ≡ trim s.draft)
unfolding render
render-IsFollowing s quiet = elim (Bool-cases (text_eq s.previous_value (trim s.draft))) [
  | inl same ↦
      rw same (record { rendered = text_eq_sound _ _ same; followed = inl (quiet, refl) }, refl)
  | inr differ ↦
      rw differ (record { rendered = refl; followed = inl (quiet, sym (trim_idem s.draft)) }, refl)
]

abbrev due : SearchField → SearchField
due s = record s { timers = record s.timers { waiting = [] } }

elapsed-due :
    (s : SearchField) (id : ℕ)
    → IsArmed s.timers s.draft
    → ((s.timers.debounce_timer == id) ≡ true)
    → field_elapsed s id ≡ render (due s) (trim s.draft)
unfolding field_elapsed
elapsed-due s id armed same =
    ap (store s) (elapse_armed s.timers id s.draft armed same)
    ∙ ap (render (due s)) (written-trim s.draft)

on_change-IsFollowing :
    (s : SearchField) (text : Text) → IsFollowing s → IsFollowing (on_change s text)
unfolding on_change
on_change-IsFollowing s text h = record {
  rendered = h.rendered;
  followed = inr (debounce-IsArmed s.timers text (single s h));
}

elapsed_quiet :
    (s : SearchField) (id : ℕ) → elapse s.timers id ≡ (s.timers, none) → field_elapsed s id ≡ s
unfolding field_elapsed
elapsed_quiet s id e = ap (store s) e

armed-IsFollowing :
    (s : SearchField) (id : ℕ)
    → IsFollowing s
    → IsArmed s.timers s.draft
    → IsFollowing (field_elapsed s id)
armed-IsFollowing s id h armed = elim (Bool-cases (s.timers.debounce_timer == id)) [
  | inl same ↦
      let (follows, value) = render-IsFollowing (due s) refl in
      rw (elapsed-due s id armed same) follows
  | inr other ↦ rw (elapsed_quiet s id (elapse_other s.timers id s.draft armed other)) h
]

field_elapsed-IsFollowing :
    (s : SearchField) (id : ℕ) → IsFollowing s → IsFollowing (field_elapsed s id)
field_elapsed-IsFollowing s id h = elim h.followed [
  | inl (quiet, same) ↦ rw (elapsed_quiet s id (elapse_quiet s.timers id quiet)) h
  | inr armed ↦ armed-IsFollowing s id h armed
]

field_step-IsFollowing :
    (s : SearchField) (event : FieldEvent) → IsFollowing s → IsFollowing (field_step s event)
unfolding field_step
field_step-IsFollowing s (changed text) h = on_change-IsFollowing s text h
field_step-IsFollowing s (elapsed id) h = field_elapsed-IsFollowing s id h

field_run-IsFollowing :
    (s : SearchField) (events : List FieldEvent) → IsFollowing s → IsFollowing (field_run s events)
unfolding field_run
field_run-IsFollowing s [] h = h
field_run-IsFollowing s (event ∷ events) h =
    field_run-IsFollowing (field_step s event) events (field_step-IsFollowing s event h)

field_of-IsFollowing : (value : Text) → trim value ≡ value → IsFollowing (field_of value)
unfolding field_of
field_of-IsFollowing value trimmed = record { rendered = refl; followed = inl (refl, sym trimmed) }

-- The draft waits behind a timer, and once that elapses the owner has the trimmed draft and the
-- field is not busy on its own account.
pub record Arrives (s : SearchField) : Type 0 where
  pub waits : s.timers.waiting ≡ (s.timers.debounce_timer, s.draft) ∷ []
  pub written : (field_elapsed s s.timers.debounce_timer).value ≡ trim s.draft
  pub is_over : search_pending (field_elapsed s s.timers.debounce_timer) false ≡ false

followed_over : (s : SearchField) → s.value ≡ trim s.draft → search_pending s false ≡ false
unfolding search_pending
followed_over s same = rw (same, text_eq_refl (trim s.draft))

trim_draft-render : (s : SearchField) → trim (render s (trim s.draft)).draft ≡ trim s.draft
unfolding render
trim_draft-render s = elim (Bool-cases (text_eq s.previous_value (trim s.draft))) [
  | inl same ↦ rw same
  | inr differ ↦ rw differ (trim_idem s.draft)
]

armed-Arrives : (s : SearchField) → IsArmed s.timers s.draft → Arrives s
armed-Arrives s armed =
    let (follows, value) = render-IsFollowing (due s) refl in
    let e = elapsed-due s s.timers.debounce_timer armed (==_refl _) in
    record {
      waits = armed;
      written = rw e value;
      is_over = rw e (followed_over _ (value ∙ sym (trim_draft-render (due s))));
    }

pending-Arrives : (s : SearchField) → IsFollowing s → search_pending s false ≡ true → Arrives s
pending-Arrives s h pending = elim h.followed [
  | inl (quiet, same) ↦ let over = followed_over s same in cc
  | inr armed ↦ armed-Arrives s armed
]

-- However a table's search field is typed into, if its text differs from the value of its owner, a
-- trimmed one at first, then exactly one timer waits, and when it elapses the owner stores the
-- trimmed text and the field is no longer busy.
pub field_run-Arrives :
    (value : Text) (events : List FieldEvent)
    → trim value ≡ value
    → search_pending (field_run (field_of value) events) false ≡ true
    → Arrives (field_run (field_of value) events)
field_run-Arrives value events trimmed pending =
    pending-Arrives _
      (field_run-IsFollowing (field_of value) events (field_of-IsFollowing value trimmed)) pending
