-- ===== src/Forms/Role/Boxes.antt =====
-- The checkboxes of the role form and of the role picker.
use woodgate.Common.{
  ◌==◌, if◌then◌else◌, Bool-cases, Text, text_eq, text_eq_refl, text_eq_sound, ℕ, ◌≡◌, refl, ap,
  ◌∙◌, inl, inr, Bool, true, false, not, ◌&&◌, ◌||◌, Option, some, List, [], ◌∷◌, ◌++◌, arith, keep,
}
use woodgate.Forms.Role.{
  Level, no_level, view, edit, level_text, is_level, entry, with_entry, read_level, level_of,
  view_checked, edit_checked, view_changed, edit_changed, includes, role_checked_change,
}

module _ {ℓ} {A : Type ℓ} where
  entry-other :
      (ps : List (Text × A)) (k other : Text) (v : A)
      → text_eq k other ≡ false
      → entry (with_entry ps k v) other ≡ entry ps other
  entry-other [] k other v differ = rw differ
  entry-other ((key, value) ∷ ps) k other v differ = elim (Bool-cases (text_eq key k)) [
    | inl same ↦ let e = text_eq_sound key k same in rw (same, e, differ)
    | inr apart ↦ rw (apart, entry-other ps k other v differ)
  ]

  entry-same : (ps : List (Text × A)) (k : Text) (v : A) → entry (with_entry ps k v) k ≡ some v
  entry-same [] k v = rw (text_eq_refl k)
  entry-same ((key, value) ∷ ps) k v = elim (Bool-cases (text_eq key k)) [
    | inl same ↦ rw (same, same)
    | inr apart ↦ rw (apart, apart) (entry-same ps k v)
  ]

module _ (permission_level : Option Text → Level)
    (reads_back : (level : Level) → permission_level (some (level_text level)) ≡ level) where
  level_of-same :
      (ps : List (Text × Level)) (resource : Text) (level : Level)
      → level_of permission_level (with_entry ps resource level) resource ≡ level
  unfolding level_of
  level_of-same ps resource level =
      ap (read_level permission_level) (entry-same ps resource level) ∙ reads_back level

  edit_or_view : (b : Bool) → (is_level (if b then edit else view) edit) ≡ b
  edit_or_view true = refl
  edit_or_view false = refl

  some_view :
      (b : Bool)
      → (is_level (if b then edit else view) view || is_level (if b then edit else view) edit)
        ≡ true
  some_view true = refl
  some_view false = refl

  edit_view :
      (level : Level)
      → (is_level level edit && not (is_level level view || is_level level edit)) ≡ false
  edit_view no_level = refl
  edit_view view = refl
  edit_view edit = refl

  -- If `permissionLevel` reads the three levels back: behind a click, the box that was clicked shows
  -- what was asked for. Checking or unchecking Edit leaves View checked, unchecking View unchecks
  -- Edit and checking it keeps Edit, and Edit is never checked without View.
  pub boxes-show :
      (ps : List (Text × Level)) (resource : Text) (checked : Bool)
      → (view_checked permission_level (view_changed permission_level ps resource checked) resource
          ≡ checked)
        × (edit_checked permission_level (edit_changed ps resource checked) resource ≡ checked)
        × (view_checked permission_level (edit_changed ps resource checked) resource ≡ true)
        × (edit_checked permission_level
              (view_changed permission_level ps resource checked)
              resource
            ≡ (checked && edit_checked permission_level ps resource))
        × ((edit_checked permission_level ps resource
              && not (view_checked permission_level ps resource))
            ≡ false)
  unfolding view_checked edit_checked view_changed edit_changed
  boxes-show ps resource true = (
    rw (level_of-same ps resource _) (some_view _),
    rw (level_of-same ps resource _) refl,
    rw (level_of-same ps resource _) refl,
    rw (level_of-same ps resource _) (edit_or_view _),
    edit_view _,
  )
  boxes-show ps resource false = (
    rw (level_of-same ps resource _) refl,
    rw (level_of-same ps resource _) refl,
    rw (level_of-same ps resource _) refl,
    rw (level_of-same ps resource _) refl,
    edit_view _,
  )

-- A click in the row of one resource leaves the level of every other resource as it was.
pub boxes-keep :
    (permission_level : Option Text → Level) (ps : List (Text × Level)) (resource other : Text)
    (checked : Bool)
    → text_eq resource other ≡ false
    → (level_of permission_level (view_changed permission_level ps resource checked) other
        ≡ level_of permission_level ps other)
      × (level_of permission_level (edit_changed ps resource checked) other
          ≡ level_of permission_level ps other)
unfolding level_of view_changed edit_changed
boxes-keep permission_level ps resource other checked differ = (
  ap (read_level permission_level) (entry-other ps resource other _ differ),
  ap (read_level permission_level) (entry-other ps resource other _ differ),
)

includes-append :
    (ids : List ℕ) (id other : ℕ)
    → includes (ids ++ id ∷ []) other ≡ (includes ids other || id == other)
includes-append [] id other = ground arith
includes-append (i ∷ ids) id other = ground (arith, includes-append ids id other)

includes-keep :
    (ids : List ℕ) (id other : ℕ)
    → includes (keep (λ candidate. not (candidate == id)) ids) other
      ≡ (includes ids other && not (id == other))
includes-keep [] id other = refl
includes-keep (i ∷ ids) id other = ground (arith, includes-keep ids id other)

-- A click on a role's checkbox makes the box show what was asked for and leaves every other role's
-- box as it was.
pub role_checked_change-includes :
    (value : List ℕ) (id other : ℕ) (next : Bool)
    → (includes (role_checked_change value id next) other)
      ≡ (if other == id then next else includes value other)
unfolding role_checked_change
role_checked_change-includes value id other true = includes-append value id other ∙ ground arith
role_checked_change-includes value id other false = includes-keep value id other ∙ ground arith
