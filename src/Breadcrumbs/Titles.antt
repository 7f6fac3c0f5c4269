-- ===== src/Breadcrumbs/Titles.antt =====
-- The crumbs of a page that is not found, and the title in terms of the crumbs.
use woodgate.Common.{
  if◌then◌else◌, Bool-cases, Text, codes, ℕ, ◌≡◌, refl, ap, ◌∙◌, sym, inl, inr, Bool, true, not,
  or_else, is_some, Option, none, some, List, [], ◌∷◌, ◌++◌, all, and_left, and_right, append_assoc,
  append-nil,
}
use woodgate.Breadcrumbs.{
  BreadcrumbLabel, text, resource, Match, CrumbLabel, label, named, Crumb, crumb, push,
  use_breadcrumbs, Titling, titled, titling, last, non_empty, named_title, title_of, route_title,
}

module _ (Name : Type 0) where
  push-append :
      (match : Match Name) (b : Option (BreadcrumbLabel Name)) (id : Option ℕ)
      (rest more : List (Crumb Name))
      → push Name match b id (rest ++ more) ≡ push Name match b id rest ++ more
  push-append match none id rest more = refl
  push-append match (some (text t)) id rest more = refl
  push-append match (some (resource name)) none rest more = refl
  push-append match (some (resource name)) (some id) rest more = refl

  abbrev pub is_found : Match Name → Bool
  is_found match = not match.not_found

  -- The match that is not found, behind matches that are, gives the last crumb, which says so; the
  -- matches behind it give none.
  pub use_breadcrumbs-missing :
      (before after : List (Match Name)) (match : Match Name)
      → all is_found before ≡ true
      → match.not_found ≡ true
      → use_breadcrumbs Name (before ++ match ∷ after)
        ≡ use_breadcrumbs Name before ++ crumb Name match (label (codes "Page Not Found")) ∷ []
  unfolding use_breadcrumbs
  use_breadcrumbs-missing [] after match found missing = rw missing
  use_breadcrumbs-missing (m ∷ before) after match found missing = elim (Bool-cases m.not_found) [
    | inl gone ↦
        let h = and_left (is_found m) _ found in
        let absent : (not true) ≡ true = ap not (sym gone) ∙ h in cc
    | inr here ↦
        rw
          (
            here,
            use_breadcrumbs-missing before after match (and_right (is_found m) _ found) missing,
          )
          (push-append m m.breadcrumb m.param_id (use_breadcrumbs Name before) _)
  ]

  -- The last resource of the crumbs, and the labels behind it, or all of them without a resource.
  abbrev pub resource_of : CrumbLabel Name → Option (Name × ℕ)
  resource_of (named name id) = some (name, id)
  resource_of (label t) = none

  abbrev pub last_resource : List (Crumb Name) → Option (Name × ℕ)
  last_resource [] = none
  last_resource (c ∷ crumbs) = or_else (last_resource crumbs) (resource_of c.content)

  abbrev pub label_of : CrumbLabel Name → List Text
  label_of (named name id) = []
  label_of (label t) = t ∷ []

  abbrev pub labels_after : List (Crumb Name) → List Text
  labels_after [] = []
  labels_after (c ∷ crumbs) =
      if is_some (last_resource crumbs)
      then labels_after crumbs
      else label_of c.content ++ labels_after crumbs

  -- The variables behind crumbs with this last resource and these labels after it.
  abbrev behind : Titling Name → Option (Name × ℕ) → List Text → Titling Name
  behind s later labels = record {
    resource = or_else later s.resource;
    actions = if is_some later then labels else s.actions ++ labels;
  }

  behind-titled :
      (s : Titling Name) (c : CrumbLabel Name) (later : Option (Name × ℕ)) (labels : List Text)
      → behind (titled Name s c) later labels
        ≡ behind s
            (or_else later (resource_of c))
            (if is_some later then labels else label_of c ++ labels)
  behind-titled s (label t) none labels =
      ap (λ a. record { resource = s.resource; actions = a })
        (append_assoc s.actions (t ∷ []) labels)
  behind-titled s (named name id) none labels = refl
  behind-titled s (label t) (some r) labels = refl
  behind-titled s (named name id) (some r) labels = refl

  behind-titling :
      (s : Titling Name) (crumbs : List (Crumb Name))
      → titling Name s crumbs ≡ behind s (last_resource crumbs) (labels_after crumbs)
  unfolding titling
  behind-titling s [] =
      ap (λ a. record { resource = s.resource; actions = a }) (sym (append-nil s.actions))
  behind-titling s (c ∷ crumbs) =
      behind-titling (titled Name s c.content) crumbs
      ∙ behind-titled s c.content (last_resource crumbs) (labels_after crumbs)

  module _ (name_of : Name → ℕ → Option Text) where
    abbrev pub title_behind : Option (Name × ℕ) → List Text → Option Text
    title_behind none labels = non_empty (last labels)
    title_behind (some (name, id)) labels = named_title (non_empty (name_of name id)) labels

    title_of-behind :
        (later : Option (Name × ℕ)) (labels : List Text)
        → title_of Name name_of (behind (record { resource = none; actions = [] }) later labels)
          ≡ title_behind later labels
    title_of-behind none labels = refl
    title_of-behind (some r) labels = refl

    -- The title names the last resource of the crumbs with the labels behind it, and without a
    -- resource it is the last label; there is none where that name or label is missing or empty.
    pub route_title-resource :
        (crumbs : List (Crumb Name))
        → route_title Name name_of crumbs
          ≡ title_behind (last_resource crumbs) (labels_after crumbs)
    unfolding route_title
    route_title-resource crumbs =
        ap (title_of Name name_of)
          (behind-titling (record { resource = none; actions = [] }) crumbs)
        ∙ title_of-behind (last_resource crumbs) (labels_after crumbs)
