-- ===== src/Breadcrumbs.antt =====
-- web/src/components/layout/app-breadcrumbs.tsx and document-title.tsx. `Name` is the component that
-- finds out the name of a resource.
pub mod Titles
use woodgate.Common.{
  if◌then◌else◌, Text, codes, ℕ, Bool, Option, none, some, List, [], ◌∷◌, ◌++◌, is_empty,
}

module _ (Name : Type 0) where
  pub data BreadcrumbLabel : Type 0 where
    text : Text → BreadcrumbLabel
    resource : Name → BreadcrumbLabel

  -- A match of the router: its `staticData.breadcrumb`, whether its status is "notFound", and the id
  -- of its parameters.
  pub record Match : Type 0 where
    pub id : Text
    pub pathname : Text
    pub breadcrumb : Option BreadcrumbLabel
    pub not_found : Bool
    pub param_id : Option ℕ

  pub data CrumbLabel : Type 0 where
    label : Text → CrumbLabel
    named : Name → (id : ℕ) → CrumbLabel

  pub record Crumb : Type 0 where
    pub key : Text
    pub to : Text
    pub content : CrumbLabel

  abbrev pub crumb : Match → CrumbLabel → Crumb
  crumb match content = record { key = match.id; to = match.pathname; content = content }

  -- The crumb of one match. An empty text is a label of its own.
  abbrev pub push : Match → Option BreadcrumbLabel → Option ℕ → List Crumb → List Crumb
  push match (some (text t)) id rest = crumb match (label t) ∷ rest
  push match (some (resource name)) (some id) rest = crumb match (named name id) ∷ rest
  push match (some (resource name)) none rest = rest
  push match none id rest = rest

  unfoldable pub use_breadcrumbs : List Match → List Crumb
  use_breadcrumbs [] = []
  use_breadcrumbs (match ∷ matches) =
      let rest = use_breadcrumbs matches in
      if match.not_found
      then crumb match (label (codes "Page Not Found")) ∷ []
      else push match match.breadcrumb match.param_id rest

  -- The variables of `RouteTitle` behind its loop.
  pub record Titling : Type 0 where
    pub resource : Option (Name × ℕ)
    pub actions : List Text

  abbrev pub titled : Titling → CrumbLabel → Titling
  titled s (named name id) = record { resource = some (name, id); actions = [] }
  titled s (label t) = record s { actions = s.actions ++ t ∷ [] }

  unfoldable pub titling : Titling → List Crumb → Titling
  titling s [] = s
  titling s (crumb ∷ crumbs) = titling (titled s crumb.content) crumbs

-- `array.at(-1)`
abbrev pub last {ℓ} : {A : Type ℓ} → List A → Option A
last [] = none
last (x ∷ []) = some x
last (x ∷ y ∷ xs) = last (y ∷ xs)

-- `texts.join(" - ")`
abbrev pub join : List Text → Text
join [] = []
join (t ∷ []) = t
join (t ∷ u ∷ ts) = t ++ codes " - " ++ join (u ∷ ts)

-- An empty title or name is none.
abbrev pub non_empty : Option Text → Option Text
non_empty none = none
non_empty (some t) = if is_empty t then none else some t

abbrev pub named_title : Option Text → List Text → Option Text
named_title none actions = none
named_title (some name) actions = some (join (name ∷ actions))

module _ (Name : Type 0) (name_of : Name → ℕ → Option Text) where
  -- What `RouteTitle` renders.
  abbrev pub title_of : Titling Name → Option Text
  title_of s = elim s.resource [
    | none ↦ non_empty (last s.actions)
    | some (name, id) ↦ named_title (non_empty (name_of name id)) s.actions
  ]

  unfoldable pub route_title : List (Crumb Name) → Option Text
  unfolding titling
  route_title crumbs = title_of (titling Name (record { resource = none; actions = [] }) crumbs)

-- Where the crumbs of the bar lead: the last one, and one without a path, is no link.
unfoldable pub crumb_links : {Name : Type 0} → List (Crumb Name) → List (Option Text)
crumb_links [] = []
crumb_links (crumb ∷ []) = none ∷ []
crumb_links (crumb ∷ next ∷ crumbs) =
    (if is_empty crumb.to then none else some crumb.to) ∷ crumb_links (next ∷ crumbs)
