-- ===== src/SearchInput/Merge.antt =====
-- web/src/features/resources/resource-comboboxes.tsx and features/directory/groups/group-picker.tsx:
-- the items that a picker offers, kept in a map by their id.
use woodgate.Common.{
  ◌==◌, ==_refl, if◌then◌else◌, Bool-cases, ℕ, ◌≡◌, refl, sym, ap, ◌∙◌, inl, inr, Bool, true, false,
  ◌||◌, Option, none, some, List, [], ◌∷◌, any, find, arith, or_else, some_or,
}

module _ {ℓ} {T : Type ℓ} (id : T → ℕ) where
  -- `items.set(item.id, item)`: an entry of that id is replaced where it stands.
  unfoldable pub map_set : T → List T → List T
  map_set item [] = item ∷ []
  map_set item (x ∷ xs) =
      let rest = map_set item xs in if id x == id item then item ∷ xs else x ∷ rest

  unfoldable pub set_all : List T → List T → List T
  set_all items [] = items
  set_all items (match ∷ matches) = set_all (map_set match items) matches

  -- `mergeResources`
  unfoldable pub merge_resources : Option T → List T → List T
  merge_resources none matches = set_all [] matches
  merge_resources (some selected) matches = set_all (map_set selected []) matches

  -- `current` of `LocationCombobox`
  unfoldable pub current_item : Option T → List T → Option T
  current_item none items = none
  current_item (some value) items = find (λ item. id item == id value) items

  -- `mergeGroups` of the picker's two sets
  unfoldable pub merge_groups : List T → List T → List T
  merge_groups value matches = set_all (set_all [] value) matches

  -- The item of an id, and the last one of a list.
  abbrev pub item_of : ℕ → List T → Option T
  item_of k items = find (λ item. id item == k) items

  abbrev pub latest : ℕ → List T → Option T
  latest k [] = none
  latest k (item ∷ items) = or_else (latest k items) (if id item == k then some item else none)

  abbrev pub has : ℕ → List T → Bool
  has k items = any (λ item. id item == k) items

  abbrev pub IsDistinct : List T → Type 0
  IsDistinct [] = Unit
  IsDistinct (x ∷ xs) = (has (id x) xs ≡ false) × IsDistinct xs

  has-set :
      (k : ℕ) (item : T) (items : List T)
      → has k (map_set item items) ≡ ((id item == k) || has k items)
  unfolding map_set
  has-set k item [] = refl
  has-set k item (x ∷ xs) = ground (arith, has-set k item xs)

  item_of-set :
      (k : ℕ) (item : T) (items : List T)
      → item_of k (map_set item items) ≡ (if id item == k then some item else item_of k items)
  unfolding map_set
  item_of-set k item [] = refl
  item_of-set k item (x ∷ xs) = ground (arith, item_of-set k item xs)

  map_set-IsDistinct :
      (item : T) (items : List T) → IsDistinct items → IsDistinct (map_set item items)
  unfolding map_set
  map_set-IsDistinct item [] h = (refl, tt)
  map_set-IsDistinct item (x ∷ xs) (new, h) = elim (Bool-cases (id x == id item)) [
    | inl same ↦ rw same (ground (arith, new), h)
    | inr differ ↦
        rw differ (has-set (id x) item xs ∙ ground (arith, new), map_set-IsDistinct item xs h)
  ]

  set_all-IsDistinct :
      (items matches : List T) → IsDistinct items → IsDistinct (set_all items matches)
  unfolding set_all
  set_all-IsDistinct items [] h = h
  set_all-IsDistinct items (match ∷ matches) h =
      set_all-IsDistinct (map_set match items) matches (map_set-IsDistinct match items h)

  or_else_assoc : (a b c : Option T) → or_else (or_else a b) c ≡ or_else a (or_else b c)
  or_else_assoc none b c = refl
  or_else_assoc (some x) b c = refl

  or_else-none : (a : Option T) → or_else a none ≡ a
  or_else-none none = refl
  or_else-none (some x) = refl

  or_else-some : (a : Option T) (b : T) → or_else a (some b) ≡ some (some_or a b)
  or_else-some none b = refl
  or_else-some (some x) b = refl

  if-or_else :
      (b : Bool) (item : T) (o : Option T)
      → (if b then some item else o) ≡ or_else (if b then some item else none) o
  if-or_else true item o = refl
  if-or_else false item o = refl

  item_of-set_all :
      (k : ℕ) (items matches : List T)
      → item_of k (set_all items matches) ≡ or_else (latest k matches) (item_of k items)
  unfolding set_all
  item_of-set_all k items [] = refl
  item_of-set_all k items (match ∷ matches) =
      item_of-set_all k (map_set match items) matches
      ∙ ap (or_else (latest k matches))
          (item_of-set k match items ∙ if-or_else (id match == k) match _)
      ∙ sym (or_else_assoc (latest k matches) _ _)

  -- A picker of groups offers no id twice, and for each id the last group of that id, of the matches
  -- if one of them has it and else of those selected.
  pub merge_groups-latest :
      (value matches : List T) (k : ℕ)
      → IsDistinct (merge_groups value matches)
        × (item_of k (merge_groups value matches) ≡ or_else (latest k matches) (latest k value))
  unfolding merge_groups
  merge_groups-latest value matches k = (
    set_all-IsDistinct _ matches (set_all-IsDistinct [] value tt),
    item_of-set_all k _ matches
        ∙ ap (or_else (latest k matches))
            (item_of-set_all k [] value ∙ or_else-none (latest k value)),
  )

  -- The items that a location combobox offers have no id twice. The value that is selected is always
  -- among them: as the last match of its id, and if no match has its id, as itself.
  pub current_item-selected :
      (selected : T) (matches : List T)
      → IsDistinct (merge_resources (some selected) matches)
        × (current_item (some selected) (merge_resources (some selected) matches)
            ≡ some (some_or (latest (id selected) matches) selected))
  unfolding merge_resources current_item
  current_item-selected selected matches = (
    set_all-IsDistinct _ matches (map_set-IsDistinct selected [] tt),
    item_of-set_all (id selected) _ matches
        ∙ ap (or_else (latest (id selected) matches))
            (item_of-set (id selected) selected [] ∙ rw (==_refl (id selected)))
        ∙ or_else-some (latest (id selected) matches) selected,
  )
