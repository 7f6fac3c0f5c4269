-- ===== src/Paging.antt =====
-- web/src/lib/pagination.ts and `nonEmpty` of web/src/lib/utils.ts: page numbers and sizes, the
-- parameters that every list request shares, and the loop that reads all pages.
pub mod Params
pub mod Pages
use woodgate.Common.{
  leb, if◌then◌else◌, is_empty, Text, trim, ℕ, zero, suc, ◌+◌, ◌-◌, ◌/◌, ◌&&◌, Option, none, some,
  List, [], ◌∷◌, ◌++◌,
}
use woodgate.Common.Number.{Number, num, is_safe_integer, is_positive, is_at_most}
use woodgate.Common.Result.{Result, ok, ◌>>=◌}

abbrev pub default_page_size : ℕ
default_page_size = 50

abbrev pub max_page_size : ℕ
max_page_size = 1000

abbrev pub page_size_options : List ℕ
page_size_options = 25 ∷ 50 ∷ 100 ∷ 200 ∷ 500 ∷ max_page_size ∷ []

-- `null` and `undefined` are both `none`.
unfoldable pub non_empty : Option Text → Option Text
unfolding trim
non_empty none = none
non_empty (some value) = let trimmed = trim value in if is_empty trimmed then none else some trimmed

unfoldable pub normalize_page : Option Number → Number
normalize_page none = num 1
normalize_page (some value) = if is_safe_integer value && is_positive value then value else num 1

unfoldable pub normalize_page_size : Option Number → Number → Number
normalize_page_size none fallback = fallback
normalize_page_size (some value) fallback =
    if is_safe_integer value && is_positive value && is_at_most max_page_size value
    then value
    else fallback

-- `BaseListParams`: an absent field is `none`.
pub record BaseListParams : Type 0 where
  pub q : Option Text
  pub page : Option Number
  pub per_page : Option Number
  pub sort : Option Text

pub record BaseQuery : Type 0 where
  pub q : Option Text
  pub page : Number
  pub per_page : Number
  pub sort : Option Text

-- The option `defaultPerPage`, absent or a number.
unfoldable pub base_list_params : BaseListParams → Option Number → BaseQuery
unfolding non_empty normalize_page normalize_page_size
base_list_params params per_page_option =
    let default_per_page = normalize_page_size per_page_option (num default_page_size) in
    record {
      q = non_empty params.q;
      page = normalize_page params.page;
      per_page = normalize_page_size params.per_page default_per_page;
      sort = non_empty params.sort;
    }

-- The response of a list endpoint.
pub record Page {ℓ} (T : Type ℓ) : Type ℓ where
  pub count : ℕ
  pub items : List T

-- `Math.ceil(count / MAX_PAGE_SIZE)`
abbrev pub page_count : ℕ → ℕ
page_count count = (count + (max_page_size - 1)) / max_page_size

module _ {ℓ κ} {E : Type ℓ} {T : Type κ} (load_page : ℕ → ℕ → Result E (Page T)) where
  -- The loop, with the number of pages still to load; `page` is the next one.
  load_rest : ℕ → ℕ → List T → Result E (List T)
  load_rest zero page items = ok items
  load_rest (suc left) page items = do
    response ← load_page page max_page_size
    load_rest left (suc page) (items ++ response.items)

  pub collect_all_pages : Result E (List T)
  unfolding load_rest
  collect_all_pages = do
    first_page ← load_page 1 max_page_size
    let pages = page_count first_page.count
    if leb pages 1 then ok first_page.items else load_rest (pages - 1) 2 first_page.items
