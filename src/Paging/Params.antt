-- ===== src/Paging/Params.antt =====
-- What the shared list parameters guarantee to a list endpoint and to the cache keys.
use woodgate.Common.{
  Bool-cases, Text, trim_idem, ℕ, ◌≤◌, ◌≡◌, refl, inl, inr, true, ◌&&◌, Option, none, some, arith,
}
use woodgate.Common.Number.{
  Number, whole, other, pos, negsuc, num, is_safe_integer, is_positive, is_at_most, max_safe,
  IsCounting,
}
use woodgate.Paging.{
  BaseListParams, BaseQuery, base_list_params, non_empty, normalize_page, normalize_page_size,
  default_page_size, max_page_size,
}

-- A page size that a list endpoint accepts.
pub record IsPageSize (v : Number) : Type 0 where
  pub value : ℕ
  pub is_value : v ≡ num value
  pub at_least : 1 ≤ value
  pub at_most : value ≤ max_page_size

IsCounting-of_test : (v : Number) → (is_safe_integer v && is_positive v) ≡ true → IsCounting v
IsCounting-of_test (whole (pos n)) h = record {
  value = n;
  is_value = refl;
  at_least = ground arith;
  at_most = ground arith;
}
IsCounting-of_test (whole (negsuc n)) h = ground arith
IsCounting-of_test (other t) h = cc

IsPageSize-of_test :
    (v : Number)
    → (is_safe_integer v && is_positive v && is_at_most max_page_size v) ≡ true
    → IsPageSize v
IsPageSize-of_test (whole (pos n)) h = record {
  value = n;
  is_value = refl;
  at_least = ground arith;
  at_most = ground arith;
}
IsPageSize-of_test (whole (negsuc n)) h = ground arith
IsPageSize-of_test (other t) h = cc

pub num-IsCounting : (n : ℕ) → 1 ≤ n → n ≤ max_safe → IsCounting (num n)
num-IsCounting n low high = record { value = n; is_value = refl; at_least = low; at_most = high }

pub num-IsPageSize : (n : ℕ) → 1 ≤ n → n ≤ max_page_size → IsPageSize (num n)
num-IsPageSize n low high = record { value = n; is_value = refl; at_least = low; at_most = high }

pub normalize_page-IsCounting : (value : Option Number) → IsCounting (normalize_page value)
unfolding normalize_page
normalize_page-IsCounting none = num-IsCounting 1 (omega arith) (omega arith)
normalize_page-IsCounting (some v) = elim (Bool-cases (is_safe_integer v && is_positive v)) [
  | inl e ↦ rw e (IsCounting-of_test v e)
  | inr e ↦ rw e (num-IsCounting 1 (omega arith) (omega arith))
]

pub normalize_page_size-IsPageSize :
    (value : Option Number) (fallback : Number)
    → IsPageSize fallback
    → IsPageSize (normalize_page_size value fallback)
unfolding normalize_page_size
normalize_page_size-IsPageSize none fallback h = h
normalize_page_size-IsPageSize (some v) fallback h =
    elim (Bool-cases (is_safe_integer v && is_positive v && is_at_most max_page_size v)) [
      | inl e ↦ rw e (IsPageSize-of_test v e)
      | inr e ↦ rw e h
    ]

-- A valid page or page size is left as it is.
pub normalize_page_of_IsCounting : (v : Number) → IsCounting v → normalize_page (some v) ≡ v
unfolding normalize_page
normalize_page_of_IsCounting v c = rw c.is_value (ground arith)

pub normalize_page_size_of_IsPageSize :
    (v fallback : Number) → IsPageSize v → normalize_page_size (some v) fallback ≡ v
unfolding normalize_page_size
normalize_page_size_of_IsPageSize v fallback c = rw c.is_value (ground arith)

pub non_empty_idem : (value : Option Text) → non_empty (non_empty value) ≡ non_empty value
unfolding non_empty
non_empty_idem none = refl
non_empty_idem (some value) = ground (arith, trim_idem value)

-- What a list endpoint is sent: a positive page, a size within the endpoint's limit, and no search
-- or sort text that is empty or padded.
pub record IsListQuery (b : BaseQuery) : Type 0 where
  pub page : IsCounting b.page
  pub per_page : IsPageSize b.per_page
  pub q : non_empty b.q ≡ b.q
  pub sort : non_empty b.sort ≡ b.sort

-- Whatever the caller passes, `baseListParams` returns a well-formed list query: the page is a safe
-- integer of at least 1, the page size lies between 1 and 1000, and the texts are trimmed or absent.
pub base_list_params-IsListQuery :
    (params : BaseListParams) (option : Option Number)
    → IsListQuery (base_list_params params option)
unfolding base_list_params
base_list_params-IsListQuery params option = record {
  page = normalize_page-IsCounting params.page;
  per_page =
      normalize_page_size-IsPageSize params.per_page _
        (normalize_page_size-IsPageSize option _ (num-IsPageSize 50 (omega arith) (omega arith)));
  q = non_empty_idem params.q;
  sort = non_empty_idem params.sort;
}

-- A query passed on as parameters.
abbrev pub as_params : BaseQuery → BaseListParams
as_params b = record { q = b.q; page = some b.page; per_page = some b.per_page; sort = b.sort }

as_params-fixed :
    (b : BaseQuery) (option : Option Number)
    → IsListQuery b
    → base_list_params (as_params b) option ≡ b
unfolding base_list_params
as_params-fixed b option w = λ i. record {
  q = w.q i;
  page = normalize_page_of_IsCounting b.page w.page i;
  per_page =
      normalize_page_size_of_IsPageSize b.per_page
        (normalize_page_size option (num default_page_size)) w.per_page i;
  sort = w.sort i;
}

-- Normalising the parameters of a list request again changes nothing, under any default page size.
pub base_list_params_idem :
    (params : BaseListParams) (option again : Option Number)
    → base_list_params (as_params (base_list_params params option)) again
      ≡ base_list_params params option
base_list_params_idem params option again =
    as_params-fixed (base_list_params params option) again
      (base_list_params-IsListQuery params option)
