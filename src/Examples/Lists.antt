-- ===== src/Examples/Lists.antt =====
-- Concrete list requests, responses of the API and uploads of the mock.
use woodgate.Common.{
  ◌==◌, if◌then◌else◌, take, drop, Text, codes, ℕ, suc, ◌+◌, ◌-◌, ◌*◌, ◌<◌, ◌≡◌, refl, inr, false,
  List, [], ◌∷◌, arith,
}
use woodgate.Common.Result.{Result, ok, err}
use woodgate.Paging.{Page, collect_all_pages}
use woodgate.Paging.Pages.{Serves, collect_all_pages-served, collect_all_pages-fails}

abbrev three : List ℕ
three = 7 ∷ 8 ∷ 9 ∷ []

abbrev serve_three : ℕ → ℕ → Result Text (Page ℕ)
serve_three page size =
    ok (record { count = 3; items = take size (drop ((page - 1) * size) three) })

succ_pred : (page : ℕ) → suc page - 1 ≡ page
succ_pred page = omega arith

serve_three-Serves : Serves serve_three three
serve_three-Serves page = rw (succ_pred page)

collect_all_pages-served_example : collect_all_pages serve_three ≡ ok three
collect_all_pages-served_example = collect_all_pages-served serve_three three serve_three-Serves

-- The second of two pages is not to be had.
abbrev half_served : ℕ → ℕ → Result Text (Page ℕ)
half_served page size =
    if page == 2 then err (codes "offline") else ok (record { count = 1500; items = three })

first_only : (j : ℕ) → j < 1 → (1 + j == 2) ≡ false
first_only j small = ground arith

collect_all_pages-fails_example : collect_all_pages half_served ≡ err (codes "offline")
collect_all_pages-fails_example =
    collect_all_pages-fails half_served (codes "offline")
      (λ page. record { count = 1500; items = three }) 1 (inr (omega arith))
      (λ j small. rw (first_only j (omega arith))) refl
