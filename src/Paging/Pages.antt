-- ===== src/Paging/Pages.antt =====
-- Reading all pages of a list.
use woodgate.Common.{
  leb, Bool-cases, length, take, drop, ℕ, zero, suc, ◌+◌, ◌-◌, ◌*◌, ◌≤◌, ◌<◌, ◌≡◌, refl, ap, ◌∙◌,
  ◌⊎◌, inl, inr, false, List, [], ◌∷◌, ◌++◌, append-nil, append_assoc, arith,
}
use woodgate.Common.Result.{Result, ok, err}
use native.Mathlib.Nat.{zero-add, suc-add, add-zero, add-suc}
use woodgate.Paging.{Page, page_count, collect_all_pages, load_rest, max_page_size}

module _ {ℓ} {T : Type ℓ} where
  take-nil : (n : ℕ) → take {A = T} n [] ≡ []
  take-nil zero = refl
  take-nil (suc n) = refl

  drop-nil : (n : ℕ) → drop {A = T} n [] ≡ []
  drop-nil zero = refl
  drop-nil (suc n) = refl

  take-add : (m n : ℕ) (xs : List T) → take m xs ++ take n (drop m xs) ≡ take (m + n) xs
  take-add zero n xs = rw zero-add
  take-add (suc m) n [] = rw (take-nil n, take-nil (suc m + n))
  take-add (suc m) n (x ∷ xs) = rw suc-add (ap (λ r. x ∷ r) (take-add m n xs))

  drop-drop : (m n : ℕ) (xs : List T) → drop n (drop m xs) ≡ drop (m + n) xs
  drop-drop zero n xs = rw zero-add
  drop-drop (suc m) n [] = rw (drop-nil n, drop-nil (suc m + n))
  drop-drop (suc m) n (x ∷ xs) = rw suc-add (drop-drop m n xs)

  -- A page, and the pages behind it.
  page_step :
      (left page : ℕ) (xs : List T)
      → take max_page_size (drop (page * max_page_size) xs)
          ++ take (left * max_page_size) (drop (suc page * max_page_size) xs)
        ≡ take (suc left * max_page_size) (drop (page * max_page_size) xs)
  page_step left page xs =
      let next : suc page * max_page_size ≡ page * max_page_size + max_page_size = omega arith in
      let total : suc left * max_page_size ≡ max_page_size + left * max_page_size = omega arith in
      rw (next, total, ← drop-drop (page * max_page_size) max_page_size xs)
        (take-add max_page_size (left * max_page_size) (drop (page * max_page_size) xs))

  take_all : (n : ℕ) (xs : List T) → length xs ≤ n → take n xs ≡ xs
  take_all n [] h = take-nil n
  take_all zero (x ∷ xs) h = absurd (omega arith)
  take_all (suc n) (x ∷ xs) h = ap (λ r. x ∷ r) (take_all n xs (omega arith))

two_steps : (j : ℕ) → 2 + j ≡ 1 + suc j
two_steps j = omega arith

module _ {ℓ κ} {E : Type ℓ} {T : Type κ} (load_page : ℕ → ℕ → Result E (Page T)) where
  -- The endpoint serves the pages of one list, which does not change between the requests.
  abbrev pub Serves : List T → Type (ℓ ⊔ κ)
  Serves xs =
      (page : ℕ)
      → load_page (suc page) max_page_size
        ≡ ok (record {
          count = length xs;
          items = take max_page_size (drop (page * max_page_size) xs);
        })

  load_rest-served :
      (xs : List T)
      → Serves xs
      → (left page : ℕ) (items : List T)
      → load_rest load_page left (suc page) items
        ≡ ok (items ++ take (left * max_page_size) (drop (page * max_page_size) xs))
  unfolding load_rest
  load_rest-served xs served zero page items = rw append-nil
  load_rest-served xs served (suc left) page items = rw (served page) (
      load_rest-served xs served left (suc page) _
      ∙ ap ok (append_assoc items _ _ ∙ ap (λ r. items ++ r) (page_step left page xs)))

  -- Against an endpoint that serves the pages of a list, of any length, all of the list is returned,
  -- in order and without repetition.
  pub collect_all_pages-served : (xs : List T) → Serves xs → collect_all_pages load_page ≡ ok xs
  unfolding collect_all_pages
  collect_all_pages-served xs served =
      rw (served 0) (elim (Bool-cases (leb (page_count (length xs)) 1)) [
        | inl few ↦ rw few (ap ok (take_all max_page_size xs (ground arith)))
        | inr many ↦ rw many (
            load_rest-served xs served (page_count (length xs) - 1) 1 _
            ∙ ap ok (
                page_step (page_count (length xs) - 1) 0 xs
                ∙ take_all (suc (page_count (length xs) - 1) * max_page_size) xs (ground arith)))
      ])

  load_rest-fails :
      (e : E) (respond : ℕ → Page T) (left page k : ℕ) (items : List T)
      → k < left
      → ((j : ℕ) → j < k → load_page (page + j) max_page_size ≡ ok (respond (page + j)))
      → load_page (page + k) max_page_size ≡ err e
      → load_rest load_page left page items ≡ err e
  unfolding load_rest
  load_rest-fails e respond zero page k items h before fails = absurd (omega arith)
  load_rest-fails e respond (suc left) page zero items h before fails =
      let here : load_page page max_page_size ≡ err e = rw add-zero at fails in rw here
  load_rest-fails e respond (suc left) page (suc k) items h before fails =
      let here : load_page page max_page_size ≡ ok (respond page) =
        (rw add-zero at (before 0 (omega arith))) in
      rw here (
        load_rest-fails e respond left (suc page) k _ (omega arith)
          (λ j small. rw (suc-add, ← add-suc) (before (suc j) (omega arith)))
          (rw (suc-add, ← add-suc) fails))

  -- The first page that fails to load, among the pages that the first response calls for, decides
  -- the result: its error is thrown, and no items are returned.
  pub collect_all_pages-fails :
      (e : E) (respond : ℕ → Page T) (k : ℕ)
      → (k ≡ 0) ⊎ (k < page_count (respond 1).count)
      → ((j : ℕ) → j < k → load_page (1 + j) max_page_size ≡ ok (respond (1 + j)))
      → load_page (1 + k) max_page_size ≡ err e
      → collect_all_pages load_page ≡ err e
  unfolding collect_all_pages
  collect_all_pages-fails e respond zero wanted before fails = rw fails
  collect_all_pages-fails e respond (suc k) wanted before fails =
      let few : leb (page_count (respond 1).count) 1 ≡ false = ground arith in
      rw (before 0 (omega arith), few)
        (load_rest-fails e respond (page_count (respond 1).count - 1) 2 k (respond 1).items
          (ground arith) (λ j small. rw (two_steps j) (before (suc j) (omega arith)))
          (rw (two_steps k) fails))
