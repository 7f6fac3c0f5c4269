-- ===== src/Queries/Client.antt =====
-- The query client of @tanstack/react-query, as far as its documentation speaks of the calls that the
-- mutations make, and those calls run against it.
use woodgate.Common.{
  All, ℕ, ◌≡◌, refl, ◌∙◌, ◌⊎◌, inl, inr, Bool, true, false, not, ◌&&◌, none, some, List, [], ◌∷◌,
  ◌++◌,
}
use woodgate.Queries.{
  QueryKey, InvalidateFilters, Call, set_query_data, invalidate, clear, fetch_query, renew_session,
  toast, navigate,
}

-- The filters select a query by its key and their predicate.
abbrev pub selects : (QueryKey → QueryKey → Bool) → InvalidateFilters → QueryKey → Bool
selects partial_match_key f key =
    partial_match_key key f.query_key && elim f.predicate [ none ↦ true | some p ↦ p key ]

pub record QueryClient : Type 1 where
  pub Cache : Type 0
  pub partial_match_key : QueryKey → QueryKey → Bool
  -- Whether there is an entry, whether it is stale, and how often it was fetched.
  pub holds : QueryKey → Cache → Bool
  pub is_stale : QueryKey → Cache → Bool
  pub fetches : QueryKey → Cache → ℕ
  pub invalidate_queries : InvalidateFilters → Cache → Cache
  pub set_data : QueryKey → Cache → Cache
  pub clear_all : Cache → Cache
  pub fetch : QueryKey → Cache → Cache
  -- A key matches each of its prefixes.
  pub match_prefix : (prefix rest : QueryKey) → partial_match_key (prefix ++ rest) prefix ≡ true
  -- Invalidation marks the selected entries, unmarks none and drops none.
  pub invalidated :
      (f : InvalidateFilters) (k : QueryKey) (c : Cache)
      → holds k c ≡ true
      → selects partial_match_key f k ≡ true
      → is_stale k (invalidate_queries f c) ≡ true
  pub stays_stale :
      (f : InvalidateFilters) (k : QueryKey) (c : Cache)
      → is_stale k c ≡ true
      → is_stale k (invalidate_queries f c) ≡ true
  pub stays_held :
      (f : InvalidateFilters) (k : QueryKey) (c : Cache)
      → holds k c ≡ true
      → holds k (invalidate_queries f c) ≡ true
  -- It fetches only what it selects, and nothing with `refetchType: "none"`.
  pub not_fetched :
      (f : InvalidateFilters) (k : QueryKey) (c : Cache)
      → (selects partial_match_key f k && not f.refetch_none) ≡ false
      → fetches k (invalidate_queries f c) ≡ fetches k c
  -- Writing data drops no entry and fetches nothing, nor does a fetch drop one; `clear` drops all.
  pub set_held : (j k : QueryKey) (c : Cache) → holds k c ≡ true → holds k (set_data j c) ≡ true
  pub set_not_fetched : (j k : QueryKey) (c : Cache) → fetches k (set_data j c) ≡ fetches k c
  pub fetch_held : (j k : QueryKey) (c : Cache) → holds k c ≡ true → holds k (fetch j c) ≡ true
  pub cleared : (k : QueryKey) (c : Cache) → holds k (clear_all c) ≡ false

module _ (client : QueryClient) where
  open client use {
    Cache, partial_match_key, holds, is_stale, fetches, invalidate_queries, set_data, clear_all,
    fetch,
  }

  abbrev pub run_call : Call → Cache → Cache
  run_call (set_query_data key) c = set_data key c
  run_call (invalidate f) c = invalidate_queries f c
  run_call clear c = clear_all c
  run_call (fetch_query key) c = fetch key c
  run_call renew_session c = c
  run_call (toast title) c = c
  run_call navigate c = c

  abbrev pub run_calls : List Call → Cache → Cache
  run_calls [] c = c
  run_calls (call ∷ calls) c = run_calls calls (run_call call c)

  -- Calls that leave a stale entry stale.
  abbrev pub IsQuiet : Call → Type 0
  IsQuiet (set_query_data key) = ⊥
  IsQuiet clear = ⊥
  IsQuiet (fetch_query key) = ⊥
  IsQuiet _ = Unit

  abbrev pub NotClear : Call → Type 0
  NotClear clear = ⊥
  NotClear _ = Unit

  -- One of the calls marks the key, and those behind it leave it marked.
  abbrev pub Marks : QueryKey → List Call → Type 0
  Marks k [] = ⊥
  Marks k (invalidate f ∷ calls) =
      ((selects partial_match_key f k ≡ true) × All IsQuiet calls) ⊎ Marks k calls
  Marks k (call ∷ calls) = NotClear call × Marks k calls

  quiet-stale :
      (k : QueryKey) (calls : List Call) (c : Cache)
      → All IsQuiet calls
      → is_stale k c ≡ true
      → is_stale k (run_calls calls c) ≡ true
  quiet-stale k [] c q h = h
  quiet-stale k (invalidate f ∷ calls) c (_, q) h =
      quiet-stale k calls (invalidate_queries f c) q (client.stays_stale f k c h)
  quiet-stale k (renew_session ∷ calls) c (_, q) h = quiet-stale k calls c q h
  quiet-stale k (toast t ∷ calls) c (_, q) h = quiet-stale k calls c q h
  quiet-stale k (navigate ∷ calls) c (_, q) h = quiet-stale k calls c q h
  quiet-stale k (set_query_data j ∷ calls) c (x, q) h = absurd x
  quiet-stale k (clear ∷ calls) c (x, q) h = absurd x
  quiet-stale k (fetch_query j ∷ calls) c (x, q) h = absurd x

  pub Marks-stale :
      (k : QueryKey) (calls : List Call) (c : Cache)
      → Marks k calls
      → holds k c ≡ true
      → is_stale k (run_calls calls c) ≡ true
  Marks-stale k [] c m h = absurd m
  Marks-stale k (invalidate f ∷ calls) c (inl (e, q)) h =
      quiet-stale k calls (invalidate_queries f c) q (client.invalidated f k c h e)
  Marks-stale k (invalidate f ∷ calls) c (inr m) h =
      Marks-stale k calls (invalidate_queries f c) m (client.stays_held f k c h)
  Marks-stale k (set_query_data j ∷ calls) c (_, m) h =
      Marks-stale k calls (set_data j c) m (client.set_held j k c h)
  Marks-stale k (clear ∷ calls) c (x, m) h = absurd x
  Marks-stale k (fetch_query j ∷ calls) c (_, m) h =
      Marks-stale k calls (fetch j c) m (client.fetch_held j k c h)
  Marks-stale k (renew_session ∷ calls) c (_, m) h = Marks-stale k calls c m h
  Marks-stale k (toast t ∷ calls) c (_, m) h = Marks-stale k calls c m h
  Marks-stale k (navigate ∷ calls) c (_, m) h = Marks-stale k calls c m h

  -- Calls that fetch nothing for a key.
  abbrev pub NotFetching : QueryKey → Call → Type 0
  NotFetching k (invalidate f) = (selects partial_match_key f k && not f.refetch_none) ≡ false
  NotFetching k (fetch_query j) = ⊥
  NotFetching k clear = ⊥
  NotFetching k _ = Unit

  pub NotFetching-fetches :
      (k : QueryKey) (calls : List Call) (c : Cache)
      → All (NotFetching k) calls
      → fetches k (run_calls calls c) ≡ fetches k c
  NotFetching-fetches k [] c h = refl
  NotFetching-fetches k (invalidate f ∷ calls) c (e, h) =
      NotFetching-fetches k calls (invalidate_queries f c) h ∙ client.not_fetched f k c e
  NotFetching-fetches k (set_query_data j ∷ calls) c (_, h) =
      NotFetching-fetches k calls (set_data j c) h ∙ client.set_not_fetched j k c
  NotFetching-fetches k (clear ∷ calls) c (x, h) = absurd x
  NotFetching-fetches k (fetch_query j ∷ calls) c (x, h) = absurd x
  NotFetching-fetches k (renew_session ∷ calls) c (_, h) = NotFetching-fetches k calls c h
  NotFetching-fetches k (toast t ∷ calls) c (_, h) = NotFetching-fetches k calls c h
  NotFetching-fetches k (navigate ∷ calls) c (_, h) = NotFetching-fetches k calls c h
