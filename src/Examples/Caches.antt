-- ===== src/Examples/Caches.antt =====
-- A small query client, and the app's queries in its cache.
use woodgate.Common.{
  ◌==◌, if◌then◌else◌, ==_refl, ℕ, ◌+◌, ◌≡◌, refl, Bool, true, false, not, ◌&&◌, ◌||◌, [], ◌∷◌,
  ◌++◌, arith, str_eq, eq_refl,
}
use woodgate.Queries.{QueryKey, KeyPart, word, id, params, InvalidateFilters}
use woodgate.Queries.Resources
use woodgate.Queries.Resources.{station_detail_key}
use woodgate.Queries.Client.{selects, QueryClient, run_calls}
use woodgate.Queries.Changes.{station_deleted}
use woodgate.Queries.Freshness.{on_success, deletion-fetches}
use woodgate.Queries.App
use woodgate.Queries.App.{AppQuery, options, options-key_injective}

-- Parameter objects all match: the client is coarser than it need be.
abbrev part_matches : KeyPart → KeyPart → Bool
part_matches (word v) (word w) = str_eq v w
part_matches (id m) (id n) = m == n
part_matches (params p) (params q) = true
part_matches _ _ = false

abbrev prefix_matches : QueryKey → QueryKey → Bool
prefix_matches key [] = true
prefix_matches [] (p ∷ prefix) = false
prefix_matches (k ∷ key) (p ∷ prefix) = part_matches k p && prefix_matches key prefix

part_matches_refl : (p : KeyPart) → part_matches p p ≡ true
part_matches_refl (word v) = eq_refl v
part_matches_refl (id n) = ==_refl n
part_matches_refl (params p) = refl

prefix_matches-append : (prefix rest : QueryKey) → prefix_matches (prefix ++ rest) prefix ≡ true
prefix_matches-append [] rest = refl
prefix_matches-append (p ∷ prefix) rest =
    rw (part_matches_refl p) (prefix_matches-append prefix rest)

record Entries : Type 0 where
  held : QueryKey → Bool
  stale : QueryKey → Bool
  fetched : QueryKey → ℕ

abbrev invalidate_entries : InvalidateFilters → Entries → Entries
invalidate_entries f c = record c {
  stale = λ k. c.stale k || (c.held k && selects prefix_matches f k);
  fetched = λ k.
      if c.held k && selects prefix_matches f k && not f.refetch_none
      then c.fetched k + 1
      else c.fetched k;
}

abbrev write_entry : QueryKey → Entries → Entries
write_entry j c = record c { held = λ k. prefix_matches j k || c.held k }

abbrev client : QueryClient
client = record {
  Cache = Entries;
  partial_match_key = prefix_matches;
  holds = λ k c. Entries.held c k;
  is_stale = λ k c. Entries.stale c k;
  fetches = λ k c. Entries.fetched c k;
  invalidate_queries = invalidate_entries;
  set_data = write_entry;
  clear_all = λ c. record { held = λ k. false; stale = λ k. false; fetched = Entries.fetched c };
  fetch = write_entry;
  match_prefix = prefix_matches-append;
  invalidated = λ f k c h s. ground arith;
  stays_stale = λ f k c h. ground arith;
  stays_held = λ f k c h. h;
  not_fetched = λ f k c h. ground arith;
  set_held = λ j k c h. ground arith;
  set_not_fetched = λ j k c. refl;
  fetch_held = λ j k c h. ground arith;
  cleared = λ k c. refl;
}

abbrev full : Entries
full = record { held = λ k. true; stale = λ k. false; fetched = λ k. 1 }

abbrev station : AppQuery
station = App.station 4

deletion-fetches_example :
    Entries.fetched
      (run_calls client (on_success prefix_matches (station_deleted 4)) full)
      (station_detail_key 4)
    ≡ 1
deletion-fetches_example =
    deletion-fetches client (station_deleted 4) (station_detail_key 4) (station_detail_key 4) full
      refl refl

options-key_injective_example : (options station).request ≡ (options station).request
options-key_injective_example = options-key_injective station station refl
