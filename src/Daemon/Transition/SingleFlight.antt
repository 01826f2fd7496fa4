-- ===== src/Daemon/Transition/SingleFlight.antt =====
-- `on_query` over any number of requests: a repository has at most one refresh in flight.
use merge_ready.Prelude.{
  ℕ, ◌+◌, ◌≤◌, ◌≡◌, refl, eqb, eqb_iff, Bool, true, false, Option, none, some, List, [], ◌∷◌, ◌++◌,
  if◌then◌else◌, is_some_and, get, arith, inl, inr, ◌⊎◌,
}
use merge_ready.Daemon.Entry.{CacheEntryState, is_refreshing}
use merge_ready.Daemon.Policy.{RefreshPolicy}
use merge_ready.Daemon.Store.{
  RepoId, CacheStore, QueryEvent, Effect, spawn_refresh, emit_output, record_expired, enter_backoff,
}
use merge_ready.Daemon.Transition.{query_entry, on_query}
use merge_ready.Daemon.Transition.Query.{
  refresh_due, queried, on_query_effects, get-on_query, marked_at, still_refreshing,
}

-- How many refreshes of `k` the effects start.
unfoldable pub spawns : RepoId → List Effect → ℕ
spawns k [] = 0
spawns k (spawn_refresh j cwd ∷ es) = (if eqb j k then 1 else 0) + spawns k es
spawns k (emit_output t ∷ es) = spawns k es
spawns k (record_expired j ∷ es) = spawns k es
spawns k (enter_backoff t ∷ es) = spawns k es

pub spawns-append :
    (k : RepoId) (xs ys : List Effect) → spawns k (xs ++ ys) ≡ spawns k xs + spawns k ys
unfolding spawns
spawns-append k [] ys = omega arith
spawns-append k (spawn_refresh j cwd ∷ es) ys = omega (arith, spawns-append k es ys)
spawns-append k (emit_output t ∷ es) ys = spawns-append k es ys
spawns-append k (record_expired j ∷ es) ys = spawns-append k es ys
spawns-append k (enter_backoff t ∷ es) ys = spawns-append k es ys

abbrev pub busy : RepoId → CacheStore → Bool
busy k store = is_some_and (get k store.entries) is_refreshing

-- The effects of a list of requests, one after the other.
unfoldable pub serve :
    RefreshPolicy → CacheStore → List (RepoId × QueryEvent) → CacheStore × List Effect
serve policy store [] = (store, [])
serve policy store ((repo_id, event) ∷ rest) =
    let (store', effects) = on_query store event repo_id policy in
    let (last, later) = serve policy store' rest in (last, effects ++ later)

module _ (policy : RefreshPolicy) (k : RepoId) where
  due_of_busy :
      (event : QueryEvent) (o : Option CacheEntryState)
      → is_some_and o is_refreshing ≡ true
      → refresh_due event policy o ≡ false
  due_of_busy event none h = cc
  due_of_busy event (some e) h = ground arith

  query_spawns :
      (store : CacheStore) (event : QueryEvent) (j : RepoId)
      → spawns k (on_query store event j policy).1
        ≡ (if refresh_due event policy (get j store.entries) then (if eqb j k then 1 else 0) else 0)
  unfolding spawns
  query_spawns store event j = rw (on_query_effects store event j policy) (ground arith)

  busy-queried :
      (store : CacheStore) (event : QueryEvent) (j : RepoId)
      → busy k (queried store event j policy) ≡ (
          if eqb j k
          then is_refreshing (query_entry j event policy (get j store.entries)).0
          else busy k store)
  busy-queried store event j = rw (get-on_query store event j policy k) (ground arith)

  refreshing_at :
      (event : QueryEvent) (j : RepoId) (o : Option CacheEntryState)
      → is_some_and o is_refreshing ≡ true
      → is_refreshing (query_entry j event policy o).0 ≡ true
  refreshing_at event j none h = cc
  refreshing_at event j (some e) h = still_refreshing event j policy e h

  pub busy_stays :
      (store : CacheStore) (event : QueryEvent) (j : RepoId)
      → busy k store ≡ true
      → (spawns k (on_query store event j policy).1 ≡ 0)
        × (busy k (queried store event j policy) ≡ true)
  busy_stays store event j h = ground (
    arith,
    query_spawns store event j,
    busy-queried store event j,
    due_of_busy event (get j store.entries),
    refreshing_at event j (get j store.entries),
    eqb_iff j k,
  )

  pub one_spawn_busy :
      (store : CacheStore) (event : QueryEvent) (j : RepoId)
      → (spawns k (on_query store event j policy).1 ≡ 0)
        ⊎ ((spawns k (on_query store event j policy).1 ≡ 1)
            × (busy k (queried store event j policy) ≡ true))
  one_spawn_busy store event j = ground (
    arith,
    query_spawns store event j,
    busy-queried store event j,
    marked_at event j policy (get j store.entries),
  )

  busy-serve :
      (store : CacheStore) (requests : List (RepoId × QueryEvent))
      → busy k store ≡ true
      → spawns k (serve policy store requests).1 ≡ 0
  unfolding serve spawns
  busy-serve store [] h = refl
  busy-serve store ((j, event) ∷ rest) h =
      let (none_now, still) = busy_stays store event j h in
      rw (spawns-append, none_now, busy-serve (queried store event j policy) rest still) refl

  -- From any store, any queries of any repositories, served one after the other with no result in
  -- between, start at most one refresh of a repository.
  pub single_flight :
      (store : CacheStore) (requests : List (RepoId × QueryEvent))
      → spawns k (serve policy store requests).1 ≤ 1
  unfolding serve spawns
  single_flight store [] = omega arith
  single_flight store ((j, event) ∷ rest) = elim (one_spawn_busy store event j) [
    | inl idle ↦
        rw (spawns-append, idle) (omega (arith, single_flight (queried store event j policy) rest))
    | inr (once, now_busy) ↦
        rw (spawns-append, once, busy-serve (queried store event j policy) rest now_busy)
          (omega arith)
  ]
