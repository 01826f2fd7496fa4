-- ===== src/Daemon/Transition/Query.antt =====
-- `on_query`: the reply, and when a refresh is started.
use merge_ready.Prelude.{
  ◌≡◌, refl, eqb, Text, Bool, true, false, not, ◌&&◌, Option, none, some, [], ◌∷◌, if◌then◌else◌,
  get, get-insert, arith,
}
use merge_ready.Daemon.Entry.{
  CacheEntryState, has_fetched, is_refreshing, with_record_query, with_mark_refreshing,
  with_reset_cold_count, new_loading,
}
use merge_ready.Daemon.Freshness.{is_fresh}
use merge_ready.Daemon.Policy.{RefreshPolicy, effective_ttl}
use merge_ready.Daemon.Store.{
  RepoId, CacheStore, with_entries, QueryEvent, spawn_refresh, emit_output,
}
use merge_ready.Daemon.Transition.{loading_text, query_stale, query_entry, on_query}

-- What a client is shown: the text of the last refresh, or the loading text before the first.
abbrev pub answer : Option CacheEntryState → Bool → Text
answer none fresh = loading_text
answer (some e) fresh =
    if not fresh && is_refreshing e && not (has_fetched e) then loading_text else e.output

-- Whether the entry is fresh for this query.
abbrev pub fresh_for : QueryEvent → RefreshPolicy → Option CacheEntryState → Bool
fresh_for event policy none = false
fresh_for event policy (some e) = is_fresh e (effective_ttl policy e event.stale_ttl) event.now

-- A refresh is due if there is no entry, or one that is stale and not being refreshed.
abbrev pub refresh_due : QueryEvent → RefreshPolicy → Option CacheEntryState → Bool
refresh_due event policy none = true
refresh_due event policy (some e) = not (fresh_for event policy (some e)) && not (is_refreshing e)

abbrev pub cwd_of : QueryEvent → Option CacheEntryState → Text
cwd_of event none = event.cwd
cwd_of event (some e) = e.cwd

abbrev pub queried : CacheStore → QueryEvent → RepoId → RefreshPolicy → CacheStore
queried store event repo_id policy = (on_query store event repo_id policy).0

module _ (event : QueryEvent) (repo_id : RepoId) (policy : RefreshPolicy) where
  effects_at :
      (o : Option CacheEntryState)
      → (query_entry repo_id event policy o).1
        ≡ emit_output (answer o (fresh_for event policy o))
          ∷ (if refresh_due event policy o then spawn_refresh repo_id (cwd_of event o) ∷ [] else [])
  unfolding query_entry query_stale with_record_query
  effects_at none = refl
  effects_at (some e) = ground arith

  pub marked_at :
      (o : Option CacheEntryState)
      → refresh_due event policy o ≡ true
      → (is_refreshing (query_entry repo_id event policy o).0 ≡ true)
        × ((query_entry repo_id event policy o).0.refresh_started_at ≡ some event.now)
  unfolding query_entry query_stale with_record_query with_mark_refreshing new_loading is_refreshing
  marked_at none h = (refl, refl)
  marked_at (some e) h = ground arith

  pub still_refreshing :
      (e : CacheEntryState)
      → is_refreshing e ≡ true
      → is_refreshing (query_entry repo_id event policy (some e)).0 ≡ true
  unfolding query_entry query_stale with_record_query with_reset_cold_count is_refreshing
  still_refreshing e h = ground arith

module _ (store : CacheStore) (event : QueryEvent) (repo_id : RepoId) (policy : RefreshPolicy) where
  -- A query emits one text, that of the entry or the loading text, and then starts a refresh of the
  -- repository exactly if there is no entry, or a stale one that is not being refreshed.
  pub on_query_effects :
      (on_query store event repo_id policy).1
      ≡ emit_output
          (answer (get repo_id store.entries) (fresh_for event policy (get repo_id store.entries)))
        ∷ (if refresh_due event policy (get repo_id store.entries)
            then spawn_refresh repo_id (cwd_of event (get repo_id store.entries)) ∷ []
            else [])
  unfolding on_query
  on_query_effects = effects_at event repo_id policy (get repo_id store.entries)

  -- A query replaces the entry of its repository, or adds one, and touches no other entry.
  pub get-on_query :
      (j : RepoId)
      → get j (queried store event repo_id policy).entries ≡ (
          if eqb repo_id j
          then some (query_entry repo_id event policy (get repo_id store.entries)).0
          else get j store.entries)
  unfolding on_query with_entries
  get-on_query j = get-insert repo_id j _ store.entries
