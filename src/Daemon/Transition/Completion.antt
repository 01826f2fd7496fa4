-- ===== src/Daemon/Transition/Completion.antt =====
-- `on_refresh_completed`, and the query that follows it.
use merge_ready.Prelude.{
  ◌≤◌, ◌≡◌, ◌∙◌, refl, eqb, eqb_iff, true, Option, none, some, List, [], ◌∷◌, if◌then◌else◌, get,
  get-insert, le→leb, arith, Option-cases, inl, inr, eqb_refl,
}
use merge_ready.Daemon.Entry.{CacheEntryState, with_refresh_completed}
use merge_ready.Daemon.Freshness.{is_fresh, elapsed_secs}
use merge_ready.Daemon.Policy.{RefreshPolicy, effective_ttl}
use merge_ready.Daemon.Store.{
  RepoId, CacheStore, with_entries, QueryEvent, RefreshCompletedEvent, Effect, emit_output,
}
use merge_ready.Daemon.Transition.{on_query, on_refresh_completed}
use merge_ready.Daemon.Transition.Query.{fresh_for, on_query_effects}

abbrev pub completed : CacheStore → RepoId → RefreshCompletedEvent → CacheStore
completed store repo_id event = (on_refresh_completed store repo_id event).0

abbrev pub complete_with : RefreshCompletedEvent → CacheEntryState → CacheEntryState
complete_with event e =
    with_refresh_completed e event.output event.pr_outputs event.refresh_mode event.now
      event.now_wall

abbrev pub completed_at : RefreshCompletedEvent → Option CacheEntryState → Option CacheEntryState
completed_at event none = none
completed_at event (some e) = some (complete_with event e)

module _ (store : CacheStore) (repo_id : RepoId) (event : RefreshCompletedEvent) where
  -- A result is stored in the entry of its repository if there is one, and nothing else changes.
  pub get-on_refresh_completed :
      (j : RepoId)
      → get j (completed store repo_id event).entries ≡ (
          if eqb repo_id j
          then completed_at event (get repo_id store.entries)
          else get j store.entries)
  unfolding on_refresh_completed with_entries
  get-on_refresh_completed j = elim (Option-cases (get repo_id store.entries)) [
    | inl missing ↦ rw missing (ground (arith, eqb_iff repo_id j))
    | inr (e, known) ↦ rw known (get-insert repo_id j (complete_with event e) store.entries)
  ]

  completed_fresh :
      (query : QueryEvent) (policy : RefreshPolicy) (e : CacheEntryState)
      → elapsed_secs event.now query.now
        ≤ effective_ttl policy (complete_with event e) query.stale_ttl
      → fresh_for query policy (some (complete_with event e)) ≡ true
  unfolding is_fresh with_refresh_completed
  completed_fresh query policy e young = le→leb _ _ young

  answered :
      (e : CacheEntryState)
      → ◌≡◌ {A = List Effect}
          (emit_output (complete_with event e).output ∷ [])
          (emit_output event.output ∷ [])
  unfolding with_refresh_completed
  answered e = refl

  -- A result that arrives for a known repository is the whole reply to the next query, while it is
  -- younger than the time to live that the query's policy gives it; no refresh is started.
  pub query-completed :
      (query : QueryEvent) (policy : RefreshPolicy) (e : CacheEntryState)
      → get repo_id store.entries ≡ some e
      → elapsed_secs event.now query.now
        ≤ effective_ttl policy (complete_with event e) query.stale_ttl
      → (on_query (completed store repo_id event) query repo_id policy).1
        ≡ emit_output event.output ∷ []
  query-completed query policy e known young =
      let here : get repo_id (completed store repo_id event).entries
          ≡ some (complete_with event e) =
        get-on_refresh_completed repo_id ∙ rw (eqb_refl repo_id, known) refl in
      let fresh = completed_fresh query policy e young in
      rw (on_query_effects (completed store repo_id event) query repo_id policy, here)
        (rw fresh (answered e))
