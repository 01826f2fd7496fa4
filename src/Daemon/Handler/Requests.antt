-- ===== src/Daemon/Handler/Requests.antt =====
-- `process`: the reply to a request, and what it does to the store.
use merge_ready.Prelude.{
  ℕ, Text, Bool, true, false, Option, none, some, List, [], ◌∷◌, if◌then◌else◌, get, ◌≡◌, refl, ap,
  ◌∙◌, Option-cases, inl, inr,
}
use merge_ready.Shared.{Request, query, update, Response, output, RefreshMode, PrOutput}
use merge_ready.Time.{Instant}
use merge_ready.Daemon.Entry.{CacheEntryState}
use merge_ready.Daemon.Policy.{RefreshPolicy}
use merge_ready.Daemon.Store.{
  with_entries, RepoId, CacheStore, QueryEvent, spawn_refresh, emit_output,
}
use merge_ready.Daemon.Transition.{on_refresh_completed}
use merge_ready.Daemon.Transition.Query.{answer, fresh_for, refresh_due, cwd_of, on_query_effects}
use merge_ready.Daemon.Handler.{
  ActionResult, Surroundings, reply, apply_effects, effects_to_action_result, process_query,
  process_update, process,
}

abbrev pub query_event : Surroundings → Text → Text → ℕ → QueryEvent
query_event world cwd branch ttl = record {
  cwd = cwd;
  branch = branch;
  now = world.now;
  now_wall = world.now_wall;
  stale_ttl = ttl;
}

abbrev pub is_stop : Request → Bool
is_stop Request.stop = true
is_stop _ = false

-- A reply with a text, and a refresh if one is due.
abbrev pub with_refresh : Text → Bool → RepoId → Text → ActionResult
with_refresh text due repo_id cwd = record {
  response = output text;
  refresh_repo_id = if due then some repo_id else none;
  refresh_cwd = if due then some cwd else none;
  stop = false;
}

abbrev pub shown : QueryEvent → RepoId → RefreshPolicy → Option CacheEntryState → ActionResult
shown event repo_id policy entry =
    with_refresh (answer entry (fresh_for event policy entry)) (refresh_due event policy entry)
      repo_id (cwd_of event entry)

-- What the handler answers to a query on a directory.
abbrev pub query_result :
    Surroundings → Text → CacheStore → RefreshPolicy → ℕ → Option (RepoId × Text) → ActionResult
query_result world cwd store policy ttl none = reply (output [])
query_result world cwd store policy ttl (some (repo_id, branch)) =
    shown (query_event world cwd branch ttl) repo_id policy (get repo_id store.entries)

applied :
    (text : Text) (due : Bool) (repo_id : RepoId) (cwd : Text)
    → effects_to_action_result
        (emit_output text ∷ (if due then spawn_refresh repo_id cwd ∷ [] else []))
      ≡ with_refresh text due repo_id cwd
unfolding effects_to_action_result apply_effects
applied text true repo_id cwd = refl
applied text false repo_id cwd = refl

query_result_lem :
    (world : Surroundings) (cwd : Text) (store : CacheStore) (policy : RefreshPolicy) (ttl : ℕ)
    (repo_id : RepoId) (branch : Text)
    → (process_query world repo_id branch cwd ttl store policy).1
      ≡ shown (query_event world cwd branch ttl) repo_id policy (get repo_id store.entries)
unfolding process_query
query_result_lem world cwd store policy ttl repo_id branch =
    let event = query_event world cwd branch ttl in
    let entry = get repo_id store.entries in
    ap effects_to_action_result (on_query_effects store event repo_id policy)
    ∙ applied (answer entry (fresh_for event policy entry)) (refresh_due event policy entry) repo_id
        (cwd_of event entry)

module _ (world : Surroundings) (store : CacheStore) (policy : RefreshPolicy) (started_at : Instant)
    (ttl : ℕ) where
  -- The result of a query: an empty text outside a repository; inside one, the text of its entry
  -- or the loading text, and the refresh of that repository exactly if one is due.
  pub process-query :
      (cwd : Text)
      → (process world (query cwd) store policy started_at ttl).1
        ≡ query_result world cwd store policy ttl (world.repo_info_from_cwd cwd)
  unfolding process
  process-query cwd = elim (Option-cases (world.repo_info_from_cwd cwd)) [
    | inl missing ↦ rw (missing, process) refl
    | inr ((repo_id, branch), found) ↦
        rw (found, process) (query_result_lem world cwd store policy ttl repo_id branch)
  ]

  -- An update of a repository without an entry is acknowledged and leaves the store as it is: only
  -- a query makes an entry.
  pub process-update_unknown :
      (repo_id text : Text) (refresh_mode : RefreshMode) (pr_outputs : List PrOutput)
      → get repo_id store.entries ≡ none
      → process world (update repo_id text refresh_mode pr_outputs) store policy started_at ttl
        ≡ (store, reply Response.ok)
  unfolding process process_update on_refresh_completed with_entries
  process-update_unknown repo_id text refresh_mode pr_outputs missing = rw missing refl

  -- The daemon stops at a stop request and at no other.
  pub stop-process :
      (request : Request)
      → (process world request store policy started_at ttl).1.stop ≡ is_stop request
  unfolding process process_update
  stop-process (query cwd) =
      ap (λ r. r.stop) (process-query cwd) ∙ query_goes_on (world.repo_info_from_cwd cwd)
    where
      query_goes_on :
          (o : Option (RepoId × Text)) → (query_result world cwd store policy ttl o).stop ≡ false
      query_goes_on none = refl
      query_goes_on (some (repo_id, branch)) = refl
  stop-process (update repo_id text refresh_mode pr_outputs) = refl
  stop-process Request.stop = refl
  stop-process Request.status = refl
  stop-process Request.entries = refl
