-- ===== src/Daemon/Handler.antt =====
-- src/contexts/daemon/infrastructure/request_handler.rs and request_handler/mapping.rs: what the
-- daemon does with a request of a client.
pub mod Requests
use merge_ready.Prelude.{
  ℕ, Text, Bool, true, false, Option, none, some, List, [], ◌∷◌, ◌++◌, map, length, values,
}
use merge_ready.Shared.{
  RefreshMode, PrOutput, EntryDto, Request, query, update, stop, status, entries, Response, output,
}
use merge_ready.Time.{
  Instant, SystemTime, as_secs, saturating_duration_since, duration_since, unix_epoch,
}
use merge_ready.Daemon.Entry.{CacheEntryState}
use merge_ready.Daemon.Policy.{RefreshPolicy}
use merge_ready.Daemon.Store.{
  RepoId, CacheStore, QueryEvent, RefreshCompletedEvent, Effect, spawn_refresh, emit_output,
  record_expired, enter_backoff,
}
use merge_ready.Daemon.Transition.{on_query, on_refresh_completed}

pub record ActionResult : Type 0 where
  pub response : Response
  pub refresh_repo_id : Option RepoId
  pub refresh_cwd : Option Text
  pub stop : Bool

-- What a request's handling reads of the outside: the clocks, the id and the branch that a
-- directory of the file system has, and the version of the package.
pub record Surroundings : Type 0 where
  pub now : Instant
  pub now_wall : SystemTime
  pub repo_info_from_cwd : Text → Option (RepoId × Text)
  pub version : Text

abbrev unwrap_or_zero : Option ℕ → ℕ
unwrap_or_zero none = 0
unwrap_or_zero (some d) = d

unfoldable pub cached_at_secs : CacheEntryState → ℕ
cached_at_secs e = as_secs (unwrap_or_zero (duration_since e.fetched_at_wall unix_epoch))

abbrev pub entry_dto : Text → Text → Option ℕ → Text → ℕ → EntryDto
entry_dto cwd branch pr_id text secs = record {
  cwd = cwd;
  branch = branch;
  pr_id = pr_id;
  output = text;
  cached_at_secs = secs;
}

abbrev pub pr_dto : CacheEntryState → PrOutput → EntryDto
pr_dto e p = entry_dto e.cwd e.branch (some p.pr_id) p.output (cached_at_secs e)

dtos_of : CacheEntryState → List PrOutput → List EntryDto
dtos_of e [] = entry_dto e.cwd e.branch none e.output (cached_at_secs e) ∷ []
dtos_of e (p ∷ ps) = map (pr_dto e) (p ∷ ps)

unfoldable pub entry_to_dtos : CacheEntryState → List EntryDto
unfolding dtos_of
entry_to_dtos e = dtos_of e e.pr_outputs

-- `values().flat_map(entry_to_dtos)`
unfoldable pub flat_dtos : List CacheEntryState → List EntryDto
flat_dtos [] = []
flat_dtos (e ∷ es) = entry_to_dtos e ++ flat_dtos es

abbrev pub reply : Response → ActionResult
reply response = record {
  response = response;
  refresh_repo_id = none;
  refresh_cwd = none;
  stop = false;
}

-- The loop of `effects_to_action_result`: a later effect overwrites an earlier one.
unfoldable pub apply_effects : ActionResult → List Effect → ActionResult
apply_effects result [] = result
apply_effects result (emit_output s ∷ rest) =
    apply_effects (record result { response = output s }) rest
apply_effects result (spawn_refresh repo_id cwd ∷ rest) =
    apply_effects (record result { refresh_repo_id = some repo_id; refresh_cwd = some cwd }) rest
apply_effects result (record_expired repo_id ∷ rest) = apply_effects result rest
apply_effects result (enter_backoff t ∷ rest) = apply_effects result rest

unfoldable pub effects_to_action_result : List Effect → ActionResult
effects_to_action_result effects = apply_effects (reply (output [])) effects

unfoldable pub process_query :
    Surroundings → RepoId → Text → Text → ℕ → CacheStore → RefreshPolicy → CacheStore × ActionResult
process_query world repo_id branch cwd ttl store policy =
    let event : QueryEvent = record {
      cwd = cwd;
      branch = branch;
      now = world.now;
      now_wall = world.now_wall;
      stale_ttl = ttl;
    } in
    let (new_store, effects) = on_query store event repo_id policy in
    (new_store, effects_to_action_result effects)

unfoldable pub process_update :
    Surroundings
    → RepoId
    → Text
    → RefreshMode
    → List PrOutput
    → CacheStore
    → CacheStore × ActionResult
process_update world repo_id text refresh_mode pr_outputs store =
    let event : RefreshCompletedEvent = record {
      output = text;
      pr_outputs = pr_outputs;
      refresh_mode = refresh_mode;
      now = world.now;
      now_wall = world.now_wall;
    } in
    let (new_store, effects) = on_refresh_completed store repo_id event in
    (new_store, reply Response.ok)

unfoldable pub process :
    Surroundings → Request → CacheStore → RefreshPolicy → Instant → ℕ → CacheStore × ActionResult
process world (query cwd) store policy started_at ttl = elim (world.repo_info_from_cwd cwd) [
  | none ↦ (store, reply (output []))
  | some (repo_id, branch) ↦ process_query world repo_id branch cwd ttl store policy
]
process world (update repo_id text refresh_mode pr_outputs) store policy started_at ttl =
    process_update world repo_id text refresh_mode pr_outputs store
process world Request.stop store policy started_at ttl =
    (store, record (reply Response.ok) { stop = true })
process world status store policy started_at ttl = (
  store,
  reply (
      Response.status (length store.entries)
        (as_secs (saturating_duration_since world.now started_at)) world.version),
)
process world Request.entries store policy started_at ttl =
    (store, reply (Response.entries (flat_dtos (values store.entries))))
