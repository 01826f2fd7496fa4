-- ===== src/Daemon/RateLimitClient.antt =====
-- src/contexts/daemon/infrastructure/rate_limit_client.rs: the rate limit, asked for at most once
-- in a time to live.
pub mod Quiet
use merge_ready.Prelude.{
  ℕ, ◌+◌, ◌-◌, Bool, true, false, Option, none, some, List, [], ◌∷◌, ltb, if◌then◌else◌,
}
use merge_ready.Time.{
  Instant, SystemTime, Duration, from_secs, unix_epoch, saturating_duration_since,
}
use merge_ready.Daemon.Snapshot.{RateLimitSnapshot}

pub record RateLimitClient : Type 0 where
  pub cache : Option RateLimitSnapshot
  pub ttl : Duration

pub record ResourceInfo : Type 0 where
  pub limit : ℕ
  pub remaining : ℕ
  pub reset : ℕ

pub record Resources : Type 0 where
  pub core : ResourceInfo
  pub graphql : ResourceInfo

-- `RateLimitClient::new`
abbrev pub new_client : Duration → RateLimitClient
new_client ttl = record { cache = none; ttl = ttl }

fresh_snapshot : Duration → Instant → Option RateLimitSnapshot → Option RateLimitSnapshot
fresh_snapshot ttl now none = none
fresh_snapshot ttl now (some snap) =
    if ltb (saturating_duration_since now snap.fetched_at) ttl then some snap else none

unfoldable pub cached_if_fresh : RateLimitClient → Instant → Option RateLimitSnapshot
unfolding fresh_snapshot
cached_if_fresh client now = fresh_snapshot client.ttl now client.cache

-- `parse_rate_limit_json` on a decoded response
unfoldable pub to_snapshot : Resources → Instant → RateLimitSnapshot
to_snapshot r fetched_at = record {
  core_remaining = r.core.remaining;
  core_limit = r.core.limit;
  graphql_remaining = r.graphql.remaining;
  graphql_limit = r.graphql.limit;
  core_reset_at = unix_epoch + from_secs r.core.reset;
  graphql_reset_at = unix_epoch + from_secs r.graphql.reset;
  fetched_at = fetched_at;
}

-- What a call gives: the client, the snapshot, and whether `gh` was run.
pub record Fetch : Type 0 where
  pub client : RateLimitClient
  pub snapshot : Option RateLimitSnapshot
  pub ran_gh : Bool

after_raw_fetch : RateLimitClient → Instant → Option Resources → Fetch
after_raw_fetch client now none = record { client = client; snapshot = none; ran_gh = true }
after_raw_fetch client now (some r) = record {
  client = record client { cache = some (to_snapshot r now) };
  snapshot = some (to_snapshot r now);
  ran_gh = true;
}

fetch_with : RateLimitClient → Instant → Option Resources → Option RateLimitSnapshot → Fetch
unfolding after_raw_fetch
fetch_with client now answer (some snap) = record {
  client = client;
  snapshot = some snap;
  ran_gh = false;
}
fetch_with client now answer none = after_raw_fetch client now answer

-- `fetch_or_cached` at an instant; `answer` is what `gh api rate_limit` would answer, decoded.
unfoldable pub fetch_or_cached : RateLimitClient → Instant → Option Resources → Fetch
unfolding fetch_with
fetch_or_cached client now answer = fetch_with client now answer (cached_if_fresh client now)

-- Calls one after the other: the last client, and how often `gh` was run.
unfoldable pub fetch_all : RateLimitClient → List (Instant × Option Resources) → RateLimitClient × ℕ
fetch_all client [] = (client, 0)
fetch_all client ((now, answer) ∷ rest) =
    let fetch = fetch_or_cached client now answer in
    let (last, runs) = fetch_all fetch.client rest in (last, (if fetch.ran_gh then 1 else 0) + runs)
