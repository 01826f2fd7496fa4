-- ===== src/Daemon/RateLimitClient/Quiet.antt =====
-- `fetch_or_cached` over many calls: while the cached snapshot is fresh, `gh` is not run.
use merge_ready.Prelude.{
  ◌+◌, ◌-◌, ◌<◌, true, false, Option, some, List, [], ◌∷◌, All, ltb, ◌≡◌, refl, arith, lt→ltb,
}
use merge_ready.Time.{Instant, Duration}
use merge_ready.Daemon.Snapshot.{RateLimitSnapshot}
use merge_ready.Daemon.RateLimitClient.{
  Resources, fresh_snapshot, cached_if_fresh, fetch_with, fetch_or_cached, fetch_all,
}

fetch_fresh :
    (ttl : Duration) (snap : RateLimitSnapshot) (now : Instant) (answer : Option Resources)
    → 0 < ttl
    → now < snap.fetched_at + ttl
    → fetch_or_cached (record { cache = some snap; ttl = ttl }) now answer ≡ record {
      client = record { cache = some snap; ttl = ttl };
      snapshot = some snap;
      ran_gh = false;
    }
unfolding fetch_or_cached cached_if_fresh fresh_snapshot fetch_with
fetch_fresh ttl snap now answer pos h =
    let young : ltb (now - snap.fetched_at) ttl ≡ true = lt→ltb _ _ (omega arith) in rw young refl

-- If the time to live is not 0, then calls at instants at which the cached snapshot is younger than
-- that never run `gh`, and leave the cache as it is.
pub quiet_while_fresh :
    (ttl : Duration) (snap : RateLimitSnapshot) (calls : List (Instant × Option Resources))
    → 0 < ttl
    → All (λ call. call.0 < snap.fetched_at + ttl) calls
    → fetch_all (record { cache = some snap; ttl = ttl }) calls
      ≡ (record { cache = some snap; ttl = ttl }, 0)
unfolding fetch_all
quiet_while_fresh ttl snap [] pos h = refl
quiet_while_fresh ttl snap ((now, answer) ∷ rest) pos h =
    rw (fetch_fresh ttl snap now answer pos h.0, quiet_while_fresh ttl snap rest pos h.1) refl
