-- ===== src/Shared.antt =====
-- src/shared: the refresh mode and the messages between the daemon, its workers and its clients
-- (refresh_mode.rs, protocol.rs).
use merge_ready.Prelude.{ℕ, Text, Option, List}

-- How often an entry is refreshed. `terminal`: every pull request is merged or closed.
pub data RefreshMode : Type 0 where
  hot warm terminal : RefreshMode

-- One pull request as it is printed in `watch`.
pub record PrOutput : Type 0 where
  pub pr_id : ℕ
  pub output : Text

pub record EntryDto : Type 0 where
  pub cwd : Text
  pub branch : Text
  pub pr_id : Option ℕ
  pub output : Text
  pub cached_at_secs : ℕ

pub data Request : Type 0 where
  query : Text → Request
  update : Text → Text → RefreshMode → List PrOutput → Request
  stop status entries : Request

pub data Response : Type 0 where
  output : Text → Response
  ok : Response
  status : ℕ → ℕ → Text → Response
  entries : List EntryDto → Response
