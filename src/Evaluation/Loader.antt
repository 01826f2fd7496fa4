-- ===== src/Evaluation/Loader.antt =====
-- src/contexts/evaluation/infrastructure/toml_loader.rs and display_config/defaults.rs: the display
-- configuration, from a file and the defaults, and its cache.
pub mod Cached
use merge_ready.Prelude.{
  ℕ, Text, codes, Bool, Option, none, some, List, [], ◌∷◌, ◌==◌, if◌then◌else◌, Result, ok, err,
  Panic,
}
use merge_ready.Evaluation.Config.{
  TokenConfig, ErrorConfig, DisplayConfig, CompiledDisplayConfig, compile,
}

abbrev default_pr_format : Text
default_pr_format = codes "$symbol $label( $pr_ids)"

abbrev default_format : Text
default_format = codes "$symbol $label"

abbrev default_error_format : Text
default_error_format = codes "$symbol $message"

-- The symbols beyond ASCII, by their UTF-8 bytes.
abbrev check_mark : Text
check_mark = 226 ∷ 156 ∷ 147 ∷ []

abbrev cross : Text
cross = 226 ∷ 156 ∷ 151 ∷ []

abbrev warning_sign : Text
warning_sign = 226 ∷ 154 ∷ 160 ∷ []

abbrev hourglass : Text
hourglass = 226 ∷ 167 ∷ 150 ∷ []

abbrev pencil : Text
pencil = 226 ∷ 156 ∷ 142 ∷ []

abbrev pr_tok : Text → Text → TokenConfig
pr_tok symbol label = record { symbol = symbol; label = label; format = default_pr_format }

abbrev tok : Text → Text → TokenConfig
tok symbol label = record { symbol = symbol; label = label; format = default_format }

unfoldable pub default_error : ErrorConfig
default_error = record { symbol = cross; format = default_error_format }

unfoldable pub default_config : DisplayConfig
default_config = record {
  ready_to_merge = pr_tok check_mark (codes "Ready for merge");
  no_pull_request = tok (codes "+") (codes "Create PR");
  conflict = pr_tok cross (codes "Resolve conflict");
  update_branch = pr_tok cross (codes "Update branch");
  sync_unknown = pr_tok (codes "?") (codes "Check branch sync");
  ci_fail = pr_tok cross (codes "Fix CI failure");
  ci_action = pr_tok warning_sign (codes "Run CI action");
  ci_pending = pr_tok hourglass (codes "Wait for CI");
  changes_requested = pr_tok warning_sign (codes "Resolve review");
  review_required = pr_tok (codes "@") (codes "Assign reviewer");
  draft = pr_tok pencil (codes "Ready for review");
  status_calculating = pr_tok hourglass (codes "Wait for status");
  blocked_unknown = pr_tok (codes "?") (codes "Check merge blocker");
  error = default_error;
}

-- What a file may give of a token; `RawTokenConfig`, `RawErrorConfig` and `RawDisplayConfig`.
pub record RawTokenConfig : Type 0 where
  pub symbol : Option Text
  pub label : Option Text
  pub format : Option Text

pub record RawErrorConfig : Type 0 where
  pub symbol : Option Text
  pub format : Option Text

pub record RawDisplayConfig : Type 0 where
  pub ready_to_merge : Option RawTokenConfig
  pub no_pull_request : Option RawTokenConfig
  pub conflict : Option RawTokenConfig
  pub update_branch : Option RawTokenConfig
  pub sync_unknown : Option RawTokenConfig
  pub ci_fail : Option RawTokenConfig
  pub ci_action : Option RawTokenConfig
  pub ci_pending : Option RawTokenConfig
  pub changes_requested : Option RawTokenConfig
  pub review_required : Option RawTokenConfig
  pub draft : Option RawTokenConfig
  pub status_calculating : Option RawTokenConfig
  pub blocked_unknown : Option RawTokenConfig
  pub error : Option RawErrorConfig

abbrev unwrap_or : Option Text → Text → Text
unwrap_or none d = d
unwrap_or (some t) d = t

unfoldable pub merge_token : Option RawTokenConfig → TokenConfig → TokenConfig
merge_token none default = default
merge_token (some raw) default = record {
  symbol = unwrap_or raw.symbol default.symbol;
  label = unwrap_or raw.label default.label;
  format = unwrap_or raw.format default.format;
}

unfoldable pub merge_error : Option RawErrorConfig → ErrorConfig → ErrorConfig
merge_error none default = default
merge_error (some raw) default = record {
  symbol = unwrap_or raw.symbol default.symbol;
  format = unwrap_or raw.format default.format;
}

unfoldable pub merge_with_defaults : RawDisplayConfig → DisplayConfig
merge_with_defaults raw = record {
  ready_to_merge = merge_token raw.ready_to_merge default_config.ready_to_merge;
  no_pull_request = merge_token raw.no_pull_request default_config.no_pull_request;
  conflict = merge_token raw.conflict default_config.conflict;
  update_branch = merge_token raw.update_branch default_config.update_branch;
  sync_unknown = merge_token raw.sync_unknown default_config.sync_unknown;
  ci_fail = merge_token raw.ci_fail default_config.ci_fail;
  ci_action = merge_token raw.ci_action default_config.ci_action;
  ci_pending = merge_token raw.ci_pending default_config.ci_pending;
  changes_requested = merge_token raw.changes_requested default_config.changes_requested;
  review_required = merge_token raw.review_required default_config.review_required;
  draft = merge_token raw.draft default_config.draft;
  status_calculating = merge_token raw.status_calculating default_config.status_calculating;
  blocked_unknown = merge_token raw.blocked_unknown default_config.blocked_unknown;
  error = merge_error raw.error default_config.error;
}

-- The raw configuration of a file that gives nothing.
abbrev pub no_config : RawDisplayConfig
no_config = record {
  ready_to_merge = none;
  no_pull_request = none;
  conflict = none;
  update_branch = none;
  sync_unknown = none;
  ci_fail = none;
  ci_action = none;
  ci_pending = none;
  changes_requested = none;
  review_required = none;
  draft = none;
  status_calculating = none;
  blocked_unknown = none;
  error = none;
}

pub record CachedConfig : Type 0 where
  pub fingerprint : Option ℕ
  pub config : CompiledDisplayConfig

-- What the loader takes from other libraries: the hash of a file, and the TOML decoder on the bytes
-- of a file, with no result for one that is not UTF-8, and the empty configuration for one that is
-- no TOML.
pub record Libraries : Type 0 where
  pub xx_hash : Text → ℕ
  pub decode : Text → Option RawDisplayConfig

abbrev pub fingerprint : Libraries → Option Text → Option ℕ
fingerprint libs none = none
fingerprint libs (some bytes) = some (libs.xx_hash bytes)

decoded : Option RawDisplayConfig → DisplayConfig
decoded none = default_config
decoded (some raw) = merge_with_defaults raw

-- The display configuration of a file's content, or of no file.
unfoldable pub parse_display_config : Libraries → Option Text → DisplayConfig
unfolding decoded
parse_display_config libs none = default_config
parse_display_config libs (some bytes) = decoded (libs.decode bytes)

abbrev pub same_fingerprint : Option ℕ → Option ℕ → Bool
same_fingerprint none none = Bool.true
same_fingerprint (some a) (some b) = a == b
same_fingerprint _ _ = Bool.false

-- The cached configuration, if its fingerprint is the file's.
lookup : Option CachedConfig → Option ℕ → Option CompiledDisplayConfig
lookup none fp = none
lookup (some cached) fp =
    if same_fingerprint cached.fingerprint fp then some cached.config else none

abbrev pub Loaded : Type 0
Loaded = Option CachedConfig × Result Panic CompiledDisplayConfig

store_compiled : Option CachedConfig → Option ℕ → Result Panic CompiledDisplayConfig → Loaded
store_compiled cache fp (ok compiled) =
    (some (record { fingerprint = fp; config = compiled }), ok compiled)
store_compiled cache fp (err p) = (cache, err p)

load_or : Libraries → Option CachedConfig → Option Text → Option CompiledDisplayConfig → Loaded
unfolding store_compiled
load_or libs cache content (some hit) = (cache, ok hit)
load_or libs cache content none =
    store_compiled cache (fingerprint libs content) (compile (parse_display_config libs content))

-- `load_compiled_display_config` on the content of the file at that time.
unfoldable pub load_compiled_display_config : Libraries → Option CachedConfig → Option Text → Loaded
unfolding load_or lookup
load_compiled_display_config libs cache content =
    load_or libs cache content (lookup cache (fingerprint libs content))

-- Loads one after the other, of the contents that the file has at the times.
unfoldable pub load_all : Libraries → Option CachedConfig → List (Option Text) → Option CachedConfig
load_all libs cache [] = cache
load_all libs cache (content ∷ rest) =
    load_all libs (load_compiled_display_config libs cache content).0 rest
