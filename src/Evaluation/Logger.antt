-- ===== src/Evaluation/Logger.antt =====
-- src/contexts/evaluation/infrastructure/logger.rs: the settings of the log, from the environment,
-- and its records.
pub mod Rotation
use merge_ready.Prelude.{
  ℕ, Text, codes, eqb, Bool, true, false, Option, none, some, [], ◌∷◌, ◌++◌, ◌==◌, if◌then◌else◌,
  parse_unsigned, trim, to_ascii_lowercase, u64_max, u32_max, decimal,
}

pub record LogRotationPolicy : Type 0 where
  pub max_bytes : ℕ
  pub max_backups : ℕ

abbrev pub default_log_max_bytes : ℕ
default_log_max_bytes = 1048576

abbrev pub default_log_max_backups : ℕ
default_log_max_backups = 4

positive_or : ℕ → Option ℕ → ℕ
positive_or default none = default
positive_or default (some n) = if n == 0 then default else n

-- `parse_positive_u64` and `parse_positive_u32`, by the largest number of the type
unfoldable pub parse_positive : ℕ → Option Text → ℕ → ℕ
unfolding positive_or
parse_positive limit none default = default
parse_positive limit (some v) default = positive_or default (parse_unsigned limit (trim v))

-- `LogRotationPolicy::parse`
unfoldable pub parse_policy : Option Text → Option Text → LogRotationPolicy
unfolding parse_positive
parse_policy max_bytes max_backups = record {
  max_bytes = parse_positive u64_max max_bytes default_log_max_bytes;
  max_backups = parse_positive u32_max max_backups default_log_max_backups;
}

pub data LevelFilter : Type 0 where
  off error warn info debug trace : LevelFilter

level_of : Text → LevelFilter
level_of v =
    if eqb v (codes "off")
    then off
    else if eqb v (codes "error")
    then error
    else if eqb v (codes "info")
    then info
    else if eqb v (codes "debug")
    then debug
    else if eqb v (codes "trace")
    then trace
    else warn

unfoldable pub parse_log_level : Option Text → LevelFilter
unfolding level_of
parse_log_level none = warn
parse_log_level (some v) = level_of (to_ascii_lowercase (trim v))

pub data ErrorCategory : Type 0 where
  auth rate_limit timeout unknown : ErrorCategory

-- `LogRecord`
pub record LogRecord : Type 0 where
  pub category : ErrorCategory
  pub detail : Option Text

category_name : ErrorCategory → Text
category_name auth = codes "Auth"
category_name rate_limit = codes "RateLimit"
category_name timeout = codes "Timeout"
category_name unknown = codes "Unknown"

detail_text : Option Text → Text
detail_text none = []
detail_text (some d) = b' ' ∷ d

-- `log_record`: the message that is logged as an error.
unfoldable pub log_record : LogRecord → Text
unfolding category_name detail_text
log_record r = b'[' ∷ (category_name r.category ++ b']' ∷ detail_text r.detail)

-- `backup_path`, of the name of the log
unfoldable pub backup_path : Text → ℕ → Text
backup_path file_name index = file_name ++ b'.' ∷ decimal index
