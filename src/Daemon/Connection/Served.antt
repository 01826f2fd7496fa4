-- ===== src/Daemon/Connection/Served.antt =====
-- `handle` on a request that a client has written as one line.
use merge_ready.Prelude.{
  ◌≤◌, Text, Bool, true, false, ◌&&◌, Option, some, [], ◌∷◌, ◌++◌, length, take-all, trim,
  has_newline, line_of-line, is_utf8, ◌≡◌, refl, arith,
}
use merge_ready.Shared.{Request, Response}
use merge_ready.Daemon.Store.{RepoId}
use merge_ready.Daemon.Handler.{Surroundings}
use merge_ready.Daemon.Actor.{DaemonState}
use merge_ready.Daemon.Connection.{
  max_request_bytes, read_limited, read_request_line, unless_empty, finish, respond_to, parse_line,
  handle,
}

-- What serde_json does with a value: its text is one line in UTF-8, white space after it is no part
-- of it, and it is read back as the value.
pub record IsJson {A : Type 0} (to_string : A → Option Text) (from_str : Text → Option A) (a : A)
    (json : Text) : Type 0 where
  pub writes : to_string a ≡ some json
  pub one_line : has_newline json ≡ false
  pub valid_utf8 : is_utf8 (json ++ 10 ∷ []) ≡ true
  pub trimmed : trim (json ++ 10 ∷ []) ≡ json
  pub read_back : from_str json ≡ some a

pub has_newline-line : (s : Text) → has_newline (s ++ 10 ∷ []) ≡ true
unfolding has_newline
has_newline-line [] = refl
has_newline-line (c ∷ s) = ground (arith, has_newline-line s)

unless_empty-line : (s : Text) → unless_empty (some (s ++ 10 ∷ [])) ≡ some (s ++ 10 ∷ [])
unfolding unless_empty
unless_empty-line [] = refl
unless_empty-line (c ∷ s) = refl

-- A line within the limit is read whole.
read_request_line-line :
    (s : Text) (fails : Bool)
    → has_newline s ≡ false
    → is_utf8 (s ++ 10 ∷ []) ≡ true
    → length (s ++ 10 ∷ []) ≤ max_request_bytes
    → read_request_line (record { bytes = s ++ 10 ∷ []; fails = fails }) ≡ some (s ++ 10 ∷ [])
unfolding read_request_line read_limited
read_request_line-line s fails clean utf8 h =
    rw (take-all max_request_bytes (s ++ 10 ∷ []) h, has_newline-line s, and_not fails)
      (rw (line_of-line s [] clean, utf8) (unless_empty-line s))
  where
    and_not : (b : Bool) → (b && false) ≡ false
    and_not true = refl
    and_not false = refl

module _ (write : Request → Option Text) (from_str : Text → Option Request)
    (to_string : Response → Option Text) (repo_id_from_cwd : Text → Option RepoId)
    (world : Surroundings) (state : DaemonState) where
  -- A request that is written as a line within the limit is carried out.
  pub handle-finish :
      (request : Request) (json : Text) (fails : Bool)
      → IsJson write from_str request json
      → length (json ++ 10 ∷ []) ≤ max_request_bytes
      → handle from_str to_string repo_id_from_cwd world state
          (record { bytes = json ++ 10 ∷ []; fails = fails })
        ≡ finish from_str to_string repo_id_from_cwd world state request
  unfolding handle parse_line respond_to
  handle-finish request json fails is h =
      rw
        (
          read_request_line-line json fails is.one_line is.valid_utf8 h,
          parse_line,
          is.trimmed,
          is.read_back,
          respond_to,
        )
        refl
