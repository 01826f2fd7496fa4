-- ===== src/PromptClient.antt =====
-- src_prompt/main.rs: the program that a shell prompt runs. It asks the daemon for the status of the
-- current directory, starts a daemon where none answers, and prints the answer cleaned.
pub mod Sanitize
pub mod Answer
pub mod Session
use merge_ready.Prelude.{
  ℕ, ◌+◌, Text, codes, Bool, true, false, Option, none, some, List, ◌++◌, ◌∷◌, [], map, chars,
  if◌then◌else◌,
}
use merge_ready.Shared.{Request, query, Response}
use merge_ready.PromptClient.Sanitize.{Chars, sanitize_output}
use merge_ready.PromptClient.Answer.{Attempt, read_before, read_response}

abbrev pub response_timeout_ms : ℕ
response_timeout_ms = 500

abbrev pub unwrap_or_default : Option Text → Text
unwrap_or_default none = []
unwrap_or_default (some s) = s

-- `prompt_ipc::Request::encode`. `to_string` is serde_json's writing of a request.
unfoldable pub encode : (Request → Option Text) → Text → Text
encode to_string cwd = unwrap_or_default (to_string (query cwd)) ++ 10 ∷ []

-- What one run meets: whether the socket takes the connection and the request, the time at which
-- the wait begins, in milliseconds, and the reads of the answer.
pub record Socket : Type 0 where
  pub connected : Bool
  pub written : Bool
  pub start : ℕ
  pub attempts : List Attempt

unfoldable pub query_daemon : (Text → Option Response) → Socket → Option Text
query_daemon from_slice s =
    if s.connected
    then if s.written
      then read_response from_slice (map (read_before (s.start + response_timeout_ms)) s.attempts)
      else none
    else none

-- What a run does: whether it starts a daemon, and what it prints.
pub record Outcome : Type 0 where
  pub spawned : Bool
  pub printed : Chars

unfoldable pub show : Option Text → Outcome
show none = record { spawned = true; printed = sanitize_output (chars (codes "? loading")) }
show (some o) = record { spawned = false; printed = sanitize_output (chars o) }

-- `main`
unfoldable pub main : (Text → Option Response) → Socket → Outcome
unfolding show query_daemon
main from_slice s = show (query_daemon from_slice s)
