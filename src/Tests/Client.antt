-- ===== src/Tests/Client.antt =====
-- Runs of the prompt client.
use merge_ready.Prelude.{
  ℕ, Text, codes, eqb, true, false, Option, none, some, List, [], ◌∷◌, ◌++◌, ◌≡◌, refl, sym,
  if◌then◌else◌, arith, All, is_none, chars, has_newline, is_utf8, whitespace_len, is_blank,
  trim_start, trim_end, get,
}
use merge_ready.Shared.{Request, query, Response, output}
use merge_ready.Daemon.Config.{from_env}
use merge_ready.Daemon.Actor.{DaemonState, new_state}
use merge_ready.Daemon.Connection.Served.{IsJson}
use merge_ready.PromptClient.{Socket, query_daemon, encode, main}
use merge_ready.PromptClient.Sanitize.{esc, sanitize_output, is_disallowed_control, is_final}
use merge_ready.PromptClient.Sanitize.Safety.{
  Piece, plain, colour, IsSafe, print_pieces, sanitize_output-print, sanitize_output-control,
}
use merge_ready.PromptClient.Answer.{Attempt, read_before, read_response}
use merge_ready.PromptClient.Answer.Chunks.{eof, failed, read_response-concat}
use merge_ready.PromptClient.Session.{served-written, main-served, main_lem}
use merge_ready.Tests.DaemonData.{at}
use merge_ready.Tests.Server.{world, no_variables}

abbrev cwd : Text
cwd = codes "/repo"

abbrev request_json : Text
request_json = codes "{'action':'query','cwd':'/repo'}"

abbrev answer_json : Text
answer_json = codes "{'tag':'output','output':'? loading'}"

-- The JSON of one request and of one response.
abbrev write : Request → Option Text
write r = some request_json

abbrev from_str : Text → Option Request
from_str s = if eqb s request_json then some (query cwd) else none

abbrev to_string : Response → Option Text
to_string r = some answer_json

abbrev from_slice : Text → Option Response
from_slice s = if eqb s answer_json then some (output (codes "? loading")) else none

abbrev state : DaemonState
state = new_state (from_env no_variables) (at 0)

abbrev attempt : ℕ → Text → Attempt
attempt now t = record { now = now; timeout_set = true; bytes = some t }

-- The answer arrives in two parts.
abbrev socket : Socket
socket = record {
  connected = true;
  written = true;
  start = 1000;
  attempts =
      attempt 1020 (codes "{'tag':'output',")
      ∷ attempt 1030 (codes "'output':'? loading'}" ++ 10 ∷ [])
      ∷ attempt 1040 []
      ∷ [];
}

asked : IsJson write from_str (query cwd) request_json
unfolding has_newline is_utf8 trim_start trim_end is_blank whitespace_len eqb
asked = record {
  writes = refl;
  one_line = refl;
  valid_utf8 = refl;
  trimmed = refl;
  read_back = refl;
}

answered : IsJson to_string from_slice (output (codes "? loading")) answer_json
unfolding has_newline is_utf8 trim_start trim_end is_blank whitespace_len eqb
answered = record {
  writes = refl;
  one_line = refl;
  valid_utf8 = refl;
  trimmed = refl;
  read_back = refl;
}

main-served_example :
    main from_slice socket
    ≡ record { spawned = false; printed = sanitize_output (chars (codes "? loading")) }
unfolding new_state get encode read_before eqb
main-served_example =
    let line =
      served-written write from_str to_string from_slice (λ d. none) world state cwd request_json
        answer_json asked answered (omega arith) in
    main-served write from_str to_string from_slice (λ d. none) world state cwd request_json
      answer_json asked answered socket
      (codes "{'tag':'output'," ∷ (codes "'output':'? loading'}" ++ 10 ∷ []) ∷ []) eof [] refl refl
      (omega arith) refl (omega arith) (sym line) (rw line (omega arith))

main_lem_example :
    ((main from_slice socket).spawned ≡ is_none (query_daemon from_slice socket))
    × (query_daemon from_slice socket ≡ none → (main from_slice socket).printed ≡ codes "? loading")
    × ((ps : List Piece) × All IsSafe ps × ((main from_slice socket).printed ≡ print_pieces ps))
main_lem_example = main_lem from_slice socket

read_response-concat_example :
    read_response from_slice (some (codes "{'tag':'output',") ∷ none ∷ []) ≡ none
unfolding has_newline
read_response-concat_example =
    read_response-concat from_slice (codes "{'tag':'output'," ∷ []) failed [] (omega arith)

-- A bold green `ok`.
abbrev styled : List Piece
styled = colour (codes "1;32") ∷ plain b'o' ∷ plain b'k' ∷ colour (codes "0") ∷ []

sanitize_output-print_example : sanitize_output (print_pieces styled) ≡ print_pieces styled
unfolding is_disallowed_control is_final
sanitize_output-print_example =
    sanitize_output-print styled
      ((refl, (refl, (refl, (refl, tt)))), (refl, (refl, ((refl, tt), tt))))

-- A bell.
sanitize_output-control_example :
    sanitize_output (esc ∷ b'[' ∷ 7 ∷ b'm' ∷ []) ≡ esc ∷ b'[' ∷ 7 ∷ b'm' ∷ []
unfolding is_disallowed_control
sanitize_output-control_example = sanitize_output-control 7 refl
