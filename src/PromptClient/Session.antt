-- ===== src/PromptClient/Session.antt =====
-- A run of the prompt client against the daemon: the request that `main` writes, carried out by
-- `handle`, and the line that comes back.
use merge_ready.Prelude.{
  ℕ, ◌+◌, ◌≤◌, ◌<◌, Text, true, false, Option, none, some, List, [], ◌∷◌, ◌++◌, length, All, map,
  chars, codes, is_none, first_line-line, take-all, ◌≡◌, ◌∙◌, refl, ap,
}
use merge_ready.Shared.{Request, query, Response, output}
use merge_ready.Daemon.Store.{RepoId}
use merge_ready.Daemon.Handler.{Surroundings}
use merge_ready.Daemon.Handler.Requests.{query_result, process-query}
use merge_ready.Daemon.Actor.{DaemonState}
use merge_ready.Daemon.Connection.{max_request_bytes, Connection, write_response, finish, handle}
use merge_ready.Daemon.Connection.Served.{IsJson, has_newline-line, handle-finish}
use merge_ready.PromptClient.{
  Socket, encode, unwrap_or_default, query_daemon, show, main, response_timeout_ms,
}
use merge_ready.PromptClient.Sanitize.{sanitize_output}
use merge_ready.PromptClient.Sanitize.Safety.{Piece, IsSafe, print_pieces, sanitize_output-clean}
use merge_ready.PromptClient.Answer.{read_before, read_response, decode, max_response_bytes}
use merge_ready.PromptClient.Answer.Chunks.{End, end_read, concat, respond, read_response-concat}

-- The text that the daemon answers to a query on a directory.
abbrev pub text_of : Response → Text
text_of (output t) = t
text_of _ = []

abbrev pub query_text : Surroundings → Text → DaemonState → Text
query_text world cwd state =
    text_of
      (query_result world cwd state.cache_store state.config.policy state.config.stale_ttl_secs
        (world.repo_info_from_cwd cwd)).response

query_result-output :
    (world : Surroundings) (cwd : Text) (state : DaemonState) (o : Option (RepoId × Text))
    → (query_result world cwd state.cache_store state.config.policy state.config.stale_ttl_secs
        o).response
      ≡ output (
          text_of
            (query_result world cwd state.cache_store state.config.policy
              state.config.stale_ttl_secs o).response)
query_result-output world cwd state none = refl
query_result-output world cwd state (some (repo_id, branch)) = refl

-- A line within the limit is the answer that it is the text of.
respond-line :
    (to_string : Response → Option Text) (from_slice : Text → Option Response) (limit : ℕ)
    (t json : Text) (end : End)
    → IsJson to_string from_slice (output t) json
    → length (json ++ 10 ∷ []) ≤ limit
    → respond limit from_slice end (json ++ 10 ∷ []) ≡ some t
unfolding decode
respond-line to_string from_slice limit t json end is h =
    rw
      (
        take-all limit (json ++ 10 ∷ []) h,
        has_newline-line json,
        first_line-line json [] is.one_line,
        is.read_back,
      )
      refl

-- serde_json's two functions for requests and for responses, the file system's answer to
-- `repo_id_from_cwd`, and the texts of the request and of the answer.
module _ (write : Request → Option Text) (from_str : Text → Option Request)
    (to_string : Response → Option Text) (from_slice : Text → Option Response)
    (repo_id_from_cwd : Text → Option RepoId) (world : Surroundings) (state : DaemonState)
    (cwd request_json answer_json : Text) (asked : IsJson write from_str (query cwd) request_json)
    (answered : IsJson to_string from_slice (output (query_text world cwd state)) answer_json) where
  -- What the daemon does with the request that the client writes.
  abbrev pub served : Connection
  served =
      handle from_str to_string repo_id_from_cwd world state
        (record { bytes = encode write cwd; fails = false })

  encode-eq : encode write cwd ≡ request_json ++ 10 ∷ []
  unfolding encode
  encode-eq = ap (λ o. unwrap_or_default o ++ 10 ∷ []) asked.writes

  pub served-written :
      length (encode write cwd) ≤ max_request_bytes → served.written ≡ answer_json ++ 10 ∷ []
  unfolding finish
  served-written h =
      ap
        (λ (t : Text).
          (handle from_str to_string repo_id_from_cwd world state
            (record { bytes = t; fails = false })).written)
        encode-eq
      ∙ ap (λ c. c.written)
          (handle-finish write from_str to_string repo_id_from_cwd world state (query cwd)
            request_json false asked (rw encode-eq at h))
      ∙ ap (λ r. write_response (to_string r.response))
          (process-query world state.cache_store state.config.policy state.started_at
            state.config.stale_ttl_secs cwd)
      ∙ ap (λ r. write_response (to_string r))
          (query_result-output world cwd state (world.repo_info_from_cwd cwd))
      ∙ ap write_response answered.writes

  -- The client prints the daemon's text, cleaned, and starts no daemon: where the connection
  -- stands, request and answer stay within their limits, and the answer's parts, of at most 512
  -- bytes, are read before the deadline.
  pub main-served :
      (s : Socket) (chunks : List Text) (end : End) (rest : List (Option Text))
      → s.connected ≡ true
      → s.written ≡ true
      → length (encode write cwd) ≤ max_request_bytes
      → map (read_before (s.start + response_timeout_ms)) s.attempts
        ≡ map some chunks ++ end_read end ∷ rest
      → All (λ c. (0 < length c) × (length c ≤ 512)) chunks
      → concat chunks ≡ served.written
      → length served.written ≤ max_response_bytes
      → main from_slice s
        ≡ record { spawned = false; printed = sanitize_output (chars (query_text world cwd state)) }
  unfolding main
  main-served s chunks end rest up sent fits reads sizes same small =
      let line = served-written fits in
      let got : query_daemon from_slice s ≡ some (query_text world cwd state) =
        rw (up, sent, query_daemon)
          (ap (read_response from_slice) reads
            ∙ read_response-concat from_slice chunks end rest sizes
            ∙ ap (respond max_response_bytes from_slice end) (same ∙ line)
            ∙ respond-line to_string from_slice max_response_bytes (query_text world cwd state)
                answer_json end answered (rw line at small)) in
      ap show got ∙ unfold show in refl

-- A run starts a daemon exactly where it has no answer, and then prints the loading text. What it
-- prints is in every case made of allowed characters and whole colour sequences.
pub main_lem :
    (from_slice : Text → Option Response) (s : Socket)
    → ((main from_slice s).spawned ≡ is_none (query_daemon from_slice s))
      × (query_daemon from_slice s ≡ none → (main from_slice s).printed ≡ codes "? loading")
      × ((ps : List Piece) × All IsSafe ps × ((main from_slice s).printed ≡ print_pieces ps))
unfolding main
main_lem from_slice s = show_lem (query_daemon from_slice s)
  where
    show_lem :
        (o : Option Text)
        → ((show o).spawned ≡ is_none o)
          × (o ≡ none → (show o).printed ≡ codes "? loading")
          × ((ps : List Piece) × All IsSafe ps × ((show o).printed ≡ print_pieces ps))
    show_lem none = (
      refl,
      λ _. unfold chars sanitize_output in refl,
      sanitize_output-clean (chars (codes "? loading")),
    )
    show_lem (some o) = (refl, λ h. cc, sanitize_output-clean (chars o))
