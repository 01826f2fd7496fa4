-- ===== src/PromptClient/Answer.antt =====
-- src_prompt/main.rs: how the prompt client reads the daemon's answer from its socket
-- (`read_response`, `DeadlineReader`); src/shared/prompt_ipc.rs: `Response::decode`.
pub mod Chunks
pub mod Deadline
use merge_ready.Prelude.{
  ℕ, ◌-◌, Text, Bool, true, false, Option, none, some, List, [], ◌∷◌, ◌++◌, ◌==◌, ltb,
  if◌then◌else◌, length, take, has_newline, first_line,
}
use merge_ready.Shared.{Response, output, ok, status, entries}

output_of : Option Response → Option Text
output_of none = none
output_of (some (output o)) = some o
output_of (some ok) = none
output_of (some (status _ _ _)) = none
output_of (some (entries _)) = none

-- `prompt_ipc::Response::decode`. `from_slice` is serde_json's reading of a response.
unfoldable pub decode : (Text → Option Response) → Text → Option Text
unfolding output_of
decode from_slice bytes = output_of (from_slice (first_line bytes))

abbrev pub max_response_bytes : ℕ
max_response_bytes = 1048576

-- The loop of `read_response` on the bytes read so far and what the next reads give: `none` is a
-- read that failed, and so is the end of the list, where nothing comes before the timeout;
-- `some []` is the end of the stream.
unfoldable pub read_on : ℕ → (Text → Option Response) → Text → List (Option Text) → Option Text
unfolding decode has_newline
read_on limit from_slice buf [] = none
read_on limit from_slice buf (none ∷ reads) = none
read_on limit from_slice buf (some [] ∷ reads) =
    if ltb (length buf) limit then decode from_slice buf else none
read_on limit from_slice buf (some (c ∷ chunk) ∷ reads) =
    let slice = take (limit - length buf) (c ∷ chunk) in
    let more = read_on limit from_slice (buf ++ slice) reads in
    if ltb (length buf) limit
    then if has_newline slice then decode from_slice (buf ++ slice) else more
    else none

first_read : ℕ → (Text → Option Response) → List (Option Text) → Option Text
unfolding read_on decode has_newline
first_read limit from_slice [] = none
first_read limit from_slice (none ∷ reads) = none
first_read limit from_slice (some [] ∷ reads) = none
first_read limit from_slice (some (c ∷ chunk) ∷ reads) =
    if has_newline (c ∷ chunk)
    then decode from_slice (c ∷ chunk)
    else read_on limit from_slice (c ∷ chunk) reads

unfoldable pub read_response : (Text → Option Response) → List (Option Text) → Option Text
unfolding first_read
read_response from_slice reads = first_read max_response_bytes from_slice reads

-- One call of `DeadlineReader::read`: the time at which it is made, whether the socket takes the
-- timeout, and what its read then gives.
pub record Attempt : Type 0 where
  pub now : ℕ
  pub timeout_set : Bool
  pub bytes : Option Text

-- `DeadlineReader::read`
unfoldable pub read_before : ℕ → Attempt → Option Text
read_before deadline a =
    if ltb a.now deadline then if a.timeout_set then a.bytes else none else none

-- The timeout that the call sets, if it sets one.
unfoldable pub remaining_at : ℕ → Attempt → Option ℕ
remaining_at deadline a = if ltb a.now deadline then some (deadline - a.now) else none
