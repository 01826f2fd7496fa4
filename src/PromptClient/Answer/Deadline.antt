-- ===== src/PromptClient/Answer/Deadline.antt =====
-- `DeadlineReader`: all reads of an answer together stay within one deadline.
use merge_ready.Prelude.{
  ℕ, ◌+◌, ◌-◌, ◌≤◌, ◌<◌, Text, Option, none, some, List, [], ◌∷◌, ◌++◌, ltb, if◌then◌else◌, map,
  length, take, has_newline, ◌≡◌, ◌∙◌, refl, ap, arith,
}
use merge_ready.Shared.{Response}
use merge_ready.PromptClient.Answer.{
  Attempt, read_before, remaining_at, read_on, first_read, read_response, decode,
  max_response_bytes,
}

-- The timeout of a read ends at the deadline, and a read with no time left is not made.
pub remaining_at_lem :
    (deadline : ℕ) (a : Attempt) {t : ℕ}
    → remaining_at deadline a ≡ some t
    → (0 < t) × (a.now + t ≡ deadline)
unfolding remaining_at
remaining_at_lem deadline a h = ground arith

module _ (limit : ℕ) (from_slice : Text → Option Response) (rest : List (Option Text)) where
  -- Nothing after a failed read counts.
  read_on-failed :
      (reads : List (Option Text)) (buf : Text)
      → read_on limit from_slice buf (reads ++ none ∷ rest) ≡ read_on limit from_slice buf reads
  unfolding read_on
  read_on-failed [] buf = refl
  read_on-failed (none ∷ reads) buf = refl
  read_on-failed (some [] ∷ reads) buf = refl
  read_on-failed (some (c ∷ s) ∷ reads) buf =
      let slice : Text = take (limit - length buf) (c ∷ s) in
      ap
        (λ r.
          if ltb (length buf) limit
          then if has_newline slice then decode from_slice (buf ++ slice) else r
          else none)
        (read_on-failed reads (buf ++ slice))

  first_read-failed :
      (reads : List (Option Text))
      → first_read limit from_slice (reads ++ none ∷ rest) ≡ first_read limit from_slice reads
  unfolding first_read
  first_read-failed [] = refl
  first_read-failed (none ∷ reads) = refl
  first_read-failed (some [] ∷ reads) = refl
  first_read-failed (some (c ∷ s) ∷ reads) =
      ap (λ r. if has_newline (c ∷ s) then decode from_slice (c ∷ s) else r)
        (read_on-failed reads (c ∷ s))

map-append_one :
    (deadline : ℕ) (early rest : List Attempt) (late : Attempt)
    → deadline ≤ late.now
    → map (read_before deadline) (early ++ late ∷ rest)
      ≡ map (read_before deadline) early ++ none ∷ map (read_before deadline) rest
unfolding read_before
map-append_one deadline [] rest late h = ground arith
map-append_one deadline (a ∷ early) rest late h =
    ap (λ t. read_before deadline a ∷ t) (map-append_one deadline early rest late h)

-- A read at the deadline or after it, and all that comes later, does not change the answer.
pub read_response-late :
    (from_slice : Text → Option Response) (deadline : ℕ) (early rest : List Attempt)
    (late : Attempt)
    → deadline ≤ late.now
    → read_response from_slice (map (read_before deadline) (early ++ late ∷ rest))
      ≡ read_response from_slice (map (read_before deadline) early)
unfolding read_response
read_response-late from_slice deadline early rest late h =
    ap (first_read max_response_bytes from_slice) (map-append_one deadline early rest late h)
    ∙ first_read-failed max_response_bytes from_slice (map (read_before deadline) rest)
        (map (read_before deadline) early)
