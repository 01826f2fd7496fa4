-- ===== src/PromptClient/Answer/Chunks.antt =====
-- `read_response` on a stream that arrives in parts: only the bytes count, not how they are cut.
use merge_ready.Prelude.{
  ℕ, zero, suc, ◌-◌, ◌≤◌, ◌<◌, Text, true, false, Option, none, some, List, [], ◌∷◌, ◌++◌, ltb, leb,
  if◌then◌else◌, has_newline, has_newline-append, first_line-append, length, length-append, take,
  take-all, drop, take-append-drop, lt→ltb, map, All, ◌≡◌, ◌∙◌, refl, sym, ap, inl, inr, Bool-cases,
  arith,
}
use mathlib.Core.List.{append_assoc, append-nil}
use merge_ready.Shared.{Response}
use merge_ready.PromptClient.Answer.{decode, read_on, first_read, read_response, max_response_bytes}

-- How a stream ends that gives no newline in time.
pub data End : Type 0 where
  eof failed : End

abbrev pub end_read : End → Option Text
end_read eof = some []
end_read failed = none

abbrev pub concat : List Text → Text
concat [] = []
concat (c ∷ cs) = c ++ concat cs

abbrev pub without_newline : ℕ → (Text → Option Response) → End → Text → Option Text
without_newline limit from_slice failed s = none
without_newline limit from_slice eof [] = none
without_newline limit from_slice eof (c ∷ s) =
    if ltb (length (c ∷ s)) limit then decode from_slice (c ∷ s) else none

-- The answer in a stream of bytes: its first line, if a newline comes within the limit; all of it,
-- if it ends, is not empty and stays below the limit.
abbrev pub respond : ℕ → (Text → Option Response) → End → Text → Option Text
respond limit from_slice end s =
    if has_newline (take limit s)
    then decode from_slice s
    else without_newline limit from_slice end s

take-append : (n : ℕ) (s t : Text) → length s ≤ n → take n (s ++ t) ≡ s ++ take (n - length s) t
take-append n [] t h = ap (λ k. take k t) (omega arith)
take-append zero (c ∷ s) t h = absurd (omega arith)
take-append (suc n) (c ∷ s) t h =
    ap (λ (u : Text). c ∷ u)
      (take-append n s t (omega arith) ∙ ap (λ k. s ++ take k t) (omega arith))

take-append_short : (n : ℕ) (s t : Text) → n ≤ length s → take n (s ++ t) ≡ take n s
take-append_short zero s t h = refl
take-append_short (suc n) [] t h = absurd (omega arith)
take-append_short (suc n) (c ∷ s) t h =
    ap (λ (u : Text). c ∷ u) (take-append_short n s t (omega arith))

length-take : (n : ℕ) (s : Text) → n ≤ length s → length (take n s) ≡ n
length-take zero s h = refl
length-take (suc n) [] h = absurd (omega arith)
length-take (suc n) (c ∷ s) h = omega (arith, length-take n s)

module _ (limit : ℕ) (from_slice : Text → Option Response) (end : End)
    (rest : List (Option Text)) where
  -- The loop ends with nothing where the buffer is full.
  read_on-full :
      (buf : Text) (reads : List (Option Text))
      → length buf ≡ limit
      → read_on limit from_slice buf reads ≡ none
  unfolding read_on
  read_on-full buf [] h = refl
  read_on-full buf (none ∷ reads) h = refl
  read_on-full buf (some [] ∷ reads) h = ground arith
  read_on-full buf (some (c ∷ s) ∷ reads) h = ground arith

  without_newline-long :
      (e : End) (s : Text) → limit ≤ length s → without_newline limit from_slice e s ≡ none
  without_newline-long failed s h = refl
  without_newline-long eof [] h = refl
  without_newline-long eof (c ∷ s) h = ground arith

  respond-full :
      (buf t : Text)
      → length buf ≡ limit
      → has_newline buf ≡ false
      → respond limit from_slice end (buf ++ t) ≡ none
  respond-full buf t h clean =
      rw (take-append_short limit buf t (omega arith), take-all limit buf (omega arith), clean)
        (without_newline-long end (buf ++ t) (omega (arith, length-append {0} buf t)))

  -- A newline within the limit settles the answer.
  respond-line :
      (s t : Text)
      → length s ≤ limit
      → has_newline s ≡ true
      → respond limit from_slice end (s ++ t) ≡ decode from_slice s
  unfolding decode
  respond-line s t h line =
      rw (take-append limit s t h, has_newline-append, line, first_line-append s t line) refl

  read_on-end :
      (buf : Text) (e : End)
      → 0 < length buf
      → read_on limit from_slice buf (end_read e ∷ rest) ≡ without_newline limit from_slice e buf
  unfolding read_on
  read_on-end buf failed h = refl
  read_on-end [] eof h = absurd (omega arith)
  read_on-end (c ∷ buf) eof h = refl

  -- A round of the loop, where the whole stream is the buffer, a slice and `t`.
  module _ (buf slice t : Text) (chunks : List Text)
      (more : has_newline slice ≡ false
        → read_on limit from_slice (buf ++ slice) (map some chunks ++ end_read end ∷ rest)
          ≡ respond limit from_slice end ((buf ++ slice) ++ t)) where
    read_on-round :
        length (buf ++ slice) ≤ limit
        → (if has_newline slice
            then decode from_slice (buf ++ slice)
            else read_on limit from_slice (buf ++ slice) (map some chunks ++ end_read end ∷ rest))
          ≡ respond limit from_slice end ((buf ++ slice) ++ t)
    read_on-round h = elim (Bool-cases (has_newline slice)) [
      | inl line ↦ rw line (
          sym
            (respond-line (buf ++ slice) t h (has_newline-append buf slice ∙ ground (arith, line))))
      | inr clean ↦ rw clean (more clean)
    ]

  read_on-open :
      (buf s : Text) (c : ℕ) (reads : List (Option Text))
      → length buf < limit
      → (let slice : Text = take (limit - length buf) (c ∷ s) in
          read_on limit from_slice buf (some (c ∷ s) ∷ reads) ≡ (
            if has_newline slice
            then decode from_slice (buf ++ slice)
            else read_on limit from_slice (buf ++ slice) reads))
  unfolding read_on
  read_on-open buf s c reads h = rw (lt→ltb (length buf) limit h) refl

  clean-append :
      (s t : Text) → has_newline s ≡ false → has_newline t ≡ false → has_newline (s ++ t) ≡ false
  clean-append s t h k = rw (has_newline-append, h, k) refl

  read_on-parts :
      (chunks : List Text) (buf : Text)
      → All (λ c. 0 < length c) chunks
      → 0 < length buf
      → length buf ≤ limit
      → has_newline buf ≡ false
      → read_on limit from_slice buf (map some chunks ++ end_read end ∷ rest)
        ≡ respond limit from_slice end (buf ++ concat chunks)
  read_on-parts [] buf h pos fits clean =
      rw (append-nil, take-all limit buf fits, clean) (read_on-end buf end pos)
  read_on-parts ([] ∷ chunks) buf h pos fits clean = absurd (omega arith)
  read_on-parts ((c ∷ s) ∷ chunks) buf h pos fits clean =
      elim (Bool-cases (ltb (length buf) limit)) [
        | inr full ↦
            let same : length buf ≡ limit = ground arith in
            read_on-full buf (some (c ∷ s) ∷ (map some chunks ++ end_read end ∷ rest)) same
            ∙ sym (respond-full buf (c ∷ (s ++ concat chunks)) same clean)
        | inl below ↦
            let room : length buf < limit = ground arith in
            read_on-open buf s c (map some chunks ++ end_read end ∷ rest) room
            ∙ elim (Bool-cases (leb (length (c ∷ s)) (limit - length buf))) [
              | inl whole ↦
                  let small : length (c ∷ s) ≤ limit - length buf = ground arith in
                  let sum : length (buf ++ c ∷ s) ≤ limit =
                    omega (arith, length-append {0} buf (c ∷ s)) in
                  rw (take-all (limit - length buf) (c ∷ s) small) (
                    read_on-round buf (c ∷ s) (concat chunks) chunks
                      (λ k.
                        read_on-parts chunks (buf ++ c ∷ s) h.1
                          (omega (arith, length-append {0} buf (c ∷ s))) sum
                          (clean-append buf (c ∷ s) clean k))
                      sum
                    ∙ ap (respond limit from_slice end) (append_assoc buf (c ∷ s) (concat chunks)))
              | inr part ↦
                  let slice : Text = take (limit - length buf) (c ∷ s) in
                  let after : Text = drop (limit - length buf) (c ∷ s) ++ concat chunks in
                  let sum : length (buf ++ slice) ≡ limit = omega (
                    arith,
                    length-append {0} buf slice,
                    length-take (limit - length buf) (c ∷ s) (ground arith),
                  ) in
                  let joined : (buf ++ slice) ++ after ≡ buf ++ ((c ∷ s) ++ concat chunks) =
                    append_assoc buf slice after
                    ∙ ap (λ t. buf ++ t)
                        (sym
                            (append_assoc slice (drop (limit - length buf) (c ∷ s)) (concat chunks))
                          ∙ ap (λ t. t ++ concat chunks)
                              (take-append-drop (limit - length buf) (c ∷ s))) in
                  read_on-round buf slice after chunks
                    (λ k.
                      let full = clean-append buf slice clean k in
                      read_on-full (buf ++ slice) (map some chunks ++ end_read end ∷ rest) sum
                      ∙ sym (respond-full (buf ++ slice) after sum full))
                    (omega arith)
                  ∙ ap (respond limit from_slice end) joined
            ]
      ]

  first_read-parts :
      (chunks : List Text)
      → All (λ c. (0 < length c) × (length c ≤ limit)) chunks
      → first_read limit from_slice (map some chunks ++ end_read end ∷ rest)
        ≡ respond limit from_slice end (concat chunks)
  unfolding first_read
  first_read-parts [] h = first_read-end end
    where
      first_read-end :
          (e : End)
          → first_read limit from_slice (end_read e ∷ rest) ≡ respond limit from_slice e []
      first_read-end eof = rw (take-all {A = ℕ} limit [] (omega arith)) (unfold has_newline in refl)
      first_read-end failed =
          rw (take-all {A = ℕ} limit [] (omega arith)) (unfold has_newline in refl)
  first_read-parts ([] ∷ chunks) h = absurd (omega arith)
  first_read-parts ((c ∷ s) ∷ chunks) h = elim (Bool-cases (has_newline (c ∷ s))) [
    | inl line ↦ rw (line, first_read) (sym (respond-line (c ∷ s) (concat chunks) h.0.1 line))
    | inr clean ↦
        rw (clean, first_read)
          (read_on-parts chunks (c ∷ s) (All-first chunks h.1) (omega arith) h.0.1 clean)
  ]
    where
      All-first :
          (cs : List Text)
          → All (λ c. (0 < length c) × (length c ≤ limit)) cs
          → All (λ c. 0 < length c) cs
      All-first [] h = tt
      All-first (c ∷ cs) h = (h.0.0, All-first cs h.1)

-- However the bytes before the end of the stream, or before a failed read, are cut into reads of at
-- most 512 bytes, the answer is that of the bytes put together.
pub read_response-concat :
    (from_slice : Text → Option Response) (chunks : List Text) (end : End)
    (rest : List (Option Text))
    → All (λ c. (0 < length c) × (length c ≤ 512)) chunks
    → read_response from_slice (map some chunks ++ end_read end ∷ rest)
      ≡ respond max_response_bytes from_slice end (concat chunks)
unfolding read_response
read_response-concat from_slice chunks end rest h =
    first_read-parts max_response_bytes from_slice end rest chunks (widen chunks h)
  where
    widen :
        (cs : List Text)
        → All (λ c. (0 < length c) × (length c ≤ 512)) cs
        → All (λ c. (0 < length c) × (length c ≤ max_response_bytes)) cs
    widen [] h = tt
    widen (c ∷ cs) h = ((h.0.0, omega arith), widen cs h.1)
