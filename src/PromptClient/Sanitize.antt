-- ===== src/PromptClient/Sanitize.antt =====
-- src_prompt/main.rs: `sanitize_output`, which cleans the daemon's answer before it is printed to
-- the terminal. A string is the list of its characters' code points.
pub mod Safety
use merge_ready.Prelude.{
  ℕ, Bool, true, false, ◌&&◌, ◌||◌, List, [], ◌∷◌, ◌++◌, ◌==◌, leb, if◌then◌else◌,
}

abbrev pub Chars : Type 0
Chars = List ℕ

abbrev pub esc : ℕ
esc = 27

-- The control characters of ASCII, delete, and those of Latin-1.
unfoldable pub is_disallowed_control : ℕ → Bool
is_disallowed_control c = leb c 0x1f || leb 0x7f c && leb c 0x9f

-- A character that ends a control sequence.
unfoldable pub is_final : ℕ → Bool
is_final c = leb 0x40 c && leb c 0x7e

unfoldable mutual
  unfolding is_disallowed_control is_final

  -- The outer loop, on the characters that `chars` has still to give.
  pub sanitize_output : Chars → Chars
  sanitize_output [] = []
  sanitize_output (c ∷ []) = if c == esc then [] else if is_disallowed_control c then [] else c ∷ []
  sanitize_output (c ∷ d ∷ cs) =
      let sequence = read_sequence (esc ∷ d ∷ []) cs in
      let rest = sanitize_output (d ∷ cs) in
      if c == esc
      then if d == b'[' then sequence else rest
      else if is_disallowed_control c
      then rest
      else c ∷ rest

  -- The inner loop, `for sc in chars.by_ref()`, with the sequence read so far; then the outer one.
  read_sequence : Chars → Chars → Chars
  read_sequence seq [] = []
  read_sequence seq (sc ∷ cs) =
      let rest = sanitize_output cs in
      let more = read_sequence (seq ++ sc ∷ []) cs in
      if is_final sc then if sc == b'm' then (seq ++ sc ∷ []) ++ rest else rest else more
