-- ===== src/Evaluation/CompareUrl.antt =====
-- src/contexts/evaluation/infrastructure/gh/fetch.rs: the path of a compare request.
pub mod Encoding
use merge_ready.Prelude.{
  ℕ, ◌+◌, ◌-◌, ◌/◌, ◌%◌, Text, codes, Bool, true, false, ◌||◌, ◌&&◌, List, [], ◌∷◌, ◌++◌, ◌==◌, leb,
  if◌then◌else◌, Option, none, some, is_empty,
}

-- `is_ascii_alphanumeric` or one of `-._~`
unfoldable pub is_unreserved : ℕ → Bool
is_unreserved byte =
    leb b'0' byte && leb byte b'9'
    || leb b'A' byte && leb byte b'Z'
    || leb b'a' byte && leb byte b'z'
    || byte == b'-'
    || byte == b'.'
    || byte == b'_'
    || byte == b'~'

unfoldable pub hex_upper : ℕ → ℕ
hex_upper nibble = if leb nibble 9 then b'0' + nibble else b'A' + (nibble - 10)

abbrev pub percent : ℕ
percent = b'%'

-- `byte >> 4` and `byte & 0x0f` are the quotient and the remainder by 16.
unfoldable pub encode_path_segment : Text → Text
encode_path_segment [] = []
encode_path_segment (byte ∷ rest) =
    let out = encode_path_segment rest in
    if is_unreserved byte
    then byte ∷ out
    else percent ∷ hex_upper (byte / 16) ∷ hex_upper (byte % 16) ∷ out

unfoldable pub build_compare_path : Text → Text → Text
build_compare_path base_ref head_ref =
    codes "repos/{owner}/{repo}/compare/"
    ++ encode_path_segment base_ref
    ++ codes "..."
    ++ encode_path_segment head_ref

-- `fetch_behind_by`; `compare` is what `gh api` answers for a path, decoded, or `none` if it fails.
unfoldable pub fetch_behind_by : (Text → Option ℕ) → Text → Text → Option ℕ
fetch_behind_by compare base_ref head_ref =
    if is_empty base_ref || is_empty head_ref
    then some 0
    else compare (build_compare_path base_ref head_ref)
