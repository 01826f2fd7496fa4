-- ===== src/Daemon/RepoIds/Toplevel.antt =====
-- `repo_info_from_cwd`: which repository a directory belongs to, and the form of its id.
use merge_ready.Prelude.{
  ℕ, zero, suc, ◌+◌, ◌/◌, ◌%◌, Text, Bool, true, ◌||◌, ◌&&◌, [], ◌∷◌, ◌++◌, All, length, leb, ◌≡◌,
  refl, ap, ◌∙◌, arith,
}
use merge_ready.Daemon.RepoIds.{
  PathBuf, FileSystem, absent, look_in, answer_or, find_git_dir, repo_info_of, repo_info_from_cwd,
  hex, hex_lower, path_to_id,
}

-- No directory of a path inside another one has a `.git`.
abbrev pub IsPlain : FileSystem → PathBuf → PathBuf → Type 0
IsPlain fs [] dir = Unit
IsPlain fs (name ∷ names) dir = (look_in fs (name ∷ (names ++ dir)) ≡ absent) × IsPlain fs names dir

find_git_dir-below :
    (fs : FileSystem) (names dir : PathBuf)
    → IsPlain fs names dir
    → find_git_dir fs (names ++ dir) ≡ find_git_dir fs dir
unfolding find_git_dir
find_git_dir-below fs [] dir h = refl
find_git_dir-below fs (name ∷ names) dir h =
    ap (λ s. answer_or s (find_git_dir fs (names ++ dir))) h.0 ∙ find_git_dir-below fs names dir h.1

-- A directory below another one, with no `.git` on the way, has the same repository id and branch.
pub repo_info_from_cwd-below :
    (fs : FileSystem) (names dir : PathBuf)
    → IsPlain fs names dir
    → repo_info_from_cwd fs (names ++ dir) ≡ repo_info_from_cwd fs dir
unfolding repo_info_from_cwd
repo_info_from_cwd-below fs names dir h = ap (repo_info_of fs) (find_git_dir-below fs names dir h)

-- A digit of base 16 in lower case
abbrev pub is_hex_digit : ℕ → Bool
is_hex_digit c = leb b'0' c && leb c b'9' || leb b'a' c && leb c b'f'

hex_digit : (n : ℕ) → is_hex_digit (hex_lower (n % 16)) ≡ true
hex_digit n = ground arith

length-hex : (width n : ℕ) (acc : Text) → length (hex width n acc) ≡ width + length acc
unfolding hex
length-hex zero n acc = omega arith
length-hex (suc width) n acc = omega (arith, length-hex width (n / 16) (hex_lower (n % 16) ∷ acc))

hex-digits :
    (width n : ℕ) (acc : Text)
    → All (λ c. is_hex_digit c ≡ true) acc
    → All (λ c. is_hex_digit c ≡ true) (hex width n acc)
unfolding hex
hex-digits zero n acc h = h
hex-digits (suc width) n acc h = hex-digits width (n / 16) _ (hex_digit n, h)

-- An id has sixteen digits of base 16, whatever the path.
pub path_to_id-digits :
    (path : Text)
    → (length (path_to_id path) ≡ 16) × All (λ c. is_hex_digit c ≡ true) (path_to_id path)
unfolding path_to_id
path_to_id-digits path = (length-hex 16 _ [], hex-digits 16 _ [] tt)
