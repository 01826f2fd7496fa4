-- ===== src/Daemon/RepoIds.antt =====
-- src/contexts/daemon/infrastructure/repo_id.rs: the id of a repository and its branch, found from
-- a working directory. A path is the list of its components from the innermost, for an absolute
-- path in normal form; `..` is left to the file system.
pub mod Toplevel
use merge_ready.Prelude.{
  ℕ, zero, suc, ◌+◌, ◌-◌, ◌*◌, ◌/◌, ◌%◌, Text, codes, Bool, true, false, ◌||◌, ◌&&◌, Option, none,
  some, List, [], ◌∷◌, ◌++◌, ◌==◌, ltb, if◌then◌else◌, trim,
}

abbrev pub PathBuf : Type 0
PathBuf = List Text

-- What the file system answers.
pub record FileSystem : Type 0 where
  pub is_dir : PathBuf → Bool
  pub is_file : PathBuf → Bool
  pub read_to_string : PathBuf → Option Text

-- `strip_prefix` of a text
unfoldable pub strip_prefix : Text → Text → Option Text
strip_prefix [] s = some s
strip_prefix (_ ∷ _) [] = none
strip_prefix (a ∷ p) (b ∷ s) = let rest = strip_prefix p s in if a == b then rest else none

abbrev flush : Text → PathBuf → PathBuf
flush [] dir = dir
flush (c ∷ w) dir = (c ∷ w) ∷ dir

-- The components of a path text, put inside a directory; `name` is the component so far.
unfoldable pub push_components : PathBuf → Text → Text → PathBuf
push_components dir name [] = flush name dir
push_components dir name (c ∷ s) =
    let next = push_components (flush name dir) [] s in
    let same = push_components dir (name ++ c ∷ []) s in if c == b'/' then next else same

abbrev is_absolute : Text → Bool
is_absolute [] = false
is_absolute (c ∷ _) = c == b'/'

-- `real` itself, if it is absolute, and else `dir.join(real)`
unfoldable pub resolve : PathBuf → Text → PathBuf
resolve dir real =
    if is_absolute real then push_components [] [] real else push_components dir [] real

-- One step of the search: a `.git` was found, or is a file that says nothing, or is not there.
pub data GitSearch : Type 0 where
  found : PathBuf → PathBuf → GitSearch
  failed absent : GitSearch

abbrev pub dot_git : PathBuf → PathBuf
dot_git dir = codes ".git" ∷ dir

git_dir_of : PathBuf → Option Text → GitSearch
git_dir_of dir none = failed
git_dir_of dir (some real) = found dir (resolve dir (trim real))

pointer_of : PathBuf → Option Text → GitSearch
unfolding git_dir_of
pointer_of dir none = failed
pointer_of dir (some content) = git_dir_of dir (strip_prefix (codes "gitdir: ") content)

unfoldable pub look_in : FileSystem → PathBuf → GitSearch
unfolding pointer_of
look_in fs dir =
    if fs.is_dir (dot_git dir)
    then found dir (dot_git dir)
    else if fs.is_file (dot_git dir)
    then pointer_of dir (fs.read_to_string (dot_git dir))
    else absent

abbrev pub answer_or : GitSearch → Option (PathBuf × PathBuf) → Option (PathBuf × PathBuf)
answer_or (found top git) rest = some (top, git)
answer_or failed rest = none
answer_or absent rest = rest

-- `find_git_dir`: each round goes to the parent, and the root has none.
unfoldable pub find_git_dir : FileSystem → PathBuf → Option (PathBuf × PathBuf)
find_git_dir fs [] = answer_or (look_in fs []) none
find_git_dir fs (name ∷ dir) = answer_or (look_in fs (name ∷ dir)) (find_git_dir fs dir)

branch_of : Option Text → Text
branch_of none = []
branch_of (some r) = trim r

head_of : Option Text → Text
unfolding branch_of
head_of none = []
head_of (some content) = branch_of (strip_prefix (codes "ref: refs/heads/") content)

-- `read_head(…).unwrap_or_default()`: a detached head has the empty name.
unfoldable pub read_head : FileSystem → PathBuf → Text
unfolding head_of
read_head fs git_dir = head_of (fs.read_to_string (codes "HEAD" ∷ git_dir))

-- Exclusive or, by bits with fuel for each.
unfoldable pub xor : ℕ → ℕ → ℕ → ℕ
xor zero a b = 0
xor (suc bits) a b = (a % 2 + b % 2) % 2 + 2 * xor bits (a / 2) (b / 2)

abbrev pub two_64 : ℕ
two_64 = 18446744073709551616

-- One round of FNV-1a: the exclusive or with a byte, and a multiplication that wraps around.
unfoldable pub fnv_step : ℕ → ℕ → ℕ
fnv_step hash byte = (xor 64 hash byte * 1099511628211) % two_64

unfoldable pub fnv : ℕ → Text → ℕ
fnv hash [] = hash
fnv hash (byte ∷ rest) = fnv (fnv_step hash byte) rest

abbrev pub hex_lower : ℕ → ℕ
hex_lower n = if ltb n 10 then b'0' + n else b'a' + (n - 10)

-- The last digits of a number in base 16, with leading zeros.
unfoldable pub hex : ℕ → ℕ → Text → Text
hex zero n acc = acc
hex (suc width) n acc = hex width (n / 16) (hex_lower (n % 16) ∷ acc)

-- `{hash:016x}`
unfoldable pub path_to_id : Text → Text
path_to_id path = hex 16 (fnv 14695981039346656037 path) []

-- `display` of a path
unfoldable pub display_in : PathBuf → Text → Text
display_in [] rest = rest
display_in (name ∷ dir) rest = display_in dir (b'/' ∷ name ++ rest)

abbrev display : PathBuf → Text
display [] = b'/' ∷ []
display (name ∷ dir) = display_in (name ∷ dir) []

repo_info_of : FileSystem → Option (PathBuf × PathBuf) → Option (Text × Text)
repo_info_of fs none = none
repo_info_of fs (some (toplevel, git_dir)) =
    let branch = read_head fs git_dir in
    some (path_to_id (display toplevel ++ (0 ∷ branch)), branch)

unfoldable pub repo_info_from_cwd : FileSystem → PathBuf → Option (Text × Text)
unfolding repo_info_of
repo_info_from_cwd fs cwd = repo_info_of fs (find_git_dir fs cwd)
