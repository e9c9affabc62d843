-- ===== src/Explore/Confined.antt =====
-- What the answers of the tools of src/agents/tools/repository_tools.py depend on.
use git_hub_issue_to_impleme.Prelude.{
  ◌≤◌, arith, ap, ◌∙◌, ℕ, ◌≡◌, refl, subst, ◌⊎◌, inl, inr, true, false, Option, none, some, List,
  [], ◌∷◌, ◌++◌, map, Bool-cases, nat_eq, pair_eq, contains, Text, text, text_eq, texts_eq, strip,
}
use git_hub_issue_to_impleme.Paths.{parse, is_absolute, begins}
use git_hub_issue_to_impleme.Explore.Access.{
  Checkout, parts_below, check_inside, resolve_repository_file,
}
use git_hub_issue_to_impleme.Explore.Read.{
  read_file, read_resolved, read_repository_file_range, section_of, unique_paths,
  read_repository_files,
}
use git_hub_issue_to_impleme.Explore.Search.{
  commit_limit, file_scope, history_of, log_command, get_recent_git_history,
}

-- A file below the root, and not in a directory `.git` there.
abbrev pub IsInside : List Text → List Text → Type 0
IsInside root file =
    (begins root file ≡ true) × (contains (parts_below root file) (text ".git") ≡ false)

-- Two states of the machine, with one root, in which paths resolve alike.
pub record ResolvesAlike (c c' : Checkout) : Type 0 where
  pub same_root : c.root ≡ c'.root
  pub same_resolve : (path : List Text) → c.resolve path ≡ c'.resolve path

-- The files inside are read alike.
pub record AgreesInside (c c' : Checkout) : Type 0 where
  pub same_decode : (bytes : List ℕ) → c.decode bytes ≡ c'.decode bytes
  pub same_is_file : (file : List Text) → IsInside c.root file → c.is_file file ≡ c'.is_file file
  pub same_size : (file : List Text) → IsInside c.root file → c.size file ≡ c'.size file
  pub same_bytes :
      (file : List Text) → IsInside c.root file → c.read_bytes file ≡ c'.read_bytes file

-- The same files are there inside, and `git log` answers alike, for the whole repository and for
-- each file inside it, with 1 to 25 commits.
pub record LogsAlike (c c' : Checkout) : Type 0 where
  pub same_exists : (file : List Text) → IsInside c.root file → c.exists file ≡ c'.exists file
  pub same_log :
      (limit : ℕ)
      → 1 ≤ limit
      → limit ≤ 25
      → c.run (log_command limit []) ≡ c'.run (log_command limit [])
  pub same_file_log :
      (limit : ℕ) (file : List Text)
      → 1 ≤ limit
      → limit ≤ 25
      → IsInside c.root file
      → c.run (log_command limit (file_scope c.root file))
        ≡ c'.run (log_command limit (file_scope c.root file))

inl≢inr : {A B : Type 0} {a : A} {b : B} → ◌≡◌ {A = A ⊎ B} (inl a) (inr b) → ⊥
inl≢inr e = cc

inr-injective : {A B : Type 0} {a b : B} → ◌≡◌ {A = A ⊎ B} (inr a) (inr b) → a ≡ b
inr-injective e = cc

check_inside-IsInside :
    (root : List Text) (found : Text ⊎ List Text) {file : List Text}
    → check_inside root found ≡ inr file
    → IsInside root file
check_inside-IsInside root (inl message) e = absurd (inl≢inr e)
check_inside-IsInside root (inr f) e = elim (Bool-cases (begins root f)) [
  | inr outside ↦ absurd (inl≢inr (rw outside at e))
  | inl below ↦ elim (Bool-cases (contains (parts_below root f) (text ".git"))) [
    | inl metadata ↦ absurd (inl≢inr (rw (below, metadata) at e))
    | inr clear ↦ subst (IsInside root) (inr-injective (rw (below, clear) at e)) (below, clear)
  ]
]

resolve_repository_file-IsInside :
    (c : Checkout) (path : Text) {file : List Text}
    → resolve_repository_file c path ≡ inr file
    → IsInside c.root file
unfolding resolve_repository_file
resolve_repository_file-IsInside c path e = elim (Bool-cases (is_absolute (parse path))) [
  | inl absolute ↦ absurd (inl≢inr (rw absolute at e))
  | inr relative ↦
      check_inside-IsInside c.root (c.resolve (c.root ++ (parse path).names)) (rw relative at e)
]

module _ (c c' : Checkout) (r : ResolvesAlike c c') where
  resolve_repository_file-same :
      (path : Text) → resolve_repository_file c path ≡ resolve_repository_file c' path
  unfolding resolve_repository_file
  resolve_repository_file-same path = rw (r.same_root, r.same_resolve) refl

module _ (c c' : Checkout) (r : ResolvesAlike c c') (a : AgreesInside c c') where
  read_file-same :
      (path : Text) (start_line end_line : ℕ) (file : List Text)
      → IsInside c.root file
      → read_file c path start_line end_line file ≡ read_file c' path start_line end_line file
  unfolding read_file
  read_file-same path start_line end_line file inside =
      rw
        (
          a.same_is_file file inside,
          a.same_size file inside,
          a.same_bytes file inside,
          a.same_decode,
        )
        refl

  read_resolved-same :
      (path : Text) (start_line end_line : ℕ) (found : Text ⊎ List Text)
      → ((file : List Text) → found ≡ inr file → IsInside c.root file)
      → read_resolved c path start_line end_line found
        ≡ read_resolved c' path start_line end_line found
  read_resolved-same path start_line end_line (inl message) inside = refl
  read_resolved-same path start_line end_line (inr file) inside =
      read_file-same path start_line end_line file (inside file refl)

  read_repository_file_range-same :
      (path : Text) (start_line end_line : ℕ)
      → read_repository_file_range c path start_line end_line
        ≡ read_repository_file_range c' path start_line end_line
  unfolding read_repository_file_range
  read_repository_file_range-same path start_line end_line =
      rw
        (
          read_resolved-same path start_line end_line (resolve_repository_file c (strip path))
              (λ file. resolve_repository_file-IsInside c (strip path)),
          resolve_repository_file-same c c' r (strip path),
        )
        refl

  sections-same :
      (max_lines : ℕ) (paths : List Text)
      → map (section_of c max_lines) paths ≡ map (section_of c' max_lines) paths
  unfolding section_of
  sections-same max_lines [] = refl
  sections-same max_lines (path ∷ paths) =
      rw (read_repository_file_range-same path 1 max_lines, sections-same max_lines paths) refl

  read_repository_files-same :
      (paths : List Text) (max_lines : ℕ)
      → read_repository_files c paths max_lines ≡ read_repository_files c' paths max_lines
  unfolding read_repository_files
  read_repository_files-same paths max_lines =
      rw (sections-same max_lines (unique_paths paths)) refl

-- What the tools that read files answer does not depend on any file outside the repository or in a
-- `.git` directory of it: on two machines on which paths resolve alike and which read all other
-- files alike, each answers alike, whatever paths and lines are asked.
pub files-same :
    (c c' : Checkout)
    → ResolvesAlike c c'
    → AgreesInside c c'
    → (paths : List Text) (path : Text) (start_line end_line max_lines : ℕ)
    → (read_repository_file_range c path start_line end_line
        ≡ read_repository_file_range c' path start_line end_line)
      × (read_repository_files c paths max_lines ≡ read_repository_files c' paths max_lines)
files-same c c' r a paths path start_line end_line max_lines = (
  read_repository_file_range-same c c' r a path start_line end_line,
  read_repository_files-same c c' r a paths max_lines,
)

commit_limit-bounds : (n : ℕ) → (1 ≤ commit_limit n) × (commit_limit n ≤ 25)
commit_limit-bounds n = (ground arith, ground arith)

module _ (c c' : Checkout) (r : ResolvesAlike c c') (l : LogsAlike c c') where
  whole-same :
      (n : ℕ) → c.run (log_command (commit_limit n) []) ≡ c'.run (log_command (commit_limit n) [])
  whole-same n = let (low, high) = commit_limit-bounds n in l.same_log (commit_limit n) low high

  file-same :
      (n : ℕ) (file : List Text)
      → IsInside c.root file
      → c.run (log_command (commit_limit n) (file_scope c.root file))
        ≡ c'.run (log_command (commit_limit n) (file_scope c'.root file))
  file-same n file inside =
      let (low, high) = commit_limit-bounds n in
      l.same_file_log (commit_limit n) file low high inside
      ∙ ap (λ root. c'.run (log_command (commit_limit n) (file_scope root file))) r.same_root

  history_of-same :
      (path : Text) (max_commits : ℕ) (found : Text ⊎ List Text)
      → ((file : List Text) → found ≡ inr file → IsInside c.root file)
      → history_of c path max_commits found ≡ history_of c' path max_commits found
  history_of-same path max_commits (inl message) inside = refl
  history_of-same path max_commits (inr file) inside =
      rw (l.same_exists file (inside file refl), file-same max_commits file (inside file refl)) refl

-- Besides the resolution of the path, the answer of the history depends only on which files are
-- there inside the repository and on what `git log` says of the repository or of a file inside it,
-- for 1 to 25 commits: machines that agree on these answer alike, whatever is asked.
pub history-same :
    (c c' : Checkout)
    → ResolvesAlike c c'
    → LogsAlike c c'
    → (path : Option Text) (max_commits : ℕ)
    → get_recent_git_history c path max_commits ≡ get_recent_git_history c' path max_commits
unfolding get_recent_git_history
history-same c c' r l none max_commits = rw (whole-same c c' r l max_commits) refl
history-same c c' r l (some path) max_commits =
    rw
      (
        history_of-same c c' r l path max_commits (resolve_repository_file c (strip path))
            (λ file. resolve_repository_file-IsInside c (strip path)),
        resolve_repository_file-same c c' r (strip path),
        whole-same c c' r l max_commits,
      )
      refl
