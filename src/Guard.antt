-- ===== src/Guard.antt =====
-- `WorktreeGuard` of src/agents/tools/runtime_tools.py, its path rules: which paths a worker may
-- touch.
pub mod Normal
pub mod Ownership
pub mod Scope
use git_hub_issue_to_impleme.Prelude.{
  ◌>>=◌, ◌>>◌, ◌+◌, ◌-◌, ◌*◌, ◌/◌, Bool, true, false, ◌&&◌, ◌||◌, Option, List, [], ◌∷◌, ◌++◌, eqb,
  if◌then◌else◌, not, nat_eq, pair_eq, is_empty, drop, any, contains, Text, text, text_eq,
  ends_with, strip, Error, Result, guard, or_raise, ok,
}
use mathlib.Core.List.{reverse}
use git_hub_issue_to_impleme.Paths.{
  PosixPath, parse, is_absolute, parts, as_posix, same_path, is_relative_to, match, begins,
}

abbrev pub control_names : List Text
control_names = text ".git" ∷ text ".chief" ∷ text ".chief-worker" ∷ []

-- `_normalise_relative_path`
unfoldable pub normalise_relative_path : Text → Result Text
normalise_relative_path relative_path = do
  guard (not (is_empty (strip relative_path)))
      (Error.tool_violation (text "A relative path is required."))
  guard (not (any (λ c. eqb c 92 || eqb c 0) relative_path))
      (Error.tool_violation (text "Invalid path characters."))
  let path = parse (strip relative_path)
  guard (not (is_absolute path || contains (parts path) (text "..")))
      (Error.tool_violation (text "Absolute paths and path escapes are not allowed."))
  guard (not (any (λ part. contains control_names part) (parts path)))
      (Error.tool_violation (text "Control paths are not allowed."))
  ok (as_posix path)

-- `normalised.endswith("/**")`
abbrev pub is_tree : Text → Bool
is_tree pattern = ends_with (text "/**") pattern

-- `pattern[:-3].rstrip("/")`
unfoldable pub strip_slashes : Text → Text
strip_slashes [] = []
strip_slashes (c ∷ s) = let rest = strip_slashes s in if eqb c b'/' then rest else c ∷ s

abbrev pub tree_root : Text → Text
tree_root pattern = reverse (strip_slashes (drop 3 (reverse pattern)))

-- One round of the loop over the assigned patterns, whose `or` stops at the first that holds.
unfoldable pub pattern_admits : PosixPath → Text → Result Bool
pattern_admits candidate pattern = if same_path candidate (parse pattern) then ok true else do
  matched ← match candidate (parse pattern)
  ok (matched || is_tree pattern && is_relative_to candidate (parse (tree_root pattern)))

-- `path_is_assigned`: the first pattern that admits the path ends the loop, and a bad pattern
-- before it raises.
unfoldable pub path_is_assigned : List Text → Text → Result Bool
path_is_assigned [] relative_path = ok false
path_is_assigned (pattern ∷ patterns) relative_path = do
  normalised ← normalise_relative_path pattern
  admitted ← pattern_admits (parse relative_path) normalised
  elim admitted [ true ↦ ok true | false ↦ path_is_assigned patterns relative_path ]

-- What `path_for` asks of the machine, below a worktree whose ownership is verified: whether a
-- path is a link, and where it resolves to; `none` is an OSError.
pub record Tree : Type 0 where
  pub is_symlink : List Text → Bool
  pub resolve : List Text → Option (List Text)

-- Is some path on the way from the worktree to the file a link?
unfoldable pub crosses_symlink : Tree → List Text → List Text → Bool
crosses_symlink tree current [] = false
crosses_symlink tree current (part ∷ rest) =
    tree.is_symlink (current ++ part ∷ []) || crosses_symlink tree (current ++ part ∷ []) rest

-- `path_for`, below the worktree whose parts are `worktree` (`verify_ownership` has returned it).
unfoldable pub path_for : Tree → List Text → List Text → Text → Result (List Text)
path_for tree worktree assigned relative_path = do
  relative ← normalise_relative_path relative_path
  assigned? ← path_is_assigned assigned relative
  guard assigned? (Error.tool_violation (text "Path is outside assigned scope: " ++ relative))
  guard (not (crosses_symlink tree worktree (parts (parse relative))))
      (Error.tool_violation (text "Symlink paths are not allowed."))
  resolved ←
      or_raise (tree.resolve (worktree ++ parts (parse relative)))
        (Error.tool_violation (text "Path escapes the assigned Worktree."))
  guard (begins worktree resolved)
      (Error.tool_violation (text "Path escapes the assigned Worktree."))
  ok resolved
