-- ===== src/Runtime/Approval.antt =====
-- What `apply_file_patch` of `RuntimeToolService` checks before it changes a file.
use git_hub_issue_to_impleme.Prelude.{
  Bool, ◌&&◌, Option, none, some, List, [], ◌∷◌, ◌++◌, map, leb, if◌then◌else◌, not, nat_eq, ◌==◌,
  pair_eq, length, is_empty, all, contains, Text, text, text_eq, texts_eq, strip, utf8_length,
  Error, Result, guard, ◌>>=◌, ◌>>◌, or_raise, ok,
}
use git_hub_issue_to_impleme.Schemas.Runtime.{WorkerAssignment}
use git_hub_issue_to_impleme.Paths.{parse, parts}
use git_hub_issue_to_impleme.Guard.{Tree, path_for}
use git_hub_issue_to_impleme.Guard.Ownership.{Answer, Machine, verify_ownership}
use git_hub_issue_to_impleme.Runtime.Diff.{patch_paths, changed_line_count}
use git_hub_issue_to_impleme.Runtime.Service.{bounded_text}
use git_hub_issue_to_impleme.Runtime.Limits.{max_patch_bytes, max_patch_files, max_changed_lines}

-- The machine during one call: who owns the worktree, links, files and their hashes (a hash that
-- cannot be read is an OSError), and what `git apply` answers with and without `--check`.
pub record World : Type 0 where
  pub machine : Machine
  pub tree : Tree
  pub exists : List Text → Bool
  pub sha256 : List Text → Result Text
  pub check_patch : Text → Result Answer
  pub apply_patch : Text → Result Answer

-- `path_for`, whole: ownership first, then the path rules below the worktree.
unfoldable pub guarded_path : Machine → Tree → WorkerAssignment → Text → Result (List Text)
guarded_path machine tree a relative_path = do
  worktree ← verify_ownership machine a
  path_for tree (parts (parse worktree)) a.assigned_paths relative_path

-- `expected_files[relative_path]`
unfoldable pub expected_hash : Text → List (Text × Option Text) → Option (Option Text)
expected_hash path [] = none
expected_hash path ((p, hash) ∷ files) = if p == path then some hash else expected_hash path files

unfoldable pub check_hash : World → Text → List Text → Option Text → Result (Unit {0})
check_hash world path file none =
    guard (not (world.exists file))
      (Error.tool_violation (text "Expected new file is already present: " ++ path))
check_hash world path file (some hash) = do
  guard (world.exists file) (Error.tool_violation (text "Expected file does not exist: " ++ path))
  actual ← world.sha256 file
  guard (actual == hash) (Error.tool_violation (text "File hash does not match: " ++ path))

-- One round of the loop over the changed files.
unfoldable pub check_file :
    World → WorkerAssignment → List (Text × Option Text) → Text → Result (Unit {0})
check_file world a expected path = do
  file ← guarded_path world.machine world.tree a path
  hash ← or_raise (expected_hash path expected) (Error.key_error path)
  check_hash world path file hash

unfoldable pub check_files :
    World → WorkerAssignment → List (Text × Option Text) → List Text → Result (Unit {0})
check_files world a expected [] = ok tt
check_files world a expected (path ∷ paths) = do
  check_file world a expected path
  check_files world a expected paths

-- `set(expected_files) == set(changed_files)`
abbrev pub same_names : List Text → List Text → Bool
same_names xs ys = all (contains ys) xs && all (contains xs) ys

unfoldable pub approve_patch :
    World → WorkerAssignment → Text → List (Text × Option Text) → Result (List Text)
approve_patch world a patch expected = do
  worktree ← verify_ownership world.machine a
  guard (not (is_empty (strip patch))) (Error.tool_violation (text "Patch cannot be empty."))
  guard (leb (utf8_length patch) max_patch_bytes)
      (Error.tool_violation (text "Patch is too large."))
  changed ← patch_paths patch
  guard (leb (length changed) max_patch_files)
      (Error.tool_violation (text "Patch changes too many files."))
  guard (leb (changed_line_count patch) max_changed_lines)
      (Error.tool_violation (text "Patch changes too many lines."))
  guard (same_names (map (λ e. e.0) expected) changed)
      (Error.tool_violation (text "Expected file hashes must list exactly every changed file."))
  check_files world a expected changed
  tested ← world.check_patch patch
  guard tested.succeeded
      (Error.tool_violation (text "Patch rejected: " ++ bounded_text 2000 tested.stderr))
  ok changed
