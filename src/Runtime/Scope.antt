-- ===== src/Runtime/Scope.antt =====
-- What `git_commit` of `RuntimeToolService` checks before it changes anything.
use git_hub_issue_to_impleme.Prelude.{
  ◌||◌, Option, none, some, List, [], ◌∷◌, ◌++◌, ltb, eqb, if◌then◌else◌, not, nat_eq, pair_eq,
  length, is_empty, drop, any, Text, text, text_eq, texts_eq, strip, splitlines, split_first, Error,
  Result, guard, ◌>>=◌, ◌>>◌, ok,
}
use git_hub_issue_to_impleme.Schemas.Runtime.{WorkerAssignment}
use git_hub_issue_to_impleme.Guard.{Tree}
use git_hub_issue_to_impleme.Guard.Ownership.{Answer, Machine, verify_ownership}
use git_hub_issue_to_impleme.Runtime.Service.{max_process_output, bounded_text}
use git_hub_issue_to_impleme.Runtime.Limits.{max_commit_message}
use git_hub_issue_to_impleme.Runtime.Approval.{guarded_path}

-- `path.split(" -> ", 1)`, if there is an arrow in the path.
abbrev pub renamed : Text → Option (Text × Text) → List Text
renamed path none = path ∷ []
renamed path (some (source, target)) = source ∷ target ∷ []

-- A line of `git status --porcelain`: two letters, a space and the path.
abbrev pub paths_of_line : Text → List Text
paths_of_line line = renamed (drop 3 line) (split_first (text " -> ") (drop 3 line))

unfoldable pub paths_of_status : List Text → List Text
paths_of_status [] = []
paths_of_status (line ∷ lines) =
    let rest = paths_of_status lines in
    if ltb (length line) 4 then rest else paths_of_line line ++ rest

unfoldable pub status_paths : Text → List Text
status_paths output = paths_of_status (splitlines output)

-- `for relative_path in changed_files: self.guard.path_for(relative_path)`
unfoldable pub check_scope : Machine → Tree → WorkerAssignment → List Text → Result (Unit {0})
check_scope machine tree a [] = ok tt
check_scope machine tree a (path ∷ paths) = do
  file ← guarded_path machine tree a path
  check_scope machine tree a paths

-- What the commands of one call answer; each raises where Git is unavailable or too slow. The
-- commands of `verify_ownership` are those of `machine`.
pub record Repository : Type 0 where
  pub machine : Machine
  pub tree : Tree
  pub status : Result Answer
  pub diff : Result Answer
  pub porcelain : Result Answer
  pub add : Result Answer
  pub commit : Text → Result Answer
  pub revision : Result Answer
  pub branch : Result Answer

-- What `git_commit` checks before it changes anything, with the paths that have changed.
unfoldable pub approve_commit : Repository → WorkerAssignment → Text → Result (List Text)
approve_commit repository a message = do
  worktree ← verify_ownership repository.machine a
  guard (not (is_empty (strip message)))
      (Error.tool_violation (text "Commit message cannot be empty."))
  guard (not (ltb max_commit_message (length message) || any (λ c. eqb c 0) message))
      (Error.tool_violation (text "Commit message is invalid or too long."))
  answer ← repository.porcelain
  guard answer.succeeded (
      Error.tool_violation
        (text "Git status failed: " ++ bounded_text max_process_output answer.stderr))
  check_scope repository.machine repository.tree a (status_paths answer.stdout)
  ok (status_paths answer.stdout)
