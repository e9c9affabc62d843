-- ===== src/Runtime/Git.antt =====
-- `git_status`, `git_diff` and `git_commit` of `RuntimeToolService`.
use git_hub_issue_to_impleme.Prelude.{
  Option, none, some, List, [], ◌∷◌, ◌++◌, if◌then◌else◌, nat_eq, pair_eq, is_empty, Text, text,
  text_eq, texts_eq, strip,
}
use git_hub_issue_to_impleme.Schemas.Runtime.{WorkerAssignment, GitStatus, GitResult}
use git_hub_issue_to_impleme.Guard.Ownership.{Answer, verify_ownership}
use git_hub_issue_to_impleme.Runtime.Tool.{
  Detail, Effect, Tool, ◌>>=◌, ◌>>◌, lift, give, require, act, record_event,
}
use git_hub_issue_to_impleme.Runtime.Service.{max_process_output, bounded_text}
use git_hub_issue_to_impleme.Runtime.Scope.{Repository, approve_commit}

-- `_branch`
abbrev pub current_branch : Repository → Tool Text
current_branch repository = do answer ← lift repository.branch; give (strip answer.stdout)

unfoldable pub git_status : Repository → WorkerAssignment → Tool GitResult
git_status repository a = do
  worktree ← lift (verify_ownership repository.machine a)
  answer ← lift repository.status
  require answer.succeeded
      (text "Git status failed: " ++ bounded_text max_process_output answer.stderr)
  branch ← current_branch repository
  let output = bounded_text max_process_output answer.stdout
  give (record {
    status = if is_empty (strip output) then GitStatus.clean else GitStatus.changes;
    branch = branch;
    output = output;
    commit = none;
  })

-- `MAX_COMMAND_OUTPUT` is 12000 too.
unfoldable pub git_diff : Repository → WorkerAssignment → Tool Text
git_diff repository a = do
  worktree ← lift (verify_ownership repository.machine a)
  answer ← lift repository.diff
  require answer.succeeded
      (text "Git diff failed: " ++ bounded_text max_process_output answer.stderr)
  give (bounded_text max_process_output answer.stdout)

abbrev pub revision_of : Answer → Option Text
revision_of answer = if answer.succeeded then some (strip answer.stdout) else none

abbrev pub commit_detail : Option Text → Detail
commit_detail none = Detail.missing
commit_detail (some t) = Detail.str t

-- The rest of `git_commit`, once something is to be committed.
unfoldable pub commit_changes : Repository → WorkerAssignment → Text → Tool GitResult
commit_changes repository a message = do
  added ← act Effect.files_added repository.add
  require added.succeeded (text "Git add failed: " ++ bounded_text max_process_output added.stderr)
  committed ← act (Effect.committed message) (repository.commit message)
  require committed.succeeded
      (text "Git commit failed: " ++ bounded_text max_process_output committed.stderr)
  revision ← lift repository.revision
  record_event a.worker_id (text "git_commit") (text "committed")
      ((text "commit", commit_detail (revision_of revision)) ∷ [])
  branch ← current_branch repository
  give (record {
    status = GitStatus.committed;
    branch = branch;
    output = bounded_text max_process_output committed.stdout;
    commit = revision_of revision;
  })

abbrev pub commit_paths : Repository → WorkerAssignment → Text → List Text → Tool GitResult
commit_paths repository a message [] = do
  branch ← current_branch repository
  give (record { status = GitStatus.no_changes; branch = branch; output = []; commit = none })
commit_paths repository a message (path ∷ paths) = commit_changes repository a message

unfoldable pub git_commit : Repository → WorkerAssignment → Text → Tool GitResult
git_commit repository a message = do
  paths ← lift (approve_commit repository a message)
  commit_paths repository a message paths
