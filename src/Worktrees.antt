-- ===== src/Worktrees.antt =====
-- src/agents/worktrees.py: `WorktreeManager`. Git and the file system are a parameter: a method of
-- `Git` says what the command came to, and whether a path exists before it.
use git_hub_issue_to_impleme.Prelude.{
  ℕ, zero, suc, ◌+◌, ◌-◌, ◌*◌, ◌/◌, ◌%◌, ◌≤◌, ◌<◌, ◌≡◌, refl, sym, ap, ap₂, ◌∙◌, subst, ◌≢◌, ◌↔◌,
  ◌⊎◌, inl, inr, Bool, true, false, ◌&&◌, ◌||◌, Option, none, some, List, [], ◌∷◌, ◌++◌, map,
  append-nil, append_assoc, arith, ltb, leb, eqb, if◌then◌else◌, not, ltb→lt, leb→le, le→leb,
  eqb_iff, Bool-cases, Option-cases, and_true, and_intro, Eq, nat_eq, ◌==◌, beq_refl, pair_beq,
  pair_beq_iff, pair_eq, some-injective, true≢false, beq-false_sym, or_false, not-true, or_true,
  or_left_comm, beq-true_sym, length, is_empty, or_else, take, drop, any, all, keep, head?, All, In,
  length-append, All-append, All-map, In-append_left, In-append_right, In-append, All-In, all_iff,
  contains, contains_iff, without, not-any, is_empty-append, is_empty-append_left, Text, text,
  text_beq, text_beq_iff, text_eq, starts_with, is_substring, ends_with, is_space, strip_left,
  strip, push_char, split_on, join, decimal_on, decimal, IsFree, split_on-IsFree, split_on-join,
  Error, is_value_error, Result, is_ok, guard, ◌>>=◌, ◌>>◌, >>=-eq-ok, ok-injective, err≢ok,
  or_raise, or_raise-eq-ok, guard-eq-ok, Result-cases, insert_sorted, sort, HeadAbove, IsOrdered,
  sort-IsOrdered, sort-fixed, sort-All, length-sort, ok, err,
}
use git_hub_issue_to_impleme.Schemas.Runtime.{ProviderName, WorkerAssignment, assignment_is_valid}
pub mod Distinct

pub record Git : Type 0 where
  pub verify_commit : Text → Result (Unit {0})
  pub path_exists : Text → Bool
  pub add_worktree : Text → Text → Text → Result (Unit {0})

abbrev pub is_alphanumeric : ℕ → Bool
is_alphanumeric c = leb 48 c && leb c 57 || (leb 65 c && leb c 90 || leb 97 c && leb c 122)

-- `[A-Za-z0-9._-]`
unfoldable pub is_identifier_char : ℕ → Bool
is_identifier_char c = is_alphanumeric c || (eqb c 46 || (eqb c 95 || eqb c 45))

-- `SAFE_IDENTIFIER`
unfoldable pub is_identifier : Text → Bool
is_identifier [] = false
is_identifier (c ∷ t) = is_alphanumeric c && (all is_identifier_char t && leb (length t) 63)

-- `SAFE_TASK_IDENTIFIER`: identifiers with slashes between them
unfoldable pub is_task_identifier : Text → Bool
is_task_identifier t = all is_identifier (split_on b'/' t)

abbrev pub invalid_characters : Text → Error
invalid_characters label = Error.worktree_error (label ++ text " contains invalid characters.")

unfoldable pub provider_named : Text → Option ProviderName
provider_named name =
    if name == text "codex"
    then some ProviderName.codex
    else (if name == text "claude" then some ProviderName.claude else none)

unfoldable pub branch_of : Text → Text → Text
branch_of run_id worker_id = text "chief/" ++ (run_id ++ (text "/" ++ worker_id))

unfoldable pub worktree_path_of : Text → Text → Text → Text
worktree_path_of workspace run_id worker_id =
    workspace ++ (text "/.chief/worktrees/" ++ (run_id ++ (text "/" ++ worker_id)))

-- What the caller asks for.
pub record Request : Type 0 where
  pub run_id : Text
  pub task_id : Text
  pub worker_id : Text
  pub base_commit : Text
  pub assigned_paths : List Text
  pub approved_checks : List (List Text)
  pub required_skills : List Text
  pub provider : Text
  pub timeout_seconds : ℕ

abbrev pub default_worker_skills : List Text
default_worker_skills = text "implement" ∷ text "tdd" ∷ text "code-review" ∷ []

unfoldable pub assignment_for : Text → Request → ProviderName → WorkerAssignment
assignment_for workspace q provider = record {
  run_id = q.run_id;
  worker_id = q.worker_id;
  task_id = q.task_id;
  project_workspace = workspace;
  worktree_path = worktree_path_of workspace q.run_id q.worker_id;
  branch = branch_of q.run_id q.worker_id;
  base_commit = q.base_commit;
  assigned_paths = q.assigned_paths;
  approved_checks = q.approved_checks;
  required_skills = or_else q.required_skills default_worker_skills;
  protected_branches = text "main" ∷ text "master" ∷ [];
  provider = provider;
  timeout_seconds = q.timeout_seconds;
}

-- `create_assignment`; what it removes after a failed `git worktree add` is the file system's.
unfoldable pub create_assignment : Git → Text → Request → Result WorkerAssignment
create_assignment git workspace q = do
  guard (is_identifier q.run_id) (invalid_characters (text "run_id"))
  guard (is_task_identifier q.task_id) (invalid_characters (text "task_id"))
  guard (is_identifier q.worker_id) (invalid_characters (text "worker_id"))
  provider ←
      or_raise (provider_named q.provider)
        (Error.worktree_error (text "provider must be codex or claude."))
  git.verify_commit q.base_commit
  guard (not (git.path_exists (worktree_path_of workspace q.run_id q.worker_id))) (
      Error.worktree_error (
        text "Worker worktree already exists: " ++ worktree_path_of workspace q.run_id q.worker_id))
  git.add_worktree (branch_of q.run_id q.worker_id)
      (worktree_path_of workspace q.run_id q.worker_id) q.base_commit
  guard (assignment_is_valid (assignment_for workspace q provider)) Error.validation_error
  ok (assignment_for workspace q provider)
