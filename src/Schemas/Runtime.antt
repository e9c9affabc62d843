-- ===== src/Schemas/Runtime.antt =====
-- src/schemas/runtime.py: what Chief and its workers exchange, with the validators.
use git_hub_issue_to_impleme.Prelude.{
  ℕ, Text, Bool, true, false, ◌&&◌, not, leb, is_empty, all, List, Option, none, some, Result, ok,
  err, Error, if◌then◌else◌,
}

pub data ProviderName : Type 0 where
  codex claude : ProviderName

pub record WorkerAssignment : Type 0 where
  pub run_id : Text
  pub worker_id : Text
  pub task_id : Text
  pub project_workspace : Text
  pub worktree_path : Text
  pub branch : Text
  pub base_commit : Text
  pub assigned_paths : List Text
  pub approved_checks : List (List Text)
  pub required_skills : List Text
  pub protected_branches : List Text
  pub provider : ProviderName
  pub timeout_seconds : ℕ

abbrev present : Text → Bool
present t = not (is_empty t)

-- The `min_length`, `ge` and `le` bounds of the fields.
unfoldable pub assignment_is_valid : WorkerAssignment → Bool
assignment_is_valid a =
    present a.run_id
    && present a.worker_id
    && present a.task_id
    && present a.project_workspace
    && present a.worktree_path
    && present a.branch
    && present a.base_commit
    && not (is_empty a.assigned_paths)
    && leb 1 a.timeout_seconds
    && leb a.timeout_seconds 86400

pub record WorkerTask : Type 0 where
  pub run_id : Text
  pub task_id : Text
  pub title : Text
  pub description : Text
  pub blocked_by : List Text
  pub acceptance_criteria : List Text
  pub assigned_paths : List Text
  pub required_checks : List (List Text)
  pub required_skills : List Text

unfoldable pub task_is_valid : WorkerTask → Bool
task_is_valid t =
    present t.run_id
    && present t.task_id
    && present t.title
    && present t.description
    && not (is_empty t.acceptance_criteria)
    && not (is_empty t.assigned_paths)

unfoldable pub validate_task : WorkerTask → Result WorkerTask
unfolding task_is_valid
validate_task t = if task_is_valid t then ok t else err Error.validation_error

pub data Priority : Type 0 where
  immediate error_detection workflow : Priority

pub data EntryKind : Type 0 where
  task change_request : EntryKind

pub record QueueEntry : Type 0 where
  pub queue_id : Text
  pub run_id : Text
  pub worker_id : Text
  pub sequence : ℕ
  pub priority : Priority
  pub kind : EntryKind
  pub task_id : Text
  pub title : Text
  pub description : Text
  pub blocked_by : List Text
  pub acceptance_criteria : List Text
  pub assigned_paths : List Text
  pub required_checks : List (List Text)
  pub required_skills : List Text
  pub supersedes_entry_id : Option Text

abbrev names_entry : Option Text → Bool
names_entry none = false
names_entry (some t) = present t

-- The field bounds and `change_requests_must_point_to_an_entry`.
unfoldable pub entry_is_valid : QueueEntry → Bool
entry_is_valid q =
    present q.queue_id
    && present q.run_id
    && present q.worker_id
    && leb 1 q.sequence
    && present q.task_id
    && present q.title
    && present q.description
    && elim q.kind [
      | EntryKind.task ↦ true
      | EntryKind.change_request ↦ names_entry q.supersedes_entry_id
    ]

pub data Phase : Type 0 where
  started red green reviewed completed failed : Phase

pub data TraceStatus : Type 0 where
  started completed failed : TraceStatus

-- `evidence` is free-form and read nowhere: its keys with the JSON text of each value.
pub record SkillTrace : Type 0 where
  pub sequence : ℕ
  pub skill : Text
  pub phase : Phase
  pub status : TraceStatus
  pub evidence : List (Text × Text)

unfoldable pub trace_is_valid : SkillTrace → Bool
trace_is_valid t = leb 1 t.sequence && present t.skill

pub data CheckStatus : Type 0 where
  passed failed timed_out : CheckStatus

pub record CheckObservation : Type 0 where
  pub name : Text
  pub status : CheckStatus

pub data WorkerStatus : Type 0 where
  completed failed blocked : WorkerStatus

pub record WorkerResult : Type 0 where
  pub run_id : Text
  pub worker_id : Text
  pub task_id : Text
  pub status : WorkerStatus
  pub commit : Option Text
  pub changed_files : List Text
  pub checks : List CheckObservation
  pub skill_trace : List SkillTrace
  pub errors : List Text
  pub open_questions : List Text

unfoldable pub result_is_valid : WorkerResult → Bool
unfolding trace_is_valid
result_is_valid r =
    present r.run_id
    && present r.worker_id
    && present r.task_id
    && all (λ c. present c.name) r.checks
    && all trace_is_valid r.skill_trace

-- `if result.commit`
abbrev pub has_commit : Option Text → Bool
has_commit none = false
has_commit (some t) = present t

-- `PatchResult`, whose status is always "applied".
pub record PatchResult : Type 0 where
  pub changed_files : List Text

-- `Popen.returncode`: a process exits with a number, or a signal kills it.
pub data ExitCode : Type 0 where
  exited killed : ℕ → ExitCode

pub record CheckResult : Type 0 where
  pub status : CheckStatus
  pub argv : List Text
  pub exit_code : ExitCode
  pub stdout : Text
  pub stderr : Text

pub data GitStatus : Type 0 where
  clean changes committed no_changes : GitStatus

pub record GitResult : Type 0 where
  pub status : GitStatus
  pub branch : Text
  pub output : Text
  pub commit : Option Text
