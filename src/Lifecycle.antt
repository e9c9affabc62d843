-- ===== src/Lifecycle.antt =====
-- src/agents/lifecycle.py: `WorkerLifecycleManager`. The worker processes are not part of the
-- repository: that one started, how it ended and what it left in its result file are arguments.
use git_hub_issue_to_impleme.Prelude.{
  ℕ, zero, suc, ◌+◌, ◌-◌, ◌*◌, ◌/◌, ◌%◌, ◌≤◌, ◌<◌, ◌≡◌, refl, sym, ap, ap₂, ◌∙◌, subst, ◌≢◌, ◌↔◌,
  ◌⊎◌, inl, inr, Bool, true, false, ◌&&◌, ◌||◌, Option, none, some, List, [], ◌∷◌, ◌++◌, map,
  append-nil, append_assoc, arith, ltb, leb, eqb, if◌then◌else◌, not, ltb→lt, leb→le, le→leb,
  eqb_iff, Bool-cases, Option-cases, and_true, and_intro, Eq, nat_eq, ◌==◌, beq_refl, pair_beq,
  pair_beq_iff, pair_eq, some-injective, true≢false, beq-false_sym, or_false, not-true, or_true,
  or_left_comm, beq-true_sym, length, is_empty, or_else, take, drop, any, all, keep, head?, All, In,
  length-append, All-append, All-map, In-append_left, In-append_right, In-append, All-In, all_iff,
  contains, contains_iff, without, not-any, is_empty-append, is_empty-append_left, Text, text,
  text_beq, text_beq_iff, text_eq, starts_with, is_substring, ends_with, is_space, strip_left,
  strip, push_char, split_on, join, decimal_on, decimal, IsFree, split_on-IsFree, split_on-join,
  Error, is_value_error, Result, is_ok, guard, ◌>>=◌, ◌>>◌, >>=-eq-ok, ok-injective, err≢ok,
  or_raise, or_raise-eq-ok, guard-eq-ok, Result-cases, insert_sorted, sort, HeadAbove, IsOrdered,
  sort-IsOrdered, sort-fixed, sort-All, length-sort, ok, err,
}
use git_hub_issue_to_impleme.Schemas.Runtime.{
  ProviderName, WorkerAssignment, WorkerResult, WorkerStatus,
}
use git_hub_issue_to_impleme.Gate.{SkillTraceDecision}
use git_hub_issue_to_impleme.Store.Database.{Disk, Value}
use git_hub_issue_to_impleme.Store.Operations.{Command, perform}
use git_hub_issue_to_impleme.Store.Queries.{
  Engine, get_worker, workers_for_run, worker_results_for_run,
}
use git_hub_issue_to_impleme.Chief.Report.{dict_set}
use git_hub_issue_to_impleme.Chief.Session.{Session, proceed, ask, lift, accept_worker_result}
pub mod Ending
pub mod Recovered
pub mod Control

-- The result file: not there, not a valid result (with the exception's text), or a result.
pub data ResultFile : Type 0 where
  missing : ResultFile
  invalid : Text → ResultFile
  valid : WorkerResult → ResultFile

abbrev pub failed_result : WorkerAssignment → Text → WorkerResult
failed_result a error = record {
  run_id = a.run_id;
  worker_id = a.worker_id;
  task_id = a.task_id;
  status = WorkerStatus.failed;
  commit = none;
  changed_files = [];
  checks = [];
  skill_trace = [];
  errors = error ∷ [];
  open_questions = [];
}

-- The error of a worker without a usable result, with how its process ended.
unfoldable pub explained : Text → Text → Text
explained status error =
    if status == text "timed_out"
    then text "Worker timed out. " ++ error
    else (if status == text "failed" then text "Worker process failed. " ++ error else error)

-- `_read_result`, for an execution with the given status
unfoldable pub read_result : WorkerAssignment → ResultFile → Text → WorkerResult
read_result a missing status =
    failed_result a (explained status (text "Worker did not write a WorkerResult file."))
read_result a (invalid exc) status =
    failed_result a (explained status (text "WorkerResult could not be validated: " ++ exc))
read_result a (valid r) status = if status == text "completed" then r else record r {
  status = WorkerStatus.failed;
  errors = r.errors ++ (text "Worker process ended with status " ++ status ++ text ".") ∷ [];
}

-- `_active`, whose process and result path belong to the assignment.
abbrev pub Active : Type 0
Active = List (Text × WorkerAssignment)

unfoldable pub find_active : Text → Active → Option WorkerAssignment
find_active worker_id [] = none
find_active worker_id ((k, a) ∷ active) =
    if k == worker_id then some a else find_active worker_id active

-- `self._active.pop(worker_id, None)`
unfoldable pub pop_active : Text → Active → Active
pop_active worker_id [] = []
pop_active worker_id ((k, a) ∷ active) =
    let rest = pop_active worker_id active in if k == worker_id then rest else (k, a) ∷ rest

abbrev pub provider_text : ProviderName → Text
provider_text ProviderName.codex = text "codex"
provider_text ProviderName.claude = text "claude"

abbrev record_unless_known : ℕ → WorkerAssignment → Option WorkerAssignment → Session (Unit {0})
record_unless_known now a none d = perform now (Command.record_worker a) d
record_unless_known now a (some known) d = (ok tt, d)

-- The store's part of `start`.
unfoldable pub record_start : Engine → (ℕ → ℕ) → WorkerAssignment → Text → Session (Unit {0})
record_start engine clock a provider d = proceed (ask (get_worker engine a.worker_id) d) (λ known d.
    proceed (record_unless_known (clock 0) a known d) (λ _ d.
      perform (clock 1)
        (Command.record_event a.run_id (text "worker_started")
          ((text "worker_id", Value.str a.worker_id) ∷ (text "provider", Value.str provider) ∷ []))
        d))

abbrev started :
    Engine
    → (ℕ → ℕ)
    → WorkerAssignment
    → Text
    → Active
    → Disk
    → Result (Unit {0})
    → Result (Unit {0}) × Active × Disk
started engine clock a provider active d (err e) = (err e, active, d)
started engine clock a provider active d (ok u) =
    let (recorded, d') = record_start engine clock a provider d in
    (recorded, dict_set a.worker_id a active, d')

-- `start`; `launched` is what launching the process came to. An error of the store leaves the
-- worker active.
unfoldable pub start_worker :
    Engine
    → (ℕ → ℕ)
    → WorkerAssignment
    → Text
    → Result (Unit {0})
    → Active
    → Disk
    → Result (Unit {0}) × Active × Disk
start_worker engine clock a provider launched active d = elim (find_active a.worker_id active) [
  | some busy ↦
      (err (Error.value_error (text "Worker is already active: " ++ a.worker_id)), active, d)
  | none ↦
      if provider == provider_text a.provider
      then started engine clock a provider active d launched
      else (
        err (Error.value_error (text "Provider does not match the worker assignment.")),
        active,
        d,
      )
]

-- `WorkerLifecycleOutcome`, without the process output
pub record Outcome : Type 0 where
  pub status : Text
  pub result : WorkerResult
  pub decision : SkillTraceDecision

abbrev pub finished : WorkerAssignment → Text → Text → SkillTraceDecision → Command
finished a worker_id status decision = Command.record_event a.run_id (text "worker_finished") (
    (text "worker_id", Value.str worker_id)
    ∷ (text "status", Value.str status)
    ∷ (text "accepted", Value.flag decision.accepted)
    ∷ [])

-- The rest of `wait`, once the result is judged; the worker is active until then.
unfoldable pub finish :
    ℕ
    → WorkerAssignment
    → Text
    → Text
    → WorkerResult
    → Active
    → Result SkillTraceDecision × Disk
    → Result Outcome × Active × Disk
finish now a worker_id status r active (err e, d) = (err e, active, d)
finish now a worker_id status r active (ok decision, d) =
    let (logged, d') = perform now (finished a worker_id status decision) d in
    (
      logged >> ok (record { status = status; result = r; decision = decision }),
      pop_active worker_id active,
      d',
    )

abbrev pub wait_for :
    Engine
    → (ℕ → ℕ)
    → Text
    → Text
    → ResultFile
    → Active
    → Disk
    → Option WorkerAssignment
    → Result Outcome × Active × Disk
wait_for engine clock worker_id status file active d none =
    (err (Error.key_error (text "Worker is not active: " ++ worker_id)), active, d)
wait_for engine clock worker_id status file active d (some a) =
    finish (clock 2) a worker_id status (read_result a file status) active
      (accept_worker_result engine clock (read_result a file status) d)

-- `wait`, for a process that ended with the given status
unfoldable pub wait :
    Engine → (ℕ → ℕ) → Text → Text → ResultFile → Active → Disk → Result Outcome × Active × Disk
wait engine clock worker_id status file active d =
    wait_for engine clock worker_id status file active d (find_active worker_id active)

-- Does a result of the worker on its task stand in the list?
unfoldable pub is_finished : List WorkerResult → WorkerAssignment → Bool
is_finished results a =
    contains {A = Text × Text} (map (λ (r : WorkerResult). (r.worker_id, r.task_id)) results)
      (a.worker_id, a.task_id)

-- `recoverable_assignments`
unfoldable pub recoverable_assignments : Engine → Text → Session (List WorkerAssignment)
recoverable_assignments engine run_id d =
    proceed (ask (worker_results_for_run engine run_id) d) (λ results d.
      proceed (ask (workers_for_run engine run_id) d)
        (λ workers d. (ok (keep (λ a. not (is_finished results a)) workers), d)))
