-- ===== src/Chief/Session.antt =====
-- The methods of `ChiefCoordinator` in src/agents/chief.py that take a handoff and a result, over
-- the store. A method makes several calls of the store; call `i` runs at the time `clock i`.
use git_hub_issue_to_impleme.Prelude.{
  ℕ, suc, ◌+◌, false, Option, none, some, List, [], ◌∷◌, if◌then◌else◌, nat_eq, ◌==◌, pair_eq,
  length, Text, text, text_eq, Error, Result, guard, ok, err,
}
use git_hub_issue_to_impleme.Schemas.Handoff.{Host, PlannerHandoff}
use git_hub_issue_to_impleme.Schemas.Runtime.{WorkerAssignment, WorkerResult, WorkerTask}
use git_hub_issue_to_impleme.Tickets.{tasks_from_handoff}
use git_hub_issue_to_impleme.Gate.{SkillTraceDecision, check}
use git_hub_issue_to_impleme.Store.Database.{Database, RunRow, Value, Disk, transact}
use git_hub_issue_to_impleme.Store.Operations.{Command, perform}
use git_hub_issue_to_impleme.Store.Queries.{Engine, get_run, get_worker}

-- A computation on the file that Chief keeps. What it wrote before it raises stays written.
abbrev pub Session : Type 0 → Type 0
Session A = Disk → Result A × Disk

abbrev pub proceed : {A B : Type 0} → Result A × Disk → (A → Session B) → Result B × Disk
proceed (ok a, d) next = next a d
proceed (err e, d) next = (err e, d)

-- A method that reads.
unfoldable pub ask : {A : Type 0} → (Database → A) → Session A
ask query d = transact (λ db. ok (query db, db)) d

-- Of a computation that does not touch the file.
abbrev pub lift : {A : Type 0} → Result A → Session A
lift r d = (r, d)

abbrev pub created : Text
created = text "created"

-- `start_run`
unfoldable pub start_run : Text → ℕ → Text → Text → Session (Unit {0})
start_run workspace now run_id base_commit d =
    perform now (Command.create_run workspace run_id base_commit created) d

-- The run is started, or has to have the handoff's base commit.
unfoldable pub ensure_run : Text → ℕ → PlannerHandoff → Option RunRow → Session (Unit {0})
ensure_run workspace now h none d = start_run workspace now h.run_id h.base_commit d
ensure_run workspace now h (some existing) d =
    lift
      (guard (existing.base_commit == h.base_commit)
        (Error.value_error (text "Planner handoff base commit does not match the run.")))
      d

-- `accept_planner_handoff`
unfoldable pub accept_planner_handoff :
    Host → Text → (ℕ → ℕ) → PlannerHandoff → Session (List WorkerTask)
accept_planner_handoff host workspace clock h d =
    proceed
      (lift
        (guard (host.resolve (host.expanduser h.repository_path) == workspace)
          (Error.value_error (text "Planner handoff repository does not match Chief workspace.")))
        d)
      (λ _ d. proceed (ask (get_run h.run_id) d) (λ existing d.
        proceed (ensure_run workspace (clock 0) h existing d) (λ _ d.
          proceed (perform (clock 1) (Command.record_handoff h) d) (λ _ d.
            proceed (perform (clock 2) (Command.set_run_status h.run_id (text "plan_approved")) d)
              (λ _ d. lift (tasks_from_handoff h) d)))))

-- `for task in tasks: self.state_store.record_task(task)`
unfoldable pub record_tasks : (ℕ → ℕ) → ℕ → List WorkerTask → Session (Unit {0})
record_tasks clock i [] d = (ok tt, d)
record_tasks clock i (task ∷ tasks) d =
    proceed (perform (clock i) (Command.record_task task) d)
      (λ _ d. record_tasks clock (suc i) tasks d)

-- `create_tasks_from_handoff`
unfoldable pub create_tasks_from_handoff :
    Host → Text → (ℕ → ℕ) → PlannerHandoff → Session (List WorkerTask)
create_tasks_from_handoff host workspace clock h d =
    proceed (accept_planner_handoff host workspace clock h d) (λ tasks d.
      proceed (record_tasks clock 3 tasks d) (λ _ d.
        proceed
          (perform (clock (3 + length tasks)) (Command.set_run_status h.run_id (text "delegating"))
            d)
          (λ _ d. (ok tasks, d))))

abbrev pub no_assignment : SkillTraceDecision
no_assignment = record {
  accepted = false;
  missing_phases = [];
  violations = text "WorkerResult has no recorded assignment." ∷ [];
}

-- The gate is asked with the worker's recorded assignment.
unfoldable pub decide_result : WorkerResult → Option WorkerAssignment → SkillTraceDecision
decide_result r none = no_assignment
decide_result r (some a) = check r (some a)

-- The event that says how the result was judged.
unfoldable pub judgement : WorkerResult → SkillTraceDecision → Command
judgement r decision =
    if decision.accepted
    then Command.record_event r.run_id (text "worker_result_accepted")
        ((text "worker_id", Value.str r.worker_id) ∷ (text "task_id", Value.str r.task_id) ∷ [])
    else Command.record_event r.run_id (text "worker_result_rejected") (
        (text "worker_id", Value.str r.worker_id)
        ∷ (text "task_id", Value.str r.task_id)
        ∷ (text "missing_phases", Value.strs decision.missing_phases)
        ∷ (text "violations", Value.strs decision.violations)
        ∷ [])

-- `accept_worker_result`
unfoldable pub accept_worker_result : Engine → (ℕ → ℕ) → WorkerResult → Session SkillTraceDecision
accept_worker_result engine clock r d =
    proceed (ask (λ db. decide_result r (get_worker engine r.worker_id db)) d) (λ decision d.
      proceed (perform (clock 0) (Command.record_worker_result r) d)
        (λ _ d. proceed (perform (clock 1) (judgement r decision) d) (λ _ d. (ok decision, d))))
