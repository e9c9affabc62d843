-- ===== src/Chief/Delegate.antt =====
-- `assign_task`, `delegate_tasks` and `retry_task` of `ChiefCoordinator` in src/agents/chief.py. The
-- calls of the store count the times of the clock; Git's answers are those for the paths and the
-- branches that are asked, which differ for each worker.
use git_hub_issue_to_impleme.Prelude.{
  ℕ, ◌+◌, Option, none, some, List, [], ◌∷◌, ◌++◌, nat_eq, ◌==◌, pair_eq, length, Text, text,
  text_eq, texts_eq, decimal, Error, guard, or_raise, ok,
}
use git_hub_issue_to_impleme.Schemas.Runtime.{WorkerAssignment, WorkerTask, QueueEntry, Priority}
use git_hub_issue_to_impleme.Schemas.Handoff.{PlannerHandoff}
use git_hub_issue_to_impleme.Store.Database.{Value}
use git_hub_issue_to_impleme.Store.Operations.{Command, perform}
use git_hub_issue_to_impleme.Store.Queries.{get_run, get_worker}
use git_hub_issue_to_impleme.Worktrees.{Request, create_assignment}
use git_hub_issue_to_impleme.Skills.Context.{prepare_subagent_context}
use git_hub_issue_to_impleme.Chief.Session.{ask, create_tasks_from_handoff}
use git_hub_issue_to_impleme.Chief.Board.{
  Setting, Coordinator, ◌>>=◌, ◌>>◌, pure, on_store, write_file, catalog_of, enqueue_task,
}

-- `prepare_worker_context`
unfoldable pub prepare_worker_context : Setting → WorkerAssignment → Text → Coordinator (Unit {0})
prepare_worker_context w a output_dir = do
  catalog ← catalog_of w
  bundle ← pure (prepare_subagent_context w.place w.dumps catalog a (text "runtime_worker"))
  write_file (output_dir ++ text "/sub_agents.md") bundle.rules
  write_file (output_dir ++ text "/context.agent") bundle.context

abbrev pub context_dir : Text → WorkerAssignment → Text
context_dir workspace a = workspace ++ (text "/.chief/workers/" ++ (a.worker_id ++ text "/context"))

abbrev pub worker_context_dir : WorkerAssignment → Text
worker_context_dir a = a.worktree_path ++ text "/.chief-worker/context"

-- The event `subagent_context_prepared`.
abbrev pub context_event : Text → WorkerAssignment → Command
context_event workspace a = Command.record_event a.run_id (text "subagent_context_prepared") (
    (text "worker_id", Value.str a.worker_id)
    ∷ (text "rules_file", Value.str (context_dir workspace a ++ text "/sub_agents.md"))
    ∷ (text "context_file", Value.str (context_dir workspace a ++ text "/context.agent"))
    ∷ (text "worker_rules_file", Value.str (worker_context_dir a ++ text "/sub_agents.md"))
    ∷ (text "worker_context_file", Value.str (worker_context_dir a ++ text "/context.agent"))
    ∷ [])

-- `assign_task`, whose first call of the store is call `i`
unfoldable pub assign_task :
    Setting → ℕ → WorkerTask → WorkerAssignment → ℕ → Priority → Coordinator QueueEntry
assign_task w i t a sequence priority = do
  pure (
      guard (t.run_id == a.run_id)
        (Error.value_error (text "Task and assignment must belong to the same run.")))
  pure (
      guard (t.task_id == a.task_id)
        (Error.value_error (text "Task and assignment must refer to the same task.")))
  prepare_worker_context w a (context_dir w.workspace a)
  prepare_worker_context w a (worker_context_dir a)
  on_store (perform (w.clock i) (context_event w.workspace a))
  on_store (perform (w.clock (i + 1)) (Command.record_task t))
  on_store (perform (w.clock (i + 2)) (Command.record_worker a))
  enqueue_task w (w.clock (i + 3)) a sequence priority t

-- What `create_assignment` is asked for a ticket.
abbrev pub request_for : Text → Text → Text → WorkerTask → Text → Request
request_for run_id base_commit worker_id t provider = record {
  run_id = run_id;
  task_id = t.task_id;
  worker_id = worker_id;
  base_commit = base_commit;
  assigned_paths = t.assigned_paths;
  approved_checks = t.required_checks;
  required_skills = t.required_skills;
  provider = provider;
  timeout_seconds = 3600;
}

abbrev pub worker_named : ℕ → Text
worker_named index = text "worker-" ++ decimal index

-- One ticket without a worker: a new worktree, and the ticket is given to it.
unfoldable pub delegate_new :
    Setting → ℕ → PlannerHandoff → Text → ℕ → WorkerTask → Coordinator WorkerAssignment
delegate_new w i h provider index t = do
  a ← pure (
      create_assignment w.git w.workspace
        (request_for h.run_id h.base_commit (worker_named index) t provider))
  assign_task w i t a index Priority.workflow >>= λ entry. pure (ok a)

-- A worker that the store already has is taken as it is.
unfoldable pub delegate_one :
    Setting
    → ℕ
    → PlannerHandoff
    → Text
    → ℕ
    → WorkerTask
    → Option WorkerAssignment
    → Coordinator WorkerAssignment
delegate_one w i h provider index t (some existing) = pure (ok existing)
delegate_one w i h provider index t none = delegate_new w i h provider index t

-- One round of the loop of `delegate_tasks`.
unfoldable pub delegate_ticket :
    Setting → ℕ → PlannerHandoff → Text → ℕ → WorkerTask → Coordinator WorkerAssignment
delegate_ticket w i h provider index t = do
  existing ← on_store (ask (get_worker w.engine (worker_named index)))
  delegate_one w i h provider index t existing

unfoldable pub delegate_each :
    Setting → ℕ → PlannerHandoff → Text → ℕ → List WorkerTask → Coordinator (List WorkerAssignment)
delegate_each w i h provider index [] = pure (ok [])
delegate_each w i h provider index (t ∷ tasks) = do
  a ← delegate_ticket w i h provider index t
  rest ← delegate_each w (i + 4) h provider (index + 1) tasks
  pure (ok (a ∷ rest))

-- `delegate_tasks`
unfoldable pub delegate_tasks :
    Setting → PlannerHandoff → Text → Coordinator (List WorkerAssignment)
delegate_tasks w h provider = do
  tasks ← on_store (create_tasks_from_handoff w.host w.workspace w.clock h)
  delegate_each w (4 + length tasks) h provider 1 tasks

-- `retry_task`
unfoldable pub retry_task : Setting → WorkerTask → Text → ℕ → Text → Coordinator WorkerAssignment
retry_task w t worker_id sequence provider = do
  found ← on_store (ask (get_run t.run_id))
  run ← pure (or_raise found (Error.value_error (text "Run does not exist: " ++ t.run_id)))
  a ← pure (
      create_assignment w.git w.workspace
        (request_for t.run_id run.base_commit worker_id t provider))
  entry ← assign_task w 0 t a sequence Priority.error_detection
  on_store (
      perform (w.clock 4) (
        Command.record_event t.run_id (text "worker_retry_created")
          ((text "worker_id", Value.str worker_id) ∷ (text "task_id", Value.str t.task_id) ∷ [])))
  pure (ok a)
