-- ===== src/Tickets.antt =====
-- src/agents/to_tickets.py: one approved plan becomes a list of worker tasks.
pub mod Order
pub mod Outcome
use git_hub_issue_to_impleme.Prelude.{
  ◌>>=◌, ◌>>◌, ℕ, zero, suc, ◌+◌, ◌-◌, ◌*◌, ◌/◌, ok, or_raise, Bool, Option, none, some, List, [],
  ◌∷◌, ◌++◌, map, leb, if◌then◌else◌, not, ◌==◌, nat_eq, pair_eq, length, or_else, Text, text,
  text_eq, join, decimal, Error, Result, guard, sort,
}
use git_hub_issue_to_impleme.Schemas.Planning.{ImplementationStep, ImplementationPlan, PlannedTest}
use git_hub_issue_to_impleme.Schemas.Handoff.{PlannerHandoff}
use git_hub_issue_to_impleme.Schemas.Runtime.{WorkerTask, validate_task}

abbrev pub order_le : ImplementationStep → ImplementationStep → Bool
order_le s t = leb s.order t.order

abbrev pub sort_steps : List ImplementationStep → List ImplementationStep
sort_steps steps = sort order_le steps

-- `list(range(k, k + n))`
unfoldable pub range : ℕ → ℕ → List ℕ
range k zero = []
range k (suc n) = k ∷ range (suc k) n

abbrev pub orders : List ImplementationStep → List ℕ
orders = map (λ s. s.order)

-- f"{run_id}/step-{order}"
unfoldable pub step_task_id : Text → ℕ → Text
step_task_id run_id order = run_id ++ text "/step-" ++ decimal order

-- `task_ids_by_order[order]`, for the dict built from the steps; `none` is a missing key.
unfoldable pub task_id_of : Text → List ImplementationStep → ℕ → Option Text
task_id_of run_id [] d = none
task_id_of run_id (s ∷ steps) d =
    if s.order == d then some (step_task_id run_id s.order) else task_id_of run_id steps d

abbrev pub dependency_missing : Error
dependency_missing = Error.value_error (text "Implementation step dependency does not exist.")

abbrev pub orders_not_contiguous : Error
orders_not_contiguous =
    Error.value_error (text "Implementation plan steps must have contiguous order values.")

unfoldable pub dependency_ids : (ℕ → Option Text) → List ℕ → Result (List Text)
dependency_ids find [] = ok []
dependency_ids find (d ∷ ds) = do
  i ← or_raise (find d) dependency_missing
  rest ← dependency_ids find ds
  ok (i ∷ rest)

-- The lines that list the planned tests; nothing if there are none.
unfoldable pub planned_tests_text : List PlannedTest → Text
planned_tests_text [] = []
planned_tests_text (t ∷ ts) =
    text "\n\nPlanned verification:\n"
    ++ join (text "\n") (map (λ (p : PlannedTest). text "- " ++ p.description) (t ∷ ts))

unfoldable pub step_description : PlannerHandoff → ImplementationStep → Text
step_description h s =
    s.description
    ++ text "\n\nRationale: "
    ++ s.rationale
    ++ planned_tests_text h.implementation_plan.planned_tests

abbrev pub default_skills : List Text
default_skills = text "implement" ∷ text "tdd" ∷ text "code-review" ∷ []

unfoldable pub step_task : PlannerHandoff → Text → List Text → ImplementationStep → WorkerTask
step_task h task_id blocked_by s = record {
  run_id = h.run_id;
  task_id = task_id;
  title = text "Step " ++ decimal s.order ++ text ": " ++ s.description;
  description = step_description h s;
  blocked_by = blocked_by;
  acceptance_criteria = h.issue_brief.acceptance_criteria;
  assigned_paths = or_else s.affected_files (text "src/**" ∷ []);
  required_checks = h.approved_checks;
  required_skills = default_skills;
}

-- One round of the loop; `WorkerTask(...)` validates what it is given.
unfoldable pub task_from_step :
    PlannerHandoff → (ℕ → Option Text) → ImplementationStep → Result WorkerTask
task_from_step h find s = do
  blocked_by ← dependency_ids find s.depends_on
  validate_task (step_task h (step_task_id h.run_id s.order) blocked_by s)

unfoldable pub tasks_loop :
    PlannerHandoff → (ℕ → Option Text) → List ImplementationStep → Result (List WorkerTask)
tasks_loop h find [] = ok []
tasks_loop h find (s ∷ steps) = do
  task ← task_from_step h find s
  rest ← tasks_loop h find steps
  ok (task ∷ rest)

unfoldable pub tasks_from_handoff : PlannerHandoff → Result (List WorkerTask)
tasks_from_handoff h = do
  let steps = sort_steps h.implementation_plan.steps
  guard (orders steps == range 1 (length steps)) orders_not_contiguous
  tasks_loop h (task_id_of h.run_id steps) steps
