-- ===== src/Examples/Data.antt =====
-- One issue of this repository, its brief, plan and handoff, and a worker's result.
use git_hub_issue_to_impleme.Prelude.{
  ℕ, true, none, some, [], ◌∷◌, nat_eq, pair_eq, Text, text, text_eq,
}
use git_hub_issue_to_impleme.Schemas.Issue.{IssueInput, IssueBrief}
use git_hub_issue_to_impleme.Schemas.Repository.{RepositoryMap}
use git_hub_issue_to_impleme.Schemas.Planning.{ImplementationStep, ImplementationPlan}
use git_hub_issue_to_impleme.Schemas.Approval.{Action, PlanApprovalDecision}
use git_hub_issue_to_impleme.Schemas.Runtime.{
  ProviderName, WorkerAssignment, WorkerResult, WorkerStatus, SkillTrace, Phase, TraceStatus,
}
use git_hub_issue_to_impleme.Schemas.Handoff.{Host, PlannerHandoff}
use git_hub_issue_to_impleme.Workflow.Graph.{Answers}

abbrev pub issue : IssueInput
issue = record {
  repository = text "owner/repo";
  number = 7;
  title = text "Crash";
  body = [];
  labels = [];
  comments = [];
  url = none;
}

abbrev pub brief : IssueBrief
brief = record {
  summary = text "crash";
  problem_statement = text "it crashes";
  requirements = [];
  acceptance_criteria = text "no crash" ∷ [];
  in_scope = [];
  out_of_scope = [];
  assumptions = [];
  open_questions = [];
  risks = [];
  is_actionable = true;
  actionability_reason = text "clear";
}

abbrev pub repository_map : RepositoryMap
repository_map = record {
  summary = text "map";
  relevant_files = [];
  coding_conventions = [];
  related_tests = [];
  suggested_tests = [];
  risks = [];
  open_questions = [];
}

abbrev pub first_step : ImplementationStep
first_step = record {
  order = 1;
  description = text "fix";
  affected_files = text "src/app.py" ∷ [];
  rationale = text "why";
  depends_on = [];
}

abbrev pub second_step : ImplementationStep
second_step = record {
  order = 2;
  description = text "test";
  affected_files = text "tests/test_app.py" ∷ [];
  rationale = text "why";
  depends_on = 1 ∷ [];
}

-- Its steps stand in the reverse of their order.
abbrev pub plan : ImplementationPlan
plan = record {
  summary = text "plan";
  approach = text "small";
  steps = second_step ∷ first_step ∷ [];
  planned_tests = [];
  risks = [];
  assumptions = [];
  blocking_questions = [];
  ready_for_approval = true;
}

abbrev pub approval : PlanApprovalDecision
approval = record { action = Action.approve; feedback = none }

abbrev pub answers : Answers
answers = record {
  brief = brief;
  repository_map = some repository_map;
  plan = plan;
  decisions = none ∷ some approval ∷ [];
}

-- A machine on which paths resolve to themselves.
abbrev pub host : Host
host = record { expanduser = λ p. p; resolve = λ p. p }

abbrev pub handoff : PlannerHandoff
handoff = record {
  run_id = text "r1";
  repository = text "owner/repo";
  repository_path = text "/w";
  base_commit = text "abc";
  issue_brief = brief;
  repository_map = repository_map;
  implementation_plan = plan;
  plan_approval = approval;
  approved_checks = [];
  created_at = text "now";
}

abbrev pub assignment : WorkerAssignment
assignment = record {
  run_id = text "r1";
  worker_id = text "worker-1";
  task_id = text "r1-task-1";
  project_workspace = text "/w";
  worktree_path = text "/w/.chief/worktrees/worker-1";
  branch = text "chief/r1/worker-1";
  base_commit = text "abc";
  assigned_paths = text "src/**" ∷ [];
  approved_checks = [];
  required_skills = [];
  protected_branches = [];
  provider = ProviderName.codex;
  timeout_seconds = 60;
}

abbrev trace : ℕ → Text → Phase → SkillTrace
trace n skill phase = record {
  sequence = n;
  skill = skill;
  phase = phase;
  status = TraceStatus.completed;
  evidence = [];
}

abbrev pub result : WorkerResult
result = record {
  run_id = text "r1";
  worker_id = text "worker-1";
  task_id = text "r1-task-1";
  status = WorkerStatus.completed;
  commit = some (text "def");
  changed_files = text "src/app.py" ∷ [];
  checks = [];
  skill_trace =
      trace 1 (text "implement") Phase.started
      ∷ trace 2 (text "tdd") Phase.red
      ∷ trace 3 (text "tdd") Phase.green
      ∷ trace 4 (text "code-review") Phase.reviewed
      ∷ [];
  errors = [];
  open_questions = [];
}
