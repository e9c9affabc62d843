-- ===== src/Workflow/Graph.antt =====
-- src/agents/graph/workflow.py: the nodes, joined by the edges of `build_workflow`. One step runs
-- the node that is next and follows its edge; the checkpointer keeps the state between steps.
use git_hub_issue_to_impleme.Prelude.{
  ◌≡◌, Option, none, some, List, nat_eq, pair_eq, Text, text_eq, Result, ◌>>=◌, ok,
}
use git_hub_issue_to_impleme.Schemas.Issue.{IssueInput, IssueBrief}
use git_hub_issue_to_impleme.Schemas.Repository.{RepositoryMap}
use git_hub_issue_to_impleme.Schemas.Planning.{ImplementationPlan}
use git_hub_issue_to_impleme.Schemas.Approval.{Action, PlanApprovalDecision}
use git_hub_issue_to_impleme.Workflow.State.{AgentState, initial_state}
use git_hub_issue_to_impleme.Workflow.Nodes.{
  issue_analyst_node, repository_explorer_node, implementation_planner_node, plan_approval_node,
}
use git_hub_issue_to_impleme.Workflow.Routing.{
  IssueAnalysisRoute, ImplementationPlanRoute, route_after_issue_analysis,
  route_after_implementation_plan, route_after_plan_approval,
}

pub data Node : Type 0 where
  issue_analyst repository_explorer implementation_planner plan_approval end : Node

-- A snapshot: the node that runs next (`end` when nothing is pending) and the state.
pub record Snapshot : Type 0 where
  pub next : Node
  pub state : AgentState

-- What comes from outside during one step.
pub record Answers : Type 0 where
  pub brief : IssueBrief
  pub repository_map : Option RepositoryMap
  pub plan : ImplementationPlan
  pub decisions : List (Option PlanApprovalDecision)

abbrev pub after_issue_analysis : IssueAnalysisRoute → Node
after_issue_analysis IssueAnalysisRoute.explore = Node.repository_explorer
after_issue_analysis IssueAnalysisRoute.needs_clarification = Node.end

abbrev pub after_implementation_plan : ImplementationPlanRoute → Node
after_implementation_plan ImplementationPlanRoute.review = Node.plan_approval
after_implementation_plan ImplementationPlanRoute.needs_clarification = Node.end

abbrev pub after_plan_approval : Action → Node
after_plan_approval Action.approve = Node.end
after_plan_approval Action.request_changes = Node.implementation_planner
after_plan_approval Action.cancel = Node.end

-- A waiting approval leaves the run where it is.
unfoldable pub leave_approval : AgentState → Option AgentState → Result Snapshot
leave_approval s none = ok (record { next = Node.plan_approval; state = s })
leave_approval s (some s') = do
  route ← route_after_plan_approval s'
  ok (record { next = after_plan_approval route; state = s' })

unfoldable pub run_node : Node → Answers → AgentState → Result Snapshot
run_node Node.issue_analyst a s = do
  s' ← issue_analyst_node a.brief s
  route ← route_after_issue_analysis s'
  ok (record { next = after_issue_analysis route; state = s' })
run_node Node.repository_explorer a s = do
  s' ← repository_explorer_node a.repository_map s
  ok (record { next = Node.implementation_planner; state = s' })
run_node Node.implementation_planner a s = do
  s' ← implementation_planner_node a.plan s
  route ← route_after_implementation_plan s'
  ok (record { next = after_implementation_plan route; state = s' })
run_node Node.plan_approval a s = do
  answer ← plan_approval_node a.decisions s
  leave_approval s answer
run_node Node.end a s = ok (record { next = Node.end; state = s })

abbrev pub start : IssueInput → Text → Snapshot
start issue path = record { next = Node.issue_analyst; state = initial_state issue path }

-- The snapshots that a run can be in, whatever the models and the human answer.
pub data Reach (issue : IssueInput) (path : Text) : Snapshot → Type 0 where
  begin : Reach issue path (start issue path)
  step :
      {c d : Snapshot} (a : Answers)
      → Reach issue path c
      → run_node c.next a c.state ≡ ok d
      → Reach issue path d
