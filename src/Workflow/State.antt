-- ===== src/Workflow/State.antt =====
-- src/agents/graph/state.py: what one workflow run retains. A key that the TypedDict does not
-- require is an `Option`; the statuses are the texts that the nodes write.
use git_hub_issue_to_impleme.Prelude.{Option, none, nat_eq, pair_eq, Text, text_eq}
use git_hub_issue_to_impleme.Schemas.Issue.{IssueInput, IssueBrief}
use git_hub_issue_to_impleme.Schemas.Repository.{RepositoryMap}
use git_hub_issue_to_impleme.Schemas.Planning.{ImplementationPlan}
use git_hub_issue_to_impleme.Schemas.Approval.{PlanApprovalDecision}

pub data Status : Type 0 where
  ready_for_exploration needs_clarification repository_explored ready_for_plan_review : Status
  plan_approved plan_revision_requested cancelled : Status

pub record AgentState : Type 0 where
  pub issue : IssueInput
  pub repository_path : Text
  pub issue_brief : Option IssueBrief
  pub repository_map : Option RepositoryMap
  pub implementation_plan : Option ImplementationPlan
  pub plan_approval : Option PlanApprovalDecision
  pub plan_feedback : Option Text
  pub status : Option Status
  pub error : Option Text

-- What `RunService.start_run` hands to the graph.
abbrev pub initial_state : IssueInput → Text → AgentState
initial_state issue path = record {
  issue = issue;
  repository_path = path;
  issue_brief = none;
  repository_map = none;
  implementation_plan = none;
  plan_approval = none;
  plan_feedback = none;
  status = none;
  error = none;
}
