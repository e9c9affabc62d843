-- ===== src/Workflow/Routing.antt =====
-- src/agents/graph/routing.py: the conditional edges.
use git_hub_issue_to_impleme.Prelude.{
  if◌then◌else◌, nat_eq, pair_eq, text, text_eq, Error, Result, ◌>>=◌, or_raise, ok,
}
use git_hub_issue_to_impleme.Schemas.Approval.{Action}
use git_hub_issue_to_impleme.Workflow.State.{AgentState}

pub data IssueAnalysisRoute : Type 0 where
  explore needs_clarification : IssueAnalysisRoute

pub data ImplementationPlanRoute : Type 0 where
  review needs_clarification : ImplementationPlanRoute

unfoldable pub route_after_issue_analysis : AgentState → Result IssueAnalysisRoute
route_after_issue_analysis s = do
  brief ←
      or_raise s.issue_brief
        (Error.value_error (text "route_after_issue_analysis requires issue_brief in graph state."))
  ok (
      if brief.is_actionable
      then IssueAnalysisRoute.explore
      else IssueAnalysisRoute.needs_clarification)

unfoldable pub route_after_plan_approval : AgentState → Result Action
route_after_plan_approval s = do
  decision ←
      or_raise s.plan_approval (
        Error.value_error (text "route_after_plan_approval requires plan_approval in graph state."))
  ok decision.action

unfoldable pub route_after_implementation_plan : AgentState → Result ImplementationPlanRoute
route_after_implementation_plan s = do
  plan ← or_raise s.implementation_plan (
      Error.value_error
        (text "route_after_implementation_plan requires implementation_plan in graph state."))
  ok (
      if plan.ready_for_approval
      then ImplementationPlanRoute.review
      else ImplementationPlanRoute.needs_clarification)
