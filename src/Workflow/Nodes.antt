-- ===== src/Workflow/Nodes.antt =====
-- The four nodes of the graph: src/agents/issue_analyst.py, repo_explorer.py, implementer.py and
-- graph/approvals.py. What the language model answers, and what the human sends to an interrupt,
-- is an argument of the node.
use git_hub_issue_to_impleme.Prelude.{
  Option, none, some, List, [], ◌∷◌, if◌then◌else◌, nat_eq, pair_eq, Text, text, text_eq, strip,
  Error, Result, ◌>>=◌, ◌>>◌, guard, or_raise, ok,
}
use git_hub_issue_to_impleme.Schemas.Issue.{IssueBrief}
use git_hub_issue_to_impleme.Schemas.Repository.{RepositoryMap}
use git_hub_issue_to_impleme.Schemas.Planning.{ImplementationPlan, validate_plan}
use git_hub_issue_to_impleme.Schemas.Approval.{Action, PlanApprovalDecision, decision_is_valid}
use git_hub_issue_to_impleme.Workflow.State.{AgentState, Status}

-- `issue_analyst_node`
unfoldable pub issue_analyst_node : IssueBrief → AgentState → Result AgentState
issue_analyst_node brief s = ok (record s {
  issue_brief = some brief;
  status =
      some
        (if brief.is_actionable then Status.ready_for_exploration else Status.needs_clarification);
})

-- `repository_explorer_node`; the agent may end without a structured response.
unfoldable pub repository_explorer_node : Option RepositoryMap → AgentState → Result AgentState
repository_explorer_node response s = do
  brief ←
      or_raise s.issue_brief
        (Error.value_error (text "repository_explorer_node requires issue_brief in graph state."))
  guard brief.is_actionable (
      Error.value_error
        (text "Repository exploration cannot begin because the issue brief is not actionable."))
  repository_map ←
      or_raise response
        (Error.value_error (text "Repository explorer did not return a structured RepositoryMap."))
  ok (record s { repository_map = some repository_map; status = some Status.repository_explored })

-- `implementation_planner_node`
unfoldable pub implementation_planner_node : ImplementationPlan → AgentState → Result AgentState
implementation_planner_node response s = do
  brief ←
      or_raise s.issue_brief (
        Error.value_error (text "implementation_planner_node requires issue_brief in graph state."))
  repository_map ← or_raise s.repository_map (
      Error.value_error
        (text "implementation_planner_node requires repository_map in graph state."))
  plan ← validate_plan response
  ok (record s {
    implementation_plan = some plan;
    status = some (
        if plan.ready_for_approval
        then Status.ready_for_plan_review
        else Status.needs_clarification);
  })

abbrev status_by_action : Action → Status
status_by_action Action.approve = Status.plan_approved
status_by_action Action.request_changes = Status.plan_revision_requested
status_by_action Action.cancel = Status.cancelled

-- The `while True` over interrupts: the first of the human's answers that validates. An answer
-- that does not have the decision's fields is `none`; when the answers are used up, the node waits.
unfoldable pub first_valid : List (Option PlanApprovalDecision) → Option PlanApprovalDecision
first_valid [] = none
first_valid (none ∷ answers) = first_valid answers
first_valid (some d ∷ answers) =
    let later = first_valid answers in if decision_is_valid d then some d else later

-- `if decision.feedback`, with the stripped text
unfoldable pub feedback_update : Option Text → Option Text → Option Text
feedback_update old none = old
feedback_update old (some []) = old
feedback_update old (some (c ∷ t)) = some (strip (c ∷ t))

abbrev pub decide : PlanApprovalDecision → AgentState → AgentState
decide d s = record s {
  plan_approval = some d;
  status = some (status_by_action d.action);
  plan_feedback = feedback_update s.plan_feedback d.feedback;
}

abbrev pub decided : AgentState → Option PlanApprovalDecision → Option AgentState
decided s none = none
decided s (some d) = some (decide d s)

-- `plan_approval_node`; `none` is a run that still waits for a valid decision.
unfoldable pub plan_approval_node :
    List (Option PlanApprovalDecision) → AgentState → Result (Option AgentState)
plan_approval_node answers s = do
  plan ←
      or_raise s.implementation_plan
        (Error.value_error (text "plan_approval_node requires implementation_plan in graph state."))
  ok (decided s (first_valid answers))
