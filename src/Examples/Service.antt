-- ===== src/Examples/Service.antt =====
-- A run is started over the HTTP interface, and its plan approved.
use git_hub_issue_to_impleme.Prelude.{
  ◌≡◌, refl, Option, none, some, List, [], ◌∷◌, ◌++◌, nat_eq, pair_eq, All, text, text_beq, text_eq,
  texts_eq, Result, ok, err,
}
use git_hub_issue_to_impleme.Schemas.Approval.{decision_is_valid, has_feedback}
use git_hub_issue_to_impleme.Workflow.Graph.{Node, run_node, leave_approval}
use git_hub_issue_to_impleme.Workflow.Nodes.{
  issue_analyst_node, repository_explorer_node, implementation_planner_node, plan_approval_node,
  first_valid, feedback_update,
}
use git_hub_issue_to_impleme.Workflow.Routing.{
  route_after_issue_analysis, route_after_implementation_plan, route_after_plan_approval,
}
use git_hub_issue_to_impleme.Schemas.Planning.{
  validate_plan, plan_is_valid, step_is_valid, is_unique,
}
use git_hub_issue_to_impleme.Examples.Data.{issue, answers, approval}
use git_hub_issue_to_impleme.Service.Runs.{
  Request, start_request, decision_request, RunResponse, serve, serve_all, start_run, run_graph,
  snapshot_to_response, submit_plan_decision, find_run, resume, set_snapshot,
}
use git_hub_issue_to_impleme.Service.Reached.{IsKept, ShowsRest, serve-refines}

abbrev first : List Request
first = start_request (text "t1") issue (text "/w") (λ i. answers) ∷ []

abbrev approving : Request
approving = decision_request (text "t1") approval (λ i. answers)

abbrev pending_of : Result RunResponse → Option Node
pending_of (ok response) = some response.pending
pending_of (err e) = none

waits :
    pending_of (serve (start_request (text "t1") issue (text "/w") (λ i. answers)) []).0
    ≡ some Node.plan_approval
unfolding start_run run_graph run_node issue_analyst_node route_after_issue_analysis
    repository_explorer_node implementation_planner_node validate_plan
    route_after_implementation_plan snapshot_to_response
waits = refl

ends : pending_of (serve approving (serve_all first [])).0 ≡ some Node.end
unfolding start_run run_graph run_node issue_analyst_node route_after_issue_analysis
    repository_explorer_node implementation_planner_node validate_plan
    route_after_implementation_plan snapshot_to_response submit_plan_decision find_run serve_all
    text_beq resume plan_approval_node leave_approval first_valid decision_is_valid has_feedback
    plan_is_valid step_is_valid is_unique set_snapshot feedback_update route_after_plan_approval
ends = refl

too_late : pending_of (serve approving (serve_all (first ++ approving ∷ []) [])).0 ≡ none
unfolding start_run run_graph run_node issue_analyst_node route_after_issue_analysis
    repository_explorer_node implementation_planner_node validate_plan
    route_after_implementation_plan snapshot_to_response submit_plan_decision find_run serve_all
    text_beq resume plan_approval_node leave_approval first_valid decision_is_valid has_feedback
    plan_is_valid step_is_valid is_unique set_snapshot feedback_update route_after_plan_approval
too_late = refl

serve-refines_example :
    All IsKept (serve_all first []) × ShowsRest (serve approving (serve_all first [])).0
serve-refines_example = serve-refines first approving
