-- ===== src/Workflow/Export.antt =====
-- Which snapshots of a run can be exported to Chief.
use git_hub_issue_to_impleme.Prelude.{
  ◌≡◌, true, Option, some, arith, nat_eq, pair_eq, Text, text_eq, ok,
}
use git_hub_issue_to_impleme.Schemas.Issue.{IssueInput}
use git_hub_issue_to_impleme.Schemas.Handoff.{
  Host, PlannerHandoff, make_handoff, handoff_is_approved, handoff_fields_are_valid,
}
use git_hub_issue_to_impleme.Workflow.State.{AgentState, Status}
use git_hub_issue_to_impleme.Workflow.Graph.{Node, Snapshot, Reach}
use git_hub_issue_to_impleme.Workflow.Coherent.{IsCoherent, Reach-IsCoherent, is_approved}
use git_hub_issue_to_impleme.Workflow.Handoff.{build_planner_handoff}

-- A handoff that is built was approved, and its plan was ready.
build-is_approved :
    (host : Host) (run_id thread_id : Option Text) (s : AgentState) (base : Text)
    (created : Option Text) (now : Text) {h : PlannerHandoff}
    → build_planner_handoff host run_id thread_id s base created now ≡ ok h
    → (is_approved s.plan_approval ≡ true)
unfolding build_planner_handoff make_handoff handoff_fields_are_valid handoff_is_approved
build-is_approved host run_id thread_id s base created now e = ground arith

coherent_approved :
    (n : Node) (s : AgentState)
    → IsCoherent n s
    → is_approved s.plan_approval ≡ true
    → (n ≡ Node.end) × (s.status ≡ some Status.plan_approved)
coherent_approved Node.issue_analyst s h e = ground arith
coherent_approved Node.repository_explorer s h e = ground arith
coherent_approved Node.implementation_planner s h e = ground arith
coherent_approved Node.plan_approval s h e = ground arith
coherent_approved Node.end s h e = ground arith

-- Of the snapshots that a run reaches, only those can be exported to Chief in which the run has
-- ended with the human's approval.
pub export_only_approved :
    (host : Host) (run_id thread_id : Option Text) (base : Text) (created : Option Text)
    (now : Text) {issue : IssueInput} {path : Text} {c : Snapshot} {h : PlannerHandoff}
    → Reach issue path c
    → build_planner_handoff host run_id thread_id c.state base created now ≡ ok h
    → (c.next ≡ Node.end) × (c.state.status ≡ some Status.plan_approved)
export_only_approved host run_id thread_id base created now {c = c} r e =
    coherent_approved c.next c.state (Reach-IsCoherent r)
      (build-is_approved host run_id thread_id c.state base created now e)
