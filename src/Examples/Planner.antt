-- ===== src/Examples/Planner.antt =====
-- A run of the planning workflow, its export, and the tickets made of it.
use git_hub_issue_to_impleme.Prelude.{
  ◌≡◌, refl, true, none, some, List, [], ◌∷◌, map, nat_eq, pair_eq, text, text_beq, text_eq,
  starts_with, is_ok, insert_sorted, sort, ok,
}
use git_hub_issue_to_impleme.Examples.Data.{
  issue, brief, repository_map, first_step, second_step, plan, approval, answers, host, handoff,
}
use git_hub_issue_to_impleme.Schemas.Planning.{
  is_unique, step_is_valid, plan_is_valid, validate_plan,
}
use git_hub_issue_to_impleme.Schemas.Issue.{issue_input_is_valid}
use git_hub_issue_to_impleme.Schemas.Approval.{decision_is_valid, has_feedback}
use git_hub_issue_to_impleme.Schemas.Handoff.{
  absolute_path, handoff_is_approved, handoff_fields_are_valid, make_handoff,
}
use git_hub_issue_to_impleme.Schemas.Runtime.{WorkerTask}
use git_hub_issue_to_impleme.Workflow.State.{Status}
use git_hub_issue_to_impleme.Workflow.Graph.{
  Node, Snapshot, start, Reach, begin, step, run_node, leave_approval,
}
use git_hub_issue_to_impleme.Workflow.Nodes.{
  issue_analyst_node, repository_explorer_node, implementation_planner_node, plan_approval_node,
  first_valid, feedback_update,
}
use git_hub_issue_to_impleme.Workflow.Routing.{
  route_after_issue_analysis, route_after_implementation_plan, route_after_plan_approval,
}
use git_hub_issue_to_impleme.Workflow.Handoff.{build_planner_handoff, missing_keys}
use git_hub_issue_to_impleme.Workflow.Coherent.{
  IsCoherent, IsServed, Reach-IsCoherent, run_node_total,
}
use git_hub_issue_to_impleme.Workflow.Export.{export_only_approved}
use git_hub_issue_to_impleme.Tickets.{range, step_task_id, tasks_loop, tasks_from_handoff}
use git_hub_issue_to_impleme.Tickets.Order.{BlockedByEarlier, tasks-BlockedByEarlier}
use git_hub_issue_to_impleme.Tickets.Outcome.{expected_task, tasks_from_handoff-outcome}

abbrev analysed : Snapshot
analysed = record {
  next = Node.repository_explorer;
  state = record (start issue (text "/w")).state {
    issue_brief = some brief;
    status = some Status.ready_for_exploration;
  };
}

abbrev explored : Snapshot
explored = record {
  next = Node.implementation_planner;
  state = record analysed.state {
    repository_map = some repository_map;
    status = some Status.repository_explored;
  };
}

abbrev planned : Snapshot
planned = record {
  next = Node.plan_approval;
  state = record explored.state {
    implementation_plan = some plan;
    status = some Status.ready_for_plan_review;
  };
}

abbrev approved : Snapshot
approved = record {
  next = Node.end;
  state = record planned.state {
    plan_approval = some approval;
    status = some Status.plan_approved;
  };
}

run_to_plan : Reach issue (text "/w") planned
unfolding run_node issue_analyst_node repository_explorer_node implementation_planner_node
    route_after_issue_analysis route_after_implementation_plan validate_plan plan_is_valid
    step_is_valid is_unique
run_to_plan = step answers (step answers (step answers begin refl) refl) refl

run_to_approval : Reach issue (text "/w") approved
unfolding run_node plan_approval_node leave_approval first_valid decision_is_valid has_feedback
    feedback_update route_after_plan_approval
run_to_approval = step answers run_to_plan refl

exported :
    build_planner_handoff host
      (some (text "r1"))
      none
      approved.state
      (text "abc")
      (some (text "now"))
      (text "later")
    ≡ ok handoff
unfolding build_planner_handoff missing_keys issue_input_is_valid make_handoff absolute_path
    handoff_is_approved handoff_fields_are_valid decision_is_valid has_feedback plan_is_valid
    step_is_valid is_unique starts_with
exported = refl

export_only_approved_example :
    (approved.next ≡ Node.end) × (approved.state.status ≡ some Status.plan_approved)
export_only_approved_example =
    export_only_approved host (some (text "r1")) none (text "abc") (some (text "now"))
      (text "later") run_to_approval exported

Reach-IsCoherent_example : IsCoherent Node.plan_approval planned.state
Reach-IsCoherent_example = Reach-IsCoherent run_to_plan

served : IsServed answers
unfolding plan_is_valid step_is_valid is_unique
served = record { explored = refl; planned = refl }

run_node_total_example : is_ok (run_node Node.plan_approval answers planned.state) ≡ true
run_node_total_example =
    run_node_total Node.plan_approval answers planned.state served (Reach-IsCoherent run_to_plan)

plan_valid : plan_is_valid handoff.implementation_plan ≡ true
unfolding plan_is_valid step_is_valid is_unique
plan_valid = refl

abbrev tasks : List WorkerTask
tasks = expected_task handoff first_step ∷ expected_task handoff second_step ∷ []

tasks_from_handoff-outcome_example : tasks_from_handoff handoff ≡ ok tasks
unfolding text_beq sort insert_sorted range
tasks_from_handoff-outcome_example = tasks_from_handoff-outcome handoff plan_valid refl

made : tasks_from_handoff handoff ≡ ok tasks
unfolding tasks_from_handoff tasks_loop text_beq sort insert_sorted range
made = tasks_from_handoff-outcome handoff plan_valid refl

tasks-BlockedByEarlier_example :
    (map (λ t. t.task_id) tasks ≡ map (step_task_id (text "r1")) (range 1 2))
    × BlockedByEarlier [] tasks
tasks-BlockedByEarlier_example = tasks-BlockedByEarlier handoff plan_valid made
