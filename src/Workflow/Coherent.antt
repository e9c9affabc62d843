-- ===== src/Workflow/Coherent.antt =====
-- What holds of every snapshot that a run can reach, whatever the models and the human answer.
use git_hub_issue_to_impleme.Prelude.{
  ◌≡◌, refl, subst, ◌⊎◌, inl, inr, Bool, true, false, ◌&&◌, Option, none, some, List, [], ◌∷◌,
  arith, Bool-cases, nat_eq, pair_eq, Text, text_eq, is_ok, >>=-eq-ok, ok-injective, ok,
  some-injective,
}
use git_hub_issue_to_impleme.Schemas.Issue.{IssueInput, IssueBrief}
use git_hub_issue_to_impleme.Schemas.Repository.{RepositoryMap}
use git_hub_issue_to_impleme.Schemas.Planning.{ImplementationPlan, plan_is_valid, validate_plan}
use git_hub_issue_to_impleme.Schemas.Approval.{Action, PlanApprovalDecision, decision_is_valid}
use git_hub_issue_to_impleme.Workflow.State.{AgentState, Status}
use git_hub_issue_to_impleme.Workflow.Nodes.{
  issue_analyst_node, repository_explorer_node, implementation_planner_node, plan_approval_node,
  first_valid, decide, decided,
}
use git_hub_issue_to_impleme.Workflow.Routing.{
  route_after_issue_analysis, route_after_implementation_plan, route_after_plan_approval,
}
use git_hub_issue_to_impleme.Workflow.Graph.{
  Node, Snapshot, Answers, run_node, leave_approval, Reach, begin, step,
}

abbrev pub is_actionable : Option IssueBrief → Bool
is_actionable none = false
is_actionable (some b) = b.is_actionable

abbrev pub has_map : Option RepositoryMap → Bool
has_map none = false
has_map (some m) = true

abbrev pub is_ready : Option ImplementationPlan → Bool
is_ready none = false
is_ready (some p) = plan_is_valid p && p.ready_for_approval

abbrev pub is_approval : Action → Bool
is_approval Action.approve = true
is_approval _ = false

abbrev pub is_approved : Option PlanApprovalDecision → Bool
is_approved none = false
is_approved (some d) = is_approval d.action && decision_is_valid d

-- An actionable brief, an explored repository and a valid plan that is ready for approval.
pub record IsPlanned (s : AgentState) : Type 0 where
  pub actionable : is_actionable s.issue_brief ≡ true
  pub explored : has_map s.repository_map ≡ true
  pub ready : is_ready s.implementation_plan ≡ true

abbrev pub IsCoherent : Node → AgentState → Type 0
IsCoherent Node.issue_analyst s = is_approved s.plan_approval ≡ false
IsCoherent Node.repository_explorer s =
    (is_actionable s.issue_brief ≡ true) × (is_approved s.plan_approval ≡ false)
IsCoherent Node.implementation_planner s =
    (is_actionable s.issue_brief ≡ true)
    × (has_map s.repository_map ≡ true)
    × (is_approved s.plan_approval ≡ false)
IsCoherent Node.plan_approval s = IsPlanned s × (is_approved s.plan_approval ≡ false)
IsCoherent Node.end s =
    ((s.status ≡ some Status.plan_approved) × (is_approved s.plan_approval ≡ true) × IsPlanned s)
    ⊎ ((is_approved s.plan_approval ≡ false)
        × ((s.status ≡ some Status.needs_clarification) ⊎ (s.status ≡ some Status.cancelled)))

analyst-IsCoherent :
    (a : Answers) (s : AgentState) {d : Snapshot}
    → IsCoherent Node.issue_analyst s
    → run_node Node.issue_analyst a s ≡ ok d
    → IsCoherent d.next d.state
unfolding run_node issue_analyst_node route_after_issue_analysis
analyst-IsCoherent a s h e = ground arith

explorer-IsCoherent :
    (a : Answers) (s : AgentState) {d : Snapshot}
    → IsCoherent Node.repository_explorer s
    → run_node Node.repository_explorer a s ≡ ok d
    → IsCoherent d.next d.state
unfolding run_node repository_explorer_node
explorer-IsCoherent a s h e = ground arith

planner-IsCoherent :
    (a : Answers) (s : AgentState) {d : Snapshot}
    → IsCoherent Node.implementation_planner s
    → run_node Node.implementation_planner a s ≡ ok d
    → IsCoherent d.next d.state
unfolding run_node implementation_planner_node route_after_implementation_plan validate_plan
planner-IsCoherent a s h e = ground arith

pub first_valid-is_valid :
    (answers : List (Option PlanApprovalDecision)) {d : PlanApprovalDecision}
    → first_valid answers ≡ some d
    → decision_is_valid d ≡ true
unfolding first_valid
first_valid-is_valid [] h = cc
first_valid-is_valid (none ∷ answers) h = first_valid-is_valid answers h
first_valid-is_valid (some d ∷ answers) h = elim (Bool-cases (decision_is_valid d)) [
  | inl v ↦ rw (some-injective (rw v at h)) at v
  | inr n ↦ first_valid-is_valid answers (rw n at h)
]

plan_approval_node-eq-ok :
    (answers : List (Option PlanApprovalDecision)) (s : AgentState) {o : Option AgentState}
    → plan_approval_node answers s ≡ ok o
    → o ≡ decided s (first_valid answers)
unfolding plan_approval_node
plan_approval_node-eq-ok answers s e = ground arith

decide-IsCoherent :
    (s : AgentState) (p : PlanApprovalDecision) {d : Snapshot}
    → IsCoherent Node.plan_approval s
    → decision_is_valid p ≡ true
    → leave_approval s (some (decide p s)) ≡ ok d
    → IsCoherent d.next d.state
unfolding leave_approval route_after_plan_approval
decide-IsCoherent s p h v e = ground arith

leave_approval-IsCoherent :
    (s : AgentState) (decision : Option PlanApprovalDecision) {d : Snapshot}
    → IsCoherent Node.plan_approval s
    → ((p : PlanApprovalDecision) → decision ≡ some p → decision_is_valid p ≡ true)
    → leave_approval s (decided s decision) ≡ ok d
    → IsCoherent d.next d.state
unfolding leave_approval
leave_approval-IsCoherent s none h v e =
    subst (λ (d : Snapshot). IsCoherent d.next d.state) (ok-injective e) h
leave_approval-IsCoherent s (some p) h v e = decide-IsCoherent s p h (v p refl) e

approval-IsCoherent :
    (a : Answers) (s : AgentState) {d : Snapshot}
    → IsCoherent Node.plan_approval s
    → run_node Node.plan_approval a s ≡ ok d
    → IsCoherent d.next d.state
unfolding run_node
approval-IsCoherent a s {d} h e =
    let (answer, ran, left) = >>=-eq-ok (plan_approval_node a.decisions s) (leave_approval s) e in
    let answered = plan_approval_node-eq-ok a.decisions s ran in
    leave_approval-IsCoherent s (first_valid a.decisions) h
      (λ p found. first_valid-is_valid a.decisions found)
      (subst (λ o. leave_approval s o ≡ ok d) answered left)

end-IsCoherent :
    (a : Answers) (s : AgentState) {d : Snapshot}
    → IsCoherent Node.end s
    → run_node Node.end a s ≡ ok d
    → IsCoherent d.next d.state
unfolding run_node
end-IsCoherent a s h e = subst (λ d. IsCoherent d.next d.state) (ok-injective e) h

pub run_node-IsCoherent :
    (n : Node) (a : Answers) (s : AgentState) {d : Snapshot}
    → IsCoherent n s
    → run_node n a s ≡ ok d
    → IsCoherent d.next d.state
run_node-IsCoherent Node.issue_analyst = analyst-IsCoherent
run_node-IsCoherent Node.repository_explorer = explorer-IsCoherent
run_node-IsCoherent Node.implementation_planner = planner-IsCoherent
run_node-IsCoherent Node.plan_approval = approval-IsCoherent
run_node-IsCoherent Node.end = end-IsCoherent

-- Every snapshot that a run reaches is coherent: the explorer runs only on an actionable brief, the
-- planner only after an exploration, the human is asked only about a valid plan that is ready, and
-- a run ends either approved, with all of these, or not approved, as unclear or cancelled.
pub Reach-IsCoherent :
    {issue : IssueInput} {path : Text} {c : Snapshot}
    → Reach issue path c
    → IsCoherent c.next c.state
Reach-IsCoherent begin = refl
Reach-IsCoherent (step {c = c} a r e) = run_node-IsCoherent c.next a c.state (Reach-IsCoherent r) e

-- What a run needs of its models: the explorer answers, and the planner's answer validates.
pub record IsServed (a : Answers) : Type 0 where
  pub explored : has_map a.repository_map ≡ true
  pub planned : plan_is_valid a.plan ≡ true

-- From a coherent snapshot a step raises no error, if the explorer answers and the plan validates:
-- no node and no route of the graph finds its inputs missing.
pub run_node_total :
    (n : Node) (a : Answers) (s : AgentState)
    → IsServed a
    → IsCoherent n s
    → is_ok (run_node n a s) ≡ true
unfolding run_node issue_analyst_node repository_explorer_node implementation_planner_node
    plan_approval_node leave_approval route_after_issue_analysis route_after_implementation_plan
    route_after_plan_approval validate_plan
run_node_total Node.issue_analyst a s v h = ground arith
run_node_total Node.repository_explorer a s v h = ground arith
run_node_total Node.implementation_planner a s v h = ground arith
run_node_total Node.plan_approval a s v h = ground arith
run_node_total Node.end a s v h = refl
