-- ===== src/Service/Rests.antt =====
-- A call of the graph that returns has run until the graph rests.
use git_hub_issue_to_impleme.Prelude.{
  ℕ, zero, suc, ◌≤◌, ◌<◌, ◌≡◌, refl, subst, inl, inr, true, false, arith, Bool-cases, nat_eq,
  pair_eq, true≢false, text_eq, texts_eq, Result, >>=-eq-ok, ok-injective, Result-cases, ok, err,
}
use git_hub_issue_to_impleme.Workflow.State.{AgentState}
use git_hub_issue_to_impleme.Workflow.Nodes.{
  issue_analyst_node, repository_explorer_node, implementation_planner_node,
}
use git_hub_issue_to_impleme.Workflow.Routing.{
  IssueAnalysisRoute, ImplementationPlanRoute, route_after_issue_analysis,
  route_after_implementation_plan,
}
use git_hub_issue_to_impleme.Workflow.Graph.{
  Node, Snapshot, Answers, run_node, after_issue_analysis, after_implementation_plan,
}
use git_hub_issue_to_impleme.Service.Runs.{is_resting, run_graph, graph_fuel}

-- The nodes that may run, at most, before the graph rests.
abbrev pub rank : Node → ℕ
rank Node.issue_analyst = 3
rank Node.repository_explorer = 2
rank Node.implementation_planner = 1
rank Node.plan_approval = 0
rank Node.end = 0

pub rank-le : (n : Node) → rank n ≤ graph_fuel
rank-le Node.issue_analyst = omega arith
rank-le Node.repository_explorer = omega arith
rank-le Node.implementation_planner = omega arith
rank-le Node.plan_approval = omega arith
rank-le Node.end = omega arith

rank-zero : (n : Node) → rank n ≤ 0 → is_resting n ≡ true
rank-zero Node.issue_analyst h = absurd (omega arith)
rank-zero Node.repository_explorer h = absurd (omega arith)
rank-zero Node.implementation_planner h = absurd (omega arith)
rank-zero Node.plan_approval h = refl
rank-zero Node.end h = refl

analysed-rank : (route : IssueAnalysisRoute) → rank (after_issue_analysis route) < 3
analysed-rank IssueAnalysisRoute.explore = omega arith
analysed-rank IssueAnalysisRoute.needs_clarification = omega arith

planned-rank : (route : ImplementationPlanRoute) → rank (after_implementation_plan route) < 1
planned-rank ImplementationPlanRoute.review = omega arith
planned-rank ImplementationPlanRoute.needs_clarification = omega arith

run_node-rank :
    (n : Node) (a : Answers) (s : AgentState) {d : Snapshot}
    → is_resting n ≡ false
    → run_node n a s ≡ ok d
    → rank d.next < rank n
unfolding run_node
run_node-rank Node.issue_analyst a s h e =
    let (s', _, e₁) = >>=-eq-ok (issue_analyst_node a.brief s) _ e in
    let (route, _, made) = >>=-eq-ok (route_after_issue_analysis s') _ e₁ in
    subst (λ d. rank d.next < 3) (ok-injective made) (analysed-rank route)
run_node-rank Node.repository_explorer a s h e =
    let (s', _, made) = >>=-eq-ok (repository_explorer_node a.repository_map s) _ e in
    subst (λ d. rank d.next < 2) (ok-injective made) (omega arith)
run_node-rank Node.implementation_planner a s h e =
    let (s', _, e₁) = >>=-eq-ok (implementation_planner_node a.plan s) _ e in
    let (route, _, made) = >>=-eq-ok (route_after_implementation_plan s') _ e₁ in
    subst (λ d. rank d.next < 1) (ok-injective made) (planned-rank route)
run_node-rank Node.plan_approval a s h e = absurd (true≢false h)
run_node-rank Node.end a s h e = absurd (true≢false h)

-- A call of the graph that returns leaves a run that rests.
abbrev pub Rests : Result (Unit {0}) × Snapshot → Type 0
Rests (err e, c) = Unit
Rests (ok u, c) = is_resting c.next ≡ true

pub run_graph-Rests :
    (f : ℕ) (answers : ℕ → Answers) (c : Snapshot) → rank c.next ≤ f → Rests (run_graph f answers c)
unfolding run_graph
run_graph-Rests zero answers c h = rank-zero c.next h
run_graph-Rests (suc f) answers c h = elim (Bool-cases (is_resting c.next)) [
  | inl resting ↦ rw resting resting
  | inr active ↦ elim (Result-cases (run_node c.next (answers f) c.state)) [
    | inl (e, failed) ↦ rw (active, failed) tt
    | inr (d, ran) ↦
        rw (active, ran)
          (run_graph-Rests f answers d
            (omega (arith, run_node-rank c.next (answers f) c.state active ran, h)))
  ]
]
