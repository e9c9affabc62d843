-- ===== src/Service/Reached.antt =====
-- What `RunService` shows of the planning workflow.
use git_hub_issue_to_impleme.Prelude.{
  ℕ, zero, suc, ◌≡◌, refl, sym, ap, ◌∙◌, subst, inl, inr, true, some, List, [], ◌∷◌, arith,
  Bool-cases, nat_eq, ◌==◌, pair_eq, some-injective, All, Text, text_eq, texts_eq, Result,
  or_raise-eq-ok, Result-cases, ok, err,
}
use git_hub_issue_to_impleme.Schemas.Issue.{IssueInput}
use git_hub_issue_to_impleme.Schemas.Approval.{PlanApprovalDecision}
use git_hub_issue_to_impleme.Workflow.Graph.{
  Node, Snapshot, Answers, Reach, begin, step, start, run_node,
}
use git_hub_issue_to_impleme.Service.Runs.{
  is_resting, run_graph, graph_fuel, resume, Run, Runs, find_run, set_snapshot, RunResponse,
  snapshot_to_response, require_known_thread, started, start_run, is_waiting, decided,
  submit_plan_decision, Request, start_request, decision_request, serve, serve_all,
}
use git_hub_issue_to_impleme.Service.Rests.{rank-le, Rests, run_graph-Rests}

module _ {issue : IssueInput} {path : Text} where
  run_graph-Reach :
      (f : ℕ) (answers : ℕ → Answers) (c : Snapshot)
      → Reach issue path c
      → Reach issue path (run_graph f answers c).1
  unfolding run_graph
  run_graph-Reach zero answers c r = r
  run_graph-Reach (suc f) answers c r = elim (Bool-cases (is_resting c.next)) [
    | inl resting ↦ rw resting r
    | inr active ↦ elim (Result-cases (run_node c.next (answers f) c.state)) [
      | inl (e, failed) ↦ rw (active, failed) r
      | inr (d, ran) ↦ rw (active, ran) (run_graph-Reach f answers d (step (answers f) r ran))
    ]
  ]

  resume-Reach :
      (answers : ℕ → Answers) (decision : PlanApprovalDecision) (c : Snapshot)
      → c.next ≡ Node.plan_approval
      → Reach issue path c
      → Reach issue path (resume answers decision c).1 × Rests (resume answers decision c)
  unfolding resume
  resume-Reach answers decision c waiting r =
      let a = record (answers graph_fuel) { decisions = some decision ∷ [] } in
      elim (Result-cases (run_node Node.plan_approval a c.state)) [
        | inl (e, failed) ↦ rw failed (r, tt)
        | inr (d, ran) ↦ rw ran (
          run_graph-Reach graph_fuel answers d
              (step a r (ap (λ n. run_node n a c.state) waiting ∙ ran)),
          run_graph-Rests graph_fuel answers d (rank-le d.next),
        )
      ]

-- A run's snapshot is one that the workflow reaches from the run's own issue and path.
abbrev pub IsKept : Text × Run → Type 0
IsKept (thread_id, r) = Reach r.issue r.repository_path r.snapshot

-- What is answered shows a run that has ended or waits for the human.
abbrev pub ShowsRest : Result RunResponse → Type 0
ShowsRest (err e) = Unit
ShowsRest (ok response) = is_resting response.pending ≡ true

find_run-IsKept :
    (thread_id : Text) (runs : Runs) {r : Run}
    → All IsKept runs
    → find_run thread_id runs ≡ some r
    → Reach r.issue r.repository_path r.snapshot
unfolding find_run
find_run-IsKept thread_id [] h e = cc
find_run-IsKept thread_id ((t, x) ∷ runs) h e = elim (Bool-cases (t == thread_id)) [
  | inl same ↦
      subst (λ r. Reach r.issue r.repository_path r.snapshot) (some-injective (rw same at e)) h.0
  | inr other ↦ find_run-IsKept thread_id runs h.1 (rw other at e)
]

set_snapshot-IsKept :
    (thread_id : Text) (c : Snapshot) (runs : Runs) {r : Run}
    → All IsKept runs
    → find_run thread_id runs ≡ some r
    → Reach r.issue r.repository_path c
    → All IsKept (set_snapshot thread_id c runs)
unfolding find_run set_snapshot
set_snapshot-IsKept thread_id c [] h e reached = tt
set_snapshot-IsKept thread_id c ((t, x) ∷ runs) h e reached = elim (Bool-cases (t == thread_id)) [
  | inl same ↦ rw same (
    subst (λ r. Reach r.issue r.repository_path c) (sym (some-injective (rw same at e))) reached,
    h.1,
  )
  | inr other ↦ rw other (h.0, set_snapshot-IsKept thread_id c runs h.1 (rw other at e) reached)
]

started-IsKept :
    (thread_id : Text) (issue : IssueInput) (path : Text) (runs : Runs)
    (p : Result (Unit {0}) × Snapshot)
    → Reach issue path p.1
    → Rests p
    → All IsKept runs
    → All IsKept (started thread_id issue path runs p).1
      × ShowsRest (started thread_id issue path runs p).0
unfolding snapshot_to_response
started-IsKept thread_id issue path runs (err e, c) reached rests h = (h, tt)
started-IsKept thread_id issue path runs (ok u, c) reached rests h = ((reached, h), rests)

decided-IsKept :
    (thread_id : Text) (runs : Runs) (p : Result (Unit {0}) × Snapshot) {r : Run}
    → find_run thread_id runs ≡ some r
    → Reach r.issue r.repository_path p.1
    → Rests p
    → All IsKept runs
    → All IsKept (decided thread_id runs p).1 × ShowsRest (decided thread_id runs p).0
unfolding snapshot_to_response
decided-IsKept thread_id runs (err e, c) found reached rests h =
    (set_snapshot-IsKept thread_id c runs h found reached, tt)
decided-IsKept thread_id runs (ok u, c) found reached rests h =
    (set_snapshot-IsKept thread_id c runs h found reached, rests)

waiting-next : (n : Node) → is_waiting n ≡ true → n ≡ Node.plan_approval
waiting-next Node.issue_analyst h = cc
waiting-next Node.repository_explorer h = cc
waiting-next Node.implementation_planner h = cc
waiting-next Node.plan_approval h = refl
waiting-next Node.end h = cc

serve-IsKept :
    (q : Request) (runs : Runs)
    → All IsKept runs
    → All IsKept (serve q runs).1 × ShowsRest (serve q runs).0
unfolding start_run submit_plan_decision
serve-IsKept (start_request thread_id issue path answers) runs h =
    started-IsKept thread_id issue path runs (run_graph graph_fuel answers (start issue path))
      (run_graph-Reach graph_fuel answers (start issue path) begin)
      (run_graph-Rests graph_fuel answers (start issue path) (omega arith)) h
serve-IsKept (decision_request thread_id decision answers) runs h =
    elim (Result-cases (require_known_thread thread_id runs)) [
      | inl (e, unknown) ↦ rw unknown (h, tt)
      | inr (r, known) ↦ elim (Bool-cases (is_waiting r.snapshot.next)) [
        | inr busy ↦ rw (known, busy) (h, tt)
        | inl waiting ↦
            let found = or_raise-eq-ok _ _ known in
            let both =
              resume-Reach answers decision r.snapshot (waiting-next r.snapshot.next waiting)
                (find_run-IsKept thread_id runs h found) in
            rw (known, waiting)
              (decided-IsKept thread_id runs (resume answers decision r.snapshot) found both.0
                both.1 h)
      ]
    ]

serve_all-IsKept :
    (requests : List Request) (runs : Runs) → All IsKept runs → All IsKept (serve_all requests runs)
unfolding serve_all
serve_all-IsKept [] runs h = h
serve_all-IsKept (q ∷ requests) runs h =
    serve_all-IsKept requests (serve q runs).1 (serve-IsKept q runs h).0

-- RunService refines the planning workflow. After any requests that start runs or decide about
-- plans, the snapshot of every run is one that the workflow reaches from the issue and the path the
-- run was started with; and if a further request is answered, its answer shows a run that has ended
-- or waits for the human.
pub serve-refines :
    (requests : List Request) (q : Request)
    → All IsKept (serve_all requests []) × ShowsRest (serve q (serve_all requests [])).0
serve-refines requests q =
    let kept = serve_all-IsKept requests [] tt in
    (kept, (serve-IsKept q (serve_all requests []) kept).1)
