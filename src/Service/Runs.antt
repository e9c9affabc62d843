-- ===== src/Service/Runs.antt =====
-- `RunService`: the compiled graph keeps a snapshot of each run, by its thread id. A call of the
-- graph runs nodes until the run has ended or waits for the human; where a node raises, the
-- snapshot is the last one that was completed.
use git_hub_issue_to_impleme.Prelude.{
  ℕ, zero, suc, Bool, true, false, Option, none, some, List, [], ◌∷◌, ◌++◌, if◌then◌else◌, nat_eq,
  ◌==◌, pair_eq, Text, text, text_eq, texts_eq, Error, Result, or_raise, ok, err,
}
use git_hub_issue_to_impleme.Schemas.Issue.{IssueInput}
use git_hub_issue_to_impleme.Schemas.Approval.{PlanApprovalDecision}
use git_hub_issue_to_impleme.Schemas.Handoff.{Host, PlannerHandoff}
use git_hub_issue_to_impleme.Workflow.State.{AgentState, Status}
use git_hub_issue_to_impleme.Workflow.Handoff.{build_planner_handoff}
use git_hub_issue_to_impleme.Workflow.Graph.{Node, Snapshot, Answers, start, run_node}

abbrev pub is_resting : Node → Bool
is_resting Node.plan_approval = true
is_resting Node.end = true
is_resting _ = false

abbrev pub advance :
    (Snapshot → Result (Unit {0}) × Snapshot)
    → Snapshot
    → Result Snapshot
    → Result (Unit {0}) × Snapshot
advance go_on c (err e) = (err e, c)
advance go_on c (ok d) = go_on d

-- The nodes of one call of the graph, on fuel; `answers` says what comes from outside in each.
unfoldable pub run_graph : ℕ → (ℕ → Answers) → Snapshot → Result (Unit {0}) × Snapshot
run_graph zero answers c = (ok tt, c)
run_graph (suc f) answers c =
    if is_resting c.next
    then (ok tt, c)
    else advance (λ d. run_graph f answers d) c (run_node c.next (answers f) c.state)

-- There are three nodes before the human is asked.
abbrev pub graph_fuel : ℕ
graph_fuel = 3

-- `Command(resume=decision)` at a run that waits for it
unfoldable pub resume :
    (ℕ → Answers) → PlanApprovalDecision → Snapshot → Result (Unit {0}) × Snapshot
resume answers decision c =
    advance (λ d. run_graph graph_fuel answers d) c
      (run_node Node.plan_approval (record (answers graph_fuel) { decisions = some decision ∷ [] })
        c.state)

pub record Run : Type 0 where
  pub issue : IssueInput
  pub repository_path : Text
  pub snapshot : Snapshot

-- `_known_threads` with the graph's snapshots
abbrev pub Runs : Type 0
Runs = List (Text × Run)

unfoldable pub find_run : Text → Runs → Option Run
find_run thread_id [] = none
find_run thread_id ((t, r) ∷ runs) =
    let rest = find_run thread_id runs in if t == thread_id then some r else rest

unfoldable pub set_snapshot : Text → Snapshot → Runs → Runs
set_snapshot thread_id c [] = []
set_snapshot thread_id c ((t, r) ∷ runs) =
    let rest = set_snapshot thread_id c runs in
    if t == thread_id then (t, record r { snapshot = c }) ∷ runs else (t, r) ∷ rest

-- `RunResponse`, with the snapshot in place of its JSON
pub record RunResponse : Type 0 where
  pub thread_id : Text
  pub status : Option Status
  pub state : AgentState
  pub pending : Node
  pub completed : Bool

abbrev pub is_end : Node → Bool
is_end Node.end = true
is_end _ = false

-- `_snapshot_to_response`
unfoldable pub snapshot_to_response : Text → Snapshot → RunResponse
snapshot_to_response thread_id c = record {
  thread_id = thread_id;
  status = c.state.status;
  state = c.state;
  pending = c.next;
  completed = is_end c.next;
}

-- `_require_known_thread`
abbrev pub require_known_thread : Text → Runs → Result Run
require_known_thread thread_id runs =
    or_raise (find_run thread_id runs)
      (Error.run_not_found (text "Workflow run not found: " ++ thread_id))

abbrev pub started :
    Text → IssueInput → Text → Runs → Result (Unit {0}) × Snapshot → Result RunResponse × Runs
started thread_id issue path runs (err e, c) = (err e, runs)
started thread_id issue path runs (ok u, c) = (
  ok (snapshot_to_response thread_id c),
  (thread_id, record { issue = issue; repository_path = path; snapshot = c }) ∷ runs,
)

-- `start_run`; `thread_id` is the new id of `uuid4`, and a run whose first call raises is forgotten.
unfoldable pub start_run :
    Text → IssueInput → Text → (ℕ → Answers) → Runs → Result RunResponse × Runs
start_run thread_id issue path answers runs =
    started thread_id issue path runs (run_graph graph_fuel answers (start issue path))

abbrev show_run : Text → Result Run → Result RunResponse
show_run thread_id (err e) = err e
show_run thread_id (ok r) = ok (snapshot_to_response thread_id r.snapshot)

-- `get_run`
unfoldable pub get_run : Text → Runs → Result RunResponse
get_run thread_id runs = show_run thread_id (require_known_thread thread_id runs)

abbrev pub decided : Text → Runs → Result (Unit {0}) × Snapshot → Result RunResponse × Runs
decided thread_id runs (err e, c) = (err e, set_snapshot thread_id c runs)
decided thread_id runs (ok u, c) =
    (ok (snapshot_to_response thread_id c), set_snapshot thread_id c runs)

abbrev pub is_waiting : Node → Bool
is_waiting Node.plan_approval = true
is_waiting _ = false

abbrev pub decide_for :
    Text → PlanApprovalDecision → (ℕ → Answers) → Runs → Result Run → Result RunResponse × Runs
decide_for thread_id decision answers runs (err e) = (err e, runs)
decide_for thread_id decision answers runs (ok r) =
    if is_waiting r.snapshot.next
    then decided thread_id runs (resume answers decision r.snapshot)
    else (err (Error.run_conflict (text "Run is not waiting for a plan approval decision.")), runs)

-- `submit_plan_decision`; the lock of the thread lets one call of it run at a time.
unfoldable pub submit_plan_decision :
    Text → PlanApprovalDecision → (ℕ → Answers) → Runs → Result RunResponse × Runs
submit_plan_decision thread_id decision answers runs =
    decide_for thread_id decision answers runs (require_known_thread thread_id runs)

abbrev handoff_for : Host → Text → Text → Text → Result Run → Result PlannerHandoff
handoff_for host thread_id base_commit now (err e) = err e
handoff_for host thread_id base_commit now (ok r) =
    build_planner_handoff host none (some thread_id) r.snapshot.state base_commit none now

-- `create_handoff`
unfoldable pub create_handoff : Host → Text → Text → Text → Runs → Result PlannerHandoff
create_handoff host thread_id base_commit now runs =
    handoff_for host thread_id base_commit now (require_known_thread thread_id runs)

-- A request that changes the runs.
pub data Request : Type 0 where
  start_request : Text → IssueInput → Text → (ℕ → Answers) → Request
  decision_request : Text → PlanApprovalDecision → (ℕ → Answers) → Request

abbrev pub serve : Request → Runs → Result RunResponse × Runs
serve (start_request thread_id issue path answers) runs =
    start_run thread_id issue path answers runs
serve (decision_request thread_id decision answers) runs =
    submit_plan_decision thread_id decision answers runs

unfoldable pub serve_all : List Request → Runs → Runs
serve_all [] runs = runs
serve_all (q ∷ requests) runs = serve_all requests (serve q runs).1
