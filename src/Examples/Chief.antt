-- ===== src/Examples/Chief.antt =====
-- Chief with one recorded run and worker: a handoff, a result, the worker's queue and its end.
use git_hub_issue_to_impleme.Prelude.{
  ℕ, ◌+◌, ◌≡◌, refl, ap, ◌∙◌, ◌↔◌, inl, true, false, none, some, List, [], ◌∷◌, nat_eq, ◌==◌,
  pair_eq, In, text, text_beq, text_eq, starts_with, is_substring, join, is_ok, ok, err,
}
use git_hub_issue_to_impleme.Examples.Data.{handoff, host, assignment, result}
use git_hub_issue_to_impleme.Schemas.Runtime.{
  WorkerAssignment, WorkerResult, QueueEntry, Priority, EntryKind,
}
use git_hub_issue_to_impleme.Tickets.{tasks_from_handoff}
use git_hub_issue_to_impleme.Gate.{SkillTraceDecision}
use git_hub_issue_to_impleme.Gate.Accept.{FollowsProcess}
use git_hub_issue_to_impleme.Examples.Runtime.{result_accepted}
use git_hub_issue_to_impleme.Store.Database.{Database, RunRow, empty_database, has_run}
use git_hub_issue_to_impleme.Store.Table.{find_row}
use git_hub_issue_to_impleme.Store.Queries.{Engine, get_run, get_worker, get_payload}
use git_hub_issue_to_impleme.Store.Steps.{on_disk}
use git_hub_issue_to_impleme.Chief.Session.{
  decide_result, accept_worker_result, accept_planner_handoff,
}
use git_hub_issue_to_impleme.Chief.Accept.{
  IsJudged, accept_worker_result-returns, accept_worker_result-FollowsProcess,
}
use git_hub_issue_to_impleme.Chief.Planned.{
  IsPlanned, accept_planner_handoff-new, accept_planner_handoff-again,
  accept_planner_handoff-refused,
}
use git_hub_issue_to_impleme.Queue.{
  QueueFiles, contains_queue_id, file_contains, translate, Printer, append,
}
use git_hub_issue_to_impleme.Queue.Once.{already_exists, append-twice, append-keeps}
use git_hub_issue_to_impleme.Lifecycle.{
  valid, read_result, Active, find_active, pop_active, wait, recoverable_assignments,
}
use git_hub_issue_to_impleme.Lifecycle.Recovered.{IsWorkerOf, HasResult, recoverable_iff}
use git_hub_issue_to_impleme.Lifecycle.Ending.{read_result-completed, wait-returns, wait-accepted}

-- SQLite visiting rows in the order of insertion.
abbrev pub in_order : Engine
in_order = record { visit = λ A rows. rows; visit_iff = λ A rows a. (λ i. i, λ i. i) }

abbrev pub clock : ℕ → ℕ
clock i = 100 + i

abbrev run : RunRow
run = record {
  run_id = text "r1";
  project_workspace = text "/w";
  base_commit = text "abc";
  status = text "created";
  created_at = 2;
  updated_at = 2;
}

abbrev pub recorded : Database
recorded = record empty_database {
  runs = run ∷ [];
  workers = record { key = text "worker-1"; run_id = text "r1"; payload = assignment } ∷ [];
}

known : has_run (text "r1") recorded.runs ≡ true
unfolding has_run text_beq
known = refl

accept_worker_result-returns_example :
    (decision : SkillTraceDecision) × (db' : Database) × (accept_worker_result in_order clock result
        (on_disk recorded none)
      ≡ (ok decision, on_disk db' none))
    × IsJudged in_order clock result recorded db' decision
accept_worker_result-returns_example =
    accept_worker_result-returns in_order clock result recorded none refl known

gated : (decide_result result (get_worker in_order (text "worker-1") recorded)).accepted ≡ true
unfolding decide_result get_worker get_payload text_beq
gated = result_accepted

accept_worker_result-FollowsProcess_example :
    (a : WorkerAssignment) × (get_worker in_order (text "worker-1") recorded ≡ some a)
    × FollowsProcess result (some a)
accept_worker_result-FollowsProcess_example =
    accept_worker_result-FollowsProcess in_order clock result recorded none refl known
      (accept_worker_result-returns in_order clock result recorded none refl known).2
      (ap (λ (s : SkillTraceDecision). s.accepted)
          (accept_worker_result-returns in_order clock result recorded none refl known).3.gated
        ∙ gated)

not_started : get_run (text "r1") empty_database ≡ none
unfolding get_run find_row
not_started = refl

ours : (host.resolve (host.expanduser (text "/w")) == text "/w") ≡ true
unfolding text_beq
ours = refl

accept_planner_handoff-new_example :
    (db' : Database) × (accept_planner_handoff host
        (text "/w")
        clock
        handoff
        (on_disk empty_database none)
      ≡ (tasks_from_handoff handoff, on_disk db' none))
    × IsPlanned handoff 102 (record run { created_at = 100; updated_at = 100 }) db'
accept_planner_handoff-new_example =
    accept_planner_handoff-new host (text "/w") clock handoff none empty_database refl ours
      not_started

run_found : get_run (text "r1") recorded ≡ some run
unfolding get_run find_row text_beq
run_found = refl

same_base : (text "abc" == text "abc") ≡ true
unfolding text_beq
same_base = refl

accept_planner_handoff-again_example :
    (db' : Database) × (accept_planner_handoff host
        (text "/w")
        clock
        handoff
        (on_disk recorded none)
      ≡ (tasks_from_handoff handoff, on_disk db' none))
    × IsPlanned handoff 102 run db'
accept_planner_handoff-again_example =
    accept_planner_handoff-again host (text "/w") clock handoff none recorded refl ours run_found
      same_base

not_ours : (host.resolve (host.expanduser (text "/w")) == text "/v") ≡ false
unfolding text_beq
not_ours = refl

accept_planner_handoff-refused_example :
    (is_ok (accept_planner_handoff host (text "/v") clock handoff (on_disk recorded none)).0
      ≡ false)
    × ((accept_planner_handoff host (text "/v") clock handoff (on_disk recorded none)).1
        ≡ on_disk recorded none)
accept_planner_handoff-refused_example =
    accept_planner_handoff-refused host (text "/v") clock handoff none recorded refl (inl not_ours)

abbrev python : Printer
python = record { repr = λ argv. join (text ", ") argv }

abbrev entry : QueueEntry
entry = record {
  queue_id = text "r1/worker-1/1";
  run_id = text "r1";
  worker_id = text "worker-1";
  sequence = 1;
  priority = Priority.workflow;
  kind = EntryKind.task;
  task_id = text "r1/step-1";
  title = text "Step 1";
  description = text "fix";
  blocked_by = [];
  acceptance_criteria = text "no crash" ∷ [];
  assigned_paths = text "src/app.py" ∷ [];
  required_checks = [];
  required_skills = [];
  supersedes_entry_id = none;
}

abbrev empty_queue : QueueFiles
empty_queue = record { authoritative = none; worker = none }

abbrev old_queue : QueueFiles
old_queue = record { authoritative = some (text "## r1/worker-1/0: Step 0\n"); worker = none }

mine : (text "worker-1" == text "worker-1") ≡ true
unfolding text_beq
mine = refl

append-twice_example :
    let (first, f', d') = append python 1 (text "worker-1") entry empty_queue none in
    append python 2 (text "worker-1") entry f' d' ≡ (err (already_exists entry), f', d')
append-twice_example = append-twice python 1 2 (text "worker-1") entry empty_queue none mine refl

old_there : contains_queue_id (text "r1/worker-1/0") old_queue ≡ true
unfolding contains_queue_id file_contains translate is_substring starts_with
old_there = refl

append-keeps_example :
    contains_queue_id
      (text "r1/worker-1/0")
      (append python 1 (text "worker-1") entry old_queue none).1
    ≡ true
append-keeps_example =
    append-keeps python 1 (text "worker-1") entry old_queue none (text "r1/worker-1/0") old_there

handed_on : read_result assignment (valid result) (text "completed") ≡ result
unfolding read_result text_beq
handed_on = refl

read_result-completed_example :
    (text "completed" ≡ text "completed")
    × (valid result ≡ valid (read_result assignment (valid result) (text "completed")))
read_result-completed_example =
    read_result-completed assignment (valid result) (text "completed")
      (ap (λ (r : WorkerResult). r.status) handed_on)

abbrev active : Active
active = (text "worker-1", assignment) ∷ []

is_active : find_active (text "worker-1") active ≡ some assignment
unfolding find_active text_beq
is_active = refl

known_result :
    has_run (read_result assignment (valid result) (text "completed")).run_id recorded.runs ≡ true
known_result = ap (λ (r : WorkerResult). has_run r.run_id recorded.runs) handed_on ∙ known

wait-returns_example :
    (decision : SkillTraceDecision) × (db' : Database) × (wait in_order clock
        (text "worker-1")
        (text "completed")
        (valid result)
        active
        (on_disk recorded none)
      ≡ (
        ok (record {
          status = text "completed";
          result = read_result assignment (valid result) (text "completed");
          decision = decision;
        }),
        pop_active (text "worker-1") active,
        on_disk db' none,
      ))
    × (decision
        ≡ decide_result (read_result assignment (valid result) (text "completed")) (
            get_worker in_order
              (read_result assignment (valid result) (text "completed")).worker_id
              recorded))
wait-returns_example =
    wait-returns in_order clock (text "worker-1") (text "completed") (valid result) active recorded
      none refl is_active known_result known

gated_at_end :
    (decide_result (read_result assignment (valid result) (text "completed")) (
      get_worker in_order
        (read_result assignment (valid result) (text "completed")).worker_id
        recorded)).accepted
    ≡ true
gated_at_end =
    ap (λ (r : WorkerResult). (decide_result r (get_worker in_order r.worker_id recorded)).accepted)
      handed_on
    ∙ gated

wait-accepted_example :
    (text "completed" ≡ text "completed")
    × (valid result ≡ valid (read_result assignment (valid result) (text "completed")))
    × (a : WorkerAssignment) × (get_worker in_order
          (read_result assignment (valid result) (text "completed")).worker_id
          recorded
        ≡ some a)
    × FollowsProcess (read_result assignment (valid result) (text "completed")) (some a)
wait-accepted_example =
    wait-accepted in_order clock (text "worker-1") (text "completed") (valid result) active
      (pop_active (text "worker-1") active) recorded none refl is_active known_result
      (wait-returns in_order clock (text "worker-1") (text "completed") (valid result) active
        recorded none refl is_active known_result known).2
      (ap (λ (s : SkillTraceDecision). s.accepted)
          (wait-returns in_order clock (text "worker-1") (text "completed") (valid result) active
            recorded none refl is_active known_result known).3
        ∙ gated_at_end)

recoverable_iff_example :
    (assignments : List WorkerAssignment) × (recoverable_assignments in_order
        (text "r1")
        (on_disk recorded none)
      ≡ (ok assignments, on_disk recorded none))
    × ((a : WorkerAssignment)
        → In a assignments
          ↔ (IsWorkerOf recorded (text "r1") a × (¬ HasResult recorded (text "r1") a)))
recoverable_iff_example = recoverable_iff in_order (text "r1") recorded none refl
