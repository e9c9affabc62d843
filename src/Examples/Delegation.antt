-- ===== src/Examples/Delegation.antt =====
-- Two runs in one workspace: the first gets a new worker, the second takes it over.
use git_hub_issue_to_impleme.Prelude.{
  ◌+◌, ◌≡◌, refl, true, false, Option, none, some, List, [], ◌∷◌, ◌++◌, nat_eq, pair_eq, length,
  text, text_beq, text_eq, texts_eq, starts_with, is_space, strip_left, strip, split_on, join,
  decimal, Result, insert_sorted, sort, ok, err,
}
use git_hub_issue_to_impleme.Examples.Data.{handoff, host, assignment}
use git_hub_issue_to_impleme.Examples.Chief.{in_order, clock, recorded}
use git_hub_issue_to_impleme.Schemas.Runtime.{
  WorkerAssignment, WorkerTask, validate_task, assignment_is_valid, entry_is_valid,
}
use git_hub_issue_to_impleme.Schemas.Handoff.{PlannerHandoff}
use git_hub_issue_to_impleme.Store.Database.{
  Database, Disk, empty_database, has_run, require_run, check_reference, insert_event, open_file,
  initialize, settle, run_body, transact,
}
use git_hub_issue_to_impleme.Store.Steps.{on_disk, IsCurrent}
use git_hub_issue_to_impleme.Queue.{
  file_contains, contains_queue_id, render_body, render, record_entry, append, entry_of, enqueue,
}
use git_hub_issue_to_impleme.Worktrees.{
  assignment_for, is_identifier_char, is_identifier, is_task_identifier, provider_named, branch_of,
  worktree_path_of, create_assignment,
}
use git_hub_issue_to_impleme.Skills.Catalog.{
  Manifest, Entry, from_project, describe, describe_all, skills_for, names_of, required_skills_for,
}
use git_hub_issue_to_impleme.Store.Operations.{
  insert_run, update_status, insert_task, insert_handoff, insert_worker, insert_queue_entry, write,
  execute, perform,
}
use git_hub_issue_to_impleme.Store.Table.{find_row, upsert}
use git_hub_issue_to_impleme.Store.Queries.{get_run, get_payload, get_worker}
use git_hub_issue_to_impleme.Tickets.{
  range, step_task_id, task_id_of, dependency_ids, planned_tests_text, step_description, step_task,
  task_from_step, tasks_loop, tasks_from_handoff,
}
use git_hub_issue_to_impleme.Skills.Context.{rules_text, context_text, prepare_subagent_context}
use git_hub_issue_to_impleme.Paths.{root_of, parse, as_posix, begins}
use git_hub_issue_to_impleme.Chief.Session.{
  create_tasks_from_handoff, ask, start_run, ensure_run, accept_planner_handoff, record_tasks,
}
use git_hub_issue_to_impleme.Chief.Board.{Board, Setting, file_at, enqueue_task}
use git_hub_issue_to_impleme.Chief.Delegate.{
  delegate_ticket, delegate_tasks, prepare_worker_context, assign_task, delegate_new, delegate_one,
  delegate_each,
}
use git_hub_issue_to_impleme.Chief.Resumed.{AreRecorded, delegate_tasks-resumes}
use git_hub_issue_to_impleme.Chief.Delegated.{
  AreDelegated, ticketed_board, delegate_tasks-AreDelegated,
}

abbrev tdd : Entry
tdd = record {
  name = some (text "tdd");
  snapshot = some (text "tdd");
  description = [];
  source = [];
  roles = text "runtime_worker" ∷ [];
  required_for = text "runtime_worker" ∷ [];
}

abbrev setting : Setting
setting = record {
  workspace = text "/w";
  engine = in_order;
  host = host;
  git = record {
    verify_commit = λ commit. ok tt;
    path_exists = λ path. false;
    add_worktree = λ branch path commit. ok tt;
  };
  place = record { resolve = λ path. path; is_file = λ path. true };
  manifest = Manifest.listing (tdd ∷ []);
  dumps = λ words. join (text " ") words;
  printer = record { repr = λ words. join (text " ") words };
  clock = clock;
}

abbrev new_board : Board
new_board = record { disk = on_disk empty_database none; files = []; skill_catalog = none }

abbrev task_of : Result (List WorkerTask) → List WorkerTask
task_of (ok tasks) = tasks
task_of (err e) = []

abbrev given : Result (List WorkerAssignment) → List WorkerAssignment
given (ok assignments) = assignments
given (err e) = []

delegated :
    (delegate_tasks setting handoff (text "codex") new_board).0
    ≡ ok (given (delegate_tasks setting handoff (text "codex") new_board).0)
unfolding has_run require_run check_reference insert_event open_file initialize settle run_body
    transact insert_run update_status insert_task insert_handoff insert_worker insert_queue_entry
    write execute perform find_row upsert get_run get_payload get_worker range step_task_id
    task_id_of dependency_ids planned_tests_text step_description step_task task_from_step
    tasks_loop tasks_from_handoff ask start_run ensure_run accept_planner_handoff record_tasks
    create_tasks_from_handoff file_at enqueue_task prepare_worker_context assign_task delegate_new
    delegate_one delegate_ticket delegate_each delegate_tasks file_contains contains_queue_id
    render_body render record_entry append entry_of enqueue is_identifier_char is_identifier
    is_task_identifier provider_named branch_of worktree_path_of assignment_for create_assignment
    from_project describe describe_all skills_for names_of required_skills_for rules_text
    context_text prepare_subagent_context root_of parse as_posix begins text_beq is_space strip_left
    strip split_on join decimal sort insert_sorted validate_task assignment_is_valid entry_is_valid
    starts_with
delegated = refl

delegate_tasks-AreDelegated_example :
    (tasks : List WorkerTask) × ((create_tasks_from_handoff host
        (text "/w")
        clock
        handoff
        (on_disk empty_database none)).0
      ≡ ok tasks)
    × AreDelegated setting
        (4 + length tasks)
        handoff
        (text "codex")
        1
        tasks
        (ticketed_board setting handoff new_board)
        (given (delegate_tasks setting handoff (text "codex") new_board).0)
delegate_tasks-AreDelegated_example =
    delegate_tasks-AreDelegated setting handoff (text "codex") new_board delegated

-- The first run's second worker.
abbrev second : WorkerAssignment
second = record assignment {
  worker_id = text "worker-2";
  task_id = text "r1-task-2";
  branch = text "chief/r1/worker-2";
}

abbrev staffed : Database
staffed = record recorded {
  workers =
      recorded.workers
      ++ record { key = text "worker-2"; run_id = text "r1"; payload = second } ∷ [];
}

-- Another run, in the workspace where the workers of the first one are recorded.
abbrev second_run : PlannerHandoff
second_run = record handoff { run_id = text "r2" }

abbrev old_board : Board
old_board = record { disk = on_disk staffed none; files = []; skill_catalog = none }

abbrev ticketed : Result (List WorkerTask) × Disk
ticketed = create_tasks_from_handoff host (text "/w") clock second_run (on_disk staffed none)

abbrev database_of : Option Database → Database
database_of none = empty_database
database_of (some db) = db

abbrev ticketed_database : Database
ticketed_database = database_of ticketed.1.database

made : ticketed ≡ (ok (task_of ticketed.0), on_disk ticketed_database none)
unfolding has_run require_run check_reference insert_event open_file initialize settle run_body
    transact insert_run update_status insert_task insert_handoff insert_worker insert_queue_entry
    write execute perform find_row upsert get_run get_payload get_worker range step_task_id
    task_id_of dependency_ids planned_tests_text step_description step_task task_from_step
    tasks_loop tasks_from_handoff ask start_run ensure_run accept_planner_handoff record_tasks
    create_tasks_from_handoff text_beq is_space strip_left strip split_on join decimal sort
    insert_sorted validate_task assignment_is_valid entry_is_valid
made = refl

is_current : IsCurrent ticketed_database
unfolding has_run require_run check_reference insert_event open_file initialize settle run_body
    transact insert_run update_status insert_task insert_handoff insert_worker insert_queue_entry
    write execute perform find_row upsert get_run get_payload get_worker range step_task_id
    task_id_of dependency_ids planned_tests_text step_description step_task task_from_step
    tasks_loop tasks_from_handoff ask start_run ensure_run accept_planner_handoff record_tasks
    create_tasks_from_handoff text_beq is_space strip_left strip split_on join decimal sort
    insert_sorted validate_task assignment_is_valid entry_is_valid
is_current = refl

one_each : length (task_of ticketed.0) ≡ 2
unfolding has_run require_run check_reference insert_event open_file initialize settle run_body
    transact insert_run update_status insert_task insert_handoff insert_worker insert_queue_entry
    write execute perform find_row upsert get_run get_payload get_worker range step_task_id
    task_id_of dependency_ids planned_tests_text step_description step_task task_from_step
    tasks_loop tasks_from_handoff ask start_run ensure_run accept_planner_handoff record_tasks
    create_tasks_from_handoff text_beq is_space strip_left strip split_on join decimal sort
    insert_sorted validate_task assignment_is_valid entry_is_valid
one_each = refl

still_recorded : AreRecorded in_order ticketed_database 1 (assignment ∷ second ∷ [])
unfolding has_run require_run check_reference insert_event open_file initialize settle run_body
    transact insert_run update_status insert_task insert_handoff insert_worker insert_queue_entry
    write execute perform find_row upsert get_run get_payload get_worker range step_task_id
    task_id_of dependency_ids planned_tests_text step_description step_task task_from_step
    tasks_loop tasks_from_handoff ask start_run ensure_run accept_planner_handoff record_tasks
    create_tasks_from_handoff text_beq is_space strip_left strip split_on join decimal sort
    insert_sorted validate_task assignment_is_valid entry_is_valid
still_recorded = (refl, (refl, tt))

-- The second run's tickets are answered with the first run's assignments.
delegate_tasks-resumes_example :
    delegate_tasks setting second_run (text "codex") old_board
    ≡ (ok (assignment ∷ second ∷ []), record old_board { disk = on_disk ticketed_database none })
delegate_tasks-resumes_example =
    delegate_tasks-resumes setting second_run (text "codex") old_board (task_of ticketed.0)
      ticketed_database none (assignment ∷ second ∷ []) made is_current one_each still_recorded
