-- ===== src/Store/Operations.antt =====
-- The methods of `ChiefStateStore` that write, as functions of one transaction.
use git_hub_issue_to_impleme.Prelude.{
  ℕ, List, [], ◌∷◌, ◌++◌, if◌then◌else◌, not, ◌==◌, nat_eq, pair_eq, Text, text, text_eq, Error,
  Result, ◌>>=◌, ◌>>◌, guard, ok,
}
use git_hub_issue_to_impleme.Schemas.Runtime.{
  WorkerTask, WorkerAssignment, QueueEntry, WorkerResult,
}
use git_hub_issue_to_impleme.Schemas.Handoff.{PlannerHandoff}
use git_hub_issue_to_impleme.Store.Table.{upsert}
use git_hub_issue_to_impleme.Store.Database.{
  RunRow, PayloadRow, HandoffRow, ResultRow, Value, Payload, Database, payload_key, queue_key,
  handoff_key, result_key, has_run, require_run, check_reference, insert_event, Disk, transact,
}

-- `ON CONFLICT DO UPDATE SET payload_json = excluded.payload_json`
abbrev pub update_payload : {P : Type 0} → PayloadRow P → PayloadRow P → PayloadRow P
update_payload old new = record old { payload = new.payload }

abbrev pub update_handoff : HandoffRow → HandoffRow → HandoffRow
update_handoff old new = record old { payload = new.payload; created_at = new.created_at }

abbrev pub update_result : ResultRow → ResultRow → ResultRow
update_result old new = record old { payload = new.payload; created_at = new.created_at }

-- What each writing method is called with.
pub data Command : Type 0 where
  create_run : Text → Text → Text → Text → Command
  set_run_status : Text → Text → Command
  record_task : WorkerTask → Command
  record_handoff : PlannerHandoff → Command
  record_worker : WorkerAssignment → Command
  record_queue_entry : QueueEntry → Command
  record_worker_result : WorkerResult → Command
  record_event : Text → Text → Payload → Command

-- `INSERT INTO runs`: the run id is the primary key.
unfoldable pub insert_run : ℕ → Text → Text → Text → Text → Database → Result Database
insert_run now project_workspace run_id base_commit status db = do
  guard (not (has_run run_id db.runs)) Error.integrity_error
  ok (record db {
    runs =
        db.runs
        ++ record {
          run_id = run_id;
          project_workspace = project_workspace;
          base_commit = base_commit;
          status = status;
          created_at = now;
          updated_at = now;
        }
          ∷ [];
  })

-- `UPDATE runs SET status = ?, updated_at = ? WHERE run_id = ?`
unfoldable pub update_status : ℕ → Text → Text → List RunRow → List RunRow
update_status now run_id status [] = []
update_status now run_id status (r ∷ rows) =
    (if r.run_id == run_id then record r { status = status; updated_at = now } else r)
    ∷ update_status now run_id status rows

unfoldable pub insert_task : WorkerTask → Database → Result Database
insert_task t db = do
  check_reference t.run_id db
  ok (record db {
    tasks =
        upsert payload_key update_payload
          (record { key = t.task_id; run_id = t.run_id; payload = t }) db.tasks;
  })

unfoldable pub insert_handoff : ℕ → PlannerHandoff → Database → Result Database
insert_handoff now h db = do
  check_reference h.run_id db
  ok (record db {
    planner_handoffs =
        upsert handoff_key update_handoff
          (record { run_id = h.run_id; payload = h; created_at = now }) db.planner_handoffs;
  })

unfoldable pub insert_worker : WorkerAssignment → Database → Result Database
insert_worker a db = do
  check_reference a.run_id db
  ok (record db {
    workers =
        upsert payload_key update_payload
          (record { key = a.worker_id; run_id = a.run_id; payload = a }) db.workers;
  })

unfoldable pub insert_queue_entry : QueueEntry → Database → Result Database
insert_queue_entry q db = do
  check_reference q.run_id db
  ok (record db {
    queue_entries =
        upsert queue_key update_payload
          (record { key = q.queue_id; run_id = q.run_id; payload = q }) db.queue_entries;
  })

unfoldable pub insert_worker_result : ℕ → WorkerResult → Database → Result Database
insert_worker_result now r db = do
  check_reference r.run_id db
  ok (record db {
    worker_results =
        upsert result_key update_result
          (record {
            run_id = r.run_id;
            worker_id = r.worker_id;
            task_id = r.task_id;
            payload = r;
            created_at = now;
          })
          db.worker_results;
  })

abbrev pub single : Text → Text → Payload
single key value = (key, Value.str value) ∷ []

-- The run that the command writes to.
abbrev pub run_of : Command → Text
run_of (Command.create_run w run_id b s) = run_id
run_of (Command.set_run_status run_id s) = run_id
run_of (Command.record_task t) = t.run_id
run_of (Command.record_handoff h) = h.run_id
run_of (Command.record_worker a) = a.run_id
run_of (Command.record_queue_entry q) = q.run_id
run_of (Command.record_worker_result r) = r.run_id
run_of (Command.record_event run_id t p) = run_id

-- `create_run` makes the run; every other method asks for it first.
unfoldable pub write : ℕ → Command → Database → Result Database
write now (Command.create_run w run_id base status) db = insert_run now w run_id base status db
write now (Command.set_run_status run_id status) db = do
  require_run run_id db
  ok (record db { runs = update_status now run_id status db.runs })
write now (Command.record_task t) db = do require_run t.run_id db; insert_task t db
write now (Command.record_handoff h) db = do require_run h.run_id db; insert_handoff now h db
write now (Command.record_worker a) db = do require_run a.run_id db; insert_worker a db
write now (Command.record_queue_entry q) db = do require_run q.run_id db; insert_queue_entry q db
write now (Command.record_worker_result r) db = do
  require_run r.run_id db
  insert_worker_result now r db
write now (Command.record_event run_id event_type payload) db = do require_run run_id db; ok db

-- The event that the method adds in the same transaction.
abbrev pub event_type_of : Command → Text
event_type_of (Command.create_run w r b s) = text "run_created"
event_type_of (Command.set_run_status r s) = text "run_status_changed"
event_type_of (Command.record_task t) = text "task_recorded"
event_type_of (Command.record_handoff h) = text "planner_handoff_recorded"
event_type_of (Command.record_worker a) = text "worker_recorded"
event_type_of (Command.record_queue_entry q) = text "queue_entry_recorded"
event_type_of (Command.record_worker_result r) = text "worker_result_recorded"
event_type_of (Command.record_event r event_type p) = event_type

abbrev pub event_payload_of : Command → Payload
event_payload_of (Command.create_run w r b status) = single (text "status") status
event_payload_of (Command.set_run_status r status) = single (text "status") status
event_payload_of (Command.record_task t) = single (text "task_id") t.task_id
event_payload_of (Command.record_handoff h) = (text "schema_version", Value.number 1) ∷ []
event_payload_of (Command.record_worker a) = single (text "worker_id") a.worker_id
event_payload_of (Command.record_queue_entry q) = single (text "queue_id") q.queue_id
event_payload_of (Command.record_worker_result r) =
    (text "worker_id", Value.str r.worker_id) ∷ (text "task_id", Value.str r.task_id) ∷ []
event_payload_of (Command.record_event r t payload) = payload

-- One method's transaction body, at the time `now`.
unfoldable pub execute : ℕ → Command → Database → Result Database
execute now c db = do
  db' ← write now c db
  insert_event now (run_of c) (event_type_of c) (event_payload_of c) db'

-- The method itself, against the file.
unfoldable pub perform : ℕ → Command → Disk → Result (Unit {0}) × Disk
perform now c = transact (λ db. do db' ← execute now c db; ok (tt, db'))
