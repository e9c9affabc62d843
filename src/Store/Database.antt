-- ===== src/Store/Database.antt =====
-- The schema of src/agents/state_store.py and what its transactions are made of. A payload is the
-- model that was dumped to JSON, and a time stamp is a number: the ISO texts that `_now` makes sort
-- as the times do. A foreign key is checked on insertion, as `PRAGMA foreign_keys = ON` has it.
use git_hub_issue_to_impleme.Prelude.{
  ℕ, suc, Bool, false, ◌||◌, Option, none, some, List, [], ◌∷◌, ◌++◌, ltb, if◌then◌else◌, ◌==◌,
  nat_eq, pair_eq, Text, text, text_eq, Error, Result, ◌>>◌, guard, ok, err,
}
use git_hub_issue_to_impleme.Schemas.Runtime.{
  WorkerTask, WorkerAssignment, QueueEntry, WorkerResult,
}
use git_hub_issue_to_impleme.Schemas.Handoff.{PlannerHandoff}

pub record RunRow : Type 0 where
  pub run_id : Text
  pub project_workspace : Text
  pub base_commit : Text
  pub status : Text
  pub created_at : ℕ
  pub updated_at : ℕ

-- A row of `tasks`, `workers` or `queue_entries`.
pub record PayloadRow (P : Type 0) : Type 0 where
  pub key : Text
  pub run_id : Text
  pub payload : P

pub record HandoffRow : Type 0 where
  pub run_id : Text
  pub payload : PlannerHandoff
  pub created_at : ℕ

pub record ResultRow : Type 0 where
  pub run_id : Text
  pub worker_id : Text
  pub task_id : Text
  pub payload : WorkerResult
  pub created_at : ℕ

-- The values that event payloads hold.
pub data Value : Type 0 where
  str : Text → Value
  strs : List Text → Value
  flag : Bool → Value
  number : ℕ → Value

abbrev pub Payload : Type 0
Payload = List (Text × Value)

pub record EventRow : Type 0 where
  pub event_id : ℕ
  pub run_id : Text
  pub event_type : Text
  pub payload : Payload
  pub created_at : ℕ

-- `last_event_id` is what AUTOINCREMENT remembers.
pub record Database : Type 0 where
  pub user_version : ℕ
  pub runs : List RunRow
  pub tasks : List (PayloadRow WorkerTask)
  pub planner_handoffs : List HandoffRow
  pub workers : List (PayloadRow WorkerAssignment)
  pub queue_entries : List (PayloadRow QueueEntry)
  pub worker_results : List ResultRow
  pub events : List EventRow
  pub last_event_id : ℕ

abbrev pub latest_schema_version : ℕ
latest_schema_version = 2

-- A new file, after `_create_schema`.
abbrev pub empty_database : Database
empty_database = record {
  user_version = latest_schema_version;
  runs = [];
  tasks = [];
  planner_handoffs = [];
  workers = [];
  queue_entries = [];
  worker_results = [];
  events = [];
  last_event_id = 0;
}

abbrev pub run_key : RunRow → Text
run_key r = r.run_id

abbrev pub payload_key : {P : Type 0} → PayloadRow P → Text × Text
payload_key r = (r.run_id, r.key)

abbrev pub queue_key : PayloadRow QueueEntry → Text
queue_key r = r.key

abbrev pub handoff_key : HandoffRow → Text
handoff_key r = r.run_id

abbrev pub result_key : ResultRow → Text × (Text × Text)
result_key r = (r.run_id, (r.worker_id, r.task_id))

unfoldable pub has_run : Text → List RunRow → Bool
has_run run_id [] = false
has_run run_id (r ∷ rows) = r.run_id == run_id || has_run run_id rows

-- `_require_run`
unfoldable pub require_run : Text → Database → Result (Unit {0})
require_run run_id db =
    guard (has_run run_id db.runs) (Error.state_store_error (text "Run does not exist: " ++ run_id))

-- `REFERENCES runs(run_id)`
unfoldable pub check_reference : Text → Database → Result (Unit {0})
check_reference run_id db = guard (has_run run_id db.runs) Error.integrity_error

-- `_insert_event`
unfoldable pub insert_event : ℕ → Text → Text → Payload → Database → Result Database
insert_event now run_id event_type payload db = do
  check_reference run_id db
  ok (record db {
    events =
        db.events
        ++ record {
          event_id = suc db.last_event_id;
          run_id = run_id;
          event_type = event_type;
          payload = payload;
          created_at = now;
        }
          ∷ [];
    last_event_id = suc db.last_event_id;
  })

-- The file and its backup copy beside it.
pub record Disk : Type 0 where
  pub database : Option Database
  pub backup : Option Database

abbrev pub newer_schema : Error
newer_schema =
    Error.state_store_error (text "Chief state store has a newer schema than this runtime.")

-- What `initialize` does with the file and the backup that it finds.
unfoldable pub open_file : Option Database → Option Database → Result Database × Disk
open_file none backup =
    (ok empty_database, record { database = some empty_database; backup = backup })
open_file (some db) backup =
    let upgraded = record db { user_version = latest_schema_version } in
    let kept = if ltb db.user_version latest_schema_version then some db else backup in
    if ltb latest_schema_version db.user_version
    then (err newer_schema, record { database = some db; backup = backup })
    else (ok upgraded, record { database = some upgraded; backup = kept })

-- `initialize`: a newer schema is refused, an older one is copied before it is upgraded.
unfoldable pub initialize : Disk → Result Database × Disk
initialize d = open_file d.database d.backup

-- `with self._connection() as connection`: the body's writes are committed together if it returns,
-- and rolled back if it raises.
unfoldable pub settle : {A : Type 0} → Result (A × Database) → Disk → Result A × Disk
settle (err e) d = (err e, d)
settle (ok (a, db)) d = (ok a, record d { database = some db })

unfoldable pub run_body :
    {A : Type 0} → (Database → Result (A × Database)) → Result Database → Disk → Result A × Disk
run_body body (err e) d = (err e, d)
run_body body (ok db) d = settle (body db) d

unfoldable pub transact : {A : Type 0} → (Database → Result (A × Database)) → Disk → Result A × Disk
transact body d = let (opened, d') = initialize d in run_body body opened d'
