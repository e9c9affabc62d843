-- ===== src/Store/Steps.antt =====
-- A call of the store on a file that is at the latest schema version, computed.
use git_hub_issue_to_impleme.Prelude.{
  ℕ, suc, ◌≡◌, refl, sym, ap, ◌∙◌, inl, inr, true, false, Option, some, arith, nat_eq, pair_eq,
  true≢false, Text, text_eq, Result, is_ok, ◌>>=◌, >>=-eq-ok, Result-cases, ok,
}
use git_hub_issue_to_impleme.Store.Database.{
  open_file, initialize, run_body, settle, ResultRow, Payload, Database, latest_schema_version,
  result_key, has_run, require_run, check_reference, insert_event, Disk, transact,
}
use git_hub_issue_to_impleme.Store.Operations.{
  update_result, Command, insert_run, insert_task, insert_handoff, insert_worker,
  insert_queue_entry, insert_worker_result, run_of, write, execute, perform,
}
use git_hub_issue_to_impleme.Store.Outcome.{
  may_write, execute-is_ok, write-keeps_events, write-has_run,
}
use git_hub_issue_to_impleme.Store.Table.{upsert}
use git_hub_issue_to_impleme.Schemas.Runtime.{WorkerResult}

abbrev pub on_disk : Database → Option Database → Disk
on_disk db backup = record { database = some db; backup = backup }

abbrev pub IsCurrent : Database → Type 0
IsCurrent db = db.user_version ≡ latest_schema_version

open-current :
    (db : Database) (backup : Option Database)
    → IsCurrent db
    → initialize (on_disk db backup) ≡ (ok db, on_disk db backup)
unfolding initialize open_file
open-current db backup c = rw c refl

pub transact-current :
    {A : Type 0} (body : Database → Result (A × Database)) (db : Database)
    (backup : Option Database)
    → IsCurrent db
    → transact body (on_disk db backup) ≡ settle (body db) (on_disk db backup)
unfolding transact run_body
transact-current body db backup c = rw (open-current db backup c)

-- A call that goes through.
pub perform-current :
    (now : ℕ) (c : Command) (db : Database) (backup : Option Database)
    → IsCurrent db
    → may_write c db ≡ true
    → (db' : Database) × (execute now c db ≡ ok db')
      × (perform now c (on_disk db backup) ≡ (ok tt, on_disk db' backup))
unfolding perform settle
perform-current now c db backup current may = elim (Result-cases (execute now c db)) [
  | inl (e, refused) ↦ absurd (true≢false (sym may ∙ sym (execute-is_ok now c db) ∙ rw refused))
  | inr (db', done) ↦ (
    db',
    done,
    transact-current (λ db. execute now c db >>= λ db'. ok (tt, db')) db backup current ∙ rw done,
  )
]

-- A call that is refused leaves the file as it was.
pub perform-current_refused :
    (now : ℕ) (c : Command) (db : Database) (backup : Option Database)
    → IsCurrent db
    → may_write c db ≡ false
    → (perform now c (on_disk db backup)).1 ≡ on_disk db backup
      × (is_ok (perform now c (on_disk db backup)).0 ≡ false)
unfolding perform settle
perform-current_refused now c db backup current may = elim (Result-cases (execute now c db)) [
  | inl (e, refused) ↦
      rw
        (
          transact-current (λ db. execute now c db >>= λ db'. ok (tt, db')) db backup current,
          refused,
        )
        (refl, refl)
  | inr (db', done) ↦ absurd (true≢false (sym (sym (execute-is_ok now c db) ∙ ap is_ok done) ∙ may))
]

write-IsCurrent :
    (now : ℕ) (c : Command) (db : Database) {db' : Database}
    → write now c db ≡ ok db'
    → db'.user_version ≡ db.user_version
unfolding write require_run insert_run insert_task insert_handoff insert_worker insert_queue_entry
    insert_worker_result check_reference
write-IsCurrent now (Command.create_run w r b s) db e = ground arith
write-IsCurrent now (Command.set_run_status r s) db e = ground arith
write-IsCurrent now (Command.record_task t) db e = ground arith
write-IsCurrent now (Command.record_handoff h) db e = ground arith
write-IsCurrent now (Command.record_worker a) db e = ground arith
write-IsCurrent now (Command.record_queue_entry q) db e = ground arith
write-IsCurrent now (Command.record_worker_result r) db e = ground arith
write-IsCurrent now (Command.record_event r t p) db e = ground arith

-- The event leaves all other tables alone.
insert_event-keeps :
    (now : ℕ) (run_id event_type : Text) (payload : Payload) (db : Database) {db' : Database}
    → insert_event now run_id event_type payload db ≡ ok db'
    → (db'.user_version ≡ db.user_version)
      × (db'.runs ≡ db.runs)
      × (db'.worker_results ≡ db.worker_results)
      × (db'.last_event_id ≡ suc db.last_event_id)
unfolding insert_event check_reference
insert_event-keeps now run_id event_type payload db e = ground arith

pub execute-IsCurrent :
    (now : ℕ) (c : Command) (db : Database) {db' : Database}
    → IsCurrent db
    → execute now c db ≡ ok db'
    → IsCurrent db'
unfolding execute
execute-IsCurrent now c db current e =
    let (db₁, wrote, logged) = >>=-eq-ok (write now c db) _ e in
    let (version, _, _, _) = insert_event-keeps now _ _ _ db₁ logged in
    version ∙ (write-IsCurrent now c db wrote ∙ current)

pub execute-last_event_id :
    (now : ℕ) (c : Command) (db : Database) {db' : Database}
    → execute now c db ≡ ok db'
    → db'.last_event_id ≡ suc db.last_event_id
unfolding execute
execute-last_event_id now c db e =
    let (db₁, wrote, logged) = >>=-eq-ok (write now c db) _ e in
    let (_, _, _, last) = insert_event-keeps now _ _ _ db₁ logged in
    let (_, same) = write-keeps_events now c db wrote in last ∙ ap suc same

-- The run of a call is recorded once the call has returned.
pub execute-has_run :
    (now : ℕ) (c : Command) (db : Database) {db' : Database}
    → execute now c db ≡ ok db'
    → has_run (run_of c) db'.runs ≡ true
unfolding execute
execute-has_run now c db {db'} e =
    let (db₁, wrote, logged) = >>=-eq-ok (write now c db) _ e in
    let (_, same, _, _) = insert_event-keeps now _ _ _ db₁ logged in
    ap (has_run (run_of c)) same ∙ write-has_run now c db wrote

abbrev pub result_row : ℕ → WorkerResult → ResultRow
result_row now r = record {
  run_id = r.run_id;
  worker_id = r.worker_id;
  task_id = r.task_id;
  payload = r;
  created_at = now;
}

-- What recording a result does to the table of results.
pub execute-worker_results :
    (now : ℕ) (r : WorkerResult) (db : Database) {db' : Database}
    → execute now (Command.record_worker_result r) db ≡ ok db'
    → db'.worker_results ≡ upsert result_key update_result (result_row now r) db.worker_results
unfolding execute write require_run insert_worker_result check_reference insert_event
execute-worker_results now r db e = ground arith

pub execute_event-worker_results :
    (now : ℕ) (run_id event_type : Text) (payload : Payload) (db : Database) {db' : Database}
    → execute now (Command.record_event run_id event_type payload) db ≡ ok db'
    → db'.worker_results ≡ db.worker_results
unfolding execute write require_run check_reference insert_event
execute_event-worker_results now run_id event_type payload db e = ground arith

pub execute_result-runs :
    (now : ℕ) (r : WorkerResult) (db : Database) {db' : Database}
    → execute now (Command.record_worker_result r) db ≡ ok db'
    → db'.runs ≡ db.runs
unfolding execute write require_run insert_worker_result check_reference insert_event
execute_result-runs now r db e = ground arith

pub execute_event-runs :
    (now : ℕ) (run_id event_type : Text) (payload : Payload) (db : Database) {db' : Database}
    → execute now (Command.record_event run_id event_type payload) db ≡ ok db'
    → db'.runs ≡ db.runs
unfolding execute write require_run check_reference insert_event
execute_event-runs now run_id event_type payload db e = ground arith
