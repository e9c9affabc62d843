-- ===== src/Store/Sequence.antt =====
-- Any sequence of method calls, from a new file on.
use git_hub_issue_to_impleme.Prelude.{
  ℕ, ◌≡◌, refl, ap, subst, inl, inr, Option, none, some, List, [], ◌∷◌, arith, ltb, Bool-cases,
  nat_eq, pair_eq, Text, text_eq, Result, ◌>>=◌, ◌>>◌, >>=-eq-ok, ok-injective, err≢ok, ok, err,
}
use git_hub_issue_to_impleme.Store.Database.{
  Database, Disk, empty_database, require_run, open_file, initialize, settle, run_body, transact,
  latest_schema_version,
}
use git_hub_issue_to_impleme.Store.Operations.{
  Command, write, execute, run_of, event_type_of, event_payload_of, perform,
}
use git_hub_issue_to_impleme.Store.Consistent.{
  IsConsistent, insert_event-IsConsistent, insert_task-IsConsistent, insert_handoff-IsConsistent,
  insert_worker-IsConsistent, insert_queue_entry-IsConsistent, insert_worker_result-IsConsistent,
}
use git_hub_issue_to_impleme.Store.Runs.{insert_run-IsConsistent, update_status-IsConsistent}

-- The rest of a method after its `_require_run`.
after_require :
    (run_id : Text) (db : Database) (rest : Result Database) {db' : Database}
    → (require_run run_id db >> rest) ≡ ok db'
    → rest ≡ ok db'
unfolding require_run
after_require run_id db rest e = ground arith

write-IsConsistent :
    (now : ℕ) (c : Command) (db : Database) {db' : Database}
    → IsConsistent db
    → write now c db ≡ ok db'
    → IsConsistent db'
unfolding write
write-IsConsistent now (Command.create_run w r b s) db h e =
    insert_run-IsConsistent now w r b s db h e
write-IsConsistent now (Command.set_run_status r s) db h e =
    subst IsConsistent (ok-injective (after_require r db _ e))
      (update_status-IsConsistent now r s db h)
write-IsConsistent now (Command.record_task t) db h e =
    insert_task-IsConsistent t db h (after_require t.run_id db _ e)
write-IsConsistent now (Command.record_handoff p) db h e =
    insert_handoff-IsConsistent now p db h (after_require p.run_id db _ e)
write-IsConsistent now (Command.record_worker a) db h e =
    insert_worker-IsConsistent a db h (after_require a.run_id db _ e)
write-IsConsistent now (Command.record_queue_entry q) db h e =
    insert_queue_entry-IsConsistent q db h (after_require q.run_id db _ e)
write-IsConsistent now (Command.record_worker_result r) db h e =
    insert_worker_result-IsConsistent now r db h (after_require r.run_id db _ e)
write-IsConsistent now (Command.record_event r t p) db h e =
    subst IsConsistent (ok-injective (after_require r db _ e)) h

pub execute-IsConsistent :
    (now : ℕ) (c : Command) (db : Database) {db' : Database}
    → IsConsistent db
    → execute now c db ≡ ok db'
    → IsConsistent db'
unfolding execute
execute-IsConsistent now c db h e =
    let (db₁, wrote, logged) = >>=-eq-ok (write now c db) _ e in
    insert_event-IsConsistent now (run_of c) (event_type_of c) (event_payload_of c) db₁
      (write-IsConsistent now c db h wrote) logged

abbrev pub IsSoundFile : Option Database → Type 0
IsSoundFile none = Unit
IsSoundFile (some db) = IsConsistent db

-- What the file holds is consistent, or there is no file yet.
abbrev pub IsSound : Disk → Type 0
IsSound d = IsSoundFile d.database

empty-IsConsistent : IsConsistent empty_database
empty-IsConsistent = record {
  runs = tt;
  tasks = (tt, tt);
  handoffs = (tt, tt);
  workers = (tt, tt);
  queue = (tt, tt);
  results = (tt, tt);
  events = tt;
  numbered = omega arith;
}

-- A connection that opens hands out a consistent database, and leaves a consistent file.
pub open_file-IsSound :
    (file backup : Option Database)
    → IsSoundFile file
    → let (opened, d) = open_file file backup in
      IsSound d × ((db : Database) → opened ≡ ok db → IsConsistent db)
unfolding open_file
open_file-IsSound none backup h =
    (empty-IsConsistent, λ db e. subst IsConsistent (ok-injective e) empty-IsConsistent)
open_file-IsSound (some db) backup h =
    elim (Bool-cases (ltb latest_schema_version db.user_version)) [
      | inl newer ↦ rw newer (h, λ db' e. absurd (err≢ok e))
      | inr fine ↦ rw fine (upgraded, λ db' e. subst IsConsistent (ok-injective e) upgraded)
    ]
  where
    upgraded : IsConsistent (record db { user_version = latest_schema_version })
    upgraded = record {
      runs = h.runs;
      tasks = h.tasks;
      handoffs = h.handoffs;
      workers = h.workers;
      queue = h.queue;
      results = h.results;
      events = h.events;
      numbered = h.numbered;
    }

settle-IsSound :
    {A : Type 0} (r : Result (A × Database)) (d : Disk)
    → IsSound d
    → ((a : A) (db : Database) → r ≡ ok (a, db) → IsConsistent db)
    → IsSound (settle r d).1
unfolding settle
settle-IsSound (err e) d h k = h
settle-IsSound (ok (a, db)) d h k = k a db refl

run_body-IsSound :
    {A : Type 0} (body : Database → Result (A × Database)) (opened : Result Database) (d : Disk)
    → IsSound d
    → ((db : Database) → opened ≡ ok db → IsConsistent db)
    → ((db db' : Database) (a : A) → IsConsistent db → body db ≡ ok (a, db') → IsConsistent db')
    → IsSound (run_body body opened d).1
unfolding run_body
run_body-IsSound body (err e) d h o k = h
run_body-IsSound body (ok db) d h o k =
    settle-IsSound (body db) d h (λ a db' e. k db db' a (o db refl) e)

pub perform-IsSound : (now : ℕ) (c : Command) (d : Disk) → IsSound d → IsSound (perform now c d).1
unfolding perform transact initialize
perform-IsSound now c d h =
    let (file, handed) = open_file-IsSound d.database d.backup h in
    run_body-IsSound (λ db. execute now c db >>= λ db'. ok (tt, db'))
      (open_file d.database d.backup).0 (open_file d.database d.backup).1 file handed
      (λ db db' a valid e.
        let (db₁, ran, made) = >>=-eq-ok (execute now c db) _ e in
        subst IsConsistent (ap (λ p. p.1) (ok-injective made))
          (execute-IsConsistent now c db valid ran))

-- The calls, each with the time at which it runs, whatever each returns.
unfoldable pub perform_all : List (ℕ × Command) → Disk → Disk
perform_all [] d = d
perform_all ((now, c) ∷ calls) d = perform_all calls (perform now c d).1

-- Whatever methods are called, in whatever order and however they end, the database keeps unique
-- primary keys, no row that refers to a run that is not there, and rising event ids.
pub perform_all-IsSound :
    (calls : List (ℕ × Command)) (d : Disk) → IsSound d → IsSound (perform_all calls d)
unfolding perform_all
perform_all-IsSound [] d h = h
perform_all-IsSound ((now, c) ∷ calls) d h =
    perform_all-IsSound calls (perform now c d).1 (perform-IsSound now c d h)
