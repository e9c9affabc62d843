-- ===== src/Store/Outcome.antt =====
-- What a method of the store does when it returns, and which calls of it raise.
use git_hub_issue_to_impleme.Prelude.{
  ℕ, suc, ◌≡◌, refl, ap₂, ◌∙◌, subst, Bool, true, false, List, [], ◌∷◌, ◌++◌, arith, if◌then◌else◌,
  not, nat_eq, pair_eq, or_true, Text, text_beq_iff, text_eq, Error, Result, ◌>>=◌, guard, is_ok,
  >>=-eq-ok, ok-injective, guard-eq-ok, ok, err,
}
use git_hub_issue_to_impleme.Store.Database.{
  Database, EventRow, RunRow, has_run, require_run, check_reference, insert_event,
}
use git_hub_issue_to_impleme.Store.Runs.{has_run-append, has_run-update_status}
use git_hub_issue_to_impleme.Store.Operations.{
  Command, insert_run, insert_task, insert_handoff, insert_worker, insert_queue_entry,
  insert_worker_result, write, execute, run_of, event_type_of, event_payload_of,
}

-- The event that a method leaves behind.
abbrev pub event_of : ℕ → Command → Database → EventRow
event_of now c db = record {
  event_id = suc db.last_event_id;
  run_id = run_of c;
  event_type = event_type_of c;
  payload = event_payload_of c;
  created_at = now;
}

abbrev pub creates_run : Command → Bool
creates_run (Command.create_run w r b s) = true
creates_run _ = false

pub write-keeps_events :
    (now : ℕ) (c : Command) (db : Database) {db' : Database}
    → write now c db ≡ ok db'
    → (db'.events ≡ db.events) × (db'.last_event_id ≡ db.last_event_id)
unfolding write require_run insert_run insert_task insert_handoff insert_worker insert_queue_entry
    insert_worker_result check_reference
write-keeps_events now (Command.create_run w r b s) db e = ground arith
write-keeps_events now (Command.set_run_status r s) db e = ground arith
write-keeps_events now (Command.record_task t) db e = ground arith
write-keeps_events now (Command.record_handoff h) db e = ground arith
write-keeps_events now (Command.record_worker a) db e = ground arith
write-keeps_events now (Command.record_queue_entry q) db e = ground arith
write-keeps_events now (Command.record_worker_result r) db e = ground arith
write-keeps_events now (Command.record_event r t p) db e = ground arith

insert_event-appends :
    (now : ℕ) (c : Command) (db : Database) {db' : Database}
    → insert_event now (run_of c) (event_type_of c) (event_payload_of c) db ≡ ok db'
    → db'.events ≡ db.events ++ event_of now c db ∷ []
unfolding insert_event check_reference
insert_event-appends now c db e = ground arith

-- A method that returns has added exactly its one event at the end of the log.
pub execute-appends_event :
    (now : ℕ) (c : Command) (db : Database) {db' : Database}
    → execute now c db ≡ ok db'
    → db'.events ≡ db.events ++ event_of now c db ∷ []
unfolding execute
execute-appends_event now c db e =
    let (db₁, wrote, logged) = >>=-eq-ok (write now c db) _ e in
    let (same, last) = write-keeps_events now c db wrote in
    insert_event-appends now c db₁ logged
    ∙ ap₂
        (λ events last.
          events
          ++ record {
            event_id = suc last;
            run_id = run_of c;
            event_type = event_type_of c;
            payload = event_payload_of c;
            created_at = now;
          }
            ∷ [])
        same last

-- When a method's transaction can go through: `create_run` wants a new run, all else a known one.
abbrev pub may_write : Command → Database → Bool
may_write c db =
    if creates_run c then not (has_run (run_of c) db.runs) else has_run (run_of c) db.runs

write-is_ok : (now : ℕ) (c : Command) (db : Database) → is_ok (write now c db) ≡ may_write c db
unfolding write require_run insert_run insert_task insert_handoff insert_worker insert_queue_entry
    insert_worker_result check_reference
write-is_ok now (Command.create_run w r b s) db = ground arith
write-is_ok now (Command.set_run_status r s) db = ground arith
write-is_ok now (Command.record_task t) db = ground arith
write-is_ok now (Command.record_handoff h) db = ground arith
write-is_ok now (Command.record_worker a) db = ground arith
write-is_ok now (Command.record_queue_entry q) db = ground arith
write-is_ok now (Command.record_worker_result r) db = ground arith
write-is_ok now (Command.record_event r t p) db = ground arith

has_run-appended :
    (k : Text) (runs : List RunRow) (row : RunRow)
    → row.run_id ≡ k
    → has_run k (runs ++ row ∷ []) ≡ true
has_run-appended k runs row e =
    has_run-append k runs row ∙ rw ((text_beq_iff row.run_id k).1 e) (or_true (has_run k runs))

pub write-has_run :
    (now : ℕ) (c : Command) (db : Database) {db' : Database}
    → write now c db ≡ ok db'
    → has_run (run_of c) db'.runs ≡ true
unfolding write require_run insert_run insert_task insert_handoff insert_worker insert_queue_entry
    insert_worker_result check_reference
write-has_run now (Command.create_run w r b s) db e =
    let (_, new, made) = >>=-eq-ok (guard (not (has_run r db.runs)) Error.integrity_error) _ e in
    subst (λ (d : Database). has_run r d.runs ≡ true) (ok-injective made)
      (has_run-appended r db.runs _ refl)
write-has_run now (Command.set_run_status r s) db e =
    let (_, known, made) = >>=-eq-ok (guard (has_run r db.runs) _) _ e in
    subst (λ (d : Database). has_run r d.runs ≡ true) (ok-injective made)
      (has_run-update_status r now r s db.runs ∙ guard-eq-ok _ _ known)
write-has_run now (Command.record_task t) db e = ground arith
write-has_run now (Command.record_handoff h) db e = ground arith
write-has_run now (Command.record_worker a) db e = ground arith
write-has_run now (Command.record_queue_entry q) db e = ground arith
write-has_run now (Command.record_worker_result r) db e = ground arith
write-has_run now (Command.record_event r t p) db e = ground arith

insert_event-is_ok :
    (now : ℕ) (c : Command) (db : Database)
    → has_run (run_of c) db.runs ≡ true
    → is_ok (insert_event now (run_of c) (event_type_of c) (event_payload_of c) db) ≡ true
unfolding insert_event check_reference
insert_event-is_ok now c db h = rw h

bind-is_ok :
    {A B : Type 0} (m : Result A) (f : A → Result B)
    → ((a : A) → m ≡ ok a → is_ok (f a) ≡ true)
    → is_ok (m >>= f) ≡ is_ok m
bind-is_ok (ok a) f h = h a refl
bind-is_ok (err e) f h = refl

-- `create_run` returns exactly if the run is new, and every other method exactly if its run is
-- recorded: the event that follows the write is never the one to fail.
pub execute-is_ok :
    (now : ℕ) (c : Command) (db : Database) → is_ok (execute now c db) ≡ may_write c db
unfolding execute
execute-is_ok now c db =
    bind-is_ok (write now c db) _
      (λ db₁ wrote. insert_event-is_ok now c db₁ (write-has_run now c db wrote))
    ∙ write-is_ok now c db
