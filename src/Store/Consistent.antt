-- ===== src/Store/Consistent.antt =====
-- The invariant of the database, kept by every method in every order.
use git_hub_issue_to_impleme.Prelude.{
  ℕ, suc, ◌≤◌, ◌<◌, ◌≡◌, refl, subst, true, List, [], ◌∷◌, ◌++◌, arith, Eq, nat_eq, pair_eq, All,
  All-append, Text, text_eq, Error, guard, >>=-eq-ok, ok-injective, guard-eq-ok, ok,
}
use git_hub_issue_to_impleme.Schemas.Runtime.{
  WorkerTask, WorkerAssignment, QueueEntry, WorkerResult,
}
use git_hub_issue_to_impleme.Schemas.Handoff.{PlannerHandoff}
use git_hub_issue_to_impleme.Store.Table.{upsert, IsKeyed, upsert-IsKeyed, upsert-All}
use git_hub_issue_to_impleme.Store.Database.{
  RunRow, PayloadRow, EventRow, Payload, Database, run_key, payload_key, queue_key, handoff_key,
  result_key, has_run, check_reference, insert_event,
}
use git_hub_issue_to_impleme.Store.Operations.{
  update_payload, update_handoff, update_result, insert_task, insert_handoff, insert_worker,
  insert_queue_entry, insert_worker_result,
}

-- Event ids rise, from above `lo` to at most `hi`.
abbrev pub Rising : ℕ → List EventRow → ℕ → Type 0
Rising lo [] hi = lo ≤ hi
Rising lo (e ∷ events) hi = (lo < e.event_id) × Rising e.event_id events hi

-- Every row belongs to a recorded run.
abbrev pub Refers : {Row : Type 0} → List RunRow → (Row → Text) → List Row → Type 0
Refers runs run rows = All (λ r. has_run (run r) runs ≡ true) rows

abbrev pub payload_run : {P : Type 0} → PayloadRow P → Text
payload_run r = r.run_id

-- A table whose keys are unique and whose rows belong to recorded runs.
abbrev pub IsTable :
    {Row K : Type 0} ⦃e : Eq K⦄ → List RunRow → (Row → K) → (Row → Text) → List Row → Type 0
IsTable runs key run rows = IsKeyed key rows × Refers runs run rows

-- Primary keys are unique, foreign keys refer to runs, and event ids rise.
pub record IsConsistent (db : Database) : Type 0 where
  pub runs : IsKeyed run_key db.runs
  pub tasks : IsTable db.runs payload_key payload_run db.tasks
  pub handoffs : IsTable db.runs handoff_key (λ r. r.run_id) db.planner_handoffs
  pub workers : IsTable db.runs payload_key payload_run db.workers
  pub queue : IsTable db.runs queue_key payload_run db.queue_entries
  pub results : IsTable db.runs result_key (λ r. r.run_id) db.worker_results
  pub events : Refers db.runs (λ e. e.run_id) db.events
  pub numbered : Rising 0 db.events db.last_event_id

upsert-IsTable :
    {Row K : Type 0} ⦃e : Eq K⦄ (runs : List RunRow) (key : Row → K) (run : Row → Text)
    (update : Row → Row → Row) (row : Row) (rows : List Row)
    → ((old new : Row) → key (update old new) ≡ key old)
    → ((old new : Row) → run (update old new) ≡ run old)
    → has_run (run row) runs ≡ true
    → IsTable runs key run rows
    → IsTable runs key run (upsert key update row rows)
upsert-IsTable runs key run update row rows same_key same_run known h = (
  upsert-IsKeyed key update same_key row rows h.0,
  upsert-All key update same_key (λ r. has_run (run r) runs ≡ true) row rows known
      (λ old p. rw (same_run old row) p) h.1,
)

Rising-append :
    (lo hi : ℕ) (events : List EventRow) (e : EventRow)
    → Rising lo events hi
    → e.event_id ≡ suc hi
    → Rising lo (events ++ e ∷ []) (suc hi)
Rising-append lo hi [] e h n = (omega arith, omega arith)
Rising-append lo hi (x ∷ events) e h n = (h.0, Rising-append x.event_id hi events e h.1 n)

pub insert_event-IsConsistent :
    (now : ℕ) (run_id event_type : Text) (payload : Payload) (db : Database) {db' : Database}
    → IsConsistent db
    → insert_event now run_id event_type payload db ≡ ok db'
    → IsConsistent db'
unfolding insert_event check_reference
insert_event-IsConsistent now run_id event_type payload db h e =
    let (_, known, made) = >>=-eq-ok (guard (has_run run_id db.runs) Error.integrity_error) _ e in
    subst IsConsistent (ok-injective made) (record {
      runs = h.runs;
      tasks = h.tasks;
      handoffs = h.handoffs;
      workers = h.workers;
      queue = h.queue;
      results = h.results;
      events = All-append _ db.events _ h.events (guard-eq-ok _ _ known, tt);
      numbered = Rising-append 0 db.last_event_id db.events _ h.numbered refl;
    })

pub insert_task-IsConsistent :
    (t : WorkerTask) (db : Database) {db' : Database}
    → IsConsistent db
    → insert_task t db ≡ ok db'
    → IsConsistent db'
unfolding insert_task check_reference
insert_task-IsConsistent t db h e =
    let (_, known, made) = >>=-eq-ok (guard (has_run t.run_id db.runs) Error.integrity_error) _ e in
    subst IsConsistent (ok-injective made) (record {
      runs = h.runs;
      tasks =
          upsert-IsTable db.runs payload_key payload_run update_payload _ db.tasks (λ old new. refl)
            (λ old new. refl) (guard-eq-ok _ _ known) h.tasks;
      handoffs = h.handoffs;
      workers = h.workers;
      queue = h.queue;
      results = h.results;
      events = h.events;
      numbered = h.numbered;
    })

pub insert_handoff-IsConsistent :
    (now : ℕ) (p : PlannerHandoff) (db : Database) {db' : Database}
    → IsConsistent db
    → insert_handoff now p db ≡ ok db'
    → IsConsistent db'
unfolding insert_handoff check_reference
insert_handoff-IsConsistent now p db h e =
    let (_, known, made) = >>=-eq-ok (guard (has_run p.run_id db.runs) Error.integrity_error) _ e in
    subst IsConsistent (ok-injective made) (record {
      runs = h.runs;
      tasks = h.tasks;
      handoffs =
          upsert-IsTable db.runs handoff_key (λ r. r.run_id) update_handoff _ db.planner_handoffs
            (λ old new. refl) (λ old new. refl) (guard-eq-ok _ _ known) h.handoffs;
      workers = h.workers;
      queue = h.queue;
      results = h.results;
      events = h.events;
      numbered = h.numbered;
    })

pub insert_worker-IsConsistent :
    (a : WorkerAssignment) (db : Database) {db' : Database}
    → IsConsistent db
    → insert_worker a db ≡ ok db'
    → IsConsistent db'
unfolding insert_worker check_reference
insert_worker-IsConsistent a db h e =
    let (_, known, made) = >>=-eq-ok (guard (has_run a.run_id db.runs) Error.integrity_error) _ e in
    subst IsConsistent (ok-injective made) (record {
      runs = h.runs;
      tasks = h.tasks;
      handoffs = h.handoffs;
      workers =
          upsert-IsTable db.runs payload_key payload_run update_payload _ db.workers
            (λ old new. refl) (λ old new. refl) (guard-eq-ok _ _ known) h.workers;
      queue = h.queue;
      results = h.results;
      events = h.events;
      numbered = h.numbered;
    })

pub insert_queue_entry-IsConsistent :
    (q : QueueEntry) (db : Database) {db' : Database}
    → IsConsistent db
    → insert_queue_entry q db ≡ ok db'
    → IsConsistent db'
unfolding insert_queue_entry check_reference
insert_queue_entry-IsConsistent q db h e =
    let (_, known, made) = >>=-eq-ok (guard (has_run q.run_id db.runs) Error.integrity_error) _ e in
    subst IsConsistent (ok-injective made) (record {
      runs = h.runs;
      tasks = h.tasks;
      handoffs = h.handoffs;
      workers = h.workers;
      queue =
          upsert-IsTable db.runs queue_key payload_run update_payload _ db.queue_entries
            (λ old new. refl) (λ old new. refl) (guard-eq-ok _ _ known) h.queue;
      results = h.results;
      events = h.events;
      numbered = h.numbered;
    })

pub insert_worker_result-IsConsistent :
    (now : ℕ) (r : WorkerResult) (db : Database) {db' : Database}
    → IsConsistent db
    → insert_worker_result now r db ≡ ok db'
    → IsConsistent db'
unfolding insert_worker_result check_reference
insert_worker_result-IsConsistent now r db h e =
    let (_, known, made) = >>=-eq-ok (guard (has_run r.run_id db.runs) Error.integrity_error) _ e in
    subst IsConsistent (ok-injective made) (record {
      runs = h.runs;
      tasks = h.tasks;
      handoffs = h.handoffs;
      workers = h.workers;
      queue = h.queue;
      results =
          upsert-IsTable db.runs result_key (λ r. r.run_id) update_result _ db.worker_results
            (λ old new. refl) (λ old new. refl) (guard-eq-ok _ _ known) h.results;
      events = h.events;
      numbered = h.numbered;
    })
