-- ===== src/Store/Queries.antt =====
-- The methods of `ChiefStateStore` that read. SQL leaves the order of a result open where the
-- statement has no ORDER BY, so the order in which SQLite visits rows is a parameter: it is known
-- only to visit each matching row, and no other.
use git_hub_issue_to_impleme.Prelude.{
  ◌↔◌, Bool, Option, none, some, List, map, leb, ◌==◌, nat_eq, pair_eq, keep, head?, In, Text,
  text_eq, sort,
}
use git_hub_issue_to_impleme.Schemas.Runtime.{
  WorkerTask, WorkerAssignment, QueueEntry, WorkerResult,
}
use git_hub_issue_to_impleme.Schemas.Handoff.{PlannerHandoff}
use git_hub_issue_to_impleme.Store.Table.{find_row}
use git_hub_issue_to_impleme.Store.Database.{
  RunRow, PayloadRow, ResultRow, EventRow, Database, run_key, handoff_key,
}

pub record Engine : Type 1 where
  pub visit : (A : Type 0) → List A → List A
  pub visit_iff : (A : Type 0) (rows : List A) (a : A) → In a (visit A rows) ↔ In a rows

abbrev pub map_option : {A B : Type 0} → (A → B) → Option A → Option B
map_option f none = none
map_option f (some a) = some (f a)

abbrev pub stamp_le : ResultRow → ResultRow → Bool
stamp_le r s = leb r.created_at s.created_at

abbrev pub event_le : EventRow → EventRow → Bool
event_le e f = leb e.event_id f.event_id

-- `get_run`: by primary key
unfoldable pub get_run : Text → Database → Option RunRow
get_run run_id db = find_row run_key run_id db.runs

-- `get_handoff`: by primary key
unfoldable pub get_handoff : Text → Database → Option PlannerHandoff
get_handoff run_id db =
    map_option (λ r. r.payload) (find_row handoff_key run_id db.planner_handoffs)

-- `events_for_run`: ORDER BY event_id
unfoldable pub events_for_run : Text → Database → List EventRow
events_for_run run_id db = sort event_le (keep (λ e. e.run_id == run_id) db.events)

module _ (engine : Engine) where
  -- `_get_payload`: the first row with the key, whatever run it belongs to
  unfoldable pub get_payload : {P : Type 0} → Text → List (PayloadRow P) → Option P
  get_payload {P} key rows =
      map_option (λ r. r.payload)
        (head? (engine.visit (PayloadRow P) (keep (λ r. r.key == key) rows)))

  -- `_payloads_for_run`
  unfoldable pub payloads_for_run : {P : Type 0} → Text → List (PayloadRow P) → List P
  payloads_for_run {P} run_id rows =
      map (λ (r : PayloadRow P). r.payload)
        (engine.visit (PayloadRow P) (keep (λ r. r.run_id == run_id) rows))

  unfoldable pub get_task : Text → Database → Option WorkerTask
  get_task task_id db = get_payload task_id db.tasks

  unfoldable pub get_worker : Text → Database → Option WorkerAssignment
  get_worker worker_id db = get_payload worker_id db.workers

  unfoldable pub get_queue_entry : Text → Database → Option QueueEntry
  get_queue_entry queue_id db = get_payload queue_id db.queue_entries

  unfoldable pub tasks_for_run : Text → Database → List WorkerTask
  tasks_for_run run_id db = payloads_for_run run_id db.tasks

  unfoldable pub workers_for_run : Text → Database → List WorkerAssignment
  workers_for_run run_id db = payloads_for_run run_id db.workers

  -- `worker_results_for_run`: ORDER BY created_at
  unfoldable pub worker_results_for_run : Text → Database → List WorkerResult
  worker_results_for_run run_id db =
      map (λ (r : ResultRow). r.payload)
        (sort stamp_le (engine.visit ResultRow (keep (λ r. r.run_id == run_id) db.worker_results)))
