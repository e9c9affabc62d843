-- ===== src/Store/Runs.antt =====
-- The `runs` table: adding a run and changing a status keep the database consistent.
use git_hub_issue_to_impleme.Prelude.{
  ℕ, ◌≡◌, refl, ap, ◌∙◌, subst, inl, inr, true, false, ◌||◌, none, List, [], ◌∷◌, ◌++◌, arith, not,
  Bool-cases, or_false, not-true, ◌==◌, nat_eq, pair_eq, true≢false, beq-false_sym, All-map, Text,
  text_eq, Error, guard, >>=-eq-ok, ok-injective, guard-eq-ok, ok,
}
use git_hub_issue_to_impleme.Store.Table.{find_row, IsKeyed}
use git_hub_issue_to_impleme.Store.Database.{RunRow, Database, run_key, has_run}
use git_hub_issue_to_impleme.Store.Operations.{insert_run, update_status}
use git_hub_issue_to_impleme.Store.Consistent.{IsConsistent, Refers}

no_row_of_no_run :
    (k : Text) (runs : List RunRow) → has_run k runs ≡ false → find_row run_key k runs ≡ none
unfolding has_run find_row
no_row_of_no_run k [] h = refl
no_row_of_no_run k (r ∷ runs) h = elim (Bool-cases (r.run_id == k)) [
  | inl p ↦ absurd (true≢false (rw p at h))
  | inr n ↦ rw n (no_row_of_no_run k runs (rw n at h))
]

no_run_of_no_row :
    (k : Text) (runs : List RunRow) → find_row run_key k runs ≡ none → has_run k runs ≡ false
unfolding has_run find_row
no_run_of_no_row k [] h = refl
no_run_of_no_row k (r ∷ runs) h = elim (Bool-cases (r.run_id == k)) [
  | inl p ↦ cc (rw p at h)
  | inr n ↦ rw n (no_run_of_no_row k runs (rw n at h))
]

pub has_run-append :
    (k : Text) (runs : List RunRow) (row : RunRow)
    → has_run k (runs ++ row ∷ []) ≡ (has_run k runs || row.run_id == k)
unfolding has_run
has_run-append k [] row = ground arith
has_run-append k (r ∷ runs) row = ground (arith, has_run-append k runs row)

pub has_run-update_status :
    (k : Text) (now : ℕ) (run_id status : Text) (runs : List RunRow)
    → has_run k (update_status now run_id status runs) ≡ has_run k runs
unfolding has_run update_status
has_run-update_status k now run_id status [] = refl
has_run-update_status k now run_id status (r ∷ runs) = elim (Bool-cases (r.run_id == run_id)) [
  | inl p ↦ rw p (ap (λ b. r.run_id == k || b) (has_run-update_status k now run_id status runs))
  | inr n ↦ rw n (ap (λ b. r.run_id == k || b) (has_run-update_status k now run_id status runs))
]

Refers-mono :
    {Row : Type 0} (runs runs' : List RunRow) (run : Row → Text) (rows : List Row)
    → ((k : Text) → has_run k runs ≡ true → has_run k runs' ≡ true)
    → Refers runs run rows
    → Refers runs' run rows
Refers-mono runs runs' run rows more h = All-map _ _ rows (λ r p. more (run r) p) h

-- What the tables need when only `runs` changes.
with_runs-IsConsistent :
    (db : Database) (runs : List RunRow)
    → IsConsistent db
    → IsKeyed run_key runs
    → ((k : Text) → has_run k db.runs ≡ true → has_run k runs ≡ true)
    → IsConsistent (record db { runs = runs })
with_runs-IsConsistent db runs h keyed more = record {
  runs = keyed;
  tasks = (h.tasks.0, Refers-mono db.runs runs _ db.tasks more h.tasks.1);
  handoffs = (h.handoffs.0, Refers-mono db.runs runs _ db.planner_handoffs more h.handoffs.1);
  workers = (h.workers.0, Refers-mono db.runs runs _ db.workers more h.workers.1);
  queue = (h.queue.0, Refers-mono db.runs runs _ db.queue_entries more h.queue.1);
  results = (h.results.0, Refers-mono db.runs runs _ db.worker_results more h.results.1);
  events = Refers-mono db.runs runs _ db.events more h.events;
  numbered = h.numbered;
}

append-IsKeyed :
    (runs : List RunRow) (row : RunRow)
    → has_run row.run_id runs ≡ false
    → IsKeyed run_key runs
    → IsKeyed run_key (runs ++ row ∷ [])
unfolding has_run find_row
append-IsKeyed [] row n h = (refl, tt)
append-IsKeyed (r ∷ runs) row n h = (
  no_row_of_no_run r.run_id (runs ++ row ∷ []) (
      rw (has_run-append r.run_id runs row, no_run_of_no_row r.run_id runs h.0)
        (beq-false_sym r.run_id row.run_id (or_false n).0)),
  append-IsKeyed runs row (or_false n).1 h.1,
)

update_status-IsKeyed :
    (now : ℕ) (run_id status : Text) (runs : List RunRow)
    → IsKeyed run_key runs
    → IsKeyed run_key (update_status now run_id status runs)
unfolding update_status
update_status-IsKeyed now run_id status [] h = tt
update_status-IsKeyed now run_id status (r ∷ runs) h =
    let fresh : find_row run_key r.run_id (update_status now run_id status runs) ≡ none =
      no_row_of_no_run r.run_id (update_status now run_id status runs) (
        has_run-update_status r.run_id now run_id status runs
        ∙ no_run_of_no_row r.run_id runs h.0) in
    let rest = update_status-IsKeyed now run_id status runs h.1 in
    elim (Bool-cases (r.run_id == run_id)) [
      | inl p ↦ rw p (fresh, rest)
      | inr n ↦ rw n (fresh, rest)
    ]

pub insert_run-IsConsistent :
    (now : ℕ) (workspace run_id base status : Text) (db : Database) {db' : Database}
    → IsConsistent db
    → insert_run now workspace run_id base status db ≡ ok db'
    → IsConsistent db'
unfolding insert_run
insert_run-IsConsistent now workspace run_id base status db h e =
    let (_, new, made) =
      >>=-eq-ok (guard (not (has_run run_id db.runs)) Error.integrity_error) _ e in
    subst IsConsistent (ok-injective made) (
      with_runs-IsConsistent db _ h
        (append-IsKeyed db.runs _ (not-true (guard-eq-ok _ _ new)) h.runs)
        (λ k p. has_run-append k db.runs _ ∙ ap (λ b. b || run_id == k) p))

pub update_status-IsConsistent :
    (now : ℕ) (run_id status : Text) (db : Database)
    → IsConsistent db
    → IsConsistent (record db { runs = update_status now run_id status db.runs })
update_status-IsConsistent now run_id status db h =
    with_runs-IsConsistent db (update_status now run_id status db.runs) h
      (update_status-IsKeyed now run_id status db.runs h.runs)
      (λ k p. has_run-update_status k now run_id status db.runs ∙ p)
