-- ===== src/Chief/Planned.antt =====
-- What `ChiefCoordinator.accept_planner_handoff` leaves in the store.
use git_hub_issue_to_impleme.Prelude.{
  ℕ, ◌≡◌, refl, ap, ◌∙◌, ◌⊎◌, inl, inr, true, false, Option, none, some, List, [], ◌∷◌, ◌++◌, arith,
  Bool-cases, nat_eq, ◌==◌, beq_refl, pair_eq, some-injective, Text, text, text_eq, is_ok, ok,
}
use git_hub_issue_to_impleme.Schemas.Handoff.{Host, PlannerHandoff}
use git_hub_issue_to_impleme.Tickets.{tasks_from_handoff}
use git_hub_issue_to_impleme.Store.Database.{
  Database, RunRow, HandoffRow, run_key, handoff_key, has_run, require_run, check_reference,
  insert_event,
}
use git_hub_issue_to_impleme.Store.Operations.{
  Command, insert_run, insert_handoff, update_status, update_handoff, write, execute, perform,
}
use git_hub_issue_to_impleme.Store.Steps.{
  on_disk, IsCurrent, perform-current, execute-IsCurrent, execute-has_run,
}
use git_hub_issue_to_impleme.Store.Table.{upsert, find_row, merged, find_row-upsert_self}
use git_hub_issue_to_impleme.Store.Queries.{get_run, get_handoff, map_option}
use git_hub_issue_to_impleme.Chief.Session.{created, start_run, ensure_run, accept_planner_handoff}
use git_hub_issue_to_impleme.Chief.Accept.{ask-current}

has_run-unfound :
    (k : Text) (rows : List RunRow) → find_row run_key k rows ≡ none → has_run k rows ≡ false
unfolding find_row has_run
has_run-unfound k [] e = refl
has_run-unfound k (r ∷ rows) e = elim (Bool-cases (r.run_id == k)) [
  | inl p ↦ cc (rw p at e)
  | inr n ↦ rw n (has_run-unfound k rows (rw n at e))
]

has_run-found :
    (k : Text) (rows : List RunRow) {row : RunRow}
    → find_row run_key k rows ≡ some row
    → has_run k rows ≡ true
unfolding find_row has_run
has_run-found k [] e = cc
has_run-found k (r ∷ rows) e = elim (Bool-cases (r.run_id == k)) [
  | inl p ↦ rw p
  | inr n ↦ rw n (has_run-found k rows (rw n at e))
]

find_row-append_new :
    (rows : List RunRow) (row : RunRow)
    → find_row run_key row.run_id rows ≡ none
    → find_row run_key row.run_id (rows ++ row ∷ []) ≡ some row
unfolding find_row
find_row-append_new [] row e = rw (beq_refl row.run_id)
find_row-append_new (r ∷ rows) row e = elim (Bool-cases (r.run_id == row.run_id)) [
  | inl p ↦ cc (rw p at e)
  | inr n ↦ rw n (find_row-append_new rows row (rw n at e))
]

abbrev with_status : ℕ → Text → RunRow → RunRow
with_status now status row = record row { status = status; updated_at = now }

find_row-update_status :
    (now : ℕ) (k status : Text) (rows : List RunRow) {row : RunRow}
    → find_row run_key k rows ≡ some row
    → find_row run_key k (update_status now k status rows)
      ≡ some (record row { status = status; updated_at = now })
unfolding find_row update_status
find_row-update_status now k status [] e = cc
find_row-update_status now k status (r ∷ rows) e = elim (Bool-cases (r.run_id == k)) [
  | inl p ↦ rw p (rw p (ap (λ row. some (with_status now status row)) (some-injective (rw p at e))))
  | inr n ↦ rw n (rw n (find_row-update_status now k status rows (rw n at e)))
]

create-runs :
    (now : ℕ) (w k b s : Text) (db : Database) {db' : Database}
    → execute now (Command.create_run w k b s) db ≡ ok db'
    → db'.runs
      ≡ db.runs
        ++ record {
          run_id = k;
          project_workspace = w;
          base_commit = b;
          status = s;
          created_at = now;
          updated_at = now;
        }
          ∷ []
unfolding execute write insert_run insert_event check_reference
create-runs now w k b s db e = ground arith

handoff-tables :
    (now : ℕ) (h : PlannerHandoff) (db : Database) {db' : Database}
    → execute now (Command.record_handoff h) db ≡ ok db'
    → (db'.runs ≡ db.runs)
      × (db'.planner_handoffs
          ≡ upsert handoff_key update_handoff
              (record { run_id = h.run_id; payload = h; created_at = now })
              db.planner_handoffs)
unfolding execute write require_run insert_handoff insert_event check_reference
handoff-tables now h db e = ground arith

status-tables :
    (now : ℕ) (k s : Text) (db : Database) {db' : Database}
    → execute now (Command.set_run_status k s) db ≡ ok db'
    → (db'.runs ≡ update_status now k s db.runs) × (db'.planner_handoffs ≡ db.planner_handoffs)
unfolding execute write require_run insert_event check_reference
status-tables now k s db e = ground arith

merged-payload :
    (row : HandoffRow) (old : Option HandoffRow)
    → (merged handoff_key update_handoff row old).payload ≡ row.payload
merged-payload row none = refl
merged-payload row (some r) = refl

upsert-stored :
    (now : ℕ) (h : PlannerHandoff) (rows : List HandoffRow)
    → map_option
        (λ r. r.payload)
        (find_row handoff_key h.run_id (
          upsert handoff_key update_handoff
            (record { run_id = h.run_id; payload = h; created_at = now })
            rows))
      ≡ some h
upsert-stored now h rows =
    ap (λ o. map_option (λ r. r.payload) o)
      (find_row-upsert_self handoff_key update_handoff (λ old new. refl)
        (record { run_id = h.run_id; payload = h; created_at = now }) rows)
    ∙ ap some (merged-payload (record { run_id = h.run_id; payload = h; created_at = now }) _)

-- The run and its handoff can be found in the store, and the run has the status `plan_approved`.
pub record IsPlanned (h : PlannerHandoff) (now : ℕ) (run : RunRow) (db : Database) : Type 0 where
  pub run_found :
      get_run h.run_id db ≡ some (record run { status = text "plan_approved"; updated_at = now })
  pub handoff_found : get_handoff h.run_id db ≡ some h

module _ (host : Host) (workspace : Text) (clock : ℕ → ℕ) (h : PlannerHandoff)
    (backup : Option Database) where
  -- The two writes that follow once the run is there.
  record_plan-IsPlanned :
      (db : Database) {run : RunRow}
      → IsCurrent db
      → find_row run_key h.run_id db.runs ≡ some run
      → (db₁ db' : Database) × (perform (clock 1) (Command.record_handoff h) (on_disk db backup)
          ≡ (ok tt, on_disk db₁ backup))
        × (perform
              (clock 2)
              (Command.set_run_status h.run_id (text "plan_approved"))
              (on_disk db₁ backup)
            ≡ (ok tt, on_disk db' backup))
        × IsPlanned h (clock 2) run db'
  unfolding get_run get_handoff
  record_plan-IsPlanned db {run} current found =
      let known = has_run-found h.run_id db.runs found in
      let (db₁, e₁, p₁) =
        perform-current (clock 1) (Command.record_handoff h) db backup current known in
      let known₁ = execute-has_run (clock 1) (Command.record_handoff h) db e₁ in
      let current₁ = execute-IsCurrent (clock 1) (Command.record_handoff h) db current e₁ in
      let (db₂, e₂, p₂) =
        perform-current (clock 2) (Command.set_run_status h.run_id (text "plan_approved")) db₁
          backup current₁ known₁ in
      let (runs₁, handoffs₁) = handoff-tables (clock 1) h db e₁ in
      let (runs₂, handoffs₂) = status-tables (clock 2) h.run_id (text "plan_approved") db₁ e₂ in
      (
        db₁,
        db₂,
        p₁,
        p₂,
        record {
          run_found =
              ap (find_row run_key h.run_id) runs₂
              ∙ find_row-update_status (clock 2) h.run_id (text "plan_approved") db₁.runs
                  (ap (find_row run_key h.run_id) runs₁ ∙ found);
          handoff_found =
              ap (λ rows. map_option (λ r. r.payload) (find_row handoff_key h.run_id rows))
                (handoffs₂ ∙ handoffs₁)
              ∙ upsert-stored (clock 1) h db.planner_handoffs;
        },
      )

  -- A handoff of this workspace whose run is not recorded: the run is started, the handoff is stored
  -- and the run is marked as approved, whether or not the tasks can then be made.
  pub accept_planner_handoff-new :
      (db : Database)
      → IsCurrent db
      → (host.resolve (host.expanduser h.repository_path) == workspace) ≡ true
      → get_run h.run_id db ≡ none
      → (db' : Database) × (accept_planner_handoff host workspace clock h (on_disk db backup)
          ≡ (tasks_from_handoff h, on_disk db' backup))
        × IsPlanned h
            (clock 2)
            (record {
              run_id = h.run_id;
              project_workspace = workspace;
              base_commit = h.base_commit;
              status = created;
              created_at = clock 0;
              updated_at = clock 0;
            })
            db'
  unfolding accept_planner_handoff ensure_run start_run get_run
  accept_planner_handoff-new db current ours new =
      let create = Command.create_run workspace h.run_id h.base_commit created in
      let (db₀, e₀, p₀) =
        perform-current (clock 0) create db backup current
          (rw (has_run-unfound h.run_id db.runs new)) in
      let (db₁, db₂, p₁, p₂, planned) =
        record_plan-IsPlanned db₀ (execute-IsCurrent (clock 0) create db current e₀) (
          ap (find_row run_key h.run_id)
            (create-runs (clock 0) workspace h.run_id h.base_commit created db e₀)
          ∙ find_row-append_new db.runs _ new) in
      (db₂, rw (ours, ask-current (get_run h.run_id) db backup current, new, p₀, p₁, p₂), planned)

  -- The run is recorded with the handoff's base commit: the handoff takes the place of an earlier
  -- one, and everything else of the run is kept.
  pub accept_planner_handoff-again :
      (db : Database) {run : RunRow}
      → IsCurrent db
      → (host.resolve (host.expanduser h.repository_path) == workspace) ≡ true
      → get_run h.run_id db ≡ some run
      → (run.base_commit == h.base_commit) ≡ true
      → (db' : Database) × (accept_planner_handoff host workspace clock h (on_disk db backup)
          ≡ (tasks_from_handoff h, on_disk db' backup))
        × IsPlanned h (clock 2) run db'
  unfolding accept_planner_handoff ensure_run get_run
  accept_planner_handoff-again db {run} current ours found same =
      let (db₁, db₂, p₁, p₂, planned) = record_plan-IsPlanned db current found in
      (
        db₂,
        rw (ours, ask-current (get_run h.run_id) db backup current, found, same, p₁, p₂),
        planned,
      )

  -- A handoff of another workspace, or with another base commit than its run's, is refused, and
  -- nothing is written.
  pub accept_planner_handoff-refused :
      (db : Database)
      → IsCurrent db
      → ((host.resolve (host.expanduser h.repository_path) == workspace) ≡ false)
        ⊎ ((run : RunRow) × (get_run h.run_id db ≡ some run)
            × ((run.base_commit == h.base_commit) ≡ false))
      → (is_ok (accept_planner_handoff host workspace clock h (on_disk db backup)).0 ≡ false)
        × ((accept_planner_handoff host workspace clock h (on_disk db backup)).1
            ≡ on_disk db backup)
  unfolding accept_planner_handoff ensure_run get_run
  accept_planner_handoff-refused db current (inl other) = rw other (refl, refl)
  accept_planner_handoff-refused db current (inr (run, found, differs)) =
      elim (Bool-cases (host.resolve (host.expanduser h.repository_path) == workspace)) [
        | inl ours ↦
            rw (ours, ask-current (get_run h.run_id) db backup current, found, differs) (refl, refl)
        | inr other ↦ rw other (refl, refl)
      ]
