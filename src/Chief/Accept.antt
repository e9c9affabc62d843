-- ===== src/Chief/Accept.antt =====
-- What `ChiefCoordinator.accept_worker_result` promises.
use git_hub_issue_to_impleme.Prelude.{
  ℕ, suc, ◌≡◌, refl, sym, ap, ap₂, ◌∙◌, subst, inl, inr, true, Option, none, some, List, [], ◌∷◌,
  ◌++◌, Bool-cases, nat_eq, pair_eq, text_eq, ok-injective, ok,
}
use git_hub_issue_to_impleme.Schemas.Runtime.{WorkerAssignment, WorkerResult}
use git_hub_issue_to_impleme.Gate.{SkillTraceDecision}
use git_hub_issue_to_impleme.Gate.Accept.{FollowsProcess, check_accepts_iff}
use git_hub_issue_to_impleme.Store.Database.{Database, Disk, ResultRow, result_key, has_run, settle}
use git_hub_issue_to_impleme.Store.Operations.{Command, update_result, run_of, execute}
use git_hub_issue_to_impleme.Store.Outcome.{event_of, may_write, execute-appends_event}
use git_hub_issue_to_impleme.Store.Steps.{
  on_disk, IsCurrent, transact-current, perform-current, execute-IsCurrent, execute-has_run,
  execute-last_event_id, result_row, execute-worker_results, execute_event-worker_results,
  execute_result-runs, execute_event-runs,
}
use git_hub_issue_to_impleme.Store.Table.{upsert, find_row, merged, find_row-upsert_self}
use git_hub_issue_to_impleme.Store.Queries.{Engine, get_worker}
use git_hub_issue_to_impleme.Chief.Session.{ask, decide_result, judgement, accept_worker_result}

decide_result-accepted :
    (r : WorkerResult) (found : Option WorkerAssignment)
    → (decide_result r found).accepted ≡ true
    → (a : WorkerAssignment) × (found ≡ some a) × FollowsProcess r (some a)
unfolding decide_result
decide_result-accepted r none h = cc
decide_result-accepted r (some a) h = (a, refl, (check_accepts_iff r (some a)).0 h)

pub ask-current :
    {A : Type 0} (query : Database → A) (db : Database) (backup : Option Database)
    → IsCurrent db
    → ask query (on_disk db backup) ≡ (ok (query db), on_disk db backup)
unfolding ask settle
ask-current query db backup c = transact-current (λ db. ok (query db, db)) db backup c

judgement-run :
    (r : WorkerResult) (decision : SkillTraceDecision) → run_of (judgement r decision) ≡ r.run_id
unfolding judgement
judgement-run r decision = elim (Bool-cases decision.accepted) [ inl e ↦ rw e | inr n ↦ rw n ]

judgement-may_write :
    (r : WorkerResult) (decision : SkillTraceDecision) (db : Database)
    → has_run r.run_id db.runs ≡ true
    → may_write (judgement r decision) db ≡ true
unfolding judgement
judgement-may_write r decision db h = elim (Bool-cases decision.accepted) [
  | inl e ↦ rw (e, h)
  | inr n ↦ rw (n, h)
]

abbrev payload_of : Option ResultRow → Option WorkerResult
payload_of none = none
payload_of (some row) = some row.payload

-- The result that the store holds under the key of a result.
abbrev pub stored_result : WorkerResult → Database → Option WorkerResult
stored_result r db =
    payload_of (find_row result_key (r.run_id, (r.worker_id, r.task_id)) db.worker_results)

-- What a decision that is returned comes with: it is the gate's on the worker's recorded assignment,
-- the result is stored, and the log has grown by the result's event and the judgement's.
pub record IsJudged (engine : Engine) (clock : ℕ → ℕ) (r : WorkerResult) (db db' : Database)
    (decision : SkillTraceDecision) : Type 0 where
  pub gated : decision ≡ decide_result r (get_worker engine r.worker_id db)
  pub current : IsCurrent db'
  pub same_runs : db'.runs ≡ db.runs
  pub stored : stored_result r db' ≡ some r
  pub logged :
      db'.events
      ≡ (db.events ++ event_of (clock 0) (Command.record_worker_result r) db ∷ [])
        ++ event_of
            (clock 1)
            (judgement r decision)
            (record db { last_event_id = suc db.last_event_id })
          ∷ []

merged-payload :
    (row : ResultRow) (old : Option ResultRow)
    → (merged result_key update_result row old).payload ≡ row.payload
merged-payload row none = refl
merged-payload row (some r) = refl

upsert-stored :
    (now : ℕ) (r : WorkerResult) (rows : List ResultRow)
    → payload_of (
        find_row result_key
          (r.run_id, (r.worker_id, r.task_id))
          (upsert result_key update_result (result_row now r) rows))
      ≡ some r
upsert-stored now r rows =
    ap payload_of
      (find_row-upsert_self result_key update_result (λ old new. refl) (result_row now r) rows)
    ∙ ap some (merged-payload (result_row now r) _)

judgement-worker_results :
    (now : ℕ) (r : WorkerResult) (decision : SkillTraceDecision) (db : Database) {db' : Database}
    → execute now (judgement r decision) db ≡ ok db'
    → db'.worker_results ≡ db.worker_results
unfolding judgement
judgement-worker_results now r decision db e = elim (Bool-cases decision.accepted) [
  | inl p ↦ execute_event-worker_results now _ _ _ db (rw p at e)
  | inr n ↦ execute_event-worker_results now _ _ _ db (rw n at e)
]

judgement-runs :
    (now : ℕ) (r : WorkerResult) (decision : SkillTraceDecision) (db : Database) {db' : Database}
    → execute now (judgement r decision) db ≡ ok db'
    → db'.runs ≡ db.runs
unfolding judgement
judgement-runs now r decision db e = elim (Bool-cases decision.accepted) [
  | inl p ↦ execute_event-runs now _ _ _ db (rw p at e)
  | inr n ↦ execute_event-runs now _ _ _ db (rw n at e)
]

-- If its run is recorded, `accept_worker_result` returns, with the gate's decision on the worker's
-- recorded assignment; the result can then be found in the store, and the log has grown by two
-- events, the last of which says how the result was judged.
pub accept_worker_result-returns :
    (engine : Engine) (clock : ℕ → ℕ) (r : WorkerResult) (db : Database) (backup : Option Database)
    → IsCurrent db
    → has_run r.run_id db.runs ≡ true
    → (decision : SkillTraceDecision) × (db' : Database) × (accept_worker_result engine clock r
          (on_disk db backup)
        ≡ (ok decision, on_disk db' backup))
      × IsJudged engine clock r db db' decision
unfolding accept_worker_result
accept_worker_result-returns engine clock r db backup current known =
    let decision = decide_result r (get_worker engine r.worker_id db) in
    let (db₁, e₁, p₁) =
      perform-current (clock 0) (Command.record_worker_result r) db backup current known in
    let known₁ = execute-has_run (clock 0) (Command.record_worker_result r) db e₁ in
    let current₁ = execute-IsCurrent (clock 0) (Command.record_worker_result r) db current e₁ in
    let (db₂, e₂, p₂) =
      perform-current (clock 1) (judgement r decision) db₁ backup current₁
        (judgement-may_write r decision db₁ known₁) in
    (
      decision,
      db₂,
      rw (
        ask-current (λ db. decide_result r (get_worker engine r.worker_id db)) db backup current,
        p₁,
        p₂,
      ),
      record {
        gated = refl;
        current = execute-IsCurrent (clock 1) (judgement r decision) db₁ current₁ e₂;
        same_runs =
            judgement-runs (clock 1) r decision db₁ e₂ ∙ execute_result-runs (clock 0) r db e₁;
        stored =
            ap (λ rows. payload_of (find_row result_key (r.run_id, (r.worker_id, r.task_id)) rows))
              (judgement-worker_results (clock 1) r decision db₁ e₂
                ∙ execute-worker_results (clock 0) r db e₁)
            ∙ upsert-stored (clock 0) r db.worker_results;
        logged =
            execute-appends_event (clock 1) (judgement r decision) db₁ e₂
            ∙ ap₂
                (λ events last.
                  events
                  ++ event_of (clock 1) (judgement r decision) (record db { last_event_id = last })
                    ∷ [])
                (execute-appends_event (clock 0) (Command.record_worker_result r) db e₁)
                (execute-last_event_id (clock 0) (Command.record_worker_result r) db e₁);
      },
    )

-- A result is accepted only if the store holds an assignment of its worker and the result followed
-- the worker process inside that assignment.
pub accept_worker_result-FollowsProcess :
    (engine : Engine) (clock : ℕ → ℕ) (r : WorkerResult) (db : Database) (backup : Option Database)
    {decision : SkillTraceDecision} {d' : Disk}
    → IsCurrent db
    → has_run r.run_id db.runs ≡ true
    → accept_worker_result engine clock r (on_disk db backup) ≡ (ok decision, d')
    → decision.accepted ≡ true
    → (a : WorkerAssignment) × (get_worker engine r.worker_id db ≡ some a)
      × FollowsProcess r (some a)
accept_worker_result-FollowsProcess engine clock r db backup {decision} current known e h =
    let (decision', db', ran, judged) =
      accept_worker_result-returns engine clock r db backup current known in
    let same : decision' ≡ decision = ok-injective (ap (λ p. p.0) (sym ran ∙ e)) in
    decide_result-accepted r (get_worker engine r.worker_id db)
      (subst (λ x. x.accepted ≡ true) (sym same ∙ judged.gated) h)
