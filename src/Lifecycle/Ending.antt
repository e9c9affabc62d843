-- ===== src/Lifecycle/Ending.antt =====
-- How a worker's run can end.
use git_hub_issue_to_impleme.Prelude.{
  ℕ, ◌≡◌, refl, ap, ◌∙◌, subst, inl, inr, true, Option, none, some, [], ◌∷◌, Bool-cases, nat_eq,
  ◌==◌, pair_eq, Text, text, text_beq_iff, text_eq, >>=-eq-ok, ok-injective, ok,
}
use git_hub_issue_to_impleme.Schemas.Runtime.{WorkerAssignment, WorkerResult, WorkerStatus}
use git_hub_issue_to_impleme.Gate.{SkillTraceDecision}
use git_hub_issue_to_impleme.Gate.Accept.{FollowsProcess}
use git_hub_issue_to_impleme.Store.Database.{Database, Disk, has_run}
use git_hub_issue_to_impleme.Store.Operations.{perform}
use git_hub_issue_to_impleme.Store.Steps.{on_disk, IsCurrent, perform-current}
use git_hub_issue_to_impleme.Store.Queries.{Engine, get_worker}
use git_hub_issue_to_impleme.Chief.Session.{decide_result}
use git_hub_issue_to_impleme.Chief.Accept.{
  accept_worker_result-returns, accept_worker_result-FollowsProcess,
}
use git_hub_issue_to_impleme.Lifecycle.{
  ResultFile, missing, invalid, valid, read_result, Active, find_active, pop_active, Outcome,
  finish, wait, finished,
}

-- A result counts as completed only if the process completed and its file holds this very result.
pub read_result-completed :
    (a : WorkerAssignment) (file : ResultFile) (status : Text)
    → (read_result a file status).status ≡ WorkerStatus.completed
    → (status ≡ text "completed") × (file ≡ valid (read_result a file status))
unfolding read_result
read_result-completed a missing status h = cc
read_result-completed a (invalid exc) status h = cc
read_result-completed a (valid r) status h = elim (Bool-cases (status == text "completed")) [
  | inl e ↦ ((text_beq_iff status (text "completed")).0 e, rw e)
  | inr n ↦ cc (rw n at h)
]

-- `wait` on an active worker whose run is recorded: it returns, with the result that the worker's
-- file and the end of its process make and the gate's decision on it, and takes the worker off the
-- active ones.
pub wait-returns :
    (engine : Engine) (clock : ℕ → ℕ) (worker_id status : Text) (file : ResultFile)
    (active : Active) (db : Database) (backup : Option Database) {a : WorkerAssignment}
    → IsCurrent db
    → find_active worker_id active ≡ some a
    → has_run (read_result a file status).run_id db.runs ≡ true
    → has_run a.run_id db.runs ≡ true
    → (decision : SkillTraceDecision) × (db' : Database) × (wait engine clock worker_id status file
          active
          (on_disk db backup)
        ≡ (
          ok (record { status = status; result = read_result a file status; decision = decision }),
          pop_active worker_id active,
          on_disk db' backup,
        ))
      × (decision
          ≡ decide_result
              (read_result a file status)
              (get_worker engine (read_result a file status).worker_id db))
unfolding wait finish
wait-returns engine clock worker_id status file active db backup {a} current found known mine =
    let (decision, db₁, ran, judged) =
      accept_worker_result-returns engine clock (read_result a file status) db backup current
        known in
    let (db₂, e₂, p₂) =
      perform-current (clock 2) (finished a worker_id status decision) db₁ backup judged.current
        (ap (has_run a.run_id) judged.same_runs ∙ mine) in
    (decision, db₂, rw (found, ran, p₂), judged.gated)

-- A worker's result is accepted only if its process completed, its file held this result, and the
-- result followed the worker process inside the assignment that is recorded for its worker.
pub wait-accepted :
    (engine : Engine) (clock : ℕ → ℕ) (worker_id status : Text) (file : ResultFile)
    (active active' : Active) (db : Database) (backup : Option Database) {a : WorkerAssignment}
    {o : Outcome} {d' : Disk}
    → IsCurrent db
    → find_active worker_id active ≡ some a
    → has_run (read_result a file status).run_id db.runs ≡ true
    → wait engine clock worker_id status file active (on_disk db backup) ≡ (ok o, active', d')
    → o.decision.accepted ≡ true
    → (status ≡ text "completed")
      × (file ≡ valid o.result)
      × (recorded : WorkerAssignment) × (get_worker engine o.result.worker_id db ≡ some recorded)
      × FollowsProcess o.result (some recorded)
unfolding wait finish
wait-accepted engine clock worker_id status file active active' db backup {a} {o} current found
      known e h =
    let (decision, db₁, ran, judged) =
      accept_worker_result-returns engine clock (read_result a file status) db backup current
        known in
    let (_, _, made) =
      >>=-eq-ok (perform (clock 2) (finished a worker_id status decision) (on_disk db₁ backup)).0 _
        (ap (λ p. p.0) (rw (found, ran) at e)) in
    let same = ok-injective made in
    let ours : (read_result a file status) ≡ o.result = ap (λ (o : Outcome). o.result) same in
    let (recorded, known_worker, follows) =
      accept_worker_result-FollowsProcess engine clock (read_result a file status) db backup current
        known ran (ap (λ (o : Outcome). o.decision.accepted) same ∙ h) in
    let (done, held) = read_result-completed a file status follows.completed in
    (
      done,
      held ∙ ap valid ours,
      recorded,
      subst (λ (r : WorkerResult). get_worker engine r.worker_id db ≡ some recorded) ours
          known_worker,
      subst (λ r. FollowsProcess r (some recorded)) ours follows,
    )

pub find_active-pop_active :
    (worker_id : Text) (active : Active)
    → find_active worker_id (pop_active worker_id active) ≡ none
unfolding find_active pop_active
find_active-pop_active worker_id [] = refl
find_active-pop_active worker_id ((k, a) ∷ active) = elim (Bool-cases (k == worker_id)) [
  | inl e ↦ rw e (find_active-pop_active worker_id active)
  | inr n ↦ rw n (rw n (find_active-pop_active worker_id active))
]
