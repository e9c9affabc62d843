-- ===== src/Chief/Resumed.antt =====
-- What `delegate_tasks` makes of workers that the store already has.
use git_hub_issue_to_impleme.Prelude.{
  ℕ, ◌+◌, ◌≡◌, refl, ap, Option, some, List, [], ◌∷◌, arith, nat_eq, pair_eq, length, Text, text_eq,
  texts_eq, ok,
}
use git_hub_issue_to_impleme.Schemas.Runtime.{WorkerAssignment, WorkerTask}
use git_hub_issue_to_impleme.Schemas.Handoff.{PlannerHandoff}
use git_hub_issue_to_impleme.Store.Database.{Database}
use git_hub_issue_to_impleme.Store.Steps.{on_disk, IsCurrent}
use git_hub_issue_to_impleme.Store.Queries.{Engine, get_worker}
use git_hub_issue_to_impleme.Chief.Session.{create_tasks_from_handoff}
use git_hub_issue_to_impleme.Chief.Accept.{ask-current}
use git_hub_issue_to_impleme.Chief.Board.{Board, Setting}
use git_hub_issue_to_impleme.Chief.Delegate.{
  worker_named, delegate_one, delegate_ticket, delegate_each, delegate_tasks,
}

-- The store holds these assignments for the workers from `index` on.
abbrev pub AreRecorded : Engine → Database → ℕ → List WorkerAssignment → Type 0
AreRecorded engine db index [] = Unit
AreRecorded engine db index (a ∷ rest) =
    (get_worker engine (worker_named index) db ≡ some a) × AreRecorded engine db (index + 1) rest

module _ (w : Setting) (h : PlannerHandoff) (provider : Text) (db : Database)
    (backup : Option Database) (current : IsCurrent db) where
  delegate_each-recorded :
      (i index : ℕ) (tasks : List WorkerTask) (assignments : List WorkerAssignment) (b : Board)
      → b.disk ≡ on_disk db backup
      → length tasks ≡ length assignments
      → AreRecorded w.engine db index assignments
      → delegate_each w i h provider index tasks b
        ≡ (ok assignments, record b { disk = on_disk db backup })
  unfolding delegate_each delegate_ticket delegate_one
  delegate_each-recorded i index [] [] b e _ _ = ap (λ d. (ok [], record b { disk = d })) e
  delegate_each-recorded i index [] (a ∷ assignments) b e n _ = absurd (omega (arith, n))
  delegate_each-recorded i index (t ∷ tasks) [] b e n _ = absurd (omega (arith, n))
  delegate_each-recorded i index (t ∷ tasks) (a ∷ assignments) b e n recorded =
      rw
        (
          e,
          ask-current (get_worker w.engine (worker_named index)) db backup current,
          recorded.0,
          delegate_each-recorded (i + 4) (index + 1) tasks assignments
              (record b { disk = on_disk db backup }) refl (omega (arith, n)) recorded.1,
        )
        refl

-- Once the tickets of a handoff are made, as many as there are assignments, and the store already
-- has these assignments for its workers, one after another, delegate_tasks returns just them: no
-- worktree is made, no file and nothing more in the store is written. It does not matter of which
-- run the assignments are.
pub delegate_tasks-resumes :
    (w : Setting) (h : PlannerHandoff) (provider : Text) (b : Board) (tasks : List WorkerTask)
    (db : Database) (backup : Option Database) (assignments : List WorkerAssignment)
    → create_tasks_from_handoff w.host w.workspace w.clock h b.disk ≡ (ok tasks, on_disk db backup)
    → IsCurrent db
    → length tasks ≡ length assignments
    → AreRecorded w.engine db 1 assignments
    → delegate_tasks w h provider b ≡ (ok assignments, record b { disk = on_disk db backup })
unfolding delegate_tasks
delegate_tasks-resumes w h provider b tasks db backup assignments made current n recorded =
    rw made (
      delegate_each-recorded w h provider db backup current (4 + length tasks) 1 tasks assignments
        (record b { disk = on_disk db backup }) refl n recorded)
