-- ===== src/Chief/Delegated.antt =====
-- What the assignments are that `delegate_tasks` returns.
use git_hub_issue_to_impleme.Prelude.{
  ℕ, ◌+◌, ◌≡◌, refl, ap, ◌∙◌, subst, ◌⊎◌, inl, inr, Option, none, some, List, [], ◌∷◌, nat_eq,
  pair_eq, length, Text, text_eq, texts_eq, Result, ok-injective, err≢ok, ok, err,
}
use git_hub_issue_to_impleme.Schemas.Runtime.{WorkerAssignment, WorkerTask, Priority}
use git_hub_issue_to_impleme.Schemas.Handoff.{PlannerHandoff}
use git_hub_issue_to_impleme.Store.Queries.{get_worker}
use git_hub_issue_to_impleme.Worktrees.{create_assignment}
use git_hub_issue_to_impleme.Worktrees.Distinct.{IsIsolated, create_assignment-IsIsolated}
use git_hub_issue_to_impleme.Chief.Session.{ask, create_tasks_from_handoff}
use git_hub_issue_to_impleme.Chief.Board.{Board, Setting, Coordinator, continue, with_disk}
use git_hub_issue_to_impleme.Chief.Delegate.{
  worker_named, request_for, assign_task, delegate_new, delegate_one, delegate_each,
  delegate_ticket, delegate_tasks,
}

-- What the store of the board answers when it is asked for the worker of this number.
abbrev pub recorded_worker : Setting → ℕ → Board → Result (Option WorkerAssignment)
recorded_worker w index b = (ask (get_worker w.engine (worker_named index)) b.disk).0

-- What a ticket is given by a board: the assignment that its store holds for the worker of this
-- number, or, where it holds none, a new one for the ticket.
abbrev pub IsDelegated :
    Setting → PlannerHandoff → Text → ℕ → WorkerTask → Board → WorkerAssignment → Type 0
IsDelegated w h provider index t b a =
    (recorded_worker w index b ≡ ok (some a))
    ⊎ ((recorded_worker w index b ≡ ok none)
        × IsIsolated w.git w.workspace
            (request_for h.run_id h.base_commit (worker_named index) t provider) a)

-- One assignment for each ticket, in their order; each is given by the board that the earlier
-- rounds leave. `i` counts the calls of the store, as in the code.
abbrev pub AreDelegated :
    Setting
    → ℕ
    → PlannerHandoff
    → Text
    → ℕ
    → List WorkerTask
    → Board
    → List WorkerAssignment
    → Type 0
AreDelegated w i h provider index [] b [] = Unit
AreDelegated w i h provider index [] b (a ∷ assignments) = ⊥
AreDelegated w i h provider index (t ∷ tasks) b [] = ⊥
AreDelegated w i h provider index (t ∷ tasks) b (a ∷ assignments) =
    IsDelegated w h provider index t b a
    × AreDelegated w (i + 4) h provider (index + 1) tasks
        (delegate_ticket w i h provider index t b).1 assignments

module _ {A B : Type 0} where
  continue-eq-ok :
      (p : Result A × Board) (next : A → Coordinator B) {v : B}
      → (continue p next).0 ≡ ok v
      → (a : A) × (p.0 ≡ ok a) × ((next a p.1).0 ≡ ok v)
  continue-eq-ok (ok a, b) next e = (a, refl, e)
  continue-eq-ok (err x, b) next e = absurd (err≢ok e)

delegate_one-IsDelegated :
    (w : Setting) (i : ℕ) (h : PlannerHandoff) (provider : Text) (index : ℕ) (t : WorkerTask)
    (existing : Option WorkerAssignment) (b : Board) {a : WorkerAssignment}
    → (delegate_one w i h provider index t existing b).0 ≡ ok a
    → (existing ≡ some a)
      ⊎ ((existing ≡ none)
          × IsIsolated w.git w.workspace
              (request_for h.run_id h.base_commit (worker_named index) t provider)
              a)
unfolding delegate_one delegate_new
delegate_one-IsDelegated w i h provider index t (some x) b e = inl (ap some (ok-injective e))
delegate_one-IsDelegated w i h provider index t none b e =
    let q = request_for h.run_id h.base_commit (worker_named index) t provider in
    let (made, created, e₁) = continue-eq-ok (create_assignment w.git w.workspace q, b) _ e in
    let (entry, _, same) = continue-eq-ok (assign_task w i t made index Priority.workflow b) _ e₁ in
    inr (
      refl,
      subst (IsIsolated w.git w.workspace q) (ok-injective same)
          (create_assignment-IsIsolated w.git w.workspace q created),
    )

delegate_ticket-IsDelegated :
    (w : Setting) (i : ℕ) (h : PlannerHandoff) (provider : Text) (index : ℕ) (t : WorkerTask)
    (b : Board) {a : WorkerAssignment}
    → (delegate_ticket w i h provider index t b).0 ≡ ok a
    → IsDelegated w h provider index t b a
unfolding delegate_ticket
delegate_ticket-IsDelegated w i h provider index t b e =
    let asked = with_disk (ask (get_worker w.engine (worker_named index)) b.disk) b in
    let (existing, found, e₁) = continue-eq-ok asked _ e in
    elim (delegate_one-IsDelegated w i h provider index t existing asked.1 e₁) [
      | inl same ↦ inl (found ∙ ap ok same)
      | inr (missing, isolated) ↦ inr (found ∙ ap ok missing, isolated)
    ]

delegate_each-AreDelegated :
    (w : Setting) (i : ℕ) (h : PlannerHandoff) (provider : Text) (index : ℕ)
    (tasks : List WorkerTask) (b : Board) {assignments : List WorkerAssignment}
    → (delegate_each w i h provider index tasks b).0 ≡ ok assignments
    → AreDelegated w i h provider index tasks b assignments
unfolding delegate_each
delegate_each-AreDelegated w i h provider index [] b e =
    subst (AreDelegated w i h provider index [] b) (ok-injective e) tt
delegate_each-AreDelegated w i h provider index (t ∷ tasks) b e =
    let round = delegate_ticket w i h provider index t b in
    let (a, one, e₁) = continue-eq-ok round _ e in
    let (rest, others, made) =
      continue-eq-ok (delegate_each w (i + 4) h provider (index + 1) tasks round.1) _ e₁ in
    subst (AreDelegated w i h provider index (t ∷ tasks) b) (ok-injective made) (
      delegate_ticket-IsDelegated w i h provider index t b one,
      delegate_each-AreDelegated w (i + 4) h provider (index + 1) tasks round.1 others,
    )

-- The board once the tickets of a handoff are made.
abbrev pub ticketed_board : Setting → PlannerHandoff → Board → Board
ticketed_board w h b = record b {
  disk = (create_tasks_from_handoff w.host w.workspace w.clock h b.disk).1;
}

-- When delegate_tasks returns, it returns one assignment for each ticket of the handoff, in their
-- order. Where the store that the earlier rounds left holds an assignment for the worker of the
-- ticket's number, it is that one; where the store holds none, it is a new one with this run, this
-- ticket's id, scope and checks, isolated in a worktree and on a branch of its own.
pub delegate_tasks-AreDelegated :
    (w : Setting) (h : PlannerHandoff) (provider : Text) (b : Board)
    {assignments : List WorkerAssignment}
    → (delegate_tasks w h provider b).0 ≡ ok assignments
    → (tasks : List WorkerTask) × ((create_tasks_from_handoff w.host w.workspace w.clock h b.disk).0
        ≡ ok tasks)
      × AreDelegated w (4 + length tasks) h provider 1 tasks (ticketed_board w h b) assignments
unfolding delegate_tasks
delegate_tasks-AreDelegated w h provider b e =
    let created = with_disk (create_tasks_from_handoff w.host w.workspace w.clock h b.disk) b in
    let (tasks, made, e₁) = continue-eq-ok created _ e in
    (tasks, made, delegate_each-AreDelegated w (4 + length tasks) h provider 1 tasks created.1 e₁)
