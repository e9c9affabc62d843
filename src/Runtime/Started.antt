-- ===== src/Runtime/Started.antt =====
-- What `run_check` has checked when it starts a process, and what it says of one.
use git_hub_issue_to_impleme.Prelude.{
  ◌≢◌, some, ℕ, ◌≤◌, ◌≡◌, ◌⊎◌, inl, inr, ◌&&◌, List, [], ◌∷◌, ◌++◌, not, leb→le, and_true, nat_eq,
  pair_eq, is_empty, all, In, contains, contains_iff, Text, text_eq, texts_eq, guard, >>=-eq-ok,
  guard-eq-ok, Result-cases, ok,
}
use git_hub_issue_to_impleme.Schemas.Runtime.{WorkerAssignment}
use git_hub_issue_to_impleme.Guard.Ownership.{verify_ownership, verify_ownership-IsOwned}
use git_hub_issue_to_impleme.Runtime.Tool.{Effect, Service}
use git_hub_issue_to_impleme.Runtime.Limits.{max_check_timeout}
use git_hub_issue_to_impleme.Runtime.Check.{Launcher, approve_check, working_directory}
use git_hub_issue_to_impleme.Runtime.Run.{run_check}

-- The command is one the assignment approves, its working directory is the worktree that the
-- worker owns and not the project workspace, and its time is bounded.
pub record IsAllowed (launcher : Launcher) (a : WorkerAssignment) (cwd : Text) (argv : List Text)
    (timeout_seconds : ℕ) : Type 0 where
  pub worktree : Text
  pub owned : verify_ownership launcher.machine a ≡ ok worktree
  pub inside : launcher.machine.resolve_strict cwd ≡ some worktree
  pub apart :
      launcher.machine.resolve_strict (launcher.machine.expanduser a.project_workspace)
      ≢ some worktree
  pub approved : In argv a.approved_checks
  pub some_time : 1 ≤ timeout_seconds
  pub bounded : timeout_seconds ≤ max_check_timeout

approve_check-IsAllowed :
    (launcher : Launcher) (a : WorkerAssignment) (argv : List Text) (timeout_seconds : ℕ)
    {u : Unit {0}}
    → approve_check launcher a argv timeout_seconds ≡ ok u
    → IsAllowed launcher a (working_directory launcher a) argv timeout_seconds
unfolding approve_check
approve_check-IsAllowed launcher a argv timeout_seconds e =
    let (worktree, owned, e₁) = >>=-eq-ok (verify_ownership launcher.machine a) _ e in
    let (_, full, e₂) =
      >>=-eq-ok (guard (not (is_empty argv) && all (λ value. not (is_empty value)) argv) _) _ e₁ in
    let (_, approved, e₃) = >>=-eq-ok (guard (contains a.approved_checks argv) _) _ e₂ in
    let (low, high) = and_true (guard-eq-ok _ _ e₃) in
    let o = verify_ownership-IsOwned launcher.machine a owned in
    record {
      worktree = worktree;
      owned = owned;
      inside = o.resolved;
      apart = o.not_workspace;
      approved = (contains_iff argv a.approved_checks).0 (guard-eq-ok _ _ approved);
      some_time = leb→le _ _ low;
      bounded = leb→le _ _ high;
    }

-- Whatever `run_check` returns or raises, either no process was started, or one was, of a command
-- that the assignment approves, with a time of 1 to 600 seconds and in a working directory that
-- resolves to the worktree whose ownership was verified, which is not the project workspace.
pub run_check-IsAllowed :
    (launcher : Launcher) (a : WorkerAssignment) (argv : List Text) (timeout_seconds : ℕ)
    (s : Service)
    → ((run_check launcher a argv timeout_seconds s).1.effects ≡ s.effects)
      ⊎ ((cwd : Text) × ((run_check launcher a argv timeout_seconds s).1.effects
            ≡ s.effects ++ Effect.check_started cwd argv ∷ [])
          × IsAllowed launcher a cwd argv timeout_seconds)
unfolding run_check
run_check-IsAllowed launcher a argv timeout_seconds s =
    elim (Result-cases (approve_check launcher a argv timeout_seconds)) [
      | inl (e, refused) ↦ inl (rw refused)
      | inr (tt, approved) ↦ inr (
        working_directory launcher a,
        rw approved (elim (Result-cases (launcher.start (working_directory launcher a) argv)) [
          | inl (e, failed) ↦ rw failed
          | inr (process, started) ↦ rw started
        ]),
        approve_check-IsAllowed launcher a argv timeout_seconds approved,
      )
    ]
