-- ===== src/Runtime/Committed.antt =====
-- What `git_commit` has checked when it changes the worktree.
use git_hub_issue_to_impleme.Prelude.{
  ◌≤◌, ◌≡◌, ap, ◌⊎◌, inl, inr, false, ◌||◌, List, [], ◌∷◌, ◌++◌, ltb, eqb, not, ltb-false,
  Bool-cases, nat_eq, pair_eq, or_false, not-true, length, is_empty, any, All, Text, text_eq,
  texts_eq, strip, guard, not-any, >>=-eq-ok, ok-injective, guard-eq-ok, Result-cases, ok,
}
use git_hub_issue_to_impleme.Schemas.Runtime.{WorkerAssignment}
use git_hub_issue_to_impleme.Guard.{Tree}
use git_hub_issue_to_impleme.Guard.Ownership.{Answer, Machine, verify_ownership}
use git_hub_issue_to_impleme.Runtime.Tool.{Effect, Service}
use git_hub_issue_to_impleme.Runtime.Limits.{max_commit_message}
use git_hub_issue_to_impleme.Runtime.Approval.{guarded_path}
use git_hub_issue_to_impleme.Runtime.Scope.{check_scope, status_paths, Repository, approve_commit}
use git_hub_issue_to_impleme.Runtime.Git.{commit_changes, git_commit}

-- The path is guarded: its worktree is owned, and `path_for` lets it through.
abbrev pub IsGuarded : Machine → Tree → WorkerAssignment → Text → Type 0
IsGuarded machine tree a path = (file : List Text) × (guarded_path machine tree a path ≡ ok file)

-- A commit is one of an accepted message and of changes that are all in scope.
pub record IsInScope (repository : Repository) (a : WorkerAssignment) (message : Text)
    : Type 0 where
  pub worktree : Text
  pub owned : verify_ownership repository.machine a ≡ ok worktree
  pub named : is_empty (strip message) ≡ false
  pub short : length message ≤ max_commit_message
  pub no_nul : All (λ c. eqb c 0 ≡ false) message
  pub answer : Answer
  pub asked : repository.porcelain ≡ ok answer
  pub changed : is_empty (status_paths answer.stdout) ≡ false
  pub in_scope : All (IsGuarded repository.machine repository.tree a) (status_paths answer.stdout)

check_scope-IsGuarded :
    (machine : Machine) (tree : Tree) (a : WorkerAssignment) (paths : List Text) {u : Unit {0}}
    → check_scope machine tree a paths ≡ ok u
    → All (IsGuarded machine tree a) paths
unfolding check_scope
check_scope-IsGuarded machine tree a [] e = tt
check_scope-IsGuarded machine tree a (path ∷ paths) e =
    let (file, guarded, e₁) = >>=-eq-ok (guarded_path machine tree a path) _ e in
    ((file, guarded), check_scope-IsGuarded machine tree a paths e₁)

approve_commit-IsInScope :
    (repository : Repository) (a : WorkerAssignment) (message : Text) {path : Text}
    {paths : List Text}
    → approve_commit repository a message ≡ ok (path ∷ paths)
    → IsInScope repository a message
unfolding approve_commit
approve_commit-IsInScope repository a message e =
    let (worktree, owned, e₁) = >>=-eq-ok (verify_ownership repository.machine a) _ e in
    let (_, named, e₂) = >>=-eq-ok (guard (not (is_empty (strip message))) _) _ e₁ in
    let (_, short, e₃) =
      >>=-eq-ok
        (guard (not (ltb max_commit_message (length message) || any (λ c. eqb c 0) message)) _) _
        e₂ in
    let (answer, asked, e₄) = >>=-eq-ok repository.porcelain _ e₃ in
    let (_, fine, e₅) = >>=-eq-ok (guard answer.succeeded _) _ e₄ in
    let (_, in_scope, made) =
      >>=-eq-ok (check_scope repository.machine repository.tree a (status_paths answer.stdout)) _
        e₅ in
    let (fits, clean) = or_false (not-true (guard-eq-ok _ _ short)) in
    record {
      worktree = worktree;
      owned = owned;
      named = not-true (guard-eq-ok _ _ named);
      short = ltb-false _ _ fits;
      no_nul = not-any (λ c. eqb c 0) message clean;
      answer = answer;
      asked = asked;
      changed = ap is_empty (ok-injective made);
      in_scope =
          check_scope-IsGuarded repository.machine repository.tree a (status_paths answer.stdout)
            in_scope;
    }

-- The effects of one commit: staging, then the commit if staging went well.
abbrev pub IsCommitting : Text → List Effect → List Effect → Type 0
IsCommitting message before after =
    (after ≡ before ++ Effect.files_added ∷ [])
    ⊎ (after ≡ (before ++ Effect.files_added ∷ []) ++ Effect.committed message ∷ [])

commit_changes-effects :
    (repository : Repository) (a : WorkerAssignment) (message : Text) (s : Service)
    → IsCommitting message s.effects (commit_changes repository a message s).1.effects
unfolding commit_changes
commit_changes-effects repository a message s = elim (Result-cases repository.add) [
  | inl (e, failed) ↦ inl (rw failed)
  | inr (added, ran) ↦ elim (Bool-cases added.succeeded) [
    | inr bad ↦ inl (rw (ran, bad))
    | inl fine ↦ inr (elim (Result-cases (repository.commit message)) [
      | inl (e, failed) ↦ rw (ran, fine, failed)
      | inr (committed, done) ↦ elim (Bool-cases committed.succeeded) [
        | inr bad ↦ rw (ran, fine, done, bad)
        | inl good ↦ elim (Result-cases repository.revision) [
          | inl (e, failed) ↦ rw (ran, fine, done, good, failed)
          | inr (revision, read) ↦ elim (Result-cases repository.branch) [
            | inl (e, failed) ↦ rw (ran, fine, done, good, read, failed)
            | inr (branch, named) ↦ rw (ran, fine, done, good, read, named)
          ]
        ]
      ]
    ])
  ]
]

-- Whatever `git_commit` returns or raises, either the worktree is as it was, or the changes were
-- staged and, if that went well, committed with this message; then the worker owns the worktree,
-- the message is not blank, has at most 500 characters and no NUL, and every changed path, both ends
-- of a rename included, is in scope.
pub git_commit-IsInScope :
    (repository : Repository) (a : WorkerAssignment) (message : Text) (s : Service)
    → ((git_commit repository a message s).1.effects ≡ s.effects)
      ⊎ (IsCommitting message s.effects (git_commit repository a message s).1.effects
          × IsInScope repository a message)
unfolding git_commit
git_commit-IsInScope repository a message s =
    elim (Result-cases (approve_commit repository a message)) [
      | inl (e, refused) ↦ inl (rw refused)
      | inr ([], approved) ↦ inl (
          rw approved (elim (Result-cases repository.branch) [
            | inl (e, failed) ↦ rw failed
            | inr (answer, ran) ↦ rw ran
          ]))
      | inr (path ∷ paths, approved) ↦ inr (
        rw approved (commit_changes-effects repository a message s),
        approve_commit-IsInScope repository a message approved,
      )
    ]
