-- ===== src/Worktrees/Distinct.antt =====
-- Workers keep apart: what the worktree manager of src/agents/worktrees.py hands out.
use git_hub_issue_to_impleme.Prelude.{
  ℕ, ◌≡◌, refl, sym, ap, ◌∙◌, subst, true, false, [], ◌∷◌, arith, eqb, not, and_true, nat_eq,
  pair_eq, not-true, all, Text, text, text_eq, split_on, join, IsFree, split_on-join, Error, guard,
  >>=-eq-ok, ok-injective, or_raise, guard-eq-ok, ok,
}
use git_hub_issue_to_impleme.Schemas.Runtime.{WorkerAssignment, assignment_is_valid}
use git_hub_issue_to_impleme.Worktrees.{
  is_alphanumeric, Git, Request, is_identifier_char, is_identifier, is_task_identifier, branch_of,
  worktree_path_of, provider_named, assignment_for, create_assignment, invalid_characters,
}

-- What `create_assignment` has checked when it returns.
pub record IsIsolated (git : Git) (workspace : Text) (q : Request) (a : WorkerAssignment)
    : Type 0 where
  pub run_named : is_identifier q.run_id ≡ true
  pub task_named : is_task_identifier q.task_id ≡ true
  pub worker_named : is_identifier q.worker_id ≡ true
  pub own_run : a.run_id ≡ q.run_id
  pub own_task : a.task_id ≡ q.task_id
  pub own_worker : a.worker_id ≡ q.worker_id
  pub own_scope : a.assigned_paths ≡ q.assigned_paths
  pub own_checks : a.approved_checks ≡ q.approved_checks
  pub own_branch : a.branch ≡ branch_of q.run_id q.worker_id
  pub own_path : a.worktree_path ≡ worktree_path_of workspace q.run_id q.worker_id
  pub fresh : git.path_exists a.worktree_path ≡ false
  pub base_known : git.verify_commit a.base_commit ≡ ok tt
  pub added : git.add_worktree a.branch a.worktree_path a.base_commit ≡ ok tt
  pub valid : assignment_is_valid a ≡ true

-- An assignment is returned only for safe identifiers and a base commit that Git knows. It has the
-- run, task, worker, scope and checks that were asked, and a branch and a worktree path that are its
-- own; nothing was at that path, and Git has added the worktree there.
pub create_assignment-IsIsolated :
    (git : Git) (workspace : Text) (q : Request) {a : WorkerAssignment}
    → create_assignment git workspace q ≡ ok a
    → IsIsolated git workspace q a
unfolding create_assignment assignment_for
create_assignment-IsIsolated git workspace q {a} e =
    let (_, r, e₁) =
      >>=-eq-ok (guard (is_identifier q.run_id) (invalid_characters (text "run_id"))) _ e in
    let (_, t, e₂) =
      >>=-eq-ok (guard (is_task_identifier q.task_id) (invalid_characters (text "task_id"))) _ e₁ in
    let (_, w, e₃) =
      >>=-eq-ok (guard (is_identifier q.worker_id) (invalid_characters (text "worker_id"))) _ e₂ in
    let (provider, _, e₄) = >>=-eq-ok (or_raise (provider_named q.provider) _) _ e₃ in
    let (_, known, e₅) = >>=-eq-ok (git.verify_commit q.base_commit) _ e₄ in
    let (_, new, e₆) =
      >>=-eq-ok (guard (not (git.path_exists (worktree_path_of workspace q.run_id q.worker_id))) _)
        _ e₅ in
    let (_, added, e₇) =
      >>=-eq-ok
        (git.add_worktree (branch_of q.run_id q.worker_id)
          (worktree_path_of workspace q.run_id q.worker_id) q.base_commit)
        _ e₆ in
    let (_, valid, made) =
      >>=-eq-ok
        (guard (assignment_is_valid (assignment_for workspace q provider)) Error.validation_error) _
        e₇ in
    subst (IsIsolated git workspace q) (ok-injective made) (record {
      run_named = guard-eq-ok _ _ r;
      task_named = guard-eq-ok _ _ t;
      worker_named = guard-eq-ok _ _ w;
      own_run = refl;
      own_task = refl;
      own_worker = refl;
      own_scope = refl;
      own_checks = refl;
      own_branch = refl;
      own_path = refl;
      fresh = not-true (guard-eq-ok _ _ new);
      base_known = known;
      added = added;
      valid = guard-eq-ok _ _ valid;
    })

identifier_char-no_slash : (c : ℕ) → is_identifier_char c ≡ true → eqb c b'/' ≡ false
unfolding is_identifier_char
identifier_char-no_slash c h = ground arith

alphanumeric-no_slash : (c : ℕ) → is_alphanumeric c ≡ true → eqb c b'/' ≡ false
alphanumeric-no_slash c h = ground arith

chars-IsFree : (t : Text) → all is_identifier_char t ≡ true → IsFree b'/' t
chars-IsFree [] h = refl
chars-IsFree (c ∷ t) h =
    let (one, rest) = and_true h in rw (identifier_char-no_slash c one) (chars-IsFree t rest)

identifier-IsFree : (t : Text) → is_identifier t ≡ true → IsFree b'/' t
unfolding is_identifier
identifier-IsFree [] h = cc
identifier-IsFree (c ∷ t) h =
    let (first, more) = and_true h in
    let (chars, _) = and_true more in rw (alphanumeric-no_slash c first) (chars-IsFree t chars)

branch-join :
    (run_id worker_id : Text)
    → branch_of run_id worker_id ≡ join (b'/' ∷ []) (text "chief" ∷ run_id ∷ worker_id ∷ [])
unfolding branch_of join
branch-join run_id worker_id = refl

split-branch :
    (run_id worker_id : Text)
    → is_identifier run_id ≡ true
    → is_identifier worker_id ≡ true
    → split_on b'/' (branch_of run_id worker_id) ≡ text "chief" ∷ run_id ∷ worker_id ∷ []
split-branch run_id worker_id r w =
    ap (split_on b'/') (branch-join run_id worker_id)
    ∙ split_on-join b'/' (text "chief") (run_id ∷ worker_id ∷ [])
        (refl, (identifier-IsFree run_id r, (identifier-IsFree worker_id w, tt)))

three-injective : {a b c d x : Text} → x ∷ a ∷ b ∷ [] ≡ x ∷ c ∷ d ∷ [] → (a ≡ c) × (b ≡ d)
three-injective e = (cc, cc)

-- Two workers with safe identifiers have one branch only if they are the same worker of the same
-- run.
pub branch_of-injective :
    (run_id worker_id run_id' worker_id' : Text)
    → is_identifier run_id ≡ true
    → is_identifier worker_id ≡ true
    → is_identifier run_id' ≡ true
    → is_identifier worker_id' ≡ true
    → branch_of run_id worker_id ≡ branch_of run_id' worker_id'
    → (run_id ≡ run_id') × (worker_id ≡ worker_id')
branch_of-injective run_id worker_id run_id' worker_id' r w r' w' e = three-injective (
    sym (split-branch run_id worker_id r w)
    ∙ (ap (split_on b'/') e ∙ split-branch run_id' worker_id' r' w'))
