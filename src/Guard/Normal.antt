-- ===== src/Guard/Normal.antt =====
-- What `_normalise_relative_path` and `path_for` let through.
use git_hub_issue_to_impleme.Prelude.{
  ◌≡◌, sym, ap, ◌∙◌, subst, true, false, List, arith, nat_eq, pair_eq, any, contains, Text, text,
  text_eq, strip, >>=-eq-ok, ok,
}
use git_hub_issue_to_impleme.Paths.{PosixPath, parse, is_absolute, parts, as_posix, begins}
use git_hub_issue_to_impleme.Paths.Roundtrip.{parse-as_posix}
use git_hub_issue_to_impleme.Guard.{
  control_names, normalise_relative_path, path_is_assigned, Tree, crosses_symlink, path_for,
}

-- A relative path with no `..` and no control directory among its parts.
pub record IsSafe (p : PosixPath) : Type 0 where
  pub relative : is_absolute p ≡ false
  pub no_escape : contains (parts p) (text "..") ≡ false
  pub no_control : any (λ part. contains control_names part) (parts p) ≡ false

normalise-eq-ok :
    (s : Text) {r : Text}
    → normalise_relative_path s ≡ ok r
    → (r ≡ as_posix (parse (strip s))) × IsSafe (parse (strip s))
unfolding normalise_relative_path
normalise-eq-ok s e = ground arith

-- What `_normalise_relative_path` returns is safe, as a path that is parsed again.
pub normalise-IsSafe : (s : Text) {r : Text} → normalise_relative_path s ≡ ok r → IsSafe (parse r)
normalise-IsSafe s {r} e =
    let (printed, safe) = normalise-eq-ok s e in
    subst IsSafe (sym (ap parse printed ∙ parse-as_posix (strip s) safe.relative)) safe

-- What `path_for` has checked when it returns.
pub record IsAllowed (tree : Tree) (worktree assigned : List Text) (s relative : Text)
    (r : List Text) : Type 0 where
  pub normalised : normalise_relative_path s ≡ ok relative
  pub safe : IsSafe (parse relative)
  pub assigned_path : path_is_assigned assigned relative ≡ ok true
  pub no_symlink : crosses_symlink tree worktree (parts (parse relative)) ≡ false
  pub inside : begins worktree r ≡ true

path_for-checks :
    (tree : Tree) (worktree assigned : List Text) (s relative : Text) {r : List Text}
    → normalise_relative_path s ≡ ok relative
    → path_for tree worktree assigned s ≡ ok r
    → (path_is_assigned assigned relative ≡ ok true)
      × (crosses_symlink tree worktree (parts (parse relative)) ≡ false)
      × (begins worktree r ≡ true)
unfolding path_for
path_for-checks tree worktree assigned s relative n e = ground arith

-- A path that `path_for` returns lies below the worktree and belongs to the assigned scope; its
-- relative form has no `..` and no control directory, and no part of it is a link.
pub path_for-IsAllowed :
    (tree : Tree) (worktree assigned : List Text) (s : Text) {r : List Text}
    → path_for tree worktree assigned s ≡ ok r
    → (relative : Text) × IsAllowed tree worktree assigned s relative r
unfolding path_for
path_for-IsAllowed tree worktree assigned s {r} e =
    let (relative, n, e') = >>=-eq-ok (normalise_relative_path s) _ e in
    let checks = path_for-checks tree worktree assigned s relative n e in
    (
      relative,
      record {
        normalised = n;
        safe = normalise-IsSafe s n;
        assigned_path = checks.0;
        no_symlink = checks.1;
        inside = checks.2;
      },
    )
