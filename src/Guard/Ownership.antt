-- ===== src/Guard/Ownership.antt =====
-- `verify_ownership` and `_worktree_is_registered` of `WorktreeGuard`, in
-- src/agents/tools/runtime_tools.py. Paths are the texts that `pathlib` prints.
use git_hub_issue_to_impleme.Prelude.{
  splitlines, split_first, ◌≡◌, sym, ◌∙◌, subst, ◌≢◌, Bool, true, false, ◌&&◌, Option, none, some,
  List, [], ◌∷◌, ◌++◌, eqb, if◌then◌else◌, not, nat_eq, ◌==◌, pair_eq, some-injective, true≢false,
  not-true, is_empty, any, contains, Text, text, text_beq_iff, text_eq, strip, push_char, Error,
  Result, guard, ◌>>=◌, ◌>>◌, >>=-eq-ok, ok-injective, or_raise, or_raise-eq-ok, guard-eq-ok, ok,
}
use git_hub_issue_to_impleme.Schemas.Runtime.{WorkerAssignment}

-- What a Git command printed, and whether it returned 0.
pub record Answer : Type 0 where
  pub succeeded : Bool
  pub stdout : Text
  pub stderr : Text

-- What is asked of the machine. A strict resolution raises an OSError; `git` raises where Git is
-- unavailable or too slow.
pub record Machine : Type 0 where
  pub expanduser : Text → Text
  pub is_symlink : Text → Bool
  pub resolve : Text → Text
  pub resolve_strict : Text → Option Text
  pub is_dir : Text → Bool
  pub git : Text → List Text → Result Answer

-- `output.split("\n\n")`; the flag says that a newline was read just before.
unfoldable pub split_blocks : Bool → Text → List Text
split_blocks false [] = [] ∷ []
split_blocks true [] = push_char 10 ([] ∷ [])
split_blocks false (c ∷ s) =
    let fresh = split_blocks true s in
    let inside = split_blocks false s in if eqb c 10 then fresh else push_char c inside
split_blocks true (c ∷ s) =
    let inside = split_blocks false s in
    if eqb c 10 then [] ∷ inside else push_char 10 (push_char c inside)

abbrev last_of : Text → Option (Text × Text) → Option Text → Option Text
last_of key entry (some later) = some later
last_of key none none = none
last_of key (some (k, v)) none = if k == key then some v else none

-- `lines.get(key)`: of two lines with one key the later counts.
unfoldable pub value_of : Text → List Text → Option Text
value_of key [] = none
value_of key (line ∷ lines) = last_of key (split_first (text " ") line) (value_of key lines)

abbrev or_empty : Option Text → Text
or_empty none = []
or_empty (some t) = t

-- Does the record name the worktree and its branch?
unfoldable pub registers : Machine → Text → Text → Text → Bool
registers machine worktree branch block =
    (machine.resolve (or_empty (value_of (text "worktree") (splitlines block))) == worktree)
    && elim (value_of (text "branch") (splitlines block)) [
      | none ↦ false
      | some b ↦ b == text "refs/heads/" ++ branch
    ]

-- `_worktree_is_registered`
unfoldable pub worktree_is_registered : Machine → Text → Text → Text → Bool
worktree_is_registered machine output worktree branch =
    any (registers machine worktree branch) (split_blocks false output)

abbrev violation : Text → Error
violation message = Error.tool_violation message

unfoldable pub check_registered : Machine → Text → Text → Answer → Bool
check_registered machine worktree branch answer =
    answer.succeeded && worktree_is_registered machine answer.stdout worktree branch

-- `verify_ownership`; the text of an OSError is left out of the message.
unfoldable pub verify_ownership : Machine → WorkerAssignment → Result Text
verify_ownership machine a = do
  guard (not (machine.is_symlink (machine.expanduser a.worktree_path)))
      (violation (text "Assigned Worktree cannot be a symlink."))
  worktree ←
      or_raise (machine.resolve_strict (machine.expanduser a.worktree_path))
        (violation (text "Worktree path cannot be resolved."))
  workspace ←
      or_raise (machine.resolve_strict (machine.expanduser a.project_workspace))
        (violation (text "Worktree path cannot be resolved."))
  guard (machine.is_dir worktree) (violation (text "Assigned Worktree is not a directory."))
  guard (not (worktree == workspace))
      (violation (text "The Chief project workspace cannot be a Runtime Worktree."))
  top_level ←
      machine.git (machine.expanduser a.worktree_path)
        (text "rev-parse" ∷ text "--show-toplevel" ∷ [])
  guard top_level.succeeded (violation (text "Assigned path is not a Git Worktree."))
  guard (machine.resolve (strip top_level.stdout) == worktree)
      (violation (text "Git Worktree ownership does not match."))
  current ←
      machine.git (machine.expanduser a.worktree_path) (text "branch" ∷ text "--show-current" ∷ [])
  guard (current.succeeded && not (is_empty (strip current.stdout)))
      (violation (text "Runtime worker must use a named branch."))
  guard (strip current.stdout == a.branch) (
      violation (
        text "Worker branch mismatch: expected "
        ++ a.branch
        ++ text ", got "
        ++ strip current.stdout
        ++ text "."))
  guard (not (contains a.protected_branches (strip current.stdout)))
      (violation (text "Cannot operate on protected branch: " ++ strip current.stdout ++ text "."))
  worktrees ←
      machine.git (machine.expanduser a.worktree_path)
        (text "worktree" ∷ text "list" ∷ text "--porcelain" ∷ [])
  guard (check_registered machine worktree (strip current.stdout) worktrees)
      (violation (text "Assigned Worktree is not registered for its branch."))
  ok worktree

-- What is known of a worktree whose ownership was verified.
pub record IsOwned (machine : Machine) (a : WorkerAssignment) (worktree : Text) : Type 0 where
  pub no_symlink : machine.is_symlink (machine.expanduser a.worktree_path) ≡ false
  pub resolved : machine.resolve_strict (machine.expanduser a.worktree_path) ≡ some worktree
  pub directory : machine.is_dir worktree ≡ true
  pub not_workspace :
      machine.resolve_strict (machine.expanduser a.project_workspace) ≢ some worktree
  pub on_branch :
      (answer : Answer) × (machine.git
          (machine.expanduser a.worktree_path)
          (text "branch" ∷ text "--show-current" ∷ [])
        ≡ ok answer)
      × (strip answer.stdout ≡ a.branch)
  pub not_protected : contains a.protected_branches a.branch ≡ false
  pub registered :
      (answer : Answer) × (machine.git
          (machine.expanduser a.worktree_path)
          (text "worktree" ∷ text "list" ∷ text "--porcelain" ∷ [])
        ≡ ok answer)
      × (check_registered machine worktree a.branch answer ≡ true)

-- A worktree whose ownership was verified is a directory other than the project workspace, Git is
-- on the branch that is assigned, the branch is not protected, and Git lists the worktree for it.
pub verify_ownership-IsOwned :
    (machine : Machine) (a : WorkerAssignment) {worktree : Text}
    → verify_ownership machine a ≡ ok worktree
    → IsOwned machine a worktree
unfolding verify_ownership
verify_ownership-IsOwned machine a {worktree} e =
    let (_, link, e₁) =
      >>=-eq-ok (guard (not (machine.is_symlink (machine.expanduser a.worktree_path))) _) _ e in
    let (tree, found, e₂) =
      >>=-eq-ok (or_raise (machine.resolve_strict (machine.expanduser a.worktree_path)) _) _ e₁ in
    let (workspace, project, e₃) =
      >>=-eq-ok (or_raise (machine.resolve_strict (machine.expanduser a.project_workspace)) _) _
        e₂ in
    let (_, directory, e₄) = >>=-eq-ok (guard (machine.is_dir tree) _) _ e₃ in
    let (_, apart, e₅) = >>=-eq-ok (guard (not (tree == workspace)) _) _ e₄ in
    let (top, asked, e₆) =
      >>=-eq-ok (machine.git _ (text "rev-parse" ∷ text "--show-toplevel" ∷ [])) _ e₅ in
    let (_, fine, e₇) = >>=-eq-ok (guard top.succeeded _) _ e₆ in
    let (_, owned, e₈) = >>=-eq-ok (guard (machine.resolve (strip top.stdout) == tree) _) _ e₇ in
    let (current, branch_asked, e₉) =
      >>=-eq-ok (machine.git _ (text "branch" ∷ text "--show-current" ∷ [])) _ e₈ in
    let (_, branch_named, e₁₀) =
      >>=-eq-ok (guard (current.succeeded && not (is_empty (strip current.stdout))) _) _ e₉ in
    let (_, matches, e₁₁) = >>=-eq-ok (guard (strip current.stdout == a.branch) _) _ e₁₀ in
    let (_, open', e₁₂) =
      >>=-eq-ok (guard (not (contains a.protected_branches (strip current.stdout))) _) _ e₁₁ in
    let (listed, list_asked, e₁₃) =
      >>=-eq-ok (machine.git _ (text "worktree" ∷ text "list" ∷ text "--porcelain" ∷ [])) _ e₁₂ in
    let (_, there, made) =
      >>=-eq-ok (guard (check_registered machine tree (strip current.stdout) listed) _) _ e₁₃ in
    let branch : strip current.stdout ≡ a.branch =
      (text_beq_iff (strip current.stdout) a.branch).0 (guard-eq-ok _ _ matches) in
    subst (IsOwned machine a) (ok-injective made) (record {
      no_symlink = not-true (guard-eq-ok _ _ link);
      resolved = or_raise-eq-ok _ _ found;
      directory = guard-eq-ok _ _ directory;
      not_workspace = λ same. true≢false (
          sym (beq_self tree workspace (some-injective (sym same ∙ or_raise-eq-ok _ _ project)))
          ∙ not-true (guard-eq-ok _ _ apart));
      on_branch = (current, branch_asked, branch);
      not_protected =
          subst (λ b. contains a.protected_branches b ≡ false) branch
            (not-true (guard-eq-ok _ _ open'));
      registered = (
        listed,
        list_asked,
        subst (λ b. check_registered machine tree b listed ≡ true) branch (guard-eq-ok _ _ there),
      );
    })
  where
    beq_self : (s t : Text) → s ≡ t → (s == t) ≡ true
    beq_self s t same = (text_beq_iff s t).1 same
