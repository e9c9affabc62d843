-- ===== src/Examples/Runtime.antt =====
-- A worker's result at the gate and in the report, and paths at the guard.
use git_hub_issue_to_impleme.Prelude.{
  texts_beq, ◌≡◌, refl, ◌↔◌, true, false, some, List, [], ◌∷◌, nat_eq, pair_eq, is_empty, All, Text,
  text, text_beq, text_eq, starts_with, strip, split_on, join, ok, insert_sorted, sort,
}
use git_hub_issue_to_impleme.Examples.Data.{assignment, result}
use git_hub_issue_to_impleme.Paths.{root_of, parse, as_posix, begins, match_parts, match}
use git_hub_issue_to_impleme.Paths.Glob.{pieces, takes, some_suffix, matches, fnmatch}
use git_hub_issue_to_impleme.Guard.{
  normalise_relative_path, pattern_admits, path_is_assigned, Tree, crosses_symlink, path_for,
}
use git_hub_issue_to_impleme.Gate.{
  check, missing_phases, completed_keys, all_violations, assignment_violations, scope_violations,
  in_scope, found_sequences, is_sorted, phase_sequence,
}
use git_hub_issue_to_impleme.Chief.Report.{build_report}
use git_hub_issue_to_impleme.Schemas.Handoff.{ReportStatus}
use git_hub_issue_to_impleme.Guard.Normal.{IsAllowed, path_for-IsAllowed}
use git_hub_issue_to_impleme.Guard.Scope.{
  src_tree, src_tree-admits_any_src, path_is_assigned-escape,
}
use git_hub_issue_to_impleme.Gate.Accept.{FollowsProcess, check_accepts_iff}
use git_hub_issue_to_impleme.Chief.Ready.{IsClean, ready_iff}
use git_hub_issue_to_impleme.Chief.Shared.{all_paths, collides}

-- A tree without links.
abbrev plain : Tree
plain = record { is_symlink = λ p. false; resolve = λ p. some p }

check_accepts_iff_example :
    ((check result (some assignment)).accepted ≡ true) ↔ FollowsProcess result (some assignment)
check_accepts_iff_example = check_accepts_iff result (some assignment)

ready_iff_example :
    ((build_report (text "r1") (result ∷ [])).status ≡ ReportStatus.ready_for_human) ↔ (
      (is_empty (result ∷ []) ≡ false)
      × All IsClean (result ∷ [])
      × (collides [] (all_paths (result ∷ [])) ≡ false))
ready_iff_example = ready_iff (text "r1") (result ∷ [])

abbrev scope : List Text
scope = text "src/**" ∷ []

app_in_scope : path_is_assigned scope (text "src/app.py") ≡ ok true
unfolding path_is_assigned pattern_admits normalise_relative_path parse root_of starts_with split_on
    text_beq strip texts_beq as_posix join match match_parts fnmatch matches pieces some_suffix
    takes
app_in_scope = refl

src_tree-admits_any_src_example :
    pattern_admits
      (record { root = []; names = text "vendor" ∷ text "src" ∷ text "x.py" ∷ [] })
      src_tree
    ≡ ok true
src_tree-admits_any_src_example = src_tree-admits_any_src (text "vendor" ∷ []) (text "x.py")

path_is_assigned-escape_example :
    path_is_assigned (src_tree ∷ []) (text "src/../setup.py") ≡ ok true
path_is_assigned-escape_example = path_is_assigned-escape (text "setup.py")

abbrev worktree : List Text
worktree = text "w" ∷ []

admitted :
    path_for plain worktree scope (text "src/app.py")
    ≡ ok (text "w" ∷ text "src" ∷ text "app.py" ∷ [])
unfolding path_for crosses_symlink begins path_is_assigned pattern_admits normalise_relative_path
    parse root_of starts_with split_on text_beq strip texts_beq as_posix join match match_parts
    fnmatch matches pieces some_suffix takes
admitted = refl

path_for-IsAllowed_example :
    (relative : Text) × IsAllowed plain worktree scope
      (text "src/app.py")
      relative
      (text "w" ∷ text "src" ∷ text "app.py" ∷ [])
path_for-IsAllowed_example = path_for-IsAllowed plain worktree scope (text "src/app.py") admitted

pub result_accepted : (check result (some assignment)).accepted ≡ true
unfolding check missing_phases completed_keys all_violations assignment_violations scope_violations
    in_scope path_is_assigned normalise_relative_path strip parse root_of starts_with split_on
    pattern_admits texts_beq as_posix join found_sequences is_sorted phase_sequence fnmatch matches
    pieces some_suffix takes match match_parts insert_sorted sort text_beq
result_accepted = refl
