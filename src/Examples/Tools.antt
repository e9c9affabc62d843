-- ===== src/Examples/Tools.antt =====
-- A worker patches a file, runs a check, records a Skill trace and commits.
use git_hub_issue_to_impleme.Prelude.{
  ◌≡◌, refl, ◌⊎◌, true, false, Option, some, List, [], ◌∷◌, ◌++◌, nat_eq, pair_eq, Text, text,
  text_beq, text_eq, texts_beq, texts_eq, starts_with, ends_with, is_space, strip_left, strip,
  split_on, join, splitlines, split_first, split_last, utf8_length, IsOrdered, ok,
}
use git_hub_issue_to_impleme.Schemas.Runtime.{WorkerAssignment, Phase, TraceStatus, ExitCode}
use git_hub_issue_to_impleme.Gate.{sequences}
use git_hub_issue_to_impleme.Paths.{as_posix, begins, match, match_parts, parse, root_of}
use git_hub_issue_to_impleme.Paths.Glob.{
  class_split, class_text, fnmatch, matches, pieces, ranges, set_piece, some_suffix, takes,
}
use git_hub_issue_to_impleme.Guard.{
  Tree, crosses_symlink, normalise_relative_path, path_for, path_is_assigned, pattern_admits,
  strip_slashes,
}
use git_hub_issue_to_impleme.Guard.Ownership.{
  Answer, verify_ownership, split_blocks, value_of, registers, worktree_is_registered,
  check_registered,
}
use git_hub_issue_to_impleme.Examples.Data.{assignment}
use git_hub_issue_to_impleme.Examples.Ownership.{machine}
use git_hub_issue_to_impleme.Runtime.Tool.{Effect, new_service}
use git_hub_issue_to_impleme.Runtime.Approval.{
  World, approve_patch, check_file, check_files, check_hash, expected_hash, guarded_path,
}
use git_hub_issue_to_impleme.Runtime.Diff.{
  patch_paths, paths_of_lines, line_paths, header_groups, changed_line_count,
}
use git_hub_issue_to_impleme.Runtime.Service.{bounded_text, record_skill_trace}
use git_hub_issue_to_impleme.Runtime.Patch.{apply_file_patch}
use git_hub_issue_to_impleme.Runtime.Guarded.{IsApproved, apply_file_patch-IsApproved}
use git_hub_issue_to_impleme.Runtime.Check.{stdout, stderr, chunk, Process, Launcher, approve_check}
use git_hub_issue_to_impleme.Runtime.Run.{run_check}
use git_hub_issue_to_impleme.Runtime.Started.{IsAllowed, run_check-IsAllowed}
use git_hub_issue_to_impleme.Runtime.Finished.{reported, run_check-reported}
use git_hub_issue_to_impleme.Runtime.Scope.{
  Repository, approve_commit, check_scope, status_paths, paths_of_status,
}
use git_hub_issue_to_impleme.Runtime.Git.{git_commit, commit_changes}
use git_hub_issue_to_impleme.Runtime.Committed.{IsInScope, IsCommitting, git_commit-IsInScope}
use git_hub_issue_to_impleme.Runtime.Calls.{Call, after_all}
use git_hub_issue_to_impleme.Runtime.Traces.{IsRouted, after_all-skill_traces}

abbrev worker : WorkerAssignment
worker = record assignment {
  approved_checks = (text "pytest" ∷ []) ∷ [];
  required_skills = text "tdd" ∷ [];
}

abbrev said : Text → Answer
said output = record { succeeded = true; stdout = output; stderr = [] }

abbrev tree : Tree
tree = record { is_symlink = λ p. false; resolve = λ p. some p }

abbrev world : World
world = record {
  machine = machine;
  tree = tree;
  exists = λ p. true;
  sha256 = λ p. ok (text "aa");
  check_patch = λ p. ok (said []);
  apply_patch = λ p. ok (said []);
}

abbrev patch : Text
patch =
    text
      "diff --git a/src/app.py b/src/app.py\n--- a/src/app.py\n+++ b/src/app.py\n@@ -1 +1 @@\n-x\n+y\n"

abbrev expected : List (Text × Option Text)
expected = (text "src/app.py", some (text "aa")) ∷ []

abbrev process : Process
process = record {
  events =
      chunk stdout (text "2 pa")
      ∷ chunk stderr []
      ∷ chunk stdout (text "ssed")
      ∷ chunk stdout []
      ∷ [];
  exit_code = ExitCode.exited 0;
}

abbrev launcher : Launcher
launcher = record { machine = machine; start = λ cwd argv. ok process; decode = λ bytes. bytes }

abbrev repository : Repository
repository = record {
  machine = machine;
  tree = tree;
  status = ok (said (text " M src/app.py\n"));
  diff = ok (said []);
  porcelain = ok (said (text " M src/app.py\n"));
  add = ok (said []);
  commit = λ message. ok (said (text "1 file changed"));
  revision = ok (said (text "abc123\n"));
  branch = ok (said (text "chief/r1/worker-1\n"));
}

patched :
    (apply_file_patch world worker patch expected new_service).1.effects
    ≡ Effect.patch_applied patch ∷ []
unfolding apply_file_patch approve_patch utf8_length patch_paths paths_of_lines line_paths
    header_groups changed_line_count split_last check_file check_files check_hash expected_hash
    verify_ownership text_beq strip check_registered worktree_is_registered split_blocks registers
    value_of splitlines split_first texts_beq crosses_symlink normalise_relative_path path_for
    path_is_assigned pattern_admits strip_slashes class_split class_text fnmatch matches pieces
    ranges set_piece some_suffix takes as_posix begins match match_parts parse root_of ends_with
    is_space join split_on starts_with strip_left guarded_path bounded_text
patched = refl

checked :
    (run_check launcher worker (text "pytest" ∷ []) 60 new_service).1.effects
    ≡ Effect.check_started (text "/w/.chief/worktrees/worker-1") (text "pytest" ∷ []) ∷ []
unfolding run_check approve_check verify_ownership text_beq strip check_registered
    worktree_is_registered split_blocks registers value_of splitlines split_first texts_beq
checked = refl

committed :
    (git_commit repository worker (text "Fix it") new_service).1.effects
    ≡ Effect.files_added ∷ Effect.committed (text "Fix it") ∷ []
unfolding git_commit approve_commit check_scope status_paths paths_of_status commit_changes
    verify_ownership text_beq strip check_registered worktree_is_registered split_blocks registers
    value_of splitlines split_first texts_beq crosses_symlink normalise_relative_path path_for
    path_is_assigned pattern_admits strip_slashes class_split class_text fnmatch matches pieces
    ranges set_piece some_suffix takes as_posix begins match match_parts parse root_of ends_with
    is_space join split_on starts_with strip_left guarded_path bounded_text
committed = refl

escape_refused :
    (git_commit
      (record repository { porcelain = ok (said (text "R  src/app.py -> setup.py\n")) })
      worker
      (text "Fix it")
      new_service).1.effects
    ≡ []
unfolding git_commit approve_commit check_scope status_paths paths_of_status commit_changes
    verify_ownership text_beq strip check_registered worktree_is_registered split_blocks registers
    value_of splitlines split_first texts_beq crosses_symlink normalise_relative_path path_for
    path_is_assigned pattern_admits strip_slashes class_split class_text fnmatch matches pieces
    ranges set_piece some_suffix takes as_posix begins match match_parts parse root_of ends_with
    is_space join split_on starts_with strip_left guarded_path bounded_text
escape_refused = refl

allowed : approve_check launcher worker (text "pytest" ∷ []) 60 ≡ ok tt
unfolding approve_check verify_ownership text_beq strip check_registered worktree_is_registered
    split_blocks registers value_of splitlines split_first texts_beq
allowed = refl

apply_file_patch-IsApproved_example :
    ((apply_file_patch world worker patch expected new_service).1.effects ≡ [])
    ⊎ (((apply_file_patch world worker patch expected new_service).1.effects
          ≡ [] ++ Effect.patch_applied patch ∷ [])
        × (paths : List Text) × IsApproved world worker patch expected paths)
apply_file_patch-IsApproved_example =
    apply_file_patch-IsApproved world worker patch expected new_service

run_check-IsAllowed_example :
    ((run_check launcher worker (text "pytest" ∷ []) 60 new_service).1.effects ≡ [])
    ⊎ ((cwd : Text) × ((run_check launcher worker (text "pytest" ∷ []) 60 new_service).1.effects
          ≡ [] ++ Effect.check_started cwd (text "pytest" ∷ []) ∷ [])
        × IsAllowed launcher worker cwd (text "pytest" ∷ []) 60)
run_check-IsAllowed_example =
    run_check-IsAllowed launcher worker (text "pytest" ∷ []) 60 new_service

run_check-reported_example :
    (run_check launcher worker (text "pytest" ∷ []) 60 new_service).0
    ≡ ok (reported launcher (text "pytest" ∷ []) process)
run_check-reported_example =
    run_check-reported launcher worker (text "pytest" ∷ []) 60 process new_service allowed refl

git_commit-IsInScope_example :
    ((git_commit repository worker (text "Fix it") new_service).1.effects ≡ [])
    ⊎ (IsCommitting
          (text "Fix it")
          []
          (git_commit repository worker (text "Fix it") new_service).1.effects
        × IsInScope repository worker (text "Fix it"))
git_commit-IsInScope_example = git_commit-IsInScope repository worker (text "Fix it") new_service

abbrev calls : List Call
calls =
    Call.trace machine (text "tdd") (some Phase.red) (some TraceStatus.completed) []
    ∷ Call.patch world patch expected
    ∷ Call.trace machine (text "grill") (some Phase.red) (some TraceStatus.completed) []
    ∷ Call.check launcher (text "pytest" ∷ []) 60
    ∷ Call.trace machine (text "tdd") (some Phase.green) (some TraceStatus.completed) []
    ∷ Call.commit repository (text "Fix it")
    ∷ []

traced : sequences (after_all worker calls new_service).skill_traces ≡ 1 ∷ 2 ∷ []
unfolding after_all record_skill_trace run_check approve_check apply_file_patch approve_patch
    utf8_length patch_paths paths_of_lines line_paths header_groups changed_line_count split_last
    check_file check_files check_hash expected_hash git_commit approve_commit check_scope
    status_paths paths_of_status commit_changes verify_ownership text_beq strip check_registered
    worktree_is_registered split_blocks registers value_of splitlines split_first texts_beq
    crosses_symlink normalise_relative_path path_for path_is_assigned pattern_admits strip_slashes
    class_split class_text fnmatch matches pieces ranges set_piece some_suffix takes as_posix begins
    match match_parts parse root_of ends_with is_space join split_on starts_with strip_left
    guarded_path bounded_text
traced = refl

after_all-skill_traces_example :
    IsRouted worker (after_all worker calls new_service).skill_traces
    × IsOrdered (sequences (after_all worker calls new_service).skill_traces)
after_all-skill_traces_example = after_all-skill_traces worker calls
