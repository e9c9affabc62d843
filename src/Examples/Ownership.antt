-- ===== src/Examples/Ownership.antt =====
-- A worktree whose ownership is verified.
use git_hub_issue_to_impleme.Prelude.{
  split_first, splitlines, ◌≡◌, refl, true, false, some, List, [], ◌∷◌, if◌then◌else◌, nat_eq, ◌==◌,
  pair_eq, Text, text, text_beq, text_eq, strip, ok,
}
use git_hub_issue_to_impleme.Examples.Data.{assignment}
use git_hub_issue_to_impleme.Guard.Ownership.{
  Machine, IsOwned, verify_ownership, verify_ownership-IsOwned, split_blocks, value_of, registers,
  worktree_is_registered, check_registered,
}

abbrev tree : Text
tree = text "/w/.chief/worktrees/worker-1"

-- Git's answer to a command, by the command's first word.
abbrev answers : List Text → Text
answers [] = []
answers (command ∷ words) =
    if command == text "rev-parse"
    then text "/w/.chief/worktrees/worker-1\n"
    else (if command == text "branch"
        then text "chief/r1/worker-1\n"
        else text
            "worktree /w\nHEAD abc\nbranch refs/heads/main\n\nworktree /w/.chief/worktrees/worker-1\nbranch refs/heads/chief/r1/worker-1\n")

abbrev pub machine : Machine
machine = record {
  expanduser = λ p. p;
  is_symlink = λ p. false;
  resolve = λ p. p;
  resolve_strict = λ p. some p;
  is_dir = λ p. true;
  git = λ path words. ok (record { succeeded = true; stdout = answers words; stderr = [] });
}

verified : verify_ownership machine assignment ≡ ok tree
unfolding verify_ownership check_registered worktree_is_registered registers value_of split_first
    splitlines split_blocks text_beq strip
verified = refl

verify_ownership-IsOwned_example : IsOwned machine assignment tree
verify_ownership-IsOwned_example = verify_ownership-IsOwned machine assignment verified
