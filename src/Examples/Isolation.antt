-- ===== src/Examples/Isolation.antt =====
-- A worktree for one worker.
use git_hub_issue_to_impleme.Prelude.{
  ◌≡◌, refl, true, false, [], ◌∷◌, nat_eq, pair_eq, text, text_beq, text_eq, split_on, ok,
}
use git_hub_issue_to_impleme.Schemas.Runtime.{ProviderName, assignment_is_valid}
use git_hub_issue_to_impleme.Worktrees.{
  Git, Request, is_identifier_char, is_identifier, is_task_identifier, branch_of, worktree_path_of,
  provider_named, assignment_for, create_assignment,
}
use git_hub_issue_to_impleme.Worktrees.Distinct.{
  IsIsolated, create_assignment-IsIsolated, branch_of-injective,
}

-- A repository in which every command goes through, and nothing is there yet.
abbrev git : Git
git = record {
  verify_commit = λ commit. ok tt;
  path_exists = λ path. false;
  add_worktree = λ branch path commit. ok tt;
}

abbrev request : Request
request = record {
  run_id = text "r1";
  task_id = text "r1/step-1";
  worker_id = text "worker-1";
  base_commit = text "abc";
  assigned_paths = text "src/**" ∷ [];
  approved_checks = [];
  required_skills = [];
  provider = text "codex";
  timeout_seconds = 3600;
}

created :
    create_assignment git (text "/w") request
    ≡ ok (assignment_for (text "/w") request ProviderName.codex)
unfolding create_assignment is_identifier is_identifier_char is_task_identifier split_on text_beq
    provider_named assignment_for assignment_is_valid worktree_path_of branch_of
created = refl

create_assignment-IsIsolated_example :
    IsIsolated git (text "/w") request (assignment_for (text "/w") request ProviderName.codex)
create_assignment-IsIsolated_example = create_assignment-IsIsolated git (text "/w") request created

named : (is_identifier (text "r1") ≡ true) × (is_identifier (text "worker-1") ≡ true)
unfolding is_identifier is_identifier_char
named = (refl, refl)

branch_of-injective_example : (text "r1" ≡ text "r1") × (text "worker-1" ≡ text "worker-1")
branch_of-injective_example =
    branch_of-injective (text "r1") (text "worker-1") (text "r1") (text "worker-1") named.0 named.1
      named.0 named.1 refl
