-- ===== src/Schemas/Repository.antt =====
-- src/schemas/repository.py: the explorer's findings.
use git_hub_issue_to_impleme.Prelude.{Text, List}
use git_hub_issue_to_impleme.Schemas.Issue.{Severity}

pub record RelevantFile : Type 0 where
  pub path : Text
  pub reason : Text
  pub important_symbols : List Text

pub record RepositoryRisk : Type 0 where
  pub description : Text
  pub severity : Severity

pub record RepositoryMap : Type 0 where
  pub summary : Text
  pub relevant_files : List RelevantFile
  pub coding_conventions : List Text
  pub related_tests : List Text
  pub suggested_tests : List Text
  pub risks : List RepositoryRisk
  pub open_questions : List Text
