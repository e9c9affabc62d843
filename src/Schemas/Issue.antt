-- ===== src/Schemas/Issue.antt =====
-- src/schemas/issue.py: the raw issue and the analyst's brief. Fields that the schema gives a
-- default are plain fields, since every construction fills them.
use git_hub_issue_to_impleme.Prelude.{ℕ, Text, Bool, ◌&&◌, not, leb, is_empty, List, Option}

pub record IssueComment : Type 0 where
  pub author : Text
  pub body : Text

pub record IssueInput : Type 0 where
  pub repository : Text
  pub number : ℕ
  pub title : Text
  pub body : Text
  pub labels : List Text
  pub comments : List IssueComment
  pub url : Option Text

-- `number > 0` and a title of at least one character.
unfoldable pub issue_input_is_valid : IssueInput → Bool
issue_input_is_valid i = leb 1 i.number && not (is_empty i.title)

pub data Severity : Type 0 where
  low medium high : Severity

pub record IssueRisk : Type 0 where
  pub folder : Option Text
  pub description : Text
  pub severity : Severity

pub record IssueBrief : Type 0 where
  pub summary : Text
  pub problem_statement : Text
  pub requirements : List Text
  pub acceptance_criteria : List Text
  pub in_scope : List Text
  pub out_of_scope : List Text
  pub assumptions : List Text
  pub open_questions : List Text
  pub risks : List IssueRisk
  pub is_actionable : Bool
  pub actionability_reason : Text
