-- ===== src/Schemas/Handoff.antt =====
-- src/schemas/runtime.py: `PlannerHandoff` and `IntegrationReport`. What `pathlib` asks of the
-- machine is a parameter: `expanduser` reads the home directory, `resolve` follows links.
use git_hub_issue_to_impleme.Prelude.{
  Text, text, Bool, ◌&&◌, not, is_empty, starts_with, List, Result, ok, err, Error, if◌then◌else◌,
  ◌>>◌, guard, true, false,
}
use git_hub_issue_to_impleme.Schemas.Approval.{Action, PlanApprovalDecision, decision_is_valid}
use git_hub_issue_to_impleme.Schemas.Issue.{IssueBrief}
use git_hub_issue_to_impleme.Schemas.Repository.{RepositoryMap}
use git_hub_issue_to_impleme.Schemas.Planning.{ImplementationPlan, plan_is_valid}

pub record Host : Type 0 where
  pub expanduser : Text → Text
  pub resolve : Text → Text

pub record PlannerHandoff : Type 0 where
  pub run_id : Text
  pub repository : Text
  pub repository_path : Text
  pub base_commit : Text
  pub issue_brief : IssueBrief
  pub repository_map : RepositoryMap
  pub implementation_plan : ImplementationPlan
  pub plan_approval : PlanApprovalDecision
  pub approved_checks : List (List Text)
  pub created_at : Text

abbrev is_approve : Action → Bool
is_approve Action.approve = true
is_approve _ = false

-- `repository_path_must_be_absolute`
unfoldable pub absolute_path : Host → Text → Result Text
unfolding starts_with
absolute_path host value =
    let path = host.expanduser value in
    if starts_with (text "/") path
    then ok (host.resolve path)
    else err (Error.value_error (text "repository_path must be absolute."))

-- `handoff_must_be_approved`
unfoldable pub handoff_is_approved : PlannerHandoff → Bool
handoff_is_approved h =
    is_approve h.plan_approval.action && h.implementation_plan.ready_for_approval

unfoldable pub handoff_fields_are_valid : PlannerHandoff → Bool
unfolding decision_is_valid plan_is_valid
handoff_fields_are_valid h =
    not (is_empty h.run_id)
    && not (is_empty h.repository)
    && not (is_empty h.repository_path)
    && not (is_empty h.base_commit)
    && plan_is_valid h.implementation_plan
    && decision_is_valid h.plan_approval
    && not (is_empty h.created_at)

-- `PlannerHandoff(...)`: the fields, the path validator and the model validator. Pydantic reports
-- whichever fails as one ValidationError.
unfoldable pub make_handoff : Host → PlannerHandoff → Result PlannerHandoff
unfolding absolute_path handoff_is_approved handoff_fields_are_valid
make_handoff host h = elim (absolute_path host h.repository_path) [
  | err e ↦ err Error.validation_error
  | ok path ↦ do
    guard (handoff_fields_are_valid h) Error.validation_error
    guard (handoff_is_approved h) Error.validation_error
    ok (record h { repository_path = path })
]

pub data ReportStatus : Type 0 where
  ready_for_human blocked : ReportStatus

pub record IntegrationReport : Type 0 where
  pub run_id : Text
  pub status : ReportStatus
  pub accepted_workers : List Text
  pub worker_commits : List (Text × Text)
  pub changed_files : List (Text × List Text)
  pub overlapping_files : List Text
  pub errors : List Text
  pub next_action : Text
