-- ===== src/Schemas/Approval.antt =====
-- src/schemas/approval.py: the human's decision about a plan, and its validator.
use git_hub_issue_to_impleme.Prelude.{
  Text, Bool, true, false, not, is_empty, strip, Option, none, some, Result, ok, err, Error,
  if◌then◌else◌,
}

pub data Action : Type 0 where
  approve request_changes cancel : Action

pub record PlanApprovalDecision : Type 0 where
  pub action : Action
  pub feedback : Option Text

-- `feedback and feedback.strip()`, as a truth value
unfoldable pub has_feedback : Option Text → Bool
unfolding strip
has_feedback none = false
has_feedback (some t) = not (is_empty (strip t))

-- `requested_changes_require_feedback`
unfoldable pub decision_is_valid : PlanApprovalDecision → Bool
unfolding has_feedback
decision_is_valid d = elim d.action [ Action.request_changes ↦ has_feedback d.feedback | _ ↦ true ]

unfoldable pub validate_decision : PlanApprovalDecision → Result PlanApprovalDecision
unfolding decision_is_valid
validate_decision d = if decision_is_valid d then ok d else err Error.validation_error
