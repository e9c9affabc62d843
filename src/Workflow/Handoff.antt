-- ===== src/Workflow/Handoff.antt =====
-- src/agents/handoff.py: the state of a run, exported as a handoff to Chief.
use git_hub_issue_to_impleme.Prelude.{
  Option, none, some, List, [], ◌∷◌, ◌++◌, nat_eq, pair_eq, Text, text, text_eq, join, Error,
  Result, ◌>>=◌, ◌>>◌, guard, or_raise,
}
use git_hub_issue_to_impleme.Schemas.Issue.{issue_input_is_valid}
use git_hub_issue_to_impleme.Schemas.Handoff.{Host, PlannerHandoff, make_handoff}
use git_hub_issue_to_impleme.Workflow.State.{AgentState}

-- `a or b` on texts that may be missing
abbrev pub or_text : Option Text → Text → Text
or_text none d = d
or_text (some []) d = d
or_text (some (c ∷ t)) d = c ∷ t

abbrev key_if_missing {ℓ} : {A : Type ℓ} → Text → Option A → List Text
key_if_missing key none = key ∷ []
key_if_missing key (some a) = []

-- The required keys that the state lacks; `issue` is never one of them.
unfoldable pub missing_keys : AgentState → List Text
missing_keys s =
    key_if_missing (text "issue_brief") s.issue_brief
    ++ key_if_missing (text "repository_map") s.repository_map
    ++ key_if_missing (text "implementation_plan") s.implementation_plan
    ++ key_if_missing (text "plan_approval") s.plan_approval

abbrev pub state_is_missing : List Text → Error
state_is_missing keys =
    Error.value_error (text "Planner state is missing: " ++ join (text ", ") keys)

-- `build_planner_handoff`. The run and thread ids stand beside the state, to which `RunService`
-- adds them; `created_at` is the caller's or else the clock's.
unfoldable pub build_planner_handoff :
    Host
    → Option Text
    → Option Text
    → AgentState
    → Text
    → Option Text
    → Text
    → Result PlannerHandoff
build_planner_handoff host run_id thread_id s base_commit created_at now = do
  brief ← or_raise s.issue_brief (state_is_missing (missing_keys s))
  repository_map ← or_raise s.repository_map (state_is_missing (missing_keys s))
  plan ← or_raise s.implementation_plan (state_is_missing (missing_keys s))
  approval ← or_raise s.plan_approval (state_is_missing (missing_keys s))
  guard (issue_input_is_valid s.issue) Error.validation_error
  make_handoff host (record {
    run_id = or_text run_id (or_text thread_id (text "planner-run"));
    repository = s.issue.repository;
    repository_path = s.repository_path;
    base_commit = base_commit;
    issue_brief = brief;
    repository_map = repository_map;
    implementation_plan = plan;
    plan_approval = approval;
    approved_checks = [];
    created_at = or_text created_at now;
  })
