-- ===== src/Schemas/Planning.antt =====
-- src/schemas/planning.py: the implementation plan and its validators. Step orders are integers
-- of at least 1; a natural number stands for them, and 0 for all that the bound rejects.
use git_hub_issue_to_impleme.Prelude.{
  ℕ, nat_eq, Text, Bool, true, ◌&&◌, ◌||◌, not, leb, ltb, is_empty, List, [], ◌∷◌, any, all,
  contains, Option, Result, ok, err, Error, if◌then◌else◌,
}

pub record ImplementationStep : Type 0 where
  pub order : ℕ
  pub description : Text
  pub affected_files : List Text
  pub rationale : Text
  pub depends_on : List ℕ

-- `len(set(xs)) == len(xs)`
unfoldable pub is_unique : List ℕ → Bool
is_unique [] = true
is_unique (x ∷ xs) = not (contains xs x) && is_unique xs

-- `order >= 1` and `dependencies_must_be_earlier_steps`
unfoldable pub step_is_valid : ImplementationStep → Bool
unfolding is_unique
step_is_valid s =
    leb 1 s.order
    && is_unique s.depends_on
    && not (any (λ d. leb s.order d || ltb d 1) s.depends_on)

pub data TestType : Type 0 where
  unit integration end_to_end : TestType

pub record PlannedTest : Type 0 where
  pub description : Text
  pub test_type : TestType
  pub target_file : Option Text

pub record ImplementationPlan : Type 0 where
  pub summary : Text
  pub approach : Text
  pub steps : List ImplementationStep
  pub planned_tests : List PlannedTest
  pub risks : List Text
  pub assumptions : List Text
  pub blocking_questions : List Text
  pub ready_for_approval : Bool

-- At least one step, each valid, and `ready_plans_cannot_have_blocking_questions`.
unfoldable pub plan_is_valid : ImplementationPlan → Bool
unfolding step_is_valid
plan_is_valid p =
    not (is_empty p.steps)
    && all step_is_valid p.steps
    && not (p.ready_for_approval && not (is_empty p.blocking_questions))

unfoldable pub validate_plan : ImplementationPlan → Result ImplementationPlan
unfolding plan_is_valid
validate_plan p = if plan_is_valid p then ok p else err Error.validation_error
