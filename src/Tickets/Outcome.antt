-- ===== src/Tickets/Outcome.antt =====
-- Which handoffs `tasks_from_handoff` turns into tasks, and with what error it refuses the others.
use git_hub_issue_to_impleme.Prelude.{
  ℕ, suc, ◌+◌, ◌≤◌, ◌<◌, ◌≡◌, refl, ap, inl, inr, Bool, true, false, Option, some, List, [], ◌∷◌,
  map, arith, eqb, if◌then◌else◌, not, eqb_iff, Bool-cases, ◌==◌, nat_eq, pair_eq, length, is_empty,
  or_else, drop, All, All-map, is_empty-append, is_empty-append_left, Text, text, text_beq_iff,
  text_eq, Error, length-sort, ok, err, ◌++◌, decimal,
}
use git_hub_issue_to_impleme.Schemas.Planning.{ImplementationStep, step_is_valid, plan_is_valid}
use git_hub_issue_to_impleme.Schemas.Handoff.{PlannerHandoff}
use git_hub_issue_to_impleme.Schemas.Runtime.{WorkerTask, validate_task, task_is_valid}
use git_hub_issue_to_impleme.Tickets.{
  order_le, sort_steps, range, orders, step_task_id, task_id_of, dependency_ids, step_task,
  task_from_step, tasks_loop, tasks_from_handoff, step_description, default_skills,
  orders_not_contiguous,
}
use git_hub_issue_to_impleme.Tickets.Order.{
  head_or, IsEarlier, step_is_valid-IsEarlier, plan_steps_are_valid,
}

later-le : (k d : ℕ) {order : ℕ} → k ≤ d → order ≡ k → eqb order d ≡ false → suc k ≤ d
later-le k d p e n = ground arith

plan_steps_nonempty :
    (h : PlannerHandoff)
    → plan_is_valid h.implementation_plan ≡ true
    → is_empty h.implementation_plan.steps ≡ false
unfolding plan_is_valid
plan_steps_nonempty h v = ground arith

-- The dict has the id of every order that the steps are numbered with.
task_id_of-range :
    (run_id : Text) (k : ℕ) (steps : List ImplementationStep) (d : ℕ)
    → orders steps ≡ range k (length steps)
    → k ≤ d
    → d < k + length steps
    → task_id_of run_id steps d ≡ some (step_task_id run_id d)
unfolding task_id_of range
task_id_of-range run_id k [] d o p q = absurd (omega arith)
task_id_of-range run_id k (s ∷ steps) d o p q = elim (Bool-cases (eqb s.order d)) [
  | inl e ↦ rw e (ap (λ n. some (step_task_id run_id n)) ((eqb_iff s.order d).0 e))
  | inr n ↦ rw n (
      task_id_of-range run_id (suc k) steps d (ap (drop 1) o) (later-le k d p (ap (head_or 0) o) n)
        (omega arith))
]

validate_task-outcome :
    (t : WorkerTask) (refused : Bool)
    → task_is_valid t ≡ not refused
    → validate_task t ≡ (if refused then err Error.validation_error else ok t)
unfolding validate_task
validate_task-outcome t true e = rw e
validate_task-outcome t false e = rw e

module _ (h : PlannerHandoff) (s : ImplementationStep) where
  description-nonempty : is_empty (step_description h s) ≡ false
  unfolding step_description
  description-nonempty =
      is_empty-append_left _ _ (is_empty-append_left _ _ (is_empty-append s.description _ _))

  paths-nonempty : is_empty (or_else s.affected_files (text "src/**" ∷ [])) ≡ false
  paths-nonempty = elim (Bool-cases (is_empty s.affected_files)) [
    | inl e ↦ ground arith
    | inr e ↦ ground arith
  ]

  step_task_id-nonempty :
      (order : ℕ) → is_empty h.run_id ≡ false → is_empty (step_task_id h.run_id order) ≡ false
  unfolding step_task_id
  step_task_id-nonempty order r = is_empty-append_left _ _ (is_empty-append_left h.run_id _ r)

  -- A step's task is refused only for the want of acceptance criteria.
  step_task-is_valid :
      (ids : List Text)
      → is_empty h.run_id ≡ false
      → task_is_valid (step_task h (step_task_id h.run_id s.order) ids s)
        ≡ not (is_empty h.issue_brief.acceptance_criteria)
  unfolding task_is_valid step_task
  step_task-is_valid ids r =
      rw (r, step_task_id-nonempty s.order r, description-nonempty, paths-nonempty) (ground arith)

orders-below :
    (k : ℕ) (steps : List ImplementationStep)
    → orders steps ≡ range k (length steps)
    → All (λ s. s.order < k + length steps) steps
unfolding range
orders-below k [] o = tt
orders-below k (s ∷ steps) o =
    let this : s.order ≡ k = ap (head_or 0) o in
    (
      omega arith,
      All-map (λ t. t.order < suc k + length steps) (λ t. t.order < k + suc (length steps)) steps
          (λ t p. omega arith) (orders-below (suc k) steps (ap (drop 1) o)),
    )

-- The task that the loop makes of a step, with its dependencies spelled as task ids.
abbrev pub expected_task : PlannerHandoff → ImplementationStep → WorkerTask
expected_task h s = record {
  run_id = h.run_id;
  task_id = step_task_id h.run_id s.order;
  title = text "Step " ++ decimal s.order ++ text ": " ++ s.description;
  description = step_description h s;
  blocked_by = map (step_task_id h.run_id) s.depends_on;
  acceptance_criteria = h.issue_brief.acceptance_criteria;
  assigned_paths = or_else s.affected_files (text "src/**" ∷ []);
  required_checks = h.approved_checks;
  required_skills = default_skills;
}

module _ (h : PlannerHandoff) (all_steps : List ImplementationStep)
    (contiguous : orders all_steps ≡ range 1 (length all_steps))
    (named : is_empty h.run_id ≡ false) where
  abbrev find : ℕ → Option Text
  find = task_id_of h.run_id all_steps

  dependency_ids-found :
      (order : ℕ) (ds : List ℕ)
      → order < 1 + length all_steps
      → All (IsEarlier order) ds
      → dependency_ids find ds ≡ ok (map (step_task_id h.run_id) ds)
  unfolding dependency_ids
  dependency_ids-found order [] b v = refl
  dependency_ids-found order (d ∷ ds) b v = rw (
    task_id_of-range h.run_id 1 all_steps d contiguous v.0.0 (omega arith),
    dependency_ids-found order ds b v.1,
  )

  task_from_step-outcome :
      (s : ImplementationStep)
      → step_is_valid s ≡ true
      → s.order < 1 + length all_steps
      → task_from_step h find s ≡ (
          if is_empty h.issue_brief.acceptance_criteria
          then err Error.validation_error
          else ok (expected_task h s))
  unfolding task_from_step step_task
  task_from_step-outcome s v b =
      rw (dependency_ids-found s.order s.depends_on b (step_is_valid-IsEarlier s v)) (
        validate_task-outcome (expected_task h s) (is_empty h.issue_brief.acceptance_criteria)
          (step_task-is_valid h s (map (step_task_id h.run_id) s.depends_on) named))

  tasks_loop-made :
      (steps : List ImplementationStep)
      → All (λ s. step_is_valid s ≡ true) steps
      → All (λ s. s.order < 1 + length all_steps) steps
      → is_empty h.issue_brief.acceptance_criteria ≡ false
      → tasks_loop h find steps ≡ ok (map (expected_task h) steps)
  unfolding tasks_loop
  tasks_loop-made [] v b c = refl
  tasks_loop-made (s ∷ steps) v b c =
      simp (task_from_step-outcome s v.0 b.0, tasks_loop-made steps v.1 b.1 c) (rw c)

  tasks_loop-refused :
      (steps : List ImplementationStep)
      → is_empty steps ≡ false
      → All (λ s. step_is_valid s ≡ true) steps
      → All (λ s. s.order < 1 + length all_steps) steps
      → is_empty h.issue_brief.acceptance_criteria ≡ true
      → tasks_loop h find steps ≡ err Error.validation_error
  unfolding tasks_loop
  tasks_loop-refused [] ne v b c = cc
  tasks_loop-refused (s ∷ steps) ne v b c = rw (task_from_step-outcome s v.0 b.0) (rw c)

is_empty-length :
    {A : Type 0} (xs ys : List A)
    → length xs ≡ length ys
    → is_empty ys ≡ false
    → is_empty xs ≡ false
is_empty-length xs [] l e = cc
is_empty-length [] (y ∷ ys) l e = absurd (omega arith)
is_empty-length (x ∷ xs) (y ∷ ys) l e = refl

-- For a handoff whose plan is valid and whose run id is not empty, `tasks_from_handoff` refuses
-- orders that are not 1, 2, ... once sorted; then it refuses, as a ValidationError, a brief with no
-- acceptance criteria; and in every other case it returns one task for each step, in the order of
-- the steps, blocked by the tasks of the steps that the step depends on. The error for a missing
-- dependency is never returned.
pub tasks_from_handoff-outcome :
    (h : PlannerHandoff)
    → plan_is_valid h.implementation_plan ≡ true
    → is_empty h.run_id ≡ false
    → tasks_from_handoff h ≡ (
        let steps = sort_steps h.implementation_plan.steps in
        if orders steps == range 1 (length steps)
        then (if is_empty h.issue_brief.acceptance_criteria
            then err Error.validation_error
            else ok (map (expected_task h) steps))
        else err orders_not_contiguous)
unfolding tasks_from_handoff
tasks_from_handoff-outcome h v named = elim (Bool-cases (orders steps == range 1 (length steps))) [
  | inr n ↦ rw n
  | inl e ↦
      let o = (text_beq_iff (orders steps) (range 1 (length steps))).0 e in
      rw e (elim (Bool-cases (is_empty h.issue_brief.acceptance_criteria)) [
        | inl c ↦
            rw c
              (tasks_loop-refused h steps o named steps some_step valid (orders-below 1 steps o) c)
        | inr c ↦ rw c (tasks_loop-made h steps o named steps valid (orders-below 1 steps o) c)
      ])
]
  where
    steps : List ImplementationStep
    steps = sort_steps h.implementation_plan.steps

    valid : All (λ s. step_is_valid s ≡ true) steps
    valid = plan_steps_are_valid h v

    some_step : is_empty steps ≡ false
    some_step =
        is_empty-length steps h.implementation_plan.steps
          (length-sort order_le h.implementation_plan.steps) (plan_steps_nonempty h v)
