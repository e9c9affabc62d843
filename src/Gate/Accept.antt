-- ===== src/Gate/Accept.antt =====
-- The gate accepts exactly the results that followed the process.
use git_hub_issue_to_impleme.Prelude.{
  ℕ, ◌≡◌, refl, sym, ap, ap₂, ◌∙◌, ◌↔◌, inl, inr, Bool, true, false, ◌&&◌, Option, none, some, List,
  [], ◌∷◌, ◌++◌, map, leb, not, Bool-cases, and_true, and_intro, ◌==◌, nat_eq, pair_eq, is_empty,
  all, keep, All, In, All-map, all_iff, contains, contains_iff, Text, text, text_beq_iff, text_eq,
  Result, ok-injective, sort, IsOrdered, sort-fixed, ok, err,
}
use git_hub_issue_to_impleme.Schemas.Runtime.{
  WorkerAssignment, WorkerResult, WorkerStatus, SkillTrace, has_commit,
}
use git_hub_issue_to_impleme.Guard.{path_is_assigned}
use git_hub_issue_to_impleme.Gate.{
  required_worker_pipeline, completed_keys, missing_phases, found_sequences, is_complete_status,
  in_scope, scope_violations, assignment_violations, sequences, is_sorted, all_violations, check,
  when, key_text,
}

-- The result belongs to the assignment, and changed only files of its scope.
abbrev pub Belongs : WorkerResult → Option WorkerAssignment → Type 0
Belongs r none = Unit
Belongs r (some a) =
    (r.run_id ≡ a.run_id)
    × (r.worker_id ≡ a.worker_id)
    × (r.task_id ≡ a.task_id)
    × All (λ path. path_is_assigned a.assigned_paths path ≡ ok true) r.changed_files

pub record FollowsProcess (r : WorkerResult) (assignment : Option WorkerAssignment) : Type 0 where
  pub phases : All (λ k. In k (completed_keys r.skill_trace)) required_worker_pipeline
  pub completed : r.status ≡ WorkerStatus.completed
  pub belongs : Belongs r assignment
  pub in_order : IsOrdered (sequences r.skill_trace)
  pub pipeline_in_order : IsOrdered (found_sequences r.skill_trace required_worker_pipeline)
  pub commit : has_commit r.commit ≡ true

pub is_empty-++ : {A : Type 0} (xs ys : List A) → is_empty (xs ++ ys) ≡ (is_empty xs && is_empty ys)
is_empty-++ [] ys = refl
is_empty-++ (x ∷ xs) ys = refl

is_empty-when : (b : Bool) (m : Text) → is_empty (when (not b) m) ≡ b
is_empty-when true m = refl
is_empty-when false m = refl

is_empty-map : {A B : Type 0} (f : A → B) (xs : List A) → is_empty (map f xs) ≡ is_empty xs
is_empty-map f [] = refl
is_empty-map f (x ∷ xs) = refl

is_empty-keep :
    {A : Type 0} (p : A → Bool) (xs : List A) → is_empty (keep (λ x. not (p x)) xs) ≡ all p xs
is_empty-keep p [] = refl
is_empty-keep p (x ∷ xs) = elim (Bool-cases (p x)) [
  | inl e ↦ rw e (is_empty-keep p xs)
  | inr e ↦ rw e
]

missing_lem :
    (traces : List SkillTrace)
    → is_empty (missing_phases traces)
      ≡ all (contains (completed_keys traces)) required_worker_pipeline
unfolding missing_phases
missing_lem traces =
    is_empty-map key_text _
    ∙ is_empty-keep (contains (completed_keys traces)) required_worker_pipeline

scope_lem :
    (a : WorkerAssignment) (paths : List Text)
    → is_empty (scope_violations a paths) ≡ all (in_scope a) paths
unfolding scope_violations
scope_lem a [] = refl
scope_lem a (path ∷ paths) =
    is_empty-++ (when (not (in_scope a path)) _) (scope_violations a paths)
    ∙ ap₂ (λ x y. x && y) (is_empty-when (in_scope a path) _) (scope_lem a paths)

assignment_lem :
    (r : WorkerResult) (a : WorkerAssignment)
    → is_empty (assignment_violations r (some a)) ≡ (
        r.run_id == a.run_id
        && (r.worker_id == a.worker_id
            && (r.task_id == a.task_id && all (in_scope a) r.changed_files)))
unfolding assignment_violations
assignment_lem r a = simp (is_empty-++, is_empty-when, scope_lem)

violations_lem :
    (r : WorkerResult) (assignment : Option WorkerAssignment)
    → is_empty (all_violations r assignment) ≡ (
        is_complete_status r.status
        && (is_empty (assignment_violations r assignment)
            && (is_sorted (sequences r.skill_trace)
                && (is_sorted (found_sequences r.skill_trace required_worker_pipeline)
                    && is_empty (
                        when
                          (is_complete_status r.status && not (has_commit r.commit))
                          (text "A completed WorkerResult must include a commit."))))))
unfolding all_violations
violations_lem r assignment = simp (is_empty-++, is_empty-when)

is_sorted_iff : (xs : List ℕ) → (is_sorted xs ≡ true) ↔ IsOrdered xs
unfolding is_sorted
is_sorted_iff xs = (
  λ e. (sort-fixed xs).0 (sym ((text_beq_iff xs (sort leb xs)).0 e)),
  λ o. (text_beq_iff xs (sort leb xs)).1 (sym ((sort-fixed xs).1 o)),
)

in_scope_iff :
    (a : WorkerAssignment) (path : Text)
    → (in_scope a path ≡ true) ↔ (path_is_assigned a.assigned_paths path ≡ ok true)
unfolding in_scope
in_scope_iff a path = ok_true_iff (path_is_assigned a.assigned_paths path)
  where
    ok_true_iff : (r : Result Bool) → (elim r [ ok b ↦ b | err e ↦ false ] ≡ true) ↔ (r ≡ ok true)
    ok_true_iff (ok b) = (λ h. ap ok h, λ h. ok-injective h)
    ok_true_iff (err e) = (λ h. cc, λ h. cc)

phases_iff :
    (traces : List SkillTrace)
    → (is_empty (missing_phases traces) ≡ true)
      ↔ All (λ k. In k (completed_keys traces)) required_worker_pipeline
phases_iff traces = (
  λ h.
      All-map _ _ required_worker_pipeline (λ k c. (contains_iff k (completed_keys traces)).0 c)
        ((all_iff (contains (completed_keys traces)) required_worker_pipeline).0
          (sym (missing_lem traces) ∙ h)),
  λ h.
      missing_lem traces
      ∙ (all_iff (contains (completed_keys traces)) required_worker_pipeline).1 (
          All-map _ _ required_worker_pipeline (λ k c. (contains_iff k (completed_keys traces)).1 c)
            h),
)

no_assignment_lem : (r : WorkerResult) → is_empty (assignment_violations r none) ≡ true
unfolding assignment_violations
no_assignment_lem r = refl

Belongs-iff :
    (r : WorkerResult) (assignment : Option WorkerAssignment)
    → (is_empty (assignment_violations r assignment) ≡ true) ↔ Belongs r assignment
Belongs-iff r none = (λ _. tt, λ _. no_assignment_lem r)
Belongs-iff r (some a) = (
  λ h.
      let (run, h1) = and_true (sym (assignment_lem r a) ∙ h) in
      let (worker, h2) = and_true h1 in
      let (task, scope) = and_true h2 in
      (
        (text_beq_iff r.run_id a.run_id).0 run,
        (text_beq_iff r.worker_id a.worker_id).0 worker,
        (text_beq_iff r.task_id a.task_id).0 task,
        All-map _ _ r.changed_files (λ path. (in_scope_iff a path).0)
            ((all_iff (in_scope a) r.changed_files).0 scope),
      ),
  λ h.
      assignment_lem r a
      ∙ and_intro ((text_beq_iff r.run_id a.run_id).1 h.0) (
          and_intro ((text_beq_iff r.worker_id a.worker_id).1 h.1) (
            and_intro ((text_beq_iff r.task_id a.task_id).1 h.2) (
              (all_iff (in_scope a) r.changed_files).1
                (All-map _ _ r.changed_files (λ path. (in_scope_iff a path).1) h.3)))),
)

status_iff : (s : WorkerStatus) → (is_complete_status s ≡ true) ↔ (s ≡ WorkerStatus.completed)
status_iff WorkerStatus.completed = (λ _. refl, λ _. refl)
status_iff WorkerStatus.failed = (λ h. cc, λ h. cc)
status_iff WorkerStatus.blocked = (λ h. cc, λ h. cc)

commit_lem :
    (done committed : Bool) (m : Text)
    → done ≡ true
    → is_empty (when (done && not committed) m) ≡ committed
commit_lem true committed m e = is_empty-when committed m
commit_lem false committed m e = cc

-- The gate accepts a result exactly when every required phase was traced as completed, the result
-- is completed and carries a commit, it belongs to the assignment that is given, if any, with all
-- its changed files in scope, and both the traces and the required phases are in order.
pub check_accepts_iff :
    (r : WorkerResult) (assignment : Option WorkerAssignment)
    → ((check r assignment).accepted ≡ true) ↔ FollowsProcess r assignment
unfolding check
check_accepts_iff r assignment = (
  λ h.
      let (phases, clean) = and_true h in
      let (done, h1) = and_true (sym (violations_lem r assignment) ∙ clean) in
      let (mine, h2) = and_true h1 in
      let (ordered, h3) = and_true h2 in
      let (pipeline, committed) = and_true h3 in
      record {
        phases = (phases_iff r.skill_trace).0 phases;
        completed = (status_iff r.status).0 done;
        belongs = (Belongs-iff r assignment).0 mine;
        in_order = (is_sorted_iff (sequences r.skill_trace)).0 ordered;
        pipeline_in_order =
            (is_sorted_iff (found_sequences r.skill_trace required_worker_pipeline)).0 pipeline;
        commit =
            sym (commit_lem (is_complete_status r.status) (has_commit r.commit) _ done) ∙ committed;
      },
  λ f.
      let done = (status_iff r.status).1 f.completed in
      and_intro ((phases_iff r.skill_trace).1 f.phases) (
        violations_lem r assignment
        ∙ and_intro done (
            and_intro ((Belongs-iff r assignment).1 f.belongs) (
              and_intro ((is_sorted_iff (sequences r.skill_trace)).1 f.in_order) (
                and_intro
                  ((is_sorted_iff (found_sequences r.skill_trace required_worker_pipeline)).1
                    f.pipeline_in_order)
                  (commit_lem (is_complete_status r.status) (has_commit r.commit) _ done
                    ∙ f.commit))))),
)
