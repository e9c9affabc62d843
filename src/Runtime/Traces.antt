-- ===== src/Runtime/Traces.antt =====
-- The Skill traces that a worker's calls leave in the service.
use git_hub_issue_to_impleme.Prelude.{
  ℕ, suc, ◌+◌, ◌≡◌, refl, sym, ap, subst, ◌⊎◌, inl, inr, Option, none, some, List, [], ◌∷◌, ◌++◌,
  arith, not, Bool-cases, nat_eq, pair_eq, length, is_empty, All, In, All-append, contains,
  contains_iff, Text, text_eq, texts_eq, strip, Result, guard, ok-injective, err≢ok, Result-cases,
  IsOrdered, ok, err,
}
use git_hub_issue_to_impleme.Schemas.Runtime.{WorkerAssignment, SkillTrace, Phase, TraceStatus}
use git_hub_issue_to_impleme.Gate.{sequences}
use git_hub_issue_to_impleme.Guard.Ownership.{Machine, verify_ownership}
use git_hub_issue_to_impleme.Runtime.Tool.{Service, new_service, Tool, proceed}
use git_hub_issue_to_impleme.Runtime.Service.{record_skill_trace, trace_of}
use git_hub_issue_to_impleme.Runtime.Approval.{World, approve_patch}
use git_hub_issue_to_impleme.Runtime.Patch.{apply_file_patch}
use git_hub_issue_to_impleme.Runtime.Check.{Launcher, approve_check, working_directory}
use git_hub_issue_to_impleme.Runtime.Run.{run_check}
use git_hub_issue_to_impleme.Runtime.Scope.{Repository, approve_commit}
use git_hub_issue_to_impleme.Runtime.Git.{
  current_branch, git_status, git_diff, commit_paths, commit_changes, git_commit,
}
use git_hub_issue_to_impleme.Runtime.Calls.{Call, after, after_all}

-- A step that answers `r` and keeps the traces keeps them with its continuation.
kept :
    {A B : Type 0} (r : Result A) {s : Service} (next : A → Tool B) {traces : List SkillTrace}
    → (s.skill_traces ≡ traces)
    → ((a : A) → (next a s).1.skill_traces ≡ traces)
    → (proceed (r, s) next).1.skill_traces ≡ traces
kept (ok a) next same later = later a
kept (err e) next same later = same

branch-kept :
    {B : Type 0} (repository : Repository) (s : Service) (next : Text → Tool B)
    {traces : List SkillTrace}
    → (s.skill_traces ≡ traces)
    → ((branch : Text) (s' : Service)
        → s'.skill_traces ≡ traces
        → (next branch s').1.skill_traces ≡ traces)
    → (proceed (current_branch repository s) next).1.skill_traces ≡ traces
branch-kept repository s next same later = elim (Result-cases repository.branch) [
  | inl (e, failed) ↦ rw failed same
  | inr (answer, ran) ↦ rw ran (later (strip answer.stdout) s same)
]

apply_file_patch-kept :
    (world : World) (a : WorkerAssignment) (patch : Text) (expected : List (Text × Option Text))
    (s : Service)
    → (apply_file_patch world a patch expected s).1.skill_traces ≡ s.skill_traces
unfolding apply_file_patch
apply_file_patch-kept world a patch expected s =
    kept (approve_patch world a patch expected) _ refl λ changed.
      kept (world.apply_patch patch) _ refl
        λ applied. kept (guard applied.succeeded _) _ refl λ _. refl

run_check-kept :
    (launcher : Launcher) (a : WorkerAssignment) (argv : List Text) (timeout_seconds : ℕ)
    (s : Service)
    → (run_check launcher a argv timeout_seconds s).1.skill_traces ≡ s.skill_traces
unfolding run_check
run_check-kept launcher a argv timeout_seconds s =
    kept (approve_check launcher a argv timeout_seconds) _ refl
      λ _. kept (launcher.start (working_directory launcher a) argv) _ refl λ process. refl

git_status-kept :
    (repository : Repository) (a : WorkerAssignment) (s : Service)
    → (git_status repository a s).1.skill_traces ≡ s.skill_traces
unfolding git_status
git_status-kept repository a s = kept (verify_ownership repository.machine a) _ refl λ _.
    kept repository.status _ refl λ answer.
      kept (guard answer.succeeded _) _ refl
        λ _. branch-kept repository _ _ refl λ branch s same. same

git_diff-kept :
    (repository : Repository) (a : WorkerAssignment) (s : Service)
    → (git_diff repository a s).1.skill_traces ≡ s.skill_traces
unfolding git_diff
git_diff-kept repository a s =
    kept (verify_ownership repository.machine a) _ refl
      λ _. kept repository.diff _ refl λ answer. kept (guard answer.succeeded _) _ refl λ _. refl

commit_paths-kept :
    (repository : Repository) (a : WorkerAssignment) (message : Text) (paths : List Text)
    (s : Service)
    → (commit_paths repository a message paths s).1.skill_traces ≡ s.skill_traces
unfolding commit_changes
commit_paths-kept repository a message [] s = branch-kept repository _ _ refl λ branch s same. same
commit_paths-kept repository a message (path ∷ paths) s = kept repository.add _ refl λ added.
    kept (guard added.succeeded _) _ refl λ _. kept (repository.commit message) _ refl λ committed.
      kept (guard committed.succeeded _) _ refl λ _.
        kept repository.revision _ refl
          λ revision. branch-kept repository _ _ refl λ branch s same. same

git_commit-kept :
    (repository : Repository) (a : WorkerAssignment) (message : Text) (s : Service)
    → (git_commit repository a message s).1.skill_traces ≡ s.skill_traces
unfolding git_commit
git_commit-kept repository a message s =
    kept (approve_commit repository a message) _ refl
      λ paths. commit_paths-kept repository a message paths s

-- Each trace has the number of its place, counted from `n`.
abbrev pub IsNumbered : ℕ → List SkillTrace → Type 0
IsNumbered n [] = Unit
IsNumbered n (t ∷ traces) = (t.sequence ≡ n) × IsNumbered (suc n) traces

-- Traces of skills that the assignment routes, each with the number of its place from 1.
abbrev pub IsRouted : WorkerAssignment → List SkillTrace → Type 0
IsRouted a traces = IsNumbered 1 traces × All (λ t. In t.skill a.required_skills) traces

IsNumbered-append :
    (n : ℕ) (traces : List SkillTrace) (t : SkillTrace)
    → IsNumbered n traces
    → t.sequence ≡ length traces + n
    → IsNumbered n (traces ++ t ∷ [])
IsNumbered-append n [] t _ e = (omega arith, tt)
IsNumbered-append n (u ∷ traces) t (first, rest) e =
    (first, IsNumbered-append (suc n) traces t rest (omega arith))

-- The trace that a record adds: of a routed skill, and with the next number.
abbrev IsNext : WorkerAssignment → Service → SkillTrace → Type 0
IsNext a s t = (t.sequence ≡ length s.skill_traces + 1) × In t.skill a.required_skills

trace_of-eq-ok :
    (n : ℕ) (skill : Text) (phase : Option Phase) (status : Option TraceStatus)
    (evidence : List (Text × Text)) {t : SkillTrace}
    → trace_of n skill phase status evidence ≡ ok t
    → (t.sequence ≡ n) × (t.skill ≡ skill)
trace_of-eq-ok n skill none status evidence e = absurd (err≢ok e)
trace_of-eq-ok n skill (some phase) none evidence e = absurd (err≢ok e)
trace_of-eq-ok n skill (some phase) (some status) evidence e =
    (sym (ap (λ t. t.sequence) (ok-injective e)), sym (ap (λ t. t.skill) (ok-injective e)))

record_skill_trace-IsNext :
    (machine : Machine) (a : WorkerAssignment) (skill : Text) (phase : Option Phase)
    (status : Option TraceStatus) (evidence : List (Text × Text)) (s : Service)
    → ((record_skill_trace machine a skill phase status evidence s).1.skill_traces ≡ s.skill_traces)
      ⊎ ((t : SkillTrace) × ((record_skill_trace machine a skill phase status evidence
              s).1.skill_traces
            ≡ s.skill_traces ++ t ∷ [])
          × IsNext a s t)
unfolding record_skill_trace
record_skill_trace-IsNext machine a skill phase status evidence s =
    elim (Result-cases (verify_ownership machine a)) [
      | inl (e, refused) ↦ inl (rw refused)
      | inr (worktree, owned) ↦ elim (Bool-cases (not (is_empty (strip skill)))) [
        | inr unnamed ↦ inl (rw (owned, unnamed))
        | inl named ↦ elim (Bool-cases (contains a.required_skills skill)) [
          | inr other ↦ inl (rw (owned, named, other))
          | inl routed ↦
              elim (Result-cases
                (trace_of (length s.skill_traces + 1) skill phase status evidence)) [
                  | inl (e, invalid) ↦ inl (rw (owned, named, routed, invalid))
                  | inr (t, made) ↦ inr (
                    t,
                    rw (owned, named, routed, made),
                    let (numbered, same) =
                          trace_of-eq-ok (length s.skill_traces + 1) skill phase status evidence
                            made in
                        (
                          numbered,
                          subst (λ x. In x a.required_skills) (sym same)
                              ((contains_iff skill a.required_skills).0 routed),
                        ),
                  )
                ]
        ]
      ]
    ]

after-IsRouted :
    (a : WorkerAssignment) (call : Call) (s : Service)
    → IsRouted a s.skill_traces
    → IsRouted a (after a call s).skill_traces
after-IsRouted a (Call.patch world t expected) s h =
    subst (IsRouted a) (sym (apply_file_patch-kept world a t expected s)) h
after-IsRouted a (Call.check launcher argv timeout_seconds) s h =
    subst (IsRouted a) (sym (run_check-kept launcher a argv timeout_seconds s)) h
after-IsRouted a (Call.status repository) s h =
    subst (IsRouted a) (sym (git_status-kept repository a s)) h
after-IsRouted a (Call.diff repository) s h =
    subst (IsRouted a) (sym (git_diff-kept repository a s)) h
after-IsRouted a (Call.commit repository message) s h =
    subst (IsRouted a) (sym (git_commit-kept repository a message s)) h
after-IsRouted a (Call.trace machine skill phase outcome evidence) s (numbered, routed) =
    elim (record_skill_trace-IsNext machine a skill phase outcome evidence s) [
      | inl same ↦ subst (IsRouted a) (sym same) (numbered, routed)
      | inr (t, added, next) ↦ subst (IsRouted a) (sym added) (
        IsNumbered-append 1 s.skill_traces t numbered next.0,
        All-append (λ t. In t.skill a.required_skills) s.skill_traces (t ∷ []) routed (next.1, tt),
      )
    ]

after_all-IsRouted :
    (a : WorkerAssignment) (calls : List Call) (s : Service)
    → IsRouted a s.skill_traces
    → IsRouted a (after_all a calls s).skill_traces
unfolding after_all
after_all-IsRouted a [] s h = h
after_all-IsRouted a (call ∷ calls) s h =
    after_all-IsRouted a calls (after a call s) (after-IsRouted a call s h)

IsNumbered-IsOrdered :
    (n : ℕ) (traces : List SkillTrace) → IsNumbered n traces → IsOrdered (sequences traces)
IsNumbered-IsOrdered n [] h = tt
IsNumbered-IsOrdered n (t ∷ []) h = (tt, tt)
IsNumbered-IsOrdered n (t ∷ u ∷ traces) (first, rest) =
    let second = rest.0 in (omega arith, IsNumbered-IsOrdered (suc n) (u ∷ traces) rest)

-- After any calls of the tools of a new service, in any order and whether they return or raise,
-- every Skill trace of the service is of a skill that the assignment routes and has the number of
-- its place, counted from 1; so their sequence is in the order that the Skill trace gate asks for.
pub after_all-skill_traces :
    (a : WorkerAssignment) (calls : List Call)
    → IsRouted a (after_all a calls new_service).skill_traces
      × IsOrdered (sequences (after_all a calls new_service).skill_traces)
after_all-skill_traces a calls =
    let h = after_all-IsRouted a calls new_service (tt, tt) in (h, IsNumbered-IsOrdered 1 _ h.0)
