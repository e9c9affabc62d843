-- ===== src/Gate.antt =====
-- src/agents/worker_protocol.py: Chief's decision about whether a WorkerResult followed the
-- process. A pair of a skill and a phase is compared as the two texts that the source compares.
pub mod Accept
use git_hub_issue_to_impleme.Prelude.{
  ℕ, ◌+◌, ◌-◌, Bool, true, false, ◌&&◌, Option, none, some, List, [], ◌∷◌, ◌++◌, map, leb,
  if◌then◌else◌, not, ◌==◌, nat_eq, pair_eq, is_empty, keep, contains, Text, text, text_eq, sort,
  ok, err,
}
use git_hub_issue_to_impleme.Schemas.Runtime.{
  WorkerAssignment, WorkerResult, WorkerStatus, SkillTrace, Phase, TraceStatus, has_commit,
}
use git_hub_issue_to_impleme.Guard.{path_is_assigned}

abbrev pub phase_text : Phase → Text
phase_text Phase.started = text "started"
phase_text Phase.red = text "red"
phase_text Phase.green = text "green"
phase_text Phase.reviewed = text "reviewed"
phase_text Phase.completed = text "completed"
phase_text Phase.failed = text "failed"

abbrev pub PhaseKey : Type 0
PhaseKey = Text × Text

abbrev pub required_worker_pipeline : List PhaseKey
required_worker_pipeline =
    (text "implement", text "started")
    ∷ (text "tdd", text "red")
    ∷ (text "tdd", text "green")
    ∷ (text "code-review", text "reviewed")
    ∷ []

pub record SkillTraceDecision : Type 0 where
  pub accepted : Bool
  pub missing_phases : List Text
  pub violations : List Text

abbrev pub is_completed : TraceStatus → Bool
is_completed TraceStatus.completed = true
is_completed _ = false

abbrev pub trace_key : SkillTrace → PhaseKey
trace_key t = (t.skill, phase_text t.phase)

-- The set `completed`, as a list.
unfoldable pub completed_keys : List SkillTrace → List PhaseKey
completed_keys traces = map trace_key (keep (λ t. is_completed t.status) traces)

abbrev pub key_text : PhaseKey → Text
key_text (skill, phase) = skill ++ text ":" ++ phase

unfoldable pub missing_phases : List SkillTrace → List Text
missing_phases traces =
    map key_text (keep (λ k. not (contains (completed_keys traces) k)) required_worker_pipeline)

-- `phase_sequences[key]`: of the completed traces with the key, the last one's sequence.
unfoldable pub phase_sequence : List SkillTrace → PhaseKey → Option ℕ
phase_sequence [] k = none
phase_sequence (t ∷ traces) k = elim (phase_sequence traces k) [
  | some n ↦ some n
  | none ↦ if is_completed t.status && trace_key t == k then some t.sequence else none
]

unfoldable pub found_sequences : List SkillTrace → List PhaseKey → List ℕ
found_sequences traces [] = []
found_sequences traces (k ∷ ks) = elim (phase_sequence traces k) [
  | none ↦ found_sequences traces ks
  | some n ↦ n ∷ found_sequences traces ks
]

abbrev pub is_complete_status : WorkerStatus → Bool
is_complete_status WorkerStatus.completed = true
is_complete_status _ = false

abbrev pub when : Bool → Text → List Text
when true m = m ∷ []
when false m = []

-- The `try` around `path_is_assigned`, all of whose errors are ValueErrors.
unfoldable pub in_scope : WorkerAssignment → Text → Bool
in_scope a path = elim (path_is_assigned a.assigned_paths path) [ ok b ↦ b | err e ↦ false ]

unfoldable pub scope_violations : WorkerAssignment → List Text → List Text
scope_violations a [] = []
scope_violations a (path ∷ paths) =
    when (not (in_scope a path)) (text "Changed file is outside assigned scope: " ++ path)
    ++ scope_violations a paths

unfoldable pub assignment_violations : WorkerResult → Option WorkerAssignment → List Text
assignment_violations r none = []
assignment_violations r (some a) =
    when (not (r.run_id == a.run_id)) (text "WorkerResult run does not match its assignment.")
    ++ (when (not (r.worker_id == a.worker_id))
          (text "WorkerResult worker does not match its assignment.")
        ++ (when (not (r.task_id == a.task_id))
              (text "WorkerResult task does not match its assignment.")
            ++ scope_violations a r.changed_files))

abbrev pub sequences : List SkillTrace → List ℕ
sequences = map (λ t. t.sequence)

-- `xs == sorted(xs)`
unfoldable pub is_sorted : List ℕ → Bool
is_sorted xs = xs == sort leb xs

unfoldable pub all_violations : WorkerResult → Option WorkerAssignment → List Text
all_violations r assignment =
    when (not (is_complete_status r.status)) (text "Only completed WorkerResults can be accepted.")
    ++ (assignment_violations r assignment
        ++ (when (not (is_sorted (sequences r.skill_trace)))
              (text "Skill trace sequence is not ordered.")
            ++ (when (not (is_sorted (found_sequences r.skill_trace required_worker_pipeline)))
                  (text "Required Skill trace phases are out of order.")
                ++ when (is_complete_status r.status && not (has_commit r.commit))
                    (text "A completed WorkerResult must include a commit."))))

-- `SkillTraceGate.check`
unfoldable pub check : WorkerResult → Option WorkerAssignment → SkillTraceDecision
check r assignment =
    let missing = missing_phases r.skill_trace in
    let violations = all_violations r assignment in
    record {
      accepted = is_empty missing && is_empty violations;
      missing_phases = missing;
      violations = violations;
    }
