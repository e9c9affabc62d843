-- ===== src/Runtime/Service.antt =====
-- `record_skill_trace` of `RuntimeToolService`, and the texts that all its tools cut.
use git_hub_issue_to_impleme.Prelude.{
  ℕ, ◌+◌, Option, none, some, List, [], ◌∷◌, ◌++◌, leb, if◌then◌else◌, not, nat_eq, pair_eq, length,
  is_empty, take, contains, Text, text, text_eq, texts_eq, strip, Result, ok, err,
}
use git_hub_issue_to_impleme.Schemas.Runtime.{WorkerAssignment, SkillTrace, Phase, TraceStatus}
use git_hub_issue_to_impleme.Guard.Ownership.{Machine, verify_ownership}
use git_hub_issue_to_impleme.Gate.{phase_text}
use git_hub_issue_to_impleme.Runtime.Tool.{
  Detail, Tool, ◌>>=◌, ◌>>◌, lift, give, violation, require, record_event, add_trace,
}

abbrev pub max_process_output : ℕ
max_process_output = 12000

-- `_bounded_text`
unfoldable pub bounded_text : ℕ → Text → Text
bounded_text limit value =
    if leb (length value) limit
    then value
    else take limit value ++ text "\n... output truncated ..."

abbrev pub status_text : TraceStatus → Text
status_text TraceStatus.started = text "started"
status_text TraceStatus.completed = text "completed"
status_text TraceStatus.failed = text "failed"

-- What `SkillTrace(...)` makes of a phase and a status: `none` is a value that it refuses.
abbrev pub trace_of :
    ℕ → Text → Option Phase → Option TraceStatus → List (Text × Text) → Result SkillTrace
trace_of sequence skill none status evidence = err (violation (text "Invalid Skill trace"))
trace_of sequence skill (some phase) none evidence = err (violation (text "Invalid Skill trace"))
trace_of sequence skill (some phase) (some status) evidence = ok (record {
  sequence = sequence;
  skill = skill;
  phase = phase;
  status = status;
  evidence = evidence;
})

abbrev pub service_traces : Tool (List SkillTrace)
service_traces s = (ok s.skill_traces, s)

-- `record_skill_trace`; the text of the exception is left out of the message of an invalid trace.
unfoldable pub record_skill_trace :
    Machine
    → WorkerAssignment
    → Text
    → Option Phase
    → Option TraceStatus
    → List (Text × Text)
    → Tool SkillTrace
record_skill_trace machine a skill phase status evidence = do
  worktree ← lift (verify_ownership machine a)
  require (not (is_empty (strip skill))) (text "Skill name cannot be empty.")
  require (contains a.required_skills skill) (text "Skill is not in the assigned route: " ++ skill)
  traces ← service_traces
  trace ← lift (trace_of (length traces + 1) skill phase status evidence)
  add_trace trace
  record_event a.worker_id (text "skill_trace") (status_text trace.status) (
      (text "skill", Detail.str skill)
      ∷ (text "phase", Detail.str (phase_text trace.phase))
      ∷ (text "sequence", Detail.number trace.sequence)
      ∷ [])
  give trace
