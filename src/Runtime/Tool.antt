-- ===== src/Runtime/Tool.antt =====
-- A call of one tool: the service that the worker holds, and what was done to the machine. The
-- service comes back after a raise too, since what was done stays done.
use git_hub_issue_to_impleme.Prelude.{
  ℕ, Bool, List, [], ◌∷◌, ◌++◌, nat_eq, pair_eq, Text, text_eq, texts_eq, Error, Result, guard, ok,
  err,
}
use git_hub_issue_to_impleme.Schemas.Runtime.{SkillTrace}

-- The values in the details of an audit event. An exit code is a number, or the signal that
-- killed the process.
pub data Detail : Type 0 where
  str : Text → Detail
  strs : List Text → Detail
  number : ℕ → Detail
  signal : ℕ → Detail
  missing : Detail

pub record AuditEvent : Type 0 where
  pub event_type : Text
  pub status : Text
  pub worker_id : Text
  pub details : List (Text × Detail)

-- What a tool does to the worktree or starts in it.
pub data Effect : Type 0 where
  patch_applied : Text → Effect
  -- the working directory, and the command
  check_started : Text → List Text → Effect
  files_added : Effect
  committed : Text → Effect

-- `audit_events` and `skill_traces` of the service, and what it has had done, in order.
pub record Service : Type 0 where
  pub audit_events : List AuditEvent
  pub skill_traces : List SkillTrace
  pub effects : List Effect

abbrev pub new_service : Service
new_service = record { audit_events = []; skill_traces = []; effects = [] }

abbrev pub Tool : Type 0 → Type 0
Tool A = Service → Result A × Service

abbrev pub proceed : {A B : Type 0} → Result A × Service → (A → Tool B) → Result B × Service
proceed (ok a, s) next = next a s
proceed (err e, s) next = (err e, s)

infixl 5 ◌>>=◌ ◌>>◌
abbrev pub ◌>>=◌ : {A B : Type 0} → Tool A → (A → Tool B) → Tool B
◌>>=◌ first next s = proceed (first s) next

abbrev pub ◌>>◌ : {B : Type 0} → Tool (Unit {0}) → Tool B → Tool B
first >> next = first >>= λ _. next

-- What does not touch the service.
abbrev pub lift : {A : Type 0} → Result A → Tool A
lift r s = (r, s)

abbrev pub give : {A : Type 0} → A → Tool A
give a s = (ok a, s)

abbrev pub violation : Text → Error
violation message = Error.tool_violation message

abbrev pub require : Bool → Text → Tool (Unit {0})
require b message = lift (guard b (violation message))

-- A command that changes something, with what it answers.
abbrev pub act : {A : Type 0} → Effect → Result A → Tool A
act e r s = (r, record s { effects = s.effects ++ e ∷ [] })

-- `_record`
abbrev pub record_event : Text → Text → Text → List (Text × Detail) → Tool (Unit {0})
record_event worker_id event_type status details s = (
  ok tt,
  record s {
    audit_events =
        s.audit_events
        ++ record {
          event_type = event_type;
          status = status;
          worker_id = worker_id;
          details = details;
        }
          ∷ [];
  },
)

abbrev pub add_trace : SkillTrace → Tool (Unit {0})
add_trace t s = (ok tt, record s { skill_traces = s.skill_traces ++ t ∷ [] })
