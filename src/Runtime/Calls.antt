-- ===== src/Runtime/Calls.antt =====
-- The calls that a worker makes of its tools, one after another: the edit lock and the agent's
-- loop let one run at a time.
use git_hub_issue_to_impleme.Prelude.{
  ℕ, Option, List, [], ◌∷◌, nat_eq, pair_eq, Text, text_eq, texts_eq,
}
use git_hub_issue_to_impleme.Schemas.Runtime.{WorkerAssignment, Phase, TraceStatus}
use git_hub_issue_to_impleme.Guard.Ownership.{Machine}
use git_hub_issue_to_impleme.Runtime.Tool.{Service}
use git_hub_issue_to_impleme.Runtime.Service.{record_skill_trace}
use git_hub_issue_to_impleme.Runtime.Approval.{World}
use git_hub_issue_to_impleme.Runtime.Patch.{apply_file_patch}
use git_hub_issue_to_impleme.Runtime.Check.{Launcher}
use git_hub_issue_to_impleme.Runtime.Run.{run_check}
use git_hub_issue_to_impleme.Runtime.Scope.{Repository}
use git_hub_issue_to_impleme.Runtime.Git.{git_status, git_diff, git_commit}

-- One tool with its arguments and the machine as the call finds it.
pub data Call : Type 0 where
  patch : World → Text → List (Text × Option Text) → Call
  check : Launcher → List Text → ℕ → Call
  status : Repository → Call
  diff : Repository → Call
  commit : Repository → Text → Call
  trace : Machine → Text → Option Phase → Option TraceStatus → List (Text × Text) → Call

-- The service after a call; what the call returns or raises goes to the worker.
abbrev pub after : WorkerAssignment → Call → Service → Service
after a (patch world t expected) s = (apply_file_patch world a t expected s).1
after a (check launcher argv timeout_seconds) s = (run_check launcher a argv timeout_seconds s).1
after a (status repository) s = (git_status repository a s).1
after a (diff repository) s = (git_diff repository a s).1
after a (commit repository message) s = (git_commit repository a message s).1
after a (trace machine skill phase outcome evidence) s =
    (record_skill_trace machine a skill phase outcome evidence s).1

unfoldable pub after_all : WorkerAssignment → List Call → Service → Service
after_all a [] s = s
after_all a (call ∷ calls) s = after_all a calls (after a call s)
