-- ===== src/Runtime/Check.antt =====
-- What `run_check` of `RuntimeToolService` checks, the loop that collects a process's output, and
-- the result it makes of it.
use git_hub_issue_to_impleme.Prelude.{
  ℕ, zero, ◌-◌, Bool, true, false, ◌&&◌, ◌||◌, List, [], ◌∷◌, ◌++◌, ltb, leb, if◌then◌else◌, not,
  nat_eq, pair_eq, length, is_empty, take, all, contains, Text, text, text_eq, texts_eq, Error,
  Result, guard, ◌>>=◌, ◌>>◌,
}
use git_hub_issue_to_impleme.Schemas.Runtime.{WorkerAssignment, CheckStatus, CheckResult, ExitCode}
use git_hub_issue_to_impleme.Guard.Ownership.{Machine, verify_ownership}
use git_hub_issue_to_impleme.Runtime.Tool.{Detail}
use git_hub_issue_to_impleme.Runtime.Service.{max_process_output, bounded_text}
use git_hub_issue_to_impleme.Runtime.Limits.{max_check_timeout}

pub data Stream : Type 0 where
  stdout stderr : Stream

-- What the loop meets, in order: a chunk that `os.read` hands over (the empty chunk ends the
-- stream), until the deadline passes.
pub data Event : Type 0 where
  chunk : Stream → List ℕ → Event
  deadline : Event

-- `streams`, and which of them are registered.
pub record Capture : Type 0 where
  pub out : List ℕ
  pub errors : List ℕ
  pub out_open : Bool
  pub errors_open : Bool

abbrev pub new_capture : Capture
new_capture = record { out = []; errors = []; out_open = true; errors_open = true }

-- `if len(stream) < MAX: stream.extend(chunk[: MAX - len(stream)])`
unfoldable pub extend : ℕ → List ℕ → List ℕ → List ℕ
extend limit stream bytes =
    if ltb (length stream) limit then stream ++ take (limit - length stream) bytes else stream

-- One chunk; a stream that has ended is read no more.
unfoldable pub receive : Stream → List ℕ → Capture → Capture
receive Stream.stdout [] c = record c { out_open = false }
receive Stream.stdout (b ∷ bytes) c = record c {
  out = if c.out_open then extend max_process_output c.out (b ∷ bytes) else c.out;
}
receive Stream.stderr [] c = record c { errors_open = false }
receive Stream.stderr (b ∷ bytes) c = record c {
  errors = if c.errors_open then extend max_process_output c.errors (b ∷ bytes) else c.errors;
}

abbrev pub is_reading : Capture → Bool
is_reading c = c.out_open || c.errors_open

-- `_collect_process_output`, and whether the deadline passed first. When nothing more comes, it
-- passes.
unfoldable pub collect : List Event → Capture → Capture × Bool
collect [] c = (c, is_reading c)
collect (deadline ∷ events) c = (c, is_reading c)
collect (chunk stream bytes ∷ events) c =
    let rest = collect events (receive stream bytes c) in if is_reading c then rest else (c, false)

-- What one started process does.
pub record Process : Type 0 where
  pub events : List Event
  pub exit_code : ExitCode

-- The machine during the call. `start` takes the working directory and the command; `decode` is Python's decoding of UTF-8 with replacement.
pub record Launcher : Type 0 where
  pub machine : Machine
  pub start : Text → List Text → Result Process
  pub decode : List ℕ → Text

abbrev pub check_status : Bool → ExitCode → CheckStatus
check_status true code = CheckStatus.timed_out
check_status false (ExitCode.exited zero) = CheckStatus.passed
check_status false code = CheckStatus.failed

abbrev pub exit_detail : ExitCode → Detail
exit_detail (ExitCode.exited n) = Detail.number n
exit_detail (ExitCode.killed n) = Detail.signal n

abbrev pub check_status_text : CheckStatus → Text
check_status_text CheckStatus.passed = text "passed"
check_status_text CheckStatus.failed = text "failed"
check_status_text CheckStatus.timed_out = text "timed_out"

-- `CheckResult(...)`
unfoldable pub result_of : Launcher → List Text → ExitCode → Capture × Bool → CheckResult
result_of launcher argv code (c, timed_out) = record {
  status = check_status timed_out code;
  argv = argv;
  exit_code = code;
  stdout = bounded_text max_process_output (launcher.decode c.out);
  stderr = bounded_text max_process_output (launcher.decode c.errors);
}

-- What `run_check` checks before it starts the process.
unfoldable pub approve_check : Launcher → WorkerAssignment → List Text → ℕ → Result (Unit {0})
approve_check launcher a argv timeout_seconds = do
  worktree ← verify_ownership launcher.machine a
  guard (not (is_empty argv) && all (λ value. not (is_empty value)) argv)
      (Error.tool_violation (text "A non-empty command argument list is required."))
  guard (contains a.approved_checks argv)
      (Error.tool_violation (text "Check command is not approved for this task."))
  guard (leb 1 timeout_seconds && leb timeout_seconds max_check_timeout)
      (Error.tool_violation (text "Check timeout must be between 1 and 600 seconds."))

-- `self.guard.worktree`, which `Popen` gets as the working directory
abbrev pub working_directory : Launcher → WorkerAssignment → Text
working_directory launcher a = launcher.machine.expanduser a.worktree_path
