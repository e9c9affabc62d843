-- ===== src/Runtime/Finished.antt =====
-- What `run_check` returns of a process that it has started.
use git_hub_issue_to_impleme.Prelude.{
  ℕ, ◌≡◌, refl, sym, ap, ◌∙◌, inl, inr, Bool, true, false, ◌&&◌, ◌||◌, List, [], ◌∷◌, arith, not,
  Bool-cases, nat_eq, pair_eq, or_false, take, Text, text_eq, texts_eq, ok,
}
use git_hub_issue_to_impleme.Schemas.Runtime.{WorkerAssignment, CheckResult}
use git_hub_issue_to_impleme.Runtime.Tool.{Service}
use git_hub_issue_to_impleme.Runtime.Service.{max_process_output, bounded_text}
use git_hub_issue_to_impleme.Runtime.Check.{
  Stream, stdout, stderr, Event, chunk, deadline, Capture, new_capture, receive, is_reading,
  collect, Process, Launcher, approve_check, working_directory, check_status, result_of,
}
use git_hub_issue_to_impleme.Runtime.Run.{run_check}
use git_hub_issue_to_impleme.Runtime.Captured.{written, collect-keeps_written}

-- The stream ends before the deadline.
abbrev pub ends : Stream → List Event → Bool
ends x [] = false
ends x (deadline ∷ events) = false
ends stdout (chunk stdout [] ∷ events) = true
ends stdout (chunk stdout (b ∷ bytes) ∷ events) = ends stdout events
ends stdout (chunk stderr bytes ∷ events) = ends stdout events
ends stderr (chunk stderr [] ∷ events) = true
ends stderr (chunk stderr (b ∷ bytes) ∷ events) = ends stderr events
ends stderr (chunk stdout bytes ∷ events) = ends stderr events

-- The deadline passes with a stream that has not ended.
abbrev pub is_late : List Event → Bool
is_late events = not (ends stdout events && ends stderr events)

abbrev is_left : Capture → List Event → Bool
is_left c events =
    c.out_open && not (ends stdout events) || c.errors_open && not (ends stderr events)

is_left-receive :
    (y : Stream) (bytes : List ℕ) (events : List Event) (c : Capture)
    → is_left (receive y bytes c) events ≡ is_left c (chunk y bytes ∷ events)
unfolding receive
is_left-receive stdout [] events c = ground arith
is_left-receive stdout (b ∷ bytes) events c = refl
is_left-receive stderr [] events c = ground arith
is_left-receive stderr (b ∷ bytes) events c = refl

is_left-ended :
    (c : Capture) (events : List Event) → is_reading c ≡ false → is_left c events ≡ false
is_left-ended c events h =
    let (first, second) = or_false {a = c.out_open} {b = c.errors_open} h in rw (first, second) refl

collect-is_left : (events : List Event) (c : Capture) → (collect events c).1 ≡ is_left c events
unfolding collect
collect-is_left [] c = ground arith
collect-is_left (deadline ∷ events) c = ground arith
collect-is_left (chunk y bytes ∷ events) c = elim (Bool-cases (is_reading c)) [
  | inl reading ↦
      rw reading (collect-is_left events (receive y bytes c) ∙ is_left-receive y bytes events c)
  | inr ended ↦ rw ended (sym (is_left-ended c (chunk y bytes ∷ events) ended))
]

collect-is_late : (events : List Event) → (collect events new_capture).1 ≡ is_late events
collect-is_late events = collect-is_left events new_capture ∙ ground arith

-- The result that the process's events and exit code call for.
abbrev pub reported : Launcher → List Text → Process → CheckResult
reported launcher argv process = record {
  status = check_status (is_late process.events) process.exit_code;
  argv = argv;
  exit_code = process.exit_code;
  stdout =
      bounded_text max_process_output
        (launcher.decode (take max_process_output (written stdout process.events)));
  stderr =
      bounded_text max_process_output
        (launcher.decode (take max_process_output (written stderr process.events)));
}

result_of-reported :
    (launcher : Launcher) (argv : List Text) (process : Process)
    → result_of launcher argv process.exit_code (collect process.events new_capture)
      ≡ reported launcher argv process
unfolding result_of
result_of-reported launcher argv process =
    rw
      (
        collect-is_late process.events,
        collect-keeps_written stdout process.events,
        collect-keeps_written stderr process.events,
      )
      refl

-- An allowed check whose process starts returns its result: timed out just if a stream has not
-- ended by the deadline, else passed just if the exit code is zero, with what the first 12000
-- bytes of each stream decode to, cut at 12000 characters.
pub run_check-reported :
    (launcher : Launcher) (a : WorkerAssignment) (argv : List Text) (timeout_seconds : ℕ)
    (process : Process) (s : Service)
    → approve_check launcher a argv timeout_seconds ≡ ok tt
    → launcher.start (working_directory launcher a) argv ≡ ok process
    → (run_check launcher a argv timeout_seconds s).0 ≡ ok (reported launcher argv process)
unfolding run_check
run_check-reported launcher a argv timeout_seconds process s approved started =
    rw (approved, started) (ap ok (result_of-reported launcher argv process))
