-- ===== src/Runtime/Run.antt =====
-- `run_check` of `RuntimeToolService`.
use git_hub_issue_to_impleme.Prelude.{
  ℕ, List, [], ◌∷◌, nat_eq, pair_eq, Text, text, text_eq, texts_eq,
}
use git_hub_issue_to_impleme.Schemas.Runtime.{WorkerAssignment, CheckResult}
use git_hub_issue_to_impleme.Runtime.Tool.{
  Detail, Effect, Tool, ◌>>=◌, ◌>>◌, lift, give, act, record_event,
}
use git_hub_issue_to_impleme.Runtime.Check.{
  Launcher, approve_check, working_directory, collect, new_capture, result_of, exit_detail,
  check_status_text,
}

unfoldable pub run_check : Launcher → WorkerAssignment → List Text → ℕ → Tool CheckResult
run_check launcher a argv timeout_seconds = do
  lift (approve_check launcher a argv timeout_seconds)
  process ←
      act (Effect.check_started (working_directory launcher a) argv)
        (launcher.start (working_directory launcher a) argv)
  let result = result_of launcher argv process.exit_code (collect process.events new_capture)
  record_event a.worker_id (text "check") (check_status_text result.status)
      ((text "argv", Detail.strs argv) ∷ (text "exit_code", exit_detail process.exit_code) ∷ [])
  give result
