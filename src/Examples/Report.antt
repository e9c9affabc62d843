-- ===== src/Examples/Report.antt =====
-- The report on a run with one recorded worker and its result.
use git_hub_issue_to_impleme.Prelude.{
  ◌≡◌, refl, inl, true, false, none, [], ◌∷◌, nat_eq, pair_eq, text, text_beq, text_eq, sort,
  insert_sorted, ok,
}
use git_hub_issue_to_impleme.Examples.Data.{result}
use git_hub_issue_to_impleme.Examples.Chief.{in_order, recorded}
use git_hub_issue_to_impleme.Store.Steps.{on_disk}
use git_hub_issue_to_impleme.Store.Queries.{worker_results_for_run}
use git_hub_issue_to_impleme.Store.Database.{
  Database, transact, initialize, open_file, run_body, settle,
}
use git_hub_issue_to_impleme.Chief.Report.{build_report}
use git_hub_issue_to_impleme.Chief.Ready.{IsClean, ready_iff}
use git_hub_issue_to_impleme.Chief.Shared.{all_paths, collides}
use git_hub_issue_to_impleme.Chief.Summary.{
  validated_report, integration_report, integration_report-ready,
}
use git_hub_issue_to_impleme.Chief.Session.{ask}
use git_hub_issue_to_impleme.Schemas.Handoff.{ReportStatus}
use git_hub_issue_to_impleme.Gate.{
  check, all_violations, missing_phases, completed_keys, assignment_violations, is_sorted,
  found_sequences, phase_sequence,
}
use git_hub_issue_to_impleme.Gate.Accept.{check_accepts_iff}

-- The worker's result is recorded too.
abbrev judged : Database
judged = record recorded {
  worker_results =
      record {
        run_id = text "r1";
        worker_id = text "worker-1";
        task_id = text "r1-task-1";
        payload = result;
        created_at = 9;
      }
      ∷ [];
}

reported :
    integration_report in_order (text "r1") (on_disk judged none)
    ≡ (ok (build_report (text "r1") (result ∷ [])), on_disk judged none)
unfolding integration_report validated_report ask transact initialize open_file run_body settle
    worker_results_for_run insert_sorted sort text_beq
reported = refl

accepted_alone : (check result none).accepted ≡ true
unfolding check all_violations missing_phases completed_keys text_beq assignment_violations
    is_sorted sort found_sequences phase_sequence
accepted_alone = refl

report_ready : (build_report (text "r1") (result ∷ [])).status ≡ ReportStatus.ready_for_human
unfolding collides
report_ready =
    (ready_iff (text "r1") (result ∷ [])).1
      (refl, (((check_accepts_iff result none).0 accepted_alone, refl), tt), refl)

integration_report-ready_example :
    IsClean result
    × (collides [] (all_paths (worker_results_for_run in_order (text "r1") judged)) ≡ false)
    × (on_disk judged none ≡ on_disk judged none)
integration_report-ready_example =
    integration_report-ready in_order (text "r1") judged none _ refl reported report_ready
      (inl refl) refl
