-- ===== src/Chief/Summary.antt =====
-- `integration_report` of src/agents/chief.py over the store.
use git_hub_issue_to_impleme.Prelude.{
  ◌≡◌, refl, sym, ap, ◌∙◌, inl, inr, false, Option, List, [], if◌then◌else◌, Bool-cases, nat_eq,
  is_empty, All-In, In, Text, text_eq, Error, Result, err≢ok, ok-injective, ok, err,
}
use git_hub_issue_to_impleme.Schemas.Runtime.{WorkerResult}
use git_hub_issue_to_impleme.Schemas.Handoff.{IntegrationReport, ReportStatus}
use git_hub_issue_to_impleme.Store.Database.{ResultRow, Database, Disk}
use git_hub_issue_to_impleme.Store.Steps.{on_disk, IsCurrent}
use git_hub_issue_to_impleme.Store.Queries.{Engine, worker_results_for_run}
use git_hub_issue_to_impleme.Chief.Session.{Session, proceed, ask, lift}
use git_hub_issue_to_impleme.Chief.Accept.{ask-current}
use git_hub_issue_to_impleme.Chief.Report.{build_report}
use git_hub_issue_to_impleme.Chief.Ready.{IsClean, ready_iff}
use git_hub_issue_to_impleme.Chief.Shared.{all_paths, collides}
use git_hub_issue_to_impleme.Lifecycle.Recovered.{worker_results_for_run_iff}

-- `IntegrationReport(...)` validates its run id; the next action that the code writes is never
-- empty.
unfoldable pub validated_report : Text → List WorkerResult → Result IntegrationReport
validated_report run_id results =
    if is_empty run_id then err Error.validation_error else ok (build_report run_id results)

-- `integration_report`
unfoldable pub integration_report : Engine → Text → Session IntegrationReport
integration_report engine run_id d =
    proceed (ask (worker_results_for_run engine run_id) d)
      (λ results d. lift (validated_report run_id results) d)

validated_report-ok :
    (run_id : Text) (results : List WorkerResult) {report : IntegrationReport}
    → validated_report run_id results ≡ ok report
    → (is_empty run_id ≡ false) × (build_report run_id results ≡ report)
unfolding validated_report
validated_report-ok run_id results e = elim (Bool-cases (is_empty run_id)) [
  | inl empty ↦ absurd (err≢ok (rw empty at e))
  | inr named ↦ (named, ok-injective (rw named at e))
]

-- A report that says `ready_for_human` is one of a run whose recorded results all followed the
-- worker process (asked without an assignment) and report no error, and name no path twice; making
-- it has written nothing.
pub integration_report-ready :
    (engine : Engine) (run_id : Text) (db : Database) (backup : Option Database) (row : ResultRow)
    {report : IntegrationReport} {d' : Disk}
    → IsCurrent db
    → integration_report engine run_id (on_disk db backup) ≡ (ok report, d')
    → report.status ≡ ReportStatus.ready_for_human
    → In row db.worker_results
    → row.run_id ≡ run_id
    → IsClean row.payload
      × (collides [] (all_paths (worker_results_for_run engine run_id db)) ≡ false)
      × (d' ≡ on_disk db backup)
unfolding integration_report
integration_report-ready engine run_id db backup row current e ready i own =
    let made = rw (ask-current (worker_results_for_run engine run_id) db backup current) at e in
    let (_, same) = validated_report-ok run_id _ (ap (λ p. p.0) made) in
    let (_, clean, apart) =
      (ready_iff run_id _).0 (ap (λ (r : IntegrationReport). r.status) same ∙ ready) in
    (
      All-In IsClean _ clean
          ((worker_results_for_run_iff engine run_id db row.payload).1 (row, i, own, refl)),
      apart,
      sym (ap (λ p. p.1) made),
    )
