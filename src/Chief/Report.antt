-- ===== src/Chief/Report.antt =====
-- `ChiefCoordinator.integration_report` of src/agents/chief.py, once the results are read.
use git_hub_issue_to_impleme.Prelude.{
  Bool, true, false, ◌&&◌, ◌||◌, Option, none, some, List, [], ◌∷◌, ◌++◌, map, ltb, eqb,
  if◌then◌else◌, not, ◌==◌, nat_eq, pair_eq, length, is_empty, keep, Text, text, text_eq, sort,
}
use git_hub_issue_to_impleme.Schemas.Runtime.{WorkerResult}
use git_hub_issue_to_impleme.Schemas.Handoff.{IntegrationReport, ReportStatus}
use git_hub_issue_to_impleme.Gate.{check, is_complete_status}

-- `d[key] = value` on a dict in insertion order.
unfoldable pub dict_set : {V : Type 0} → Text → V → List (Text × V) → List (Text × V)
dict_set key v [] = (key, v) ∷ []
dict_set key v ((k, w) ∷ d) = if k == key then (k, v) ∷ d else (k, w) ∷ dict_set key v d

-- `d[path].append(worker)` on a `defaultdict(list)`.
unfoldable pub add_worker : Text → Text → List (Text × List Text) → List (Text × List Text)
add_worker path worker [] = (path, worker ∷ []) ∷ []
add_worker path worker ((p, ws) ∷ d) =
    if p == path then (p, ws ++ worker ∷ []) ∷ d else (p, ws) ∷ add_worker path worker d

-- Lexicographic order of texts.
unfoldable pub text_le : Text → Text → Bool
text_le [] t = true
text_le (c ∷ s) [] = false
text_le (c ∷ s) (d ∷ t) = ltb c d || eqb c d && text_le s t

-- The variables of the loop over the results.
pub record Tally : Type 0 where
  pub file_workers : List (Text × List Text)
  pub commits : List (Text × Text)
  pub changed_files : List (Text × List Text)
  pub errors : List Text
  pub accepted_workers : List Text

abbrev pub empty_tally : Tally
empty_tally = record {
  file_workers = [];
  commits = [];
  changed_files = [];
  errors = [];
  accepted_workers = [];
}

unfoldable pub add_paths : Text → List Text → List (Text × List Text) → List (Text × List Text)
add_paths worker [] d = d
add_paths worker (path ∷ paths) d = add_paths worker paths (add_worker path worker d)

-- `if result.commit: commits[worker] = result.commit`
unfoldable pub add_commit : Text → Option Text → List (Text × Text) → List (Text × Text)
add_commit worker none d = d
add_commit worker (some []) d = d
add_commit worker (some (c ∷ t)) d = dict_set worker (c ∷ t) d

-- One round of the loop. The gate is asked without an assignment.
unfoldable pub tally_result : WorkerResult → Tally → Tally
tally_result r t =
    let decision = check r none in
    record {
      file_workers = add_paths r.worker_id r.changed_files t.file_workers;
      commits = add_commit r.worker_id r.commit t.commits;
      changed_files = dict_set r.worker_id r.changed_files t.changed_files;
      errors = t.errors ++ (r.errors ++ (decision.missing_phases ++ decision.violations));
      accepted_workers =
          if is_complete_status r.status && decision.accepted
          then t.accepted_workers ++ r.worker_id ∷ []
          else t.accepted_workers;
    }

unfoldable pub tally_results : List WorkerResult → Tally → Tally
tally_results [] t = t
tally_results (r ∷ results) t = tally_results results (tally_result r t)

abbrev pub is_shared : Text × List Text → Bool
is_shared (path, workers) = ltb 1 (length workers)

unfoldable pub overlapping_files : List (Text × List Text) → List Text
overlapping_files file_workers = sort text_le (map (λ e. e.0) (keep is_shared file_workers))

abbrev pub is_blocked : Tally → Bool
is_blocked t =
    is_empty t.accepted_workers
    || (not (is_empty (overlapping_files t.file_workers)) || not (is_empty t.errors))

abbrev pub next_action : Tally → Text
next_action t =
    if is_blocked t
    then (if is_empty t.accepted_workers
        then text "Wait for an accepted WorkerResult before human integration."
        else text "Resolve worker errors and overlapping files before human integration.")
    else text "Review worker commits and integrate selected branches into main."

unfoldable pub build_report : Text → List WorkerResult → IntegrationReport
build_report run_id results =
    let t = tally_results results empty_tally in
    record {
      run_id = run_id;
      status = if is_blocked t then ReportStatus.blocked else ReportStatus.ready_for_human;
      accepted_workers = t.accepted_workers;
      worker_commits = t.commits;
      changed_files = t.changed_files;
      overlapping_files = overlapping_files t.file_workers;
      errors = t.errors;
      next_action = next_action t;
    }
