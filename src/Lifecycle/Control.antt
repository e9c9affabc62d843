-- ===== src/Lifecycle/Control.antt =====
-- `stop` and `poll` of `WorkerLifecycleManager`.
use git_hub_issue_to_impleme.Prelude.{
  ℕ, Option, [], ◌∷◌, ◌++◌, nat_eq, pair_eq, Text, text, text_eq, texts_eq, Error, Result, ◌>>=◌,
  or_raise, ok, err,
}
use git_hub_issue_to_impleme.Schemas.Runtime.{WorkerAssignment}
use git_hub_issue_to_impleme.Store.Database.{Disk, Value}
use git_hub_issue_to_impleme.Store.Operations.{Command, perform}
use git_hub_issue_to_impleme.Lifecycle.{Active, find_active}

-- `_active_entry`
abbrev pub active_entry : Text → Active → Result WorkerAssignment
active_entry worker_id active =
    or_raise (find_active worker_id active)
      (Error.key_error (text "Worker is not active: " ++ worker_id))

-- `poll`; `execution` is what the process answers: how it ended, if it has.
unfoldable pub poll_worker : Text → Option Text → Active → Result (Option Text)
poll_worker worker_id execution active = do a ← active_entry worker_id active; ok execution

abbrev stop_for :
    ℕ → Text → Result (Unit {0}) → Disk → Result WorkerAssignment → Result (Unit {0}) × Disk
stop_for now worker_id stopped d (err e) = (err e, d)
stop_for now worker_id (err e) d (ok a) = (err e, d)
stop_for now worker_id (ok u) d (ok a) =
    perform now
      (Command.record_event a.run_id (text "worker_stop_requested")
        ((text "worker_id", Value.str worker_id) ∷ []))
      d

-- `stop`; `stopped` is what stopping the process came to. The worker stays active.
unfoldable pub stop_worker : ℕ → Text → Result (Unit {0}) → Active → Disk → Result (Unit {0}) × Disk
stop_worker now worker_id stopped active d =
    stop_for now worker_id stopped d (active_entry worker_id active)
