-- ===== src/Examples/Records.antt =====
-- Calls of the state store.
use git_hub_issue_to_impleme.Prelude.{
  ℕ, ◌≡◌, refl, false, none, List, [], ◌∷◌, nat_eq, pair_eq, text, text_beq, text_eq, is_ok, ok,
}
use git_hub_issue_to_impleme.Examples.Data.{handoff, result}
use git_hub_issue_to_impleme.Store.Database.{
  Database, empty_database, has_run, check_reference, insert_event, Disk,
}
use git_hub_issue_to_impleme.Store.Operations.{Command, insert_run, write, execute}
use git_hub_issue_to_impleme.Store.Sequence.{IsSound, perform_all, perform_all-IsSound}
use git_hub_issue_to_impleme.Store.Outcome.{event_of, execute-appends_event, execute-is_ok}

abbrev no_file : Disk
no_file = record { database = none; backup = none }

abbrev create : Command
create = Command.create_run (text "/w") (text "r1") (text "abc") (text "created")

-- The result of a run that is not recorded, then the run, then its handoff and the result.
abbrev calls : List (ℕ × Command)
calls =
    (1, Command.record_worker_result result)
    ∷ (2, create)
    ∷ (3, Command.record_handoff handoff)
    ∷ (4, Command.record_worker_result result)
    ∷ []

perform_all-IsSound_example : IsSound (perform_all calls no_file)
perform_all-IsSound_example = perform_all-IsSound calls no_file tt

execute-is_ok_example :
    is_ok (execute 1 (Command.record_worker_result result) empty_database) ≡ false
unfolding has_run
execute-is_ok_example = execute-is_ok 1 (Command.record_worker_result result) empty_database

abbrev with_run : Database
with_run = record empty_database {
  runs =
      record {
        run_id = text "r1";
        project_workspace = text "/w";
        base_commit = text "abc";
        status = text "created";
        created_at = 2;
        updated_at = 2;
      }
      ∷ [];
  events = event_of 2 create empty_database ∷ [];
  last_event_id = 1;
}

created : execute 2 create empty_database ≡ ok with_run
unfolding execute write insert_run insert_event has_run check_reference text_beq
created = refl

execute-appends_event_example : with_run.events ≡ event_of 2 create empty_database ∷ []
execute-appends_event_example = execute-appends_event 2 create empty_database created
