-- ===== src/Queue.antt =====
-- src/agents/worker_queue.py: `WorkerQueue`. A queue file is its text as it is stored, or `none` where
-- there is no file; reads and writes of the two files do not fail here, and `path.open` creates what
-- is missing. A write in text mode stores the newlines as they are (on POSIX); a read translates them.
use git_hub_issue_to_impleme.Prelude.{
  ℕ, zero, suc, ◌+◌, ◌-◌, ◌*◌, ◌/◌, ◌%◌, ◌≤◌, ◌<◌, ◌≡◌, refl, sym, ap, ap₂, ◌∙◌, subst, ◌≢◌, ◌↔◌,
  ◌⊎◌, inl, inr, Bool, true, false, ◌&&◌, ◌||◌, Option, none, some, List, [], ◌∷◌, ◌++◌, map,
  append-nil, append_assoc, arith, ltb, leb, eqb, if◌then◌else◌, not, ltb→lt, leb→le, le→leb,
  eqb_iff, Bool-cases, Option-cases, and_true, and_intro, Eq, nat_eq, ◌==◌, beq_refl, pair_beq,
  pair_beq_iff, pair_eq, some-injective, true≢false, beq-false_sym, or_false, not-true, or_true,
  or_left_comm, beq-true_sym, length, is_empty, or_else, take, drop, any, all, keep, head?, All, In,
  length-append, All-append, All-map, In-append_left, In-append_right, In-append, All-In, all_iff,
  contains, contains_iff, without, not-any, is_empty-append, is_empty-append_left, Text, text,
  text_beq, text_beq_iff, text_eq, starts_with, is_substring, ends_with, is_space, strip_left,
  strip, push_char, split_on, join, decimal_on, decimal, IsFree, split_on-IsFree, split_on-join,
  Error, is_value_error, Result, is_ok, guard, ◌>>=◌, ◌>>◌, >>=-eq-ok, ok-injective, err≢ok,
  or_raise, or_raise-eq-ok, guard-eq-ok, Result-cases, insert_sorted, sort, HeadAbove, IsOrdered,
  sort-IsOrdered, sort-fixed, sort-All, length-sort, ok, err,
}
use git_hub_issue_to_impleme.Schemas.Runtime.{
  WorkerTask, QueueEntry, Priority, EntryKind, entry_is_valid,
}
use git_hub_issue_to_impleme.Store.Database.{Disk}
use git_hub_issue_to_impleme.Store.Operations.{Command, perform}
pub mod Once

-- The authoritative file, and the worker's own.
pub record QueueFiles : Type 0 where
  pub authoritative : Option Text
  pub worker : Option Text

abbrev pub heading : Text → Text
heading queue_id = text "## " ++ (queue_id ++ text ":")

-- The universal newlines of `read_text`: a carriage return, and one with a line feed behind it, is
-- read as a line feed.
unfoldable pub translate : Text → Text
translate [] = []
translate (c ∷ s) =
    let rest = translate s in
    if eqb c 13 then (if starts_with (text "\n") s then rest else 10 ∷ rest) else c ∷ rest

unfoldable pub file_contains : Text → Option Text → Bool
file_contains queue_id none = false
file_contains queue_id (some content) = is_substring (heading queue_id) (translate content)

-- `_contains_queue_id`
unfoldable pub contains_queue_id : Text → QueueFiles → Bool
contains_queue_id queue_id f =
    file_contains queue_id f.authoritative || file_contains queue_id f.worker

-- Python prints a list of texts as its repr, which the Python that runs decides.
pub record Printer : Type 0 where
  pub repr : List Text → Text

abbrev priority_text : Priority → Text
priority_text Priority.immediate = text "immediate"
priority_text Priority.error_detection = text "error_detection"
priority_text Priority.workflow = text "workflow"

abbrev kind_text : EntryKind → Text
kind_text EntryKind.task = text "task"
kind_text EntryKind.change_request = text "change_request"

abbrev or_none : Option Text → Text
or_none none = text "None"
or_none (some t) = or_else t (text "None")

-- The lines that `_render` writes below the heading.
unfoldable pub render_body : Printer → QueueEntry → Text
render_body python q =
    text "\n\n- Kind: `"
    ++ kind_text q.kind
    ++ text "`\n- Priority: `"
    ++ priority_text q.priority
    ++ text "`\n- Task: `"
    ++ q.task_id
    ++ text "`\n- Blocked by: "
    ++ or_else (join (text ", ") q.blocked_by) (text "None")
    ++ text "\n- Supersedes: "
    ++ or_none q.supersedes_entry_id
    ++ text "\n- Required skills: `"
    ++ or_else (join (text ", ") q.required_skills) (text "None")
    ++ text "`\n\n### What to build\n\n"
    ++ q.description
    ++ text "\n\n### Assigned paths\n\n"
    ++ or_else (join (text "\n") (map (λ path. text "- `" ++ path ++ text "`") q.assigned_paths))
        (text "- None")
    ++ text "\n\n### Required checks\n\n"
    ++ or_else
        (join (text "\n")
          (map (λ argv. text "- `" ++ python.repr argv ++ text "`") q.required_checks))
        (text "- None")
    ++ text "\n\n### Acceptance criteria\n\n"
    ++ or_else
        (join (text "\n") (map (λ criterion. text "- [ ] " ++ criterion) q.acceptance_criteria))
        (text "- [ ] No acceptance criteria supplied")
    ++ text "\n"

-- `_render`
unfoldable pub render : Printer → QueueEntry → Text
render python q =
    text "\n" ++ (heading q.queue_id ++ (text " " ++ (q.title ++ render_body python q)))

abbrev pub extended : Text → Option Text → Option Text
extended rendered none = some rendered
extended rendered (some content) = some (content ++ rendered)

abbrev pub write_files : Text → QueueFiles → QueueFiles
write_files rendered f = record {
  authoritative = extended rendered f.authoritative;
  worker = extended rendered f.worker;
}

-- `if self.state_store is not None`: the store's call, after the files are written.
unfoldable pub record_entry : ℕ → QueueEntry → Option Disk → Result (Unit {0}) × Option Disk
record_entry now q none = (ok tt, none)
record_entry now q (some d) =
    let (result, d') = perform now (Command.record_queue_entry q) d in (result, some d')

-- `append`: the outcome, the files and the store.
unfoldable pub append :
    Printer
    → ℕ
    → Text
    → QueueEntry
    → QueueFiles
    → Option Disk
    → Result (Unit {0}) × QueueFiles × Option Disk
append python now worker_id q f d =
    if q.worker_id == worker_id
    then (if contains_queue_id q.queue_id f
        then (err (Error.value_error (text "Queue entry already exists: " ++ q.queue_id)), f, d)
        else (let (result, d') = record_entry now q d in
            (result, write_files (render python q) f, d')))
    else (err (Error.value_error (text "Queue entry belongs to a different worker.")), f, d)

-- The entry of a ticket.
unfoldable pub entry_of : Text → ℕ → Priority → WorkerTask → QueueEntry
entry_of worker_id sequence priority t = record {
  queue_id = t.run_id ++ text "/" ++ worker_id ++ text "/" ++ decimal sequence;
  run_id = t.run_id;
  worker_id = worker_id;
  sequence = sequence;
  priority = priority;
  kind = EntryKind.task;
  task_id = t.task_id;
  title = t.title;
  description = t.description;
  blocked_by = t.blocked_by;
  acceptance_criteria = t.acceptance_criteria;
  assigned_paths = t.assigned_paths;
  required_checks = t.required_checks;
  required_skills = t.required_skills;
  supersedes_entry_id = none;
}

-- `enqueue`; `QueueEntry(...)` validates its fields.
unfoldable pub enqueue :
    Printer
    → ℕ
    → Text
    → ℕ
    → Priority
    → WorkerTask
    → QueueFiles
    → Option Disk
    → Result QueueEntry × QueueFiles × Option Disk
enqueue python now worker_id sequence priority t f d =
    let q = entry_of worker_id sequence priority t in
    let (result, f', d') = append python now worker_id q f d in
    if entry_is_valid q then (result >> ok q, f', d') else (err Error.validation_error, f, d)
