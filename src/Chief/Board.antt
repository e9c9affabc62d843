-- ===== src/Chief/Board.antt =====
-- What `ChiefCoordinator` of src/agents/chief.py keeps while it gives out tickets: the store, the
-- files it writes for workers, and the catalog once it is loaded. What was written before a raise
-- stays written.
use git_hub_issue_to_impleme.Prelude.{
  ℕ, Option, none, some, List, [], ◌∷◌, ◌++◌, if◌then◌else◌, nat_eq, ◌==◌, pair_eq, Text, text,
  text_eq, texts_eq, Result, ok, err,
}
use git_hub_issue_to_impleme.Schemas.Runtime.{WorkerAssignment, WorkerTask, QueueEntry, Priority}
use git_hub_issue_to_impleme.Schemas.Handoff.{Host}
use git_hub_issue_to_impleme.Store.Database.{Disk}
use git_hub_issue_to_impleme.Store.Queries.{Engine}
use git_hub_issue_to_impleme.Queue.{Printer, QueueFiles, enqueue}
use git_hub_issue_to_impleme.Worktrees.{Git}
use git_hub_issue_to_impleme.Skills.Catalog.{Place, Manifest, SkillCatalog, from_project}
use git_hub_issue_to_impleme.Chief.Session.{Session}

-- The files by their path; the last write is in front.
abbrev pub Files : Type 0
Files = List (Text × Text)

unfoldable pub file_at : Text → Files → Option Text
file_at path [] = none
file_at path ((p, content) ∷ files) =
    let rest = file_at path files in if p == path then some content else rest

abbrev pub put : Text → Option Text → Files → Files
put path none files = files
put path (some content) files = (path, content) ∷ files

pub record Board : Type 0 where
  pub disk : Disk
  pub files : Files
  pub skill_catalog : Option SkillCatalog

-- Where Chief runs: its workspace, Git, the file system, the manifest of skills, how Python prints
-- lists, and the time of each call of the store.
pub record Setting : Type 1 where
  pub workspace : Text
  pub engine : Engine
  pub host : Host
  pub git : Git
  pub place : Place
  pub manifest : Manifest
  pub dumps : List Text → Text
  pub printer : Printer
  pub clock : ℕ → ℕ

abbrev pub Coordinator : Type 0 → Type 0
Coordinator A = Board → Result A × Board

abbrev pub continue : {A B : Type 0} → Result A × Board → (A → Coordinator B) → Result B × Board
continue (ok a, b) next = next a b
continue (err e, b) next = (err e, b)

infixl 5 ◌>>=◌ ◌>>◌
abbrev pub ◌>>=◌ : {A B : Type 0} → Coordinator A → (A → Coordinator B) → Coordinator B
◌>>=◌ first next b = continue (first b) next

abbrev pub ◌>>◌ : {B : Type 0} → Coordinator (Unit {0}) → Coordinator B → Coordinator B
first >> next = first >>= λ _. next

abbrev pub pure : {A : Type 0} → Result A → Coordinator A
pure r b = (r, b)

abbrev pub with_disk : {A : Type 0} → Result A × Disk → Board → Result A × Board
with_disk (r, d) b = (r, record b { disk = d })

-- A call of the store.
abbrev pub on_store : {A : Type 0} → Session A → Coordinator A
on_store session b = with_disk (session b.disk) b

abbrev pub write_file : Text → Text → Coordinator (Unit {0})
write_file path content b = (ok tt, record b { files = (path, content) ∷ b.files })

abbrev keep_catalog : Result SkillCatalog → Coordinator SkillCatalog
keep_catalog (ok catalog) b = (ok catalog, record b { skill_catalog = some catalog })
keep_catalog (err e) b = (err e, b)

abbrev loaded : Setting → Option SkillCatalog → Coordinator SkillCatalog
loaded w (some catalog) b = (ok catalog, b)
loaded w none b = keep_catalog (from_project w.workspace w.manifest) b

-- `if self.skill_catalog is None: self.skill_catalog = SkillCatalog.from_project(...)`
abbrev pub catalog_of : Setting → Coordinator SkillCatalog
catalog_of w b = loaded w b.skill_catalog b

-- The two queue files of a worker.
abbrev pub authoritative_queue : Text → Text → Text
authoritative_queue workspace worker_id =
    workspace ++ (text "/.chief/workers/" ++ (worker_id ++ text "/sub_agent_queue.md"))

abbrev pub worker_queue : Text → Text
worker_queue worktree = worktree ++ text "/.chief-worker/sub_agent_queue.md"

abbrev pub disk_or : Disk → Option Disk → Disk
disk_or d none = d
disk_or d (some d') = d'

abbrev queued :
    Text
    → WorkerAssignment
    → Board
    → Result QueueEntry × QueueFiles × Option Disk
    → Result QueueEntry × Board
queued workspace a b (result, f, d) = (
  result,
  record b {
    disk = disk_or b.disk d;
    files =
        put (authoritative_queue workspace a.worker_id) f.authoritative
          (put (worker_queue a.worktree_path) f.worker b.files);
  },
)

-- `WorkerQueue(...).enqueue(...)` with Chief's store
unfoldable pub enqueue_task :
    Setting → ℕ → WorkerAssignment → ℕ → Priority → WorkerTask → Coordinator QueueEntry
enqueue_task w now a sequence priority t b = queued w.workspace a b (
    enqueue w.printer now a.worker_id sequence priority t
      (record {
        authoritative = file_at (authoritative_queue w.workspace a.worker_id) b.files;
        worker = file_at (worker_queue a.worktree_path) b.files;
      })
      (some b.disk))
