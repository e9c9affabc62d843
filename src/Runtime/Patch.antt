-- ===== src/Runtime/Patch.antt =====
-- `apply_file_patch` of `RuntimeToolService`. The edit lock lets one call of it run at a time.
use git_hub_issue_to_impleme.Prelude.{
  Option, List, [], ◌∷◌, ◌++◌, nat_eq, pair_eq, Text, text, text_eq, texts_eq,
}
use git_hub_issue_to_impleme.Schemas.Runtime.{WorkerAssignment, PatchResult}
use git_hub_issue_to_impleme.Runtime.Tool.{
  Detail, Effect, Tool, ◌>>=◌, ◌>>◌, lift, give, require, act, record_event,
}
use git_hub_issue_to_impleme.Runtime.Service.{bounded_text}
use git_hub_issue_to_impleme.Runtime.Approval.{World, approve_patch}

unfoldable pub apply_file_patch :
    World → WorkerAssignment → Text → List (Text × Option Text) → Tool PatchResult
apply_file_patch world a patch expected = do
  changed ← lift (approve_patch world a patch expected)
  applied ← act (Effect.patch_applied patch) (world.apply_patch patch)
  require applied.succeeded (text "Patch application failed: " ++ bounded_text 2000 applied.stderr)
  record_event a.worker_id (text "file_patch") (text "applied")
      ((text "files", Detail.strs changed) ∷ [])
  give (record { changed_files = changed })
