-- ===== src/Runtime/Limits.antt =====
-- The bounds of src/agents/tools/runtime_tools.py.
use git_hub_issue_to_impleme.Prelude.{ℕ, nat_eq, pair_eq, text_eq, texts_eq}

abbrev pub max_patch_bytes : ℕ
max_patch_bytes = 256000

abbrev pub max_patch_files : ℕ
max_patch_files = 20

abbrev pub max_changed_lines : ℕ
max_changed_lines = 2000

abbrev pub max_check_timeout : ℕ
max_check_timeout = 600

abbrev pub max_commit_message : ℕ
max_commit_message = 500
