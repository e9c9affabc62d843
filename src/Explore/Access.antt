-- ===== src/Explore/Access.antt =====
-- What the repository tools share: their bounds, the cutting of long outputs, and the resolution of
-- a path that a model asks for.
use git_hub_issue_to_impleme.Prelude.{
  ℕ, ◌⊎◌, inl, inr, Bool, ◌||◌, Option, List, ◌++◌, ltb, if◌then◌else◌, nat_eq, pair_eq, length,
  take, drop, contains, Text, text, text_eq, texts_eq, join, splitlines,
}
use git_hub_issue_to_impleme.Schemas.Runtime.{ExitCode}
use git_hub_issue_to_impleme.Paths.{parse, is_absolute, begins}

abbrev pub max_command_output : ℕ
max_command_output = 12000

abbrev pub max_listed_files : ℕ
max_listed_files = 500

abbrev pub max_search_results : ℕ
max_search_results = 200

abbrev pub max_read_lines : ℕ
max_read_lines = 400

abbrev pub max_batch_files : ℕ
max_batch_files = 5

abbrev pub max_batch_lines_per_file : ℕ
max_batch_lines_per_file = 200

abbrev pub max_file_size_bytes : ℕ
max_file_size_bytes = 1000000

-- `_truncate_lines`
unfoldable pub truncate_lines : Text → ℕ → ℕ → Text
truncate_lines t max_lines max_chars =
    let lines = splitlines t in
    let output = take max_chars (join (text "\n") (take max_lines lines)) in
    if ltb max_lines (length lines) || ltb max_chars (length t)
    then output ++ text "\n... output truncated ..."
    else output

-- A command that ran to its end.
pub record CompletedProcess : Type 0 where
  pub returncode : ExitCode
  pub stdout : Text
  pub stderr : Text

-- The machine during one call, at the repository root whose parts are `root`. `resolve` follows
-- links; its left side is the message of a ValueError. `run` is `_run_read_only_command`: `none` is
-- a command that is missing or too slow. `decode` is Python's decoding of UTF-8 with replacement.
pub record Checkout : Type 0 where
  pub root : List Text
  pub resolve : List Text → Text ⊎ List Text
  pub is_file : List Text → Bool
  pub exists : List Text → Bool
  pub size : List Text → ℕ
  pub read_bytes : List Text → List ℕ
  pub decode : List ℕ → Text
  pub run : List Text → Option CompletedProcess

-- `resolved_path.relative_to(repository_root).parts`, below the root.
abbrev pub parts_below : List Text → List Text → List Text
parts_below root file = drop (length root) file

abbrev pub check_inside : List Text → Text ⊎ List Text → Text ⊎ List Text
check_inside root (inl message) = inl message
check_inside root (inr file) =
    if begins root file
    then (if contains (parts_below root file) (text ".git")
        then inl (text "Access to .git is not allowed.")
        else inr file)
    else inl (text "Path escapes the repository.")

-- `_resolve_repository_file`: the file, or the message of the ValueError.
unfoldable pub resolve_repository_file : Checkout → Text → Text ⊎ List Text
resolve_repository_file checkout relative_path =
    if is_absolute (parse relative_path)
    then inl (text "Absolute paths are not allowed.")
    else check_inside checkout.root
        (checkout.resolve (checkout.root ++ (parse relative_path).names))
