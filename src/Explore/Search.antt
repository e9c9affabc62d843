-- ===== src/Explore/Search.antt =====
-- `list_repository_files`, `search_repository_files` and `get_recent_git_history`.
use git_hub_issue_to_impleme.Prelude.{
  ℕ, ◌⊎◌, inl, inr, Bool, false, ◌||◌, Option, none, some, List, [], ◌∷◌, ◌++◌, ltb, eqb,
  if◌then◌else◌, not, nat_eq, pair_eq, length, is_empty, take, any, Text, text, text_eq, texts_eq,
  strip, decimal,
}
use git_hub_issue_to_impleme.Schemas.Runtime.{ExitCode}
use git_hub_issue_to_impleme.Paths.{as_posix}
use git_hub_issue_to_impleme.Explore.Access.{
  max_command_output, max_listed_files, max_search_results, truncate_lines, CompletedProcess,
  Checkout, parts_below, resolve_repository_file,
}

abbrev pub is_exit : ℕ → ExitCode → Bool
is_exit n (ExitCode.exited m) = eqb n m
is_exit n (ExitCode.killed m) = false

-- `s.strip() or "*"`
abbrev pub glob_of : Text → Text
glob_of file_glob = if is_empty (strip file_glob) then text "*" else strip file_glob

-- `len(s) > 200 or "\n" in s`
abbrev pub is_too_long : Text → Bool
is_too_long s = ltb 200 (length s) || any (λ c. eqb c 10) s

abbrev pub list_command : Text → List Text
list_command file_glob =
    text "rg"
    ∷ text "--files"
    ∷ text "--hidden"
    ∷ text "--glob"
    ∷ text "!.git/**"
    ∷ text "--glob"
    ∷ file_glob
    ∷ []

abbrev pub listed : Text → Option CompletedProcess → Text
listed file_glob none = text "File listing failed because rg was unavailable or timed out."
listed file_glob (some result) =
    if not (is_exit 0 result.returncode || is_exit 1 result.returncode)
    then text "File listing failed: " ++ take 1000 result.stderr
    else (if is_empty (strip result.stdout)
        then text "No files matched glob: " ++ file_glob
        else truncate_lines result.stdout max_listed_files max_command_output)

unfoldable pub list_repository_files : Checkout → Text → Text
list_repository_files checkout file_glob =
    if is_too_long (glob_of file_glob)
    then text "File glob is invalid or too long."
    else listed (glob_of file_glob) (checkout.run (list_command (glob_of file_glob)))

abbrev pub search_command : Text → Text → List Text
search_command query file_glob =
    text "rg"
    ∷ text "--line-number"
    ∷ text "--smart-case"
    ∷ text "--fixed-strings"
    ∷ text "--hidden"
    ∷ text "--max-filesize"
    ∷ text "1M"
    ∷ text "--glob"
    ∷ text "!.git/**"
    ∷ text "--glob"
    ∷ file_glob
    ∷ text "--"
    ∷ query
    ∷ text "."
    ∷ []

abbrev pub found : Text → Option CompletedProcess → Text
found query none = text "Repository search failed because rg was unavailable or timed out."
found query (some result) =
    if is_exit 1 result.returncode
    then text "No matches found for: " ++ query
    else (if not (is_exit 0 result.returncode)
        then text "Repository search failed: " ++ take 1000 result.stderr
        else truncate_lines result.stdout max_search_results max_command_output)

unfoldable pub search_repository_files : Checkout → Text → Text → Text
search_repository_files checkout query file_glob =
    if is_empty (strip query)
    then text "Search query cannot be empty."
    else (if is_too_long (strip query)
        then text "Search query is invalid or too long."
        else (if is_too_long (glob_of file_glob)
            then text "File glob is invalid or too long."
            else found (strip query)
                (checkout.run (search_command (strip query) (glob_of file_glob)))))

-- `max(1, min(max_commits, 25))`
abbrev pub commit_limit : ℕ → ℕ
commit_limit max_commits =
    if ltb max_commits 1 then 1 else (if ltb 25 max_commits then 25 else max_commits)

abbrev pub log_command : ℕ → List Text → List Text
log_command limit scope =
    text "git"
    ∷ text "log"
    ∷ text "--oneline"
    ∷ text "--no-decorate"
    ∷ text "-n"
    ∷ decimal limit
    ∷ scope

-- What limits the log to one file of the repository.
abbrev pub file_scope : List Text → List Text → List Text
file_scope root file =
    text "--" ∷ as_posix (record { root = []; names = parts_below root file }) ∷ []

abbrev pub history : Option CompletedProcess → Text
history none = text "Git history failed because git was unavailable or timed out."
history (some result) =
    if not (is_exit 0 result.returncode)
    then text "Git history failed: " ++ take 1000 result.stderr
    else (if is_empty (strip result.stdout)
        then text "No Git history was found."
        else truncate_lines result.stdout 25 max_command_output)

abbrev pub history_of : Checkout → Text → ℕ → Text ⊎ List Text → Text
history_of checkout relative_path max_commits (inl message) =
    text "Git history access rejected: " ++ message
history_of checkout relative_path max_commits (inr file) =
    if not (checkout.exists file)
    then text "File does not exist: " ++ relative_path
    else history
        (checkout.run (log_command (commit_limit max_commits) (file_scope checkout.root file)))

unfoldable pub get_recent_git_history : Checkout → Option Text → ℕ → Text
get_recent_git_history checkout none max_commits =
    history (checkout.run (log_command (commit_limit max_commits) []))
get_recent_git_history checkout (some relative_path) max_commits =
    if is_empty relative_path
    then history (checkout.run (log_command (commit_limit max_commits) []))
    else history_of checkout relative_path max_commits
        (resolve_repository_file checkout (strip relative_path))
