-- ===== src/Runtime/Diff.antt =====
-- What `RuntimeToolService` reads in a patch: `_patch_paths` and `_changed_line_count`.
use git_hub_issue_to_impleme.Prelude.{
  ℕ, Bool, ◌&&◌, Option, none, some, List, [], ◌∷◌, ◌++◌, if◌then◌else◌, not, nat_eq, ◌==◌, pair_eq,
  length, is_empty, drop, any, keep, contains, Text, text, text_eq, texts_eq, starts_with,
  splitlines, prefixed, split_last, Error, Result, guard, ◌>>=◌, ◌>>◌, ok, err,
}

abbrev pub binary_patches : Error
binary_patches = Error.tool_violation (text "Binary patches are not supported.")

abbrev pub permission_changes : Error
permission_changes = Error.tool_violation (text "Permission changes are not supported.")

abbrev pub irregular_files : Error
irregular_files = Error.tool_violation (text "Only regular file patches are supported.")

abbrev pub invalid_headers : Error
invalid_headers = Error.tool_violation (text "Patch file headers are invalid.")

abbrev starts_with_any : List Text → Text → Bool
starts_with_any prefixes line = any (λ p. starts_with p line) prefixes

-- The groups of `diff --git a/(.+) b/(.+)`, whose first `.+` takes as much as it can. A line of
-- `splitlines` holds no newline.
abbrev groups_from : Text → Option (Text × Text)
groups_from [] = none
groups_from (c ∷ s) = prefixed c (split_last (text " b/") s)

unfoldable pub header_groups : Text → Option (Text × Text)
header_groups line =
    let groups = groups_from (drop 13 line) in
    if starts_with (text "diff --git a/") line then groups else none

abbrev pub add_new : Text → List Text → List Text
add_new path paths = if contains paths path then paths else paths ++ path ∷ []

abbrev pub map_groups : List Text → Option (Text × Text) → Result (List Text)
map_groups paths none = err invalid_headers
map_groups paths (some (old, new)) = ok (add_new new (add_new old paths))

-- The paths after one line.
unfoldable pub line_paths : Text → List Text → Result (List Text)
line_paths line paths = do
  guard (not (starts_with_any (text "Binary files " ∷ text "GIT binary patch" ∷ []) line))
      binary_patches
  guard (not (starts_with_any (text "old mode " ∷ text "new mode " ∷ []) line)) permission_changes
  guard
      (not (starts_with (text "new file mode ") line && not (line == text "new file mode 100644")))
      irregular_files
  let with_header = map_groups paths (header_groups line)
  if starts_with (text "diff --git ") line then with_header else ok paths

unfoldable pub paths_of_lines : List Text → List Text → Result (List Text)
paths_of_lines [] paths = ok paths
paths_of_lines (line ∷ lines) paths = do paths' ← line_paths line paths; paths_of_lines lines paths'

-- `_patch_paths`
unfoldable pub patch_paths : Text → Result (List Text)
patch_paths patch = do
  paths ← paths_of_lines (splitlines patch) []
  guard (not (is_empty paths)) (Error.tool_violation (text "Patch has no file headers."))
  ok paths

abbrev pub is_changed_line : Text → Bool
is_changed_line line =
    starts_with_any (text "+" ∷ text "-" ∷ []) line
    && not (starts_with_any (text "+++" ∷ text "---" ∷ []) line)

-- `_changed_line_count`
unfoldable pub changed_line_count : Text → ℕ
changed_line_count patch = length (keep is_changed_line (splitlines patch))
