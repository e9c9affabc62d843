-- ===== src/Explore/Read.antt =====
-- `read_repository_file` and `read_repository_files`. A number below zero does what zero does.
use git_hub_issue_to_impleme.Prelude.{
  ℕ, zero, suc, ◌+◌, ◌-◌, ◌*◌, ◌⊎◌, inl, inr, ◌&&◌, List, [], ◌∷◌, ◌++◌, map, ltb, leb,
  if◌then◌else◌, not, nat_eq, pair_eq, length, is_empty, take, drop, contains, Text, text, text_eq,
  texts_eq, strip, join, decimal, splitlines,
}
use git_hub_issue_to_impleme.Runtime.Diff.{add_new}
use git_hub_issue_to_impleme.Explore.Access.{
  max_command_output, max_read_lines, max_batch_files, max_batch_lines_per_file,
  max_file_size_bytes, truncate_lines, Checkout, resolve_repository_file,
}

abbrev pub spaces : ℕ → Text
spaces zero = []
spaces (suc n) = b' ' ∷ spaces n

-- `f"{line_number:>6}: {line}"`
unfoldable pub numbered : ℕ → Text → Text
numbered line_number line =
    spaces (6 - length (decimal line_number)) ++ (decimal line_number ++ (text ": " ++ line))

-- `enumerate(selected_lines, start=start_line)`
unfoldable pub number_lines : ℕ → List Text → List Text
number_lines n [] = []
number_lines n (line ∷ lines) = numbered n line ∷ number_lines (n + 1) lines

-- `lines[start_line - 1 : end_line]`
abbrev pub selected : List Text → ℕ → ℕ → List Text
selected lines start_line end_line = drop (start_line - 1) (take end_line lines)

abbrev pub excerpt : ℕ → ℕ → List Text → Text
excerpt total start_line [] =
    text "No content in requested range. The file contains " ++ decimal total ++ text " lines."
excerpt total start_line (line ∷ lines) =
    truncate_lines (join (text "\n") (number_lines start_line (line ∷ lines))) max_read_lines
      max_command_output

-- What is read of a file whose path was resolved.
unfoldable pub read_file : Checkout → Text → ℕ → ℕ → List Text → Text
read_file checkout relative_path start_line end_line file =
    let lines = splitlines (checkout.decode (checkout.read_bytes file)) in
    if not (checkout.is_file file)
    then text "File does not exist: " ++ relative_path
    else (if ltb max_file_size_bytes (checkout.size file)
        then text "File is too large to read with this tool."
        else (if contains (checkout.read_bytes file) 0
            then text "Binary files cannot be read with this tool."
            else excerpt (length lines) start_line (selected lines start_line end_line)))

abbrev pub read_resolved : Checkout → Text → ℕ → ℕ → Text ⊎ List Text → Text
read_resolved checkout relative_path start_line end_line (inl message) =
    text "File access rejected: " ++ message
read_resolved checkout relative_path start_line end_line (inr file) =
    read_file checkout relative_path start_line end_line file

-- `_read_repository_file_range`, which is `read_repository_file` too
unfoldable pub read_repository_file_range : Checkout → Text → ℕ → ℕ → Text
read_repository_file_range checkout relative_path start_line end_line =
    if is_empty (strip relative_path)
    then text "File path cannot be empty."
    else (if ltb start_line 1
        then text "start_line must be at least 1."
        else (if ltb end_line start_line
            then text "end_line must be greater than or equal to start_line."
            else (if ltb max_read_lines (end_line - start_line + 1)
                then text "A maximum of 400 lines can be read at once."
                else read_resolved checkout relative_path start_line end_line
                    (resolve_repository_file checkout (strip relative_path)))))

-- `list(dict.fromkeys(paths))`
unfoldable pub unique_on : List Text → List Text → List Text
unique_on found [] = found
unique_on found (path ∷ paths) = unique_on (add_new path found) paths

abbrev pub unique_paths : List Text → List Text
unique_paths paths = unique_on [] paths

unfoldable pub section_of : Checkout → ℕ → Text → Text
section_of checkout max_lines relative_path =
    text "=== "
    ++ relative_path
    ++ text " ===\n"
    ++ read_repository_file_range checkout relative_path 1 max_lines

unfoldable pub read_repository_files : Checkout → List Text → ℕ → Text
read_repository_files checkout relative_paths max_lines =
    let paths = unique_paths relative_paths in
    if is_empty relative_paths
    then text "At least one file path is required."
    else (if ltb max_batch_files (length paths)
        then text "A maximum of 5 files can be read at once."
        else (if not (leb 1 max_lines && leb max_lines max_batch_lines_per_file)
            then text "max_lines_per_file must be between 1 and 200."
            else truncate_lines (join (text "\n\n") (map (section_of checkout max_lines) paths))
                (max_batch_files * (max_batch_lines_per_file + 2)) max_command_output))
