-- ===== src/Explore/Bounded.antt =====
-- How long the answers of the repository tools are.
use git_hub_issue_to_impleme.Prelude.{
  ℕ, ◌+◌, ◌*◌, ◌≤◌, ◌≡◌, refl, Bool, true, false, ◌&&◌, ◌||◌, Option, none, some, List, ◌++◌, map,
  arith, ltb, leb, if◌then◌else◌, not, ltb-false, nat_eq, pair_eq, or_false, length, is_empty, take,
  length-append, Text, text, text_eq, texts_eq, strip, join, splitlines, length-take,
}
use git_hub_issue_to_impleme.Explore.Access.{
  max_command_output, max_listed_files, max_search_results, max_batch_files,
  max_batch_lines_per_file, truncate_lines, CompletedProcess, Checkout,
}
use git_hub_issue_to_impleme.Explore.Read.{unique_paths, section_of, read_repository_files}
use git_hub_issue_to_impleme.Explore.Search.{
  is_exit, glob_of, is_too_long, list_command, listed, list_repository_files, search_command, found,
  search_repository_files,
}

-- The bound on an output, with the mark that it was cut.
abbrev pub IsShort : Text → Type 0
IsShort t = length t ≤ max_command_output + 25

if_both :
    {A : Type 0} (P : A → Type 0) (b : Bool) {x y : A}
    → (b ≡ true → P x)
    → (b ≡ false → P y)
    → P (if b then x else y)
if_both P true hx hy = hx refl
if_both P false hx hy = hy refl

truncate_lines-IsShort :
    (t : Text) (max_lines : ℕ) → IsShort (truncate_lines t max_lines max_command_output)
unfolding truncate_lines
truncate_lines-IsShort t max_lines =
    let output = take max_command_output (join (text "\n") (take max_lines (splitlines t))) in
    let short = length-take max_command_output (join (text "\n") (take max_lines (splitlines t))) in
    if_both IsShort (ltb max_lines (length (splitlines t)) || ltb max_command_output (length t))
      (λ _. omega (arith, short, length-append output (text "\n... output truncated ...")))
      (λ _. omega (arith, short))

prefixed-IsShort : (front t : Text) → length front ≤ 100 → length t ≤ 1000 → IsShort (front ++ t)
prefixed-IsShort front t hf ht = omega (arith, length-append front t)

is_too_long-false : (s : Text) → is_too_long s ≡ false → length s ≤ 1000
is_too_long-false s h = let short = ltb-false 200 (length s) (or_false h).0 in omega (arith, short)

listed-IsShort :
    (file_glob : Text) (answer : Option CompletedProcess)
    → length file_glob ≤ 1000
    → IsShort (listed file_glob answer)
listed-IsShort file_glob none h = omega arith
listed-IsShort file_glob (some result) h =
    if_both IsShort (not (is_exit 0 result.returncode || is_exit 1 result.returncode))
      (λ _.
        prefixed-IsShort (text "File listing failed: ") (take 1000 result.stderr) (omega arith)
          (length-take 1000 result.stderr))
      λ _.
        if_both IsShort (is_empty (strip result.stdout))
          (λ _. prefixed-IsShort (text "No files matched glob: ") file_glob (omega arith) h)
          λ _. truncate_lines-IsShort result.stdout max_listed_files

found-IsShort :
    (query : Text) (answer : Option CompletedProcess)
    → length query ≤ 1000
    → IsShort (found query answer)
found-IsShort query none h = omega arith
found-IsShort query (some result) h =
    if_both IsShort (is_exit 1 result.returncode)
      (λ _. prefixed-IsShort (text "No matches found for: ") query (omega arith) h)
      λ _.
        if_both IsShort (not (is_exit 0 result.returncode))
          (λ _.
            prefixed-IsShort (text "Repository search failed: ") (take 1000 result.stderr)
              (omega arith) (length-take 1000 result.stderr))
          λ _. truncate_lines-IsShort result.stdout max_search_results

list_repository_files-IsShort :
    (checkout : Checkout) (file_glob : Text) → IsShort (list_repository_files checkout file_glob)
unfolding list_repository_files
list_repository_files-IsShort checkout file_glob =
    if_both IsShort (is_too_long (glob_of file_glob)) (λ _. omega arith)
      λ short.
        listed-IsShort (glob_of file_glob) (checkout.run (list_command (glob_of file_glob)))
          (is_too_long-false _ short)

search_repository_files-IsShort :
    (checkout : Checkout) (query file_glob : Text)
    → IsShort (search_repository_files checkout query file_glob)
unfolding search_repository_files
search_repository_files-IsShort checkout query file_glob =
    if_both IsShort (is_empty (strip query)) (λ _. omega arith)
      λ _.
        if_both IsShort (is_too_long (strip query)) (λ _. omega arith)
          λ short.
            if_both IsShort (is_too_long (glob_of file_glob)) (λ _. omega arith)
              λ _.
                found-IsShort (strip query)
                  (checkout.run (search_command (strip query) (glob_of file_glob)))
                  (is_too_long-false _ short)

read_repository_files-IsShort :
    (checkout : Checkout) (paths : List Text) (max_lines : ℕ)
    → IsShort (read_repository_files checkout paths max_lines)
unfolding read_repository_files
read_repository_files-IsShort checkout paths max_lines =
    if_both IsShort (is_empty paths) (λ _. omega arith)
      λ _.
        if_both IsShort (ltb max_batch_files (length (unique_paths paths))) (λ _. omega arith)
          λ _.
            if_both IsShort (not (leb 1 max_lines && leb max_lines max_batch_lines_per_file))
              (λ _. omega arith)
              λ _.
                truncate_lines-IsShort
                  (join (text "\n\n") (map (section_of checkout max_lines) (unique_paths paths)))
                  (max_batch_files * (max_batch_lines_per_file + 2))

-- Whatever a model asks and whatever the repository and ripgrep hold for it, an answer of the
-- listing, the search and the reading of several files has at most 12000 characters and the mark of
-- 25 that it was cut.
pub answers-IsShort :
    (checkout : Checkout) (query file_glob : Text) (paths : List Text) (max_lines : ℕ)
    → IsShort (list_repository_files checkout file_glob)
      × IsShort (search_repository_files checkout query file_glob)
      × IsShort (read_repository_files checkout paths max_lines)
answers-IsShort checkout query file_glob paths max_lines = (
  list_repository_files-IsShort checkout file_glob,
  search_repository_files-IsShort checkout query file_glob,
  read_repository_files-IsShort checkout paths max_lines,
)
