-- ===== src/Examples/Explore.antt =====
-- A model lists, searches and reads a small repository.
use git_hub_issue_to_impleme.Prelude.{
  ◌≤◌, ◌≡◌, refl, inr, true, some, List, [], ◌∷◌, arith, if◌then◌else◌, nat_eq, ◌==◌, pair_eq,
  length, Text, text, text_beq, text_eq, texts_beq, texts_eq, starts_with, strip, split_on, join,
  decimal, splitlines,
}
use git_hub_issue_to_impleme.Schemas.Runtime.{ExitCode}
use git_hub_issue_to_impleme.Paths.{parse, root_of, begins}
use git_hub_issue_to_impleme.Explore.Access.{
  Checkout, resolve_repository_file, truncate_lines, max_command_output,
}
use git_hub_issue_to_impleme.Explore.Read.{
  number_lines, numbered, selected, read_file, unique_on, section_of, read_repository_file_range,
  read_repository_files,
}
use git_hub_issue_to_impleme.Explore.Search.{
  list_repository_files, search_repository_files, get_recent_git_history,
}
use git_hub_issue_to_impleme.Explore.Confined.{
  ResolvesAlike, AgreesInside, LogsAlike, files-same, history-same,
}
use git_hub_issue_to_impleme.Explore.Bounded.{IsShort, answers-IsShort}
use git_hub_issue_to_impleme.Explore.Exact.{IsReadable, lines_of, read_repository_file_range-lines}

abbrev source : List Text
source = text "/" ∷ text "w" ∷ text "app.py" ∷ []

-- `/w/app.py`, a secret elsewhere and a link to it.
abbrev checkout : Text → Checkout
checkout secret = record {
  root = text "/" ∷ text "w" ∷ [];
  resolve = λ path.
      if path == text "/" ∷ text "w" ∷ text "link.py" ∷ []
      then inr (text "/" ∷ text "etc" ∷ text "secret" ∷ [])
      else inr path;
  is_file = λ file. true;
  exists = λ file. true;
  size = λ file. 20;
  read_bytes = λ file.
      if begins (text "/" ∷ text "w" ∷ []) file then text "import os\nprint(1)\n" else secret;
  decode = λ bytes. bytes;
  run = λ command.
      some (record { returncode = ExitCode.exited 0; stdout = text "app.py\n"; stderr = [] });
}

second_line : read_repository_file_range (checkout []) (text "app.py") 2 9 ≡ text "     2: print(1)"
unfolding read_repository_file_range strip resolve_repository_file parse root_of starts_with begins
    text_beq texts_beq split_on read_file splitlines truncate_lines join number_lines numbered
    decimal
second_line = refl

git_rejected :
    read_repository_file_range (checkout []) (text ".git/config") 1 9
    ≡ text "File access rejected: Access to .git is not allowed."
unfolding read_repository_file_range strip resolve_repository_file parse root_of starts_with begins
    text_beq texts_beq split_on
git_rejected = refl

two_read :
    read_repository_files (checkout []) (text "app.py" ∷ text "link.py" ∷ text "app.py" ∷ []) 1
    ≡ text
        "=== app.py ===\n     1: import os\n\n=== link.py ===\nFile access rejected: Path escapes the repository."
unfolding read_repository_files unique_on section_of read_repository_file_range strip
    resolve_repository_file parse root_of starts_with begins text_beq texts_beq split_on read_file
    splitlines truncate_lines join number_lines numbered decimal
two_read = refl

resolves_alike : ResolvesAlike (checkout (text "a")) (checkout (text "b"))
resolves_alike = record { same_root = refl; same_resolve = λ path. refl }

agrees : AgreesInside (checkout (text "a")) (checkout (text "b"))
agrees = record {
  same_decode = λ bytes. refl;
  same_is_file = λ file inside. refl;
  same_size = λ file inside. refl;
  same_bytes = λ file inside. rw inside.0 refl;
}

logs_alike : LogsAlike (checkout (text "a")) (checkout (text "b"))
logs_alike = record {
  same_exists = λ file inside. refl;
  same_log = λ limit low high. refl;
  same_file_log = λ limit file low high inside. refl;
}

files-same_example :
    (read_repository_file_range (checkout (text "a")) (text "app.py") 1 9
      ≡ read_repository_file_range (checkout (text "b")) (text "app.py") 1 9)
    × (read_repository_files (checkout (text "a")) (text "link.py" ∷ []) 9
        ≡ read_repository_files (checkout (text "b")) (text "link.py" ∷ []) 9)
files-same_example =
    files-same (checkout (text "a")) (checkout (text "b")) resolves_alike agrees
      (text "link.py" ∷ []) (text "app.py") 1 9 9

history-same_example :
    get_recent_git_history (checkout (text "a")) (some (text "app.py")) 50
    ≡ get_recent_git_history (checkout (text "b")) (some (text "app.py")) 50
history-same_example =
    history-same (checkout (text "a")) (checkout (text "b")) resolves_alike logs_alike
      (some (text "app.py")) 50

answers-IsShort_example :
    IsShort (list_repository_files (checkout []) (text "*.py"))
    × IsShort (search_repository_files (checkout []) (text "print") (text "*.py"))
    × IsShort (read_repository_files (checkout []) (text "app.py" ∷ []) 100)
answers-IsShort_example =
    answers-IsShort (checkout []) (text "print") (text "*.py") (text "app.py" ∷ []) 100

readable : IsReadable (checkout []) (text "app.py") 2 9 source
unfolding resolve_repository_file strip parse root_of starts_with begins text_beq texts_beq split_on
    splitlines
readable = record {
  named = refl;
  resolved = refl;
  is_there = refl;
  small = omega arith;
  is_text = refl;
  from_one = omega arith;
  forward = omega arith;
  few = omega arith;
  has_lines = omega arith;
}

short :
    length (join (text "\n") (number_lines 2 (selected (lines_of (checkout []) source) 2 9)))
    ≤ max_command_output
unfolding begins text_beq splitlines join number_lines numbered decimal
short = omega arith

read_repository_file_range-lines_example :
    splitlines (read_repository_file_range (checkout []) (text "app.py") 2 9)
    ≡ number_lines 2 (selected (lines_of (checkout []) source) 2 9)
read_repository_file_range-lines_example =
    read_repository_file_range-lines (checkout []) (text "app.py") 2 9 source readable short
