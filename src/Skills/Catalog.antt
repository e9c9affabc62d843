-- ===== src/Skills/Catalog.antt =====
-- `SkillCatalog` of src/agents/skill_catalog.py.
use git_hub_issue_to_impleme.Prelude.{
  Bool, ◌&&◌, Option, some, List, [], ◌∷◌, ◌++◌, if◌then◌else◌, not, nat_eq, pair_eq, is_empty, any,
  keep, contains, Text, text, text_eq, texts_eq, Error, Result, guard, ◌>>=◌, ◌>>◌, or_raise, ok,
  err,
}
use git_hub_issue_to_impleme.Paths.{parse, parts, is_absolute, begins, as_posix}

-- One entry of the manifest. A name or a snapshot that is there is a text, and roles are lists.
pub record Entry : Type 0 where
  pub name : Option Text
  pub snapshot : Option Text
  pub description : Text
  pub source : Text
  pub roles : List Text
  pub required_for : List Text

-- What is found at `docs/skills/catalog.json`; `unreadable` has the reason.
pub data Manifest : Type 0 where
  missing : Manifest
  unreadable : Text → Manifest
  listless : Manifest
  listing : List Entry → Manifest

pub record SkillCatalog : Type 0 where
  pub project_root : Text
  pub entries : List Entry

-- Directories and files are their parts.
pub record SkillDescriptor : Type 0 where
  pub name : Text
  pub description : Text
  pub source : Text
  pub snapshot_dir : List Text
  pub skill_file : List Text

-- Where a path resolves to, and which files there are.
pub record Place : Type 0 where
  pub resolve : List Text → List Text
  pub is_file : List Text → Bool

-- `from_project`, for a root that is resolved
unfoldable pub from_project : Text → Manifest → Result SkillCatalog
from_project root missing = err (
    Error.value_error
      (text "Skill catalog is missing: " ++ (root ++ text "/docs/skills/catalog.json")))
from_project root (unreadable reason) =
    err (Error.value_error (text "Skill catalog cannot be read: " ++ reason))
from_project root listless =
    err (Error.type_error (text "Skill catalog must contain a skills list."))
from_project root (listing entries) = ok (record { project_root = root; entries = entries })

abbrev pub has_role : Text → Entry → Bool
has_role role e = contains e.roles role

abbrev pub named_entry : Option Text → Option Text → Result (Text × Text)
named_entry (some name) (some snapshot) = ok (name, snapshot)
named_entry name snapshot =
    err (Error.type_error (text "Every skill catalog entry needs a name and snapshot."))

-- `self.project_root / "docs" / "skills" / snapshot`
abbrev pub snapshot_parts : Text → Text → List Text
snapshot_parts root snapshot =
    if is_absolute (parse snapshot)
    then parts (parse snapshot)
    else parts (parse root) ++ (text "docs" ∷ text "skills" ∷ (parse snapshot).names)

abbrev path_text : List Text → Text
path_text [] = text "."
path_text (root ∷ names) = as_posix (record { root = root; names = names })

-- The descriptor of one entry.
unfoldable pub describe : Place → Text → Entry → Result SkillDescriptor
describe place root e = do
  both ← named_entry e.name e.snapshot
  let snapshot_dir = place.resolve (snapshot_parts root both.1)
  guard (begins (parts (parse root)) snapshot_dir)
      (Error.value_error (text "Skill snapshot escapes the project: " ++ both.0))
  guard (place.is_file (snapshot_dir ++ text "SKILL.md" ∷ [])) (
      Error.value_error
        (text "Skill snapshot is incomplete: " ++ path_text (snapshot_dir ++ text "SKILL.md" ∷ [])))
  ok (record {
    name = both.0;
    description = e.description;
    source = e.source;
    snapshot_dir = snapshot_dir;
    skill_file = snapshot_dir ++ text "SKILL.md" ∷ [];
  })

unfoldable pub describe_all : Place → Text → List Entry → Result (List SkillDescriptor)
describe_all place root [] = ok []
describe_all place root (e ∷ entries) = do
  one ← describe place root e
  rest ← describe_all place root entries
  ok (one ∷ rest)

-- `skills_for`
unfoldable pub skills_for : Place → SkillCatalog → Text → Result (List SkillDescriptor)
skills_for place catalog role = do
  guard (not (is_empty (keep (has_role role) catalog.entries)))
      (Error.value_error (text "Unknown agent role or empty skill route: " ++ role))
  describe_all place catalog.project_root (keep (has_role role) catalog.entries)

unfoldable pub names_of : List Entry → Result (List Text)
names_of [] = ok []
names_of (e ∷ entries) = do
  name ← or_raise e.name (Error.key_error (text "name"))
  rest ← names_of entries
  ok (name ∷ rest)

-- `required_skills_for`
unfoldable pub required_skills_for : SkillCatalog → Text → Result (List Text)
required_skills_for catalog role = do
  guard (any (has_role role) catalog.entries)
      (Error.value_error (text "Unknown agent role: " ++ role))
  names_of (keep (λ e. has_role role e && contains e.required_for role) catalog.entries)
