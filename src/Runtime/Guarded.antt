-- ===== src/Runtime/Guarded.antt =====
-- What `apply_file_patch` and `git_commit` have checked when they change the worktree.
use git_hub_issue_to_impleme.Prelude.{
  ◌≤◌, ◌≡◌, ap, ◌∙◌, subst, ◌⊎◌, inl, inr, true, false, Option, none, some, List, [], ◌∷◌, ◌++◌,
  map, leb, not, leb→le, Bool-cases, nat_eq, pair_eq, not-true, length, is_empty, All, Text,
  text_beq_iff, text_eq, texts_eq, strip, utf8_length, Error, guard, >>=-eq-ok, ok-injective,
  or_raise, or_raise-eq-ok, guard-eq-ok, Result-cases, ok,
}
use git_hub_issue_to_impleme.Schemas.Runtime.{WorkerAssignment}
use git_hub_issue_to_impleme.Guard.Ownership.{Answer, verify_ownership}
use git_hub_issue_to_impleme.Runtime.Tool.{Effect, Service}
use git_hub_issue_to_impleme.Runtime.Limits.{max_patch_bytes, max_patch_files, max_changed_lines}
use git_hub_issue_to_impleme.Runtime.Diff.{patch_paths, changed_line_count}
use git_hub_issue_to_impleme.Runtime.Approval.{
  World, guarded_path, expected_hash, check_hash, check_file, check_files, same_names,
  approve_patch,
}
use git_hub_issue_to_impleme.Runtime.Patch.{apply_file_patch}

-- The file is as the caller says: absent, or there with the hash.
abbrev pub HashMatches : World → List Text → Option Text → Type 0
HashMatches world file none = world.exists file ≡ false
HashMatches world file (some hash) = (world.exists file ≡ true) × (world.sha256 file ≡ ok hash)

-- The path is guarded, and its file is as the caller expects it.
pub record IsExpected (world : World) (a : WorkerAssignment) (expected : List (Text × Option Text))
    (path : Text) : Type 0 where
  pub file : List Text
  pub guarded : guarded_path world.machine world.tree a path ≡ ok file
  pub hash : Option Text
  pub named : expected_hash path expected ≡ some hash
  pub matched : HashMatches world file hash

pub record IsApproved (world : World) (a : WorkerAssignment) (patch : Text)
    (expected : List (Text × Option Text)) (paths : List Text) : Type 0 where
  pub worktree : Text
  pub owned : verify_ownership world.machine a ≡ ok worktree
  pub small : utf8_length patch ≤ max_patch_bytes
  pub read : patch_paths patch ≡ ok paths
  pub few_files : length paths ≤ max_patch_files
  pub few_lines : changed_line_count patch ≤ max_changed_lines
  pub listed : same_names (map (λ e. e.0) expected) paths ≡ true
  pub as_expected : All (IsExpected world a expected) paths
  pub tested : (answer : Answer) × (world.check_patch patch ≡ ok answer) × (answer.succeeded ≡ true)

check_hash-eq-ok :
    (world : World) (path : Text) (file : List Text) (hash : Option Text) {u : Unit {0}}
    → check_hash world path file hash ≡ ok u
    → HashMatches world file hash
unfolding check_hash
check_hash-eq-ok world path file none e = not-true (guard-eq-ok _ _ e)
check_hash-eq-ok world path file (some hash) e =
    let (_, there, e₁) = >>=-eq-ok (guard (world.exists file) _) _ e in
    let (actual, read, e₂) = >>=-eq-ok (world.sha256 file) _ e₁ in
    (guard-eq-ok _ _ there, read ∙ ap ok ((text_beq_iff actual hash).0 (guard-eq-ok _ _ e₂)))

check_file-IsExpected :
    (world : World) (a : WorkerAssignment) (expected : List (Text × Option Text)) (path : Text)
    {u : Unit {0}}
    → check_file world a expected path ≡ ok u
    → IsExpected world a expected path
unfolding check_file
check_file-IsExpected world a expected path e =
    let (file, guarded, e₁) = >>=-eq-ok (guarded_path world.machine world.tree a path) _ e in
    let (hash, named, e₂) =
      >>=-eq-ok (or_raise (expected_hash path expected) (Error.key_error path)) _ e₁ in
    record {
      file = file;
      guarded = guarded;
      hash = hash;
      named = or_raise-eq-ok _ _ named;
      matched = check_hash-eq-ok world path file hash e₂;
    }

check_files-IsExpected :
    (world : World) (a : WorkerAssignment) (expected : List (Text × Option Text))
    (paths : List Text) {u : Unit {0}}
    → check_files world a expected paths ≡ ok u
    → All (IsExpected world a expected) paths
unfolding check_files
check_files-IsExpected world a expected [] e = tt
check_files-IsExpected world a expected (path ∷ paths) e =
    let (_, one, e₁) = >>=-eq-ok (check_file world a expected path) _ e in
    (
      check_file-IsExpected world a expected path one,
      check_files-IsExpected world a expected paths e₁,
    )

approve_patch-IsApproved :
    (world : World) (a : WorkerAssignment) (patch : Text) (expected : List (Text × Option Text))
    {paths : List Text}
    → approve_patch world a patch expected ≡ ok paths
    → IsApproved world a patch expected paths
unfolding approve_patch
approve_patch-IsApproved world a patch expected e =
    let (worktree, owned, e₁) = >>=-eq-ok (verify_ownership world.machine a) _ e in
    let (_, full, e₂) = >>=-eq-ok (guard (not (is_empty (strip patch))) _) _ e₁ in
    let (_, small, e₃) = >>=-eq-ok (guard (leb (utf8_length patch) max_patch_bytes) _) _ e₂ in
    let (changed, read, e₄) = >>=-eq-ok (patch_paths patch) _ e₃ in
    let (_, few, e₅) = >>=-eq-ok (guard (leb (length changed) max_patch_files) _) _ e₄ in
    let (_, lines, e₆) =
      >>=-eq-ok (guard (leb (changed_line_count patch) max_changed_lines) _) _ e₅ in
    let (_, listed, e₇) = >>=-eq-ok (guard (same_names (map (λ e. e.0) expected) changed) _) _ e₆ in
    let (_, files, e₈) = >>=-eq-ok (check_files world a expected changed) _ e₇ in
    let (answer, tested, e₉) = >>=-eq-ok (world.check_patch patch) _ e₈ in
    let (_, fine, made) = >>=-eq-ok (guard answer.succeeded _) _ e₉ in
    subst (IsApproved world a patch expected) (ok-injective made) (record {
      worktree = worktree;
      owned = owned;
      small = leb→le _ _ (guard-eq-ok _ _ small);
      read = read;
      few_files = leb→le _ _ (guard-eq-ok _ _ few);
      few_lines = leb→le _ _ (guard-eq-ok _ _ lines);
      listed = guard-eq-ok _ _ listed;
      as_expected = check_files-IsExpected world a expected changed files;
      tested = (answer, tested, guard-eq-ok _ _ fine);
    })

-- Whatever `apply_file_patch` returns or raises, either nothing was done to the worktree, or just
-- this patch was applied, and before that every check of it had passed: ownership, the bounds on
-- bytes, files and lines, every changed path guarded and its file as the caller expects it, and the
-- trial run of Git.
pub apply_file_patch-IsApproved :
    (world : World) (a : WorkerAssignment) (patch : Text) (expected : List (Text × Option Text))
    (s : Service)
    → ((apply_file_patch world a patch expected s).1.effects ≡ s.effects)
      ⊎ (((apply_file_patch world a patch expected s).1.effects
            ≡ s.effects ++ Effect.patch_applied patch ∷ [])
          × (paths : List Text) × IsApproved world a patch expected paths)
unfolding apply_file_patch
apply_file_patch-IsApproved world a patch expected s =
    elim (Result-cases (approve_patch world a patch expected)) [
      | inl (e, refused) ↦ inl (rw refused)
      | inr (paths, approved) ↦ inr (
        rw approved (elim (Result-cases (world.apply_patch patch)) [
          | inl (e, failed) ↦ rw failed
          | inr (answer, ran) ↦
              rw ran
                (elim (Bool-cases answer.succeeded) [ inl fine ↦ rw fine | inr failed ↦ rw failed ])
        ]),
        paths,
        approve_patch-IsApproved world a patch expected approved,
      )
    ]
