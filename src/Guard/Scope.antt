-- ===== src/Guard/Scope.antt =====
-- Where `PurePath.match` and the missing normalisation widen the scope of `path_is_assigned`.
use git_hub_issue_to_impleme.Prelude.{
  ◌≡◌, refl, ap, inl, inr, true, List, [], ◌∷◌, ◌++◌, Bool-cases, or_true, nat_eq, pair_eq, keep,
  Text, text, text_beq, text_eq, starts_with, ends_with, is_space, strip_left, strip, split_on,
  join, ok,
}
use mathlib.Core.List.{reverse, reverse-append}
use git_hub_issue_to_impleme.Paths.{
  PosixPath, parse, parts, as_posix, begins, match, match_parts, same_path, is_name, root_of,
}
use git_hub_issue_to_impleme.Paths.Glob.{fnmatch, fnmatch-stars, pieces, matches, takes}
use git_hub_issue_to_impleme.Guard.{
  normalise_relative_path, path_is_assigned, pattern_admits, strip_slashes, is_tree, tree_root,
}

abbrev pub src_tree : Text
src_tree = text "src/**"

src_tree-parts : parts (parse src_tree) ≡ text "src" ∷ text "**" ∷ []
unfolding parse root_of starts_with split_on text_beq
src_tree-parts = refl

fnmatch-src : fnmatch (text "src") (text "src") ≡ true
unfolding fnmatch pieces matches takes
fnmatch-src = refl

match_parts-src :
    (above : List Text) (name : Text)
    → match_parts (text "**" ∷ text "src" ∷ []) (name ∷ text "src" ∷ above) ≡ true
unfolding match_parts
match_parts-src above name = rw (fnmatch-stars name, fnmatch-src)

-- `match` reads the pattern from the right: any file whose directory is called `src` matches
-- `src/**`, wherever that directory stands.
pub match-any_src :
    (above : List Text) (name : Text)
    → match (record { root = []; names = above ++ text "src" ∷ name ∷ [] }) (parse src_tree)
      ≡ ok true
unfolding match
match-any_src above name =
    rw (src_tree-parts, reverse-append above (text "src" ∷ name ∷ []))
      (ap ok (match_parts-src (reverse above) name))

pattern_admits_of_match :
    (candidate : PosixPath) (pattern : Text)
    → match candidate (parse pattern) ≡ ok true
    → pattern_admits candidate pattern ≡ ok true
unfolding pattern_admits
pattern_admits_of_match candidate pattern m =
    elim (Bool-cases (same_path candidate (parse pattern))) [
      | inl same ↦ rw same
      | inr other ↦ rw (other, m)
    ]

-- A scope of `src/**` admits every file whose directory is called `src`, at any depth and under any
-- other directory.
pub src_tree-admits_any_src :
    (above : List Text) (name : Text)
    → pattern_admits (record { root = []; names = above ++ text "src" ∷ name ∷ [] }) src_tree
      ≡ ok true
src_tree-admits_any_src above name =
    pattern_admits_of_match (record { root = []; names = above ++ text "src" ∷ name ∷ [] }) src_tree
      (match-any_src above name)

src_tree-match :
    (candidate : PosixPath)
    → match candidate (parse src_tree)
      ≡ ok (match_parts (reverse (text "src" ∷ text "**" ∷ [])) (reverse (parts candidate)))
unfolding match
src_tree-match candidate = rw src_tree-parts

src_tree-is_tree : is_tree src_tree ≡ true
unfolding ends_with starts_with
src_tree-is_tree = refl

src_tree-root : parts (parse (tree_root src_tree)) ≡ text "src" ∷ []
unfolding strip_slashes parse root_of starts_with split_on text_beq
src_tree-root = refl

begins-src : (rest : List Text) → begins (text "src" ∷ []) (text "src" ∷ rest) ≡ true
unfolding begins text_beq
begins-src rest = refl

src_tree-below :
    (rest : List Text)
    → pattern_admits (record { root = []; names = text "src" ∷ rest }) src_tree ≡ ok true
unfolding pattern_admits
src_tree-below rest =
    let candidate : PosixPath = record { root = []; names = text "src" ∷ rest } in
    elim (Bool-cases (same_path candidate (parse src_tree))) [
      | inl same ↦ rw same
      | inr other ↦
          rw (other, src_tree-match candidate, src_tree-is_tree, src_tree-root, begins-src rest)
            (ap ok (or_true _))
    ]

src_tree-normal : normalise_relative_path src_tree ≡ ok src_tree
unfolding normalise_relative_path strip strip_left is_space parse root_of starts_with split_on
    text_beq as_posix join
src_tree-normal = refl

parse-escape :
    (s : Text)
    → parse (text "src/../" ++ s)
      ≡ record { root = []; names = text "src" ∷ text ".." ∷ keep is_name (split_on b'/' s) }
unfolding parse root_of starts_with split_on text_beq
parse-escape s = refl

-- `path_is_assigned` does not normalise its argument: with a scope of `src/**` it accepts every
-- path that starts with `src/../`.
pub path_is_assigned-escape :
    (s : Text) → path_is_assigned (src_tree ∷ []) (text "src/../" ++ s) ≡ ok true
unfolding path_is_assigned
path_is_assigned-escape s =
    rw
      (src_tree-normal, parse-escape s, src_tree-below (text ".." ∷ keep is_name (split_on b'/' s)))
