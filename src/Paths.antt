-- ===== src/Paths.antt =====
-- `pathlib.PurePosixPath`, as far as the program uses it on relative paths and globs.
pub mod Glob
pub mod Roundtrip
use git_hub_issue_to_impleme.Prelude.{
  texts_beq, ℕ, zero, suc, ◌+◌, ◌-◌, ◌*◌, ◌/◌, ◌%◌, ◌≤◌, ◌<◌, ◌≡◌, refl, sym, ap, ap₂, ◌∙◌, subst,
  ◌≢◌, ◌↔◌, ◌⊎◌, inl, inr, Bool, true, false, ◌&&◌, ◌||◌, Option, none, some, List, [], ◌∷◌, ◌++◌,
  map, append-nil, append_assoc, arith, ltb, leb, eqb, if◌then◌else◌, not, ltb→lt, leb→le, le→leb,
  eqb_iff, Bool-cases, Option-cases, and_true, Eq, ◌==◌, nat_eq, beq_refl, pair_beq, pair_beq_iff,
  pair_eq, some-injective, length, is_empty, or_else, take, drop, any, all, keep, head?, All, In,
  length-append, All-append, All-map, In-append_left, In-append_right, In-append, All-In, all_iff,
  contains, contains_iff, without, not-any, is_empty-append, is_empty-append_left, Text, text,
  text_beq, text_beq_iff, text_eq, starts_with, is_substring, ends_with, is_space, strip_left,
  strip, push_char, split_on, join, decimal_on, decimal, Error, is_value_error, Result, ◌>>=◌, ◌>>◌,
  guard, is_ok, >>=-eq-ok, ok-injective, err≢ok, or_raise, or_raise-eq-ok, guard-eq-ok,
  insert_sorted, sort, HeadAbove, IsOrdered, sort-IsOrdered, sort-fixed, sort-All, length-sort, ok,
  err,
}
use git_hub_issue_to_impleme.Paths.Glob.{fnmatch}
use mathlib.Core.List.{reverse}

-- A parsed path: its root (empty, "/" or "//") and its names.
pub record PosixPath : Type 0 where
  pub root : Text
  pub names : List Text

-- Empty and "." segments are dropped.
abbrev pub is_name : Text → Bool
is_name w = not (is_empty w) && not (w == text ".")

-- Exactly two leading slashes are a root of their own.
unfoldable pub root_of : Text → Text
root_of s =
    if starts_with (text "/") s
    then (if starts_with (text "//") s && not (starts_with (text "///") s)
        then text "//"
        else text "/")
    else []

-- `PurePosixPath(s)`
unfoldable pub parse : Text → PosixPath
parse s = record { root = root_of s; names = keep is_name (split_on b'/' s) }

abbrev pub is_absolute : PosixPath → Bool
is_absolute p = not (is_empty p.root)

-- `p.parts`
abbrev pub parts : PosixPath → List Text
parts p = if is_absolute p then p.root ∷ p.names else p.names

-- `p.as_posix()`
unfoldable pub as_posix : PosixPath → Text
as_posix p =
    if is_empty p.root && is_empty p.names then text "." else p.root ++ join (text "/") p.names

-- Equality of paths is equality of their parts.
abbrev pub same_path : PosixPath → PosixPath → Bool
same_path p q = texts_beq (parts p) (parts q)

-- `p.is_relative_to(q)`: the parts of `q` begin those of `p`.
unfoldable pub begins : List Text → List Text → Bool
begins [] ts = true
begins (s ∷ ss) [] = false
begins (s ∷ ss) (t ∷ ts) = s == t && begins ss ts

abbrev pub is_relative_to : PosixPath → PosixPath → Bool
is_relative_to p q = begins (parts q) (parts p)

-- Each pattern against the part at its place; more parts than patterns may be left over.
unfoldable pub match_parts : List Text → List Text → Bool
match_parts [] ts = true
match_parts (s ∷ ss) [] = false
match_parts (s ∷ ss) (t ∷ ts) = fnmatch s t && match_parts ss ts

-- `p.match(pattern)` for a relative pattern: from the right, one glob for each of the last parts.
-- A pattern with no parts is a ValueError. `**` is `*` here, as it is before Python 3.13 and, in
-- `match`, after it.
unfoldable pub match : PosixPath → PosixPath → Result Bool
match p pattern =
    if is_empty (parts pattern)
    then err (Error.value_error (text "empty pattern"))
    else ok (match_parts (reverse (parts pattern)) (reverse (parts p)))
