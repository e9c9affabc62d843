-- ===== src/Paths/Glob.antt =====
-- `fnmatch.fnmatchcase` on one path segment, as `PurePath.match` uses it: `*`, `?` and `[...]`.
use git_hub_issue_to_impleme.Prelude.{
  ℕ, zero, suc, ◌≡◌, refl, Bool, true, false, ◌&&◌, ◌||◌, Option, none, some, List, [], ◌∷◌, leb,
  eqb, if◌then◌else◌, not, nat_eq, pair_eq, length, any, Text, text, text_eq,
}

pub data Piece : Type 0 where
  star one : Piece
  exact : ℕ → Piece
  -- negated, and the ranges of the set
  class : Bool → List (ℕ × ℕ) → Piece

-- What stands between `[` and the `]` that closes it, and the rest; `none` if nothing closes it.
unfoldable pub class_text : Text → Option (Text × Text)
class_text [] = none
class_text (c ∷ s) =
    let rest = class_text s in
    if eqb c b']' then some ([], s) else elim rest [ none ↦ none | some (t, r) ↦ some (c ∷ t, r) ]

-- A `]` or `!]` at the start is part of the set.
unfoldable pub class_split : Text → Option (Text × Text)
class_split [] = none
class_split (c ∷ []) = class_text (c ∷ [])
class_split (c ∷ d ∷ s) =
    if eqb c b']'
    then elim (class_text (d ∷ s)) [ none ↦ none | some (t, r) ↦ some (c ∷ t, r) ]
    else if eqb c b'!' && eqb d b']'
    then elim (class_text s) [ none ↦ none | some (t, r) ↦ some (c ∷ d ∷ t, r) ]
    else class_text (c ∷ d ∷ s)

unfoldable pub ranges : Text → List (ℕ × ℕ)
ranges [] = []
ranges (c ∷ []) = (c, c) ∷ []
ranges (c ∷ d ∷ []) = (c, c) ∷ (d, d) ∷ []
ranges (c ∷ d ∷ e ∷ s) =
    let span = (c, e) ∷ ranges s in
    let single = (c, c) ∷ ranges (d ∷ e ∷ s) in if eqb d b'-' then span else single

unfoldable pub set_piece : Text → Piece
set_piece [] = Piece.class false []
set_piece (c ∷ s) =
    if eqb c b'!' then Piece.class true (ranges s) else Piece.class false (ranges (c ∷ s))

-- The pieces of a pattern, on fuel of its length.
unfoldable pub pieces : ℕ → Text → List Piece
pieces zero s = []
pieces (suc f) [] = []
pieces (suc f) (c ∷ s) =
    let next = pieces f s in
    if eqb c b'*'
    then Piece.star ∷ next
    else if eqb c b'?'
    then Piece.one ∷ next
    else if eqb c b'['
    then elim (class_split s) [
      | none ↦ Piece.exact c ∷ next
      | some (t, r) ↦ set_piece t ∷ pieces f r
    ]
    else Piece.exact c ∷ next

abbrev pub in_range : ℕ → ℕ × ℕ → Bool
in_range c (lo, hi) = leb lo c && leb c hi

-- Does the piece, which is no star, take this character?
unfoldable pub takes : Piece → ℕ → Bool
takes Piece.star c = true
takes Piece.one c = true
takes (Piece.exact d) c = eqb c d
takes (Piece.class true rs) c = not (any (in_range c) rs)
takes (Piece.class false rs) c = any (in_range c) rs

-- What `test` says of some suffix of the text.
unfoldable pub some_suffix : (Text → Bool) → Text → Bool
some_suffix test [] = test []
some_suffix test (c ∷ s) = test (c ∷ s) || some_suffix test s

unfoldable pub matches : List Piece → Text → Bool
matches [] [] = true
matches [] (c ∷ s) = false
matches (Piece.star ∷ ps) s = some_suffix (matches ps) s
matches (p ∷ ps) [] = false
matches (p ∷ ps) (c ∷ s) = takes p c && matches ps s

-- `fnmatchcase(name, pattern)`
unfoldable pub fnmatch : Text → Text → Bool
fnmatch pattern name = matches (pieces (suc (length pattern)) pattern) name

all_of_star : (s : Text) → some_suffix (matches []) s ≡ true
unfolding some_suffix matches
all_of_star [] = refl
all_of_star (c ∷ s) = all_of_star s

all_of_two_stars : (s : Text) → some_suffix (matches (Piece.star ∷ [])) s ≡ true
unfolding some_suffix matches
all_of_two_stars [] = refl
all_of_two_stars (c ∷ s) = rw (all_of_star s)

pieces-stars : pieces 3 (text "**") ≡ Piece.star ∷ Piece.star ∷ []
unfolding pieces
pieces-stars = refl

matches-stars : (s : Text) → matches (Piece.star ∷ Piece.star ∷ []) s ≡ true
unfolding matches
matches-stars s = all_of_two_stars s

-- The pattern `**` matches every segment.
pub fnmatch-stars : (s : Text) → fnmatch (text "**") s ≡ true
unfolding fnmatch
fnmatch-stars s = rw pieces-stars (matches-stars s)
