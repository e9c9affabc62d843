-- ===== src/Prelude/Splits.antt =====
-- The lines of a text have no line breaks, and lines without them come back from a joined text.
use mathlib.Core.Path.{◌≡◌, refl, ap, ◌∙◌}
use mathlib.Core.Bool.{false, ◌&&◌}
use mathlib.Core.Logic.{inl, inr}
use mathlib.Core.List.{List, [], ◌∷◌, ◌++◌}
use Prim.Native.Nat.{ℕ}
use git_hub_issue_to_impleme.Prelude.Tests.{eqb, Bool-cases, true≢false}
use git_hub_issue_to_impleme.Prelude.Lists.{All, is_empty}
use git_hub_issue_to_impleme.Prelude.Str.{Text, text, starts_with, push_char, join}
use git_hub_issue_to_impleme.Prelude.Lines.{is_line_break, splitlines}

-- A line: no character of it ends a line.
abbrev pub IsLine : Text → Type 0
IsLine s = All (λ c. is_line_break c ≡ false) s

push_char-IsLine :
    (c : ℕ) (lines : List Text)
    → is_line_break c ≡ false
    → All IsLine lines
    → All IsLine (push_char c lines)
push_char-IsLine c [] h _ = ((h, tt), tt)
push_char-IsLine c (line ∷ lines) h hs = ((h, hs.0), hs.1)

pub splitlines-IsLine : (s : Text) → All IsLine (splitlines s)
unfolding splitlines
splitlines-IsLine [] = tt
splitlines-IsLine (c ∷ s) = elim (Bool-cases (is_line_break c)) [
  | inr inside ↦ rw inside (push_char-IsLine c (splitlines s) inside (splitlines-IsLine s))
  | inl ends ↦ elim (Bool-cases (eqb c 13 && starts_with (text "\n") s)) [
    | inl first ↦ rw (ends, first) (splitlines-IsLine s)
    | inr whole ↦ rw (ends, whole) (tt, splitlines-IsLine s)
  ]
]

splitlines-newline :
    (w rest : Text) → IsLine w → splitlines (w ++ (text "\n" ++ rest)) ≡ w ∷ splitlines rest
unfolding splitlines
splitlines-newline [] rest h = refl
splitlines-newline (c ∷ w) rest h = rw (h.0, splitlines-newline w rest h.1) refl

splitlines-line : (c : ℕ) (w : Text) → IsLine (c ∷ w) → splitlines (c ∷ w) ≡ (c ∷ w) ∷ []
unfolding splitlines
splitlines-line c [] h = rw h.0 refl
splitlines-line c (d ∷ w) h = rw (h.0, splitlines-line d w h.1) refl

-- A line that `join` does not lose at the end.
abbrev pub IsFull : Text → Type 0
IsFull s = IsLine s × (is_empty s ≡ false)

pub splitlines-join :
    (lines : List Text) → All IsFull lines → splitlines (join (text "\n") lines) ≡ lines
unfolding join splitlines
splitlines-join [] h = refl
splitlines-join ([] ∷ []) h = absurd (true≢false h.0.1)
splitlines-join ((c ∷ w) ∷ []) h = splitlines-line c w h.0.0
splitlines-join (w ∷ v ∷ lines) h =
    splitlines-newline w (join (text "\n") (v ∷ lines)) h.0.0
    ∙ ap (w ∷◌) (splitlines-join (v ∷ lines) h.1)
