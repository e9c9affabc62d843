-- ===== src/Prelude/Lines.antt =====
-- Lines and pieces of a text: `str.splitlines`, splits at a separator of several characters, and
-- the size of a text in UTF-8.
use mathlib.Core.Path.{◌≡◌, refl}
use mathlib.Core.Bool.{Bool, ◌&&◌, ◌||◌}
use mathlib.Core.Option.{Option, none, some}
use mathlib.Core.List.{List, [], ◌∷◌}
use Prim.Native.Nat.{ℕ, zero, suc, ◌+◌, ◌≤◌}
use native.Mathlib.Omega.{arith}
use git_hub_issue_to_impleme.Prelude.Tests.{eqb, leb, ltb, if◌then◌else◌, not}
use git_hub_issue_to_impleme.Prelude.Lists.{length, take, drop, is_empty}
use git_hub_issue_to_impleme.Prelude.Str.{Text, text, starts_with, push_char}

-- The characters at which `str.splitlines` ends a line.
abbrev pub is_line_break : ℕ → Bool
is_line_break c =
    leb 10 c && leb c 13 || (leb 28 c && leb c 30 || (eqb c 133 || (eqb c 8232 || eqb c 8233)))

-- `s.splitlines()`: "\r\n" ends one line, and the last line need not be ended.
unfoldable pub splitlines : Text → List Text
unfolding starts_with
splitlines [] = []
splitlines (c ∷ s) =
    let rest = splitlines s in
    if is_line_break c
    then (if eqb c 13 && starts_with (text "\n") s then rest else [] ∷ rest)
    else push_char c rest

-- The two parts of a split at the first occurrence of a separator, `s.split(sep, 1)`.
abbrev pub prefixed : ℕ → Option (Text × Text) → Option (Text × Text)
prefixed c none = none
prefixed c (some (front, back)) = some (c ∷ front, back)

unfoldable pub split_first : Text → Text → Option (Text × Text)
unfolding starts_with
split_first sep [] = none
split_first sep (c ∷ s) =
    let later = prefixed c (split_first sep s) in
    if starts_with sep (c ∷ s) then some ([], drop (length sep) (c ∷ s)) else later

-- The split at the last occurrence that has something behind it.
abbrev pub first_some : Option (Text × Text) → Option (Text × Text) → Option (Text × Text)
first_some none other = other
first_some (some p) other = some p

unfoldable pub split_last : Text → Text → Option (Text × Text)
unfolding starts_with
split_last sep [] = none
split_last sep (c ∷ s) =
    let later = prefixed c (split_last sep s) in
    let behind = drop (length sep) (c ∷ s) in
    first_some later
      (if starts_with sep (c ∷ s) && not (is_empty behind) then some ([], behind) else none)

-- The bytes of a character in UTF-8.
abbrev pub utf8_width : ℕ → ℕ
utf8_width c = if ltb c 128 then 1 else (if ltb c 2048 then 2 else (if ltb c 65536 then 3 else 4))

-- `len(s.encode("utf-8"))`, for a text without lone surrogates
unfoldable pub utf8_length : Text → ℕ
utf8_length [] = 0
utf8_length (c ∷ s) = utf8_width c + utf8_length s

module _ {ℓ} {A : Type ℓ} where
  pub length-take : (n : ℕ) (xs : List A) → length (take n xs) ≤ n
  length-take zero xs = omega arith
  length-take (suc n) [] = omega arith
  length-take (suc n) (x ∷ xs) = omega (arith, length-take n xs)

  pub length-take-le : (n : ℕ) (xs : List A) → length (take n xs) ≤ length xs
  length-take-le zero xs = omega arith
  length-take-le (suc n) [] = omega arith
  length-take-le (suc n) (x ∷ xs) = omega (arith, length-take-le n xs)

  pub take-length_le : (n : ℕ) (xs : List A) → length xs ≤ n → take n xs ≡ xs
  take-length_le zero [] h = refl
  take-length_le zero (x ∷ xs) h = absurd (omega arith)
  take-length_le (suc n) [] h = refl
  take-length_le (suc n) (x ∷ xs) h = ground (arith, take-length_le n xs)
