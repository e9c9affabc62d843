-- ===== src/Prelude/Str.antt =====
-- Python strings as lists of code points, and the `str` methods that the program calls.
use Prim.Native.Nat.{ℕ, zero, suc, ◌+◌, ◌/◌, ◌%◌}
use Prim.Native.Char.{code}
use Prim.Native.String.{String}
use mathlib.Core.Path.{◌≡◌, refl, ap, ◌∙◌}
use mathlib.Core.Logic.{◌↔◌, inl, inr}
use mathlib.Core.Bool.{Bool, true, false, ◌&&◌, ◌||◌}
use mathlib.Core.List.{List, [], ◌∷◌, ◌++◌, reverse}
use native.Mathlib.Omega.{arith}
use git_hub_issue_to_impleme.Prelude.Tests.{
  eqb, leb, ltb, if◌then◌else◌, Eq, Bool-cases, eqb_iff, true≢false,
}
use git_hub_issue_to_impleme.Prelude.Lists.{is_empty, any, All}

abbrev pub Text : Type 0
Text = List ℕ

-- A literal of the source.
abbrev pub text : String → Text
text String.[] = []
text (String.◌∷◌ c s) = code c ∷ text s

unfoldable pub text_beq : Text → Text → Bool
text_beq [] [] = true
text_beq [] (d ∷ t) = false
text_beq (c ∷ s) [] = false
text_beq (c ∷ s) (d ∷ t) = eqb c d && text_beq s t

pub text_beq_iff : (s t : Text) → (text_beq s t ≡ true) ↔ (s ≡ t)
unfolding text_beq
text_beq_iff [] [] = (λ _. refl, λ _. refl)
text_beq_iff [] (d ∷ t) = (λ h. cc, λ h. cc)
text_beq_iff (c ∷ s) [] = (λ h. cc, λ h. cc)
text_beq_iff (c ∷ s) (d ∷ t) = ground (arith, text_beq_iff s t)

instance abbrev pub text_eq : Eq Text
text_eq = record { beq = text_beq; beq_iff = text_beq_iff }

unfoldable pub texts_beq : List Text → List Text → Bool
texts_beq [] [] = true
texts_beq [] (t ∷ ts) = false
texts_beq (s ∷ ss) [] = false
texts_beq (s ∷ ss) (t ∷ ts) = text_beq s t && texts_beq ss ts

pub texts_beq_iff : (ss ts : List Text) → (texts_beq ss ts ≡ true) ↔ (ss ≡ ts)
unfolding texts_beq
texts_beq_iff [] [] = (λ _. refl, λ _. refl)
texts_beq_iff [] (t ∷ ts) = (λ h. cc, λ h. cc)
texts_beq_iff (s ∷ ss) [] = (λ h. cc, λ h. cc)
texts_beq_iff (s ∷ ss) (t ∷ ts) = ground (arith, text_beq_iff s t, texts_beq_iff ss ts)

instance abbrev pub texts_eq : Eq (List Text)
texts_eq = record { beq = texts_beq; beq_iff = texts_beq_iff }

-- `s.startswith(p)`
unfoldable pub starts_with : Text → Text → Bool
starts_with [] s = true
starts_with (c ∷ p) [] = false
starts_with (c ∷ p) (d ∷ s) = eqb c d && starts_with p s

-- `p in s`
unfoldable pub is_substring : Text → Text → Bool
unfolding starts_with
is_substring p [] = is_empty p
is_substring p (c ∷ s) = starts_with p (c ∷ s) || is_substring p s

-- `s.endswith(p)`
unfoldable pub ends_with : Text → Text → Bool
unfolding starts_with
ends_with p s = starts_with (reverse p) (reverse s)

-- The characters that `str.strip` removes.
unfoldable pub is_space : ℕ → Bool
is_space c =
    leb 9 c && leb c 13
    || leb 28 c && leb c 32
    || eqb c 133
    || eqb c 160
    || eqb c 5760
    || leb 8192 c && leb c 8202
    || eqb c 8232
    || eqb c 8233
    || eqb c 8239
    || eqb c 8287
    || eqb c 12288

unfoldable pub strip_left : Text → Text
unfolding is_space
strip_left [] = []
strip_left (c ∷ s) = let rest = strip_left s in if is_space c then rest else c ∷ s

-- `s.strip()`
unfoldable pub strip : Text → Text
unfolding strip_left
strip s = reverse (strip_left (reverse (strip_left s)))

-- `s.split(sep)` for a separator of one character: never the empty list.
abbrev pub push_char : ℕ → List Text → List Text
push_char c [] = (c ∷ []) ∷ []
push_char c (w ∷ ws) = (c ∷ w) ∷ ws

unfoldable pub split_on : ℕ → Text → List Text
split_on sep [] = [] ∷ []
split_on sep (c ∷ s) =
    let rest = split_on sep s in if eqb c sep then [] ∷ rest else push_char c rest

-- `sep.join(parts)`
unfoldable pub join : Text → List Text → Text
join sep [] = []
join sep (w ∷ []) = w
join sep (w ∷ v ∷ ws) = w ++ (sep ++ join sep (v ∷ ws))

-- The decimal digits of a number, on fuel above it.
unfoldable pub decimal_on : ℕ → ℕ → Text
decimal_on zero n = []
decimal_on (suc f) n =
    let front = decimal_on f (n / 10) in
    if ltb n 10 then (48 + n) ∷ [] else front ++ (48 + n % 10) ∷ []

-- `str(n)`
unfoldable pub decimal : ℕ → Text
unfolding decimal_on
decimal n = decimal_on (suc n) n

-- The separator does not occur in the text.
abbrev pub IsFree : ℕ → Text → Type 0
IsFree sep s = any (λ c. eqb c sep) s ≡ false

push_char-IsFree :
    (sep c : ℕ) (ws : List Text)
    → eqb c sep ≡ false
    → All (IsFree sep) ws
    → All (IsFree sep) (push_char c ws)
push_char-IsFree sep c [] n h = (rw n, tt)
push_char-IsFree sep c (w ∷ ws) n h = (rw n h.0, h.1)

-- No piece of a split holds the separator.
pub split_on-IsFree : (sep : ℕ) (s : Text) → All (IsFree sep) (split_on sep s)
unfolding split_on
split_on-IsFree sep [] = (refl, tt)
split_on-IsFree sep (c ∷ s) = elim (Bool-cases (eqb c sep)) [
  | inl e ↦ rw e (refl, split_on-IsFree sep s)
  | inr n ↦ rw n (push_char-IsFree sep c (split_on sep s) n (split_on-IsFree sep s))
]

split_on-free : (sep : ℕ) (w : Text) → IsFree sep w → split_on sep w ≡ w ∷ []
unfolding split_on
split_on-free sep [] h = refl
split_on-free sep (c ∷ w) h = elim (Bool-cases (eqb c sep)) [
  | inl e ↦ absurd (true≢false (rw e at h))
  | inr n ↦ rw (n, split_on-free sep w (rw n at h))
]

split_on-append :
    (sep : ℕ) (w s : Text) → IsFree sep w → split_on sep (w ++ sep ∷ s) ≡ w ∷ split_on sep s
unfolding split_on
split_on-append sep [] s h = rw ((eqb_iff sep sep).1 refl)
split_on-append sep (c ∷ w) s h = elim (Bool-cases (eqb c sep)) [
  | inl e ↦ absurd (true≢false (rw e at h))
  | inr n ↦ rw (n, split_on-append sep w s (rw n at h))
]

-- Splitting undoes joining, for pieces without the separator.
pub split_on-join :
    (sep : ℕ) (w : Text) (ws : List Text)
    → All (IsFree sep) (w ∷ ws)
    → split_on sep (join (sep ∷ []) (w ∷ ws)) ≡ w ∷ ws
unfolding join
split_on-join sep w [] h = split_on-free sep w h.0
split_on-join sep w (v ∷ ws) h =
    split_on-append sep w (join (sep ∷ []) (v ∷ ws)) h.0
    ∙ ap (λ r. w ∷ r) (split_on-join sep v ws h.1)
