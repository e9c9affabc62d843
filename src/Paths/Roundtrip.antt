-- ===== src/Paths/Roundtrip.antt =====
-- Printing a relative path and parsing it again gives the path back.
use git_hub_issue_to_impleme.Prelude.{
  ℕ, ◌≡◌, refl, sym, ap, ◌∙◌, subst, inl, inr, Bool, true, false, List, [], ◌∷◌, arith, eqb, not,
  Bool-cases, nat_eq, pair_eq, is_empty, keep, All, Text, text, text_beq, text_eq, starts_with,
  split_on, join, IsFree, split_on-IsFree, split_on-join,
}
use git_hub_issue_to_impleme.Paths.{PosixPath, parse, is_absolute, as_posix, is_name, root_of}

keep-All {κ} :
    {A : Type 0} (P : A → Type κ) (p : A → Bool) (xs : List A) → All P xs → All P (keep p xs)
keep-All P p [] h = tt
keep-All P p (x ∷ xs) h = elim (Bool-cases (p x)) [
  | inl e ↦ rw e (h.0, keep-All P p xs h.1)
  | inr e ↦ rw e (keep-All P p xs h.1)
]

keep-passes : {A : Type 0} (p : A → Bool) (xs : List A) → All (λ x. p x ≡ true) (keep p xs)
keep-passes p [] = tt
keep-passes p (x ∷ xs) = elim (Bool-cases (p x)) [
  | inl e ↦ rw e (e, keep-passes p xs)
  | inr e ↦ rw e (keep-passes p xs)
]

keep_passing : {A : Type 0} (p : A → Bool) (xs : List A) → All (λ x. p x ≡ true) xs → keep p xs ≡ xs
keep_passing p [] h = refl
keep_passing p (x ∷ xs) h = rw (h.0, keep_passing p xs h.1)

is_empty-eq-nil : (s : Text) → is_empty s ≡ true → s ≡ []
is_empty-eq-nil [] h = refl
is_empty-eq-nil (c ∷ s) h = cc

not-false : {b : Bool} → not b ≡ false → b ≡ true
not-false {b} h = ground arith

relative-root : (p : PosixPath) → is_absolute p ≡ false → p ≡ record { root = []; names = p.names }
relative-root p h =
    ap (λ (r : Text). record { root = r; names = p.names }) (is_empty-eq-nil p.root (not-false h))

module _ (s : Text) where
  names-IsFree : All (IsFree b'/') (parse s).names
  unfolding parse
  names-IsFree = keep-All (IsFree b'/') is_name (split_on b'/' s) (split_on-IsFree b'/' s)

  pub names-is_name : All (λ w. is_name w ≡ true) (parse s).names
  unfolding parse
  names-is_name = keep-passes is_name (split_on b'/' s)

starts_with_slash : (c : ℕ) (s : Text) → eqb c b'/' ≡ false → starts_with (text "/") (c ∷ s) ≡ false
unfolding starts_with
starts_with_slash c s n = ground arith

root_of-no_slash : (s : Text) → starts_with (text "/") s ≡ false → root_of s ≡ []
unfolding root_of
root_of-no_slash s n = rw n

join-no_slash :
    (w : Text) (ws : List Text)
    → is_name w ≡ true
    → IsFree b'/' w
    → starts_with (text "/") (join (text "/") (w ∷ ws)) ≡ false
unfolding join
join-no_slash [] ws n f = cc
join-no_slash (c ∷ w) [] n f = starts_with_slash c w (ground arith)
join-no_slash (c ∷ w) (v ∷ ws) n f = starts_with_slash c _ (ground arith)

parse-no_slash :
    (s : Text)
    → starts_with (text "/") s ≡ false
    → parse s ≡ record { root = []; names = keep is_name (split_on b'/' s) }
unfolding parse
parse-no_slash s n = rw (root_of-no_slash s n)

parse-dot : parse (text ".") ≡ record { root = []; names = [] }
unfolding parse root_of starts_with split_on text_beq
parse-dot = refl

-- A relative path of names without slashes survives printing and parsing.
pub parse-join :
    (ws : List Text)
    → All (λ w. is_name w ≡ true) ws
    → All (IsFree b'/') ws
    → parse (as_posix (record { root = []; names = ws })) ≡ record { root = []; names = ws }
unfolding as_posix
parse-join [] n f = parse-dot
parse-join (w ∷ ws) n f =
    parse-no_slash (join (text "/") (w ∷ ws)) (join-no_slash w ws n.0 f.0)
    ∙ ap (λ (l : List Text). record { root = []; names = keep is_name l })
        (split_on-join b'/' w ws f)
    ∙ ap (λ (l : List Text). record { root = []; names = l }) (keep_passing is_name (w ∷ ws) n)

-- `as_posix` and `PurePosixPath` are inverse on the relative paths that parsing produces.
pub parse-as_posix :
    (s : Text) → is_absolute (parse s) ≡ false → parse (as_posix (parse s)) ≡ parse s
parse-as_posix s r =
    subst (λ (p : PosixPath). parse (as_posix p) ≡ p) (sym (relative-root (parse s) r))
      (parse-join (parse s).names (names-is_name s) (names-IsFree s))
