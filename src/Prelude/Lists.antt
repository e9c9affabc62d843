-- ===== src/Prelude/Lists.antt =====
-- Lists measured by native numbers, Boolean quantifiers, and predicates by recursion.
use Prim.Native.Nat.{ℕ, zero, suc, ◌+◌}
use mathlib.Core.Path.{◌≡◌, refl, sym, subst}
use mathlib.Core.Logic.{◌↔◌, ◌⊎◌, inl, inr}
use mathlib.Core.Bool.{Bool, true, false, ◌&&◌, ◌||◌}
use mathlib.Core.Option.{Option, none, some}
use mathlib.Core.List.{List, [], ◌∷◌, ◌++◌}
use native.Mathlib.Omega.{arith}
use git_hub_issue_to_impleme.Prelude.Tests.{Eq, ◌==◌, Bool-cases, if◌then◌else◌}

module _ {ℓ} {A : Type ℓ} where
  abbrev pub length : List A → ℕ
  length [] = 0
  length (x ∷ xs) = suc (length xs)

  abbrev pub is_empty : List A → Bool
  is_empty [] = true
  is_empty (x ∷ xs) = false

  -- Python's `xs or default`.
  abbrev pub or_else : List A → List A → List A
  or_else [] ys = ys
  or_else (x ∷ xs) ys = x ∷ xs

  abbrev pub take : ℕ → List A → List A
  take zero xs = []
  take (suc n) [] = []
  take (suc n) (x ∷ xs) = x ∷ take n xs

  abbrev pub drop : ℕ → List A → List A
  drop zero xs = xs
  drop (suc n) [] = []
  drop (suc n) (x ∷ xs) = drop n xs

  abbrev pub any : (A → Bool) → List A → Bool
  any p [] = false
  any p (x ∷ xs) = p x || any p xs

  abbrev pub all : (A → Bool) → List A → Bool
  all p [] = true
  all p (x ∷ xs) = p x && all p xs

  -- The elements that pass the test, in order.
  abbrev pub keep : (A → Bool) → List A → List A
  keep p [] = []
  keep p (x ∷ xs) = let rest = keep p xs in if p x then x ∷ rest else rest

  abbrev pub head? : List A → Option A
  head? [] = none
  head? (x ∷ xs) = some x

  abbrev pub All {κ} : (A → Type κ) → List A → Type κ
  All P [] = Unit
  All P (x ∷ xs) = P x × All P xs

-- Membership, by recursion.
abbrev pub In : {A : Type 0} → A → List A → Type 0
In a [] = ⊥
In a (x ∷ xs) = (a ≡ x) ⊎ In a xs

module _ {ℓ} {A : Type ℓ} where
  pub length-append : (xs ys : List A) → length (xs ++ ys) ≡ length xs + length ys
  length-append [] ys = omega arith
  length-append (x ∷ xs) ys = omega (arith, length-append xs ys)

  pub All-append {κ} : (P : A → Type κ) (xs ys : List A) → All P xs → All P ys → All P (xs ++ ys)
  All-append P [] ys hx hy = hy
  All-append P (x ∷ xs) ys hx hy = (hx.0, All-append P xs ys hx.1 hy)

  pub All-map {κ κ'} :
      (P : A → Type κ) (Q : A → Type κ') (xs : List A) → ((x : A) → P x → Q x) → All P xs → All Q xs
  All-map P Q [] f h = tt
  All-map P Q (x ∷ xs) f h = (f x h.0, All-map P Q xs f h.1)

module _ {A : Type 0} where
  pub In-append_left : (a : A) (xs ys : List A) → In a xs → In a (xs ++ ys)
  In-append_left a [] ys h = elim h [ ]
  In-append_left a (x ∷ xs) ys (inl e) = inl e
  In-append_left a (x ∷ xs) ys (inr h) = inr (In-append_left a xs ys h)

  pub In-append_right : (a : A) (xs ys : List A) → In a ys → In a (xs ++ ys)
  In-append_right a [] ys h = h
  In-append_right a (x ∷ xs) ys h = inr (In-append_right a xs ys h)

  pub In-append : (a : A) (xs ys : List A) → In a (xs ++ ys) → In a xs ⊎ In a ys
  In-append a [] ys h = inr h
  In-append a (x ∷ xs) ys (inl e) = inl (inl e)
  In-append a (x ∷ xs) ys (inr h) = elim (In-append a xs ys h) [
    | inl l ↦ inl (inr l)
    | inr r ↦ inr r
  ]

  pub All-In {κ} : (P : A → Type κ) {a : A} (xs : List A) → All P xs → In a xs → P a
  All-In P [] h i = elim i [ ]
  All-In P (x ∷ xs) h (inl e) = subst P (sym e) h.0
  All-In P (x ∷ xs) h (inr i) = All-In P xs h.1 i

module _ {ℓ} {A : Type ℓ} where
  -- The Boolean quantifier and the predicate agree.
  pub all_iff : (p : A → Bool) (xs : List A) → (all p xs ≡ true) ↔ All (λ x. p x ≡ true) xs
  all_iff p [] = (λ _. tt, λ _. refl)
  all_iff p (x ∷ xs) =
      (λ h. let q = (all_iff p xs).0 in ground (arith, q), λ h. rw h.0 ((all_iff p xs).1 h.1))

module _ {ℓ} {A : Type ℓ} ⦃e : Eq A⦄ where
  -- Python's `a in xs`.
  abbrev pub contains : List A → A → Bool
  contains xs a = any (λ x. a == x) xs

module _ {A : Type 0} ⦃e : Eq A⦄ where
  pub contains_iff : (a : A) (xs : List A) → (contains xs a ≡ true) ↔ In a xs
  contains_iff a [] = (λ h. cc, λ h. elim h [ ])
  contains_iff a (x ∷ xs) = elim (Bool-cases (a == x)) [
    | inl p ↦ (λ _. inl ((e.beq_iff a x).0 p), λ _. rw p)
    | inr n ↦ (
      λ h. inr ((contains_iff a xs).0 (rw n at h)),
      elim [
        | inl q ↦ absurd (cc (n, (e.beq_iff a x).1 q))
        | inr i ↦ rw n ((contains_iff a xs).1 i)
      ],
    )
  ]

  -- All occurrences of a value removed.
  pub without : A → List A → List A
  without a [] = []
  without a (x ∷ xs) = let rest = without a xs in if a == x then rest else x ∷ rest

module _ {ℓ} {A : Type ℓ} where
  -- What `not any(...)` says of each element.
  pub not-any : (p : A → Bool) (xs : List A) → any p xs ≡ false → All (λ x. p x ≡ false) xs
  not-any p [] h = tt
  not-any p (x ∷ xs) h = (ground arith, not-any p xs (ground arith))

  pub is_empty-append : (xs : List A) (y : A) (ys : List A) → is_empty (xs ++ y ∷ ys) ≡ false
  is_empty-append [] y ys = refl
  is_empty-append (x ∷ xs) y ys = refl

  pub is_empty-append_left : (xs ys : List A) → is_empty xs ≡ false → is_empty (xs ++ ys) ≡ false
  is_empty-append_left [] ys h = cc
  is_empty-append_left (x ∷ xs) ys h = refl
