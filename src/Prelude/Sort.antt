-- ===== src/Prelude/Sort.antt =====
-- Python's `sorted`, which is stable: insertion of each element before the ones it ties with.
use Prim.Native.Nat.{ℕ, suc, ◌≤◌}
use mathlib.Core.Path.{◌≡◌, refl}
use mathlib.Core.Logic.{◌↔◌, inl, inr}
use mathlib.Core.Bool.{Bool}
use mathlib.Core.List.{List, [], ◌∷◌}
use native.Mathlib.Omega.{arith}
use git_hub_issue_to_impleme.Prelude.Lists.{All, length}
use git_hub_issue_to_impleme.Prelude.Tests.{leb, leb→le, le→leb, Bool-cases, if◌then◌else◌}

module _ {ℓ} {A : Type ℓ} where
  unfoldable pub insert_sorted : (A → A → Bool) → A → List A → List A
  insert_sorted le x [] = x ∷ []
  insert_sorted le x (y ∷ ys) =
      let rest = insert_sorted le x ys in if le x y then x ∷ y ∷ ys else y ∷ rest

  unfoldable pub sort : (A → A → Bool) → List A → List A
  unfolding insert_sorted
  sort le [] = []
  sort le (x ∷ xs) = insert_sorted le x (sort le xs)

abbrev pub HeadAbove : ℕ → List ℕ → Type 0
HeadAbove x [] = Unit
HeadAbove x (y ∷ ys) = x ≤ y

-- Each number is at most the next.
abbrev pub IsOrdered : List ℕ → Type 0
IsOrdered [] = Unit
IsOrdered (x ∷ xs) = HeadAbove x xs × IsOrdered xs

HeadAbove-insert :
    (y x : ℕ) (xs : List ℕ) → y ≤ x → HeadAbove y xs → HeadAbove y (insert_sorted leb x xs)
unfolding insert_sorted
HeadAbove-insert y x [] p h = p
HeadAbove-insert y x (z ∷ xs) p h = ground arith

insert-IsOrdered : (x : ℕ) (xs : List ℕ) → IsOrdered xs → IsOrdered (insert_sorted leb x xs)
unfolding insert_sorted
insert-IsOrdered x [] h = (tt, tt)
insert-IsOrdered x (y ∷ xs) h = elim (Bool-cases (leb x y)) [
  | inl p ↦ rw p (leb→le x y p, h)
  | inr n ↦ rw n (HeadAbove-insert y x xs (ground arith) h.0, insert-IsOrdered x xs h.1)
]

pub sort-IsOrdered : (xs : List ℕ) → IsOrdered (sort leb xs)
unfolding sort
sort-IsOrdered [] = tt
sort-IsOrdered (x ∷ xs) = insert-IsOrdered x (sort leb xs) (sort-IsOrdered xs)

insert-HeadAbove : (x : ℕ) (xs : List ℕ) → HeadAbove x xs → insert_sorted leb x xs ≡ x ∷ xs
unfolding insert_sorted
insert-HeadAbove x [] h = refl
insert-HeadAbove x (y ∷ xs) h = rw (le→leb x y h)

sort_of_IsOrdered : (xs : List ℕ) → IsOrdered xs → sort leb xs ≡ xs
unfolding sort
sort_of_IsOrdered [] h = refl
sort_of_IsOrdered (x ∷ xs) h = rw (sort_of_IsOrdered xs h.1) (insert-HeadAbove x xs h.0)

-- A list of numbers is its own sorted form exactly when it is in order.
pub sort-fixed : (xs : List ℕ) → (sort leb xs ≡ xs) ↔ IsOrdered xs
sort-fixed xs = (λ e. rw e at (sort-IsOrdered xs), sort_of_IsOrdered xs)

insert-All {ℓ κ} :
    {A : Type ℓ} (P : A → Type κ) (le : A → A → Bool) (x : A) (xs : List A)
    → P x
    → All P xs
    → All P (insert_sorted le x xs)
unfolding insert_sorted
insert-All P le x [] p h = (p, tt)
insert-All P le x (y ∷ xs) p h = elim (Bool-cases (le x y)) [
  | inl b ↦ rw b (p, h)
  | inr b ↦ rw b (h.0, insert-All P le x xs p h.1)
]

-- Sorting keeps what holds of every element, and the number of elements.
pub sort-All {ℓ κ} :
    {A : Type ℓ} (P : A → Type κ) (le : A → A → Bool) (xs : List A) → All P xs → All P (sort le xs)
unfolding sort
sort-All P le [] h = tt
sort-All P le (x ∷ xs) h = insert-All P le x (sort le xs) h.0 (sort-All P le xs h.1)

length-insert {ℓ} :
    {A : Type ℓ} (le : A → A → Bool) (x : A) (xs : List A)
    → length (insert_sorted le x xs) ≡ suc (length xs)
unfolding insert_sorted
length-insert le x [] = refl
length-insert le x (y ∷ xs) = elim (Bool-cases (le x y)) [
  | inl b ↦ rw b
  | inr b ↦ rw (b, length-insert le x xs)
]

pub length-sort {ℓ} :
    {A : Type ℓ} (le : A → A → Bool) (xs : List A) → length (sort le xs) ≡ length xs
unfolding sort
length-sort le [] = refl
length-sort le (x ∷ xs) = rw (length-insert le x (sort le xs), length-sort le xs)
