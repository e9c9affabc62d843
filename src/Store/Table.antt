-- ===== src/Store/Table.antt =====
-- A table as the list of its rows in order of insertion, and SQL's
-- `INSERT ... ON CONFLICT DO UPDATE`.
use git_hub_issue_to_impleme.Prelude.{
  ◌≡◌, refl, ap, ◌∙◌, inl, inr, false, Option, none, some, List, [], ◌∷◌, if◌then◌else◌, Bool-cases,
  Eq, ◌==◌, nat_eq, beq_refl, pair_eq, beq-false_sym, All, text_eq,
}

module _ {Row K : Type 0} ⦃e : Eq K⦄ (key_of : Row → K) where
  unfoldable pub find_row : K → List Row → Option Row
  find_row k [] = none
  find_row k (r ∷ rows) = if key_of r == k then some r else find_row k rows

  -- No two rows have one key.
  abbrev pub IsKeyed : List Row → Type 0
  IsKeyed [] = Unit
  IsKeyed (r ∷ rows) = (find_row (key_of r) rows ≡ none) × IsKeyed rows

module _ {Row K : Type 0} ⦃e : Eq K⦄ (key_of : Row → K) (update : Row → Row → Row) where
  -- `update old new` is the row that takes the old row's place on a conflict.
  unfoldable pub upsert : Row → List Row → List Row
  upsert row [] = row ∷ []
  upsert row (r ∷ rows) =
      if key_of r == key_of row then update r row ∷ rows else r ∷ upsert row rows

  -- What an upsert makes of the row that it finds.
  abbrev pub merged : Row → Option Row → Row
  merged row none = row
  merged row (some r) = update r row

  module _ (same_key : (old new : Row) → key_of (update old new) ≡ key_of old) where
    pub find_row-upsert_self :
        (row : Row) (rows : List Row)
        → find_row key_of (key_of row) (upsert row rows)
          ≡ some (merged row (find_row key_of (key_of row) rows))
    unfolding upsert find_row
    find_row-upsert_self row [] = rw (beq_refl (key_of row))
    find_row-upsert_self row (r ∷ rows) = elim (Bool-cases (key_of r == key_of row)) [
      | inl p ↦ rw p (rw (same_key r row) (rw p))
      | inr n ↦ rw n (rw n (find_row-upsert_self row rows))
    ]

    pub find_row-upsert_ne :
        (k : K) (row : Row) (rows : List Row)
        → (key_of row == k) ≡ false
        → find_row key_of k (upsert row rows) ≡ find_row key_of k rows
    unfolding upsert find_row
    find_row-upsert_ne k row [] ne = rw ne
    find_row-upsert_ne k row (r ∷ rows) ne = elim (Bool-cases (key_of r == key_of row)) [
      | inl p ↦ rw p (rw (same_key r row, (e.beq_iff (key_of r) (key_of row)).0 p, ne))
      | inr n ↦
          rw n (ap (λ o. if key_of r == k then some r else o) (find_row-upsert_ne k row rows ne))
    ]

    pub upsert-IsKeyed :
        (row : Row) (rows : List Row) → IsKeyed key_of rows → IsKeyed key_of (upsert row rows)
    unfolding upsert find_row
    upsert-IsKeyed row [] h = (refl, tt)
    upsert-IsKeyed row (r ∷ rows) h = elim (Bool-cases (key_of r == key_of row)) [
      | inl p ↦ rw p (rw (same_key r row) h.0, h.1)
      | inr n ↦ rw n (
        find_row-upsert_ne (key_of r) row rows (beq-false_sym (key_of r) (key_of row) n) ∙ h.0,
        upsert-IsKeyed row rows h.1,
      )
    ]

    pub upsert-All :
        (P : Row → Type 0) (row : Row) (rows : List Row)
        → P row
        → ((old : Row) → P old → P (update old row))
        → All P rows
        → All P (upsert row rows)
    unfolding upsert
    upsert-All P row [] p u h = (p, tt)
    upsert-All P row (r ∷ rows) p u h = elim (Bool-cases (key_of r == key_of row)) [
      | inl q ↦ rw q (u r h.0, h.1)
      | inr n ↦ rw n (h.0, upsert-All P row rows p u h.1)
    ]
