-- ===== src/Chief/Shared.antt =====
-- When two results share a path: `file_workers` of `integration_report` in src/agents/chief.py.
use git_hub_issue_to_impleme.Prelude.{
  ◌≡◌, refl, sym, ap, ◌∙◌, inl, inr, Bool, true, false, ◌||◌, List, [], ◌∷◌, ◌++◌, map, arith, ltb,
  Bool-cases, ◌==◌, nat_eq, pair_eq, beq-false_sym, or_false, or_true, or_left_comm, beq-true_sym,
  length, is_empty, any, All, length-append, contains, is_empty-append, Text, text_eq,
}
use git_hub_issue_to_impleme.Schemas.Runtime.{WorkerResult}
use git_hub_issue_to_impleme.Chief.Report.{
  add_worker, Tally, add_paths, tally_result, tally_results, is_shared,
}

-- The paths of all results, in the order in which the loop meets them.
abbrev pub all_paths : List WorkerResult → List Text
all_paths [] = []
all_paths (r ∷ results) = r.changed_files ++ all_paths results

-- Some path is among those known, or comes up twice.
unfoldable pub collides : List Text → List Text → Bool
collides known [] = false
collides known (p ∷ paths) = contains known p || collides (known ++ p ∷ []) paths

abbrev pub keys : List (Text × List Text) → List Text
keys = map (λ e. e.0)

-- Every file has a worker, and is `any is_shared` of the dict the flag.
abbrev pub Full : List (Text × List Text) → Type 0
Full d = All (λ e. is_empty e.1 ≡ false) d

add_worker-Full : (p w : Text) (d : List (Text × List Text)) → Full d → Full (add_worker p w d)
unfolding add_worker
add_worker-Full p w [] h = (refl, tt)
add_worker-Full p w ((q, ws) ∷ d) h = elim (Bool-cases (q == p)) [
  | inl e ↦ rw e (is_empty-append ws w [], h.1)
  | inr n ↦ rw n (h.0, add_worker-Full p w d h.1)
]

shared_after_append :
    (ws : List Text) (w : Text) → is_empty ws ≡ false → ltb 1 (length (ws ++ w ∷ [])) ≡ true
shared_after_append [] w h = cc
shared_after_append (v ∷ ws) w h = ground (arith, length-append ws (w ∷ []))

add_worker-shared :
    (p w : Text) (d : List (Text × List Text))
    → Full d
    → any is_shared (add_worker p w d) ≡ (contains (keys d) p || any is_shared d)
unfolding add_worker
add_worker-shared p w [] h = refl
add_worker-shared p w ((q, ws) ∷ d) h = elim (Bool-cases (q == p)) [
  | inl e ↦ rw e (rw (shared_after_append ws w h.0, beq-true_sym q p e))
  | inr n ↦
      rw n (
        rw (beq-false_sym q p n, add_worker-shared p w d h.1)
          (or_left_comm (is_shared (q, ws)) _ _))
]

-- The keys, as far as `collides` looks at them: unchanged if the path was there.
add_worker-keys :
    (p w : Text) (d : List (Text × List Text))
    → contains (keys d) p ≡ false
    → keys (add_worker p w d) ≡ keys d ++ p ∷ []
unfolding add_worker
add_worker-keys p w [] h = refl
add_worker-keys p w ((q, ws) ∷ d) h =
    rw (beq-false_sym p q (or_false h).0) (ap (λ r. q ∷ r) (add_worker-keys p w d (or_false h).1))

add_paths-Full :
    (w : Text) (paths : List Text) (d : List (Text × List Text))
    → Full d
    → Full (add_paths w paths d)
unfolding add_paths
add_paths-Full w [] d h = h
add_paths-Full w (p ∷ paths) d h =
    add_paths-Full w paths (add_worker p w d) (add_worker-Full p w d h)

abbrev pub is_shared_with : List (Text × List Text) → List Text → Bool
is_shared_with d paths = any is_shared d || collides (keys d) paths

-- One file recorded moves its path from those to come to those known.
add_worker-is_shared_with :
    (p w : Text) (d : List (Text × List Text)) (paths : List Text)
    → Full d
    → is_shared_with (add_worker p w d) paths ≡ is_shared_with d (p ∷ paths)
unfolding collides
add_worker-is_shared_with p w d paths h = elim (Bool-cases (contains (keys d) p)) [
  | inl e ↦ rw (add_worker-shared p w d h, e) (sym (or_true (any is_shared d)))
  | inr n ↦ rw (add_worker-shared p w d h, n, add_worker-keys p w d n)
]

add_paths-is_shared_with :
    (w : Text) (paths : List Text) (d : List (Text × List Text)) (others : List Text)
    → Full d
    → is_shared_with (add_paths w paths d) others ≡ is_shared_with d (paths ++ others)
unfolding add_paths
add_paths-is_shared_with w [] d others h = refl
add_paths-is_shared_with w (p ∷ paths) d others h =
    add_paths-is_shared_with w paths (add_worker p w d) others (add_worker-Full p w d h)
    ∙ add_worker-is_shared_with p w d (paths ++ others) h

pub tally-shared :
    (results : List WorkerResult) (t : Tally)
    → Full t.file_workers
    → any is_shared (tally_results results t).file_workers
      ≡ is_shared_with t.file_workers (all_paths results)
unfolding tally_results tally_result collides
tally-shared [] t h = ground arith
tally-shared (r ∷ results) t h =
    tally-shared results (tally_result r t)
      (add_paths-Full r.worker_id r.changed_files t.file_workers h)
    ∙ add_paths-is_shared_with r.worker_id r.changed_files t.file_workers (all_paths results) h
