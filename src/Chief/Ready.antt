-- ===== src/Chief/Ready.antt =====
-- When the integration report of src/agents/chief.py is ready for the human.
use git_hub_issue_to_impleme.Prelude.{
  ◌≡◌, refl, sym, ap, ◌∙◌, ◌↔◌, inl, inr, Bool, true, false, ◌&&◌, ◌||◌, none, List, [], ◌∷◌, map,
  arith, if◌then◌else◌, not, Bool-cases, and_true, and_intro, nat_eq, pair_eq, or_false, length,
  is_empty, any, all, keep, All, is_empty-append, is_empty-append_left, Text, text_eq, length-sort,
}
use git_hub_issue_to_impleme.Schemas.Runtime.{WorkerResult}
use git_hub_issue_to_impleme.Schemas.Handoff.{ReportStatus}
use git_hub_issue_to_impleme.Gate.{check, is_complete_status, missing_phases, all_violations}
use git_hub_issue_to_impleme.Gate.Accept.{FollowsProcess, check_accepts_iff, is_empty-++}
use git_hub_issue_to_impleme.Chief.Report.{
  text_le, Tally, empty_tally, tally_result, tally_results, is_shared, overlapping_files,
  is_blocked, build_report,
}
use git_hub_issue_to_impleme.Chief.Shared.{all_paths, collides, tally-shared}

abbrev is_clean : WorkerResult → Bool
is_clean r = is_empty r.errors && (check r none).accepted

and_assoc : (a b c : Bool) → ((a && b) && c) ≡ (a && (b && c))
and_assoc a b c = ground arith

tally-errors :
    (results : List WorkerResult) (t : Tally)
    → is_empty (tally_results results t).errors ≡ (is_empty t.errors && all is_clean results)
unfolding tally_results tally_result check
tally-errors [] t = ground arith
tally-errors (r ∷ results) t =
    tally-errors results (tally_result r t)
    ∙ rw
        (
          is_empty-++ t.errors _,
          is_empty-++ r.errors _,
          is_empty-++ (missing_phases r.skill_trace) _,
        )
        (and_assoc (is_empty t.errors)
          (is_empty r.errors
            && (is_empty (missing_phases r.skill_trace) && is_empty (all_violations r none)))
          _)

tally-keeps :
    (results : List WorkerResult) (t : Tally)
    → is_empty t.accepted_workers ≡ false
    → is_empty (tally_results results t).accepted_workers ≡ false
unfolding tally_results tally_result
tally-keeps [] t h = h
tally-keeps (r ∷ results) t h =
    tally-keeps results (tally_result r t)
      (elim (Bool-cases (is_complete_status r.status && (check r none).accepted)) [
        | inl e ↦ rw e (is_empty-append_left t.accepted_workers (r.worker_id ∷ []) h)
        | inr n ↦ rw n h
      ])

length-keys : (d : List (Text × List Text)) → is_empty (map (λ e. e.0) d) ≡ is_empty d
length-keys [] = refl
length-keys (e ∷ d) = refl

is_empty-keep_shared :
    (d : List (Text × List Text)) → is_empty (keep is_shared d) ≡ not (any is_shared d)
is_empty-keep_shared [] = refl
is_empty-keep_shared (e ∷ d) = elim (Bool-cases (is_shared e)) [
  | inl p ↦ rw p
  | inr n ↦ rw n (is_empty-keep_shared d)
]

is_empty-length : (xs ys : List Text) → length xs ≡ length ys → is_empty xs ≡ is_empty ys
is_empty-length [] [] e = refl
is_empty-length [] (y ∷ ys) e = cc
is_empty-length (x ∷ xs) [] e = cc
is_empty-length (x ∷ xs) (y ∷ ys) e = refl

overlap-is_empty :
    (d : List (Text × List Text)) → is_empty (overlapping_files d) ≡ not (any is_shared d)
unfolding overlapping_files
overlap-is_empty d =
    is_empty-length _ _ (length-sort text_le (map (λ e. e.0) (keep is_shared d)))
    ∙ (length-keys (keep is_shared d) ∙ is_empty-keep_shared d)

-- The accepted workers are none exactly if no result was accepted.
abbrev is_accepted : WorkerResult → Bool
is_accepted r = is_complete_status r.status && (check r none).accepted

tally-accepted :
    (r : WorkerResult) (results : List WorkerResult) (t : Tally)
    → is_accepted r ≡ true
    → is_empty (tally_results (r ∷ results) t).accepted_workers ≡ false
unfolding tally_results tally_result
tally-accepted r results t e =
    tally-keeps results (tally_result r t)
      (rw e (is_empty-append t.accepted_workers r.worker_id []))

status_iff :
    (b : Bool)
    → ((if b then ReportStatus.blocked else ReportStatus.ready_for_human)
        ≡ ReportStatus.ready_for_human)
      ↔ (b ≡ false)
status_iff true = (λ h. cc, λ h. cc)
status_iff false = (λ h. refl, λ h. refl)

-- A result that followed the process, and reports no error of its own.
abbrev pub IsClean : WorkerResult → Type 0
IsClean r = FollowsProcess r none × (r.errors ≡ [])

empty_iff : {A : Type 0} (xs : List A) → (is_empty xs ≡ true) ↔ (xs ≡ [])
empty_iff [] = (λ h. refl, λ h. refl)
empty_iff (x ∷ xs) = (λ h. cc, λ h. cc)

IsClean-iff : (r : WorkerResult) → (is_clean r ≡ true) ↔ IsClean r
IsClean-iff r = (
  λ h. ((check_accepts_iff r none).0 (and_true h).1, (empty_iff r.errors).0 (and_true h).0),
  λ c. and_intro ((empty_iff r.errors).1 c.1) ((check_accepts_iff r none).1 c.0),
)

not-not : (b : Bool) → not (not b) ≡ b
not-not b = ground arith

blocked_lem :
    (results : List WorkerResult)
    → is_blocked (tally_results results empty_tally) ≡ (
        is_empty (tally_results results empty_tally).accepted_workers
        || (collides [] (all_paths results) || not (all is_clean results)))
blocked_lem results =
    rw
      (
        overlap-is_empty (tally_results results empty_tally).file_workers,
        tally-shared results empty_tally tt,
        tally-errors results empty_tally,
      )
      (ap
        (λ b.
          is_empty (tally_results results empty_tally).accepted_workers
          || (b || not (all is_clean results)))
        (not-not (collides [] (all_paths results))))

clean-is_accepted : (r : WorkerResult) → is_clean r ≡ true → is_accepted r ≡ true
clean-is_accepted r h =
    and_intro (ap is_complete_status ((IsClean-iff r).0 h).0.completed) (and_true h).1

all-IsClean_iff :
    (results : List WorkerResult) → (all is_clean results ≡ true) ↔ All IsClean results
all-IsClean_iff [] = (λ h. tt, λ h. refl)
all-IsClean_iff (r ∷ results) = (
  λ h. ((IsClean-iff r).0 (and_true h).0, (all-IsClean_iff results).0 (and_true h).1),
  λ h. and_intro ((IsClean-iff r).1 h.0) ((all-IsClean_iff results).1 h.1),
)

not-false : {b : Bool} → not b ≡ false → b ≡ true
not-false {b} h = ground arith

or3 : {a b c : Bool} → a ≡ false → b ≡ false → c ≡ true → (a || (b || not c)) ≡ false
or3 p q r = rw (p, q, r)

-- The report says `ready_for_human` exactly if there is a result, every result followed the worker
-- process (asked without an assignment) and reports no error, and no path comes up twice.
pub ready_iff :
    (run_id : Text) (results : List WorkerResult)
    → ((build_report run_id results).status ≡ ReportStatus.ready_for_human) ↔ (
        (is_empty results ≡ false)
        × All IsClean results
        × (collides [] (all_paths results) ≡ false))
unfolding build_report tally_results
ready_iff run_id [] = (λ h. cc, λ h. cc)
ready_iff run_id (r ∷ results) = (
  λ h.
      let b = sym (blocked_lem (r ∷ results)) ∙ (status_iff _).0 h in
      let (c, a) = or_false (or_false b).1 in
      (refl, (all-IsClean_iff (r ∷ results)).0 (not-false a), c),
  λ h.
      let (_, clean, apart) = h in
      (status_iff _).1 (
        blocked_lem (r ∷ results)
        ∙ or3
            (tally-accepted r results empty_tally (clean-is_accepted r ((IsClean-iff r).1 clean.0)))
            apart ((all-IsClean_iff (r ∷ results)).1 clean)),
)
