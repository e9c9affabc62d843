-- ===== src/Tickets/Order.antt =====
-- The tasks of `tasks_from_handoff` come out in an order in which every blocker stands earlier.
use git_hub_issue_to_impleme.Prelude.{
  ℕ, zero, suc, ◌+◌, ◌≤◌, ◌<◌, ◌≡◌, refl, sym, ap, ◌∙◌, inl, inr, true, false, ◌||◌, Option, some,
  List, [], ◌∷◌, ◌++◌, map, arith, ltb, leb, eqb, eqb_iff, Bool-cases, ◌==◌, nat_eq, pair_eq,
  length, drop, All, In, All-map, all_iff, not-any, Text, text_beq_iff, text_eq, ◌>>=◌, guard,
  >>=-eq-ok, ok-injective, or_raise, or_raise-eq-ok, guard-eq-ok, ap₂, subst, sort-All, length-sort,
  ok,
}
use git_hub_issue_to_impleme.Schemas.Planning.{ImplementationStep, step_is_valid, plan_is_valid}
use git_hub_issue_to_impleme.Schemas.Handoff.{PlannerHandoff}
use git_hub_issue_to_impleme.Schemas.Runtime.{WorkerTask, validate_task}
use git_hub_issue_to_impleme.Tickets.{
  order_le, sort_steps, range, orders, step_task_id, task_id_of, dependency_ids, dependency_missing,
  orders_not_contiguous, step_task, task_from_step, tasks_loop, tasks_from_handoff,
}

-- Each task is blocked only by tasks that stand before it, or by those already `seen`.
abbrev pub BlockedByEarlier : List Text → List WorkerTask → Type 0
BlockedByEarlier seen [] = Unit
BlockedByEarlier seen (t ∷ ts) =
    All (λ b. In b seen) t.blocked_by × BlockedByEarlier (seen ++ t.task_id ∷ []) ts

abbrev pub IsEarlier : ℕ → ℕ → Type 0
IsEarlier order d = (1 ≤ d) × (d < order)

pub step_is_valid-IsEarlier :
    (s : ImplementationStep) → step_is_valid s ≡ true → All (IsEarlier s.order) s.depends_on
unfolding step_is_valid
step_is_valid-IsEarlier s h =
    All-map (λ d. (leb s.order d || ltb d 1) ≡ false) (IsEarlier s.order) s.depends_on
      (λ d p. ground arith) (not-any (λ d. leb s.order d || ltb d 1) s.depends_on (ground arith))

pub plan_steps_are_valid :
    (h : PlannerHandoff)
    → plan_is_valid h.implementation_plan ≡ true
    → All (λ s. step_is_valid s ≡ true) (sort_steps h.implementation_plan.steps)
unfolding plan_is_valid
plan_steps_are_valid h v =
    sort-All (λ s. step_is_valid s ≡ true) order_le h.implementation_plan.steps
      ((all_iff step_is_valid h.implementation_plan.steps).0 (ground arith))

pub range-append : (k n : ℕ) → range k (suc n) ≡ range k n ++ (k + n) ∷ []
unfolding range
range-append k zero = ap (λ x. x ∷ []) (omega arith)
range-append k (suc n) =
    ap (λ xs. k ∷ xs) (range-append (suc k) n ∙ ap (λ x. range (suc k) n ++ x ∷ []) (omega arith))

In-range : (k n d : ℕ) → k ≤ d → d < k + n → In d (range k n)
unfolding range
In-range k zero d p q = absurd (omega arith)
In-range k (suc n) d p q = elim (Bool-cases (eqb d k)) [
  | inl e ↦ inl ((eqb_iff d k).0 e)
  | inr e ↦ inr (In-range (suc k) n d (ground arith) (omega arith))
]

In-map : {A B : Type 0} (f : A → B) (a : A) (xs : List A) → In a xs → In (f a) (map f xs)
In-map f a [] i = elim i [ ]
In-map f a (x ∷ xs) (inl e) = inl (ap f e)
In-map f a (x ∷ xs) (inr i) = inr (In-map f a xs i)

map-append_one :
    {A B : Type 0} (f : A → B) (xs : List A) (x : A) → map f (xs ++ x ∷ []) ≡ map f xs ++ f x ∷ []
map-append_one f [] x = refl
map-append_one f (y ∷ xs) x = ap (λ r. f y ∷ r) (map-append_one f xs x)

pub task_id_of-eq :
    (run_id : Text) (steps : List ImplementationStep) (d : ℕ) {i : Text}
    → task_id_of run_id steps d ≡ some i
    → i ≡ step_task_id run_id d
unfolding task_id_of
task_id_of-eq run_id [] d h = cc
task_id_of-eq run_id (s ∷ steps) d h = elim (Bool-cases (eqb s.order d)) [
  | inl e ↦ cc (rw e at h, (eqb_iff s.order d).0 e)
  | inr n ↦ task_id_of-eq run_id steps d (rw n at h)
]

-- What a task's construction leaves as it was given.
pub validate_task-eq : (t : WorkerTask) {t' : WorkerTask} → validate_task t ≡ ok t' → t' ≡ t
unfolding validate_task
validate_task-eq t h = ground arith

abbrev pub head_or : ℕ → List ℕ → ℕ
head_or d [] = d
head_or d (x ∷ xs) = x

module _ (h : PlannerHandoff) (all_steps : List ImplementationStep) where
  abbrev find : ℕ → Option Text
  find = task_id_of h.run_id all_steps

  abbrev id_of : ℕ → Text
  id_of = step_task_id h.run_id

  abbrev seen : ℕ → List Text
  seen m = map id_of (range 1 m)

  dependency_ids-seen :
      (m : ℕ) (ds : List ℕ) {ids : List Text}
      → All (IsEarlier (suc m)) ds
      → dependency_ids find ds ≡ ok ids
      → All (λ b. In b (seen m)) ids
  unfolding dependency_ids
  dependency_ids-seen m [] {ids} v e = subst (All (λ b. In b (seen m))) (ok-injective e) tt
  dependency_ids-seen m (d ∷ ds) {ids} v e =
      let (i, found, e') =
        >>=-eq-ok (or_raise (find d) dependency_missing)
          (λ i. dependency_ids find ds >>= λ rest. ok (i ∷ rest)) e in
      let (rest, r, o) = >>=-eq-ok (dependency_ids find ds) (λ rest. ok (i ∷ rest)) e' in
      let i_eq : i ≡ id_of d =
        task_id_of-eq h.run_id all_steps d (or_raise-eq-ok (find d) dependency_missing found) in
      subst (All (λ b. In b (seen m))) (ok-injective o) (
        rw i_eq (In-map id_of d (range 1 m) (In-range 1 m d v.0.0 (omega arith))),
        dependency_ids-seen m ds v.1 r,
      )

  task_from_step-fields :
      (s : ImplementationStep) {t : WorkerTask}
      → task_from_step h find s ≡ ok t
      → (ids : List Text) × (dependency_ids find s.depends_on ≡ ok ids)
        × (t.task_id ≡ id_of s.order)
        × (t.blocked_by ≡ ids)
  unfolding task_from_step step_task
  task_from_step-fields s e =
      let (ids, d, o) =
        >>=-eq-ok (dependency_ids find s.depends_on)
          (λ ids. validate_task (step_task h (id_of s.order) ids s)) e in
      let made = validate_task-eq (step_task h (id_of s.order) ids s) o in
      (ids, d, ap (λ t. t.task_id) made, ap (λ t. t.blocked_by) made)

  seen-suc : (m : ℕ) → seen m ++ id_of (suc m) ∷ [] ≡ seen (suc m)
  seen-suc m = sym (
      ap (map id_of) (range-append 1 m ∙ ap (λ x. range 1 m ++ x ∷ []) (omega arith))
      ∙ map-append_one id_of (range 1 m) (suc m))

  -- The loop over the steps numbered from `m + 1`.
  tasks_loop-order :
      (m : ℕ) (steps : List ImplementationStep) {ts : List WorkerTask}
      → orders steps ≡ range (suc m) (length steps)
      → All (λ s. step_is_valid s ≡ true) steps
      → tasks_loop h find steps ≡ ok ts
      → (map (λ t. t.task_id) ts ≡ map id_of (range (suc m) (length steps)))
        × BlockedByEarlier (seen m) ts
  unfolding tasks_loop range
  tasks_loop-order m [] {ts} o v e = rw (← ok-injective e) (refl, tt)
  tasks_loop-order m (s ∷ steps) {ts} o v e =
      let (t, first, e') =
        >>=-eq-ok (task_from_step h find s) (λ t. tasks_loop h find steps >>= λ rest. ok (t ∷ rest))
          e in
      let (rest, r, out) = >>=-eq-ok (tasks_loop h find steps) (λ rest. ok (t ∷ rest)) e' in
      let (ids, deps, id_made, blocked_made) = task_from_step-fields s first in
      let this : s.order ≡ suc m = ap (head_or 0) o in
      let id_eq : t.task_id ≡ id_of (suc m) = id_made ∙ ap id_of this in
      let (ids_eq, later) = tasks_loop-order (suc m) steps (ap (drop 1) o) v.1 r in
      let blocked : All (λ b. In b (seen m)) t.blocked_by =
        subst (All (λ b. In b (seen m))) (sym blocked_made) (
          dependency_ids-seen m s.depends_on
            (subst (λ k. All (IsEarlier k) s.depends_on) this (step_is_valid-IsEarlier s v.0))
            deps) in
      rw (← ok-injective out) (
        ap₂ (λ x xs. x ∷ xs) id_eq ids_eq,
        (
          blocked,
          subst (λ l. BlockedByEarlier l rest) (sym (ap (λ i. seen m ++ i ∷ []) id_eq ∙ seen-suc m))
              later,
        ),
      )

-- In the tasks of a valid plan, task `i` has the id of step `i`, and every task is blocked only by
-- tasks that stand before it in the list.
pub tasks-BlockedByEarlier :
    (h : PlannerHandoff) {ts : List WorkerTask}
    → plan_is_valid h.implementation_plan ≡ true
    → tasks_from_handoff h ≡ ok ts
    → (map (λ t. t.task_id) ts
        ≡ map (step_task_id h.run_id) (range 1 (length h.implementation_plan.steps)))
      × BlockedByEarlier [] ts
unfolding tasks_from_handoff range
tasks-BlockedByEarlier h {ts} v e =
    let steps = sort_steps h.implementation_plan.steps in
    let (_, contiguous, made) =
      >>=-eq-ok (guard (orders steps == range 1 (length steps)) orders_not_contiguous)
        (λ _. tasks_loop h (task_id_of h.run_id steps) steps) e in
    let o : orders steps ≡ range 1 (length steps) =
      (text_beq_iff (orders steps) (range 1 (length steps))).0 (guard-eq-ok _ _ contiguous) in
    let n : length steps ≡ length h.implementation_plan.steps =
      length-sort order_le h.implementation_plan.steps in
    subst
      (λ k.
        (map (λ (t : WorkerTask). t.task_id) ts ≡ map (step_task_id h.run_id) (range 1 k))
        × BlockedByEarlier [] ts)
      n (tasks_loop-order h steps 0 steps o (plan_steps_are_valid h v) made)
