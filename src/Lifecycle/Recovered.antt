-- ===== src/Lifecycle/Recovered.antt =====
-- Which assignments are left to recover.
use git_hub_issue_to_impleme.Prelude.{
  ◌≡◌, refl, sym, ap, ◌∙◌, ◌↔◌, inl, inr, Bool, true, Option, List, [], insert_sorted, sort, map,
  ap₂, true≢false, contains_iff, ◌∷◌, not, Bool-cases, nat_eq, pair_eq, not-true, keep, In, Text,
  text_beq_iff, text_eq, ok,
}
use git_hub_issue_to_impleme.Schemas.Runtime.{WorkerAssignment, WorkerResult}
use git_hub_issue_to_impleme.Store.Database.{PayloadRow, ResultRow, Database}
use git_hub_issue_to_impleme.Store.Steps.{on_disk, IsCurrent}
use git_hub_issue_to_impleme.Store.Queries.{
  Engine, payloads_for_run, stamp_le, workers_for_run, worker_results_for_run,
}
use git_hub_issue_to_impleme.Chief.Accept.{ask-current}
use git_hub_issue_to_impleme.Lifecycle.{is_finished, recoverable_assignments}

In-keep :
    {A : Type 0} (p : A → Bool) (a : A) (xs : List A) → In a (keep p xs) → In a xs × (p a ≡ true)
In-keep p a [] h = elim h [ ]
In-keep p a (x ∷ xs) h = elim (Bool-cases (p x)) [
  | inl e ↦ elim (rw e at h) [
    | inl same ↦ (inl same, ap p same ∙ e)
    | inr later ↦ let (i, t) = In-keep p a xs later in (inr i, t)
  ]
  | inr n ↦ let (i, t) = In-keep p a xs (rw n at h) in (inr i, t)
]

In-keep_intro :
    {A : Type 0} (p : A → Bool) (a : A) (xs : List A) → In a xs → p a ≡ true → In a (keep p xs)
In-keep_intro p a [] i t = elim i [ ]
In-keep_intro p a (x ∷ xs) (inl same) t = rw (ap p (sym same) ∙ t) (inl same)
In-keep_intro p a (x ∷ xs) (inr i) t = elim (Bool-cases (p x)) [
  | inl e ↦ rw e (inr (In-keep_intro p a xs i t))
  | inr n ↦ rw n (In-keep_intro p a xs i t)
]

In-map :
    {A B : Type 0} (f : A → B) (b : B) (xs : List A)
    → In b (map f xs) ↔ ((a : A) × In a xs × (f a ≡ b))
In-map f b [] = (λ h. elim h [ ], λ (a, h, e). elim h [ ])
In-map f b (x ∷ xs) = (
  λ h. elim h [
    | inl same ↦ (x, inl refl, sym same)
    | inr later ↦ let (a, i, e) = (In-map f b xs).0 later in (a, inr i, e)
  ],
  λ (a, i, e). elim i [
    | inl same ↦ inl (sym e ∙ ap f same)
    | inr later ↦ inr ((In-map f b xs).1 (a, later, e))
  ],
)

In-insert :
    {A : Type 0} (le : A → A → Bool) (a x : A) (xs : List A)
    → In a (insert_sorted le x xs) ↔ In a (x ∷ xs)
unfolding insert_sorted
In-insert le a x [] = (λ h. h, λ h. h)
In-insert le a x (y ∷ ys) = elim (Bool-cases (le x y)) [
  | inl e ↦ rw e (λ h. h, λ h. h)
  | inr n ↦ rw n (
    λ h. elim h [
      | inl here ↦ inr (inl here)
      | inr later ↦ elim ((In-insert le a x ys).0 later) [
        | inl first ↦ inl first
        | inr rest ↦ inr (inr rest)
      ]
    ],
    λ h. elim h [
      | inl first ↦ inr ((In-insert le a x ys).1 (inl first))
      | inr rest ↦ elim rest [
        | inl here ↦ inl here
        | inr later ↦ inr ((In-insert le a x ys).1 (inr later))
      ]
    ],
  )
]

In-sort : {A : Type 0} (le : A → A → Bool) (a : A) (xs : List A) → In a (sort le xs) ↔ In a xs
unfolding sort
In-sort le a [] = (λ h. h, λ h. h)
In-sort le a (x ∷ xs) = (
  λ h. elim ((In-insert le a x (sort le xs)).0 h) [
    | inl same ↦ inl same
    | inr later ↦ inr ((In-sort le a xs).0 later)
  ],
  λ h.
      (In-insert le a x (sort le xs)).1
        (elim h [ inl same ↦ inl same | inr later ↦ inr ((In-sort le a xs).1 later) ]),
)

-- The store holds this assignment of a worker of the run.
abbrev pub IsWorkerOf : Database → Text → WorkerAssignment → Type 0
IsWorkerOf db run_id a =
    (row : PayloadRow WorkerAssignment) × In row db.workers
    × (row.run_id ≡ run_id)
    × (row.payload ≡ a)

-- The store holds a result that the assignment's worker gave in the run for the assigned task.
abbrev pub HasResult : Database → Text → WorkerAssignment → Type 0
HasResult db run_id a =
    (row : ResultRow) × In row db.worker_results
    × (row.run_id ≡ run_id)
    × (row.payload.worker_id ≡ a.worker_id)
    × (row.payload.task_id ≡ a.task_id)

workers_for_run_iff :
    (engine : Engine) (run_id : Text) (db : Database) (a : WorkerAssignment)
    → In a (workers_for_run engine run_id db) ↔ IsWorkerOf db run_id a
unfolding workers_for_run payloads_for_run
workers_for_run_iff engine run_id db a = (
  λ h.
      let (row, i, e) = (In-map (λ (r : PayloadRow WorkerAssignment). r.payload) a _).0 h in
      let (j, t) = In-keep _ row db.workers ((engine.visit_iff _ _ row).0 i) in
      (row, j, (text_beq_iff row.run_id run_id).0 t, e),
  λ (row, j, t, e). (In-map (λ (r : PayloadRow WorkerAssignment). r.payload) a _).1 (
    row,
    (engine.visit_iff _ _ row).1
        (In-keep_intro _ row db.workers j ((text_beq_iff row.run_id run_id).1 t)),
    e,
  ),
)

pub worker_results_for_run_iff :
    (engine : Engine) (run_id : Text) (db : Database) (r : WorkerResult)
    → In r (worker_results_for_run engine run_id db)
      ↔ ((row : ResultRow) × In row db.worker_results × (row.run_id ≡ run_id) × (row.payload ≡ r))
unfolding worker_results_for_run
worker_results_for_run_iff engine run_id db r = (
  λ h.
      let (row, i, e) = (In-map (λ (r : ResultRow). r.payload) r _).0 h in
      let (j, t) =
        In-keep _ row db.worker_results
          ((engine.visit_iff _ _ row).0 ((In-sort stamp_le row _).0 i)) in
      (row, j, (text_beq_iff row.run_id run_id).0 t, e),
  λ (row, j, t, e). (In-map (λ (r : ResultRow). r.payload) r _).1 (
    row,
    (In-sort stamp_le row _).1 (
        (engine.visit_iff _ _ row).1
          (In-keep_intro _ row db.worker_results j ((text_beq_iff row.run_id run_id).1 t))),
    e,
  ),
)

is_finished_iff :
    (engine : Engine) (run_id : Text) (db : Database) (a : WorkerAssignment)
    → (is_finished (worker_results_for_run engine run_id db) a ≡ true) ↔ HasResult db run_id a
unfolding is_finished
is_finished_iff engine run_id db a = (
  λ h.
      let (r, i, e) =
        (In-map both (a.worker_id, a.task_id) _).0 ((contains_iff {A = Text × Text} _ _).0 h) in
      let (row, j, t, p) = (worker_results_for_run_iff engine run_id db r).0 i in
      (
        row,
        j,
        t,
        ap (λ (r : WorkerResult). r.worker_id) p ∙ ap (λ p. p.0) e,
        ap (λ (r : WorkerResult). r.task_id) p ∙ ap (λ p. p.1) e,
      ),
  λ (row, j, t, w, k). (contains_iff {A = Text × Text} _ _).1 (
      (In-map both (a.worker_id, a.task_id) _).1 (
        row.payload,
        (worker_results_for_run_iff engine run_id db row.payload).1 (row, j, t, refl),
        ap₂ (λ w k. (w, k)) w k,
      )),
)
  where
    both : WorkerResult → Text × Text
    both r = (r.worker_id, r.task_id)

-- The assignments that can be recovered are those of the run's recorded workers for which the store
-- holds no result of the run with the worker's id and the task's, neither more nor fewer.
pub recoverable_iff :
    (engine : Engine) (run_id : Text) (db : Database) (backup : Option Database)
    → IsCurrent db
    → (assignments : List WorkerAssignment) × (recoverable_assignments engine run_id
          (on_disk db backup)
        ≡ (ok assignments, on_disk db backup))
      × ((a : WorkerAssignment)
          → In a assignments ↔ (IsWorkerOf db run_id a × (¬ HasResult db run_id a)))
unfolding recoverable_assignments
recoverable_iff engine run_id db backup current = (
  keep (λ a. not (is_finished (worker_results_for_run engine run_id db) a))
      (workers_for_run engine run_id db),
  rw (
    ask-current (worker_results_for_run engine run_id) db backup current,
    ask-current (workers_for_run engine run_id) db backup current,
  ),
  λ a. (
    λ i.
        let (j, t) =
          In-keep (λ a. not (is_finished (worker_results_for_run engine run_id db) a)) a _ i in
        (
          (workers_for_run_iff engine run_id db a).0 j,
          λ held. true≢false (sym ((is_finished_iff engine run_id db a).1 held) ∙ not-true t),
        ),
    λ h.
        In-keep_intro (λ a. not (is_finished (worker_results_for_run engine run_id db) a)) a _
          ((workers_for_run_iff engine run_id db a).1 h.0)
          (elim (Bool-cases (is_finished (worker_results_for_run engine run_id db) a)) [
            | inl held ↦ absurd (h.1 ((is_finished_iff engine run_id db a).0 held))
            | inr free ↦ ap not free
          ]),
  ),
)
