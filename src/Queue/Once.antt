-- ===== src/Queue/Once.antt =====
-- An entry stands in a queue once.
use git_hub_issue_to_impleme.Prelude.{
  ℕ, ◌≡◌, refl, ap, sym, subst, inl, inr, Bool, true, false, ◌||◌, Option, none, some, [], ◌∷◌,
  ◌++◌, ◌∙◌, eqb, eqb_iff, append-nil, Bool-cases, and_true, and_intro, nat_eq, ◌==◌, pair_eq,
  or_true, is_empty, Text, text, text_eq, true≢false, IsFree, starts_with, is_substring, Error, err,
}
use git_hub_issue_to_impleme.Schemas.Runtime.{QueueEntry}
use git_hub_issue_to_impleme.Store.Database.{Disk}
use git_hub_issue_to_impleme.Queue.{
  QueueFiles, heading, translate, file_contains, contains_queue_id, Printer, render, render_body,
  extended, write_files, append,
}

starts_with-append : (p s : Text) → starts_with p (p ++ s) ≡ true
unfolding starts_with
starts_with-append [] s = refl
starts_with-append (c ∷ p) s = and_intro ((eqb_iff c c).1 refl) (starts_with-append p s)

starts_with-longer : (p s t : Text) → starts_with p s ≡ true → starts_with p (s ++ t) ≡ true
unfolding starts_with
starts_with-longer [] s t h = refl
starts_with-longer (c ∷ p) [] t h = cc
starts_with-longer (c ∷ p) (d ∷ s) t h =
    let (same, rest) = and_true h in and_intro same (starts_with-longer p s t rest)

is_substring-empty : (t : Text) → is_substring [] t ≡ true
unfolding is_substring starts_with
is_substring-empty [] = refl
is_substring-empty (c ∷ t) = refl

empty-eq-nil : (p : Text) → is_empty p ≡ true → p ≡ []
empty-eq-nil [] h = refl
empty-eq-nil (c ∷ p) h = cc

starts_with-is_substring : (p s : Text) → starts_with p s ≡ true → is_substring p s ≡ true
unfolding is_substring starts_with
starts_with-is_substring [] [] h = refl
starts_with-is_substring (c ∷ p) [] h = cc
starts_with-is_substring p (c ∷ s) h = rw h

-- What a text contains, every longer text contains.
is_substring-longer : (p s t : Text) → is_substring p s ≡ true → is_substring p (s ++ t) ≡ true
unfolding is_substring
is_substring-longer p [] t h =
    subst (λ p. is_substring p t ≡ true) (sym (empty-eq-nil p h)) (is_substring-empty t)
is_substring-longer p (c ∷ s) t h = elim (Bool-cases (starts_with p (c ∷ s))) [
  | inl e ↦ rw (starts_with-longer p (c ∷ s) t e)
  | inr n ↦ rw (is_substring-longer p s t (rw n at h)) (or_true (starts_with p (c ∷ (s ++ t))))
]

is_substring-after : (p s t : Text) → is_substring p t ≡ true → is_substring p (s ++ t) ≡ true
unfolding is_substring
is_substring-after p [] t h = h
is_substring-after p (c ∷ s) t h =
    rw (is_substring-after p s t h) (or_true (starts_with p (c ∷ (s ++ t))))

-- What is read of the end of a file stays, whatever stands before it.
is_substring-translate_after :
    (p s t : Text)
    → is_substring p (translate t) ≡ true
    → is_substring p (translate (s ++ t)) ≡ true
unfolding translate
is_substring-translate_after p [] t h = h
is_substring-translate_after p (c ∷ s) t h =
    let later = is_substring-translate_after p s t h in
    elim (Bool-cases (eqb c 13)) [
      | inr n ↦ rw n (is_substring-after p (c ∷ []) (translate (s ++ t)) later)
      | inl e ↦ elim (Bool-cases (starts_with (text "\n") (s ++ t))) [
        | inl feed ↦ rw (e, feed) later
        | inr alone ↦ rw (e, alone) (is_substring-after p (10 ∷ []) (translate (s ++ t)) later)
      ]
    ]

-- A text without carriage returns is read as it is.
translate-free : (s t : Text) → IsFree 13 s → translate (s ++ t) ≡ s ++ translate t
unfolding translate
translate-free [] t h = refl
translate-free (c ∷ s) t h = elim (Bool-cases (eqb c 13)) [
  | inl e ↦ absurd (true≢false (rw e at h))
  | inr n ↦ rw (n, translate-free s t (rw n at h))
]

IsFree-append : (sep : ℕ) (s t : Text) → IsFree sep s → IsFree sep t → IsFree sep (s ++ t)
IsFree-append sep [] t h k = k
IsFree-append sep (c ∷ s) t h k = elim (Bool-cases (eqb c sep)) [
  | inl e ↦ absurd (true≢false (rw e at h))
  | inr n ↦ rw n (IsFree-append sep s t (rw n at h) k)
]

starts_with-feed :
    (c : ℕ) (s t : Text) → starts_with (text "\n") (c ∷ (s ++ t)) ≡ starts_with (text "\n") (c ∷ s)
unfolding starts_with
starts_with-feed c [] [] = refl
starts_with-feed c [] (d ∷ t) = refl
starts_with-feed c (d ∷ s) t = refl

-- The line feed or the character that `translate` puts before the rest.
abbrev read_head : Bool → Bool → ℕ → Text → Text
read_head true true c rest = rest
read_head true false c rest = 10 ∷ rest
read_head false feed c rest = c ∷ rest

head-append :
    (b feed : Bool) (c : ℕ) (rest z : Text)
    → read_head b feed c (rest ++ z) ≡ read_head b feed c rest ++ z
head-append true true c rest z = refl
head-append true false c rest z = refl
head-append false feed c rest z = refl

translate_head :
    (c : ℕ) (s : Text)
    → translate (c ∷ s) ≡ read_head (eqb c 13) (starts_with (text "\n") s) c (translate s)
unfolding translate
translate_head c s = elim (Bool-cases (eqb c 13)) [
  | inr n ↦ rw n
  | inl e ↦ elim (Bool-cases (starts_with (text "\n") s)) [
    | inl feed ↦ rw (e, feed)
    | inr alone ↦ rw (e, alone)
  ]
]

translate-one : (c : ℕ) (t : Text) → (z : Text) × (translate (c ∷ t) ≡ translate (c ∷ []) ++ z)
unfolding translate starts_with
translate-one c [] = ([], sym (append-nil _))
translate-one c (d ∷ t) = elim (Bool-cases (eqb c 13)) [
  | inr n ↦ (translate (d ∷ t), rw n)
  | inl e ↦ elim (Bool-cases (eqb 10 d)) [
    | inr alone ↦ (translate (d ∷ t), rw (e, alone))
    | inl feed ↦ (translate t, rw (e, feed, sym ((eqb_iff 10 d).0 feed)))
  ]
]

translate-step :
    (c d : ℕ) (s t z : Text)
    → translate (d ∷ (s ++ t)) ≡ translate (d ∷ s) ++ z
    → translate (c ∷ d ∷ (s ++ t)) ≡ translate (c ∷ d ∷ s) ++ z
translate-step c d s t z e =
    translate_head c (d ∷ (s ++ t))
    ∙ rw (starts_with-feed d s t, e)
        (head-append (eqb c 13) (starts_with (text "\n") (d ∷ s)) c (translate (d ∷ s)) z)
    ∙ ap (λ s. s ++ z) (sym (translate_head c (d ∷ s)))

-- What was read of a file is read of it again when it is extended.
translate-longer : (s t : Text) → (z : Text) × (translate (s ++ t) ≡ translate s ++ z)
unfolding translate
translate-longer [] t = (translate t, refl)
translate-longer (c ∷ []) t = translate-one c t
translate-longer (c ∷ d ∷ s) t =
    let (z, e) = translate-longer (d ∷ s) t in (z, translate-step c d s t z e)

heading-IsFree : (queue_id : Text) → IsFree 13 queue_id → IsFree 13 (heading queue_id)
heading-IsFree queue_id free = IsFree-append 13 queue_id (text ":") free refl

render-contains :
    (python : Printer) (q : QueueEntry)
    → IsFree 13 q.queue_id
    → is_substring (heading q.queue_id) (translate (render python q)) ≡ true
unfolding render
render-contains python q free =
    is_substring-translate_after (heading q.queue_id) (text "\n") (heading q.queue_id ++ below) (
      rw (translate-free (heading q.queue_id) below (heading-IsFree q.queue_id free)) (
        starts_with-is_substring (heading q.queue_id) (heading q.queue_id ++ translate below)
          (starts_with-append (heading q.queue_id) (translate below))))
  where
    below : Text
    below = text " " ++ (q.title ++ render_body python q)

file_contains-rendered :
    (python : Printer) (q : QueueEntry) (file : Option Text)
    → IsFree 13 q.queue_id
    → file_contains q.queue_id (extended (render python q) file) ≡ true
unfolding file_contains
file_contains-rendered python q none free = render-contains python q free
file_contains-rendered python q (some content) free =
    is_substring-translate_after (heading q.queue_id) content (render python q)
      (render-contains python q free)

file_contains-extended :
    (queue_id rendered : Text) (file : Option Text)
    → file_contains queue_id file ≡ true
    → file_contains queue_id (extended rendered file) ≡ true
unfolding file_contains
file_contains-extended queue_id rendered none h = cc
file_contains-extended queue_id rendered (some content) h =
    let (z, e) = translate-longer content rendered in
    rw e (is_substring-longer (heading queue_id) (translate content) z h)

abbrev pub already_exists : QueueEntry → Error
already_exists q = Error.value_error (text "Queue entry already exists: " ++ q.queue_id)

-- Once an entry, whose id has no carriage return, was given to its own worker's queue, however that
-- call ended, giving it again is refused, and neither the files nor the store change.
pub append-twice :
    (python : Printer) (now later : ℕ) (worker_id : Text) (q : QueueEntry) (f : QueueFiles)
    (d : Option Disk)
    → (q.worker_id == worker_id) ≡ true
    → IsFree 13 q.queue_id
    → let (result, f', d') = append python now worker_id q f d in
      append python later worker_id q f' d' ≡ (err (already_exists q), f', d')
unfolding append contains_queue_id
append-twice python now later worker_id q f d mine free =
    elim (Bool-cases
      (file_contains q.queue_id f.authoritative || file_contains q.queue_id f.worker)) [
        | inl there ↦ rw (mine, there, there)
        | inr new ↦ rw (mine, new, file_contains-rendered python q f.authoritative free)
      ]

write_files-keeps :
    (queue_id rendered : Text) (f : QueueFiles)
    → contains_queue_id queue_id f ≡ true
    → contains_queue_id queue_id (write_files rendered f) ≡ true
unfolding contains_queue_id
write_files-keeps queue_id rendered f h =
    elim (Bool-cases (file_contains queue_id f.authoritative)) [
      | inl e ↦ rw (file_contains-extended queue_id rendered f.authoritative e)
      | inr n ↦
          rw (file_contains-extended queue_id rendered f.worker (rw n at h))
            (or_true (file_contains queue_id (extended rendered f.authoritative)))
    ]

-- No call takes an entry out of a queue.
pub append-keeps :
    (python : Printer) (now : ℕ) (worker_id : Text) (q : QueueEntry) (f : QueueFiles)
    (d : Option Disk) (queue_id : Text)
    → contains_queue_id queue_id f ≡ true
    → contains_queue_id queue_id (append python now worker_id q f d).1 ≡ true
unfolding append
append-keeps python now worker_id q f d queue_id h = elim (Bool-cases (q.worker_id == worker_id)) [
  | inr other ↦ rw other h
  | inl mine ↦ elim (Bool-cases (contains_queue_id q.queue_id f)) [
    | inl there ↦ rw (mine, there) h
    | inr new ↦ rw (mine, new) (write_files-keeps queue_id (render python q) f h)
  ]
]
