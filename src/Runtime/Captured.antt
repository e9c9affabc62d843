-- ===== src/Runtime/Captured.antt =====
-- What the loop of `_collect_process_output` keeps of a process's output.
use git_hub_issue_to_impleme.Prelude.{
  ℕ, zero, suc, ◌-◌, ◌≤◌, ◌<◌, ◌≡◌, refl, sym, ap, ◌∙◌, ◌⊎◌, inl, inr, Bool, true, false, List, [],
  ◌∷◌, ◌++◌, append-nil, append_assoc, arith, ltb, ltb→lt, ltb-false, ltb-false, Bool-cases, nat_eq,
  pair_eq, or_true, length, take, text_eq, texts_eq, length-take-le, take-length_le,
}
use git_hub_issue_to_impleme.Runtime.Service.{max_process_output}
use git_hub_issue_to_impleme.Runtime.Check.{
  Stream, stdout, stderr, Event, chunk, deadline, Capture, new_capture, extend, receive, is_reading,
  collect,
}

-- What a process writes to a stream before the deadline, up to the stream's end.
abbrev pub written : Stream → List Event → List ℕ
written x [] = []
written x (deadline ∷ events) = []
written stdout (chunk stdout [] ∷ events) = []
written stdout (chunk stdout (b ∷ bytes) ∷ events) = (b ∷ bytes) ++ written stdout events
written stdout (chunk stderr bytes ∷ events) = written stdout events
written stderr (chunk stderr [] ∷ events) = []
written stderr (chunk stderr (b ∷ bytes) ∷ events) = (b ∷ bytes) ++ written stderr events
written stderr (chunk stdout bytes ∷ events) = written stderr events

abbrev pub stream_of : Stream → Capture → List ℕ
stream_of stdout c = c.out
stream_of stderr c = c.errors

abbrev is_open : Stream → Capture → Bool
is_open stdout c = c.out_open
is_open stderr c = c.errors_open

module _ {ℓ} {A : Type ℓ} where
  take-append_le :
      (n : ℕ) (xs ys : List A) → length xs ≤ n → take n (xs ++ ys) ≡ xs ++ take (n - length xs) ys
  take-append_le zero [] ys h = refl
  take-append_le zero (x ∷ xs) ys h = absurd (omega arith)
  take-append_le (suc n) [] ys h =
      let same : suc n ≡ suc n - 0 = omega arith in ap (λ k. take k ys) same
  take-append_le (suc n) (x ∷ xs) ys h =
      let same : n - length xs ≡ suc n - suc (length xs) = omega arith in
      ap (x ∷◌) (take-append_le n xs ys (omega arith) ∙ ap (λ k. xs ++ take k ys) same)

  take-append_ge : (n : ℕ) (xs ys : List A) → n ≤ length xs → take n (xs ++ ys) ≡ take n xs
  take-append_ge zero xs ys h = refl
  take-append_ge (suc n) [] ys h = absurd (omega arith)
  take-append_ge (suc n) (x ∷ xs) ys h = ap (x ∷◌) (take-append_ge n xs ys (omega arith))

  length-take_lt : (n : ℕ) (xs : List A) → length (take n xs) < n → length xs ≤ n
  length-take_lt zero xs h = absurd (omega arith)
  length-take_lt (suc n) [] h = omega arith
  length-take_lt (suc n) (x ∷ xs) h = omega (arith, length-take_lt n xs (omega arith))

extend-take :
    (limit : ℕ) (before bytes : List ℕ)
    → extend limit (take limit before) bytes ≡ take limit (before ++ bytes)
unfolding extend
extend-take limit before bytes = elim (Bool-cases (ltb (length (take limit before)) limit)) [
  | inl more ↦
      let short = length-take_lt limit before (ltb→lt _ _ more) in
      rw (more, take-length_le limit before short) (sym (take-append_le limit before bytes short))
  | inr full ↦
      let long = ltb-false _ _ full in
      rw full (sym (take-append_ge limit before bytes (omega (arith, length-take-le limit before))))
]

-- A stream that has ended stays as it is.
receive-closed :
    (x y : Stream) (bytes : List ℕ) (c : Capture)
    → is_open x c ≡ false
    → (is_open x (receive y bytes c) ≡ false) × (stream_of x (receive y bytes c) ≡ stream_of x c)
unfolding receive
receive-closed stdout stdout [] c h = (refl, refl)
receive-closed stdout stdout (b ∷ bytes) c h = (h, rw h refl)
receive-closed stdout stderr [] c h = (h, refl)
receive-closed stdout stderr (b ∷ bytes) c h = (h, refl)
receive-closed stderr stderr [] c h = (refl, refl)
receive-closed stderr stderr (b ∷ bytes) c h = (h, rw h refl)
receive-closed stderr stdout [] c h = (h, refl)
receive-closed stderr stdout (b ∷ bytes) c h = (h, refl)

collect-closed :
    (x : Stream) (events : List Event) (c : Capture)
    → is_open x c ≡ false
    → stream_of x (collect events c).0 ≡ stream_of x c
unfolding collect
collect-closed x [] c h = refl
collect-closed x (deadline ∷ events) c h = refl
collect-closed x (chunk y bytes ∷ events) c h = elim (Bool-cases (is_reading c)) [
  | inl reading ↦
      let (closed, same) = receive-closed x y bytes c h in
      rw reading (collect-closed x events (receive y bytes c) closed ∙ same)
  | inr ended ↦ rw ended refl
]

is_open-is_reading : (x : Stream) (c : Capture) → is_open x c ≡ true → is_reading c ≡ true
is_open-is_reading stdout c h = rw h refl
is_open-is_reading stderr c h = rw h (or_true c.out_open)

-- What one chunk leaves of an open stream: it stays open with the chunk's bytes, or it has ended.
receive-open :
    (x y : Stream) (bytes : List ℕ) (events : List Event) (c : Capture) (before : List ℕ)
    → is_open x c ≡ true
    → stream_of x c ≡ take max_process_output before
    → ((is_open x (receive y bytes c) ≡ false)
        × (stream_of x (receive y bytes c)
            ≡ take max_process_output (before ++ written x (chunk y bytes ∷ events))))
      ⊎ ((later : List ℕ) × (is_open x (receive y bytes c) ≡ true)
          × (stream_of x (receive y bytes c) ≡ take max_process_output (before ++ later))
          × (written x (chunk y bytes ∷ events) ≡ later ++ written x events))
unfolding receive
receive-open stdout stdout [] events c before h e =
    inl (refl, e ∙ ap (take max_process_output) (sym (append-nil before)))
receive-open stdout stdout (b ∷ bytes) events c before h e =
    inr (b ∷ bytes, h, rw (h, e) (extend-take max_process_output before (b ∷ bytes)), refl)
receive-open stdout stderr [] events c before h e =
    inr ([], h, e ∙ ap (take max_process_output) (sym (append-nil before)), refl)
receive-open stdout stderr (b ∷ bytes) events c before h e =
    inr ([], h, e ∙ ap (take max_process_output) (sym (append-nil before)), refl)
receive-open stderr stderr [] events c before h e =
    inl (refl, e ∙ ap (take max_process_output) (sym (append-nil before)))
receive-open stderr stderr (b ∷ bytes) events c before h e =
    inr (b ∷ bytes, h, rw (h, e) (extend-take max_process_output before (b ∷ bytes)), refl)
receive-open stderr stdout [] events c before h e =
    inr ([], h, e ∙ ap (take max_process_output) (sym (append-nil before)), refl)
receive-open stderr stdout (b ∷ bytes) events c before h e =
    inr ([], h, e ∙ ap (take max_process_output) (sym (append-nil before)), refl)

collect-written :
    (x : Stream) (events : List Event) (c : Capture) (before : List ℕ)
    → is_open x c ≡ true
    → stream_of x c ≡ take max_process_output before
    → stream_of x (collect events c).0 ≡ take max_process_output (before ++ written x events)
unfolding collect
collect-written x [] c before reading e = e ∙ ap (take max_process_output) (sym (append-nil before))
collect-written x (deadline ∷ events) c before reading e =
    e ∙ ap (take max_process_output) (sym (append-nil before))
collect-written x (chunk y bytes ∷ events) c before reading e =
    rw (is_open-is_reading x c reading) (elim (receive-open x y bytes events c before reading e) [
      | inl (ended, same) ↦ collect-closed x events (receive y bytes c) ended ∙ same
      | inr (later, still, same, more) ↦
          collect-written x events (receive y bytes c) (before ++ later) still same
          ∙ ap (take max_process_output)
              (append_assoc before later (written x events) ∙ ap (before ++◌) (sym more))
    ])

-- Of each of the two streams of a process the loop keeps, whatever the chunks it reads and
-- wherever they are cut, just the first 12000 bytes that the process writes to it before the
-- deadline.
pub collect-keeps_written :
    (x : Stream) (events : List Event)
    → stream_of x (collect events new_capture).0 ≡ take max_process_output (written x events)
collect-keeps_written stdout events = collect-written stdout events new_capture [] refl refl
collect-keeps_written stderr events = collect-written stderr events new_capture [] refl refl
