-- ===== src/Explore/Exact.antt =====
-- What `read_repository_file` answers where nothing is in the way of an answer.
use git_hub_issue_to_impleme.Prelude.{
  ℕ, zero, suc, ◌+◌, ◌-◌, ◌/◌, ◌%◌, ◌≤◌, ◌≡◌, refl, ap, ◌∙◌, inl, inr, true, false, List, [], ◌∷◌,
  ◌++◌, arith, ltb, ltb→lt, Bool-cases, nat_eq, pair_eq, true≢false, length, is_empty, take, drop,
  All, length-append, All-append, contains, Text, text, text_eq, texts_eq, strip, join, decimal_on,
  decimal, is_line_break, splitlines, length-take, take-length_le, IsLine, splitlines-IsLine,
  IsFull, splitlines-join,
}
use git_hub_issue_to_impleme.Explore.Access.{
  max_command_output, max_read_lines, max_file_size_bytes, truncate_lines, Checkout,
  resolve_repository_file,
}
use git_hub_issue_to_impleme.Explore.Read.{
  spaces, numbered, number_lines, selected, excerpt, read_file, read_repository_file_range,
}

digit-IsLine : (k : ℕ) → 48 ≤ k → k ≤ 57 → is_line_break k ≡ false
digit-IsLine k low high = ground arith

decimal_on-IsLine : (f n : ℕ) → IsLine (decimal_on f n)
unfolding decimal_on
decimal_on-IsLine zero n = tt
decimal_on-IsLine (suc f) n = elim (Bool-cases (ltb n 10)) [
  | inl small ↦
      rw small (digit-IsLine (48 + n) (omega arith) (omega (arith, ltb→lt n 10 small)), tt)
  | inr large ↦ rw large (
      All-append _ (decimal_on f (n / 10)) ((48 + n % 10) ∷ []) (decimal_on-IsLine f (n / 10))
        (digit-IsLine (48 + n % 10) (omega arith) (omega arith), tt))
]

spaces-IsLine : (n : ℕ) → IsLine (spaces n)
spaces-IsLine zero = tt
spaces-IsLine (suc n) = (refl, spaces-IsLine n)

module _ {ℓ} {A : Type ℓ} where
  All-take : (P : A → Type 0) (n : ℕ) (xs : List A) → All P xs → All P (take n xs)
  All-take P zero xs h = tt
  All-take P (suc n) [] h = tt
  All-take P (suc n) (x ∷ xs) h = (h.0, All-take P n xs h.1)

  All-drop : (P : A → Type 0) (n : ℕ) (xs : List A) → All P xs → All P (drop n xs)
  All-drop P zero xs h = h
  All-drop P (suc n) [] h = tt
  All-drop P (suc n) (x ∷ xs) h = All-drop P n xs h.1

  length-drop : (n : ℕ) (xs : List A) → length (drop n xs) ≡ length xs - n
  length-drop zero xs = omega arith
  length-drop (suc n) [] = omega arith
  length-drop (suc n) (x ∷ xs) = omega (arith, length-drop n xs)

  le-length-take : (m n : ℕ) (xs : List A) → m ≤ n → m ≤ length xs → m ≤ length (take n xs)
  le-length-take m zero xs hn hx = hn
  le-length-take m (suc n) [] hn hx = hx
  le-length-take m (suc n) (x ∷ xs) hn hx =
      omega (arith, le-length-take (m - 1) n xs (omega arith) (omega arith))

  is_empty-length : (xs : List A) → 1 ≤ length xs → is_empty xs ≡ false
  is_empty-length [] h = absurd (omega arith)
  is_empty-length (x ∷ xs) h = refl

numbered-IsFull : (n : ℕ) (line : Text) → IsLine line → IsFull (numbered n line)
unfolding numbered decimal
numbered-IsFull n line h =
    let margin = spaces (6 - length (decimal n)) in
    (
      All-append _ margin (decimal n ++ (text ": " ++ line))
          (spaces-IsLine (6 - length (decimal n)))
          (All-append _ (decimal n) (text ": " ++ line) (decimal_on-IsLine (suc n) n)
            (refl, (refl, h))),
      is_empty-length (numbered n line) (
          omega (
            arith,
            length-append margin (decimal n ++ (text ": " ++ line)),
            length-append (decimal n) (text ": " ++ line),
          )),
    )

number_lines-IsFull :
    (n : ℕ) (lines : List Text) → All IsLine lines → All IsFull (number_lines n lines)
unfolding number_lines
number_lines-IsFull n [] h = tt
number_lines-IsFull n (line ∷ lines) h =
    (numbered-IsFull n line h.0, number_lines-IsFull (n + 1) lines h.1)

length-number_lines : (n : ℕ) (lines : List Text) → length (number_lines n lines) ≡ length lines
unfolding number_lines
length-number_lines n [] = refl
length-number_lines n (line ∷ lines) = omega (arith, length-number_lines (n + 1) lines)

le→ltb : (a b : ℕ) → b ≤ a → ltb a b ≡ false
le→ltb a b h = ground arith

truncate_lines-whole :
    (lines : List Text) (max_lines max_chars : ℕ)
    → All IsFull lines
    → length lines ≤ max_lines
    → length (join (text "\n") lines) ≤ max_chars
    → truncate_lines (join (text "\n") lines) max_lines max_chars ≡ join (text "\n") lines
unfolding truncate_lines
truncate_lines-whole lines max_lines max_chars full few short =
    rw
      (
        splitlines-join lines full,
        le→ltb max_lines (length lines) few,
        le→ltb max_chars (length (join (text "\n") lines)) short,
        take-length_le max_lines lines few,
      )
      (take-length_le max_chars (join (text "\n") lines) short)

excerpt-whole :
    (total start_line : ℕ) (lines : List Text)
    → is_empty lines ≡ false
    → All IsLine lines
    → length lines ≤ max_read_lines
    → length (join (text "\n") (number_lines start_line lines)) ≤ max_command_output
    → splitlines (excerpt total start_line lines) ≡ number_lines start_line lines
excerpt-whole total start_line [] h _ _ _ = absurd (true≢false h)
excerpt-whole total start_line (line ∷ lines) h clean few short =
    let full = number_lines-IsFull start_line (line ∷ lines) clean in
    ap splitlines (
      truncate_lines-whole (number_lines start_line (line ∷ lines)) max_read_lines
        max_command_output full (omega (arith, few, length-number_lines start_line (line ∷ lines)))
        short)
    ∙ splitlines-join (number_lines start_line (line ∷ lines)) full

-- The lines of a file, as the tool decodes it.
abbrev pub lines_of : Checkout → List Text → List Text
lines_of checkout file = splitlines (checkout.decode (checkout.read_bytes file))

-- The request names a text file of the repository, not too large, and lines that it has.
pub record IsReadable (checkout : Checkout) (path : Text) (start_line end_line : ℕ)
    (file : List Text) : Type 0 where
  pub named : is_empty (strip path) ≡ false
  pub resolved : resolve_repository_file checkout (strip path) ≡ inr file
  pub is_there : checkout.is_file file ≡ true
  pub small : checkout.size file ≤ max_file_size_bytes
  pub is_text : contains (checkout.read_bytes file) 0 ≡ false
  pub from_one : 1 ≤ start_line
  pub forward : start_line ≤ end_line
  pub few : end_line - start_line + 1 ≤ max_read_lines
  pub has_lines : start_line ≤ length (lines_of checkout file)

-- Where a request can be answered and its answer has at most 12000 characters, the lines of the
-- answer are exactly the requested lines of the file that there are, each with its number.
pub read_repository_file_range-lines :
    (checkout : Checkout) (path : Text) (start_line end_line : ℕ) (file : List Text)
    → IsReadable checkout path start_line end_line file
    → length (
        join
          (text "\n")
          (number_lines start_line (selected (lines_of checkout file) start_line end_line)))
      ≤ max_command_output
    → splitlines (read_repository_file_range checkout path start_line end_line)
      ≡ number_lines start_line (selected (lines_of checkout file) start_line end_line)
unfolding read_repository_file_range read_file
read_repository_file_range-lines checkout path start_line end_line file r short =
    let lines = lines_of checkout file in
    let chosen = take end_line lines in
    rw
      (
        r.named,
        le→ltb start_line 1 r.from_one,
        le→ltb end_line start_line r.forward,
        le→ltb max_read_lines (end_line - start_line + 1) r.few,
        r.resolved,
        r.is_there,
        le→ltb max_file_size_bytes (checkout.size file) r.small,
        r.is_text,
      )
      (excerpt-whole (length lines) start_line (selected lines start_line end_line)
        (is_empty-length (drop (start_line - 1) chosen) (
          omega (
            arith,
            length-drop (start_line - 1) chosen,
            le-length-take start_line end_line lines r.forward r.has_lines,
            r.from_one,
          )))
        (All-drop IsLine (start_line - 1) chosen (
          All-take IsLine end_line lines
            (splitlines-IsLine (checkout.decode (checkout.read_bytes file)))))
        (omega (
          arith,
          length-drop (start_line - 1) chosen,
          length-take end_line lines,
          r.few,
          r.from_one,
          r.forward,
        ))
        short)
