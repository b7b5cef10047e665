-- ===== src/Http/Headers.antt =====
-- parser.c: what `parse_headers` stores, line by line.
use soter.Base.{
  ℕ, zero, suc, ◌+◌, ◌≤◌, ◌≡◌, refl, ap₂, ◌∙◌, inl, inr, Option, none, some, List, [], ◌∷◌, ◌++◌,
  arith, length, take, drop, All, Option-cases, length-append, append_assoc, take-length-append,
  drop-append,
}
use soter.Http.{Bytes, Parsed, crlf, find_sequence, take_line, parse_lines}
use soter.Http.Search.{Free, joined, find_crlf-append, find_crlf-none}

-- The header lines one after another.
unfoldable pub run_lines : Parsed → List Bytes → Option Parsed
run_lines p [] = some p
run_lines p (l ∷ ls) = elim (take_line p l) [ none ↦ none | some p' ↦ run_lines p' ls ]

-- A round of the loop, where a line ends at `line_end`.
round :
    (rounds : ℕ) (p : Parsed) (c : ℕ) (cs : Bytes) (line_end : ℕ)
    → find_sequence (c ∷ cs) crlf ≡ some line_end
    → parse_lines (suc rounds) p (c ∷ cs)
      ≡ elim (take_line p (take line_end (c ∷ cs))) as (λ _. Option Parsed) [
        | none ↦ none
        | some p' ↦ parse_lines rounds p' (drop (line_end + 2) (c ∷ cs))
      ]
unfolding parse_lines
round rounds p c cs line_end found = rw (parse_lines, found) refl

-- The same, where the line is in sight.
abbrev after_line : ℕ → Parsed → Bytes → Bytes → Option Parsed
after_line rounds p l rest = elim (take_line p l) as (λ _. Option Parsed) [
  | none ↦ none
  | some p' ↦ parse_lines rounds p' rest
]

split_line :
    (rounds : ℕ) (p : Parsed) (l rest : Bytes)
    → let text = l ++ (13 ∷ 10 ∷ rest) in
      after_line rounds p (take (length l) text) (drop (length l + 2) text)
      ≡ after_line rounds p l rest
split_line rounds p l rest =
    ap₂ (after_line rounds p) (take-length-append l (13 ∷ 10 ∷ rest) (length l) refl)
      (drop-append l (13 ∷ 10 ∷ rest) (length l + 2) 2 refl)

line_step :
    (rounds : ℕ) (p : Parsed) (l rest : Bytes)
    → Free 13 l
    → parse_lines (suc rounds) p (l ++ (13 ∷ 10 ∷ rest)) ≡ after_line rounds p l rest
line_step rounds p [] rest h =
    round rounds p 13 (10 ∷ rest) 0 (find_crlf-append [] rest h) ∙ split_line rounds p [] rest
line_step rounds p (x ∷ xs) rest h =
    round rounds p x (xs ++ (13 ∷ 10 ∷ rest)) (length (x ∷ xs)) (find_crlf-append (x ∷ xs) rest h)
    ∙ split_line rounds p (x ∷ xs) rest

-- What stands behind the last CRLF is dropped.
last_dropped :
    (rounds : ℕ) (p : Parsed) (last : Bytes) → Free 13 last → parse_lines rounds p last ≡ some p
unfolding parse_lines
last_dropped zero p last h = refl
last_dropped (suc rounds) p [] h = refl
last_dropped (suc rounds) p (c ∷ cs) h = rw (parse_lines, find_crlf-none (c ∷ cs) h) refl

-- The loop takes every line that ends with a CRLF and drops what stands behind the last one.
pub parse_lines-joined :
    (rounds : ℕ) (p : Parsed) (ls : List Bytes) (last : Bytes)
    → All (Free 13) ls
    → Free 13 last
    → length (joined ls ++ last) ≤ rounds
    → parse_lines rounds p (joined ls ++ last) ≡ run_lines p ls
unfolding run_lines
parse_lines-joined rounds p [] last h hl enough = last_dropped rounds p last hl
parse_lines-joined zero p (l ∷ ls) last h hl enough = absurd (
    omega
      (arith, enough, length-append (joined (l ∷ ls)) last, length-append l (13 ∷ 10 ∷ joined ls)))
parse_lines-joined (suc rounds) p (l ∷ ls) last (h, hs) hl enough =
    let shorter : length (joined ls ++ last) ≤ rounds = omega (
      arith,
      enough,
      length-append (joined (l ∷ ls)) last,
      length-append l (13 ∷ 10 ∷ joined ls),
      length-append (joined ls) last,
    ) in
    rw (append_assoc l (13 ∷ 10 ∷ joined ls) last) (
      line_step rounds p l (joined ls ++ last) h ∙ elim (Option-cases (take_line p l)) [
        | inl bad ↦ rw (after_line, run_lines, bad) refl
        | inr (p', good) ↦
            rw (after_line, run_lines, good) (parse_lines-joined rounds p' ls last hs hl shorter)
      ])
