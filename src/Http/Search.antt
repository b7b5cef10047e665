-- ===== src/Http/Search.antt =====
-- parser.c: what `find_sequence` and the loops for one character find.
use soter.Base.{
  eqb_flip, ℕ, zero, suc, ◌+◌, ◌≤◌, ◌<◌, ◌≡◌, refl, ap, ◌∙◌, ◌⊎◌, inl, inr, true, false, none, some,
  List, [], ◌∷◌, ◌++◌, arith, eqb, eqb_refl, length, drop, All, Bool-cases, length-append,
  append_assoc,
}
use soter.Http.{Bytes, crlf, crlf_crlf, starts_with, moved, find_sequence, find_byte}

-- `seq` stands at index `i`, inside the buffer, and at no index before.
pub record FirstIn (buf seq : Bytes) (i : ℕ) : Type 0 where
  pub here : starts_with seq (drop i buf) ≡ true
  pub inside : i + length seq ≤ length buf
  pub first : (j : ℕ) → j < i → starts_with seq (drop j buf) ≡ false

starts_with-length : (seq buf : Bytes) → starts_with seq buf ≡ true → length seq ≤ length buf
unfolding starts_with
starts_with-length [] buf h = omega arith
starts_with-length (s ∷ seq) [] h = cc
starts_with-length (s ∷ seq) (b ∷ buf) h = elim (Bool-cases (eqb s b)) [
  | inl e ↦ omega (arith, starts_with-length seq buf (rw e at h))
  | inr e ↦ let bad : false ≡ true = rw e at h in cc
]

-- One more place before those known to be none.
none_before :
    (b : ℕ) (buf seq : Bytes) (n : ℕ)
    → starts_with seq (b ∷ buf) ≡ false
    → ((j : ℕ) → j < n → starts_with seq (drop j buf) ≡ false)
    → (j : ℕ) → j < suc n
    → starts_with seq (drop j (b ∷ buf)) ≡ false
none_before b buf seq n e rest zero h = e
none_before b buf seq n e rest (suc j) h = rest j (omega (arith, h))

drop_nil : (j : ℕ) → drop {A = ℕ} j [] ≡ []
drop_nil zero = refl
drop_nil (suc j) = refl

-- `find_sequence` finds the first place where the sequence stands, or says that there is none.
pub find_sequence_lem :
    (buf seq : Bytes)
    → ((find_sequence buf seq ≡ none)
        × ((j : ℕ) → j < suc (length buf) → starts_with seq (drop j buf) ≡ false))
      ⊎ ((i : ℕ) × (find_sequence buf seq ≡ some i) × FirstIn buf seq i)
unfolding find_sequence
find_sequence_lem [] seq = elim (Bool-cases (starts_with seq [])) [
  | inl e ↦ inr (
    0,
    rw e refl,
    record {
      here = e;
      inside = omega (arith, starts_with-length seq [] e);
      first = λ j h. absurd (omega (arith, h));
    },
  )
  | inr e ↦ inl (rw e refl, λ j h. rw (drop_nil j) e)
]
find_sequence_lem (b ∷ buf) seq = elim (Bool-cases (starts_with seq (b ∷ buf))) [
  | inl e ↦ inr (
    0,
    rw e refl,
    record {
      here = e;
      inside = omega (arith, starts_with-length seq (b ∷ buf) e);
      first = λ j h. absurd (omega (arith, h));
    },
  )
  | inr e ↦ elim (find_sequence_lem buf seq) [
    | inl (missing, never) ↦ inl (rw (e, missing) refl, none_before b buf seq _ e never)
    | inr (i, found, f) ↦ inr (
      suc i,
      rw (e, found) refl,
      record {
        here = f.here;
        inside = omega (arith, f.inside);
        first = none_before b buf seq i e f.first;
      },
    )
  ]
]

-- The byte is not among these.
abbrev pub Free : ℕ → Bytes → Type 0
Free c bs = All (λ b. eqb b c ≡ false) bs

pub find_byte-append :
    (c : ℕ) (xs ys : Bytes) → Free c xs → find_byte c (xs ++ (c ∷ ys)) ≡ some (length xs)
unfolding find_byte
find_byte-append c [] ys h = rw (eqb_refl c) refl
find_byte-append c (x ∷ xs) ys (hx, hs) = rw (hx, find_byte-append c xs ys hs) refl

pub find_crlf-append :
    (line rest : Bytes)
    → Free 13 line
    → find_sequence (line ++ (13 ∷ 10 ∷ rest)) crlf ≡ some (length line)
unfolding find_sequence starts_with
find_crlf-append [] rest h = refl
find_crlf-append (x ∷ xs) rest (hx, hs) = rw (eqb_flip x 13 hx, find_crlf-append xs rest hs) refl

pub find_crlf-none : (line : Bytes) → Free 13 line → find_sequence line crlf ≡ none
unfolding find_sequence starts_with
find_crlf-none [] h = refl
find_crlf-none (x ∷ xs) (hx, hs) = rw (eqb_flip x 13 hx, find_crlf-none xs hs) refl

-- A head of lines, none of them empty, each with its CRLF.
abbrev pub joined : List Bytes → Bytes
joined [] = []
joined (l ∷ ls) = l ++ (13 ∷ 10 ∷ joined ls)

-- A line that is not empty and has no CR.
abbrev pub IsLine : Bytes → Type 0
IsLine l = (1 ≤ length l) × Free 13 l

skip_line :
    (l ys : Bytes) (i : ℕ)
    → Free 13 l
    → find_sequence ys crlf_crlf ≡ some i
    → find_sequence (l ++ ys) crlf_crlf ≡ some (length l + i)
unfolding find_sequence starts_with
skip_line [] ys i h e = e ∙ ap some (omega arith)
skip_line (x ∷ xs) ys i (hx, hs) e =
    rw (eqb_flip x 13 hx, skip_line xs ys i hs e) (ap some (omega arith))

skip_one :
    (b : ℕ) (buf seq : Bytes)
    → starts_with seq (b ∷ buf) ≡ false
    → find_sequence (b ∷ buf) seq ≡ moved (find_sequence buf seq)
unfolding find_sequence
skip_one b buf seq h = rw h refl

other_byte :
    (y : ℕ) (ys : Bytes) → eqb y 13 ≡ false → starts_with crlf_crlf (13 ∷ 10 ∷ y ∷ ys) ≡ false
unfolding starts_with
other_byte y ys h = rw (eqb_flip y 13 h) refl

skip_crlf :
    (y : ℕ) (ys : Bytes) (i : ℕ)
    → eqb y 13 ≡ false
    → find_sequence (y ∷ ys) crlf_crlf ≡ some i
    → find_sequence (13 ∷ 10 ∷ y ∷ ys) crlf_crlf ≡ some (2 + i)
unfolding starts_with
skip_crlf y ys i h e =
    skip_one 13 (10 ∷ y ∷ ys) crlf_crlf (other_byte y ys h)
    ∙ ap moved (skip_one 10 (y ∷ ys) crlf_crlf refl ∙ ap moved e)
    ∙ ap some (omega arith)

found_at_once : (rest : Bytes) → find_sequence (crlf_crlf ++ rest) crlf_crlf ≡ some 0
unfolding find_sequence starts_with
found_at_once rest = refl

-- The blank line is found behind the last line of the head: its index, and the two bytes of the last
-- line's end, make the length of the head.
pub find_crlf_crlf-joined :
    (l : Bytes) (ls : List Bytes) (rest : Bytes)
    → IsLine l
    → All IsLine ls
    → (i : ℕ) × (find_sequence (joined (l ∷ ls) ++ (13 ∷ 10 ∷ rest)) crlf_crlf ≡ some i)
      × (i + 2 ≡ length (joined (l ∷ ls)))
find_crlf_crlf-joined l [] rest h hs = (
  length l,
  rw (append_assoc l (13 ∷ 10 ∷ []) (13 ∷ 10 ∷ rest))
      (skip_line l (13 ∷ 10 ∷ 13 ∷ 10 ∷ rest) 0 h.1 (found_at_once rest) ∙ ap some (omega arith)),
  omega (arith, length-append l (13 ∷ 10 ∷ [])),
)
find_crlf_crlf-joined l ([] ∷ ls) rest h (h', hs) = absurd (omega (arith, h'.0))
find_crlf_crlf-joined l ((y ∷ ys) ∷ ls) rest h (h', hs) =
    let (i, found, len) = find_crlf_crlf-joined (y ∷ ys) ls rest h' hs in
    (
      length l + (2 + i),
      rw (append_assoc l (13 ∷ 10 ∷ joined ((y ∷ ys) ∷ ls)) (13 ∷ 10 ∷ rest))
          (skip_line l _ (2 + i) h.1 (skip_crlf y _ i h'.1.0 found)),
      omega (arith, len, length-append l (13 ∷ 10 ∷ joined ((y ∷ ys) ∷ ls))),
    )
