-- ===== src/Http/Split.antt =====
-- parser.c: the request or status line, the lines behind it and the rest, taken apart by both parsers.
use soter.Base.{
  ℕ, ◌+◌, ◌≡◌, refl, sym, ap, ap₂, ◌∙◌, false, none, some, List, [], ◌∷◌, ◌++◌, arith, eqb, length,
  take, drop, All, length-append, append_assoc, take-length-append, drop-append, last_of, init_of,
}
use soter.Http.{Bytes, Outcome, error, split_head, crlf, crlf_crlf, find_sequence}
use soter.Http.Search.{Free, joined, IsLine, find_crlf-append, find_crlf_crlf-joined}

-- A head without the CRLF of its last line.
abbrev pub cut : Bytes → List Bytes → Bytes
cut l [] = l
cut l (m ∷ ms) = l ++ (13 ∷ 10 ∷ cut m ms)

pub cut-joined : (l : Bytes) (ls : List Bytes) → joined (l ∷ ls) ≡ cut l ls ++ (13 ∷ 10 ∷ [])
cut-joined l [] = refl
cut-joined l (m ∷ ms) =
    ap (λ t. l ++ (13 ∷ 10 ∷ t)) (cut-joined m ms)
    ∙ sym (append_assoc l (13 ∷ 10 ∷ cut m ms) (13 ∷ 10 ∷ []))

pub cut-init_of : (m : Bytes) (ms : List Bytes) → cut m ms ≡ joined (init_of m ms) ++ last_of m ms
cut-init_of m [] = refl
cut-init_of m (n ∷ ns) =
    ap (λ t. m ++ (13 ∷ 10 ∷ t)) (cut-init_of n ns)
    ∙ sym (append_assoc m (13 ∷ 10 ∷ joined (init_of n ns)) (last_of n ns))

-- What `split_head` does once the blank line is found.
abbrev split_line {ℓ} :
    {A : Type ℓ} → (Bytes → Bytes → Bytes → Outcome A) → Bytes → Bytes → Outcome A
split_line {A = A} k head rest = elim (find_sequence head crlf) as (λ _. Outcome A) [
  | none ↦ error
  | some line_end ↦ k (take line_end head) (drop (line_end + 2) head) rest
]

split_head-found {ℓ} :
    {A : Type ℓ} (k : Bytes → Bytes → Bytes → Outcome A) (text : Bytes) (i : ℕ)
    → eqb (length text) 0 ≡ false
    → find_sequence text crlf_crlf ≡ some i
    → split_head text k ≡ split_line k (take i text) (drop (i + 4) text)
unfolding split_head
split_head-found k text i more found = rw (split_head, more, found) refl

split_line-cut {ℓ} :
    {A : Type ℓ} (k : Bytes → Bytes → Bytes → Outcome A) (l tail rest : Bytes)
    → Free 13 l
    → split_line k (l ++ (13 ∷ 10 ∷ tail)) rest ≡ k l tail rest
split_line-cut k l tail rest h =
    rw (split_line, find_crlf-append l tail h)
      (ap₂ (λ a b. k a b rest) (take-length-append l (13 ∷ 10 ∷ tail) (length l) refl)
        (drop-append l (13 ∷ 10 ∷ tail) (length l + 2) 2 refl))

-- The head is split at the end of its first line and at the blank line, and its last line has lost
-- its CRLF.
pub split_head-joined {ℓ} :
    {A : Type ℓ} (k : Bytes → Bytes → Bytes → Outcome A) (l m : Bytes) (ms : List Bytes)
    (rest : Bytes)
    → IsLine l
    → All IsLine (m ∷ ms)
    → split_head (joined (l ∷ m ∷ ms) ++ (13 ∷ 10 ∷ rest)) k ≡ k l (cut m ms) rest
split_head-joined k l m ms rest h hs =
    let head_text : Bytes = joined (l ∷ m ∷ ms) in
    let text : Bytes = head_text ++ (13 ∷ 10 ∷ rest) in
    let (i, found, len) = find_crlf_crlf-joined l (m ∷ ms) rest h hs in
    let short : length (cut l (m ∷ ms)) ≡ i = omega (
      arith,
      len,
      ap length (cut-joined l (m ∷ ms)),
      length-append (cut l (m ∷ ms)) (13 ∷ 10 ∷ []),
    ) in
    let split : text ≡ cut l (m ∷ ms) ++ (13 ∷ 10 ∷ 13 ∷ 10 ∷ rest) =
      ap (λ t. t ++ (13 ∷ 10 ∷ rest)) (cut-joined l (m ∷ ms))
      ∙ append_assoc (cut l (m ∷ ms)) (13 ∷ 10 ∷ []) (13 ∷ 10 ∷ rest) in
    let head : take i text ≡ cut l (m ∷ ms) =
      ap (take i) split ∙ take-length-append (cut l (m ∷ ms)) _ i (sym short) in
    let more : eqb (length text) 0 ≡ false =
      ground (arith, len, length-append head_text (13 ∷ 10 ∷ rest)) in
    let behind : drop (i + 4) text ≡ rest =
      drop-append head_text (13 ∷ 10 ∷ rest) (i + 4) 2 (omega (arith, len)) in
    split_head-found k text i more found
    ∙ ap₂ (split_line k) head behind
    ∙ split_line-cut k l (cut m ms) rest h.1
