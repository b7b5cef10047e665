-- ===== src/Http/Loop.antt =====
-- parser.c: the loop of `parse_headers`, its bounds and its rounds.
use soter.Base.{
  ℕ, zero, suc, ◌+◌, ◌*◌, ◌-◌, ◌≤◌, ◌<◌, ◌≡◌, refl, ◌⊎◌, inl, inr, true, false, not, ◌&&◌, Option,
  none, some, [], ◌∷◌, ◌++◌, arith, ltb, length, take, drop, All, All-append, Bool-cases,
  Option-cases, length-append, ltb→lt, length-drop,
}
use soter.Http.{
  Bytes, Parsed, crlf, find_sequence, find_byte, store_header, take_line, parse_lines,
  parse_content_length, digits, skip_space, max_headers, max_header_size, max_body_size,
  same_letters, content_length_key,
}
use soter.Http.Search.{find_sequence_lem}

-- What `parse_headers` promises of its output.
pub record Fits (p : Parsed) : Type 0 where
  pub few : length p.headers ≤ max_headers
  pub short :
      All (λ h. (length h.key < max_header_size) × (length h.value < max_header_size)) p.headers
  pub announced : p.content_length ≤ max_body_size

digits-le :
    (xs : Bytes) (out v : ℕ) → digits out xs ≡ some v → out ≤ max_body_size → v ≤ max_body_size
unfolding digits
digits-le [] out v h small = ground arith
digits-le (c ∷ cs) out v h small = ground (arith, digits-le cs (out * 10 + (c - 48)) v)

parse_content_length-le :
    (xs : Bytes) (v : ℕ) → parse_content_length xs ≡ some v → v ≤ max_body_size
unfolding parse_content_length
parse_content_length-le [] v h = cc
parse_content_length-le (c ∷ cs) v h = digits-le (skip_space (c ∷ cs)) 0 v h (omega arith)

-- The output is only looked at when it is not an error.
abbrev pub Kept : Option Parsed → Type 0
Kept none = Unit
Kept (some q) = Fits q

record HasRoom (p : Parsed) (key value : Bytes) : Type 0 where
  few : length p.headers < max_headers
  key_short : length key < max_header_size
  value_short : length value < max_header_size

added-Fits :
    (p : Parsed) (key value : Bytes) (n : ℕ)
    → Fits p
    → HasRoom p key value
    → n ≤ max_body_size
    → Fits (record {
      headers = p.headers ++ (record { key = key; value = value } ∷ []);
      content_length = n;
    })
added-Fits p key value n f r small = record {
  few = omega (arith, r.few, length-append p.headers (record { key = key; value = value } ∷ []));
  short = All-append _ p.headers _ f.short ((r.key_short, r.value_short), tt);
  announced = small;
}

refused_or_room :
    (p : Parsed) (key value : Bytes)
    → let full = not (
        ltb (length p.headers) max_headers
        && ltb (length key) max_header_size
        && ltb (length value) max_header_size) in
      (full ≡ true) ⊎ ((full ≡ false) × HasRoom p key value)
refused_or_room p key value = elim (Bool-cases (ltb (length p.headers) max_headers)) [
  | inr a ↦ inl (rw a refl)
  | inl a ↦ elim (Bool-cases (ltb (length key) max_header_size)) [
    | inr b ↦ inl (rw (a, b) refl)
    | inl b ↦ elim (Bool-cases (ltb (length value) max_header_size)) [
      | inr c ↦ inl (rw (a, b, c) refl)
      | inl c ↦ inr (
        rw (a, b, c) refl,
        record { few = ltb→lt _ _ a; key_short = ltb→lt _ _ b; value_short = ltb→lt _ _ c },
      )
    ]
  ]
]

store_header-Kept : (p : Parsed) (key value : Bytes) → Fits p → Kept (store_header p key value)
unfolding store_header
store_header-Kept p key value f = elim (refused_or_room p key value) [
  | inl full ↦ rw (store_header, full) f
  | inr (room, r) ↦ elim (Bool-cases (same_letters key content_length_key)) [
    | inr other ↦
        rw (store_header, room, other) (added-Fits p key value p.content_length f r f.announced)
    | inl same ↦ elim (Option-cases (parse_content_length value)) [
      | inl bad ↦ rw (store_header, room, same, bad) tt
      | inr (n, good) ↦
          rw (store_header, room, same, good)
            (added-Fits p key value n f r (parse_content_length-le value n good))
    ]
  ]
]

take_line-Kept : (p : Parsed) (line : Bytes) → Fits p → Kept (take_line p line)
unfolding take_line
take_line-Kept p line f = elim (Option-cases (find_byte b':' line)) [
  | inl no_colon ↦ rw (take_line, no_colon) f
  | inr (colon, found) ↦ rw (take_line, found) (store_header-Kept p _ _ f)
]

pub parse_lines-Kept :
    (rounds : ℕ) (p : Parsed) (text : Bytes) → Fits p → Kept (parse_lines rounds p text)
unfolding parse_lines
parse_lines-Kept zero p text f = f
parse_lines-Kept (suc rounds) p [] f = f
parse_lines-Kept (suc rounds) p (c ∷ cs) f = elim (Option-cases (find_sequence (c ∷ cs) crlf)) [
  | inl last ↦ rw (parse_lines, last) f
  | inr (line_end, found) ↦
      let line : Bytes = take line_end (c ∷ cs) in
      let kept : Kept (take_line p line) = take_line-Kept p line f in
      rw (parse_lines, found)
        (elim (Option-cases (take_line p line)) [
          | inl bad ↦ rw bad tt
          | inr (q, good) ↦ rw good (parse_lines-Kept rounds q _ (rw good at kept))
        ])
]

-- The loop of `parse_headers` has no more rounds than bytes: more rounds change nothing.
pub parse_lines-rounds :
    (a b : ℕ) (p : Parsed) (text : Bytes)
    → length text ≤ a
    → length text ≤ b
    → parse_lines a p text ≡ parse_lines b p text
unfolding parse_lines
parse_lines-rounds zero zero p text ha hb = refl
parse_lines-rounds zero (suc b) p [] ha hb = refl
parse_lines-rounds (suc a) zero p [] ha hb = refl
parse_lines-rounds zero (suc b) p (c ∷ cs) ha hb = absurd (omega (arith, ha))
parse_lines-rounds (suc a) zero p (c ∷ cs) ha hb = absurd (omega (arith, hb))
parse_lines-rounds (suc a) (suc b) p [] ha hb = refl
parse_lines-rounds (suc a) (suc b) p (c ∷ cs) ha hb = elim (find_sequence_lem (c ∷ cs) crlf) [
  | inl (missing, never) ↦ rw (parse_lines, missing) refl
  | inr (line_end, found, f) ↦
      rw (parse_lines, found)
        (elim (Option-cases (take_line p (take line_end (c ∷ cs)))) [
          | inl bad ↦ rw bad refl
          | inr (q, good) ↦
              let shorter : length (drop (line_end + 2) (c ∷ cs)) ≤ length cs =
                omega (arith, length-drop (line_end + 2) (c ∷ cs), f.inside) in
              rw good (
                parse_lines-rounds a b q (drop (line_end + 2) (c ∷ cs)) (omega (arith, shorter, ha))
                  (omega (arith, shorter, hb)))
        ])
]
