-- ===== src/Natpunch/Answers.antt =====
-- stun.c: answers of a STUN server, and what is made of them.
use soter.Base.{
  ℕ, suc, ◌+◌, ◌-◌, ◌*◌, ◌≤◌, ◌≡◌, refl, sym, ap, ◌∙◌, true, false, List, [], ◌∷◌, ◌++◌, arith, ltb,
  eqb, length, take, drop, replicate, length-append, length-take, take_all, append_assoc, All,
  Bool-cases, inl, inr, le→not-ltb, not-ltb→le, length-replicate,
}
use soter.Natpunch.{
  be_from, scan, filled, lesser, parse, parse_in, buffer_size, header_size, binding_response,
  magic_cookie,
}
use soter.Natpunch.Attributes.{
  Other, IsOther, bytes_of, all_bytes, is_unfinished, scan-ends, scan-others,
}

lesser_le : (a b : ℕ) → lesser a b ≤ b
lesser_le a b = elim (Bool-cases (ltb b a)) [
  | inl e ↦ rw (e) (omega arith)
  | inr e ↦ rw (e) (not-ltb→le b a e)
]

lesser_self : (a : ℕ) → lesser a a ≡ a
lesser_self a = rw (le→not-ltb a a (omega arith)) refl

parse_in-ends : (buf : List ℕ) (r : ℕ) → r ≤ 1024 → is_unfinished (parse_in buf r) ≡ false
unfolding parse_in
parse_in-ends buf r h =
    let announced : ℕ = header_size + be_from 0 (take 2 (drop 2 buf)) in
    let ends : is_unfinished (scan 257 buf header_size (lesser announced r)) ≡ false =
      scan-ends 256 buf header_size (lesser announced r)
        (omega (arith, lesser_le announced r, h)) in
    elim (Bool-cases (ltb r header_size)) [
      | inl e ↦ rw (parse_in, e) refl
      | inr e ↦ elim (Bool-cases (eqb (be_from 0 (take 2 buf)) binding_response)) [
        | inr f ↦ rw (parse_in, e, f) refl
        | inl f ↦ elim (Bool-cases (eqb (be_from 0 (take 4 (drop 4 buf))) magic_cookie)) [
          | inr g ↦ rw (parse_in, e, f, g) refl
          | inl g ↦ rw (parse_in, e, f, g) ends
        ]
      ]
    ]

-- Whatever the server sends, the loop over the attributes ends within its 257 rounds.
pub parse-ends : (received : List ℕ) → is_unfinished (parse received) ≡ false
unfolding parse
parse-ends received =
    parse_in-ends (filled received) (length (take buffer_size received))
      (omega (arith, length-take buffer_size received))

-- An answer: a header that announces so many bytes, other attributes, and what follows them.
abbrev pub answer : ℕ → ℕ → List ℕ → List Other → List ℕ → List ℕ
answer len_high len_low id others rest =
    1 ∷ 1 ∷ len_high ∷ len_low ∷ 0x21 ∷ 0x12 ∷ 0xA4 ∷ 0x42 ∷ (id ++ (all_bytes others ++ rest))

few : (others : List Other) → length others * 4 ≤ length (all_bytes others)
few [] = omega arith
few (a ∷ more) = omega (arith, few more, length-append (bytes_of a) (all_bytes more))

parse_in-whole :
    (whole : List ℕ) (r : ℕ)
    → header_size ≤ r
    → eqb (be_from 0 (take 2 whole)) binding_response ≡ true
    → eqb (be_from 0 (take 4 (drop 4 whole))) magic_cookie ≡ true
    → header_size + be_from 0 (take 2 (drop 2 whole)) ≡ r
    → parse_in whole r ≡ scan 257 whole header_size r
unfolding parse_in
parse_in-whole whole r long type cookie size =
    rw (parse_in, le→not-ltb r header_size long, type, cookie)
      (ap (scan 257 whole header_size) (ap (λ n. lesser n r) size ∙ lesser_self r))

-- Bytes that fit are read as they came, with zeros behind them.
parse-filled :
    (received : List ℕ)
    → length received ≤ buffer_size
    → parse received
      ≡ parse_in (received ++ replicate (buffer_size - length received) 0) (length received)
unfolding parse filled
parse-filled received short =
    ap (λ got. parse_in (got ++ replicate (buffer_size - length got) 0) (length got))
      (take_all buffer_size received short)

-- Once the header is read, the other attributes are stepped over.
pub reach :
    (len_high len_low : ℕ) (id : List ℕ) (others : List Other) (rest : List ℕ)
    → length id ≡ 12
    → All IsOther others
    → be_from 0 (len_high ∷ len_low ∷ []) ≡ length (all_bytes others) + length rest
    → header_size + (length (all_bytes others) + length rest) ≤ buffer_size
    → (n : ℕ) × (before : List ℕ) × (zeros : List ℕ) × (length before
        ≡ header_size + length (all_bytes others))
      × (length before + length (rest ++ zeros) ≡ buffer_size)
      × (parse (answer len_high len_low id others rest)
          ≡ scan (suc n) (before ++ (rest ++ zeros)) (length before) (length before + length rest))
unfolding be_from
reach len_high len_low id others rest twelve are announced fits =
    let received : List ℕ = answer len_high len_low id others rest in
    let zeros : List ℕ = replicate (buffer_size - length received) 0 in
    let head : List ℕ = 1 ∷ 1 ∷ len_high ∷ len_low ∷ 0x21 ∷ 0x12 ∷ 0xA4 ∷ 0x42 ∷ id in
    let before : List ℕ = head ++ all_bytes others in
    let place : length before ≡ header_size + length (all_bytes others) =
      omega (arith, twelve, length-append id (all_bytes others)) in
    let size : length received ≡ length before + length rest = omega (
      arith,
      place,
      twelve,
      length-append id (all_bytes others ++ rest),
      length-append (all_bytes others) rest,
    ) in
    let twenty : header_size ≡ length head = omega (arith, twelve) in
    let n : ℕ = 256 - length others in
    let rounds : 257 ≡ length others + suc n = omega (arith, few others, fits) in
    let behind : List ℕ = rest ++ zeros in
    let buffer : received ++ zeros ≡ head ++ (all_bytes others ++ behind) =
      ap (λ t. 1 ∷ 1 ∷ len_high ∷ len_low ∷ 0x21 ∷ 0x12 ∷ 0xA4 ∷ 0x42 ∷ t)
        (append_assoc id (all_bytes others ++ rest) zeros
          ∙ ap (λ t. id ++ t) (append_assoc (all_bytes others) rest zeros)) in
    (
      n,
      before,
      zeros,
      place,
      omega (
        arith,
        size,
        place,
        fits,
        length-append rest zeros,
        length-replicate {A = ℕ} (buffer_size - length received) 0,
      ),
      parse-filled received (omega (arith, size, place, fits))
          ∙ parse_in-whole (received ++ zeros) (length received) (omega (arith, size, place)) refl
              refl (omega (arith, announced, size, place))
          ∙ (λ i. scan (rounds i) (buffer i) (twenty i) (size i))
          ∙ scan-others (suc n) head behind others (length before + length rest) are
              (omega (arith, twelve))
          ∙ (λ i.
              scan (suc n) (sym (append_assoc head (all_bytes others) behind) i)
                (sym (length-append head (all_bytes others)) i) (length before + length rest)),
    )
