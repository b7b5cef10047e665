-- ===== src/Http/Sizes.antt =====
-- api.c: the block that is allocated for a request is the one its bytes fill.
use soter.Base.{
  ℕ, ◌+◌, ◌≤◌, ◌<◌, ◌≡◌, refl, sym, true, inl, inr, ◌⊎◌, List, [], ◌∷◌, ◌++◌, arith, ltb, length,
  length-append, le→not-ltb, lt→ltb, Bool-cases,
}
use soter.Http.{Bytes, Header}
use soter.Http.Build.{
  Outgoing, Answer, header_lines, headers_size, request_bytes, request_size, build_request, built,
  failed, overrun, length_header, str_method, version_tail, written, status_text_of, own_headers,
  response_start, response_bytes, response_head_size, build_response,
}
use soter.Http.Decimal.{decimal}

length-header_lines : (hs : List Header) → length (header_lines hs) ≡ headers_size hs
unfolding header_lines headers_size
length-header_lines [] = refl
length-header_lines (h ∷ hs) = omega (
  arith,
  length-append h.key (b':' ∷ 32 ∷ (h.value ++ (13 ∷ 10 ∷ header_lines hs))),
  length-append h.value (13 ∷ 10 ∷ header_lines hs),
  length-header_lines hs,
)

length-request_bytes : (r : Outgoing) → length (request_bytes r) ≡ request_size r
unfolding request_bytes request_size headers_size
length-request_bytes r =
    let lines : Bytes = header_lines (length_header (length r.body) ∷ r.headers) in
    let tail : Bytes = version_tail ++ (13 ∷ 10 ∷ (lines ++ (13 ∷ 10 ∷ r.body))) in
    omega (
      arith,
      length-append (str_method r.method) (32 ∷ (r.path ++ tail)),
      length-append r.path tail,
      length-append lines (13 ∷ 10 ∷ r.body),
      length-header_lines (length_header (length r.body) ∷ r.headers),
    )

-- When there is memory, a request is built, and the announced number of bytes is the number of them.
pub build_request_lem :
    (r : Outgoing) → build_request true r ≡ built (request_bytes r) (length (request_bytes r))
unfolding build_request
build_request_lem r =
    rw
      (
        build_request,
        sym (length-request_bytes r),
        le→not-ltb (length (request_bytes r) + 1) (length (request_bytes r)) (omega arith),
      )
      refl

length-response_start :
    (r : Answer)
    → length (response_start r) + 3 + headers_size r.headers + 2
      ≡ response_head_size r + length (decimal r.status_code)
unfolding response_start response_head_size headers_size
length-response_start r =
    let lines : Bytes = header_lines (own_headers r) in
    let text : Bytes = status_text_of r.status_text in
    omega (
      arith,
      length-append (decimal r.status_code) (32 ∷ (text ++ (13 ∷ 10 ∷ lines))),
      length-append text (13 ∷ 10 ∷ lines),
      length-header_lines (own_headers r),
    )

length-response_bytes :
    (r : Answer)
    → length (response_bytes r) + 3
      ≡ response_head_size r + length r.body + length (decimal r.status_code)
unfolding response_bytes
length-response_bytes r = omega (
  arith,
  length-append (response_start r) (header_lines r.headers ++ (13 ∷ 10 ∷ r.body)),
  length-append (header_lines r.headers) (13 ∷ 10 ∷ r.body),
  length-header_lines r.headers,
  length-response_start r,
)

written-exact :
    (bytes : Bytes) (total : ℕ)
    → total ≡ length bytes
    → written bytes total ≡ built bytes (length bytes)
written-exact bytes total e =
    rw (e, le→not-ltb (length bytes + 1) (length bytes) (omega arith)) refl

written-overrun :
    (bytes : Bytes) (total : ℕ) → total + 1 < length bytes → written bytes total ≡ overrun
written-overrun bytes total h = rw (lt→ltb (total + 1) (length bytes) h) refl

-- When there is memory, a response whose status code has three digits is built, and the announced
-- number of bytes is the number of them.
pub build_response_lem :
    (r : Answer)
    → length (decimal r.status_code) ≡ 3
    → build_response true r ≡ built (response_bytes r) (length (response_bytes r))
unfolding build_response
build_response_lem r three =
    let fits : length (response_start r) ≤ response_head_size r =
      omega (arith, length-response_start r, three) in
    rw (build_response, le→not-ltb (response_head_size r) (length (response_start r)) fits)
      (written-exact (response_bytes r) _ (omega (arith, length-response_bytes r, three)))

-- With a status code of more than four digits, a response is refused or written past its block.
pub build_response-long :
    (r : Answer)
    → 4 < length (decimal r.status_code)
    → (build_response true r ≡ failed) ⊎ (build_response true r ≡ overrun)
unfolding build_response
build_response-long r long =
    elim (Bool-cases (ltb (response_head_size r) (length (response_start r)))) [
      | inl refused ↦ inl (rw (build_response, refused) refl)
      | inr taken ↦ inr (
          rw (build_response, taken)
            (written-overrun (response_bytes r) _ (omega (arith, length-response_bytes r, long))))
    ]
