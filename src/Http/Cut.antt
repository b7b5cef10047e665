-- ===== src/Http/Cut.antt =====
-- parser.c: the header lines of a head whose last line has lost its CRLF.
use soter.Base.{
  ℕ, suc, ◌≤◌, ◌≡◌, refl, ap, ◌∙◌, some, List, [], ◌∷◌, ◌++◌, arith, length, map, All,
  length-append, last_of, init_of,
}
use soter.Http.{Bytes, Header, Parsed, parse_headers, take_line, max_headers, max_body_size}
use soter.Http.Search.{Free, joined, IsLine}
use soter.Http.Headers.{run_lines, parse_lines-joined}
use soter.Http.Fields.{
  rendered, rendered-Free, IsField, IsOther, run_lines-others, length_header-IsField,
  length_header-stored,
}
use soter.Http.Build.{length_header}
use soter.Http.Split.{cut, cut-init_of}

-- What is left of the fields once the last one is dropped.
others_init_of :
    (h : Header) (hs : List Header)
    → All IsOther (h ∷ hs)
    → All IsOther (init_of h hs) × (length (init_of h hs) ≡ length hs)
others_init_of h [] f = (tt, refl)
others_init_of h (x ∷ hs) (f, fs) =
    let (rest, len) = others_init_of x hs fs in ((f, rest), ap suc len)

init_of-map :
    (h : Header) (hs : List Header)
    → init_of (rendered h) (map rendered hs) ≡ map rendered (init_of h hs)
init_of-map h [] = refl
init_of-map h (x ∷ hs) = ap (λ t. rendered h ∷ t) (init_of-map x hs)

lines-Free : (hs : List Header) → All IsOther hs → All (Free 13) (map rendered hs)
lines-Free [] f = tt
lines-Free (h ∷ hs) ((f, other), fs) = (rendered-Free h f, lines-Free hs fs)

last_of-Free :
    (h : Header) (hs : List Header)
    → All IsOther (h ∷ hs)
    → Free 13 (last_of (rendered h) (map rendered hs))
last_of-Free h [] ((f, other), fs) = rendered-Free h f
last_of-Free h (x ∷ hs) (f, fs) = last_of-Free x hs fs

-- The fields behind the announced length are stored but the last one.
pub parse_headers-cut :
    (n : ℕ) (h : Header) (hs : List Header)
    → n ≤ max_body_size
    → All IsOther (h ∷ hs)
    → length (h ∷ hs) ≤ max_headers
    → parse_headers (cut (rendered (length_header n)) (map rendered (h ∷ hs)))
      ≡ some (record { headers = length_header n ∷ init_of h hs; content_length = n })
unfolding parse_headers run_lines
parse_headers-cut n h hs fits others few =
    let start : Parsed = record { headers = []; content_length = 0 } in
    let first : Bytes = rendered (length_header n) in
    let stored : Parsed = record { headers = length_header n ∷ []; content_length = n } in
    let (kept, len) = others_init_of h hs others in
    let taken : take_line start first ≡ some stored =
      length_header-stored start n (omega arith) fits in
    ap parse_headers (cut-init_of first (map rendered (h ∷ hs)))
    ∙ ap
        (λ t.
          parse_headers ((first ++ (13 ∷ 10 ∷ joined t)) ++ last_of (rendered h) (map rendered hs)))
        (init_of-map h hs)
    ∙ parse_lines-joined _ start (first ∷ map rendered (init_of h hs))
        (last_of (rendered h) (map rendered hs))
        (rendered-Free _ (length_header-IsField n), lines-Free (init_of h hs) kept)
        (last_of-Free h hs others) (omega arith)
    ∙ rw (run_lines, taken) (run_lines-others stored (init_of h hs) kept (omega (arith, len, few)))

pub rendered-IsLine : (h : Header) → IsField h → IsLine (rendered h)
rendered-IsLine h f = (omega (arith, length-append h.key (b':' ∷ 32 ∷ h.value)), rendered-Free h f)

pub lines-IsLine : (hs : List Header) → All IsOther hs → All IsLine (map rendered hs)
lines-IsLine [] f = tt
lines-IsLine (h ∷ hs) ((f, other), fs) = (rendered-IsLine h f, lines-IsLine hs fs)

pub parse_headers-bare :
    (n : ℕ)
    → parse_headers (rendered (length_header n))
      ≡ some (record { headers = []; content_length = 0 })
unfolding parse_headers run_lines
parse_headers-bare n =
    let text : Bytes = rendered (length_header n) in
    parse_lines-joined (length text) _ [] text tt (rendered-Free _ (length_header-IsField n))
      (omega arith)
