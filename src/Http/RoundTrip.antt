-- ===== src/Http/RoundTrip.antt =====
-- parser.c on what api.c builds.
use soter.Base.{
  ◌≤◌, ◌≡◌, refl, ap, ◌∙◌, inl, inr, Bool, true, false, ◌&&◌, Option, none, some, List, [], ◌∷◌,
  ◌++◌, arith, ltb, length, map, All, Bool-cases, if◌then◌else◌, le→not-ltb, take-length, init_of,
}
use soter.Http.{
  Bytes, Header, Method, ok, request_line, finish_request, parse_request, take_body, is_post,
  max_headers, max_body_size,
}
use soter.Http.Search.{joined}
use soter.Http.Fields.{rendered, IsOther, length_header-IsField}
use soter.Http.Build.{Outgoing, request_bytes, length_header}
use soter.Http.Split.{cut, split_head-joined}
use soter.Http.Line.{line_of, request_bytes-joined, request_line-line_of, IsPlain, line_of-IsLine}
use soter.Http.Cut.{parse_headers-cut, rendered-IsLine, lines-IsLine, parse_headers-bare}

-- The body that a request is read with, when its length is announced.
abbrev pub body_read : Method → Bytes → Option Bytes
body_read m body = if is_post m && ltb 0 (length body) then some body else none

take_body-all {ℓ} :
    {A : Type ℓ} (wanted : Bool) (body : Bytes) (finish : Option Bytes → A)
    → length body ≤ max_body_size
    → take_body true wanted (length body) body finish
      ≡ ok (finish (if wanted && ltb 0 (length body) then some body else none))
unfolding take_body
take_body-all wanted body finish fits = elim (Bool-cases (wanted && ltb 0 (length body))) [
  | inr unread ↦ rw (take_body, unread) refl
  | inl there ↦
      rw
        (
          take_body,
          there,
          le→not-ltb (length body) (length body) (omega arith),
          le→not-ltb max_body_size (length body) fits,
        )
        (ap (λ t. ok (finish (some t))) (take-length body))
]

-- Parsing what was built comes down to the lines behind the request line, of which the last has lost
-- its CRLF.
parse_request-lines :
    (r : Outgoing) (hs : List Header)
    → IsPlain r
    → r.headers ≡ hs
    → All IsOther hs
    → parse_request true (request_bytes r)
      ≡ finish_request true r.method r.path
          (cut (rendered (length_header (length r.body))) (map rendered hs))
          r.body
unfolding parse_request
parse_request-lines r hs p e others =
    let n : Header = length_header (length r.body) in
    ap (parse_request true) (
      request_bytes-joined r
      ∙ ap (λ t. joined (line_of r ∷ map rendered (n ∷ t)) ++ (13 ∷ 10 ∷ r.body)) e)
    ∙ split_head-joined (request_line true) (line_of r) (rendered n) (map rendered hs) r.body
        (line_of-IsLine r p) (rendered-IsLine n (length_header-IsField _), lines-IsLine hs others)
    ∙ request_line-line_of r _ r.body p.path_space p.path_short

-- A request with header fields of its own is read back with its method and its path.  In front of its
-- fields stands the one of the length that the builder adds, and the last of its fields is lost.  Its
-- body is read back where it is a POST request, else there is none.
pub parse_request-request_bytes :
    (r : Outgoing) (h : Header) (hs : List Header)
    → IsPlain r
    → r.headers ≡ h ∷ hs
    → All IsOther (h ∷ hs)
    → length (h ∷ hs) ≤ max_headers
    → parse_request true (request_bytes r)
      ≡ ok (record {
        method = r.method;
        path = r.path;
        headers = length_header (length r.body) ∷ init_of h hs;
        content_length = length r.body;
        body = body_read r.method r.body;
      })
unfolding finish_request
parse_request-request_bytes r h hs p e others few =
    parse_request-lines r (h ∷ hs) p e others
    ∙ rw (finish_request, parse_headers-cut (length r.body) h hs p.body_short others few)
        (take_body-all (is_post r.method) r.body
          (λ body. record {
            method = r.method;
            path = r.path;
            headers = length_header (length r.body) ∷ init_of h hs;
            content_length = length r.body;
            body = body;
          })
          p.body_short)

and_false : (b : Bool) → (b && false) ≡ false
and_false true = refl
and_false false = refl

-- A request without header fields of its own is read back without its body and without the length
-- of it.
pub parse_request-bare :
    (r : Outgoing)
    → IsPlain r
    → r.headers ≡ []
    → parse_request true (request_bytes r)
      ≡ ok (record {
        method = r.method;
        path = r.path;
        headers = [];
        content_length = 0;
        body = none;
      })
unfolding finish_request take_body
parse_request-bare r p e =
    parse_request-lines r [] p e tt
    ∙ rw (finish_request, parse_headers-bare (length r.body), and_false (is_post r.method)) refl
