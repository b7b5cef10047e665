-- ===== src/Http/Bounds.antt =====
-- parser.c: the bounds of the requests that are parsed.
use soter.Base.{
  ℕ, suc, ◌+◌, ◌≤◌, ◌<◌, ◌≡◌, inl, inr, Bool, true, false, ◌&&◌, Option, none, some, [], arith, eqb,
  ltb, leb, length, take, drop, Bool-cases, Option-cases, if◌then◌else◌, not-ltb→le, not-leb→lt,
  length-take,
}
use soter.Http.{
  Bytes, Parsed, crlf, find_sequence, find_byte, parse_headers, Request, Method, Outcome, ok, error,
  incomplete, take_body, finish_request, request_line, split_head, parse_request, is_post,
  method_of, crlf_crlf, max_head_size, max_path_size, max_body_size,
}
use soter.Http.Loop.{Fits, Kept, parse_lines-Kept}

-- A body, if there is one, has the announced length.
abbrev pub Whole : ℕ → Option Bytes → Type 0
Whole announced none = Unit
Whole announced (some body) = length body ≡ announced

-- What a parsed request promises.
pub record IsBounded (r : Request) : Type 0 where
  pub path_short : length r.path < max_path_size
  pub headers_fit : Fits (record { headers = r.headers; content_length = r.content_length })
  pub body_whole : Whole r.content_length r.body

abbrev pub Sound : Outcome Request → Type 0
Sound (ok r) = IsBounded r
Sound error = Unit
Sound incomplete = Unit

Sound-if : (c : Bool) (x y : Outcome Request) → Sound x → Sound y → Sound (if c then x else y)
Sound-if true x y hx hy = hx
Sound-if false x y hx hy = hy

take_body-Sound :
    (granted wanted : Bool) (announced : ℕ) (remaining : Bytes) (finish : Option Bytes → Request)
    → Sound (ok (finish none))
    → (announced ≤ length remaining → Sound (ok (finish (some (take announced remaining)))))
    → Sound (take_body granted wanted announced remaining finish)
unfolding take_body
take_body-Sound granted wanted announced remaining finish without full =
    elim (Bool-cases (wanted && ltb 0 announced)) [
      | inr unread ↦ rw (take_body, unread) without
      | inl there ↦ elim (Bool-cases (ltb (length remaining) announced)) [
        | inl short ↦ rw (take_body, there, short) tt
        | inr whole ↦
            rw (take_body, there, whole)
              (Sound-if (ltb max_body_size announced) error _ tt
                (Sound-if granted _ error (full (not-ltb→le _ _ whole)) tt))
      ]
    ]

finish_request-Sound :
    (granted : Bool) (method : Method) (path header_text remaining : Bytes)
    → length path < max_path_size
    → Sound (finish_request granted method path header_text remaining)
unfolding finish_request
finish_request-Sound granted method path header_text remaining short =
    let start : Parsed = record { headers = []; content_length = 0 } in
    let fits : Fits start = record { few = omega arith; short = tt; announced = omega arith } in
    let kept : Kept (parse_headers header_text) =
      parse_lines-Kept (length header_text) start header_text fits in
    elim (Option-cases (parse_headers header_text)) [
      | inl bad ↦ rw (finish_request, bad) tt
      | inr (p, good) ↦
          rw (finish_request, good)
            (take_body-Sound granted (is_post method) p.content_length remaining
              (λ body. record {
                method = method;
                path = path;
                headers = p.headers;
                content_length = p.content_length;
                body = body;
              })
              (record { path_short = short; headers_fit = rw good at kept; body_whole = tt })
              (λ whole. record {
                path_short = short;
                headers_fit = rw good at kept;
                body_whole = omega (arith, length-take p.content_length remaining, whole);
              }))
    ]

request_line-Sound :
    (granted : Bool) (line header_text remaining : Bytes)
    → Sound (request_line granted line header_text remaining)
unfolding request_line
request_line-Sound granted line header_text remaining = elim (Option-cases (find_byte 32 line)) [
  | inl none1 ↦ rw (request_line, none1) tt
  | inr (space1, found1) ↦ elim (Option-cases (find_byte 32 (drop (suc space1) line))) [
    | inl none2 ↦ rw (request_line, found1, none2) tt
    | inr (path_len, found2) ↦ elim (Bool-cases (leb max_path_size path_len)) [
      | inl long ↦ rw (request_line, found1, found2, long) tt
      | inr short ↦
          let path : Bytes = take path_len (drop (suc space1) line) in
          let few : length path < max_path_size =
            omega (arith, not-leb→lt _ _ short, length-take path_len (drop (suc space1) line)) in
          rw (request_line, found1, found2, short)
            (Sound-if granted _ error
              (finish_request-Sound granted (method_of (take space1 line)) path header_text
                remaining few)
              tt)
    ]
  ]
]

-- Whatever bytes are received: a request that is parsed has at most 20 header fields of less than 256
-- bytes for the name and for the value, a path of less than 512 bytes, an announced length of at most
-- 10 MB, and a body, if any, of just that length.
pub parse_request-Sound : (granted : Bool) (text : Bytes) → Sound (parse_request granted text)
unfolding parse_request split_head
parse_request-Sound granted text = elim (Option-cases (find_sequence text crlf_crlf)) [
  | inl headless ↦
      rw (parse_request, split_head, headless)
        (Sound-if (eqb (length text) 0) error _ tt
          (Sound-if (leb max_head_size (length text)) error incomplete tt tt))
  | inr (header_end, found) ↦ elim (Option-cases (find_sequence (take header_end text) crlf)) [
    | inl lineless ↦
        rw (parse_request, split_head, found, lineless)
          (Sound-if (eqb (length text) 0) error error tt tt)
    | inr (line_end, at_line) ↦
        rw (parse_request, split_head, found, at_line)
          (Sound-if (eqb (length text) 0) error _ tt (
            request_line-Sound granted (take line_end (take header_end text))
              (drop (line_end + 2) (take header_end text)) (drop (header_end + 4) text)))
  ]
]
