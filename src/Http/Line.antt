-- ===== src/Http/Line.antt =====
-- The request line and the fields as api.c puts them together, and how parser.c reads that line.
use soter.Base.{
  suc, ◌≤◌, ◌<◌, ◌≡◌, refl, sym, ap, ap₂, ◌∙◌, true, none, some, List, [], ◌∷◌, ◌++◌, arith, leb,
  length, take, map, All-append, if◌then◌else◌, length-append, append_assoc, take-length-append,
  drop-append, lt→not-leb,
}
use soter.Http.{
  Bytes, Header, Method, get_method, post, unknown, method_of, Request, Outcome, error,
  request_line, finish_request, find_byte, max_path_size, max_body_size,
}
use soter.Http.Search.{Free, joined, IsLine, find_byte-append}
use soter.Http.Fields.{rendered}
use soter.Http.Build.{
  Outgoing, header_lines, request_bytes, length_header, str_method, version_tail,
}

-- The request line, without its CRLF.
abbrev pub line_of : Outgoing → Bytes
line_of r = str_method r.method ++ (32 ∷ (r.path ++ version_tail))

header_lines-joined : (hs : List Header) → header_lines hs ≡ joined (map rendered hs)
unfolding header_lines
header_lines-joined [] = refl
header_lines-joined (h ∷ hs) =
    rw (append_assoc h.key (b':' ∷ 32 ∷ h.value) (13 ∷ 10 ∷ joined (map rendered hs)))
      (ap (λ t. h.key ++ (b':' ∷ 32 ∷ (h.value ++ (13 ∷ 10 ∷ t)))) (header_lines-joined hs))

-- All the header lines of a request.
abbrev pub all_headers : Outgoing → List Header
all_headers r = length_header (length r.body) ∷ r.headers

pub request_bytes-joined :
    (r : Outgoing)
    → request_bytes r ≡ joined (line_of r ∷ map rendered (all_headers r)) ++ (13 ∷ 10 ∷ r.body)
unfolding request_bytes
request_bytes-joined r =
    let m : Bytes = str_method r.method in
    let heads : Bytes = joined (map rendered (all_headers r)) in
    let ending : Bytes = 13 ∷ 10 ∷ r.body in
    let tail : Bytes = 13 ∷ 10 ∷ (heads ++ ending) in
    ap (λ t. m ++ (32 ∷ (r.path ++ (version_tail ++ (13 ∷ 10 ∷ (t ++ ending))))))
      (header_lines-joined (all_headers r))
    ∙ ap (λ t. m ++ (32 ∷ t)) (sym (append_assoc r.path version_tail tail))
    ∙ sym (append_assoc m (32 ∷ (r.path ++ version_tail)) tail)
    ∙ sym (append_assoc (line_of r) (13 ∷ 10 ∷ heads) ending)

str_method-Free : (m : Method) → Free 32 (str_method m) × Free 13 (str_method m)
unfolding str_method
str_method-Free get_method = ((refl, (refl, (refl, tt))), (refl, (refl, (refl, tt))))
str_method-Free post = ((refl, (refl, (refl, (refl, tt)))), (refl, (refl, (refl, (refl, tt)))))
str_method-Free unknown = (
  (refl, (refl, (refl, (refl, (refl, (refl, (refl, tt))))))),
  (refl, (refl, (refl, (refl, (refl, (refl, (refl, tt))))))),
)

method_of-str_method : (m : Method) → method_of (str_method m) ≡ m
unfolding method_of str_method
method_of-str_method get_method = refl
method_of-str_method post = refl
method_of-str_method unknown = refl

-- What `request_line` does behind the method.
abbrev behind_method : Bytes → Bytes → Bytes → Bytes → Outcome Request
behind_method header_text remaining m path_start =
    elim (find_byte 32 path_start) as (λ _. Outcome Request) [
      | none ↦ error
      | some path_len ↦
          if leb max_path_size path_len
          then error
          else finish_request true (method_of m) (take path_len path_start) header_text remaining
    ]

behind_method-path :
    (header_text remaining m path tail : Bytes)
    → Free 32 path
    → length path < max_path_size
    → behind_method header_text remaining m (path ++ (32 ∷ tail))
      ≡ finish_request true (method_of m) path header_text remaining
behind_method-path header_text remaining m path tail h short =
    rw
      (behind_method, find_byte-append 32 path tail h, lt→not-leb max_path_size (length path) short)
      (ap (λ t. finish_request true (method_of m) t header_text remaining)
        (take-length-append path (32 ∷ tail) (length path) refl))

-- The request line is read back.
pub request_line-line_of :
    (r : Outgoing) (header_text remaining : Bytes)
    → Free 32 r.path
    → length r.path < max_path_size
    → request_line true (line_of r) header_text remaining
      ≡ finish_request true r.method r.path header_text remaining
unfolding request_line
request_line-line_of r header_text remaining h short =
    let m : Bytes = str_method r.method in
    let rest : Bytes = r.path ++ version_tail in
    rw (request_line, find_byte-append 32 m rest (str_method-Free r.method).0)
      (ap₂ (behind_method header_text remaining) (take-length-append m (32 ∷ rest) (length m) refl)
          (drop-append m (32 ∷ rest) (suc (length m)) 1 (omega arith))
        ∙ behind_method-path header_text remaining m r.path _ h short
        ∙ ap (λ x. finish_request true x r.path header_text remaining)
            (method_of-str_method r.method))

-- A request that can be put on one line.
pub record IsPlain (r : Outgoing) : Type 0 where
  pub path_space : Free 32 r.path
  pub path_line : Free 13 r.path
  pub path_short : length r.path < max_path_size
  pub body_short : length r.body ≤ max_body_size

pub line_of-IsLine : (r : Outgoing) → IsPlain r → IsLine (line_of r)
line_of-IsLine r h = (
  omega (arith, length-append (str_method r.method) (32 ∷ (r.path ++ version_tail))),
  All-append _ (str_method r.method) _ (str_method-Free r.method).1 (
    refl,
    All-append _ r.path version_tail h.path_line
        (refl, (refl, (refl, (refl, (refl, (refl, (refl, (refl, (refl, tt))))))))),
  ),
)
