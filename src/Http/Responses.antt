-- ===== src/Http/Responses.antt =====
-- parser.c: responses out of received bytes.  `atoi` is the C library's, a parameter.
use soter.Base.{
  ℕ, suc, Bool, true, not, Option, none, some, List, ltb, leb, if◌then◌else◌, length, take, drop,
}
use soter.Http.{
  Bytes, Header, ContentType, octet_stream, Outcome, error, find_byte, parse_headers, take_body,
  split_head,
}

pub record Response : Type 0 where
  pub status_code : ℕ
  pub status_text : Option Bytes
  pub headers : List Header
  pub body : Option Bytes
  pub content_type : ContentType

-- `code_buf` has room for seven characters and a 0.
pub status_line : Bool → (Bytes → ℕ) → Bytes → Bytes → Bytes → Outcome Response
unfolding find_byte parse_headers take_body
status_line granted atoi line header_text remaining = elim (find_byte 32 line) [
  | none ↦ error
  | some space1 ↦
      let status_start = drop (suc space1) line in
      elim (find_byte 32 status_start) [
        | none ↦ error
        | some code_len ↦
            if leb 8 code_len
            then error
            else if not granted
            then error
            else let text = drop (suc code_len) status_start in
              elim (parse_headers header_text) [
                | none ↦ error
                | some p ↦ take_body granted true p.content_length remaining λ body. record {
                  status_code = atoi (take code_len status_start);
                  status_text = if ltb 0 (length text) then some text else none;
                  headers = p.headers;
                  body = body;
                  content_type = octet_stream;
                }
              ]
      ]
]

pub parse_response : Bool → (Bytes → ℕ) → Bytes → Outcome Response
unfolding split_head status_line
parse_response granted atoi text = split_head text (status_line granted atoi)
