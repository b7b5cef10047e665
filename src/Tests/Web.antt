-- ===== src/Tests/Web.antt =====
-- The HTTP parser on short texts.
use soter.Base.{ℕ, ◌-◌, ◌≡◌, refl, ap, true, none, some, [], ◌∷◌, arith, length, init_of}
use soter.Http.{
  Bytes, Header, Parsed, post, ok, parse_lines, parse_request, octet_stream, skip_blanks,
  same_letters, lower,
}
use soter.Http.Loop.{parse_lines-rounds}
use soter.Http.Bounds.{Sound, parse_request-Sound}
use soter.Http.Build.{Outgoing, Answer, request_bytes, length_header}
use soter.Http.Fields.{IsOther}
use soter.Http.Line.{IsPlain}
use soter.Http.RoundTrip.{body_read, parse_request-request_bytes}
use soter.Http.Query.{get_query_param, found, decode}
use soter.Http.Query.Lookup.{query_text, get_query_param-query_text}

-- "A: b" and "C: d"
abbrev pub first : Header
first = record { key = b'A' ∷ []; value = b'b' ∷ [] }

abbrev pub second : Header
second = record { key = b'C' ∷ []; value = b'd' ∷ [] }

abbrev pub posted : Outgoing
posted = record {
  method = post;
  path = b'/' ∷ b'x' ∷ [];
  headers = first ∷ second ∷ [];
  body = b'h' ∷ b'i' ∷ [];
}

pub posted-IsPlain : IsPlain posted
posted-IsPlain = record {
  path_space = (refl, (refl, tt));
  path_line = (refl, (refl, tt));
  path_short = omega arith;
  body_short = omega arith;
}

pub first-IsOther : IsOther first
unfolding skip_blanks same_letters lower
first-IsOther = (
  record {
    key_colon = (refl, tt);
    key_line = (refl, tt);
    value_line = (refl, tt);
    value_start = refl;
    key_short = omega arith;
    value_short = omega arith;
  },
  refl,
)

pub second-IsOther : IsOther second
unfolding skip_blanks same_letters lower
second-IsOther = (
  record {
    key_colon = (refl, tt);
    key_line = (refl, tt);
    value_line = (refl, tt);
    value_start = refl;
    key_short = omega arith;
    value_short = omega arith;
  },
  refl,
)

parse_request-request_bytes_example :
    parse_request true (request_bytes posted)
    ≡ ok (record {
      method = posted.method;
      path = posted.path;
      headers = length_header (length posted.body) ∷ init_of first (second ∷ []);
      content_length = length posted.body;
      body = body_read posted.method posted.body;
    })
parse_request-request_bytes_example =
    parse_request-request_bytes posted first (second ∷ []) posted-IsPlain refl
      (first-IsOther, (second-IsOther, tt)) (omega arith)

parse_request-Sound_example : Sound (parse_request true (request_bytes posted))
parse_request-Sound_example = parse_request-Sound true (request_bytes posted)

-- "A:b\r\n"
abbrev line : Bytes
line = b'A' ∷ b':' ∷ b'b' ∷ 13 ∷ 10 ∷ []

abbrev start : Parsed
start = record { headers = []; content_length = 0 }

parse_lines-rounds_example : parse_lines 5 start line ≡ parse_lines 9 start line
parse_lines-rounds_example = parse_lines-rounds 5 9 start line (omega arith) (omega arith)

-- A response with a status code of five digits.
abbrev odd_answer : Answer
odd_answer = record {
  status_code = 12345;
  status_text = none;
  headers = [];
  body = [];
  content_type = octet_stream;
}

abbrev just_a : Bytes
just_a = b'a' ∷ []

abbrev just_b : Bytes
just_b = b'b' ∷ []

head_of : Bytes → ℕ
head_of [] = 0
head_of (c ∷ cs) = c

b-not-a : ¬ (just_b ≡ just_a)
unfolding head_of
b-not-a e = omega (arith, ap head_of e)

-- "?a=1&b=2"
get_query_param-query_text_example :
    get_query_param true
      (some (b'?' ∷ query_text ((b'a' ∷ [], b'1' ∷ []) ∷ ((b'b' ∷ [], b'2' ∷ []) ∷ []))))
      (b'b' ∷ [])
      8
    ≡ found (decode (8 - 1) (b'2' ∷ []))
get_query_param-query_text_example =
    get_query_param-query_text b'b' [] (b'2' ∷ []) ((b'a' ∷ [], b'1' ∷ []) ∷ []) [] 8
      (((((refl, tt), (refl, tt), (refl, tt)), b-not-a)), tt) ((refl, tt), (refl, tt), (refl, tt))
      (omega arith)
