-- ===== src/Http/Build.antt =====
-- code/devcore/uhttp/src/api.c: requests and responses made by the program, and their bytes.  A body
-- stands behind its pointer whenever its length is above 0, and texts hold no 0 inside.
use soter.Base.{
  ℕ, ◌+◌, Bool, true, false, not, ◌&&◌, ◌||◌, Option, none, some, List, [], ◌∷◌, ◌++◌, ltb, eqb,
  if◌then◌else◌, length, take, size_max,
}
use soter.Http.{
  ContentType, text_plain, octet_stream, application_json, Bytes, Header, Method, get_method, post,
  unknown, content_length_key,
}
use soter.Http.Decimal.{decimal}

-- `strcmp(a, b) == 0`
pub same_text : Bytes → Bytes → Bool
same_text [] [] = true
same_text [] (b ∷ bs) = false
same_text (a ∷ as') [] = false
same_text (a ∷ as') (b ∷ bs) = eqb a b && same_text as' bs

-- "text/plain", "application/json" and "application/octet-stream"
unfoldable pub str_content_type : ContentType → Bytes
str_content_type text_plain =
    b't' ∷ b'e' ∷ b'x' ∷ b't' ∷ b'/' ∷ b'p' ∷ b'l' ∷ b'a' ∷ b'i' ∷ b'n' ∷ []
str_content_type application_json =
    b'a' ∷ b'p' ∷ b'p' ∷ b'l' ∷ b'i' ∷ b'c' ∷ b'a' ∷ b't' ∷ b'i' ∷ b'o' ∷ b'n' ∷ b'/' ∷ b'j' ∷ b's'
    ∷ b'o' ∷ b'n' ∷ []
str_content_type _ =
    b'a' ∷ b'p' ∷ b'p' ∷ b'l' ∷ b'i' ∷ b'c' ∷ b'a' ∷ b't' ∷ b'i' ∷ b'o' ∷ b'n' ∷ b'/' ∷ b'o' ∷ b'c'
    ∷ b't' ∷ b'e' ∷ b't' ∷ b'-' ∷ b's' ∷ b't' ∷ b'r' ∷ b'e' ∷ b'a' ∷ b'm' ∷ []

-- The first match of `strcmp`.
pub content_type_from_str : Bytes → ContentType
unfolding same_text str_content_type
content_type_from_str str =
    if same_text str (str_content_type octet_stream)
    then octet_stream
    else if same_text str (str_content_type application_json)
    then application_json
    else if same_text str (str_content_type text_plain)
    then text_plain
    else octet_stream

-- "GET", "POST" and "UNKNOWN"
unfoldable pub str_method : Method → Bytes
str_method get_method = b'G' ∷ b'E' ∷ b'T' ∷ []
str_method post = b'P' ∷ b'O' ∷ b'S' ∷ b'T' ∷ []
str_method unknown = b'U' ∷ b'N' ∷ b'K' ∷ b'N' ∷ b'O' ∷ b'W' ∷ b'N' ∷ []

-- `uhttp_request` as `uhttp_create_request` and `uhttp_request_sheaders` fill it.
pub record Outgoing : Type 0 where
  pub method : Method
  pub path : Bytes
  pub headers : List Header
  pub body : Bytes

-- `none` is -1; without a path there is no request.
pub create_request : Bool → Method → Option Bytes → Bytes → Option Outgoing
create_request granted method none body = none
create_request granted method (some path) body =
    if ltb 0 (length body) && not granted
    then none
    else some (record { method = method; path = path; headers = []; body = body })

-- Whatever headers were there are freed; `none` is the null pointer.
pub request_sheaders : Outgoing → Option (List Header) → Outgoing
request_sheaders r none = record r { headers = [] }
request_sheaders r (some headers) = record r { headers = headers }

-- "%s: %s\r\n" for each header
unfoldable pub header_lines : List Header → Bytes
header_lines [] = []
header_lines (h ∷ hs) = h.key ++ (b':' ∷ 32 ∷ (h.value ++ (13 ∷ 10 ∷ header_lines hs)))

-- " HTTP/1.1"
abbrev pub version_tail : Bytes
version_tail = 32 ∷ b'H' ∷ b'T' ∷ b'T' ∷ b'P' ∷ b'/' ∷ b'1' ∷ b'.' ∷ b'1' ∷ []

abbrev pub length_header : ℕ → Header
length_header n = record { key = content_length_key; value = decimal n }

-- What is written, one `snprintf` after another.
unfoldable pub request_bytes : Outgoing → Bytes
unfolding header_lines
request_bytes r =
    str_method r.method
    ++ (32
        ∷ (r.path
            ++ (version_tail
                ++ (13
                    ∷ 10
                    ∷ (header_lines (length_header (length r.body) ∷ r.headers)
                        ++ (13 ∷ 10 ∷ r.body))))))

-- The lengths that are added up for the headers.
unfoldable pub headers_size : List Header → ℕ
headers_size [] = 0
headers_size (h ∷ hs) = length h.key + 2 + length h.value + 2 + headers_size hs

-- `total_sz`
unfoldable pub request_size : Outgoing → ℕ
unfolding headers_size
request_size r =
    length (str_method r.method)
    + 1
    + length r.path
    + 11
    + (16 + length (decimal (length r.body)) + 2)
    + headers_size r.headers
    + 2
    + length r.body

-- The bytes and their announced number, or a write past the block, which has one byte more.
pub data Built : Type 0 where
  built : Bytes → ℕ → Built
  failed : Built
  overrun : Built

abbrev pub written : Bytes → ℕ → Built
written bytes total = if ltb (total + 1) (length bytes) then overrun else built bytes total

unfoldable pub build_request : Bool → Outgoing → Built
unfolding request_bytes request_size
build_request granted r = if granted then written (request_bytes r) (request_size r) else failed

-- `uhttp_response` as `uhttp_create_response` and `uhttp_response_sheaders` fill it.
pub record Answer : Type 0 where
  pub status_code : ℕ
  pub status_text : Option Bytes
  pub headers : List Header
  pub body : Bytes
  pub content_type : ContentType

-- A length of `SIZE_MAX` stands for that of the text behind the pointer, `memory` up to its end.
pub create_response : Bool → ℕ → Option Bytes → Bytes → ℕ → ContentType → Option Answer
create_response granted status_code status_text memory body_len content_type =
    if ltb 0 body_len && not granted
    then none
    else some (record {
      status_code = status_code;
      status_text = status_text;
      headers = [];
      body = if eqb body_len size_max then memory else take body_len memory;
      content_type = content_type;
    })

pub response_sheaders : Answer → Option (List Header) → Answer
response_sheaders r none = record r { headers = [] }
response_sheaders r (some headers) = record r { headers = headers }

-- "Content-Type"
abbrev pub content_type_key : Bytes
content_type_key =
    b'C' ∷ b'o' ∷ b'n' ∷ b't' ∷ b'e' ∷ b'n' ∷ b't' ∷ b'-' ∷ b'T' ∷ b'y' ∷ b'p' ∷ b'e' ∷ []

-- "Connection" and "close"
abbrev pub connection_header : Header
connection_header = record {
  key = b'C' ∷ b'o' ∷ b'n' ∷ b'n' ∷ b'e' ∷ b'c' ∷ b't' ∷ b'i' ∷ b'o' ∷ b'n' ∷ [];
  value = b'c' ∷ b'l' ∷ b'o' ∷ b's' ∷ b'e' ∷ [];
}

abbrev pub type_header : ContentType → Header
type_header t = record { key = content_type_key; value = str_content_type t }

-- "OK" where there is no text
abbrev pub status_text_of : Option Bytes → Bytes
status_text_of none = b'O' ∷ b'K' ∷ []
status_text_of (some text) = text

abbrev pub own_headers : Answer → List Header
own_headers r = type_header r.content_type ∷ length_header (length r.body) ∷ connection_header ∷ []

-- "HTTP/1.1 "
abbrev pub version_head : Bytes
version_head = b'H' ∷ b'T' ∷ b'T' ∷ b'P' ∷ b'/' ∷ b'1' ∷ b'.' ∷ b'1' ∷ 32 ∷ []

-- What the first `snprintf` writes.
unfoldable pub response_start : Answer → Bytes
unfolding header_lines
response_start r =
    version_head
    ++ (decimal r.status_code
        ++ (32 ∷ (status_text_of r.status_text ++ (13 ∷ 10 ∷ header_lines (own_headers r)))))

unfoldable pub response_bytes : Answer → Bytes
unfolding response_start
response_bytes r = response_start r ++ (header_lines r.headers ++ (13 ∷ 10 ∷ r.body))

-- `headers_sz`, which takes the status code to have three digits.
unfoldable pub response_head_size : Answer → ℕ
unfolding headers_size
response_head_size r =
    9
    + 3
    + 1
    + length (status_text_of r.status_text)
    + 2
    + (14 + length (str_content_type r.content_type) + 2)
    + (16 + length (decimal (length r.body)) + 2)
    + 19
    + headers_size r.headers
    + 2

unfoldable pub build_response : Bool → Answer → Built
unfolding response_bytes response_head_size
build_response granted r =
    if not granted || ltb (response_head_size r) (length (response_start r))
    then failed
    else written (response_bytes r) (response_head_size r + length r.body)
