-- ===== src/Http.antt =====
-- code/devcore/uhttp/src/parser.c: requests and responses out of received bytes.  Memory is a list of
-- bytes, and a pointer into it is the list from there on; `granted` tells whether `malloc` succeeds.
pub mod Search
pub mod Decimal
pub mod Headers
pub mod Build
pub mod Sizes
pub mod Fields
pub mod Loop
pub mod Bounds
pub mod Split
pub mod Line
pub mod Cut
pub mod RoundTrip
pub mod Responses
pub mod Query
pub mod Server
use soter.Base.{
  ℕ, zero, suc, ◌+◌, ◌-◌, ◌*◌, ◌≡◌, Bool, true, false, not, ◌&&◌, ◌||◌, Option, none, some, List,
  [], ◌∷◌, ◌++◌, ltb, leb, eqb, if◌then◌else◌, length, take, drop,
}

abbrev pub Bytes : Type 0
Bytes = List ℕ

abbrev pub max_headers : ℕ
max_headers = 20

abbrev pub max_header_size : ℕ
max_header_size = 256

abbrev pub max_path_size : ℕ
max_path_size = 512

abbrev pub max_head_size : ℕ
max_head_size = 8192

abbrev pub max_body_size : ℕ
max_body_size = 10485760

abbrev pub crlf : Bytes
crlf = 13 ∷ 10 ∷ []

abbrev pub crlf_crlf : Bytes
crlf_crlf = 13 ∷ 10 ∷ 13 ∷ 10 ∷ []

-- `memcmp(buf, seq, seq_len) == 0`, where the buffer is long enough.
unfoldable pub starts_with : Bytes → Bytes → Bool
starts_with [] buf = true
starts_with (s ∷ seq) [] = false
starts_with (s ∷ seq) (b ∷ buf) = eqb s b && starts_with seq buf

abbrev pub moved : Option ℕ → Option ℕ
moved none = none
moved (some i) = some (suc i)

-- `none` is the null pointer, an index the pointer that far into the buffer.
unfoldable pub find_sequence : Bytes → Bytes → Option ℕ
unfolding starts_with
find_sequence [] seq = if starts_with seq [] then some 0 else none
find_sequence (b ∷ buf) seq =
    let rest = find_sequence buf seq in if starts_with seq (b ∷ buf) then some 0 else moved rest

-- The loops that look for one character up to the end of a line.
pub find_byte : ℕ → Bytes → Option ℕ
find_byte c [] = none
find_byte c (b ∷ bs) = let rest = find_byte c bs in if eqb b c then some 0 else moved rest

pub is_space : ℕ → Bool
is_space c = eqb c 32 || leb 9 c && leb c 13

pub skip_space : Bytes → Bytes
unfolding is_space
skip_space [] = []
skip_space (c ∷ cs) = let rest = skip_space cs in if is_space c then rest else c ∷ cs

-- The loop over the digits; `none` is -1.
unfoldable pub digits : ℕ → Bytes → Option ℕ
digits out [] = some out
digits out (c ∷ cs) =
    let out' = out * 10 + (c - 48) in
    let rest = digits out' cs in
    if not (leb 48 c && leb c 57) then none else if ltb max_body_size out' then none else rest

pub parse_content_length : Bytes → Option ℕ
unfolding skip_space digits
parse_content_length [] = none
parse_content_length (c ∷ cs) = digits 0 (skip_space (c ∷ cs))

-- `uhttp_header`, with the bytes that are copied into its two arrays.
pub record Header : Type 0 where
  pub key : Bytes
  pub value : Bytes

unfoldable pub skip_blanks : Bytes → Bytes
skip_blanks [] = []
skip_blanks (c ∷ cs) = let rest = skip_blanks cs in if eqb c 32 then rest else c ∷ cs

unfoldable pub lower : ℕ → ℕ
lower c = if leb 65 c && leb c 90 then c + 32 else c

-- `strncasecmp` of as many characters as both have.
unfoldable pub same_letters : Bytes → Bytes → Bool
unfolding lower
same_letters [] [] = true
same_letters [] (b ∷ bs) = false
same_letters (a ∷ as') [] = false
same_letters (a ∷ as') (b ∷ bs) = eqb (lower a) (lower b) && same_letters as' bs

-- "Content-Length"
abbrev pub content_length_key : Bytes
content_length_key =
    b'C' ∷ b'o' ∷ b'n' ∷ b't' ∷ b'e' ∷ b'n' ∷ b't' ∷ b'-' ∷ b'L' ∷ b'e' ∷ b'n' ∷ b'g' ∷ b't' ∷ b'h'
    ∷ []

-- The output parameters of `parse_headers`.
pub record Parsed : Type 0 where
  pub headers : List Header
  pub content_length : ℕ

-- A header that fits is stored; `none` is `UHTTP_PARSE_ERROR`.
pub store_header : Parsed → Bytes → Bytes → Option Parsed
unfolding same_letters parse_content_length
store_header p key value =
    if not (
      ltb (length p.headers) max_headers
      && ltb (length key) max_header_size
      && ltb (length value) max_header_size)
    then some p
    else let stored = record p {
      headers = p.headers ++ (record { key = key; value = value } ∷ []);
    } in
      if same_letters key content_length_key
      then elim (parse_content_length value) [
        | none ↦ none
        | some n ↦ some (record stored { content_length = n })
      ]
      else some stored

pub take_line : Parsed → Bytes → Option Parsed
unfolding find_byte skip_blanks store_header
take_line p line = elim (find_byte b':' line) [
  | none ↦ some p
  | some colon ↦ store_header p (take colon line) (skip_blanks (drop (suc colon) line))
]

-- The loop, with as many rounds left as bytes at least.
pub parse_lines : ℕ → Parsed → Bytes → Option Parsed
parse_lines zero p text = some p
parse_lines (suc rounds) p [] = some p
parse_lines (suc rounds) p (c ∷ cs) = elim (find_sequence (c ∷ cs) crlf) [
  | none ↦ some p
  | some line_end ↦ elim (take_line p (take line_end (c ∷ cs))) [
    | none ↦ none
    | some p' ↦ parse_lines rounds p' (drop (line_end + 2) (c ∷ cs))
  ]
]

pub parse_headers : Bytes → Option Parsed
parse_headers text = parse_lines (length text) (record { headers = []; content_length = 0 }) text

pub data Method : Type 0 where
  get_method post unknown : Method

pub record Request : Type 0 where
  pub method : Method
  pub path : Bytes
  pub headers : List Header
  pub content_length : ℕ
  pub body : Option Bytes

-- `UHTTP_PARSE_OK`, `UHTTP_PARSE_ERROR` and `UHTTP_PARSE_INCOMPLETE`
pub data Outcome {ℓ} (A : Type ℓ) : Type ℓ where
  ok : A → Outcome A
  error : Outcome A
  incomplete : Outcome A

pub method_of : Bytes → Method
unfolding starts_with
method_of m =
    if eqb (length m) 3 && starts_with (b'G' ∷ b'E' ∷ b'T' ∷ []) m
    then get_method
    else if eqb (length m) 4 && starts_with (b'P' ∷ b'O' ∷ b'S' ∷ b'T' ∷ []) m
    then post
    else unknown

abbrev pub is_post : Method → Bool
is_post post = true
is_post get_method = false
is_post unknown = false

-- The end of both parsers: the body behind the blank line, when its length is announced.
pub take_body {ℓ} : {A : Type ℓ} → Bool → Bool → ℕ → Bytes → (Option Bytes → A) → Outcome A
take_body granted wanted announced remaining finish =
    if wanted && ltb 0 announced
    then (if ltb (length remaining) announced
        then incomplete
        else if ltb max_body_size announced
        then error
        else if granted
        then ok (finish (some (take announced remaining)))
        else error)
    else ok (finish none)

-- What follows the request line, once it is taken apart.
pub finish_request : Bool → Method → Bytes → Bytes → Bytes → Outcome Request
unfolding parse_headers take_body
finish_request granted method path header_text remaining = elim (parse_headers header_text) [
  | none ↦ error
  | some p ↦ take_body granted (is_post method) p.content_length remaining λ body. record {
    method = method;
    path = path;
    headers = p.headers;
    content_length = p.content_length;
    body = body;
  }
]

-- The request line, what stands of the head behind it, and what stands behind the blank line.
pub request_line : Bool → Bytes → Bytes → Bytes → Outcome Request
unfolding find_byte method_of finish_request
request_line granted line header_text remaining = elim (find_byte 32 line) [
  | none ↦ error
  | some space1 ↦
      let path_start = drop (suc space1) line in
      elim (find_byte 32 path_start) [
        | none ↦ error
        | some path_len ↦
            if leb max_path_size path_len
            then error
            else if granted
            then finish_request granted (method_of (take space1 line)) (take path_len path_start)
                header_text remaining
            else error
      ]
]

-- The head ends at the first blank line; its first line ends at its first CRLF, which must stand
-- before that.
unfoldable pub split_head {ℓ} :
    {A : Type ℓ} → Bytes → (Bytes → Bytes → Bytes → Outcome A) → Outcome A
unfolding find_sequence
split_head text k = if eqb (length text) 0 then error else elim (find_sequence text crlf_crlf) [
  | none ↦ if leb max_head_size (length text) then error else incomplete
  | some header_end ↦
      let head = take header_end text in
      elim (find_sequence head crlf) [
        | none ↦ error
        | some line_end ↦
            k (take line_end head) (drop (line_end + 2) head) (drop (header_end + 4) text)
      ]
]

unfoldable pub parse_request : Bool → Bytes → Outcome Request
unfolding split_head request_line
parse_request granted text = split_head text (request_line granted)

pub data ContentType : Type 0 where
  text_plain octet_stream application_json content_unknown : ContentType
