-- ===== src/Http/Query.antt =====
-- code/devcore/uhttp: the parameters of a request's path, `uhttp_get_query_param` of src/parser.c and
-- its callers in src/api.c.  Texts are C strings: lists of bytes other than 0.
pub mod Lookup
pub mod Decode
use soter.Base.{
  ℕ, zero, suc, ◌+◌, ◌-◌, ◌*◌, Bool, true, false, not, ◌&&◌, ◌||◌, Option, none, some, List, [],
  ◌∷◌, leb, eqb, if◌then◌else◌, length, take, drop,
}
use soter.Http.{Bytes, starts_with, find_byte, lower}
use soter.Http.Build.{same_text}

pub is_xdigit : ℕ → Bool
is_xdigit c = leb 48 c && leb c 57 || leb 65 c && leb c 70 || leb 97 c && leb c 102

pub hex_value : ℕ → ℕ
unfolding lower
hex_value c = if leb 97 (lower c) then lower c - 97 + 10 else lower c - 48

-- Two hexadecimal digits in front: the byte they stand for, and what follows.
pub hex_pair : Bytes → Option (ℕ × Bytes)
unfolding is_xdigit hex_value
hex_pair [] = none
hex_pair (a ∷ []) = none
hex_pair (a ∷ b ∷ rest) =
    if is_xdigit a && is_xdigit b then some (hex_value a * 16 + hex_value b, rest) else none

pub escape : ℕ → Bytes → Option (ℕ × Bytes)
unfolding hex_pair
escape c cs = if eqb c b'%' then hex_pair cs else none

pub plain : ℕ → ℕ
plain c = if eqb c b'+' then 32 else c

-- The loop that decodes a value, with room for so many bytes before the final 0.
pub decode : ℕ → Bytes → Bytes
unfolding escape plain
decode zero src = []
decode (suc room) [] = []
decode (suc room) (c ∷ cs) = elim (escape c cs) [
  | none ↦ plain c ∷ decode room cs
  | some (byte, rest) ↦ byte ∷ decode room rest
]

-- `strncmp(p, name, name_len) == 0 && *(p + name_len) == '='`
pub matches : Bytes → Bytes → Bool
unfolding starts_with
matches name p = starts_with name p && starts_with (b'=' ∷ []) (drop (length name) p)

-- Up to the next '&' or the end.
pub up_to_amp : Bytes → Bytes
unfolding find_byte
up_to_amp p = elim (find_byte b'&' p) [ none ↦ p | some i ↦ take i p ]

-- The character before `p`; there is none at the start of the query.
pub inside_param : Option ℕ → Bool
inside_param none = false
inside_param (some c) = not (eqb c b'&')

-- The loop over the parameters, with as many rounds left as bytes at least: the text of the value.
pub search : ℕ → Bytes → Option ℕ → Bytes → Option Bytes
unfolding matches inside_param find_byte
search zero name prev p = none
search (suc rounds) name prev [] = none
search (suc rounds) name prev (c ∷ cs) =
    let stepped = search rounds name (some c) cs in
    let jumped : Option Bytes = elim (find_byte b'&' (c ∷ cs)) [
      | none ↦ none
      | some i ↦ search rounds name (some b'&') (drop (suc i) (c ∷ cs))
    ] in
    if inside_param prev
    then stepped
    else if matches name (c ∷ cs)
    then some (up_to_amp (drop (suc (length name)) (c ∷ cs)))
    else jumped

-- The status and what `*out` is then: -3, which leaves it alone, -2 and -1, which make it null, or 0.
pub data QueryResult : Type 0 where
  bad_call no_memory missing : QueryResult
  found : Bytes → QueryResult

pub skip_mark : Bytes → Bytes
skip_mark [] = []
skip_mark (c ∷ cs) = if eqb c b'?' then cs else c ∷ cs

pub get_query_param : Bool → Option Bytes → Bytes → ℕ → QueryResult
unfolding search decode skip_mark
get_query_param granted none name max_out_size = bad_call
get_query_param granted (some query) [] max_out_size = bad_call
get_query_param granted (some query) (n ∷ name) max_out_size =
    if eqb max_out_size 0
    then bad_call
    else elim (search (length (skip_mark query)) (n ∷ name) none (skip_mark query)) [
      | none ↦ missing
      | some value ↦ if granted then found (decode (max_out_size - 1) value) else no_memory
    ]

-- `strchr(path, '?')`
pub query_of : Bytes → Option Bytes
unfolding find_byte
query_of path = elim (find_byte b'?' path) [ none ↦ none | some i ↦ some (drop i path) ]

-- `uhttp_param`
pub record Param : Type 0 where
  pub name : Bytes
  pub value : Option Bytes

pub new_param : Bytes → Param
new_param name = record { name = name; value = none }

pub take_value : Param → QueryResult → Param
take_value p bad_call = p
take_value p no_memory = record p { value = none }
take_value p missing = record p { value = none }
take_value p (found value) = record p { value = some value }

pub is_found : QueryResult → Bool
is_found (found value) = true
is_found _ = false

-- Whether all were found, the status 0, and the parameters with their values.
pub parse_params : Bool → Bytes → List Param → Bool × List Param
unfolding get_query_param query_of take_value is_found
parse_params granted path [] = (true, [])
parse_params granted path (p ∷ ps) =
    let got = get_query_param granted (query_of path) p.name 1024 in
    let (all, rest) = parse_params granted path ps in (is_found got && all, take_value p got ∷ rest)

pub get_param : List Param → Bytes → Option Bytes
get_param [] name = none
get_param (p ∷ ps) name =
    let rest = get_param ps name in if same_text p.name name then p.value else rest

pub any_params : Bytes → Bool
any_params path = elim (find_byte b'?' path) [ none ↦ false | some i ↦ true ]

pub get_clear_route : Bool → Bytes → Option Bytes
get_clear_route granted path = elim (find_byte b'?' path) [
  | none ↦ some path
  | some i ↦ if granted then some (take i path) else none
]
