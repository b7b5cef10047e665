-- ===== src/Natpunch.antt =====
-- code/devcore/natpunch/src/stun.c: what a STUN server says of a socket's address.  The socket's calls
-- are arguments: whether the request went out and an answer came in time, and the bytes that came.
pub mod Attributes
pub mod Answers
pub mod Mapped
pub mod Nat
use Prim.Native.Nat.{bit_xor}
use soter.Base.{
  ℕ, zero, suc, ◌+◌, ◌-◌, ◌*◌, ◌/◌, ◌%◌, Bool, true, false, not, ◌||◌, Option, none, some, List, [],
  ◌∷◌, ◌++◌, ltb, leb, eqb, if◌then◌else◌, length, take, drop, replicate,
}

-- `STUN_BINDING_RESPONSE`, `STUN_MAGIC_COOKIE`, `sizeof(struct stun_header)` and the buffer's size
abbrev pub binding_response : ℕ
binding_response = 0x0101

abbrev pub magic_cookie : ℕ
magic_cookie = 0x2112A442

abbrev pub header_size : ℕ
header_size = 20

abbrev pub buffer_size : ℕ
buffer_size = 1024

-- -1, the address and port that go into `client->addr`, an access past the buffer, or a loop that is
-- not over.
pub data Found : Type 0 where
  failed : Found
  discovered : ℕ → ℕ → Found
  overread : Found
  unfinished : Found

-- What `ntohs` and `ntohl` make of bytes in memory: the first is the highest.
unfoldable pub be_from : ℕ → List ℕ → ℕ
be_from acc [] = acc
be_from acc (b ∷ bs) = be_from (acc * 256 + b) bs

-- A word of `n` bytes in the buffer.
unfoldable pub word_at : List ℕ → ℕ → ℕ → Option ℕ
unfolding be_from
word_at buf i n = if ltb (length buf) (i + n) then none else some (be_from 0 (take n (drop i buf)))

-- The request: type 1, length 0, the cookie, and twelve random bytes.
pub request_bytes : List ℕ → List ℕ
request_bytes id = 0 ∷ 1 ∷ 0 ∷ 0 ∷ 0x21 ∷ 0x12 ∷ 0xA4 ∷ 0x42 ∷ take 12 id

-- `ATTR_XOR_MAPPED_ADDRESS` and `ATTR_XOR_MAPPED_ADDRESS_RFC5389`
unfoldable pub is_xor : ℕ → Bool
is_xor type = eqb type 0x0020 || eqb type 0x8020

unfoldable pub xor_mapped : List ℕ → ℕ → Found
unfolding word_at
xor_mapped buf pos = elim (word_at buf (pos + 6) 2) [
  | none ↦ overread
  | some x_port ↦ elim (word_at buf (pos + 8) 4) [
    | none ↦ overread
    | some x_ip ↦ discovered (bit_xor x_ip magic_cookie) (bit_xor x_port (magic_cookie / 65536))
  ]
]

unfoldable pub mapped : List ℕ → ℕ → Found
unfolding word_at
mapped buf pos = elim (word_at buf (pos + 5) 1) [
  | none ↦ overread
  | some family ↦ if not (eqb family 1) then failed else elim (word_at buf (pos + 6) 2) [
    | none ↦ overread
    | some port ↦ elim (word_at buf (pos + 8) 4) [ none ↦ overread | some ip ↦ discovered ip port ]
  ]
]

-- What an attribute of this type and length says, `rest` being what the following ones say.
unfoldable pub attribute : List ℕ → ℕ → ℕ → ℕ → Found → Found
unfolding is_xor xor_mapped mapped
attribute buf pos type len rest =
    if is_xor type
    then (if ltb len 8 then failed else xor_mapped buf pos)
    else if eqb type 1
    then (if ltb len 8 then failed else mapped buf pos)
    else rest

-- The loop over the attributes from `pos` on, for so many rounds.
unfoldable pub scan : ℕ → List ℕ → ℕ → ℕ → Found
unfolding word_at attribute
scan zero buf pos end_pos = unfinished
scan (suc n) buf pos end_pos = if ltb end_pos (pos + 4) then failed else elim (word_at buf pos 2) [
  | none ↦ overread
  | some type ↦ elim (word_at buf (pos + 2) 2) [
    | none ↦ overread
    | some len ↦ attribute buf pos type len (scan n buf (pos + (4 + (len + 3) / 4 * 4)) end_pos)
  ]
]

-- The buffer: what came, as much as fits, in zeros.
unfoldable pub filled : List ℕ → List ℕ
filled received =
    let got = take buffer_size received in got ++ replicate (buffer_size - length got) 0

abbrev pub lesser : ℕ → ℕ → ℕ
lesser a b = if ltb b a then b else a

-- A header of 20 bytes is there, and what is in it decides; `r` bytes have come.
unfoldable pub parse_in : List ℕ → ℕ → Found
unfolding scan be_from
parse_in buf r =
    if ltb r header_size
    then failed
    else if not (eqb (be_from 0 (take 2 buf)) binding_response)
    then failed
    else if not (eqb (be_from 0 (take 4 (drop 4 buf))) magic_cookie)
    then failed
    else scan 257 buf header_size (lesser (header_size + be_from 0 (take 2 (drop 2 buf))) r)

unfoldable pub parse : List ℕ → Found
unfolding filled parse_in
parse received = parse_in (filled received) (length (take buffer_size received))

pub request_stun : Bool → Bool → Option (List ℕ) → Found
unfolding parse
request_stun went_out in_time received =
    if not went_out
    then failed
    else if not in_time
    then failed
    else elim received [ none ↦ failed | some bytes ↦ parse bytes ]
