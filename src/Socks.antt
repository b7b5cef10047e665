-- ===== src/Socks.antt =====
-- code/devcore/proxy/src/socks5.c: what a SOCKS5 server says to a client before the tunnel.
-- `ln_tsock_readx` of lownet/src/tcp_sock.c is given the bytes that the client has sent before it closes its
-- side, and returns fewer than asked for where these end; what a read does not fill is what was in
-- memory.
pub mod Dialogue
pub mod Resolving
use soter.Base.{
  ℕ, ◌+◌, ◌-◌, ◌*◌, ◌/◌, ◌%◌, Bool, true, false, not, ◌||◌, Option, none, some, List, [], ◌∷◌, ◌++◌,
  ltb, eqb, if◌then◌else◌, length, take, drop,
}

-- The bytes that are still to come from the client, and those sent to it.
pub record Session : Type 0 where
  pub incoming : List ℕ
  pub outgoing : List ℕ

-- `SOCKS5_VERSION` and the types of an address
abbrev pub socks_version : ℕ
socks_version = 5

abbrev pub atyp_ipv4 : ℕ
atyp_ipv4 = 1

abbrev pub atyp_domain : ℕ
atyp_domain = 3

-- `s5_uni_addr`: an IPv4 address as its four bytes, or a domain as its buffer's first bytes.
pub data UniAddr : Type 0 where
  ip_addr : List ℕ → ℕ → UniAddr
  domain_addr : List ℕ → ℕ → ℕ → UniAddr

-- `none` is a result that is not positive.
unfoldable pub readx : List ℕ → ℕ → Session → Option (List ℕ × Session)
readx memory n s =
    let got = take n s.incoming in
    if eqb (length got) 0
    then none
    else some (got ++ take (n - length got) memory, record s { incoming = drop n s.incoming })

unfoldable pub writex : List ℕ → Session → Session
writex bytes s = record s { outgoing = s.outgoing ++ bytes }

-- The byte at the front, and the value of two in network order.
abbrev pub byte_at : ℕ → List ℕ → ℕ
byte_at i bytes = elim (drop i bytes) [ [] ↦ 0 | b ∷ _ ↦ b ]

abbrev pub port_of : List ℕ → ℕ
port_of bytes = byte_at 0 bytes * 256 + byte_at 1 bytes

abbrev pub port_bytes : ℕ → List ℕ
port_bytes port = port / 256 % 256 ∷ port % 256 ∷ []

-- The text before the first zero.
unfoldable pub c_text : List ℕ → List ℕ
c_text [] = []
c_text (b ∷ bs) = let rest = c_text bs in if eqb b 0 then [] else b ∷ rest

unfoldable pub recv_string : List ℕ → Session → Option (List ℕ × Session)
unfolding readx
recv_string memory s = elim (readx memory 1 s) [
  | none ↦ none
  | some (len, s') ↦ readx memory (byte_at 0 len) s'
]

unfoldable pub server_hello : ℕ → Session → Session
unfolding writex
server_hello method s = writex (socks_version ∷ method ∷ []) s

-- `SOCKS5_AUTH_NO_AUTH` is among the methods.
unfoldable pub offers_no_auth : List ℕ → Bool
offers_no_auth [] = false
offers_no_auth (m ∷ ms) = let rest = offers_no_auth ms in if eqb m 0 then true else rest

unfoldable pub handle_greeting : List ℕ → Session → Bool × Session
unfolding readx offers_no_auth server_hello
handle_greeting memory s = elim (readx memory 2 s) [
  | none ↦ (false, s)
  | some (hello, s1) ↦
      if not (eqb (byte_at 0 hello) socks_version)
      then (false, s1)
      else elim (readx memory (byte_at 1 hello) s1) [
        | none ↦ (false, s1)
        | some (methods, s2) ↦
            if not (offers_no_auth methods)
            then (false, server_hello 255 s2)
            else (true, server_hello 0 s2)
      ]
]

-- The buffer has 258 bytes; `none` is a write past it.
unfoldable pub domain_reply : ℕ → List ℕ → ℕ → ℕ → Session → Option Session
unfolding writex
domain_reply reply_type domain domain_len port s =
    if ltb 258 (4 + 1 + domain_len + 2)
    then none
    else some (
        writex
          (socks_version
            ∷ reply_type
            ∷ 0
            ∷ atyp_domain
            ∷ domain_len
            ∷ (take domain_len domain ++ port_bytes port))
          s)

unfoldable pub ip_reply : ℕ → List ℕ → ℕ → Session → Session
unfolding writex
ip_reply reply_type ip port s =
    writex (socks_version ∷ reply_type ∷ 0 ∷ atyp_ipv4 ∷ (ip ++ port_bytes port)) s

unfoldable pub read_ip : List ℕ → Session → Option (UniAddr × Session)
unfolding readx
read_ip memory s = elim (readx memory 4 s) [
  | none ↦ none
  | some (ip, s1) ↦ elim (readx memory 2 s1) [
    | none ↦ none
    | some (port, s2) ↦ some (ip_addr ip (port_of port), s2)
  ]
]

-- The domain is copied up to its first zero, and its length kept as it was announced.
unfoldable pub read_domain : List ℕ → Session → Option (UniAddr × Session)
unfolding readx recv_string c_text
read_domain memory s = elim (recv_string memory s) [
  | none ↦ none
  | some (domain, s1) ↦ elim (readx memory 2 s1) [
    | none ↦ none
    | some (port, s2) ↦
        let text = c_text domain in
        some (
          domain_addr (text ++ take (length domain - length text) memory) (port_of port)
              (length domain),
          s2,
        )
  ]
]

unfoldable pub handle_request : List ℕ → Session → Option (UniAddr × Session)
unfolding readx read_ip read_domain
handle_request memory s = elim (readx memory 4 s) [
  | none ↦ none
  | some (req, s1) ↦
      if not (eqb (byte_at 0 req) socks_version)
      then none
      else if not (eqb (byte_at 1 req) 1)
      then none
      else if eqb (byte_at 3 req) atyp_ipv4
      then read_ip memory s1
      else if eqb (byte_at 3 req) atyp_domain
      then read_domain memory s1
      else none
]

-- The remote socket's descriptor as the handler leaves it.
pub data Remote : Type 0 where
  negative at_zero positive : Remote

-- How far a client gets: each end but the last closes the sockets, the second and third of them with
-- the remote socket not set, and `overrun` is a write past a buffer.
pub data Tunnel : Type 0 where
  ungreeted : Session → Tunnel
  unrequested : Tunnel
  overrun : Tunnel
  unconnected : Session → Tunnel
  tunnelling : UniAddr → Session → Tunnel

unfoldable pub reply_code : Remote → ℕ
reply_code negative = 1
reply_code at_zero = 0
reply_code positive = 0

unfoldable pub replied : UniAddr → Remote → Option Session → Tunnel
replied raddr remote none = overrun
replied raddr negative (some s) = unconnected s
replied raddr at_zero (some s) = unconnected s
replied raddr positive (some s) = tunnelling raddr s

unfoldable pub answer_request : UniAddr → Remote → Session → Tunnel
unfolding replied reply_code ip_reply domain_reply
answer_request (ip_addr ip port) remote s =
    replied (ip_addr ip port) remote (some (ip_reply (reply_code remote) ip port s))
answer_request (domain_addr domain port domain_len) remote s =
    replied (domain_addr domain port domain_len) remote
      (domain_reply (reply_code remote) domain domain_len port s)

pub tunnel_wrapper : List ℕ → (UniAddr → Remote) → Session → Tunnel
unfolding handle_greeting handle_request answer_request
tunnel_wrapper memory connection_handler s =
    let greeted = handle_greeting memory s in
    if not greeted.0 then ungreeted greeted.1 else elim (handle_request memory greeted.1) [
      | none ↦ unrequested
      | some (raddr, s1) ↦ answer_request raddr (connection_handler raddr) s1
    ]
