-- ===== src/Lownet.antt =====
-- code/devcore/lownet/src/core.c: addresses as texts and as the system has them.  The C library's
-- conversions are a record of functions; a text that one of them accepts or makes fits its buffer.
pub mod Addresses
use soter.Base.{
  ℕ, Bool, true, false, not, ◌&&◌, Option, none, some, List, [], ◌∷◌, ltb, eqb, if◌then◌else◌, take,
}

abbrev pub Text : Type 0
Text = List ℕ

-- `naddr_t`: the text and the port, by the type.
pub data Naddr : Type 0 where
  v4 v6 : Text → ℕ → Naddr

-- The address of a `nnet_fd`: the binary address and the port in network order, and for IPv6 the words
-- `sin6_flowinfo` and `sin6_scope_id`; or another family.
pub data SockAddr : Type 0 where
  inet : ℕ → ℕ → SockAddr
  inet6 : List ℕ → ℕ → ℕ → ℕ → SockAddr
  unknown : SockAddr

-- `inet_pton` and `inet_ntop` of both families, `htons` and `ntohs`, and the addresses that
-- `gethostbyname` gives, as `inet_ntoa` prints them.
pub record Inet : Type 0 where
  pub pton4 : Text → Option ℕ
  pub ntop4 : ℕ → Text
  pub pton6 : Text → Option (List ℕ)
  pub ntop6 : List ℕ → Text
  pub htons : ℕ → ℕ
  pub ntohs : ℕ → ℕ
  pub gethostbyname : Text → Option (List Text)

-- `(naddr_t){0}`
abbrev pub zero_addr : Naddr
zero_addr = v4 [] 0

unfoldable pub gip : Naddr → Text
gip (v4 ip port) = ip
gip (v6 ip port) = ip

unfoldable pub gport : Naddr → ℕ
gport (v4 ip port) = port
gport (v6 ip port) = port

abbrev pub with_port : ℕ → Naddr → Naddr
with_port port (v4 ip _) = v4 ip port
with_port port (v6 ip _) = v6 ip port

-- `strcmp` of two texts gives 0.
unfoldable pub same_text : Text → Text → Bool
same_text [] [] = true
same_text [] (y ∷ ys) = false
same_text (x ∷ xs) [] = false
same_text (x ∷ xs) (y ∷ ys) = let rest = same_text xs ys in if eqb x y then rest else false

pub addrcmp : Naddr → Naddr → Bool
unfolding same_text
addrcmp (v4 ip port) (v4 ip' port') = eqb port port' && same_text ip ip'
addrcmp (v4 ip port) (v6 ip' port') = false
addrcmp (v6 ip port) (v4 ip' port') = false
addrcmp (v6 ip port) (v6 ip' port') = eqb port port' && same_text ip ip'

-- A colon, 58, is in the text.
unfoldable pub has_colon : Text → Bool
has_colon [] = false
has_colon (c ∷ cs) = let rest = has_colon cs in if eqb c 58 then true else rest

module _ (lib : Inet) where
  open lib use {pton4, ntop4, pton6, ntop6, htons, ntohs, gethostbyname}

  -- The first address of the domain, with the port 0; `none` is -1.
  unfoldable pub resolve : Text → Option Naddr
  unfolding has_colon
  resolve domain = elim (gethostbyname domain) [
    | none ↦ none
    | some addr_list ↦ elim addr_list [
      | [] ↦ none
      | ip ∷ _ ↦ elim ip [
        | [] ↦ none
        | c ∷ cs ↦
            if has_colon (c ∷ cs) then some (v6 (c ∷ cs) 0) else some (v4 (take 16 (c ∷ cs)) 0)
      ]
    ]
  ]

  unfoldable pub uni : Text → ℕ → Option Naddr
  unfolding resolve
  uni uni_addr port = elim (pton4 uni_addr) [
    | some _ ↦ some (v4 uni_addr port)
    | none ↦ elim (pton6 uni_addr) [
      | some _ ↦ some (v6 uni_addr port)
      | none ↦ elim (resolve uni_addr) [ none ↦ none | some out ↦ some (with_port port out) ]
    ]
  ]

  pub uniq : Text → ℕ → Naddr
  uniq uni_addr port = elim (uni uni_addr port) [ none ↦ zero_addr | some out ↦ out ]

  pub domain : Text → ℕ → Naddr
  domain name port = elim (resolve name) [ none ↦ zero_addr | some out ↦ with_port port out ]

  -- `flow` and `scope` are what stands in the address that is written to where an IPv6 address has its
  -- flow information and its scope, which are not written.
  unfoldable pub netfd : ℕ → ℕ → Naddr → Option SockAddr
  netfd flow scope (v4 ip port) = elim (pton4 ip) [
    | none ↦ none
    | some sin_addr ↦ some (inet sin_addr (htons port))
  ]
  netfd flow scope (v6 ip port) = elim (pton6 ip) [
    | none ↦ none
    | some sin6_addr ↦ some (inet6 sin6_addr (htons port) flow scope)
  ]

  -- The empty address where the text is not one, else an address over zeros.
  unfoldable pub netfdq : Naddr → SockAddr
  unfolding netfd
  netfdq addr = elim (netfd 0 0 addr) [ none ↦ unknown | some out ↦ out ]

  unfoldable pub nfd2addr : SockAddr → Naddr
  nfd2addr (inet sin_addr sin_port) = v4 (ntop4 sin_addr) (ntohs sin_port)
  nfd2addr (inet6 sin6_addr sin6_port flow scope) = v6 (ntop6 sin6_addr) (ntohs sin6_port)
  nfd2addr unknown = zero_addr

  unfoldable pub from_uint32 : ℕ → ℕ → Naddr
  from_uint32 ip_bin port = v4 (ntop4 ip_bin) port

  unfoldable pub to_uint32 : Naddr → ℕ
  to_uint32 (v4 ip port) = elim (pton4 ip) [ none ↦ 0 | some ip_bin ↦ ip_bin ]
  to_uint32 (v6 ip port) = 0

  unfoldable pub hton : Naddr → Naddr
  hton (v4 ip port) = v4 ip (htons port)
  hton (v6 ip port) = v6 ip (htons port)

  unfoldable pub ntoh : Naddr → Naddr
  ntoh (v4 ip port) = v4 ip (ntohs port)
  ntoh (v6 ip port) = v6 ip (ntohs port)
