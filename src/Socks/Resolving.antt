-- ===== src/Socks/Resolving.antt =====
-- socks5.c: the connection to the address that a client asks for.
use soter.Base.{
  ℕ, ◌≡◌, refl, Bool, true, false, Option, none, some, List, [], ◌∷◌, ◌++◌, length, if◌then◌else◌,
  All,
}
use soter.Socks.{UniAddr, ip_addr, domain_addr}

-- What `ln_tsock_connectx` returns: 1, 0 after its time, or a negative number.
pub data Connected : Type 0 where
  connected timed_out refused : Connected

abbrev pub is_zero : Connected → Bool
is_zero timed_out = true
is_zero _ = false

abbrev pub is_positive : Connected → Bool
is_positive connected = true
is_positive _ = false

module _ {Target : Type 0} (connectx : Target → Connected) where
  -- The loop over what `getaddrinfo` gave: the socket that is kept, each other one being closed.
  unfoldable pub try_all : List Target → Option Target
  try_all [] = none
  try_all (target ∷ targets) =
      let rest = try_all targets in if is_zero (connectx target) then some target else rest

  -- `none` is -1; `lookup` is `getaddrinfo` of a domain and a port.
  pub resolve_address :
      (List ℕ → ℕ → Target) → (List ℕ → ℕ → Option (List Target)) → UniAddr → Option Target
  unfolding try_all
  resolve_address of_ip lookup (ip_addr ip port) =
      if is_positive (connectx (of_ip ip port)) then some (of_ip ip port) else none
  resolve_address of_ip lookup (domain_addr domain port domain_len) = elim (lookup domain port) [
    | none ↦ none
    | some targets ↦ try_all targets
  ]

  -- The target accepts the connection.
  abbrev pub Accepts : Target → Type 0
  Accepts target = connectx target ≡ connected

  try_all-accepted : (targets : List Target) → All Accepts targets → try_all targets ≡ none
  unfolding try_all
  try_all-accepted [] accepts = refl
  try_all-accepted (target ∷ targets) (now, later) = rw now (try_all-accepted targets later)

  try_all-refused :
      (before : List Target) (slow : Target) (after : List Target)
      → All (λ t. connectx t ≡ refused) before
      → connectx slow ≡ timed_out
      → try_all (before ++ (slow ∷ after)) ≡ some slow
  unfolding try_all
  try_all-refused [] slow after refusals late = rw late refl
  try_all-refused (target ∷ before) slow after (now, later) late =
      rw now (try_all-refused before slow after later late)

  -- A domain is refused when all of its addresses accept the connection.  A domain with an address that
  -- does not answer within the time, behind some that refuse, is taken to be connected to that address.
  pub resolve_address-swapped :
      (of_ip : List ℕ → ℕ → Target) (lookup : List ℕ → ℕ → Option (List Target)) (good bad : List ℕ)
      (port : ℕ) (targets before after : List Target) (slow : Target)
      → lookup good port ≡ some targets
      → All Accepts targets
      → lookup bad port ≡ some (before ++ (slow ∷ after))
      → All (λ t. connectx t ≡ refused) before
      → connectx slow ≡ timed_out
      → (resolve_address of_ip lookup (domain_addr good port (length good)) ≡ none)
        × (resolve_address of_ip lookup (domain_addr bad port (length bad)) ≡ some slow)
  unfolding resolve_address
  resolve_address-swapped of_ip lookup good bad port targets before after slow found accepts found'
        refusals late =
      (
        rw (resolve_address, found) (try_all-accepted targets accepts),
        rw (resolve_address, found') (try_all-refused before slow after refusals late),
      )
