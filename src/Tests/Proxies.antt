-- ===== src/Tests/Proxies.antt =====
-- socks5.c on a client that asks for a domain of two letters.
use soter.Base.{
  ℕ, ◌+◌, ◌*◌, ◌≡◌, refl, Option, eqb, none, some, List, [], ◌∷◌, ◌++◌, arith, ltb, if◌then◌else◌,
  length,
}
use soter.Socks.{domain_addr, offers_no_auth, positive, overrun, tunnelling, tunnel_wrapper}
use soter.Socks.Dialogue.{tunnel_wrapper-domain}
use soter.Socks.Resolving.{
  Connected, connected, timed_out, refused, resolve_address, resolve_address-swapped,
}

abbrev domain : List ℕ
domain = 116 ∷ 111 ∷ []

tunnel_wrapper-domain_example :
    tunnel_wrapper []
      (λ a. positive)
      (record {
        incoming = 5 ∷ 2 ∷ 2 ∷ 0 ∷ 5 ∷ 1 ∷ 0 ∷ 3 ∷ 2 ∷ 116 ∷ 111 ∷ 1 ∷ 187 ∷ 9 ∷ [];
        outgoing = [];
      })
    ≡ (if ltb 251 (length domain)
        then overrun
        else tunnelling (domain_addr domain (1 * 256 + 187) (length domain)) (record {
          incoming = 9 ∷ [];
          outgoing = 5 ∷ 0 ∷ 5 ∷ 0 ∷ 0 ∷ 3 ∷ length domain ∷ (domain ++ (1 ∷ 187 ∷ []));
        }))
unfolding offers_no_auth
tunnel_wrapper-domain_example =
    tunnel_wrapper-domain [] (2 ∷ 0 ∷ []) domain (9 ∷ []) 0 1 187 (λ a. positive) (omega arith) refl
      (omega arith) (refl, (refl, _)) (omega arith) (omega arith) refl

-- Target 3 refuses and 4 does not answer.
abbrev outcome : ℕ → Connected
outcome t = if eqb t 3 then refused else if eqb t 4 then timed_out else connected

abbrev addresses : List ℕ → ℕ → Option (List ℕ)
addresses name port = if eqb (length name) 2 then some (1 ∷ 2 ∷ []) else some (3 ∷ 4 ∷ 5 ∷ [])

resolve_address-swapped_example :
    (resolve_address outcome (λ ip port. 0) addresses (domain_addr domain 443 2) ≡ none)
    × (resolve_address outcome (λ ip port. 0) addresses (domain_addr (9 ∷ []) 443 1) ≡ some 4)
resolve_address-swapped_example =
    resolve_address-swapped outcome (λ ip port. 0) addresses domain (9 ∷ []) 443 (1 ∷ 2 ∷ [])
      (3 ∷ []) (5 ∷ []) 4 refl (refl, (refl, _)) refl (refl, _) refl
