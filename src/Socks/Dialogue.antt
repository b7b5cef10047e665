-- ===== src/Socks/Dialogue.antt =====
-- socks5.c: a client that keeps to the protocol.
use soter.Base.{
  ℕ, ◌+◌, ◌-◌, ◌*◌, ◌/◌, ◌%◌, ◌≤◌, ◌<◌, ◌≡◌, refl, sym, ap, ap₂, true, false, some, List, [], ◌∷◌,
  ◌++◌, arith, ltb, eqb, if◌then◌else◌, length, take, drop, All, append-nil, take-length-append,
  drop-length-append, take-length, pos→not-eqb, Bool-cases, inl, inr, lt→ltb, ltb→lt, not-ltb→le,
  le→not-ltb,
}
use soter.Socks.{
  Session, UniAddr, domain_addr, readx, c_text, recv_string, offers_no_auth, server_hello, writex,
  handle_greeting, read_domain, handle_request, port_bytes, Remote, positive, overrun, tunnelling,
  replied, reply_code, domain_reply, answer_request, tunnel_wrapper,
}

abbrev session : List ℕ → List ℕ → Session
session incoming outgoing = record { incoming = incoming; outgoing = outgoing }

readx-whole :
    (memory xs ys out : List ℕ) (n : ℕ)
    → length xs ≡ n
    → 1 ≤ n
    → readx memory n (session (xs ++ ys) out) ≡ some (xs, session ys out)
unfolding readx
readx-whole memory xs ys out n e some_bytes =
    let got : take n (xs ++ ys) ≡ xs = take-length-append xs ys n (sym e) in
    let left : drop n (xs ++ ys) ≡ ys = drop-length-append xs ys n (sym e) in
    let full : n - length xs ≡ 0 = omega (arith, e) in
    rw (readx, got, left, full, pos→not-eqb (length xs) (omega (arith, e, some_bytes)))
      (ap (λ t. some (t, session ys out)) (append-nil xs))

abbrev pub IsText : List ℕ → Type 0
IsText = All (λ b. eqb b 0 ≡ false)

c_text-text : (d : List ℕ) → IsText d → c_text d ≡ d
unfolding c_text
c_text-text [] text = refl
c_text-text (b ∷ bs) (now, later) = rw (now) (ap (λ t. b ∷ t) (c_text-text bs later))

handle_greeting-offer :
    (memory ms rest out : List ℕ)
    → 1 ≤ length ms
    → offers_no_auth ms ≡ true
    → handle_greeting memory (session (5 ∷ length ms ∷ (ms ++ rest)) out)
      ≡ (true, session rest (out ++ (5 ∷ 0 ∷ [])))
unfolding handle_greeting server_hello writex
handle_greeting-offer memory ms rest out some_methods offered =
    rw (handle_greeting, readx-whole memory ms rest out (length ms) refl some_methods, offered) refl

handle_request-domain :
    (memory d rest out : List ℕ) (reserved p1 p0 : ℕ)
    → 1 ≤ length d
    → IsText d
    → handle_request memory
        (session (5 ∷ 1 ∷ reserved ∷ 3 ∷ length d ∷ (d ++ (p1 ∷ p0 ∷ rest))) out)
      ≡ some (domain_addr d (p1 * 256 + p0) (length d), session rest out)
unfolding handle_request read_domain recv_string
handle_request-domain memory d rest out reserved p1 p0 some_bytes text =
    let port : length d - length d ≡ 0 = omega arith in
    rw
      (
        handle_request,
        read_domain,
        recv_string,
        readx-whole memory d (p1 ∷ p0 ∷ rest) out (length d) refl some_bytes,
        c_text-text d text,
        port,
      )
      (ap (λ t. some (domain_addr t (p1 * 256 + p0) (length d), session rest out)) (append-nil d))

two_bytes : (p1 p0 : ℕ) → p1 < 256 → p0 < 256 → port_bytes (p1 * 256 + p0) ≡ p1 ∷ p0 ∷ []
two_bytes p1 p0 h1 h0 =
    let high : (p1 * 256 + p0) / 256 % 256 ≡ p1 = omega (arith, h1, h0) in
    let low : (p1 * 256 + p0) % 256 ≡ p0 = omega (arith, h0) in ap₂ (λ a b. a ∷ b ∷ []) high low

answer_request-domain :
    (d incoming out : List ℕ) (p1 p0 : ℕ)
    → p1 < 256
    → p0 < 256
    → let raddr = domain_addr d (p1 * 256 + p0) (length d) in
      answer_request raddr positive (session incoming out) ≡ (
        if ltb 251 (length d)
        then overrun
        else tunnelling raddr
            (session incoming (out ++ (5 ∷ 0 ∷ 0 ∷ 3 ∷ length d ∷ (d ++ (p1 ∷ p0 ∷ []))))))
unfolding answer_request domain_reply replied reply_code writex
answer_request-domain d incoming out p1 p0 h1 h0 = elim (Bool-cases (ltb 251 (length d))) [
  | inl big ↦
      rw
        (
          answer_request,
          domain_reply,
          lt→ltb 258 (4 + 1 + length d + 2) (omega (arith, ltb→lt 251 (length d) big)),
          big,
        )
        refl
  | inr fits ↦
      rw
        (
          answer_request,
          domain_reply,
          le→not-ltb 258 (4 + 1 + length d + 2) (omega (arith, not-ltb→le 251 (length d) fits)),
          fits,
          take-length d,
          two_bytes p1 p0 h1 h0,
        )
        refl
]

-- A client that offers to go without authentication, among any methods, and asks for any domain, which
-- has no zero byte, at any port, where the connection comes about: with a domain of at most 251 bytes
-- it gets the two answers and is in the tunnel, with what else it sent still to be read; a longer
-- domain, which the protocol allows, makes the server write past its buffer.
pub tunnel_wrapper-domain :
    (memory ms d rest : List ℕ) (reserved p1 p0 : ℕ) (connection_handler : UniAddr → Remote)
    → 1 ≤ length ms
    → offers_no_auth ms ≡ true
    → 1 ≤ length d
    → IsText d
    → p1 < 256
    → p0 < 256
    → connection_handler (domain_addr d (p1 * 256 + p0) (length d)) ≡ positive
    → tunnel_wrapper memory connection_handler (record {
      incoming =
          5 ∷ length ms ∷ (ms ++ (5 ∷ 1 ∷ reserved ∷ 3 ∷ length d ∷ (d ++ (p1 ∷ p0 ∷ rest))));
      outgoing = [];
    })
      ≡ (if ltb 251 (length d)
          then overrun
          else tunnelling (domain_addr d (p1 * 256 + p0) (length d)) (record {
            incoming = rest;
            outgoing = 5 ∷ 0 ∷ 5 ∷ 0 ∷ 0 ∷ 3 ∷ length d ∷ (d ++ (p1 ∷ p0 ∷ []));
          }))
unfolding tunnel_wrapper
tunnel_wrapper-domain memory ms d rest reserved p1 p0 connection_handler some_methods offered
      some_bytes text h1 h0 reached =
    let request : List ℕ = 5 ∷ 1 ∷ reserved ∷ 3 ∷ length d ∷ (d ++ (p1 ∷ p0 ∷ rest)) in
    rw
      (
        tunnel_wrapper,
        handle_greeting-offer memory ms request [] some_methods offered,
        handle_request-domain memory d rest (5 ∷ 0 ∷ []) reserved p1 p0 some_bytes text,
        reached,
      )
      (answer_request-domain d rest (5 ∷ 0 ∷ []) p1 p0 h1 h0)
