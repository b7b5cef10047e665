-- ===== src/Stating/Signed.antt =====
-- state.c: a request that is made, sent, received and sent on.
use soter.Base.{
  ℕ, ◌%◌, ◌<◌, ◌≡◌, refl, sym, ap, ap₂, ◌∙◌, true, some, List, [], length, take, eqb, eqb_refl,
  take-length, u32_mod, size_mod, arith,
}
use soter.Proto.Machine.{Host}
use soter.Crypto.{Sign, pubkey_to_uid, pubkey_and_uid_check, sign_data, sign_verify}
use soter.Crypto.Library.{Sodium, IsSignPair}
use soter.Stating.{
  StateRequest, request_image, sign_buff, request_with, rcreate, to_host, received, rreceive,
  retranslate,
}
use soter.Stating.Address.{IsAddress, InOrder, converted, converted_twice}
use soter.Stating.Machine.{Wide, IsWide, htonll, htonll-lt, ntohll-htonll}
use soter.Stating.Layout.{Fits, request_of-request_image}

module _ (host : Host) (wide : Wide) (sodium : Sodium) (laws : IsWide host wide) where
  -- What it takes for a request: an address that lownet made, the UID of the own key, and values that
  -- are words.
  pub record Honest (random now uid : ℕ) (addr : List ℕ) (s : Sign) : Type 0 where
    pub known : IsAddress host addr
    pub signs : IsSignPair sodium s.id_pub s.id_sec
    pub own_uid : uid ≡ pubkey_to_uid sodium host s.id_pub
    pub uid_lt : uid < u32_mod
    pub random_lt : random < u32_mod
    pub now_lt : now < size_mod

  module _ (random now uid type : ℕ) (addr net : List ℕ) (s : Sign)
      (h : Honest random now uid addr s) (o : InOrder host wide.htons wide.ntohs addr net) where
    abbrev made : StateRequest
    made = request_with host wide sodium random now net uid type s

    whole : take 32 s.id_pub ≡ s.id_pub
    whole = ap (λ n. take n s.id_pub) (sym h.signs.length_public) ∙ take-length s.id_pub

    made-Fits : Fits made
    unfolding request_with sign_data
    made-Fits = record {
      length_addr = o.size;
      length_pubkey = ap length whole ∙ h.signs.length_public;
      length_signature =
          h.signs.length-signed (sign_buff host wide sodium (record made { signature = [] }));
      uid_lt = host.htonl-lt uid;
      type_lt = omega arith;
      nonce_lt = host.htonl-lt random;
      timestamp_lt = htonll-lt host wide laws now h.now_lt;
    }

    verified :
        sign_verify sodium (sign_buff host wide sodium made) made.signature made.pubkey ≡ true
    unfolding request_with sign_data sign_verify sign_buff
    verified =
        let buff : List ℕ = sign_buff host wide sodium made in
        ap (sodium.verify_detached (sodium.sign_detached buff s.id_sec) buff) whole
        ∙ h.signs.verifies buff

    matches : pubkey_and_uid_check sodium host made.pubkey (host.ntohl made.uid) ≡ true
    unfolding request_with pubkey_and_uid_check pubkey_to_uid
    matches =
        ap₂ (λ u k. eqb u (pubkey_to_uid sodium host k)) (host.ntohl-htonl uid h.uid_lt) whole
        ∙ ap (λ u. eqb u (pubkey_to_uid sodium host s.id_pub)) h.own_uid
        ∙ eqb_refl (pubkey_to_uid sodium host s.id_pub)

    back : converted host wide.ntohs made.addr ≡ some addr
    unfolding request_with
    back = o.to_host

    rreceive-made :
        rreceive host wide sodium (request_image host wide sodium made)
        ≡ received (to_host host wide sodium addr made)
    unfolding rreceive
    rreceive-made =
        let read = request_of-request_image host wide sodium laws made made-Fits in
        rw (rreceive, read, verified, back, read, matches) refl

    again : retranslate host wide sodium (to_host host wide sodium addr made) ≡ some made
    unfolding request_with retranslate
    again =
        let eu = ap host.htonl (host.ntohl-htonl uid h.uid_lt) in
        let en = ap host.htonl (host.ntohl-htonl random h.random_lt) in
        let et = ap (htonll host) (ntohll-htonll host wide laws now h.now_lt) in
        rw (retranslate, o.to_net)
          (λ i. some (record made { uid = eu i; nonce = en i; timestamp = et i }))

    made-arrives :
        (r : StateRequest) × (rreceive host wide sodium (request_image host wide sodium made)
          ≡ received r)
        × (r.addr ≡ addr)
        × (r.uid ≡ uid)
        × (r.pubkey ≡ s.id_pub)
        × (r.type ≡ type % 256)
        × (r.timestamp ≡ now)
        × (retranslate host wide sodium r ≡ some made)
    unfolding request_with
    made-arrives = (
      to_host host wide sodium addr made,
      rreceive-made,
      refl,
      host.ntohl-htonl uid h.uid_lt,
      whole,
      refl,
      ntohll-htonll host wide laws now h.now_lt,
      again,
    )

  -- A request that a node makes with its own identity, for an address that lownet made, is accepted
  -- where it arrives and has there the address, the UID, the key and the time that were put in, and
  -- the type in eight bits.  When it is sent on it is the same request as first made, so that it is
  -- accepted by whoever gets it from there.
  pub rreceive-rcreate :
      (random now uid type : ℕ) (addr : List ℕ) (s : Sign)
      → Honest random now uid addr s
      → (req : StateRequest) × (rcreate host wide sodium random now addr uid type s ≡ some req)
        × (r : StateRequest) × (rreceive host wide sodium (request_image host wide sodium req)
            ≡ received r)
        × (r.addr ≡ addr)
        × (r.uid ≡ uid)
        × (r.pubkey ≡ s.id_pub)
        × (r.type ≡ type % 256)
        × (r.timestamp ≡ now)
        × (retranslate host wide sodium r ≡ some req)
  unfolding rcreate
  rreceive-rcreate random now uid type addr s h =
      let (net, o) = converted_twice host wide.htons wide.ntohs addr laws.order h.known in
      let (r, arrives, addr', uid', key, type', time, on) =
        made-arrives random now uid type addr net s h o in
      (
        request_with host wide sodium random now net uid type s,
        rw (rcreate, o.to_net) refl,
        r,
        arrives,
        addr',
        uid',
        key,
        type',
        time,
        on,
      )
