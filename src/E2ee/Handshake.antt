-- ===== src/E2ee/Handshake.antt =====
-- connection.c: two nodes shake hands.
use soter.Base.{
  ℕ, ◌≤◌, ◌<◌, ◌≡◌, refl, sym, ap, ap₂, ◌∙◌, Bool, true, some, List, [], ◌++◌, map, arith, length,
  take, drop, All, lt→ltb, le→not-ltb, take-length-append, drop-length-append, take-length,
  drop-append,
}
use soter.Proto.Machine.{Host}
use soter.Crypto.{
  KeyPair, Sign, pubkey_to_uid, sign_data, sign_verify, handshake_server, handshake_client,
}
use soter.Crypto.Library.{Sodium, SessionKeys, IsCipher, IsSignPair, Exchange}
use soter.E2ee.{
  Connection, Hello, handshake_ended, biggest_size, hello_image, hello_of, signature_payload,
  conn_init, handshake_init, session, handshake_resp,
}
use soter.E2ee.Channel.{Linked, talk, talk-Linked}

take_whole : (n : ℕ) (xs : List ℕ) → length xs ≡ n → take n xs ≡ xs
take_whole n xs e = ap (λ k. take k xs) (sym e) ∙ take-length xs

hello_of-hello_image :
    (hs : Hello)
    → length hs.nonce ≡ 4
    → length hs.x25519_pubkey ≡ 32
    → length hs.signature ≡ 64
    → hello_of (hello_image hs) ≡ hs
unfolding hello_of hello_image
hello_of-hello_image hs en ek es =
    let behind : List ℕ = hs.x25519_pubkey ++ hs.signature in
    let first : take 4 (hs.nonce ++ behind) ≡ hs.nonce =
      take-length-append hs.nonce behind 4 (sym en) in
    let second : take 32 (drop 4 (hs.nonce ++ behind)) ≡ hs.x25519_pubkey =
      ap (take 32) (drop-length-append hs.nonce behind 4 (sym en))
      ∙ take-length-append hs.x25519_pubkey hs.signature 32 (sym ek) in
    let third : take 64 (drop 36 (hs.nonce ++ behind)) ≡ hs.signature =
      ap (take 64) (
        drop-append hs.nonce behind 36 32 (omega (arith, en))
        ∙ drop-length-append hs.x25519_pubkey hs.signature 32 (sym ek))
      ∙ take_whole 64 hs.signature es in
    λ i. record { nonce = first i; x25519_pubkey = second i; signature = third i }

module _ (sodium : Sodium) where
  abbrev hello_by : Connection → List ℕ → Hello
  hello_by conn random =
      let bare : Hello = record {
        nonce = random;
        x25519_pubkey = conn.kp.public_key;
        signature = [];
      } in
      record bare { signature = sign_data sodium conn.st_signature (signature_payload bare) }

  -- A hello that was made by the holder of the key that is expected is answered with the session.
  handshake_resp-hello :
      (a b : Connection) (random : List ℕ) (keys : SessionKeys)
      → IsSignPair sodium b.st_signature.id_pub b.st_signature.id_sec
      → a.st_other_pubkey ≡ b.st_signature.id_pub
      → length random ≡ 4
      → length b.kp.public_key ≡ 32
      → session sodium a b.kp.public_key ≡ some keys
      → handshake_resp sodium a (handshake_init sodium b random).0
        ≡ (true, record a { skeys = keys; hstate = handshake_ended })
  unfolding handshake_resp handshake_init sign_data sign_verify signature_payload
  handshake_resp-hello a b random keys signs known en ek agreed =
      let hs : Hello = hello_by b random in
      let payload : List ℕ = random ++ b.kp.public_key in
      let read : hello_of (hello_image hs) ≡ hs =
        hello_of-hello_image hs en ek (signs.length-signed payload) in
      rw
        (
          handshake_resp,
          read,
          ap (sodium.verify_detached (sodium.sign_detached payload b.st_signature.id_sec) payload)
                known
              ∙ signs.verifies payload,
          agreed,
        )
        refl

-- Two identities of different UIDs, the first's being the smaller, fresh key pairs, and the
-- session that libsodium makes of these.
pub record Parties (sodium : Sodium) (host : Host) (alice bob : Sign) (ka kb : KeyPair)
    : Type 0 where
  pub alice_signs : IsSignPair sodium alice.id_pub alice.id_sec
  pub bob_signs : IsSignPair sodium bob.id_pub bob.id_sec
  pub alice_serves : pubkey_to_uid sodium host alice.id_pub < pubkey_to_uid sodium host bob.id_pub
  pub length_ka : length ka.public_key ≡ 32
  pub length_kb : length kb.public_key ≡ 32
  pub up : List ℕ
  pub down : List ℕ
  pub exchange : Exchange sodium ka.public_key ka.private_key kb.public_key kb.private_key up down

module _ (sodium : Sodium) (host : Host) where
  -- Each has sent its hello and got that of the other.
  abbrev pub met : Connection → Connection → List ℕ → Bool × Connection
  met a b random =
      handshake_resp sodium (handshake_init sodium a random).1 (handshake_init sodium b random).0

  -- Two nodes of different UIDs that have just been set up, and that both make their hello before
  -- either receives the other's: when each then receives the other's, the handshake has succeeded on
  -- both sides, and each hears whatever the other says, in order, whoever speaks, in messages that
  -- are not too long for a packet.  The first node is the one of the smaller UID.
  pub handshake-talk :
      (alice bob : Sign) (ka kb : KeyPair) (garbage : SessionKeys) (ra rb : List ℕ)
      (ms : List (Bool × List ℕ))
      → IsCipher sodium
      → Parties sodium host alice bob ka kb
      → length ra ≡ 4
      → length rb ≡ 4
      → All (λ m. length m.1 ≤ biggest_size) ms
      → let a = conn_init sodium host ka garbage alice bob.id_pub in
        let b = conn_init sodium host kb garbage bob alice.id_pub in
        let (hello_a, a1) = handshake_init sodium a ra in
        let (hello_b, b1) = handshake_init sodium b rb in
        let (done_a, a2) = handshake_resp sodium a1 hello_b in
        let (done_b, b2) = handshake_resp sodium b1 hello_a in
        (done_a ≡ true) × (done_b ≡ true) × (talk sodium a2 b2 ms ≡ map (λ m. some m.1) ms)
  unfolding conn_init session handshake_init handshake_server handshake_client Linked
  handshake-talk alice bob ka kb garbage ra rb ms cipher p ea eb shorts =
      let a : Connection = conn_init sodium host ka garbage alice bob.id_pub in
      let b : Connection = conn_init sodium host kb garbage bob alice.id_pub in
      let a1 : Connection = (handshake_init sodium a ra).1 in
      let b1 : Connection = (handshake_init sodium b rb).1 in
      let x = p.exchange in
      let keys_a : SessionKeys = record { rx = p.up; tx = p.down } in
      let keys_b : SessionKeys = record { rx = p.down; tx = p.up } in
      let serves : session sodium a1 kb.public_key ≡ some keys_a =
        rw
          (lt→ltb (pubkey_to_uid sodium host alice.id_pub) (pubkey_to_uid sodium host bob.id_pub)
            p.alice_serves)
          x.at_server in
      let asks : session sodium b1 ka.public_key ≡ some keys_b =
        rw
          (le→not-ltb (pubkey_to_uid sodium host bob.id_pub)
            (pubkey_to_uid sodium host alice.id_pub) (omega (arith, p.alice_serves)))
          x.at_client in
      let at_a : handshake_resp sodium a1 (handshake_init sodium b rb).0
          ≡ (true, record a1 { skeys = keys_a; hstate = handshake_ended }) =
        handshake_resp-hello sodium a1 b rb keys_a p.bob_signs
          (take_whole 32 bob.id_pub p.bob_signs.length_public) eb p.length_kb serves in
      let at_b : handshake_resp sodium b1 (handshake_init sodium a ra).0
          ≡ (true, record b1 { skeys = keys_b; hstate = handshake_ended }) =
        handshake_resp-hello sodium b1 a ra keys_b p.alice_signs
          (take_whole 32 alice.id_pub p.alice_signs.length_public) ea p.length_ka asks in
      (
        ap (λ r. r.0) at_a,
        ap (λ r. r.0) at_b,
        ap₂ (λ r s. talk sodium r.1 s.1 ms) at_a at_b
            ∙ talk-Linked sodium cipher (record a1 { skeys = keys_a; hstate = handshake_ended })
                (record b1 { skeys = keys_b; hstate = handshake_ended }) ms
                (
                  record { from_ended = refl; to_ended = refl; same_key = refl; same_nonce = refl },
                  record { from_ended = refl; to_ended = refl; same_key = refl; same_nonce = refl },
                )
                shorts,
      )
