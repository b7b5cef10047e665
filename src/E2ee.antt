-- ===== src/E2ee.antt =====
-- code/devcore/e2ee/src/connection.c: an encrypted channel between two nodes that know each other's
-- identity.
pub mod Handshake
pub mod Channel
pub mod Loss
use soter.Base.{
  ℕ, ◌+◌, ◌-◌, Bool, true, false, not, Option, none, some, List, [], ◌++◌, ltb, if◌then◌else◌,
  length, take, drop, replicate,
}
use soter.Proto.{udp_mtu, overhead}
use soter.Proto.Machine.{Host}
use soter.Crypto.Library.{Sodium, SessionKeys}
use soter.Crypto.{
  KeyPair, Sign, key_size, signature_size, tag_size, pubkey_to_uid, encrypt, decrypt, sign_data,
  sign_verify, handshake_server, handshake_client, keypair_load, keypair_store,
}

-- `e2ee_hs_state`
pub data HandshakeState : Type 0 where
  not_handshaked handshake_sent handshake_ended : HandshakeState

-- `e2ee_connection`
pub record Connection : Type 0 where
  pub st_signature : Sign
  pub st_other_pubkey : List ℕ
  pub skeys : SessionKeys
  pub kp : KeyPair
  pub hstate : HandshakeState
  pub hs_as : Bool
  pub tx_nonce : ℕ
  pub rx_nonce : ℕ

-- `e2ee_handshake`, the nonce as its bytes in memory.
pub record Hello : Type 0 where
  pub nonce : List ℕ
  pub x25519_pubkey : List ℕ
  pub signature : List ℕ

pub has_ended : HandshakeState → Bool
has_ended not_handshaked = false
has_ended handshake_sent = false
has_ended handshake_ended = true

-- The bytes that the packed structure is.
unfoldable pub hello_image : Hello → List ℕ
hello_image hs = hs.nonce ++ (hs.x25519_pubkey ++ hs.signature)

unfoldable pub hello_of : List ℕ → Hello
hello_of buf = record {
  nonce = take 4 buf;
  x25519_pubkey = take key_size (drop 4 buf);
  signature = take signature_size (drop 36 buf);
}

-- What is signed.
unfoldable pub signature_payload : Hello → List ℕ
signature_payload hs = hs.nonce ++ hs.x25519_pubkey

-- The largest message: what a packet holds less the tag.
abbrev pub biggest_size : ℕ
biggest_size = udp_mtu - overhead - tag_size

module _ (sodium : Sodium) where
  -- `fresh` is the key pair that libsodium makes, `garbage` what the session keys are until they are set.
  unfoldable pub conn_init : Host → KeyPair → SessionKeys → Sign → List ℕ → Connection
  unfolding pubkey_to_uid
  conn_init host fresh garbage my_signature st_other_pubkey = record {
    hstate = not_handshaked;
    hs_as =
        ltb (pubkey_to_uid sodium host my_signature.id_pub)
          (pubkey_to_uid sodium host st_other_pubkey);
    st_signature = my_signature;
    kp = fresh;
    st_other_pubkey = take key_size st_other_pubkey;
    skeys = garbage;
    tx_nonce = 0;
    rx_nonce = 0;
  }

  -- A refusal, or the bytes that are written to `outbuf`.
  pub e2ee_encrypt : Connection → List ℕ → Option (List ℕ) × Connection
  unfolding has_ended
  e2ee_encrypt conn data_bytes =
      if not (has_ended conn.hstate)
      then (none, conn)
      else if ltb biggest_size (length data_bytes)
      then (none, conn)
      else let r = encrypt sodium conn.skeys conn.tx_nonce data_bytes in
        (some r.0, record conn { tx_nonce = r.1 })

  pub e2ee_decrypt : Connection → List ℕ → Option (List ℕ) × Connection
  unfolding has_ended
  e2ee_decrypt conn inpbuf =
      if not (has_ended conn.hstate)
      then (none, conn)
      else if ltb (length inpbuf) tag_size
      then (none, conn)
      else let r = decrypt sodium conn.skeys conn.rx_nonce inpbuf in
        (r.0, record conn { rx_nonce = r.1 })

  -- `random` are the four bytes of `randombytes_random`.
  pub handshake_init : Connection → List ℕ → List ℕ × Connection
  handshake_init conn random =
      let bare : Hello = record {
        nonce = random;
        x25519_pubkey = conn.kp.public_key;
        signature = [];
      } in
      let signature = sign_data sodium conn.st_signature (signature_payload bare) in
      (hello_image (record bare { signature = signature }), record conn { hstate = handshake_sent })

  -- The session keys as server or as client.
  pub session : Connection → List ℕ → Option SessionKeys
  session conn other =
      if conn.hs_as
      then handshake_server sodium other conn.kp
      else handshake_client sodium other conn.kp

  pub handshake_resp : Connection → List ℕ → Bool × Connection
  handshake_resp conn buf =
      let hs = hello_of buf in
      if sign_verify sodium (signature_payload hs) hs.signature conn.st_other_pubkey
      then elim (session conn hs.x25519_pubkey) [
        | none ↦ (false, conn)
        | some keys ↦ (true, record conn { skeys = keys; hstate = handshake_ended })
      ]
      else (false, conn)

-- A file is there with its contents or not; what is stored comes back with the status.
pub load_keypair : (List ℕ → KeyPair → KeyPair) → Connection → Option (List ℕ) → Bool × Connection
load_keypair partial conn file =
    let (status, kp) = keypair_load partial conn.kp file in (status, record conn { kp = kp })

pub save_keypair : Bool → ℕ → Connection → Bool × Option (List ℕ)
save_keypair granted written conn = keypair_store granted written conn.kp

-- `e2ee_conn_upd_keypair`: the status, the connection and the file afterwards.
pub upd_keypair :
    (List ℕ → KeyPair → KeyPair)
    → Bool
    → ℕ
    → Connection
    → Option (List ℕ)
    → Bool × Connection × Option (List ℕ)
upd_keypair partial granted written conn file = elim file [
  | some bytes ↦
      let (status, loaded) = load_keypair partial conn (some bytes) in (status, loaded, some bytes)
  | none ↦ let (status, stored) = save_keypair granted written conn in (status, conn, stored)
]
