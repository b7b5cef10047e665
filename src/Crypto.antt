-- ===== src/Crypto.antt =====
-- code/devcore/crypto/src: sessions and key pairs over libsodium, which is a record of functions here.
pub mod Library
use soter.Base.{
  ℕ, ◌+◌, Bool, true, false, Option, none, some, List, [], ◌∷◌, ◌++◌, ltb, eqb, if◌then◌else◌,
  length, take, drop, get_elem?, replicate, add_size,
}
use soter.Proto.Machine.{Host}
use soter.Crypto.Library.{Sodium, SessionKeys}

-- `crypto_keypair`
pub record KeyPair : Type 0 where
  pub public_key : List ℕ
  pub private_key : List ℕ

-- `sign`
pub record Sign : Type 0 where
  pub id_pub : List ℕ
  pub id_sec : List ℕ

-- `crypto_kx_PUBLICKEYBYTES`, `crypto_sign_BYTES` and `crypto_aead_chacha20poly1305_IETF_ABYTES`
abbrev pub key_size : ℕ
key_size = 32

abbrev pub signature_size : ℕ
signature_size = 64

abbrev pub tag_size : ℕ
tag_size = 16

-- `hex` is how `snprintf` prints a byte with two digits.
unfoldable pub hexes : (ℕ → List ℕ) → List ℕ → List ℕ
hexes hex [] = []
hexes hex (b ∷ bs) = hex b ++ hexes hex bs

pub fingerprint : (ℕ → List ℕ) → List ℕ → List ℕ
unfolding hexes
fingerprint hex pubkey = hexes hex (take 8 pubkey)

module _ (sodium : Sodium) where
  -- The nonce is the counter behind four zeros.
  unfoldable pub nonce_bytes : ℕ → List ℕ
  nonce_bytes counter = replicate 4 0 ++ sodium.word64_bytes counter

  -- libsodium's encryption always succeeds; the counter comes back one higher, in 64 bits.
  unfoldable pub encrypt : SessionKeys → ℕ → List ℕ → List ℕ × ℕ
  encrypt sk counter raw = (sodium.seal raw (nonce_bytes counter) sk.tx, add_size counter 1)

  -- The counter stays where the packet is refused.
  unfoldable pub decrypt : SessionKeys → ℕ → List ℕ → Option (List ℕ) × ℕ
  decrypt sk counter ciphertext =
      if ltb (length ciphertext) tag_size
      then (none, counter)
      else elim (sodium.unseal ciphertext (nonce_bytes counter) sk.rx) [
        | none ↦ (none, counter)
        | some raw ↦ (some raw, add_size counter 1)
      ]

  unfoldable pub sign_data : Sign → List ℕ → List ℕ
  sign_data sgn msg = sodium.sign_detached msg sgn.id_sec

  unfoldable pub sign_verify : List ℕ → List ℕ → List ℕ → Bool
  sign_verify msg signature pub_key = sodium.verify_detached signature msg pub_key

  unfoldable pub handshake_server : List ℕ → KeyPair → Option SessionKeys
  handshake_server client_pubk kp = sodium.server_keys kp.public_key kp.private_key client_pubk

  unfoldable pub handshake_client : List ℕ → KeyPair → Option SessionKeys
  handshake_client server_pubk kp = sodium.client_keys kp.public_key kp.private_key server_pubk

  -- The first word of the key's hash.
  unfoldable pub pubkey_to_uid : Host → List ℕ → ℕ
  pubkey_to_uid host pubkey = host.word_of (take 4 (sodium.sha256 (take key_size pubkey)))

  unfoldable pub pubkey_and_uid_check : Host → List ℕ → ℕ → Bool
  unfolding pubkey_to_uid
  pubkey_and_uid_check host pubkey uid = eqb uid (pubkey_to_uid host pubkey)

  -- The blob that an address for other people is the text of: 58 is a colon.
  pub encode_pubkey_uid : Host → List ℕ → ℕ → List ℕ
  encode_pubkey_uid host pubkey uid =
      sodium.bin2base64 (take 32 pubkey ++ (58 ∷ host.bytes_of (host.htonl uid)))

  pub decode_pubkey_uid : Host → List ℕ → Option (List ℕ × ℕ)
  decode_pubkey_uid host text = elim (sodium.base642bin 37 text) [
    | none ↦ none
    | some blob ↦
        if eqb (length blob) 37
        then elim (get_elem? blob 32) [
          | none ↦ none
          | some c ↦
              if eqb c 58
              then some (take 32 blob, host.ntohl (host.word_of (take 4 (drop 33 blob))))
              else none
        ]
        else none
  ]

-- A file that can be written, and one that can be read with its contents.  `granted` tells whether
-- `fopen` succeeds, `written` how many elements `fwrite` reports.
unfoldable pub keypair_image : KeyPair → List ℕ
keypair_image kp = take 32 kp.public_key ++ take 32 kp.private_key

unfoldable pub keypair_of : List ℕ → KeyPair
keypair_of bytes = record { public_key = take 32 bytes; private_key = take 32 (drop 32 bytes) }

pub keypair_store : Bool → ℕ → KeyPair → Bool × Option (List ℕ)
keypair_store granted written kp =
    if granted
    then (if eqb written 1 then (true, some (keypair_image kp)) else (false, none))
    else (false, none)

-- `fread` of one element reports 1 where the file is long enough, else 0 and leaves in the block
-- what `partial` says.
pub keypair_load : (List ℕ → KeyPair → KeyPair) → KeyPair → Option (List ℕ) → Bool × KeyPair
unfolding keypair_of
keypair_load partial kp none = (false, kp)
keypair_load partial kp (some file) =
    if ltb (length file) 64 then (eqb 0 64, partial file kp) else (eqb 1 64, keypair_of file)

unfoldable pub sign_image : Sign → List ℕ
sign_image sgn = take 32 sgn.id_pub ++ take 64 sgn.id_sec

unfoldable pub sign_of : List ℕ → Sign
sign_of bytes = record { id_pub = take 32 bytes; id_sec = take 64 (drop 32 bytes) }

pub sign_store : Bool → ℕ → Sign → Bool × Option (List ℕ)
sign_store granted written sgn =
    if granted
    then (if eqb written 1 then (true, some (sign_image sgn)) else (false, none))
    else (false, none)

pub sign_load : (List ℕ → Sign → Sign) → Sign → Option (List ℕ) → Bool × Sign
unfolding sign_of
sign_load partial sgn none = (false, sgn)
sign_load partial sgn (some file) =
    if ltb (length file) 96 then (eqb 0 1, partial file sgn) else (eqb 1 1, sign_of file)
