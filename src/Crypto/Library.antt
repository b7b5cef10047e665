-- ===== src/Crypto/Library.antt =====
-- libsodium under code/devcore/crypto/src: its functions, and what its documentation promises of them.
use soter.Base.{ℕ, ◌+◌, ◌≡◌, ◌≢◌, Bool, true, Option, none, some, List, length, size_mod, ◌<◌}

-- `crypto_session_keys`
pub record SessionKeys : Type 0 where
  pub rx : List ℕ
  pub tx : List ℕ

-- `seal` is crypto_aead_chacha20poly1305_ietf_encrypt of a message, a nonce and a key, `unseal` its
-- decryption; `server_keys` and `client_keys` are crypto_kx's of the own public and private key and
-- the other's public key.  `word64_bytes` is how the machine stores a `uint64_t`.
pub record Sodium : Type 0 where
  pub seal : List ℕ → List ℕ → List ℕ → List ℕ
  pub unseal : List ℕ → List ℕ → List ℕ → Option (List ℕ)
  pub sign_detached : List ℕ → List ℕ → List ℕ
  pub verify_detached : List ℕ → List ℕ → List ℕ → Bool
  pub server_keys : List ℕ → List ℕ → List ℕ → Option SessionKeys
  pub client_keys : List ℕ → List ℕ → List ℕ → Option SessionKeys
  pub sha256 : List ℕ → List ℕ
  pub bin2base64 : List ℕ → List ℕ
  pub base642bin : ℕ → List ℕ → Option (List ℕ)
  pub word64_bytes : ℕ → List ℕ

-- Authenticated encryption: a ciphertext is 16 bytes longer than the message, opens under its nonce
-- and key, and under no other nonce.
pub record IsCipher (sodium : Sodium) : Type 0 where
  pub length-seal : (m n k : List ℕ) → length n ≡ 12 → length (sodium.seal m n k) ≡ length m + 16
  pub unseal-seal :
      (m n k : List ℕ) → length n ≡ 12 → sodium.unseal (sodium.seal m n k) n k ≡ some m
  pub unseal_other :
      (m n n' k : List ℕ)
      → length n ≡ 12
      → length n' ≡ 12
      → n ≢ n'
      → sodium.unseal (sodium.seal m n k) n' k ≡ none
  pub length-word64_bytes : (x : ℕ) → length (sodium.word64_bytes x) ≡ 8
  pub word64_apart :
      (x y : ℕ)
      → x < size_mod
      → y < size_mod
      → sodium.word64_bytes x ≡ sodium.word64_bytes y
      → x ≡ y

-- A key pair for signatures, and two key pairs whose exchange gives the same session, the one's rx being
-- the other's tx.
pub record IsSignPair (sodium : Sodium) (public secret : List ℕ) : Type 0 where
  pub length_public : length public ≡ 32
  pub length-signed : (m : List ℕ) → length (sodium.sign_detached m secret) ≡ 64
  pub verifies :
      (m : List ℕ) → sodium.verify_detached (sodium.sign_detached m secret) m public ≡ true

pub record Exchange (sodium : Sodium) (pub_s sec_s pub_c sec_c a b : List ℕ) : Type 0 where
  pub at_server : sodium.server_keys pub_s sec_s pub_c ≡ some (record { rx = a; tx = b })
  pub at_client : sodium.client_keys pub_c sec_c pub_s ≡ some (record { rx = b; tx = a })
