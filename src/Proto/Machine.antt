-- ===== src/Proto/Machine.antt =====
-- The machine and the C library under the protocol: how a `uint32_t` lies in memory and what `htonl`
-- and `ntohl` do to one.  The protocol is to work on every host that keeps these laws.
use soter.Base.{ℕ, ◌<◌, ◌≡◌, List, length, u32_mod}

pub record Host : Type 0 where
  pub htonl : ℕ → ℕ
  pub ntohl : ℕ → ℕ
  pub bytes_of : ℕ → List ℕ
  pub word_of : List ℕ → ℕ
  pub htonl-lt : (x : ℕ) → htonl x < u32_mod
  pub ntohl-htonl : (x : ℕ) → x < u32_mod → ntohl (htonl x) ≡ x
  pub length-bytes_of : (x : ℕ) → length (bytes_of x) ≡ 4
  pub word_of-bytes_of : (x : ℕ) → x < u32_mod → word_of (bytes_of x) ≡ x
