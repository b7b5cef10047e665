-- ===== src/Stating/Machine.antt =====
-- The machine below state requests: how a `uint64_t` lies in memory, what `htonll` and `ntohll` of
-- code/devcore/base/include/multithr/time.h do to one, and what `htons` and `ntohs` do to the two bytes
-- of a port.
use soter.Base.{
  ℕ, ◌+◌, ◌*◌, ◌/◌, ◌%◌, ◌<◌, ◌≡◌, refl, ap, ◌∙◌, List, length, size_mod, u32_mod, eqb,
  if◌then◌else◌, arith, Bool-cases, inl, inr,
}
use soter.Proto.Machine.{Host}
use soter.Stating.Address.{IsOrder}

-- How memory holds a `uint64_t`, and what is done to the bytes of a port.
pub record Wide : Type 0 where
  pub bytes_of64 : ℕ → List ℕ
  pub word_of64 : List ℕ → ℕ
  pub htons : List ℕ → List ℕ
  pub ntohs : List ℕ → List ℕ

-- The two halves do not overlap, so that their union is their sum.
unfoldable pub htonll : Host → ℕ → ℕ
htonll host x =
    if eqb (host.htonl 1) 1
    then x
    else host.htonl (x / u32_mod % u32_mod) + host.htonl (x % u32_mod) * u32_mod

unfoldable pub ntohll : Host → ℕ → ℕ
unfolding htonll
ntohll host x = htonll host x

-- Values survive the machine and the network, in 64 bits and for ports.
pub record IsWide (host : Host) (wide : Wide) : Type 0 where
  pub htonl_twice : (x : ℕ) → x < u32_mod → host.htonl (host.htonl x) ≡ x
  pub length-bytes_of64 : (x : ℕ) → length (wide.bytes_of64 x) ≡ 8
  pub word_of64-bytes_of64 : (x : ℕ) → x < size_mod → wide.word_of64 (wide.bytes_of64 x) ≡ x
  pub order : IsOrder wide.htons wide.ntohs

module _ (host : Host) (wide : Wide) (laws : IsWide host wide) where
  pub htonll-lt : (x : ℕ) → x < size_mod → htonll host x < size_mod
  unfolding htonll
  htonll-lt x h = elim (Bool-cases (eqb (host.htonl 1) 1)) [
    | inl e ↦ rw (e) h
    | inr e ↦
        rw (e) (omega (arith, host.htonl-lt (x / u32_mod % u32_mod), host.htonl-lt (x % u32_mod)))
  ]

  pub ntohll-htonll : (x : ℕ) → x < size_mod → ntohll host (htonll host x) ≡ x
  unfolding htonll ntohll
  ntohll-htonll x h = elim (Bool-cases (eqb (host.htonl 1) 1)) [
    | inl e ↦ rw (e) refl
    | inr e ↦
        let high : ℕ = host.htonl (x / u32_mod % u32_mod) in
        let low : ℕ = host.htonl (x % u32_mod) in
        let y : ℕ = high + low * u32_mod in
        let hh : high < u32_mod = host.htonl-lt (x / u32_mod % u32_mod) in
        let lh : low < u32_mod = host.htonl-lt (x % u32_mod) in
        let second : y / u32_mod % u32_mod ≡ low = omega (arith, hh, lh) in
        let first : y % u32_mod ≡ high = omega (arith, hh, lh) in
        let top : host.htonl (y / u32_mod % u32_mod) ≡ x % u32_mod =
          ap host.htonl second ∙ laws.htonl_twice (x % u32_mod) (omega arith) in
        let bottom : host.htonl (y % u32_mod) ≡ x / u32_mod % u32_mod =
          ap host.htonl first ∙ laws.htonl_twice (x / u32_mod % u32_mod) (omega arith) in
        rw (e) (omega (arith, top, bottom, h))
  ]
