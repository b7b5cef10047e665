-- ===== src/Lownet/Addresses.antt =====
-- core.c: what survives the conversions of an address, and when two are the same.
use soter.Base.{
  ℕ, ◌<◌, ◌≡◌, refl, sym, ap, ap₂, ◌∙◌, Bool, true, false, ◌&&◌, some, List, [], ◌∷◌, length, eqb,
  eqb_refl, eqb→eq, if◌then◌else◌, Bool-cases, inl, inr, ◌↔◌,
}
use mathlib.Core.Path.{subst}
use soter.Lownet.{
  Text, Naddr, v4, v6, SockAddr, inet, inet6, unknown, Inet, same_text, addrcmp, netfd, netfdq,
  nfd2addr, hton, ntoh,
}

-- What the C library documents: a binary address is printed as a text that is read as that address, and
-- the two orders of a port are each other's inverse, in 16 bits.
pub record IsInet (lib : Inet) : Type 0 where
  pub pton4-ntop4 : (a : ℕ) → a < 4294967296 → lib.pton4 (lib.ntop4 a) ≡ some a
  pub pton6-ntop6 : (a : List ℕ) → length a ≡ 16 → lib.pton6 (lib.ntop6 a) ≡ some a
  pub htons-ntohs : (p : ℕ) → p < 65536 → lib.htons (lib.ntohs p) ≡ p

-- The address and the port have their widths, and the family is a known one.
pub data IsSock : SockAddr → Type 0 where
  is_inet : (a p : ℕ) → a < 4294967296 → p < 65536 → IsSock (inet a p)
  is_inet6 :
      (a : List ℕ) (p flow scope : ℕ) → length a ≡ 16 → p < 65536 → IsSock (inet6 a p flow scope)

-- A socket address without flow information and scope.
abbrev pub plain : SockAddr → SockAddr
plain (inet a p) = inet a p
plain (inet6 a p flow scope) = inet6 a p 0 0
plain unknown = unknown

module _ (lib : Inet) (laws : IsInet lib) where
  -- The address of a packet's sender comes back from the text it is kept as, also after it has travelled
  -- in network order, but for the flow information and the scope of an IPv6 address, which are 0
  -- then: the answer to a link-local sender has lost its interface.
  pub netfdq-nfd2addr :
      (s : SockAddr)
      → IsSock s
      → (netfdq lib (nfd2addr lib s) ≡ plain s)
        × (netfdq lib (ntoh lib (hton lib (nfd2addr lib s))) ≡ plain s)
  unfolding netfdq netfd nfd2addr hton ntoh
  netfdq-nfd2addr (inet a p) (is_inet _ _ ha hp) =
      let port : lib.htons (lib.ntohs p) ≡ p = laws.htons-ntohs p hp in
      (
        rw (netfdq, netfd, laws.pton4-ntop4 a ha, port) refl,
        rw (netfdq, netfd, laws.pton4-ntop4 a ha, ap lib.ntohs port, port) refl,
      )
  netfdq-nfd2addr (inet6 a p flow scope) (is_inet6 _ _ _ _ ha hp) =
      let port : lib.htons (lib.ntohs p) ≡ p = laws.htons-ntohs p hp in
      (
        rw (netfdq, netfd, laws.pton6-ntop6 a ha, port) refl,
        rw (netfdq, netfd, laws.pton6-ntop6 a ha, ap lib.ntohs port, port) refl,
      )
  netfdq-nfd2addr unknown is = elim is [ ]

same_text_refl : (xs : Text) → same_text xs xs ≡ true
unfolding same_text
same_text_refl [] = refl
same_text_refl (x ∷ xs) = rw (eqb_refl x) (same_text_refl xs)

same_text-eq : (xs ys : Text) → same_text xs ys ≡ true → xs ≡ ys
unfolding same_text
same_text-eq [] [] e = refl
same_text-eq [] (y ∷ ys) e = cc
same_text-eq (x ∷ xs) [] e = cc
same_text-eq (x ∷ xs) (y ∷ ys) e = elim (Bool-cases (eqb x y)) [
  | inl same ↦
      ap₂ (λ a rest. a ∷ rest) (eqb→eq x y same)
        (same_text-eq xs ys (sym (ap (λ b. if b then same_text xs ys else false) same) ∙ e))
  | inr other ↦ cc
]

both : (a b : Bool) → (a && b) ≡ true → (a ≡ true) × (b ≡ true)
both true true e = (refl, refl)
both true false e = cc
both false b e = cc

addrcmp-eq : (a b : Naddr) → addrcmp a b ≡ true → a ≡ b
unfolding addrcmp
addrcmp-eq (v4 ip port) (v4 ip' port') e =
    let (p, t) = both (eqb port port') (same_text ip ip') e in
    ap₂ v4 (same_text-eq ip ip' t) (eqb→eq port port' p)
addrcmp-eq (v4 ip port) (v6 ip' port') e = cc
addrcmp-eq (v6 ip port) (v4 ip' port') e = cc
addrcmp-eq (v6 ip port) (v6 ip' port') e =
    let (p, t) = both (eqb port port') (same_text ip ip') e in
    ap₂ v6 (same_text-eq ip ip' t) (eqb→eq port port' p)

addrcmp_refl : (a : Naddr) → addrcmp a a ≡ true
unfolding addrcmp
addrcmp_refl (v4 ip port) = rw (eqb_refl port) (same_text_refl ip)
addrcmp_refl (v6 ip port) = rw (eqb_refl port) (same_text_refl ip)

-- The comparison of two addresses is true exactly where they are the same.
pub addrcmp_lem : (a b : Naddr) → (addrcmp a b ≡ true) ↔ (a ≡ b)
addrcmp_lem a b = (addrcmp-eq a b, λ e. subst (λ c. addrcmp a c ≡ true) e (addrcmp_refl a))
