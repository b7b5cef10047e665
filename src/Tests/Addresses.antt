-- ===== src/Tests/Addresses.antt =====
-- core.c with a library that prints an address as a single letter.
use soter.Base.{ℕ, ◌≡◌, refl, Option, none, some, [], ◌∷◌, arith, replicate}
use soter.Lownet.{Text, Inet, SockAddr, inet6, hton, ntoh, netfdq, nfd2addr}
use soter.Lownet.Addresses.{IsInet, is_inet6, netfdq-nfd2addr}

abbrev one_letter : Text → Option ℕ
one_letter [] = none
one_letter (c ∷ cs) = some c

abbrev letters : Inet
letters = record {
  pton4 = one_letter;
  ntop4 = λ a. a ∷ [];
  pton6 = λ t. some t;
  ntop6 = λ a. a;
  htons = λ p. p;
  ntohs = λ p. p;
  gethostbyname = λ t. none;
}

letters-IsInet : IsInet letters
letters-IsInet = record {
  pton4-ntop4 = λ a h. refl;
  pton6-ntop6 = λ a h. refl;
  htons-ntohs = λ p h. refl;
}

-- A link-local address on the interface 3.
abbrev local : SockAddr
local = inet6 (254 ∷ 128 ∷ replicate 14 0) 4000 0 3

netfdq-nfd2addr_example :
    (netfdq letters (nfd2addr letters local) ≡ inet6 (254 ∷ 128 ∷ replicate 14 0) 4000 0 0)
    × (netfdq letters (ntoh letters (hton letters (nfd2addr letters local)))
        ≡ inet6 (254 ∷ 128 ∷ replicate 14 0) 4000 0 0)
netfdq-nfd2addr_example =
    netfdq-nfd2addr letters letters-IsInet local
      (is_inet6 (254 ∷ 128 ∷ replicate 14 0) 4000 0 3 refl (omega arith))
