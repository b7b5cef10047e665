-- ===== src/Tests/Natting.antt =====
-- natpunch on answers of a STUN server.
use Prim.Native.Nat.{bit_xor}
use soter.Base.{ℕ, ◌≡◌, refl, true, false, some, List, [], ◌∷◌, arith, replicate}
use soter.Natpunch.{discovered, be_from, is_xor, parse, magic_cookie}
use soter.Natpunch.Attributes.{Other, IsOther, is_unfinished}
use soter.Natpunch.Answers.{answer, parse-ends}
use soter.Natpunch.Mapped.{parse-mapped_address}
use soter.Natpunch.Nat.{World, nat_error, parallel_req, parallel_req-many}

abbrev id : List ℕ
id = replicate 12 7

-- The server's name, 6 bytes and their padding.
abbrev software : Other
software = record {
  type_high = 0x80;
  type_low = 0x22;
  len_high = 0;
  len_low = 6;
  body = replicate 8 65;
}

software-IsOther : IsOther software
unfolding be_from is_xor
software-IsOther = record { padded = refl; not_xor = refl; not_mapped = refl }

parse-mapped_address_example :
    parse (
      answer 0 24 id
        (software ∷ [])
        (0 ∷ 0x20 ∷ 0 ∷ 8 ∷ 0 ∷ 1 ∷ 0x31 ∷ 0x3A ∷ 0xE1 ∷ 0xBA ∷ 0xA4 ∷ 0x43 ∷ []))
    ≡ discovered
        (bit_xor (be_from 0 (0xE1 ∷ 0xBA ∷ 0xA4 ∷ 0x43 ∷ [])) magic_cookie)
        (bit_xor (be_from 0 (0x31 ∷ 0x3A ∷ [])) 0x2112)
unfolding be_from is_xor
parse-mapped_address_example =
    parse-mapped_address 0 24 0 0x31 0x3A 0xE1 0xBA 0xA4 0x43 id (software ∷ []) refl
      (software-IsOther, _) refl refl (omega arith)

-- This is 192.168.0.1, port 4136.
xored_address :
    (bit_xor (be_from 0 (0xE1 ∷ 0xBA ∷ 0xA4 ∷ 0x43 ∷ [])) magic_cookie ≡ 0xC0A80001)
    × (bit_xor (be_from 0 (0x31 ∷ 0x3A ∷ [])) 0x2112 ≡ 4136)
unfolding be_from
xored_address = (refl, refl)

parse-ends_example : is_unfinished (parse (answer 4 0 id [] (replicate 30 9))) ≡ false
parse-ends_example = parse-ends (answer 4 0 id [] (replicate 30 9))

abbrev world : World ℕ
world = record { binds = λ n port. true; port_from = λ n a. some 4136 }

parallel_req-many_example :
    parallel_req some world (λ q. q) (λ n. 4136) (replicate 11 5) ≡ some nat_error
parallel_req-many_example =
    parallel_req-many some world (λ q. q) (λ n. 4136) (replicate 11 5) (λ q. refl) (omega arith)
