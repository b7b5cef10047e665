-- ===== src/Tests/States.antt =====
-- stating between two nodes on machines in network order.
use soter.Base.{
  drop, ℕ, ◌≡◌, refl, Bool, false, none, some, ◌++◌, ◌⊎◌, List, [], ◌∷◌, arith, replicate,
}
use soter.Proto.{pack_state, filled}
use soter.Crypto.{pubkey_to_uid, sign_data}
use soter.Stating.{
  StateRequest, StateSystem, request_image, request_with, rcreate, received, rreceive, retranslate,
  hnd_state,
}
use soter.Stating.Address.{laid_out, is_v4}
use soter.Stating.Machine.{Wide, IsWide}
use soter.Stating.Signed.{Honest, rreceive-rcreate}
use soter.Stating.Entries.{Adds, Endless}
use soter.Stating.Answers.{hnd_state-Adds}
use soter.Tests.Protocol.{big_endian}
use soter.Tests.Toy.{toy, identity, identity-IsSignPair}

abbrev first_of : List ℕ → ℕ
first_of [] = 0
first_of (x ∷ xs) = x

-- A word of 64 bits in a single cell.
abbrev one_cell : Wide
one_cell = record {
  bytes_of64 = λ x. x ∷ replicate 7 0;
  word_of64 = first_of;
  htons = λ p. p;
  ntohs = λ p. p;
}

one_cell-IsWide : IsWide big_endian one_cell
one_cell-IsWide = record {
  htonl_twice = λ x h. omega (arith, h);
  length-bytes_of64 = λ x. refl;
  word_of64-bytes_of64 = λ x h. refl;
  order = record { length-htons = λ p h. h; ntohs-htons = λ p h. refl };
}

-- The address 8, port 80.
abbrev address : List ℕ
address = laid_out big_endian 0 ((56 ∷ []) ++ replicate 15 0) (0 ∷ 80 ∷ []) 30

two-Honest : Honest big_endian one_cell toy one_cell-IsWide 77 1000 2 address (identity 2)
unfolding pubkey_to_uid
two-Honest = record {
  known = is_v4 (56 ∷ []) (0 ∷ 80 ∷ []) (refl, _) (omega arith) refl;
  signs = identity-IsSignPair 2;
  own_uid = refl;
  uid_lt = omega arith;
  random_lt = omega arith;
  now_lt = omega arith;
}

rreceive-rcreate_example :
    (req : StateRequest) × (rcreate big_endian one_cell toy 77 1000 address 2 0 (identity 2)
      ≡ some req)
    × (r : StateRequest) × (rreceive big_endian one_cell toy
          (request_image big_endian one_cell toy req)
        ≡ received r)
    × (r.addr ≡ address)
    × (r.uid ≡ 2)
    × (r.pubkey ≡ (identity 2).id_pub)
    × (r.type ≡ 0)
    × (r.timestamp ≡ 1000)
    × (retranslate big_endian one_cell toy r ≡ some req)
rreceive-rcreate_example =
    rreceive-rcreate big_endian one_cell toy one_cell-IsWide 77 1000 2 0 address (identity 2)
      two-Honest

abbrev quiet : StateSystem
quiet = record { new_state_ans = []; signalled = false }

-- One request, of node 2, as it is made.
abbrev payload : List ℕ
payload =
    0
    ∷ 0
    ∷ 0
    ∷ 1
    ∷ request_image big_endian one_cell toy
        (request_with big_endian one_cell toy 77 1000 address 2 0 (identity 2))

hnd_state-Adds_example :
    let packet = filled 0 9 1 pack_state 172 payload in
    ((hnd_state big_endian one_cell toy 1010 1 address quiet packet ≡ none)
      × Endless big_endian one_cell toy 1 (drop 4 payload))
    ⊎ ((good : Bool) × (sys' : StateSystem) × (hnd_state big_endian one_cell toy 1010 1 address
            quiet packet
          ≡ some (good, sys'))
        × Adds big_endian one_cell toy 1010 1 address 1 (drop 4 payload) quiet sys')
unfolding request_with request_image sign_data
hnd_state-Adds_example =
    hnd_state-Adds big_endian one_cell toy 1010 1 address (omega arith) quiet
      (filled 0 9 1 pack_state 172 payload) (omega arith)
