-- ===== src/Tests/Secrets.antt =====
-- e2ee between the nodes 1 and 2.
use soter.Base.{ℕ, ◌≡◌, refl, Bool, true, false, none, some, List, [], ◌∷◌, map, arith}
use soter.Tests.Protocol.{big_endian}
use soter.Tests.Toy.{toy, toy-IsCipher, identity, identity-IsSignPair, keys_of}
use soter.Crypto.{pubkey_to_uid}
use soter.Crypto.Library.{SessionKeys}
use soter.E2ee.{
  Connection, conn_init, handshake_init, handshake_resp, handshake_ended, e2ee_encrypt,
}
use soter.E2ee.Channel.{talk}
use soter.E2ee.Handshake.{Parties, handshake-talk}
use soter.E2ee.Loss.{monologue, talk_lost}

abbrev no_keys : SessionKeys
no_keys = record { rx = []; tx = [] }

parties : Parties toy big_endian (identity 1) (identity 2) (keys_of 5) (keys_of 6)
unfolding pubkey_to_uid
parties = record {
  alice_signs = identity-IsSignPair 1;
  bob_signs = identity-IsSignPair 2;
  alice_serves = omega arith;
  length_ka = refl;
  length_kb = refl;
  up = 1 ∷ [];
  down = 2 ∷ [];
  exchange = record { at_server = refl; at_client = refl };
}

abbrev chat : List (Bool × List ℕ)
chat = (true, 104 ∷ 105 ∷ []) ∷ (false, 33 ∷ []) ∷ []

handshake-talk_example :
    let a = conn_init toy big_endian (keys_of 5) no_keys (identity 1) (identity 2).id_pub in
    let b = conn_init toy big_endian (keys_of 6) no_keys (identity 2) (identity 1).id_pub in
    let (hello_a, a1) = handshake_init toy a (1 ∷ 2 ∷ 3 ∷ 4 ∷ []) in
    let (hello_b, b1) = handshake_init toy b (5 ∷ 6 ∷ 7 ∷ 8 ∷ []) in
    let (done_a, a2) = handshake_resp toy a1 hello_b in
    let (done_b, b2) = handshake_resp toy b1 hello_a in
    (done_a ≡ true) × (done_b ≡ true) × (talk toy a2 b2 chat ≡ map (λ m. some m.1) chat)
handshake-talk_example =
    handshake-talk toy big_endian (identity 1) (identity 2) (keys_of 5) (keys_of 6) no_keys
      (1 ∷ 2 ∷ 3 ∷ 4 ∷ []) (5 ∷ 6 ∷ 7 ∷ 8 ∷ []) chat toy-IsCipher parties refl refl
      (omega arith, (omega arith, _))

-- A node in the session.
abbrev ready : List ℕ → List ℕ → Connection
ready rx tx = record {
  st_signature = identity 1;
  st_other_pubkey = (identity 2).id_pub;
  skeys = record { rx = rx; tx = tx };
  kp = keys_of 5;
  hstate = handshake_ended;
  hs_as = true;
  tx_nonce = 3;
  rx_nonce = 3;
}

abbrev speaker : Connection
speaker = ready (1 ∷ []) (2 ∷ [])

abbrev hearer : Connection
hearer = ready (2 ∷ []) (1 ∷ [])

abbrev unheard : List (List ℕ)
unheard = (8 ∷ []) ∷ (9 ∷ []) ∷ []

talk_lost_example :
    talk toy (e2ee_encrypt toy speaker (7 ∷ [])).1 hearer (monologue unheard)
    ≡ map (λ m. none) unheard
talk_lost_example =
    talk_lost toy toy-IsCipher speaker hearer (7 ∷ []) unheard
      (record { from_ended = refl; to_ended = refl; same_key = refl; same_nonce = refl })
      (omega arith) (omega arith, (omega arith, _)) (omega arith)
