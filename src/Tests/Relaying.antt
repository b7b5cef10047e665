-- ===== src/Tests/Relaying.antt =====
-- packets.c of the relay on an address of zeros, as that of an IPv4 peer is behind its first bytes.
use soter.Base.{ℕ, ◌≡◌, refl, some, List, [], ◌∷◌, replicate, true, nat_bytes, arith, ◌++◌}
use soter.Turn.{req_recv, pair_hash, hash_words, hash_end}
use soter.Turn.{TurnRequest, check_pair}
use soter.Turn.Service.{Relay, Memory, done, hnd_turn}
use soter.Turn.Service.Holes.{Opens, plenty, hnd_turn-open}
use soter.Proto.{Pack, filled, pack_turn}
use soter.PeerDb.{db_get, db_linfo}
use soter.Table.Map.{keys}
use soter.Table.{ok, get, find_idx, find_idx_from}
use soter.Tests.Protocol.{big_endian}
use soter.Tests.Peers.{same_net}
use soter.Tests.Contacts.{pair_db, listed, two_cells}

abbrev address : List ℕ
address = replicate 52 0

-- The hash of a pair depends on its order.
pair_hash_order : (pair_hash 1 2 ≡ 2051418428) × (pair_hash 2 1 ≡ 316445993)
unfolding pair_hash hash_words hash_end
pair_hash_order = (refl, refl)

abbrev memory : Memory ℕ ℕ
memory = record { host = big_endian; addr_bytes = λ a. address; hton = λ a. a; netfdq = λ a. 0 }

abbrev relay : Relay ℕ ℕ
relay = record {
  turn = record {
    turn_suid = 9;
    truid = 0;
    binded_clients = record { flags = record { key = true; val = true }; pairs = [] };
  };
  requests = record {
    turn_suid = 9;
    truid = 0;
    sys_requests = record { flags = record { key = true; val = true }; pairs = [] };
  };
  db = pair_db;
  sent = [];
  heard = [];
}

-- Peer 1 asks for a hole to peer 2.
abbrev wish : TurnRequest
wish = record {
  type = 0;
  to_uid = 2;
  truid = 3;
  to_whom = address;
  d_size = 2;
  data_bytes = 2 ∷ 7 ∷ [];
}

abbrev wish_pack : Pack
wish_pack =
    filled 0 1 9 pack_turn 70
      (address ++ (0 ∷ 0 ∷ 0 ∷ 0 ∷ 0 ∷ 0 ∷ 0 ∷ 2 ∷ 0 ∷ 0 ∷ 0 ∷ 2 ∷ 0 ∷ 0 ∷ 0 ∷ 3 ∷ 2 ∷ 7 ∷ []))

wish-Opens : Opens memory same_net two_cells relay wish_pack wish (listed 1)
unfolding req_recv db_get get find_idx find_idx_from keys
wish-Opens = record {
  long = omega arith;
  read = refl;
  opens = refl;
  whole = refl;
  known = refl;
  distinct = λ k. omega arith;
}

hnd_turn-open_example :
    (n' : Relay ℕ ℕ) × (hnd_turn memory same_net two_cells plenty 0 0 relay wish_pack 33
      ≡ done ok n')
    × (get n'.turn.binded_clients 1
        ≡ some (record {
          linfo_connected = two_cells.light_of (2 ∷ 7 ∷ []);
          linfo_origin = db_linfo same_net (listed 1);
        }))
    × (check_pair n'.turn 1 2 ≡ check_pair relay.turn 1 2)
unfolding pair_hash hash_words hash_end
hnd_turn-open_example =
    hnd_turn-open memory same_net two_cells 0 0 relay wish_pack 33 wish (listed 1) 1 2 wish-Opens
      refl
