-- ===== src/Tests/Contacts.antt =====
-- handlers.c on two nodes that list each other.
use soter.Base.{ℕ, ◌≡◌, refl, true, List, [], ◌∷◌, ◌++◌, nat_bytes, ◌*◌}
use soter.Proto.{Pack, filled, pack_ack, pack_hello, pack_punch}
use soter.Table.{get, find_idx, find_idx_from, Grants}
use soter.PeerDb.{Peer, LightPeer, Db, inited, active, db_get}
use soter.Handlers.{Node, LightLayout, hnd_punch, hnd_ack}
use soter.Handlers.Handshake.{Knows, quick, handshake-active}
use soter.Tests.Peers.{two_keys, same_net}

abbrev pub granted : Grants
granted = record { key = true; val = true; array = true }

abbrev pub listed : ℕ → Peer ℕ ℕ
listed uid = record {
  server = 0;
  state = inited;
  uid = uid;
  last_seen = 5;
  pubkey = [];
  nfd = uid * 10;
  ctx = 0;
}

-- Each node of 1 and 2 has both in its database.
abbrev pub pair_db : Db ℕ ℕ
pair_db = record {
  flags = record { key = true; val = true };
  pairs = (1, listed 1) ∷ (2, listed 2) ∷ [];
}

abbrev node_of : ℕ → Node ℕ ℕ
node_of uid = record { self_uid = uid; db = pair_db; sent = [] }

one-Knows : Knows (node_of 1) 2 (listed 2)
unfolding db_get get find_idx find_idx_from
one-Knows = record { distinct = two_keys (listed 1) (listed 2); there = refl; own = refl }

two-Knows : Knows (node_of 2) 1 (listed 1)
unfolding db_get get find_idx find_idx_from
two-Knows = record { distinct = two_keys (listed 1) (listed 2); there = refl; own = refl }

-- The payload's first byte is the UID, the second the address.
abbrev light_of_bytes : List ℕ → LightPeer ℕ
light_of_bytes (u ∷ a ∷ _) = record { uid = u; server = 0; addr = a; pubkey = [] }
light_of_bytes _ = record { uid = 0; server = 0; addr = 0; pubkey = [] }

abbrev pub two_cells : LightLayout ℕ
two_cells = record { size = 2; light_of = light_of_bytes }

handshake-active_example :
    let punch = filled 0 1 2 pack_punch 0 [] in
    let b1 = (hnd_punch same_net two_cells granted 7 (node_of 2) punch 99).1 in
    let a1 = (hnd_ack (node_of 1) (quick (node_of 2) 1 pack_ack)).1 in
    let b2 = (hnd_ack b1 (quick (node_of 1) 2 pack_ack)).1 in
    Knows a1 2 (record (listed 2) { state = active })
    × Knows b2 1 (record (listed 1) { nfd = 99; state = active })
    × (b2.sent ≡ (node_of 2).sent ++ ((quick (node_of 2) 1 pack_ack, 99) ∷ []))
    × (a1.sent ≡ (node_of 1).sent ++ ((quick (node_of 1) 2 pack_ack, 20) ∷ []))
handshake-active_example =
    handshake-active same_net two_cells granted 7 0 [] (node_of 1) (node_of 2) 99 (listed 1)
      (listed 2) one-Knows two-Knows refl refl refl

-- Node 5 sends a HELLO that names peer 2.
abbrev hello : Pack
hello = filled 0 5 1 pack_hello 2 (2 ∷ 66 ∷ [])
