-- ===== src/Handlers/Hello.antt =====
-- handlers.c: what a HELLO packet does to the peer that its payload names.
use soter.Base.{ℕ, ◌≡◌, refl, true, some, [], ◌∷◌, ◌++◌, eqb, nat_bytes}
use soter.Proto.{Pack, pack_hello2, filled}
use soter.Table.{Grants, ok}
use soter.Table.Map.{IsMap}
use soter.PeerDb.{Net, Peer, active, db_add, db_get, db_reconstruct}
use soter.PeerDb.Updates.{db_add-known}
use soter.Handlers.{Node, LightLayout, hnd_hello}
use soter.Handlers.Handshake.{send_quick-granted}

module _ {Addr Sock : Type 0} (net : Net Addr Sock) (layout : LightLayout Addr) where
  -- The peer that a HELLO's payload describes.
  abbrev pub greeted : ℕ → Pack → Peer Addr Sock
  greeted now pck = record (db_reconstruct net now (layout.light_of pck.data_bytes)) {
    state = active;
  }

  -- A HELLO of the right size is accepted from anyone: the entry of the known peer that its payload
  -- names is replaced by what the payload says, whoever sent the packet, that peer is active, and the
  -- answer goes to the sender.
  pub hnd_hello-known :
      (granted : Grants) (now : ℕ) (n : Node Addr Sock) (pck : Pack) (nfd : Sock)
      (old : Peer Addr Sock)
      → IsMap n.db.pairs
      → eqb pck.d_size layout.size ≡ true
      → db_get n.db (greeted now pck).uid ≡ some old
      → let r = hnd_hello net layout granted now n pck nfd in
        (r.0 ≡ ok)
        × (db_get r.1.db (greeted now pck).uid ≡ some (greeted now pck))
        × (r.1.sent ≡ n.sent ++ ((filled 0 n.self_uid pck.h_from pack_hello2 0 [], nfd) ∷ []))
  unfolding hnd_hello
  hnd_hello-known granted now n pck nfd old m size there =
      let added : Node Addr Sock = record n { db = (db_add granted n.db (greeted now pck)).1 } in
      rw (hnd_hello, size, send_quick-granted added pck.h_from 0 pack_hello2 nfd)
        (refl, (db_add-known granted n.db (greeted now pck) old m there).1, refl)
