-- ===== src/Handlers.antt =====
-- code/devcore/interface/src/handlers.c: what a node does with the packets that make and keep a
-- connection: PUNCH, ACK, PING, PONG, HELLO and HELLO2.  The handlers of gossip, state and TURN
-- packets hand their packet to those parts.  `pvd_sender_send` puts a copy into the sender's queue;
-- both it and `malloc` are taken to succeed there.
pub mod Handshake
pub mod Hello
use soter.Base.{
  ℕ, Bool, true, false, not, ◌&&◌, Option, none, some, List, [], ◌∷◌, ◌++◌, eqb, if◌then◌else◌,
}
use soter.Proto.{Pack, PackType, pack_ack, pack_pong, pack_hello2, msg_quick}
use soter.Table.{Status, ok, fail, Grants}
use soter.PeerDb.{
  Net, Peer, LightPeer, Db, PeerState, inited, natpunching, active, has_state, db_add, db_get,
  db_schange, db_unfd, db_utime, db_reconstruct,
}

-- What the handlers use of `app_context`, and the packets put into the sender's queue.
pub record Node (Addr Sock : Type 0) : Type 0 where
  pub self_uid : ℕ
  pub db : Db Addr Sock
  pub sent : List (Pack × Sock)

-- How a `light_peer_info` lies in memory: its size and what the bytes of a payload say.
pub record LightLayout (Addr : Type 0) : Type 0 where
  pub size : ℕ
  pub light_of : List ℕ → LightPeer Addr

module _ {Addr Sock : Type 0} where
  -- A message without data; a null packet is not sent.
  pub send_quick : Node Addr Sock → ℕ → ℕ → PackType → Sock → Node Addr Sock
  send_quick n to seq type nfd = elim (msg_quick true n.self_uid to seq type) [
    | none ↦ n
    | some pkt ↦ record n { sent = n.sent ++ ((pkt, nfd) ∷ []) }
  ]

  pub hnd_ack : Node Addr Sock → Pack → Status × Node Addr Sock
  unfolding send_quick
  hnd_ack n pck = elim (db_get n.db pck.h_from) [
    | none ↦ (fail, n)
    | some info ↦
        let n' = if has_state inited info then send_quick n info.uid 0 pack_ack info.nfd else n in
        (ok, record n' { db = (db_schange n'.db info.uid active).1 })
  ]

  -- The rest of the PUNCH handler, once the peer is in the database.
  pub punched : Node Addr Sock → Sock → Peer Addr Sock → Status × Node Addr Sock
  unfolding send_quick
  punched n nfd info =
      let found = record n { db = (db_unfd n.db info.uid nfd).1 } in
      if not (has_state inited info) && not (has_state natpunching info)
      then (fail, found)
      else let answered = send_quick found info.uid 0 pack_ack nfd in
        if has_state natpunching info
        then (ok, answered)
        else (ok, record answered { db = (db_schange answered.db info.uid natpunching).1 })

  pub hnd_ping : ℕ → Node Addr Sock → Pack → Sock → Status × Node Addr Sock
  unfolding send_quick
  hnd_ping now n pck nfd =
      let answered = send_quick n pck.h_from pck.seq pack_pong nfd in
      (ok, record answered { db = (db_utime now answered.db pck.h_from).1 })

  pub hnd_pong : ℕ → Node Addr Sock → Pack → Status × Node Addr Sock
  hnd_pong now n pck = (ok, record n { db = (db_utime now n.db pck.h_from).1 })

  pub hnd_hello2 : Node Addr Sock → Pack → Status × Node Addr Sock
  hnd_hello2 n pck = elim (db_get n.db pck.h_from) [
    | none ↦ (fail, n)
    | some info ↦ (ok, record n { db = (db_schange n.db pck.h_from active).1 })
  ]

module _ {Addr Sock : Type 0} (net : Net Addr Sock) (layout : LightLayout Addr) where
  -- An unknown peer is added with the UID that its payload gives.
  pub hnd_punch : Grants → ℕ → Node Addr Sock → Pack → Sock → Status × Node Addr Sock
  unfolding punched
  hnd_punch granted now n pck nfd =
      if eqb pck.h_from n.self_uid then (fail, n) else elim (db_get n.db pck.h_from) [
        | some info ↦ punched n nfd info
        | none ↦
            if not (eqb pck.d_size layout.size)
            then (fail, n)
            else let info = db_reconstruct net now (layout.light_of pck.data_bytes) in
              punched (record n { db = (db_add granted n.db info).1 }) nfd info
      ]

  pub hnd_hello : Grants → ℕ → Node Addr Sock → Pack → Sock → Status × Node Addr Sock
  unfolding send_quick
  hnd_hello granted now n pck nfd =
      if not (eqb pck.d_size layout.size)
      then (fail, n)
      else let info = record (db_reconstruct net now (layout.light_of pck.data_bytes)) {
        state = active;
      } in
        (
          ok,
          send_quick (record n { db = (db_add granted n.db info).1 }) pck.h_from 0 pack_hello2 nfd,
        )
