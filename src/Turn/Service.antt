-- ===== src/Turn/Service.antt =====
-- code/devcore/interface/src/handlers.c: what a node does with a TURN packet.
pub mod Holes
use soter.Base.{
  ℕ, ◌+◌, Bool, true, false, not, Option, none, some, List, [], ◌∷◌, ◌++◌, ltb, eqb, if◌then◌else◌,
  take,
}
use soter.Proto.{Pack}
use soter.Proto.Machine.{Host}
use soter.Table.{Status, ok, fail, Grants}
use soter.PeerDb.{Net, Db, LightPeer, db_get, db_linfo}
use soter.Handlers.{LightLayout}
use soter.Turn.{
  TurnRequest, Client, BindPeer, RequestType, open_hole, close_hole, system_msg, data_msg,
  type_code, header_size, req_recv, dropped, taken, overread, pair_hash, client_bind, client_unbind,
  hash_words, hash_end,
}
use soter.Turn.Messages.{
  Requests, SysStatus, sst_ok, sst_fail, req_sys, qsend, unwrap_sys, Unwrapped,
}
use soter.Turn.Wrap.{Wrapped, refused, crashed, outgoing, client_unwrap}

-- What the handler uses of `app_context`: both tables of the TURN client, the peers, and the packets
-- handed to the sender and to the listener.
pub record Relay (Addr Sock : Type 0) : Type 0 where
  pub turn : Client Addr
  pub requests : Requests
  pub db : Db Addr Sock
  pub sent : List (Pack × Sock)
  pub heard : List (Pack × Sock)

-- An access outside of a block, or the handler's status.
pub data Handled (Addr Sock : Type 0) : Type 0 where
  crash : Handled Addr Sock
  done : Status → Relay Addr Sock → Handled Addr Sock

-- The machine and lownet under the handler: the memory of an address, the conversion of such memory
-- and the socket address that it stands for.
pub record Memory (Addr Sock : Type 0) : Type 0 where
  pub host : Host
  pub addr_bytes : Addr → List ℕ
  pub hton : List ℕ → List ℕ
  pub netfdq : List ℕ → Sock

module _ {Addr Sock : Type 0} (mem : Memory Addr Sock) (net : Net Addr Sock) where
  -- A system message to where the packet came from; a null packet is not sent.
  unfoldable pub reply : Relay Addr Sock → Sock → ℕ → ℕ → SysStatus → Relay Addr Sock
  reply n nfd to_uid truid status =
      let req =
        req_sys mem.host mem.hton (mem.addr_bytes (net.nfd2addr nfd)) to_uid truid status none in
      elim (qsend mem.host mem.hton n.requests req) [
        | none ↦ n
        | some pkt ↦ record n { sent = n.sent ++ ((pkt, mem.netfdq req.to_whom) ∷ []) }
      ]

  -- `turn_client_unbind` and `turn_client_bind` fail only for a null pointer, so that the branches for that
  -- are left out here and below.
  unfoldable pub close_it : Relay Addr Sock → Pack → Sock → TurnRequest → Handled Addr Sock
  close_it n pck nfd trn = done ok (
      reply (record n { turn = client_unbind n.turn (pair_hash pck.h_from trn.to_uid) }) nfd
        pck.h_from trn.truid sst_ok)

  unfoldable pub open_it :
      LightLayout Addr → Grants → Relay Addr Sock → Pack → Sock → TurnRequest → Handled Addr Sock
  open_it layout granted n pck nfd trn =
      if not (eqb layout.size trn.d_size)
      then done fail (reply n nfd pck.h_from trn.truid sst_fail)
      else elim (db_get n.db pck.h_from) [
        | none ↦ done fail (reply n nfd pck.h_from trn.truid sst_fail)
        | some origin_info ↦
            let bpeer : BindPeer Addr = record {
              linfo_connected = layout.light_of (take trn.d_size trn.data_bytes);
              linfo_origin = db_linfo net origin_info;
            } in
            done ok (
              reply (record n { turn = client_bind granted n.turn pck.h_from bpeer }) nfd pck.h_from
                trn.truid sst_ok)
      ]

  unfoldable pub pass_it : Relay Addr Sock → Pack → Sock → Handled Addr Sock
  pass_it n pck nfd = elim (client_unwrap mem.host n.turn pck) [
    | refused ↦ done fail n
    | crashed ↦ crash
    | outgoing none ↦ done ok n
    | outgoing (some pk) ↦ done ok (record n { heard = n.heard ++ ((pk, nfd) ∷ []) })
  ]

  -- `truid` and `status` are what is in the variables that the handler does not set.
  unfoldable pub note_it : Grants → ℕ → ℕ → Relay Addr Sock → TurnRequest → Handled Addr Sock
  note_it granted truid status n trn =
      elim (unwrap_sys mem.host granted n.requests trn truid status) [
        | none ↦ done fail n
        | some u ↦ done ok (record n { requests = u.client })
      ]

  pub hnd_turn :
      LightLayout Addr → Grants → ℕ → ℕ → Relay Addr Sock → Pack → Sock → Handled Addr Sock
  hnd_turn layout granted truid status n pck nfd =
      if ltb pck.d_size header_size
      then done fail n
      else elim (req_recv mem.host pck.data_bytes pck.d_size) [
        | dropped ↦ done fail n
        | overread ↦ crash
        | taken trn ↦
            if eqb trn.type (type_code close_hole)
            then close_it n pck nfd trn
            else if eqb trn.type (type_code open_hole)
            then open_it layout granted n pck nfd trn
            else if eqb trn.type (type_code data_msg)
            then pass_it n pck nfd
            else if eqb trn.type (type_code system_msg)
            then note_it granted truid status n trn
            else done ok n
      ]
