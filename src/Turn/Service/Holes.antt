-- ===== src/Turn/Service/Holes.antt =====
-- handlers.c: which holes are found again.
use soter.Base.{
  ℕ, ◌≡◌, ◌≤◌, refl, ap, ◌∙◌, true, false, none, some, eqb, eqb_refl, sym, ◌≢◌, take, nat_bytes,
  Option-cases, le→not-ltb, inl, inr,
}
use soter.Proto.{Pack}
use soter.Table.{Grants, ok, fail, get}
use soter.Table.Map.{IsMap, set_lem, set-granted}
use soter.PeerDb.{Net, Peer, db_get, db_linfo}
use soter.Handlers.{LightLayout}
use soter.Turn.{
  TurnRequest, BindPeer, open_hole, type_code, header_size, req_recv, taken, pair_hash, client_bind,
  check_pair, Client,
}
use soter.Turn.Messages.{SysStatus, sst_ok, req_sys, qsend}
use soter.Turn.Service.{Relay, Memory, done, reply, open_it, hnd_turn}

check_pair-client_bind :
    {Addr : Type 0} (granted : Grants) (cli : Client Addr) (key : ℕ) (peer : BindPeer Addr)
    (a b : ℕ)
    → IsMap cli.binded_clients.pairs
    → eqb key (pair_hash a b) ≡ false
    → check_pair (client_bind granted cli key peer) a b ≡ check_pair cli a b
unfolding check_pair client_bind
check_pair-client_bind granted cli key peer a b distinct other =
    let (_, outcome) = set_lem granted cli.binded_clients key peer (pair_hash a b) distinct in
    elim outcome [
      | inl (_, now) ↦ rw (check_pair, now, other) refl
      | inr (_, same, _) ↦ rw (check_pair, same) refl
    ]

-- Memory for every allocation.
abbrev pub plenty : Grants
plenty = record { key = true; val = true; array = true }

ok≢fail : ok ≢ fail
ok≢fail e = cc

module _ {Addr Sock : Type 0} (mem : Memory Addr Sock) (net : Net Addr Sock) where
  -- A request to open a hole that is in order, from a peer that is known.
  pub record Opens (layout : LightLayout Addr) (n : Relay Addr Sock) (pck : Pack)
      (trn : TurnRequest) (origin : Peer Addr Sock) : Type 0 where
    pub long : header_size ≤ pck.d_size
    pub read : req_recv mem.host pck.data_bytes pck.d_size ≡ taken trn
    pub opens : trn.type ≡ type_code open_hole
    pub whole : eqb layout.size trn.d_size ≡ true
    pub known : db_get n.db pck.h_from ≡ some origin
    pub distinct : IsMap n.turn.binded_clients.pairs

  reply-turn :
      (n : Relay Addr Sock) (nfd : Sock) (to truid : ℕ) (status : SysStatus)
      → (reply mem net n nfd to truid status).turn ≡ n.turn
  unfolding reply
  reply-turn n nfd to truid status =
      let req : TurnRequest =
        req_sys mem.host mem.hton (mem.addr_bytes (net.nfd2addr nfd)) to truid status none in
      elim (Option-cases (qsend mem.host mem.hton n.requests req)) [
        | inl e ↦ rw (reply, e) refl
        | inr (pkt, e) ↦ rw (reply, e) refl
      ]

  -- A known peer's request for a hole that is in order is handled with the status 0 and, where there is
  -- memory, entered under the peer's UID, with the peer's own address and the one it asks for.  But a
  -- hole is looked for under the hash of a pair: any pair whose hash is not that UID is bound exactly
  -- as it was before.
  pub hnd_turn-open :
      (layout : LightLayout Addr) (truid status : ℕ) (n : Relay Addr Sock) (pck : Pack) (nfd : Sock)
      (trn : TurnRequest) (origin : Peer Addr Sock) (a b : ℕ) (o : Opens layout n pck trn origin)
      → eqb pck.h_from (pair_hash a b) ≡ false
      → (n' : Relay Addr Sock) × (hnd_turn mem net layout plenty truid status n pck nfd
          ≡ done ok n')
        × (get n'.turn.binded_clients pck.h_from
            ≡ some (record {
              linfo_connected = layout.light_of (take trn.d_size trn.data_bytes);
              linfo_origin = db_linfo net origin;
            }))
        × (check_pair n'.turn a b ≡ check_pair n.turn a b)
  unfolding hnd_turn open_it client_bind
  hnd_turn-open layout truid status n pck nfd trn origin a b o other =
      let bpeer : BindPeer Addr = record {
        linfo_connected = layout.light_of (take trn.d_size trn.data_bytes);
        linfo_origin = db_linfo net origin;
      } in
      let bound : Relay Addr Sock = record n {
        turn = client_bind plenty n.turn pck.h_from bpeer;
      } in
      let replied = ap (λ t. t.binded_clients) (reply-turn bound nfd pck.h_from trn.truid sst_ok) in
      let (_, outcome) =
        set_lem plenty n.turn.binded_clients pck.h_from bpeer pck.h_from o.distinct in
      (
        reply mem net bound nfd pck.h_from trn.truid sst_ok,
        rw
            (
              hnd_turn,
              le→not-ltb pck.d_size header_size o.long,
              o.read,
              o.opens,
              open_it,
              o.whole,
              o.known,
            )
            refl,
        elim outcome [
          | inl (_, entered) ↦
              ap (λ t. get t pck.h_from) replied ∙ entered ∙ rw (eqb_refl pck.h_from) refl
          | inr (failed, _, _) ↦
              absurd (ok≢fail (sym (set-granted n.turn.binded_clients pck.h_from bpeer) ∙ failed))
        ],
        ap (λ t. check_pair t a b) (reply-turn bound nfd pck.h_from trn.truid sst_ok)
            ∙ check_pair-client_bind plenty n.turn pck.h_from bpeer a b o.distinct other,
      )
