-- ===== src/Handlers/Handshake.antt =====
-- handlers.c: how PUNCH and ACK packets make two nodes active for each other.
use soter.Base.{
  ℕ, ◌≡◌, refl, ap, ◌∙◌, true, false, some, List, [], ◌∷◌, ◌++◌, eqb, if◌then◌else◌, nat_bytes,
  Bool-cases, inl, inr,
}
use soter.Proto.{Pack, PackType, pack_ack, pack_punch, filled}
use soter.Proto.Quick.{msg_quick-granted}
use soter.Table.{Grants}
use soter.Table.Map.{IsMap}
use soter.PeerDb.{
  Net, Peer, PeerState, inited, natpunching, active, state_code, has_state, db_get, db_schange,
  db_unfd,
}
use soter.PeerDb.Updates.{db_schange-known, db_unfd-known}
use soter.Handlers.{Node, LightLayout, send_quick, hnd_ack, punched, hnd_punch}

module _ {Addr Sock : Type 0} where
  -- The message without data that a node sends.
  abbrev pub quick : Node Addr Sock → ℕ → PackType → Pack
  quick n to type = filled 0 n.self_uid to type 0 []

  pub send_quick-granted :
      (n : Node Addr Sock) (to seq : ℕ) (type : PackType) (nfd : Sock)
      → send_quick n to seq type nfd
        ≡ record n { sent = n.sent ++ ((filled seq n.self_uid to type 0 [], nfd) ∷ []) }
  unfolding send_quick
  send_quick-granted n to seq type nfd =
      rw (send_quick, msg_quick-granted n.self_uid to seq type) refl

  -- The peer stands in the database under its UID and in this state.
  pub record Knows (n : Node Addr Sock) (uid : ℕ) (info : Peer Addr Sock) : Type 0 where
    pub distinct : IsMap n.db.pairs
    pub there : db_get n.db uid ≡ some info
    pub own : info.uid ≡ uid

  in_state :
      (info : Peer Addr Sock) (s t : PeerState)
      → info.state ≡ s
      → has_state t info ≡ eqb (state_code s) (state_code t)
  unfolding has_state
  in_state info s t e = ap (λ x. eqb (state_code x) (state_code t)) e

  -- An ACK makes a known peer active, and is answered when the peer was only listed.
  pub hnd_ack-known :
      (n : Node Addr Sock) (pck : Pack) (info : Peer Addr Sock)
      → Knows n pck.h_from info
      → let n' = (hnd_ack n pck).1 in
        Knows n' pck.h_from (record info { state = active })
        × (n'.self_uid ≡ n.self_uid)
        × (n'.sent ≡ (
            if has_state inited info
            then n.sent ++ ((quick n info.uid pack_ack, info.nfd) ∷ [])
            else n.sent))
  unfolding hnd_ack
  hnd_ack-known n pck info k =
      let (keeps, reads) =
        db_schange-known n.db info.uid pck.h_from active info k.distinct k.own k.there in
      let now_known : Knows (record n { db = (db_schange n.db info.uid active).1 }) pck.h_from
          (record info { state = active }) =
        record { distinct = keeps; there = reads; own = k.own } in
      elim (Bool-cases (has_state inited info)) [
        | inl listed ↦
            rw (hnd_ack, k.there, listed, send_quick-granted n info.uid 0 pack_ack info.nfd)
              (record { distinct = keeps; there = reads; own = k.own }, refl, refl)
        | inr further ↦ rw (hnd_ack, k.there, further) (now_known, refl, refl)
      ]

  punched-inited :
      (n : Node Addr Sock) (nfd : Sock) (uid : ℕ) (info : Peer Addr Sock)
      → Knows n uid info
      → info.state ≡ inited
      → let n' = (punched n nfd info).1 in
        Knows n' uid (record info { nfd = nfd; state = natpunching })
        × (n'.self_uid ≡ n.self_uid)
        × (n'.sent ≡ n.sent ++ ((quick n info.uid pack_ack, nfd) ∷ []))
  unfolding punched state_code
  punched-inited n nfd uid info k st =
      let (keeps, reads) = db_unfd-known n.db info.uid uid nfd info k.distinct k.own k.there in
      let found : Node Addr Sock = record n { db = (db_unfd n.db info.uid nfd).1 } in
      let (keeps', reads') =
        db_schange-known found.db info.uid uid natpunching (record info { nfd = nfd }) keeps k.own
          reads in
      let listed : has_state inited info ≡ true = in_state info inited inited st in
      let not_yet : has_state natpunching info ≡ false = in_state info inited natpunching st in
      rw (punched, listed, not_yet, send_quick-granted found info.uid 0 pack_ack nfd)
        (record { distinct = keeps'; there = reads'; own = k.own }, refl, refl)

module _ {Addr Sock : Type 0} (net : Net Addr Sock) (layout : LightLayout Addr) where
  -- A PUNCH from a listed peer is answered by an ACK to where it came from.
  pub hnd_punch-inited :
      (granted : Grants) (now : ℕ) (n : Node Addr Sock) (pck : Pack) (nfd : Sock)
      (info : Peer Addr Sock)
      → Knows n pck.h_from info
      → eqb pck.h_from n.self_uid ≡ false
      → info.state ≡ inited
      → let n' = (hnd_punch net layout granted now n pck nfd).1 in
        Knows n' pck.h_from (record info { nfd = nfd; state = natpunching })
        × (n'.self_uid ≡ n.self_uid)
        × (n'.sent ≡ n.sent ++ ((quick n info.uid pack_ack, nfd) ∷ []))
  unfolding hnd_punch
  hnd_punch-inited granted now n pck nfd info k other st =
      rw (hnd_punch, other, k.there) (punched-inited n nfd pck.h_from info k st)

  -- Two nodes that list each other, and of which the second gets a PUNCH of the first: once the ACK
  -- that this brings about, and the ACK that that one brings about, have come in, each node has the
  -- other as active, each has sent one ACK, and nothing more is sent.
  pub handshake-active :
      (granted : Grants) (now size : ℕ) (payload : List ℕ) (a b : Node Addr Sock) (nfd : Sock)
      (of_a of_b : Peer Addr Sock)
      → Knows a b.self_uid of_b
      → Knows b a.self_uid of_a
      → of_a.state ≡ inited
      → of_b.state ≡ inited
      → eqb a.self_uid b.self_uid ≡ false
      → let punch = filled 0 a.self_uid b.self_uid pack_punch size payload in
        let b1 = (hnd_punch net layout granted now b punch nfd).1 in
        let a1 = (hnd_ack a (quick b of_a.uid pack_ack)).1 in
        let b2 = (hnd_ack b1 (quick a of_b.uid pack_ack)).1 in
        Knows a1 b.self_uid (record of_b { state = active })
        × Knows b2 a.self_uid (record of_a { nfd = nfd; state = active })
        × (b2.sent ≡ b.sent ++ ((quick b of_a.uid pack_ack, nfd) ∷ []))
        × (a1.sent ≡ a.sent ++ ((quick a of_b.uid pack_ack, of_b.nfd) ∷ []))
  unfolding state_code
  handshake-active granted now size payload a b nfd of_a of_b ka kb sa sb apart =
      let punch : Pack = filled 0 a.self_uid b.self_uid pack_punch size payload in
      let b1 : Node Addr Sock = (hnd_punch net layout granted now b punch nfd).1 in
      let punched_a : Peer Addr Sock = record of_a { nfd = nfd; state = natpunching } in
      let (kb1, self1, sent1) = hnd_punch-inited granted now b punch nfd of_a kb apart sa in
      let (ka1, self_a, sent_a) = hnd_ack-known a (quick b of_a.uid pack_ack) of_b ka in
      let (kb2, self2, sent2) = hnd_ack-known b1 (quick a of_b.uid pack_ack) punched_a kb1 in
      let listed : has_state inited of_b ≡ true = in_state of_b inited inited sb in
      let further : has_state inited punched_a ≡ false =
        in_state punched_a natpunching inited refl in
      (ka1, kb2, (rw further at sent2) ∙ sent1, rw listed at sent_a)
