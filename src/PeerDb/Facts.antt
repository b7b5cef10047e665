-- ===== src/PeerDb/Facts.antt =====
-- peerdb.c: what the updates, the listings and the waiting of the peer database give.
use soter.Base.{
  ℕ, suc, ◌≤◌, ◌≡◌, refl, sym, ap, ◌⊎◌, inl, inr, Bool, true, false, none, some, List, [], ◌∷◌,
  arith, ltb, eqb, eqb→eq, if◌then◌else◌, length, nat_bytes, All, Bool-cases, ◌==◌,
}
use soter.Table.{ok, fail}
use soter.Table.Map.{IsMap, modify_lem}
use soter.PeerDb.{
  PeerState, Net, Peer, LightPeer, listed, refused, Db, db_schange, db_get, has_state, tally,
  picked, listing, db_fstate, db_linfo, db_reconstruct, inited,
}

module _ {Addr Sock : Type 0} where
  length-picked :
      (f : Peer Addr Sock → Bool) (ps : List (ℕ × Peer Addr Sock))
      → length (picked f ps) ≡ tally f ps
  unfolding picked tally
  length-picked f [] = refl
  length-picked f (p ∷ ps) = elim (Bool-cases (f p.1)) [
    | inl e ↦ simp e (ap suc (length-picked f ps))
    | inr e ↦ simp e (length-picked f ps)
  ]

  picked-All :
      (f : Peer Addr Sock → Bool) (ps : List (ℕ × Peer Addr Sock))
      → All (λ p. f p ≡ true) (picked f ps)
  unfolding picked
  picked-All f [] = tt
  picked-All f (p ∷ ps) = elim (Bool-cases (f p.1)) [
    | inl e ↦ rw e (e, picked-All f ps)
    | inr e ↦ rw e (picked-All f ps)
  ]

  -- A listing by state never writes past its block.  It is refused only when `malloc` fails and there
  -- is a peer to list; otherwise it holds as many peers as the database has in that state, and each
  -- of them is in it.
  pub db_fstate_lem :
      (granted : Bool) (db : Db Addr Sock) (state : PeerState)
      → ((db_fstate granted db state ≡ refused)
          × (granted ≡ false)
          × (1 ≤ tally (has_state state) db.pairs))
        ⊎ ((ps : List (Peer Addr Sock)) × (db_fstate granted db state ≡ listed ps)
            × (length ps ≡ tally (has_state state) db.pairs)
            × All (λ p. has_state state p ≡ true) ps)
  unfolding db_fstate listing
  db_fstate_lem granted db state =
      let f = has_state {Addr = Addr} {Sock = Sock} state in
      let count : length (picked f db.pairs) ≡ tally f db.pairs = length-picked f db.pairs in
      elim (Bool-cases (eqb (tally f db.pairs) 0)) [
        | inl nobody ↦ inr ([], rw (listing, nobody) refl, sym (eqb→eq _ _ nobody), tt)
        | inr some_peer ↦ elim (Bool-cases granted) [
          | inr poor ↦ inl (rw (listing, some_peer, poor) refl, poor, ground arith)
          | inl rich ↦
              let fits : ltb (tally f db.pairs) (length (picked f db.pairs)) ≡ false =
                ground (arith, count) in
              inr (
                picked f db.pairs,
                rw (listing, some_peer, rich, fits) refl,
                count,
                picked-All f db.pairs,
              )
        ]
      ]

  -- On a database with distinct UIDs a change of state is refused exactly for an unknown peer, and
  -- otherwise puts the new state in that peer's entry, whose other fields stay, as do all other peers.
  pub db_schange_lem :
      (db : Db Addr Sock) (uid other : ℕ) (state : PeerState)
      → IsMap db.pairs
      → ((db_schange db uid state ≡ (fail, db)) × (db_get db uid ≡ none))
        ⊎ ((db' : Db Addr Sock) × (old : Peer Addr Sock) × (db_schange db uid state ≡ (ok, db'))
            × (db_get db uid ≡ some old)
            × IsMap db'.pairs
            × (db_get db' other
                ≡ (if uid == other then some (record old { state = state }) else db_get db other)))
  unfolding db_schange db_get
  db_schange_lem db uid other state distinct =
      elim (modify_lem db uid other (λ info. record info { state = state }) distinct) [
        | inl (gone, unknown) ↦ inl (rw gone refl, unknown)
        | inr (db', old, done, there, keeps, reads) ↦
            inr (db', old, rw done refl, there, keeps, reads)
      ]

  -- What travels of a peer comes back: when lownet gives an address back from the descriptor that it
  -- makes of it, a light entry survives being reconstructed into a peer and shortened again, and the
  -- peer starts without a connection.
  pub db_linfo-db_reconstruct :
      (net : Net Addr Sock) (now : ℕ) (light : LightPeer Addr)
      → net.nfd2addr (net.netfdq light.addr) ≡ light.addr
      → (db_linfo net (db_reconstruct net now light) ≡ light)
        × ((db_reconstruct net now light).state ≡ inited)
  unfolding db_linfo db_reconstruct
  db_linfo-db_reconstruct net now light back = (ap (λ a. record light { addr = a }) back, refl)
