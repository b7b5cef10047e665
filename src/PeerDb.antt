-- ===== src/PeerDb.antt =====
-- code/devcore/peersyst/src/peerdb.c: the peers that are known, by UID, in a protected table.  Each
-- function holds the table's lock; the event socket only wakes waiters.  What lownet makes of
-- addresses by the system's `inet_ntop` and `inet_pton` is the record `Net`.
use soter.Base.{
  ℕ, zero, suc, ◌+◌, ◌%◌, ◌≤◌, ◌≡◌, refl, ◌∙◌, ap, ◌⊎◌, inl, inr, Bool, true, false, ◌&&◌, Option,
  none, some, List, [], ◌∷◌, arith, ltb, eqb, if◌then◌else◌, length, u32_mod, nat_bytes, All,
  Bool-cases,
}
use soter.Table.{Table, Own, Grants, Status, ok, fail, create, end_table, set, remove, get, modify}
pub mod Facts
pub mod Updates

pub data PeerState : Type 0 where
  inited natpunching active hello_sent crypto_handshaking guarded : PeerState

unfoldable pub state_code : PeerState → ℕ
state_code inited = 0
state_code natpunching = 1
state_code active = 2
state_code hello_sent = 3
state_code crypto_handshaking = 4
state_code guarded = 5

-- `ln_nfd2addr`, `ln_netfdq` and `ln_addrcmp`
pub record Net (Addr Sock : Type 0) : Type 0 where
  pub nfd2addr : Sock → Addr
  pub netfdq : Addr → Sock
  pub addrcmp : Addr → Addr → Bool

-- `peer_info`; `ctx` is a pointer's value.
pub record Peer (Addr Sock : Type 0) : Type 0 where
  pub server : Addr
  pub state : PeerState
  pub uid : ℕ
  pub last_seen : ℕ
  pub pubkey : List ℕ
  pub nfd : Sock
  pub ctx : ℕ

-- `light_peer_info`
pub record LightPeer (Addr : Type 0) : Type 0 where
  pub uid : ℕ
  pub server : Addr
  pub addr : Addr
  pub pubkey : List ℕ

-- Status 0 with the peers found, status -1, or a write past the block.
pub data Listing (P : Type 0) : Type 0 where
  listed : List P → Listing P
  refused : Listing P
  overrun : Listing P

abbrev pub Db : Type 0 → Type 0 → Type 0
Db Addr Sock = Table ℕ (Peer Addr Sock)

module _ {Addr Sock : Type 0} where
  pub db_init : Db Addr Sock
  db_init = create (record { key = true; val = true })

  pub db_end : Db Addr Sock → Db Addr Sock
  db_end db = end_table db

  -- The status of `prot_table_set` is dropped.
  pub db_add : Grants → Db Addr Sock → Peer Addr Sock → Status × Db Addr Sock
  db_add granted db info = (ok, (set granted db info.uid info).1)

  pub db_remove : Db Addr Sock → ℕ → Status × Db Addr Sock
  db_remove db uid = remove db uid

  -- `none` is the status -1.
  unfoldable pub db_get : Db Addr Sock → ℕ → Option (Peer Addr Sock)
  db_get db uid = get db uid

  pub db_check : Db Addr Sock → ℕ → Bool
  db_check db uid = elim (get db uid) [ none ↦ false | some p ↦ true ]

  unfoldable pub has_state : PeerState → Peer Addr Sock → Bool
  unfolding state_code
  has_state state info = eqb (state_code info.state) (state_code state)

  pub db_scheck : Db Addr Sock → ℕ → PeerState → Bool
  db_scheck db uid state = elim (db_get db uid) [ none ↦ false | some info ↦ has_state state info ]

  -- A write to the peer's entry, under the lock.
  abbrev pub written : Db Addr Sock → Option (Db Addr Sock) → Status × Db Addr Sock
  written db none = (fail, db)
  written db (some db') = (ok, db')

  pub db_schange : Db Addr Sock → ℕ → PeerState → Status × Db Addr Sock
  db_schange db uid new_state =
      written db (modify db uid (λ info. record info { state = new_state }))

  pub db_unfd : Db Addr Sock → ℕ → Sock → Status × Db Addr Sock
  db_unfd db uid nfd = written db (modify db uid (λ info. record info { nfd = nfd }))

  -- `last_seen` is a `uint32_t`.
  pub db_utime : ℕ → Db Addr Sock → ℕ → Status × Db Addr Sock
  db_utime now db uid =
      written db (modify db uid (λ info. record info { last_seen = now % u32_mod }))

  -- The counting loop.
  pub tally : (Peer Addr Sock → Bool) → List (ℕ × Peer Addr Sock) → ℕ
  tally f [] = 0
  tally f (p ∷ ps) = let rest = tally f ps in if f p.1 then suc rest else rest

  -- The copying loop.
  pub picked : (Peer Addr Sock → Bool) → List (ℕ × Peer Addr Sock) → List (Peer Addr Sock)
  picked f [] = []
  picked f (p ∷ ps) = let rest = picked f ps in if f p.1 then p.1 ∷ rest else rest

  -- A block for as many as were counted, and the copies into it.
  pub listing : Bool → (Peer Addr Sock → Bool) → Db Addr Sock → Listing (Peer Addr Sock)
  unfolding tally picked
  listing granted f db =
      let count = tally f db.pairs in
      if eqb count 0
      then listed []
      else if granted
      then (if ltb count (length (picked f db.pairs)) then overrun else listed (picked f db.pairs))
      else refused

  pub db_fstate : Bool → Db Addr Sock → PeerState → Listing (Peer Addr Sock)
  db_fstate granted db state = listing granted (has_state state) db

  -- The scan of `peers_db_wait` after a wake-up; `none` goes back to waiting.
  pub wait_scan : List (ℕ × Peer Addr Sock) → ℕ → PeerState → Option (Peer Addr Sock)
  wait_scan [] uid state = none
  wait_scan (p ∷ ps) uid state =
      let rest = wait_scan ps uid state in
      if eqb p.0 uid && has_state state p.1 then some p.1 else rest

  pub everyone : List (ℕ × Peer Addr Sock) → List (Peer Addr Sock)
  everyone [] = []
  everyone (p ∷ ps) = p.1 ∷ everyone ps

  -- `malloc` is taken to succeed.
  pub db_snapshot : Db Addr Sock → List (Peer Addr Sock)
  unfolding everyone
  db_snapshot db = everyone db.pairs

module _ {Addr Sock : Type 0} (net : Net Addr Sock) where
  pub db_linfo : Peer Addr Sock → LightPeer Addr
  db_linfo input = record {
    uid = input.uid;
    server = input.server;
    addr = net.nfd2addr input.nfd;
    pubkey = input.pubkey;
  }

  unfoldable pub db_reconstruct : ℕ → LightPeer Addr → Peer Addr Sock
  db_reconstruct now input = record {
    server = input.server;
    state = inited;
    uid = input.uid;
    last_seen = now % u32_mod;
    pubkey = input.pubkey;
    nfd = net.netfdq input.addr;
    ctx = 0;
  }

  pub db_faddr : Bool → Db Addr Sock → Addr → Listing (Peer Addr Sock)
  db_faddr granted db addr = listing granted (λ info. net.addrcmp addr (net.nfd2addr info.nfd)) db
