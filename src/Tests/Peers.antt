-- ===== src/Tests/Peers.antt =====
-- peerdb.c and dispatcher.c on small tables.
use soter.Base.{
  ℕ, ◌≡◌, refl, sym, ap, ◌∙◌, none, some, true, [], ◌∷◌, arith, eqb, eqb→eq, nat_bytes, Bool-cases,
  inl, inr,
}
use soter.Proto.{Pack, filled, pack_data, copy_pack}
use soter.Rudp.{conn_new}
use soter.Table.{get, find_idx, find_idx_from}
use soter.Table.Map.{IsMap, keys}
use soter.PeerDb.{Net, Peer, Db, inited, active}
use soter.Dispatcher.{Disp, dispatch, continued}
use soter.Dispatcher.Isolation.{dispatch_lem, Keyed}

pub two_keys : {V : Type 0} (v w : V) → IsMap {K = ℕ} {V = V} ((1, v) ∷ (2, w) ∷ [])
unfolding keys
two_keys v w k = elim (Bool-cases (eqb 1 k)) [
  | inl first ↦ rw (← eqb→eq 1 k first) (omega arith)
  | inr other ↦
      rw other
        (elim (Bool-cases (eqb 2 k)) [ inl e ↦ rw e (omega arith) | inr e ↦ rw e (omega arith) ])
]

abbrev ann : Peer ℕ ℕ
ann = record { server = 0; state = active; uid = 1; last_seen = 5; pubkey = []; nfd = 70; ctx = 0 }

abbrev bob : Peer ℕ ℕ
bob = record { server = 0; state = inited; uid = 2; last_seen = 6; pubkey = []; nfd = 80; ctx = 0 }

abbrev peers : Db ℕ ℕ
peers = record { flags = record { key = true; val = true }; pairs = (1, ann) ∷ (2, bob) ∷ [] }

abbrev pub same_net : Net ℕ ℕ
same_net = record { nfd2addr = λ s. s; netfdq = λ a. a; addrcmp = eqb }

abbrev dispatcher : Disp
dispatcher = record {
  self_uid = 9;
  passed = [];
  connections = record {
    flags = record { key = true; val = true };
    pairs = (1, conn_new 9 1 0) ∷ (2, conn_new 9 2 0) ∷ [];
  };
}

dispatcher-Keyed : Keyed dispatcher
unfolding Keyed conn_new get find_idx
dispatcher-Keyed uid c e = elim (Bool-cases (eqb 1 uid)) [
  | inl same ↦
      let there : get dispatcher.connections uid ≡ some (conn_new 9 1 0) =
        rw (get, find_idx, find_idx_from, same) refl in
      let both : some (conn_new 9 1 0) ≡ some c = sym there ∙ e in
      let alike : conn_new 9 1 0 ≡ c = cc in sym (ap (λ x. x.c_uid) alike) ∙ eqb→eq 1 uid same
  | inr other ↦ elim (Bool-cases (eqb 2 uid)) [
    | inl same ↦
        let there : get dispatcher.connections uid ≡ some (conn_new 9 2 0) =
          rw (get, find_idx, find_idx_from, other, same) refl in
        let both : some (conn_new 9 2 0) ≡ some c = sym there ∙ e in
        let alike : conn_new 9 2 0 ≡ c = cc in sym (ap (λ x. x.c_uid) alike) ∙ eqb→eq 2 uid same
    | inr neither ↦
        let gone : get dispatcher.connections uid ≡ none =
          rw (get, find_idx, find_idx_from, other, neither) refl in
        cc
  ]
]

abbrev from_ann : Pack
from_ann = filled 0 1 9 pack_data 1 (65 ∷ [])

dispatch_lem_example :
    (d' : Disp) × (dispatch true 0 10 dispatcher from_ann ≡ continued d')
    × Keyed d'
    × IsMap d'.connections.pairs
    × (get d'.connections 2 ≡ get dispatcher.connections 2)
unfolding copy_pack
dispatch_lem_example =
    dispatch_lem true 0 10 dispatcher from_ann from_ann 2
      (two_keys (conn_new 9 1 0) (conn_new 9 2 0)) dispatcher-Keyed (λ e. absurd (omega (arith, e)))
      refl (omega arith) (λ e. absurd (omega (arith, e)))

abbrev alone : Disp
alone = record {
  self_uid = 9;
  passed = [];
  connections = record { flags = record { key = true; val = true }; pairs = [] };
}
