-- ===== src/Gossip.antt =====
-- code/devcore/gossip/src/system.c: what is known of other peers by hearsay.  The array of entries is
-- the list of them; each function holds its lock.  An address and the metadata of an entry are copied
-- and not looked at.
pub mod Known
pub mod Cleanup
pub mod Packets
pub mod Choice
use soter.Base.{
  ℕ, zero, suc, ◌+◌, ◌-◌, ◌%◌, ◌≤◌, ◌≡◌, Bool, true, false, Option, none, some, List, [], ◌∷◌, ◌++◌,
  ltb, leb, eqb, if◌then◌else◌, length, get_elem?, remove_at, take, drop, min, u32_mod, sub_size,
  size_mod,
}
use soter.Proto.{Pack}
use soter.Proto.Machine.{Host}

-- `gossip_entry`
pub record Entry (Addr Md : Type 0) : Type 0 where
  pub uid : ℕ
  pub addr : Addr
  pub version : ℕ
  pub timestamp : ℕ
  pub md : Md

-- `gossip_system`
pub record Gossip (Addr Md : Type 0) : Type 0 where
  pub gossips : List (Entry Addr Md)
  pub last_gossiped : ℕ
  pub self_uid : ℕ

-- How an entry lies in memory: `sizeof(gossip_entry)` and its bytes.
pub record Layout (Addr Md : Type 0) : Type 0 where
  pub size : ℕ
  pub entry_bytes : Entry Addr Md → List ℕ
  pub entry_of : List ℕ → Entry Addr Md
  pub length-entry_bytes : (e : Entry Addr Md) → length (entry_bytes e) ≡ size
  pub entry_of-entry_bytes : (e : Entry Addr Md) → entry_of (entry_bytes e) ≡ e

-- `GOSSIP_DEAD_DT`
abbrev pub dead_dt : ℕ
dead_dt = 3600

-- `indices[i]` and `indices[j]` change places.
pub swap : ℕ → ℕ → (ℕ → ℕ) → ℕ → ℕ
swap i j indices k = if eqb k i then indices j else if eqb k j then indices i else indices k

-- The shuffling loop from `i` on, so many rounds; `rand i` is the number drawn in round `i`.
pub shuffled : (ℕ → ℕ) → ℕ → ℕ → ℕ → (ℕ → ℕ) → ℕ → ℕ
unfolding swap
shuffled rand len zero i indices = indices
shuffled rand len (suc rounds) i indices =
    shuffled rand len rounds (suc i) (swap i (i + rand i % (len - i)) indices)

module _ {Addr Md : Type 0} where
  pub system_init : ℕ → Gossip Addr Md
  system_init self_uid = record { gossips = []; last_gossiped = 0; self_uid = self_uid }

  -- The difference of a signed and an unsigned number of 64 bits is unsigned.
  pub is_fresh : ℕ → Entry Addr Md → Bool
  is_fresh now e = ltb (sub_size (now % size_mod) (e.timestamp % size_mod)) dead_dt

  -- The loop from index `i` on, with as many rounds left as entries.
  pub cleanup_from : ℕ → ℕ → ℕ → List (Entry Addr Md) → List (Entry Addr Md)
  unfolding is_fresh
  cleanup_from zero now i es = es
  cleanup_from (suc rounds) now i es = elim (get_elem? es i) [
    | none ↦ es
    | some e ↦ elim (is_fresh now e) [
      | true ↦ cleanup_from rounds now (i + 1) es
      | false ↦ cleanup_from rounds now i (remove_at i es)
    ]
  ]

  pub cleanup : ℕ → Gossip Addr Md → Gossip Addr Md
  unfolding cleanup_from
  cleanup now g = record g { gossips = cleanup_from (length g.gossips) now 0 g.gossips }

  abbrev pub moved : Option (ℕ × Entry Addr Md) → Option (ℕ × Entry Addr Md)
  moved none = none
  moved (some (i, e)) = some (suc i, e)

  -- The loop that looks for an entry of the same peer.
  pub find_uid : ℕ → List (Entry Addr Md) → Option (ℕ × Entry Addr Md)
  find_uid uid [] = none
  find_uid uid (e ∷ es) =
      let rest = find_uid uid es in if eqb e.uid uid then some (0, e) else moved rest

  -- `room` tells whether the array can take one more; the status of the push is dropped.
  abbrev pub pushed : Bool → List (Entry Addr Md) → Entry Addr Md → List (Entry Addr Md)
  pushed room es e = if room then es ++ (e ∷ []) else es

  pub new_entry : Bool → Gossip Addr Md → Entry Addr Md → Gossip Addr Md
  unfolding find_uid
  new_entry room g e = if eqb e.uid g.self_uid then g else elim (find_uid e.uid g.gossips) [
    | none ↦ record g { gossips = pushed room g.gossips e }
    | some (i, existing) ↦
        if leb e.version existing.version
        then g
        else record g { gossips = pushed room (remove_at i g.gossips) e }
  ]

  -- `ln_hton` is a parameter.
  pub create_entry : (Addr → Addr) → ℕ → ℕ → Addr → Md → Bool → Entry Addr Md
  create_entry hton now uid addr md convert_hton = record {
    uid = uid;
    addr = if convert_hton then hton addr else addr;
    version = 0;
    timestamp = now;
    md = md;
  }

  -- The copying loop; an index outside is a read outside, `none`.
  pub copies : List (Entry Addr Md) → (ℕ → ℕ) → ℕ → ℕ → Option (List (Entry Addr Md))
  copies es indices i zero = some []
  copies es indices i (suc n) = elim (get_elem? es (indices i)) [
    | none ↦ none
    | some e ↦ elim (copies es indices (suc i) n) [ none ↦ none | some rest ↦ some (e ∷ rest) ]
  ]

-- Status -1, status 1 for no entries, the entries chosen, or a read outside.
pub data Chosen (A : Type 0) : Type 0 where
  bad_call : Chosen A
  nothing : Chosen A
  chosen : List A → Chosen A
  overread : Chosen A

module _ {Addr Md : Type 0} where
  abbrev pub chosen_of : Option (List (Entry Addr Md)) → Chosen (Entry Addr Md)
  chosen_of none = overread
  chosen_of (some es) = chosen es

  -- Both allocations are taken to succeed.
  pub random_entries : (ℕ → ℕ) → Gossip Addr Md → ℕ → Chosen (Entry Addr Md)
  unfolding shuffled copies
  random_entries rand g n =
      let len = length g.gossips in
      if eqb n 0
      then bad_call
      else if eqb len 0
      then nothing
      else chosen_of (copies g.gossips (shuffled rand len (min n len) 0 (λ k. k)) 0 (min n len))

-- The status with the system after the call, or a read past the packet's data.
pub data Received (G : Type 0) : Type 0 where
  stored : G → Received G
  refused : G → Received G
  overread : Received G

module _ {Addr Md : Type 0} (layout : Layout Addr Md) where
  -- `memcpy` of one entry after another.
  unfoldable pub all_bytes : List (Entry Addr Md) → List ℕ
  all_bytes [] = []
  all_bytes (e ∷ es) = layout.entry_bytes e ++ all_bytes es

module _ {Addr Md : Type 0} (host : Host) (layout : Layout Addr Md) where
  -- The loop: an entry is copied out of the data before the test of its place.
  pub take_entries : ℕ → ℕ → List ℕ → ℕ → Gossip Addr Md → Received (Gossip Addr Md)
  take_entries zero data_sz bytes offset g = stored g
  take_entries (suc n) data_sz bytes offset g = elim (ltb (length bytes) (offset + layout.size)) [
    | true ↦ overread
    | false ↦ elim (ltb data_sz (offset + layout.size)) [
      | true ↦ refused g
      | false ↦
          take_entries n data_sz bytes (offset + layout.size)
            (new_entry true g (layout.entry_of (take layout.size (drop offset bytes))))
    ]
  ]

  pub from_packet : Gossip Addr Md → Pack → Received (Gossip Addr Md)
  unfolding take_entries
  from_packet g pack_in =
      if ltb pack_in.d_size (layout.size + 4)
      then refused g
      else if ltb (length pack_in.data_bytes) 4
      then overread
      else take_entries (host.ntohl (host.word_of (take 4 pack_in.data_bytes))) pack_in.d_size
          (drop 4 pack_in.data_bytes) 0 g

  -- The entries are those that `entries[0]` to `entries[n - 1]` point to; `none` is -1.
  unfoldable pub to_data : Bool → List (Entry Addr Md) → Option (List ℕ)
  unfolding all_bytes
  to_data granted [] = none
  to_data granted (e ∷ es) =
      if granted
      then some
          (host.bytes_of (host.htonl (length (e ∷ es) % u32_mod)) ++ all_bytes layout (e ∷ es))
      else none
