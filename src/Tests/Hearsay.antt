-- ===== src/Tests/Hearsay.antt =====
-- The gossip system on entries whose address and metadata are numbers.
use soter.Base.{
  ℕ, ◌+◌, ◌≡◌, refl, true, some, List, [], ◌∷◌, arith, length, min, eqb, if◌then◌else◌, All,
}
use soter.Proto.{Pack, filled, pack_gossip}
use soter.Tests.Protocol.{big_endian}
use soter.Gossip.{
  Entry, Gossip, Layout, new_entry, cleanup, from_packet, to_data, stored, chosen, random_entries,
  all_bytes,
}
use soter.Gossip.Known.{known, newer, Apart, IsSound, new_entry-IsSound, known-new_entry}
use soter.Gossip.Cleanup.{kept, cleanup_lem}
use soter.Gossip.Packets.{heard, from_packet-to_data}
use soter.Gossip.Choice.{random_entries_lem}

abbrev entry_of_bytes : List ℕ → Entry ℕ ℕ
entry_of_bytes (u ∷ a ∷ v ∷ t ∷ m ∷ _) = record {
  uid = u;
  addr = a;
  version = v;
  timestamp = t;
  md = m;
}
entry_of_bytes _ = record { uid = 0; addr = 0; version = 0; timestamp = 0; md = 0 }

abbrev five_cells : Layout ℕ ℕ
five_cells = record {
  size = 5;
  entry_bytes = λ e. e.uid ∷ e.addr ∷ e.version ∷ e.timestamp ∷ e.md ∷ [];
  entry_of = entry_of_bytes;
  length-entry_bytes = λ e. refl;
  entry_of-entry_bytes = λ e. refl;
}

abbrev alice : Entry ℕ ℕ
alice = record { uid = 7; addr = 70; version = 1; timestamp = 100; md = 0 }

abbrev bob : Entry ℕ ℕ
bob = record { uid = 8; addr = 80; version = 0; timestamp = 9000; md = 0 }

abbrev newer_alice : Entry ℕ ℕ
newer_alice = record alice { version = 2; addr = 71 }

abbrev system : Gossip ℕ ℕ
system = record { gossips = alice ∷ bob ∷ []; last_gossiped = 0; self_uid = 1 }

system-IsSound : IsSound system
system-IsSound = record { apart = ((refl, tt), (tt, tt)); others = (refl, (refl, tt)) }

new_entry-IsSound_example : IsSound (new_entry true system newer_alice)
new_entry-IsSound_example = new_entry-IsSound true system newer_alice system-IsSound

known-new_entry_example : known (new_entry true system newer_alice).gossips 7 ≡ (
    if eqb newer_alice.uid system.self_uid
    then known system.gossips 7
    else if eqb newer_alice.uid 7
    then newer (known system.gossips 7) newer_alice
    else known system.gossips 7)
known-new_entry_example = known-new_entry system newer_alice 7 system-IsSound

cleanup_lem_example : cleanup 9500 system ≡ record system { gossips = kept 9500 system.gossips }
cleanup_lem_example = cleanup_lem 9500 system (omega arith) (omega arith, (omega arith, _))

abbrev two_heard : Pack
two_heard =
    filled 0 2 1 pack_gossip 14 (0 ∷ 0 ∷ 0 ∷ 2 ∷ 7 ∷ 71 ∷ 2 ∷ 100 ∷ 0 ∷ 8 ∷ 80 ∷ 0 ∷ 9000 ∷ 0 ∷ [])

from_packet-to_data_example :
    from_packet big_endian five_cells system two_heard
    ≡ stored (heard system (newer_alice ∷ bob ∷ []))
unfolding to_data all_bytes
from_packet-to_data_example =
    from_packet-to_data big_endian five_cells system two_heard newer_alice (bob ∷ []) (omega arith)
      refl refl

-- It announces three entries and has two.
abbrev one_short : Pack
one_short =
    filled 0 2 1 pack_gossip 14 (0 ∷ 0 ∷ 0 ∷ 3 ∷ 7 ∷ 71 ∷ 2 ∷ 100 ∷ 0 ∷ 8 ∷ 80 ∷ 0 ∷ 9000 ∷ 0 ∷ [])

random_entries_lem_example :
    (es : List (Entry ℕ ℕ)) × (random_entries (λ i. i + 4) system 5 ≡ chosen es)
    × (length es ≡ min 5 (length system.gossips))
    × Apart es
    × All (λ e. known system.gossips e.uid ≡ some e) es
random_entries_lem_example =
    random_entries_lem (λ i. i + 4) system 5 system-IsSound (omega arith) (omega arith)
