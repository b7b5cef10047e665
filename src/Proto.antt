-- ===== src/Proto.antt =====
-- code/devcore/protocol/src/proto.c and protomsgs.c, with the conversion that
-- code/devcore/providers/src/sender.c makes before a packet leaves: the packet, its checksum, and the
-- bytes that stand for it on the wire.
pub mod Machine
pub mod Crc
pub mod Wire
pub mod Relay
pub mod Quick
pub mod LowSend
use soter.Base.{
  ℕ, ◌%◌, Bool, true, false, Option, none, some, List, [], ◌∷◌, ◌++◌, ltb, leb, eqb, if◌then◌else◌,
  length, take, drop, replicate, u32_mod, add_size,
}
use soter.Proto.Machine.{Host}
use soter.Proto.Crc.{crc32}

-- `protopack_type`
pub data PackType : Type 0 where
  pack_data pack_ack pack_ping pack_pong pack_punch pack_gossip pack_state pack_rack pack_fin :
      PackType
  pack_raw_udp pack_null pack_turn pack_hello pack_hello2 : PackType

-- The value of the enumeration's constant, as it is stored in `packtype`.
abbrev pub type_code : PackType → ℕ
type_code pack_data = 0
type_code pack_ack = 1
type_code pack_ping = 2
type_code pack_pong = 3
type_code pack_punch = 4
type_code pack_gossip = 5
type_code pack_state = 6
type_code pack_rack = 7
type_code pack_fin = 8
type_code pack_raw_udp = 9
type_code pack_null = 10
type_code pack_turn = 11
type_code pack_hello = 12
type_code pack_hello2 = 13

-- `PACKET_TYPE_MAX`
abbrev pub type_max : ℕ
type_max = 14

-- `protopack`, with `data` the bytes of its block behind the header.
pub record Pack : Type 0 where
  pub seq : ℕ
  pub chsum : ℕ
  pub d_size : ℕ
  pub h_from : ℕ
  pub h_to : ℕ
  pub packtype : ℕ
  pub data_bytes : List ℕ

-- `sizeof(protopack)`, the structure being packed, and `UDP_MTU`
abbrev pub overhead : ℕ
overhead = 21

abbrev pub udp_mtu : ℕ
udp_mtu = 1432

pub is_rudp_req : ℕ → Bool
is_rudp_req type =
    if eqb type (type_code pack_data)
    then true
    else if eqb type (type_code pack_fin)
    then true
    else eqb type (type_code pack_rack)

abbrev pub filled : ℕ → ℕ → ℕ → PackType → ℕ → List ℕ → Pack
filled seq from to type size bytes = record {
  seq = seq;
  chsum = 0;
  d_size = size % u32_mod;
  h_from = from;
  h_to = to;
  packtype = type_code type;
  data_bytes = bytes;
}

-- The payload is the readable memory behind `payload`, or null; a null payload leaves zeros.
pub make_pack : Bool → ℕ → ℕ → ℕ → PackType → Option (List ℕ) → ℕ → Option Pack
make_pack granted seq from to type payload size =
    if ltb udp_mtu (add_size overhead size)
    then none
    else if granted
    then some (
        filled seq from to type size
          (elim payload [ none ↦ replicate size 0 | some bytes ↦ take size bytes ]))
    else none

-- `none` is a read past the end of the packet's block.
unfoldable pub copy_pack : Pack → Option Pack
copy_pack pk =
    if ltb (length pk.data_bytes) pk.d_size
    then none
    else some (record pk { data_bytes = take pk.d_size pk.data_bytes })

pub msg_quick : Bool → ℕ → ℕ → ℕ → PackType → Option Pack
msg_quick granted from to seq type = make_pack granted seq from to type none 0

-- The address is `PROTO_ADDRSIZE`, 6, bytes.
pub msg_syst : Bool → ℕ → ℕ → List ℕ → PackType → Option Pack
msg_syst granted from to addr_port type = make_pack granted 0 from to type (some addr_port) 6

pub msg_punch : Bool → ℕ → ℕ → List ℕ → Option Pack
msg_punch granted from to info = make_pack granted 0 from to pack_punch (some info) 140

-- Bytes for the socket, a packet that the sender drops, or an access outside of a block.
pub data Sent : Type 0 where
  sent : List ℕ → Sent
  dropped : Sent
  overrun : Sent

module _ (host : Host) where
  open host use {htonl, ntohl, bytes_of, word_of}

  -- The packed structure as it lies in memory.
  unfoldable pub image : Pack → List ℕ
  image pk =
      bytes_of pk.seq
      ++ (bytes_of pk.chsum
          ++ (bytes_of pk.d_size
              ++ (bytes_of pk.h_from ++ (bytes_of pk.h_to ++ (pk.packtype ∷ pk.data_bytes)))))

  -- The header fields in network order and the checksum field 0.
  abbrev pub to_network : Pack → Pack
  to_network pk = record pk {
    seq = htonl pk.seq;
    chsum = 0;
    d_size = htonl pk.d_size;
    h_from = htonl pk.h_from;
    h_to = htonl pk.h_to;
  }

  -- In network order, with the checksum of its image.
  abbrev pub sealed : Pack → Pack
  sealed pk = record (to_network pk) { chsum = htonl (crc32 (image (to_network pk))) }

  -- What `pvd_sender_send` and then `pvd_sender_worker`, with no proxy set, make of a packet: the
  -- copy that is queued, and the bytes that go to the socket unless they exceed the buffer.
  pub wire_bytes : Pack → Sent
  wire_bytes pk = elim (copy_pack pk) [
    | none ↦ overrun
    | some copy ↦
        if ltb 2048 (add_size overhead copy.d_size) then dropped else sent (image (sealed copy))
  ]

  pub retranslate : Pack → Option Pack
  retranslate pk = elim (copy_pack pk) [ none ↦ none | some out ↦ some (sealed out) ]

  -- The bytes that `protopack_send` copies into a buffer of 2048.
  unfoldable pub protopack_send : Pack → Sent
  protopack_send pk =
      let total = add_size overhead (ntohl pk.d_size) in
      if ltb 2048 total
      then overrun
      else if ltb (length (image pk)) total
      then overrun
      else sent (take total (image pk))

  -- The structure laid over received bytes, at least as many as its header.
  pub parse : List ℕ → Pack
  parse raw = record {
    seq = word_of (take 4 raw);
    chsum = word_of (take 4 (drop 4 raw));
    d_size = word_of (take 4 (drop 8 raw));
    h_from = word_of (take 4 (drop 12 raw));
    h_to = word_of (take 4 (drop 16 raw));
    packtype = elim (take 1 (drop 20 raw)) [ [] ↦ 0 | b ∷ _ ↦ b ];
    data_bytes = drop 21 raw;
  }

  -- The buffer after `recv_pkt->chsum = 0`.
  pub zero_chsum : List ℕ → List ℕ
  zero_chsum raw = take 4 raw ++ (bytes_of 0 ++ drop 8 raw)

  pub protopack_recv : Bool → List ℕ → Option Pack
  protopack_recv granted raw =
      if leb 2048 (length raw)
      then none
      else if ltb (length raw) overhead
      then none
      else let received = ntohl (parse raw).chsum in
        if eqb received (crc32 (zero_chsum raw))
        then if granted
          then (let final = parse (zero_chsum raw) in
              some (record final {
                chsum = htonl received;
                seq = ntohl final.seq;
                d_size = ntohl final.d_size;
                h_from = ntohl final.h_from;
                h_to = ntohl final.h_to;
              }))
          else none
        else none

  -- A packet in network order inside a `PACK_NULL` packet.
  pub msg_relay : Bool → Pack → ℕ → ℕ → Option Pack
  msg_relay granted og to relay_uid = elim (retranslate og) [
    | none ↦ none
    | some retranslated ↦ elim (protopack_send retranslated) [
      | sent buf ↦ make_pack granted 0 relay_uid to pack_null (some buf) (length buf)
      | _ ↦ none
    ]
  ]
