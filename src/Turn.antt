-- ===== src/Turn.antt =====
-- code/devcore/turn/src/packets.c and, of statem.c, the table of bound peers: requests to a relay and
-- the pairs that it relays for.  `naddr_t` is its 52 bytes, and `ln_hton` a parameter.
pub mod Packets
pub mod Messages
pub mod Wrap
pub mod Service
use Prim.Native.Nat.{bit_xor, bit_or}
use soter.Base.{
  ℕ, ◌+◌, ◌-◌, ◌*◌, ◌/◌, ◌%◌, Bool, true, false, not, Option, none, some, List, [], ◌∷◌, ◌++◌, ltb,
  eqb, if◌then◌else◌, length, take, drop, u32_mod, nat_bytes,
}
use soter.Proto.Machine.{Host}
use soter.Table.{Table, Grants, Own, Status, ok, fail, set, remove, get, create}
use soter.PeerDb.{LightPeer}

-- `turn_rtype`
pub data RequestType : Type 0 where
  open_hole close_hole system_msg data_msg : RequestType

abbrev pub type_code : RequestType → ℕ
type_code open_hole = 0
type_code close_hole = 1
type_code system_msg = 2
type_code data_msg = 3

-- `turn_request`, with the values of its words and the bytes behind its header.
pub record TurnRequest : Type 0 where
  pub type : ℕ
  pub to_uid : ℕ
  pub truid : ℕ
  pub to_whom : List ℕ
  pub d_size : ℕ
  pub data_bytes : List ℕ

-- `sizeof(naddr_t)` and `sizeof(turn_request)`
abbrev pub address_size : ℕ
address_size = 52

abbrev pub header_size : ℕ
header_size = 68

-- Null, a request, or a read past the data.
pub data Incoming : Type 0 where
  dropped : Incoming
  taken : TurnRequest → Incoming
  overread : Incoming

module _ (host : Host) where
  -- `malloc` is taken to succeed.
  pub req_make : (List ℕ → List ℕ) → RequestType → List ℕ → ℕ → ℕ → List ℕ → ℕ → TurnRequest
  req_make hton type to_whom to_uid truid payload d_size = record {
    type = type_code type;
    to_whom = hton to_whom;
    d_size = host.htonl d_size;
    to_uid = host.htonl to_uid;
    truid = host.htonl truid;
    data_bytes = take d_size payload;
  }

  -- A request in memory, in the order of the structure.
  pub request_image : TurnRequest → List ℕ
  request_image r =
      host.bytes_of r.type
      ++ (host.bytes_of r.to_uid
          ++ (host.bytes_of r.truid ++ (r.to_whom ++ (host.bytes_of r.d_size ++ r.data_bytes))))

  -- The word at an offset.
  abbrev pub word_at : ℕ → List ℕ → ℕ
  word_at offset bytes = host.word_of (take 4 (drop offset bytes))

  -- The fields in the order in which the code copies them.
  unfoldable pub req_recv : List ℕ → ℕ → Incoming
  req_recv bytes d_size =
      if ltb d_size header_size
      then dropped
      else if ltb (length bytes) header_size
      then overread
      else let size = host.ntohl (word_at 56 bytes) in
        if not (eqb size (d_size - header_size))
        then dropped
        else if ltb (length bytes) (header_size + size)
        then overread
        else taken (record {
          to_whom = take address_size bytes;
          type = word_at 52 bytes;
          d_size = size;
          to_uid = host.ntohl (word_at 60 bytes);
          truid = host.ntohl (word_at 64 bytes);
          data_bytes = take size (drop header_size bytes);
        })

-- `(x << r) | (x >> (32 - r))`, given `2 ^ r` and `2 ^ (32 - r)`.
abbrev pub rotated : ℕ → ℕ → ℕ → ℕ
rotated up down x = bit_or (x * up % u32_mod) (x / down)

-- The loop of `murmurhash3_32` over whole words.
unfoldable pub hash_words : List ℕ → ℕ → ℕ
hash_words [] h = h
hash_words (k ∷ ks) h =
    let mixed = rotated 32768 131072 (k * 0xcc9e2d51 % u32_mod) * 0x1b873593 % u32_mod in
    hash_words ks ((rotated 8192 524288 (bit_xor h mixed) * 5 + 0xe6546b64) % u32_mod)

-- What follows the loop where the length, in bytes, is a multiple of four.
unfoldable pub hash_end : ℕ → ℕ → ℕ
hash_end len h =
    let a = bit_xor h len in
    let b = bit_xor a (a / 65536) * 0x85ebca6b % u32_mod in
    let c = bit_xor b (b / 8192) * 0xc2b2ae35 % u32_mod in bit_xor c (c / 65536)

-- The two UIDs lie in memory as the loop reads them.
unfoldable pub pair_hash : ℕ → ℕ → ℕ
unfolding hash_words hash_end
pair_hash uid_from uid_to = hash_end 8 (hash_words (uid_from ∷ uid_to ∷ []) 0xEAFE)

-- `turn_bind_peer`
pub record BindPeer (Addr : Type 0) : Type 0 where
  pub linfo_origin : LightPeer Addr
  pub linfo_connected : LightPeer Addr

-- What a `turn_client` knows of whom it relays for.
pub record Client (Addr : Type 0) : Type 0 where
  pub turn_suid : ℕ
  pub truid : ℕ
  pub binded_clients : Table ℕ (BindPeer Addr)

module _ {Addr : Type 0} where
  -- `rand` gives any number; `UINT32_MAX / 2` is below 2 ^ 31.
  pub client_init : ℕ → ℕ → Client Addr
  client_init rand turn_suid = record {
    turn_suid = turn_suid;
    truid = rand % 2147483647;
    binded_clients = create (record { key = true; val = true });
  }

  -- The status of the table is dropped.
  pub client_bind : Grants → Client Addr → ℕ → BindPeer Addr → Client Addr
  client_bind granted cli hsh peer = record cli {
    binded_clients = (set granted cli.binded_clients hsh peer).1;
  }

  pub client_info : Client Addr → ℕ → Option (BindPeer Addr)
  client_info cli hsh = get cli.binded_clients hsh

  pub client_unbind : Client Addr → ℕ → Client Addr
  client_unbind cli hsh = record cli { binded_clients = (remove cli.binded_clients hsh).1 }

  pub check_pair : Client Addr → ℕ → ℕ → Bool
  unfolding pair_hash
  check_pair cli uid_from uid_to = elim (get cli.binded_clients (pair_hash uid_from uid_to)) [
    | none ↦ false
    | some peer ↦ true
  ]
