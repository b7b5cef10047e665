-- ===== src/Tests/Protocol.antt =====
-- proto.c on a big-endian machine, where `htonl` changes nothing.
use soter.Base.{ℕ, ◌+◌, ◌*◌, ◌/◌, ◌%◌, ◌≡◌, refl, true, some, List, [], ◌∷◌, arith, length, u32_mod}
use soter.Proto.Machine.{Host}
use soter.Proto.{
  type_code, pack_null, Pack, filled, pack_data, image, sealed, wire_bytes, sent, protopack_recv,
  msg_relay,
}
use soter.Proto.Wire.{Fits, IsWhole, received, recv-sealed, recv-wire_bytes}
use soter.Proto.Relay.{recv-msg_relay}

abbrev word_of_bytes : List ℕ → ℕ
word_of_bytes (a ∷ b ∷ c ∷ d ∷ _) = a * 16777216 + b * 65536 + c * 256 + d
word_of_bytes _ = 0

abbrev pub big_endian : Host
big_endian = record {
  htonl = λ x. x % u32_mod;
  ntohl = λ x. x;
  bytes_of = λ x. x / 16777216 % 256 ∷ x / 65536 % 256 ∷ x / 256 % 256 ∷ x % 256 ∷ [];
  word_of = word_of_bytes;
  htonl-lt = λ x. omega arith;
  ntohl-htonl = λ x h. omega arith;
  length-bytes_of = λ x. refl;
  word_of-bytes_of = λ x h. omega arith;
}

abbrev hello : Pack
hello = filled 5 11 22 pack_data 3 (104 ∷ 105 ∷ 33 ∷ [])

hello-IsWhole : IsWhole hello
hello-IsWhole = record {
  fits = record {
    seq = omega arith;
    d_size = omega arith;
    h_from = omega arith;
    h_to = omega arith;
  };
  whole = refl;
}

-- A packet that announces nine bytes and brings three.
abbrev liar : Pack
liar = filled 5 11 22 pack_data 9 (104 ∷ 105 ∷ 33 ∷ [])

liar-Fits : Fits liar
liar-Fits = record {
  seq = omega arith;
  d_size = omega arith;
  h_from = omega arith;
  h_to = omega arith;
}

recv-wire_bytes_example :
    (raw : List ℕ) × (wire_bytes big_endian hello ≡ sent raw)
    × (length raw ≡ 24)
    × (protopack_recv big_endian true raw ≡ some (received big_endian hello))
recv-wire_bytes_example = recv-wire_bytes big_endian hello hello-IsWhole (omega arith)

hello_accepted :
    protopack_recv big_endian true (image big_endian (sealed big_endian hello))
    ≡ some (received big_endian hello)
hello_accepted = recv-sealed big_endian hello hello-IsWhole.fits (omega arith)

recv-msg_relay_example :
    (out : Pack) × (msg_relay big_endian true hello 22 33 ≡ some out)
    × (out.packtype ≡ type_code pack_null)
    × (out.h_from ≡ 33)
    × (out.h_to ≡ 22)
    × IsWhole out
    × (protopack_recv big_endian true out.data_bytes ≡ some (received big_endian hello))
recv-msg_relay_example =
    recv-msg_relay big_endian hello 22 33 hello-IsWhole (omega arith) (omega arith) (omega arith)
