-- ===== src/Proto/Wire.antt =====
-- proto.c: what `protopack_recv` accepts, and the round trip from the sender to the receiver.
use native.Mathlib.Nat.{mod-eq_of_lt}
use soter.Base.{
  ℕ, ◌+◌, ◌≤◌, ◌<◌, ◌≡◌, refl, sym, ap, ◌∙◌, ◌⊎◌, inl, inr, Bool, true, false, none, some, List, [],
  ◌∷◌, ◌++◌, arith, ltb, leb, length, take, drop, u32_mod, add_size, ltb→lt, not-ltb→le, ◌^◌, ◌%◌,
  Bool-cases, length-append, take-length-append, length-take, drop-append, eqb_refl,
}
use soter.Proto.Machine.{Host}
use soter.Proto.Crc.{crc32, crc32-lt}
use soter.Proto.{
  Pack, PackType, overhead, udp_mtu, filled, make_pack, copy_pack, image, sealed, to_network,
  wire_bytes, sent, parse, zero_chsum, protopack_recv,
}

-- Every header field has its width.
pub record Fits (pk : Pack) : Type 0 where
  pub seq : pk.seq < u32_mod
  pub d_size : pk.d_size < u32_mod
  pub h_from : pk.h_from < u32_mod
  pub h_to : pk.h_to < u32_mod

-- The packet's block holds exactly the data that its header announces.
pub record IsWhole (pk : Pack) : Type 0 where
  pub fits : Fits pk
  pub whole : length pk.data_bytes ≡ pk.d_size

module _ (host : Host) where
  open host use {
    htonl, ntohl, bytes_of, word_of, htonl-lt, ntohl-htonl, length-bytes_of, word_of-bytes_of,
  }

  take_word : (x : ℕ) (rest : List ℕ) → take 4 (bytes_of x ++ rest) ≡ bytes_of x
  take_word x rest = take-length-append (bytes_of x) rest 4 (sym (length-bytes_of x))

  drop_4 : (x : ℕ) (rest : List ℕ) → drop 4 (bytes_of x ++ rest) ≡ drop 0 rest
  drop_4 x rest = drop-append (bytes_of x) rest 4 0 (rw length-bytes_of (omega arith))

  drop_8 : (x : ℕ) (rest : List ℕ) → drop 8 (bytes_of x ++ rest) ≡ drop 4 rest
  drop_8 x rest = drop-append (bytes_of x) rest 8 4 (rw length-bytes_of (omega arith))

  drop_12 : (x : ℕ) (rest : List ℕ) → drop 12 (bytes_of x ++ rest) ≡ drop 8 rest
  drop_12 x rest = drop-append (bytes_of x) rest 12 8 (rw length-bytes_of (omega arith))

  drop_16 : (x : ℕ) (rest : List ℕ) → drop 16 (bytes_of x ++ rest) ≡ drop 12 rest
  drop_16 x rest = drop-append (bytes_of x) rest 16 12 (rw length-bytes_of (omega arith))

  drop_20 : (x : ℕ) (rest : List ℕ) → drop 20 (bytes_of x ++ rest) ≡ drop 16 rest
  drop_20 x rest = drop-append (bytes_of x) rest 20 16 (rw length-bytes_of (omega arith))

  drop_21 : (x : ℕ) (rest : List ℕ) → drop 21 (bytes_of x ++ rest) ≡ drop 17 rest
  drop_21 x rest = drop-append (bytes_of x) rest 21 17 (rw length-bytes_of (omega arith))

  drop_17 : (x : ℕ) (rest : List ℕ) → drop 17 (bytes_of x ++ rest) ≡ drop 13 rest
  drop_17 x rest = drop-append (bytes_of x) rest 17 13 (rw length-bytes_of (omega arith))

  drop_13 : (x : ℕ) (rest : List ℕ) → drop 13 (bytes_of x ++ rest) ≡ drop 9 rest
  drop_13 x rest = drop-append (bytes_of x) rest 13 9 (rw length-bytes_of (omega arith))

  drop_9 : (x : ℕ) (rest : List ℕ) → drop 9 (bytes_of x ++ rest) ≡ drop 5 rest
  drop_9 x rest = drop-append (bytes_of x) rest 9 5 (rw length-bytes_of (omega arith))

  drop_5 : (x : ℕ) (rest : List ℕ) → drop 5 (bytes_of x ++ rest) ≡ drop 1 rest
  drop_5 x rest = drop-append (bytes_of x) rest 5 1 (rw length-bytes_of (omega arith))

  -- Reading the image back gives the words' bytes and the data.
  pub parse-image : (pk : Pack) → Fits pk → pk.chsum < u32_mod → parse host (image host pk) ≡ pk
  unfolding parse image
  parse-image pk f c = simp (
    take_word,
    drop_4,
    drop_8,
    drop_12,
    drop_16,
    drop_20,
    drop_21,
    drop_17,
    drop_13,
    drop_9,
    drop_5,
    word_of-bytes_of pk.seq f.seq,
    word_of-bytes_of pk.chsum c,
    word_of-bytes_of pk.d_size f.d_size,
    word_of-bytes_of pk.h_from f.h_from,
    word_of-bytes_of pk.h_to f.h_to,
  )

  pub length-image : (pk : Pack) → length (image host pk) ≡ overhead + length pk.data_bytes
  unfolding image
  length-image pk = simp (length-append, length-bytes_of) (omega arith)

  -- Clearing the checksum in the buffer is clearing it in the packet.
  pub zero_chsum-image :
      (pk : Pack) → zero_chsum host (image host pk) ≡ image host (record pk { chsum = 0 })
  unfolding zero_chsum image
  zero_chsum-image pk = simp (take_word, drop_8, drop_4)

  -- With the checksum that it carries on the wire.
  abbrev pub received : Pack → Pack
  received pk = record pk { chsum = htonl (crc32 (image host (to_network host pk))) }

  -- `protopack_recv` takes the bytes of a sealed packet of legal length, whatever size its header
  -- announces, and gives the packet back in host order with its checksum.
  pub recv-sealed :
      (pk : Pack)
      → Fits pk
      → overhead + length pk.data_bytes < 2048
      → protopack_recv host true (image host (sealed host pk)) ≡ some (received pk)
  unfolding protopack_recv
  recv-sealed pk f short =
      let net : Fits (sealed host pk) = record {
        seq = htonl-lt _;
        d_size = htonl-lt _;
        h_from = htonl-lt _;
        h_to = htonl-lt _;
      } in
      let crc = crc32 (image host (to_network host pk)) in
      let fits : leb 2048 (length (image host (sealed host pk))) ≡ false =
        rw length-image (ground (arith, short)) in
      let header : ltb (length (image host (sealed host pk))) overhead ≡ false =
        rw length-image (ground (arith, short)) in
      let same : ntohl (htonl crc) ≡ crc = ntohl-htonl crc (crc32-lt _) in
      rw (
        fits,
        header,
        parse-image (sealed host pk) net (htonl-lt _),
        zero_chsum-image (sealed host pk),
        parse-image (to_network host pk)
            (record { seq = net.seq; d_size = net.d_size; h_from = net.h_from; h_to = net.h_to })
            (omega arith),
        same,
        eqb_refl crc,
        ntohl-htonl pk.seq f.seq,
        ntohl-htonl pk.d_size f.d_size,
        ntohl-htonl pk.h_from f.h_from,
        ntohl-htonl pk.h_to f.h_to,
      )

  pub take_all : {A : Type 0} (xs : List A) → take (length xs) xs ≡ xs
  take_all [] = refl
  take_all (x ∷ xs) = ap (λ t. x ∷ t) (take_all xs)

  pub copy_pack-whole : (pk : Pack) → length pk.data_bytes ≡ pk.d_size → copy_pack pk ≡ some pk
  unfolding copy_pack
  copy_pack-whole pk whole =
      let room : ltb (length pk.data_bytes) pk.d_size ≡ false = ground (arith, whole) in
      rw room
        (ap (λ t. some (record pk { data_bytes = t })) (rw (← whole) (take_all pk.data_bytes)))

  -- From `pvd_sender_send` to `protopack_recv`: a packet whose header is right about its data and
  -- whose bytes number less than 2048 leaves the sender, and the receiver gets it back, with the
  -- checksum that it travelled under.
  pub recv-wire_bytes :
      (pk : Pack)
      → IsWhole pk
      → overhead + pk.d_size < 2048
      → (raw : List ℕ) × (wire_bytes host pk ≡ sent raw)
        × (length raw ≡ overhead + pk.d_size)
        × (protopack_recv host true raw ≡ some (received pk))
  unfolding wire_bytes
  recv-wire_bytes pk w short =
      let small : ltb 2048 (add_size overhead pk.d_size) ≡ false = ground (arith, short) in
      (
        image host (sealed host pk),
        rw (wire_bytes, copy_pack-whole pk w.whole, small),
        rw (length-image, w.whole),
        recv-sealed pk w.fits (omega (arith, short, w.whole)),
      )

  -- `protopack_recv` does not compare the announced size with the bytes that came: it accepts a
  -- packet that announces more data than it brings, and the copy that the dispatcher and the sender
  -- make of it reads past the end of its block.
  pub recv-copy_pack-overread :
      (pk : Pack)
      → Fits pk
      → overhead + length pk.data_bytes < 2048
      → length pk.data_bytes < pk.d_size
      → (p : Pack) × (protopack_recv host true (image host (sealed host pk)) ≡ some p)
        × (p.d_size ≡ pk.d_size)
        × (copy_pack p ≡ none)
  unfolding copy_pack
  recv-copy_pack-overread pk f short lie =
      (received pk, recv-sealed pk f short, refl, ground (arith, lie))

-- A packet that `udp_make_pack` makes, from a payload with at least `size` readable bytes or from
-- none, is right about its data and takes at most `UDP_MTU` bytes; it is refused exactly when it would
-- take more or `malloc` fails.
pub make_pack-IsWhole :
    (granted : Bool) (seq from to : ℕ) (type : PackType) (bytes : List ℕ) (size : ℕ)
    → seq < u32_mod
    → from < u32_mod
    → to < u32_mod
    → size ≤ length bytes
    → overhead + size < 2 ^ 64
    → ((granted ≡ true)
        × (overhead + size ≤ udp_mtu)
        × (make_pack granted seq from to type (some bytes) size
            ≡ some (filled seq from to type size (take size bytes)))
        × IsWhole (filled seq from to type size (take size bytes)))
      ⊎ (((granted ≡ false) ⊎ (udp_mtu < overhead + size))
          × (make_pack granted seq from to type (some bytes) size ≡ none))
unfolding make_pack
make_pack-IsWhole false seq from to type bytes size s f t h b =
    elim (Bool-cases (ltb udp_mtu (add_size overhead size))) [
      | inl long ↦ inr (inl refl, rw long)
      | inr short ↦ inr (inl refl, rw short)
    ]
make_pack-IsWhole true seq from to type bytes size s f t h b =
    let total : add_size overhead size ≡ overhead + size = mod-eq_of_lt b in
    elim (Bool-cases (ltb udp_mtu (add_size overhead size))) [
      | inl long ↦ inr (inr (omega (arith, total, ltb→lt _ _ long)), rw long)
      | inr short ↦
          let few : overhead + size ≤ udp_mtu = omega (arith, total, not-ltb→le _ _ short) in
          let kept : size % u32_mod ≡ size = omega (arith, few) in
          inl (
            refl,
            few,
            rw short,
            record {
              fits = record { seq = s; d_size = omega arith; h_from = f; h_to = t };
              whole = length-take size bytes ∙ omega (arith, h, kept);
            },
          )
    ]
