-- ===== src/Proto/Relay.antt =====
-- protomsgs.c: `proto_msg_relay` puts a whole packet, as it would go over the wire, inside another.
use native.Mathlib.Nat.{mod-eq_of_lt}
use soter.Base.{
  ℕ, ◌+◌, ◌≤◌, ◌<◌, ◌≡◌, refl, ap, ◌∙◌, inl, inr, true, false, some, arith, ltb, length, take,
  u32_mod, add_size,
}
use soter.Proto.Machine.{Host}
use soter.Proto.{
  Pack, type_code, pack_null, overhead, udp_mtu, filled, image, sealed, retranslate, protopack_send,
  sent, protopack_recv, msg_relay,
}
use soter.Proto.Wire.{
  IsWhole, received, length-image, take_all, copy_pack-whole, make_pack-IsWhole, recv-sealed,
}

module _ (host : Host) where
  open host use {htonl, ntohl, ntohl-htonl}

  send-sealed :
      (pk : Pack)
      → IsWhole pk
      → overhead + pk.d_size < 2048
      → protopack_send host (sealed host pk) ≡ sent (image host (sealed host pk))
  unfolding protopack_send
  send-sealed pk w short =
      let size : add_size overhead (ntohl (htonl pk.d_size))
          ≡ length (image host (sealed host pk)) =
        rw (ntohl-htonl pk.d_size w.fits.d_size, length-image host (sealed host pk), w.whole)
          (mod-eq_of_lt (omega (arith, short))) in
      let small : ltb 2048 (length (image host (sealed host pk))) ≡ false =
        rw (length-image host (sealed host pk), w.whole) (ground (arith, short)) in
      let whole : ltb (length (image host (sealed host pk))) (length (image host (sealed host pk)))
          ≡ false =
        ground arith in
      rw (size, small, whole, take_all host (image host (sealed host pk)))

  -- A relayed packet arrives: `proto_msg_relay` makes a `PACK_NULL` packet from the relay to the UID it
  -- is given, and inside it are bytes from which `protopack_recv` gives the original packet back, with the
  -- checksum of its own journey.  That holds as long as both headers and the data fit in `UDP_MTU`.
  pub recv-msg_relay :
      (og : Pack) (to relay_uid : ℕ)
      → IsWhole og
      → to < u32_mod
      → relay_uid < u32_mod
      → overhead + (overhead + og.d_size) ≤ udp_mtu
      → (out : Pack) × (msg_relay host true og to relay_uid ≡ some out)
        × (out.packtype ≡ type_code pack_null)
        × (out.h_from ≡ relay_uid)
        × (out.h_to ≡ to)
        × IsWhole out
        × (protopack_recv host true out.data_bytes ≡ some (received host og))
  unfolding msg_relay retranslate
  recv-msg_relay og to relay_uid w t r short =
      let raw = image host (sealed host og) in
      let long : length raw ≡ overhead + og.d_size =
        length-image host (sealed host og) ∙ ap (λ n. overhead + n) w.whole in
      let sent_raw = send-sealed og w (omega (arith, short)) in
      let arrives = recv-sealed host og w.fits (omega (arith, short, w.whole)) in
      elim (make_pack-IsWhole true 0 relay_uid to pack_null raw (length raw) (omega arith) r t
        (omega arith) (omega (arith, long, short))) [
          | inl (_, few, made, whole) ↦ (
            filled 0 relay_uid to pack_null (length raw) (take (length raw) raw),
            rw (msg_relay, retranslate, copy_pack-whole host og w.whole, sent_raw) made,
            refl,
            refl,
            refl,
            whole,
            rw (take_all host raw) arrives,
          )
          | inr (inl never, _) ↦ cc
          | inr (inr never, _) ↦ absurd (omega (arith, long, short, never))
        ]
