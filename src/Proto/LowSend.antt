-- ===== src/Proto/LowSend.antt =====
-- `_pvd_sender_low_send` of code/devcore/providers/src/sender.c, which goes round the sender's queue.
use soter.Base.{
  ◌≡◌, refl, inl, inr, Bool, false, none, some, ltb, length, if◌then◌else◌, Bool-cases, add_size,
}
use soter.Proto.Machine.{Host}
use soter.Proto.{
  Pack, Sent, sent, dropped, overrun, overhead, copy_pack, image, sealed, protopack_send,
  wire_bytes,
}

module _ (host : Host) where
  -- The size is tested on the caller's packet, the fields are converted in the copy.
  pub low_send : Bool → Pack → Sent
  low_send no_conversion pk = elim (copy_pack pk) [
    | none ↦ overrun
    | some copy ↦
        if no_conversion
        then protopack_send host pk
        else if ltb 2048 (add_size overhead pk.d_size)
        then dropped
        else sent (image host (sealed host copy))
  ]

  -- With conversion the direct way puts the same bytes on the socket as the way through the queue, or
  -- drops the same packets.
  pub low_send-wire_bytes : (pk : Pack) → low_send false pk ≡ wire_bytes host pk
  unfolding low_send wire_bytes copy_pack
  low_send-wire_bytes pk = elim (Bool-cases (ltb (length pk.data_bytes) pk.d_size)) [
    | inl short ↦ rw (low_send, wire_bytes, copy_pack, short) refl
    | inr whole ↦ rw (low_send, wire_bytes, copy_pack, whole) refl
  ]
