-- ===== src/Turn/Wrap.antt =====
-- code/devcore/turn/src/statem.c: packets as data messages of the relay, and waiting for its answers.
use soter.Base.{
  ℕ, ◌+◌, ◌<◌, ◌≡◌, refl, Bool, true, false, Option, none, some, List, [], ◌∷◌, leb, eqb,
  if◌then◌else◌, length, take, add_size, lt→ltb, nat_bytes,
}
use soter.Proto.{Pack, sent, protopack_send, protopack_recv, overhead, pack_turn, make_pack}
use soter.Proto.Machine.{Host}
use soter.Table.{get}
use soter.Turn.{
  data_msg, header_size, req_make, request_image, req_recv, taken, overread, Client, BindPeer,
  pair_hash,
}

-- -1, an access outside of a block, or 0 with the packet behind `outgoing`.
pub data Wrapped : Type 0 where
  refused : Wrapped
  crashed : Wrapped
  outgoing : Option Pack → Wrapped

module _ {Addr : Type 0} (host : Host) where
  -- The packet is copied into `data`, 2048 bytes, as `protopack_send` does it.  `hton` is lownet's
  -- conversion of the address, `layout` its memory.
  unfoldable pub client_wrap : (List ℕ → List ℕ) → (Addr → List ℕ) → Client Addr → Pack → Wrapped
  client_wrap hton layout cli pack =
      elim (get cli.binded_clients (pair_hash cli.turn_suid pack.h_to)) [
        | none ↦ refused
        | some bpeer ↦ elim (protopack_send host pack) [
          | sent bytes ↦
              let req =
                req_make host hton data_msg (layout bpeer.linfo_connected.addr) pack.h_to 0 bytes
                  (length bytes) in
              outgoing (
                make_pack true 0 cli.turn_suid pack.h_to pack_turn (some (request_image host req))
                  (add_size header_size req.d_size))
          | _ ↦ crashed
        ]
      ]

  unfoldable pub client_unwrap : Client Addr → Pack → Wrapped
  client_unwrap cli pack = elim (get cli.binded_clients (pair_hash cli.turn_suid pack.h_to)) [
    | none ↦ refused
    | some bpeer ↦ elim (req_recv host pack.data_bytes pack.d_size) [
      | taken req ↦ elim (protopack_recv host true (take req.d_size req.data_bytes)) [
        | none ↦ refused
        | some pk ↦ outgoing (some pk)
      ]
      | overread ↦ crashed
      | _ ↦ refused
    ]
  ]

  -- A packet of a bound pair is copied by the length that its size has once it is converted, though a
  -- received packet's size has been converted already: where that exceeds the buffer, the relay
  -- writes past it.
  pub client_wrap-crashed :
      (hton : List ℕ → List ℕ) (layout : Addr → List ℕ) (cli : Client Addr) (pack : Pack)
      (bpeer : BindPeer Addr)
      → get cli.binded_clients (pair_hash cli.turn_suid pack.h_to) ≡ some bpeer
      → 2048 < add_size overhead (host.ntohl pack.d_size)
      → client_wrap hton layout cli pack ≡ crashed
  unfolding client_wrap protopack_send
  client_wrap-crashed hton layout cli pack bpeer bound big =
      rw
        (
          client_wrap,
          bound,
          protopack_send,
          lt→ltb 2048 (add_size overhead (host.ntohl pack.d_size)) big,
        )
        refl

-- One return of `mt_evsock_wait`: an error, the time, or the event, with the request's status in the
-- table then, and the clock afterwards.
pub data Wake : Type 0 where
  broken : Wake
  timed : ℕ → Wake
  notified : Option ℕ → ℕ → Wake

-- The error, the time, the status, or a wait that is not over.
pub data Waited : Type 0 where
  failed late answered waiting : Waited

-- Whether the time is over; `none` is a timeout of -1.
abbrev pub is_late : ℕ → Option ℕ → ℕ → Bool
is_late start none now = false
is_late start (some timeout) now = leb (start + timeout) now

pub req_wait : ℕ → Option ℕ → ℕ → List Wake → Waited
req_wait start timeout status [] = waiting
req_wait start timeout status (broken ∷ wakes) = failed
req_wait start timeout status (timed now ∷ wakes) =
    let rest = req_wait start timeout status wakes in
    if is_late start timeout now then late else rest
req_wait start timeout status (notified none now ∷ wakes) =
    let rest = req_wait start timeout status wakes in
    if is_late start timeout now then late else rest
req_wait start timeout status (notified (some st) now ∷ wakes) =
    let rest = req_wait start timeout status wakes in
    if eqb st status then answered else if is_late start timeout now then late else rest
