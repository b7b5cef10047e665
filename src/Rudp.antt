-- ===== src/Rudp.antt =====
-- code/devcore/rudp/src/connection.c and packets.c: one end of a reliable connection.
-- The queues `pkts_net` and `pkts_reordered` are the lists that Queue.Fifo shows a `prot_queue` to
-- be; the arrays `pkts_reorder_buf` and `pkts_fhost` are the lists of their elements.  `outbox` is
-- what was handed to `pvd_sender_send`, always for the connection's address.  Times are the
-- monotonic clock's, which are not negative.  Each function holds its locks throughout, so that it
-- is one step; the event sockets, which only wake threads, are left out, as are the fields that
-- the code sets and never reads.
pub mod Reorder
pub mod Holes
pub mod Ack
pub mod Timeouts
pub mod Window
pub mod Handler
use soter.Base.{
  ◌≡◌, refl, ℕ, zero, suc, ◌+◌, ◌*◌, ◌/◌, Bool, true, false, Option, none, some, List, [], ◌∷◌,
  ◌++◌, leb, if◌then◌else◌, length, u32_max, size_max, add32, replicate,
}
use soter.Proto.{Pack, pack_fin, copy_pack, msg_quick}

-- `rudp_pkt_state`
pub data PktState : Type 0 where
  inited in_flight acked lost : PktState

-- `rudp_pending_pkt`; `none` is a null `copy_pack`.
pub record Pending : Type 0 where
  pub seq : ℕ
  pub timestamp : ℕ
  pub copy : Option Pack
  pub state : PktState
  pub retransmit_count : ℕ

abbrev pub send_window : ℕ
send_window = 128

abbrev pub reorder_window : ℕ
reorder_window = 128

abbrev pub retransmission_cap : ℕ
retransmission_cap = 10

pub record Conn : Type 0 where
  pub s_uid : ℕ
  pub c_uid : ℕ
  pub reorder_buf : List Pack
  pub fhost : List Pending
  pub net : List Pack
  pub reordered : List Pack
  pub outbox : List Pack
  pub current_seq : ℕ
  pub last_recved_seq : ℕ
  pub last_ack_sent_seq : ℕ
  pub packets_since_ack : ℕ
  pub last_ack_timestamp : ℕ
  pub ack_threshold : ℕ
  pub ack_timeout_ms : ℕ
  pub avg_rtt_ms : ℕ
  pub closed : Bool

-- `rudp_conn_new`, when its sockets and containers can be made.
unfoldable pub conn_new : ℕ → ℕ → ℕ → Conn
conn_new self_uid conn_uid now = record {
  s_uid = self_uid;
  c_uid = conn_uid;
  reorder_buf = [];
  fhost = [];
  net = [];
  reordered = [];
  outbox = [];
  current_seq = 0;
  last_recved_seq = u32_max;
  last_ack_sent_seq = u32_max;
  packets_since_ack = 0;
  last_ack_timestamp = now;
  ack_threshold = 2;
  ack_timeout_ms = 2000;
  avg_rtt_ms = 250;
  closed = false;
}

pub pkt_make : Option Pack → PktState → ℕ → ℕ → Option Pending
pkt_make none state seq now = none
pkt_make (some pack) state seq now =
    some
      (record { seq = seq; timestamp = now; copy = some pack; state = state; retransmit_count = 0 })

-- `return 0`, `ENOTCONN`, `EAGAIN`, -1, and a copy that reads outside of the caller's packet.
pub data SendStatus : Type 0 where
  sent not_connected try_again failed overread : SendStatus

-- `room` tells whether the array of pending packets could grow.
unfoldable pub conn_send : Bool → ℕ → Conn → Pack → SendStatus × Conn
unfolding pkt_make
conn_send room now c pkt =
    if c.closed
    then (not_connected, c)
    else if leb send_window (length c.fhost)
    then (try_again, c)
    else elim (copy_pack pkt) [
      | none ↦ (overread, c)
      | some copy ↦
          let pack = record copy { seq = c.current_seq } in
          elim (pkt_make (some pack) inited c.current_seq now) [
            | none ↦ (failed, c)
            | some pending ↦
                let out = record c { outbox = c.outbox ++ (pack ∷ []) } in
                if room
                then (
                  sent,
                  record out {
                    fhost = c.fhost ++ (record pending { state = in_flight } ∷ []);
                    current_seq = add32 c.current_seq 1;
                  },
                )
                else (failed, out)
          ]
    ]

-- What `rudp_conn_recv` returns: `ENOTCONN`, -1 for an empty queue, or a packet.
pub data RecvStatus : Type 0 where
  got : Pack → RecvStatus
  nothing unconnected : RecvStatus

take_next : Conn → List Pack → RecvStatus × Conn
take_next c [] = (nothing, c)
take_next c (p ∷ ps) = (got p, record c { reordered = ps })

pub conn_recv : Conn → RecvStatus × Conn
unfolding take_next
conn_recv c = if c.closed then (unconnected, c) else take_next c c.reordered

pub conn_inflight : Conn → ℕ
conn_inflight c = if c.closed then size_max else length c.fhost

unfoldable pub pass_net : Conn → Pack → Conn
pass_net c pkt = record c { net = c.net ++ (pkt ∷ []) }

-- Everything queued is freed, and `PACK_FIN` goes out twice.
pub conn_close : Bool → Conn → Conn
conn_close granted c =
    let fin : List Pack = elim (msg_quick granted c.s_uid c.c_uid c.current_seq pack_fin) [
      | none ↦ []
      | some p ↦ p ∷ p ∷ []
    ] in
    record c {
      net = [];
      reordered = [];
      fhost = [];
      reorder_buf = [];
      outbox = c.outbox ++ fin;
      closed = true;
    }

pub conn_close-c_uid : (granted : Bool) (c : Conn) → (conn_close granted c).c_uid ≡ c.c_uid
unfolding conn_close
conn_close-c_uid granted c = refl
